-- ===== src/Mount/Filter.antt =====
-- src/nvc_mount.c: which libraries of a container `filter_libraries` leaves.
use libxdxgpu_container.Base.{
  ℕ, zero, suc, ◌-◌, ◌≤◌, ◌≡◌, ◌==◌, Bool, true, false, not, ◌&&◌, drop, refl, sym, ap, ◌∙◌, List,
  [], ◌∷◌, ◌++◌, map, Option, none, some, if◌then◌else◌, length, replicate, arith, inl, inr,
  Bool-cases,
}
use libxdxgpu_container.Libc.{Bytes, codes, elem, is_digit, strstr, strspn, strncmp_eq}
use libxdxgpu_container.File.Paths.{basename}
use libxdxgpu_container.Utils.Array.{array_pack}
use libxdxgpu_container.Utils.Array.Pack.{present, array_pack_lem}
use libxdxgpu_container.Container.{NvcContainer}
use libxdxgpu_container.Mount.Libraries.{of_driver, is_filtered, keep_or_null, filter_libraries}
use libxdxgpu_container.Mount.Driver.{NvcDriverInfo, entries, own_libraries}

-- The version begins with the digits that the text begins with.
abbrev pub begins : (version text : Bytes) → Bool
begins version [] = true
begins [] (c ∷ text) = not (is_digit c)
begins (x ∷ version) (c ∷ text) = if is_digit c then x == c && begins version text else true

-- Whether a library is kept, by what of its name begins with ".so.", if anything does.
abbrev pub keeps_behind : Bytes → Option Bytes → Bool
keeps_behind nvrm_version none = false
keeps_behind nvrm_version (some rest) = not (begins nvrm_version (drop 4 rest))

-- A library is kept if its name has ".so.", and the version of the driver does not begin with the
-- digits behind it.
abbrev pub keeps : Bytes → Bytes → Bool
keeps nvrm_version path = keeps_behind nvrm_version (strstr (basename path) (codes ".so."))

-- The libraries that are kept, in their order.
abbrev pub kept : Bytes → List Bytes → List Bytes
kept nvrm_version [] = []
kept nvrm_version (path ∷ paths) =
    if keeps nvrm_version path then path ∷ kept nvrm_version paths else kept nvrm_version paths

elem-is_digit : (c : ℕ) → elem c (codes "0123456789") ≡ is_digit c
elem-is_digit c = ground arith

strncmp_eq-begins :
    (v maj : Bytes) → strncmp_eq (strspn maj (codes "0123456789")) v maj ≡ begins v maj
unfolding strncmp_eq strspn
strncmp_eq-begins v [] = refl
strncmp_eq-begins [] (c ∷ maj) = elim (Bool-cases (is_digit c)) [
  | inl e ↦ rw (elem-is_digit c, e) refl
  | inr e ↦ rw (elem-is_digit c, e) refl
]
strncmp_eq-begins (x ∷ v) (c ∷ maj) = elim (Bool-cases (is_digit c)) [
  | inl e ↦ rw (elem-is_digit c, e) (ap (λ b. x == c && b) (strncmp_eq-begins v maj))
  | inr e ↦ rw (elem-is_digit c, e) refl
]

double_negation : (b : Bool) → b ≡ not (not b)
double_negation true = refl
double_negation false = refl

of_driver-keeps_behind :
    (v : Bytes) (rest : Option Bytes) → of_driver v rest ≡ not (keeps_behind v rest)
of_driver-keeps_behind v none = refl
of_driver-keeps_behind v (some rest) =
    strncmp_eq-begins v (drop 4 rest) ∙ double_negation (begins v (drop 4 rest))

is_filtered-keeps : (v path : Bytes) → is_filtered v path ≡ not (keeps v path)
unfolding is_filtered
is_filtered-keeps v path = of_driver-keeps_behind v (strstr (basename path) (codes ".so."))

present-keep_or_null :
    (v : Bytes) (paths : List Bytes) → present (map (keep_or_null v) paths) ≡ kept v paths
unfolding is_filtered
present-keep_or_null v [] = refl
present-keep_or_null v (path ∷ paths) = elim (Bool-cases (keeps v path)) [
  | inl e ↦
      rw (is_filtered-keeps v path ∙ ap not e, e) (ap (◌∷◌ path) (present-keep_or_null v paths))
  | inr e ↦ rw (is_filtered-keeps v path ∙ ap not e, e) (present-keep_or_null v paths)
]

length-map : (v : Bytes) (paths : List Bytes) → length (map (keep_or_null v) paths) ≡ length paths
length-map v [] = refl
length-map v (path ∷ paths) = ap suc (length-map v paths)

pub length-kept : (v : Bytes) (paths : List Bytes) → length (kept v paths) ≤ length paths
length-kept v [] = omega arith
length-kept v (path ∷ paths) = ground (arith, length-kept v paths)

-- filter_libraries moves the libraries that are kept to the front of the array, in their order, and
-- leaves their number as the size and NULL behind them. A library is kept if its name has ".so." and
-- the version of the driver does not begin with the digits behind it.
pub filter_libraries_lem :
    (v : Bytes) (paths : List Bytes)
    → filter_libraries v paths ≡ (
      map some (kept v paths) ++ replicate (length paths - length (kept v paths)) none,
      length (kept v paths),
    )
unfolding filter_libraries
filter_libraries_lem v paths =
    ap (λ n. array_pack (map (keep_or_null v) paths) n) (sym (length-map v paths))
    ∙ (array_pack_lem (map (keep_or_null v) paths)).0
    ∙ ap
        (λ l.
          (map some l ++ replicate (length (map (keep_or_null v) paths) - length l) none, length l))
        (present-keep_or_null v paths)
    ∙ ap
        (λ n. (
          map some (kept v paths) ++ replicate (n - length (kept v paths)) none,
          length (kept v paths),
        ))
        (length-map v paths)

entries-replicate : (n : ℕ) → entries (replicate n none) ≡ []
entries-replicate zero = refl
entries-replicate (suc n) = refl

entries-some : (l : List Bytes) (n : ℕ) → entries (map some l ++ replicate n none) ≡ l
entries-some [] n = entries-replicate n
entries-some (x ∷ l) n = ap (◌∷◌ x) (entries-some l n)

pub own_libraries-kept :
    (cnt : NvcContainer) (info : NvcDriverInfo)
    → own_libraries cnt info ≡ kept info.nvrm_version cnt.libs
unfolding own_libraries
own_libraries-kept cnt info =
    ap (λ r. entries r.0) (filter_libraries_lem info.nvrm_version cnt.libs)
    ∙ entries-some (kept info.nvrm_version cnt.libs) _
