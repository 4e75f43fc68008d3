-- ===== src/Path/Names.antt =====
-- Names, the paths of names, and what strsep and strrchr make of them.
use libxdxgpu_container.Base.{
  ℕ, ◌+◌, ◌-◌, ◌≤◌, ◌≡◌, ◌≢◌, refl, sym, ap, ◌∙◌, inl, inr, false, List, [], ◌∷◌, ◌++◌,
  append_assoc, Option, none, some, leb, ◌==◌, ==_refl, length, All, arith, Bool-cases,
}
use libxdxgpu_container.Libc.{Bytes, codes, elem, strsep, grow, strrchr, strrchr_cons}
use libxdxgpu_container.Error.{ok, ok-injective}
use libxdxgpu_container.Utils.Str.{str_equal}
use libxdxgpu_container.Path.{path_max, slash, ends_slash, appended, path_append}

-- A name that can stand between two slashes, and does not mean the directory itself or its parent.
abbrev pub IsName : Bytes → Type 0
IsName s =
    (s ≢ [])
    × (elem slash s ≡ false)
    × (str_equal s (codes ".") ≡ false)
    × (str_equal s (codes "..") ≡ false)

-- The path of the names, of which the last comes first.
abbrev pub path_of : List Bytes → Bytes
path_of [] = []
path_of (s ∷ names) = path_of names ++ slash ∷ s

pub elem-strsep : (c : ℕ) (s : Bytes) → elem c (strsep s (c ∷ [])).0 ≡ false
unfolding strsep
elem-strsep c [] = refl
elem-strsep c (x ∷ s) = elim (Bool-cases (x == c)) [
  | inl e ↦ rw e refl
  | inr e ↦ rw e (go (strsep s (c ∷ [])) (elem-strsep c s) (ground arith))
]
  where
    go :
        (r : Bytes × Option Bytes)
        → elem c r.0 ≡ false
        → (c == x) ≡ false
        → elem c (grow x r).0 ≡ false
    go (t, o) h n = ground arith

-- How much of the loop a value of `ptr` can still take.
abbrev pub size : Option Bytes → ℕ
size none = 0
size (some s) = length s + 1

pub size-strsep : (delim s : Bytes) → size (strsep s delim).1 ≤ length s
unfolding strsep
size-strsep delim [] = omega arith
size-strsep delim (x ∷ s) = elim (Bool-cases (elem x delim)) [
  | inl e ↦ rw e (omega arith)
  | inr e ↦ rw e (go (strsep s delim) (size-strsep delim s))
]
  where
    go : (r : Bytes × Option Bytes) → size r.1 ≤ length s → size (grow x r).1 ≤ length (x ∷ s)
    go (t, o) h = omega arith

pub strrchr-none : (c : ℕ) (t : Bytes) → elem c t ≡ false → strrchr t c ≡ none
unfolding strrchr
strrchr-none c [] h = refl
strrchr-none c (x ∷ t) h = rw (strrchr-none c t (ground arith)) (ground arith)

pub strrchr-append :
    (c : ℕ) (a t : Bytes) → elem c t ≡ false → strrchr (a ++ c ∷ t) c ≡ some (a, c ∷ t)
unfolding strrchr
strrchr-append c [] t h = rw (strrchr-none c t h, strrchr_cons, ==_refl c) refl
strrchr-append c (x ∷ a) t h = rw (strrchr-append c a t h) refl

pub ends_slash-last :
    (a : Bytes) (c : ℕ) (t : Bytes) → elem slash (c ∷ t) ≡ false → ends_slash (a ++ c ∷ t) ≡ false
unfolding ends_slash
ends_slash-last [] c [] h = ground arith
ends_slash-last [] c (d ∷ t) h = ends_slash-last [] d t (ground arith)
ends_slash-last (x ∷ []) c t h = ends_slash-last [] c t h
ends_slash-last (x ∷ y ∷ a) c t h = ends_slash-last (y ∷ a) c t h

pub ends_slash-path_of :
    (names : List Bytes) → All IsName names → ends_slash (path_of names) ≡ false
unfolding ends_slash
ends_slash-path_of [] h = refl
ends_slash-path_of ([] ∷ names) ((n, e, d, u), h) = absurd (n refl)
ends_slash-path_of ((c ∷ s) ∷ names) ((n, e, d, u), h) =
    ap ends_slash (sym (append_assoc (path_of names) (slash ∷ []) (c ∷ s)))
    ∙ ends_slash-last (path_of names ++ slash ∷ []) c s e

-- Appending a name to a path of names.
pub path_append-path_of :
    (names : List Bytes) (s : Bytes) {r : Bytes}
    → All IsName names
    → IsName s
    → path_append (path_of names) s ≡ ok r
    → r ≡ path_of (s ∷ names)
unfolding path_append appended
path_append-path_of names [] h n e = absurd (n.0 refl)
path_append-path_of names (c ∷ s) h n e =
    let first : (c == slash) ≡ false = ground arith in
    let text = slash ∷ c ∷ s in
    elim (Bool-cases (leb (path_max - length (path_of names)) (length text))) [
      | inl q ↦ cc (rw (ends_slash-path_of names h, first, q) at e)
      | inr q ↦ sym (ok-injective (rw (ends_slash-path_of names h, first, q) at e))
    ]
