-- ===== src/Container/Keeps.antt =====
-- src/nvc_container.c: what `copy_config` keeps, and what `find_library_paths` lists.
use libxdxgpu_container.Base.{
  ℕ, ◌≡◌, refl, sym, subst, ◌∙◌, Bool, true, List, [], ◌∷◌, ◌++◌, Option, none, some, inl, inr,
  length, drop, if◌then◌else◌, Bool-cases, ◌↔◌,
}
use libxdxgpu_container.Base.Bits.{bit}
use libxdxgpu_container.Base.Distinct.{present, Distinct, Distinct-concat}
use libxdxgpu_container.Libc.{Bytes, codes}
use libxdxgpu_container.Error.{ok, >>=-eq-ok, ok-injective}
use libxdxgpu_container.Options.Table.{opt_compute_libs}
use libxdxgpu_container.Path.{path_append}
use libxdxgpu_container.Utils.Str.{str_equal, str_array_match}
use libxdxgpu_container.Utils.Str.Laws.{str_equal_iff}
use libxdxgpu_container.Container.{add_library_paths, find_library_paths}
use libxdxgpu_container.Container.Config.{
  given_or, exists_below, Host, NvcContainerConfig, Directories, libs32_or_probe, choose_libs,
  library_dirs, dri_dir, ldconfig_path, root_of, resolve_directories,
}

abbrev pub same_path : Bytes → Bytes → Bool
same_path a b = str_equal b a

same_path_iff : (a b : Bytes) → (same_path a b ≡ true) ↔ (a ≡ b)
same_path_iff a b = (λ e. sym ((str_equal_iff b a).0 e), λ e. (str_equal_iff b a).1 (sym e))

present-str_array_match :
    (x : Bytes) (ys : List Bytes) → present same_path x ys ≡ str_array_match x ys
unfolding str_array_match
present-str_array_match x [] = refl
present-str_array_match x (y ∷ ys) = rw (present-str_array_match x ys) refl

add_path-Distinct :
    (path : Bytes) (libs : List Bytes)
    → Distinct same_path libs
    → Distinct same_path (if str_array_match path libs then libs else libs ++ path ∷ [])
add_path-Distinct path libs d = elim (Bool-cases (str_array_match path libs)) [
  | inl e ↦ rw e d
  | inr e ↦
      rw e (
        Distinct-concat same_path same_path_iff libs path d (present-str_array_match path libs ∙ e))
]

add_library_paths-Distinct :
    (host : Host) (rootfs : Bytes) (files libs : List Bytes) {result : List Bytes}
    → Distinct same_path libs
    → add_library_paths host rootfs files libs ≡ ok result
    → Distinct same_path result
unfolding add_library_paths
add_library_paths-Distinct host rootfs [] libs d h = subst (Distinct same_path) (ok-injective h) d
add_library_paths-Distinct host rootfs (file ∷ files) libs d h =
    let (path, found, k) = >>=-eq-ok (host.resolve rootfs (drop (length rootfs) file)) _ h in
    add_library_paths-Distinct host rootfs files _ (add_path-Distinct path libs d) k

pub find_library_paths-Distinct :
    (host : Host) (flags : ℕ) (rootfs : Bytes) (dirs : Directories) {libs : List Bytes}
    → find_library_paths host flags rootfs dirs ≡ ok libs
    → Distinct same_path libs
unfolding find_library_paths
find_library_paths-Distinct host flags rootfs dirs h =
    elim (Bool-cases (bit opt_compute_libs flags)) [
      | inr e ↦ subst (Distinct same_path) (ok-injective (rw e at h)) tt
      | inl e ↦
          let (path, resolved, k) =
            >>=-eq-ok (host.resolve_full rootfs dirs.cudart_dir) _ (rw e at h) in
          let (pattern, appended, l) =
            >>=-eq-ok (path_append path (codes "compat/lib*.so.*")) _ k in
          let (files, matched, m) = >>=-eq-ok (host.glob pattern) _ l in
          add_library_paths-Distinct host rootfs files [] tt m
    ]

-- A directory that is given is kept.
abbrev pub Kept : Option Bytes → Bytes → Type 0
Kept none dir = Unit
Kept (some given) dir = dir ≡ given

Kept-given_or : (given : Option Bytes) (default : Bytes) → Kept given (given_or given default)
Kept-given_or none default = tt
Kept-given_or (some dir) default = refl

Kept-libs32_or_probe :
    (host : Host) (root libs_dir : Bytes) (given : Option Bytes) {dir : Bytes}
    → libs32_or_probe host root libs_dir given ≡ ok dir
    → Kept given dir
unfolding libs32_or_probe
Kept-libs32_or_probe host root libs_dir none h = tt
Kept-libs32_or_probe host root libs_dir (some given) h = sym (ok-injective h)

-- What is kept of two library directories.
abbrev BothKept : Option Bytes → Option Bytes → Bytes × Bytes → Type 0
BothKept libs libs32 dirs = Kept libs dirs.0 × Kept libs32 dirs.1

BothKept-choose_libs :
    (host : Host) (root : Bytes) (libs libs32 : Option Bytes) {dirs : Bytes × Bytes}
    → choose_libs host root libs libs32 ≡ ok dirs
    → BothKept libs libs32 dirs
unfolding choose_libs
BothKept-choose_libs host root libs libs32 h =
    let (multiarch, there, k) =
      >>=-eq-ok (exists_below host root (codes "/etc/debian_version")) _ h in
    elim (Bool-cases multiarch) [
      | inl e ↦
          subst (BothKept libs libs32) (ok-injective (rw e at k))
            (Kept-given_or libs _, Kept-given_or libs32 _)
      | inr e ↦
          let (dir32, probed, l) =
            >>=-eq-ok (libs32_or_probe host root (given_or libs (codes "/usr/lib64")) libs32) _
              (rw e at k) in
          subst (BothKept libs libs32) (ok-injective l)
            (Kept-given_or libs _, Kept-libs32_or_probe host root _ libs32 probed)
    ]

BothKept-library_dirs :
    (host : Host) (root : Bytes) (libs libs32 : Option Bytes) {dirs : Bytes × Bytes}
    → library_dirs host root libs libs32 ≡ ok dirs
    → BothKept libs libs32 dirs
unfolding library_dirs
BothKept-library_dirs host root (some a) (some b) h =
    subst (BothKept (some a) (some b)) (ok-injective h) (refl, refl)
BothKept-library_dirs host root (some a) none h = BothKept-choose_libs host root (some a) none h
BothKept-library_dirs host root none (some b) h = BothKept-choose_libs host root none (some b) h
BothKept-library_dirs host root none none h = BothKept-choose_libs host root none none h

Kept-dri_dir :
    (host : Host) (given : Option Bytes) {dir : Bytes}
    → dri_dir host given ≡ ok dir
    → Kept given dir
unfolding dri_dir
Kept-dri_dir host none h = tt
Kept-dri_dir host (some given) h = sym (ok-injective h)

Kept-ldconfig_path :
    (host : Host) (root : Bytes) (given : Option Bytes) {path : Bytes}
    → ldconfig_path host root given ≡ ok path
    → Kept given path
unfolding ldconfig_path
Kept-ldconfig_path host root none h = tt
Kept-ldconfig_path host root (some given) h = sym (ok-injective h)

-- The directories of a container, by its configuration.
pub record KeepsGiven (cfg : NvcContainerConfig) (dirs : Directories) : Type 0 where
  pub bins : Kept cfg.bins_dir dirs.bins_dir
  pub libs : Kept cfg.libs_dir dirs.libs_dir
  pub libs32 : Kept cfg.libs32_dir dirs.libs32_dir
  pub dris : Kept cfg.dris_dir dirs.dris_dir
  pub cudart : Kept cfg.cudart_dir dirs.cudart_dir
  pub ldconfig : Kept cfg.ldconfig dirs.ldconfig

pub resolve_directories-KeepsGiven :
    (host : Host) (flags : ℕ) (rootfs : Bytes) (cfg : NvcContainerConfig) {dirs : Directories}
    → resolve_directories host flags rootfs cfg ≡ ok dirs
    → KeepsGiven cfg dirs
unfolding resolve_directories
resolve_directories-KeepsGiven host flags rootfs cfg h =
    let (root, found, k) = >>=-eq-ok (root_of host flags cfg.pid rootfs) _ h in
    let (libs, chosen, l) = >>=-eq-ok (library_dirs host root cfg.libs_dir cfg.libs32_dir) _ k in
    let (dris, named, m) = >>=-eq-ok (dri_dir host cfg.dris_dir) _ l in
    let (ldconfig, probed, n) = >>=-eq-ok (ldconfig_path host root cfg.ldconfig) _ m in
    subst (KeepsGiven cfg) (ok-injective n) (record {
      bins = Kept-given_or cfg.bins_dir _;
      libs = (BothKept-library_dirs host root cfg.libs_dir cfg.libs32_dir chosen).0;
      libs32 = (BothKept-library_dirs host root cfg.libs_dir cfg.libs32_dir chosen).1;
      dris = Kept-dri_dir host cfg.dris_dir named;
      cudart = Kept-given_or cfg.cudart_dir _;
      ldconfig = Kept-ldconfig_path host root cfg.ldconfig probed;
    })
