-- ===== src/Container/Made.antt =====
-- What holds of the container of `nvc_container_new`, where it succeeds.
use libxdxgpu_container.Base.{
  ℕ, ◌≡◌, refl, sym, ap, subst, ◌∙◌, Bool, true, false, not, List, [], Option, none, some, inl, inr,
  if◌then◌else◌, Bool-cases, ◌&&◌,
}
use libxdxgpu_container.Base.Bits.{bit}
use libxdxgpu_container.Base.Distinct.{Distinct}
use libxdxgpu_container.Base.Int.{ℤ}
use libxdxgpu_container.Libc.{Bytes}
use libxdxgpu_container.Error.{ok, >>=-eq-ok, ok-injective}
use libxdxgpu_container.Options.{options_parse}
use libxdxgpu_container.Options.Table.{
  container_opts, opt_supervised, opt_standalone, opt_no_cgroups, opt_no_cntlibs, opt_compute_libs,
}
use libxdxgpu_container.Cgroup.{find_device_cgroup_path}
use libxdxgpu_container.Container.{
  NvcContainer, is_one_mode, is_valid_config, is_positive, is_absolute, check_mode,
  find_library_paths, find_cgroup, lookup_owner, build_container, nvc_container_new, options_text,
  text_or_empty, known_path, filled,
}
use libxdxgpu_container.Container.Config.{
  Host, NvcContainerConfig, Directories, resolve_directories,
}
use libxdxgpu_container.Container.Mode.{not-differ}
use libxdxgpu_container.Container.Keeps.{
  same_path, KeepsGiven, resolve_directories-KeepsGiven, find_library_paths-Distinct,
}

abbrev pub is_found : Option Bytes → Bool
is_found none = false
is_found (some path) = true

-- The libraries of the container: none where they are not wanted, and each one once.
abbrev pub AreLibraries : ℕ → List Bytes → Type 0
AreLibraries flags libs =
    Distinct same_path libs
    × ((bit opt_compute_libs flags && not (bit opt_no_cntlibs flags)) ≡ false → libs ≡ [])

-- A container as the configuration and the options ask for it.
pub record IsMade (cfg : NvcContainerConfig) (opts : Option Bytes) (cnt : NvcContainer)
    : Type 0 where
  pub pid : (cnt.pid ≡ cfg.pid) × (is_positive cnt.pid ≡ true)
  pub rootfs : (cfg.rootfs ≡ some cnt.rootfs) × (is_absolute (some cnt.rootfs) ≡ true)
  pub flags : options_parse (options_text opts) container_opts ≡ ok cnt.flags
  pub one_mode : bit opt_supervised cnt.flags ≡ not (bit opt_standalone cnt.flags)
  pub directories : KeepsGiven cfg cnt.cfg
  pub libraries : AreLibraries cnt.flags cnt.libs
  pub cgroup : is_found cnt.dev_cg ≡ not (bit opt_no_cgroups cnt.flags)

some-injective : {A : Type 0} {a b : A} → some a ≡ some b → a ≡ b
some-injective h = cc

rootfs-text_or_empty :
    (rootfs : Option Bytes)
    → is_absolute rootfs ≡ true
    → (rootfs ≡ some (text_or_empty rootfs)) × (is_absolute (some (text_or_empty rootfs)) ≡ true)
rootfs-text_or_empty none h = cc
rootfs-text_or_empty (some s) h = (refl, h)

valid_pid_rootfs :
    (cfg : NvcContainerConfig)
    → is_valid_config cfg ≡ true
    → (is_positive cfg.pid ≡ true) × (is_absolute cfg.rootfs ≡ true)
unfolding is_valid_config
valid_pid_rootfs cfg h = elim (Bool-cases (is_positive cfg.pid)) [
  | inr e ↦ cc (rw e at h)
  | inl e ↦ elim (Bool-cases (is_absolute cfg.rootfs)) [
    | inr f ↦ cc (rw (e, f) at h)
    | inl f ↦ (e, f)
  ]
]

known_path-is_found :
    (path : Option Bytes) {dev_cg : Option Bytes}
    → known_path path ≡ ok (some dev_cg)
    → is_found dev_cg ≡ true
known_path-is_found none h = cc
known_path-is_found (some cg) h =
    ap (λ r. is_found (elim r [ none ↦ none | some d ↦ d ])) (sym (ok-injective h))

find_cgroup-is_found :
    (host : Host) (flags : ℕ) (pid : ℤ) (rootfs : Bytes) {dev_cg : Option Bytes}
    → find_cgroup host flags pid rootfs ≡ ok (some dev_cg)
    → is_found dev_cg ≡ not (bit opt_no_cgroups flags)
unfolding find_cgroup
find_cgroup-is_found host flags pid rootfs h = elim (Bool-cases (bit opt_no_cgroups flags)) [
  | inl e ↦
      ap (λ r. is_found (elim r [ none ↦ none | some d ↦ d ])) (sym (ok-injective (rw e at h)))
      ∙ sym (rw e refl)
  | inr e ↦
      let (path, found, k) =
        >>=-eq-ok (find_device_cgroup_path host.open_text _ _ _) _ (rw e at h) in
      known_path-is_found path k ∙ sym (rw e refl)
]

libraries-AreLibraries :
    (host : Host) (flags : ℕ) (rootfs : Bytes) (dirs : Directories) {libs : List Bytes}
    → (if bit opt_no_cntlibs flags then ok [] else find_library_paths host flags rootfs dirs)
      ≡ ok libs
    → AreLibraries flags libs
unfolding find_library_paths
libraries-AreLibraries host flags rootfs dirs h = elim (Bool-cases (bit opt_no_cntlibs flags)) [
  | inl e ↦ subst (AreLibraries flags) (ok-injective (rw e at h)) (tt, λ n. refl)
  | inr e ↦ elim (Bool-cases (bit opt_compute_libs flags)) [
    | inl f ↦
        (find_library_paths-Distinct host flags rootfs dirs (rw e at h), λ n. cc (rw (e, f) at n))
    | inr f ↦ subst (AreLibraries flags) (ok-injective (rw (e, f) at h)) (tt, λ n. refl)
  ]
]

check_mode-one_mode :
    (flags : ℕ) {mode : ℕ}
    → check_mode flags ≡ ok mode
    → (flags ≡ mode) × (bit opt_supervised flags ≡ not (bit opt_standalone flags))
unfolding check_mode is_one_mode
check_mode-one_mode flags h = elim (Bool-cases (is_one_mode flags)) [
  | inr e ↦ cc (rw e at h)
  | inl e ↦ (ok-injective (rw e at h), not-differ _ _ e)
]

filled-IsMade :
    (host : Host) (flags : ℕ) (cfg : NvcContainerConfig) (opts : Option Bytes)
    → (dirs : Directories) (owner : ℕ × ℕ) (libs : List Bytes) (cgroup : Option (Option Bytes))
    → {cnt : NvcContainer} → is_valid_config cfg ≡ true
    → options_parse (options_text opts) container_opts ≡ ok flags
    → bit opt_supervised flags ≡ not (bit opt_standalone flags)
    → KeepsGiven cfg dirs
    → AreLibraries flags libs
    → find_cgroup host flags cfg.pid (text_or_empty cfg.rootfs) ≡ ok cgroup
    → filled host flags cfg dirs owner libs cgroup ≡ some cnt
    → IsMade cfg opts cnt
unfolding filled
filled-IsMade host flags cfg opts dirs owner libs none v p m kept listed found h = cc
filled-IsMade host flags cfg opts dirs owner libs (some dev_cg) v p m kept listed found h =
    let (positive, absolute) = valid_pid_rootfs cfg v in
    subst (IsMade cfg opts) (some-injective h) (record {
      pid = (refl, positive);
      rootfs = rootfs-text_or_empty cfg.rootfs absolute;
      flags = p;
      one_mode = m;
      directories = kept;
      libraries = listed;
      cgroup = find_cgroup-is_found host flags cfg.pid (text_or_empty cfg.rootfs) found;
    })

build_container-IsMade :
    (host : Host) (flags : ℕ) (cfg : NvcContainerConfig) (opts : Option Bytes) {cnt : NvcContainer}
    → is_valid_config cfg ≡ true
    → options_parse (options_text opts) container_opts ≡ ok flags
    → bit opt_supervised flags ≡ not (bit opt_standalone flags)
    → build_container host flags cfg ≡ ok (some cnt)
    → IsMade cfg opts cnt
unfolding build_container
build_container-IsMade host flags cfg opts v p m h =
    let rootfs = text_or_empty cfg.rootfs in
    let (dirs, resolved, i) = >>=-eq-ok (resolve_directories host flags rootfs cfg) _ h in
    let (owner, looked, j) = >>=-eq-ok (lookup_owner host flags cfg.pid rootfs) _ i in
    let (libs, listed, k) =
      >>=-eq-ok
        (if bit opt_no_cntlibs flags then ok [] else find_library_paths host flags rootfs dirs) _
        j in
    let (cgroup, found, l) = >>=-eq-ok (find_cgroup host flags cfg.pid rootfs) _ k in
    filled-IsMade host flags cfg opts dirs owner libs cgroup v p m
      (resolve_directories-KeepsGiven host flags rootfs cfg resolved)
      (libraries-AreLibraries host flags rootfs dirs listed) found (ok-injective l)

-- A container that `nvc_container_new` makes has the process id of the configuration, which is
-- positive, and its root directory, which is absolute; its flags are what the text of the options
-- (or the default text) asks for, and name exactly one of the supervised and the standalone mode;
-- each directory that the configuration gives is kept; each of its own libraries is listed once, and
-- none unless compute-libs is asked for and no-cntlibs is not; and a device cgroup is known exactly
-- if no-cgroups is not asked for.
pub nvc_container_new-IsMade :
    (host : Host) (cfg : NvcContainerConfig) (opts : Option Bytes) {cnt : NvcContainer}
    → nvc_container_new host cfg opts ≡ ok (some cnt)
    → IsMade cfg opts cnt
unfolding nvc_container_new
nvc_container_new-IsMade host cfg opts h = elim (Bool-cases (is_valid_config cfg)) [
  | inr v ↦ cc (rw v at h)
  | inl v ↦
      let (flags, parsed, i) =
        >>=-eq-ok (options_parse (options_text opts) container_opts) _ (rw v at h) in
      let (mode, checked, j) = >>=-eq-ok (check_mode flags) _ i in
      let (same, one) = check_mode-one_mode flags checked in
      build_container-IsMade host flags cfg opts v parsed one
        (ap (λ m. build_container host m cfg) same ∙ j)
]
