-- ===== src/Context/Alive.antt =====
-- src/nvc.c: the parts of nvc_init end.
use libxdxgpu_container.Base.{
  ℕ, Bool, true, false, not, ◌||◌, List, [], ◌∷◌, Option, none, some, ◌==◌, ◌⊎◌, inl, inr,
  Bool-cases,
}
use libxdxgpu_container.Base.Bits.{bit}
use libxdxgpu_container.Libc.{Bytes, codes}
use libxdxgpu_container.Error.{Result, ok, err, Failure}
use libxdxgpu_container.Utils.Ids.{enoent}
use libxdxgpu_container.Options.Table.{opt_load_kmods}
use libxdxgpu_container.Kernel.{Kernel, Op, try, return, ask}
use libxdxgpu_container.File.{has_errno}
use libxdxgpu_container.File.Total.{
  Lives, Lives-pure, Lives-bind, Lives-try, Lives-fail, Lives-ask, Lives-when,
}
use libxdxgpu_container.Process.{scanned, uint32_in, file_read_uint32, line_read, file_read_line}
use libxdxgpu_container.Mount.{DriverStore}
use libxdxgpu_container.Update.{unless_errno_of}
use libxdxgpu_container.Context.{
  Services, map_scanned, unsupported, map_read, check_map, groups_read, check_groups, or_next,
  init_within_userns, load_kernel_modules, id_or_overflow, ns_opened, first_adapter, load_modules,
  scan_map, uint32_max,
}

module _ (kernel : Kernel) where
  Lives-line_read : (path : Bytes) (n : ℕ) (r : ℕ ⊎ Option Bytes) → Lives (line_read path n r)
  unfolding line_read
  Lives-line_read path n (inl e) = Lives-fail _
  Lives-line_read path n (inr none) = Lives-fail _
  Lives-line_read path n (inr (some text)) = Lives-pure _

  Lives-line : (path : Bytes) (n : ℕ) → Lives (file_read_line kernel path n)
  unfolding file_read_line
  Lives-line path n =
      Lives-bind (ask (λ h. kernel.read_text h path)) _ (Lives-ask _) (Lives-line_read path n)

  Lives-scanned : (path : Bytes) (x : ℕ × Option Bytes) → Lives (scanned path x)
  Lives-scanned path (n, none) = Lives-fail _
  Lives-scanned path (n, some rest) = Lives-pure _

  Lives-uint32_in : (path : Bytes) (r : ℕ ⊎ Option Bytes) → Lives (uint32_in path r)
  unfolding uint32_in
  Lives-uint32_in path (inl e) = Lives-fail _
  Lives-uint32_in path (inr none) = Lives-fail _
  Lives-uint32_in path (inr (some text)) = Lives-scanned path _

  pub Lives-id : (path : Bytes) (id : Option ℕ) → Lives (id_or_overflow kernel path id)
  unfolding id_or_overflow file_read_uint32
  Lives-id path (some id) = Lives-pure id
  Lives-id path none =
      Lives-bind (ask (λ h. kernel.read_text h path)) _ (Lives-ask _) (Lives-uint32_in path)

  Lives-unsupported : {A : Type 0} (a : A) (e : Failure) → Lives (unsupported a e)
  Lives-unsupported a e = elim (Bool-cases (has_errno enoent e)) [
    | inl t ↦ rw t (Lives-pure a)
    | inr t ↦ rw t (Lives-fail e)
  ]

  Lives-map_scanned : (path : Bytes) (m : Option (ℕ × ℕ × ℕ)) → Lives (map_scanned path m)
  Lives-map_scanned path none = Lives-fail _
  Lives-map_scanned path (some (x, y, z)) =
      elim (Bool-cases (not (x == 0) || not (y == 0) || not (z == uint32_max))) [
        | inl t ↦ rw t (Lives-pure (some true))
        | inr t ↦ rw t (Lives-pure none)
      ]

  Lives-map_read : (path : Bytes) (r : Result Bytes) → Lives (map_read path r)
  unfolding map_read
  Lives-map_read path (err e) = Lives-unsupported (some false) e
  Lives-map_read path (ok []) = Lives-pure _
  Lives-map_read path (ok (c ∷ buf)) = Lives-map_scanned path (scan_map (c ∷ buf))

  Lives-check_map : (path : Bytes) → Lives (check_map kernel path)
  unfolding check_map
  Lives-check_map path =
      Lives-bind (try (file_read_line kernel path 64)) _ (Lives-try _ (Lives-line path 64))
        (Lives-map_read path)

  Lives-groups_read : (r : Result Bytes) → Lives (groups_read r)
  unfolding groups_read
  Lives-groups_read (err e) = Lives-unsupported false e
  Lives-groups_read (ok buf) = Lives-pure _

  Lives-or_next : (m : Op Bool) → Lives m → (r : Option Bool) → Lives (or_next m r)
  Lives-or_next m l (some b) = Lives-pure b
  Lives-or_next m l none = l

  Lives-userns : Lives (init_within_userns kernel)
  unfolding init_within_userns check_groups
  Lives-userns = Lives-bind (check_map kernel _) _ (Lives-check_map _) (
      Lives-or_next _ (
        Lives-bind (check_map kernel _) _ (Lives-check_map _) (
          Lives-or_next _ (
            Lives-bind (try (file_read_line kernel _ 64)) _ (Lives-try _ (Lives-line _ 64))
              Lives-groups_read))))

  Lives-unless_errno_of : (text : Bytes) (r : Option ℕ) → Lives (unless_errno_of text r)
  Lives-unless_errno_of text none = Lives-pure tt
  Lives-unless_errno_of text (some errno) = Lives-fail _

  pub Lives-ns_opened : (r : ℕ ⊎ ℕ) → Lives (ns_opened r)
  Lives-ns_opened (inl errno) = Lives-fail _
  Lives-ns_opened (inr fd) = Lives-pure fd

  pub Lives-first_adapter : (r : Option (List DriverStore)) → Lives (first_adapter r)
  Lives-first_adapter none = Lives-pure none
  Lives-first_adapter (some []) = Lives-fail _
  Lives-first_adapter (some (a ∷ adapters)) = Lives-pure (some a)

  pub Lives-return : {A : Type 0} (r : Result A) → Lives (return r)
  Lives-return (ok a) = Lives-pure a
  Lives-return (err e) = Lives-fail e

  module _ (services : Services) where
    pub Lives-load_modules :
        (flags : ℕ) (dxcore : Option DriverStore)
        → Lives (load_modules kernel services flags dxcore)
    unfolding load_modules load_kernel_modules
    Lives-load_modules flags none = Lives-when (bit opt_load_kmods flags) _ (
        Lives-bind (init_within_userns kernel) _ Lives-userns (λ userns. Lives-when (not userns) _ (
          Lives-bind (ask (λ h. services.fork h)) _ (Lives-ask _)
            (Lives-unless_errno_of (codes "process creation failed")))))
    Lives-load_modules flags (some a) = Lives-pure tt
