-- ===== src/Mount/Capacity.antt =====
-- src/nvc_mount.c: the array of the mounts of nvc_driver_mount has room for all of them.
use libxdxgpu_container.Base.{
  ℕ, ◌+◌, ◌≤◌, ◌<◌, Bool, true, false, not, ◌&&◌, List, [], ◌∷◌, ◌++◌, length, length-append, arith,
  subst, sym, inl, inr, none, Bool-cases,
}
use libxdxgpu_container.Base.Bits.{bit}
use libxdxgpu_container.Libc.{Bytes}
use libxdxgpu_container.Options.Table.{opt_compat32, opt_no_devbind, opt_no_cgroups}
use libxdxgpu_container.Info.{NvcDeviceNode}
use libxdxgpu_container.Container.{NvcContainer}
use libxdxgpu_container.Kernel.{Kernel, Op, return, or_else}
use libxdxgpu_container.Kernel.Gives.{
  Gives, Gives-pure, Gives-weaker, Gives-bind, Gives-behind, Gives-or_else,
}
use libxdxgpu_container.File.{file_create, when, mode_dir}
use libxdxgpu_container.Path.{path_new}
use libxdxgpu_container.Mount.{NvcContext, mount_device, resolve, allow_device}
use libxdxgpu_container.Mount.Files.{mount_each, mount_files, mount_file, is_wanted, unmount_all}
use libxdxgpu_container.Mount.Filter.{length-kept, own_libraries-kept}
use libxdxgpu_container.Mount.Libraries.{symlink_libraries}
use libxdxgpu_container.Mount.Driver.{
  NvcDriverInfo, is_nil, guarded, add_mounts, mount_some, is_passed_over, mount_node,
  mount_and_allow, mount_nodes, has_dxcore, own_libraries, mount_own, driver_mounts, mount_capacity,
}

-- At most `n` mounts.
abbrev pub AtMost : ℕ → List Bytes → Type 0
AtMost n mnts = length mnts ≤ n

module _ (kernel : Kernel) where
  weaker : (m n : ℕ) (o : Op (List Bytes)) → m ≤ n → Gives (AtMost m) o → Gives (AtMost n) o
  weaker m n o i g = Gives-weaker _ _ o (λ l k. omega arith) g

  each :
      (wanted : Bytes → Bool) (one : Bytes → Op Bytes) (mnts paths : List Bytes)
      → Gives (AtMost (length mnts + length paths)) (mount_each kernel wanted one mnts paths)
  unfolding mount_each
  each wanted one mnts [] = Gives-pure _ mnts (omega arith)
  each wanted one mnts (path ∷ paths) = elim (Bool-cases (wanted path)) [
    | inr e ↦
        rw (e, mount_each)
          (weaker _ _ (mount_each kernel wanted one mnts paths) (omega arith)
            (each wanted one mnts paths))
    | inl e ↦
        rw (e, mount_each)
          (Gives-behind _ (or_else (one path) (unmount_all kernel mnts)) _ (λ mnt.
            weaker _ _ (mount_each kernel wanted one (mnts ++ mnt ∷ []) paths)
              (omega (arith, length-append mnts (mnt ∷ [])))
              (each wanted one (mnts ++ mnt ∷ []) paths)))
  ]

  files :
      (root : Bytes) (cnt : NvcContainer) (dir : Bytes) (paths : List Bytes)
      → Gives (AtMost (length paths)) (mount_files kernel root cnt dir paths)
  unfolding mount_files
  files root cnt dir paths = Gives-behind _ (return (path_new root)) _ (λ src.
      Gives-behind _ (resolve kernel cnt.rootfs dir) _ (λ dst.
        Gives-behind _ (file_create kernel dst none cnt.uid cnt.gid (mode_dir 493)) _ (λ u.
          weaker _ _ (mount_each kernel _ (mount_file kernel cnt src dst) [] paths) (omega arith)
            (each (is_wanted cnt.flags) (mount_file kernel cnt src dst) [] paths))))

  some :
      (root : Bytes) (cnt : NvcContainer) (dir : Bytes) (wanted : Bool) (paths : List Bytes)
      → Gives (AtMost (length paths)) (mount_some kernel root cnt dir wanted paths)
  unfolding mount_some
  some root cnt dir wanted paths = elim (Bool-cases (wanted && not (is_nil paths))) [
    | inl e ↦ rw e (files root cnt dir paths)
    | inr e ↦ rw e (Gives-pure _ [] (omega arith))
  ]

  own :
      (cnt : NvcContainer) (info : NvcDriverInfo)
      → Gives (AtMost (length cnt.libs)) (mount_own kernel cnt info)
  unfolding mount_own
  own cnt info = elim (Bool-cases (is_nil cnt.libs)) [
    | inl e ↦ rw e (Gives-pure _ [] (omega arith))
    | inr e ↦ rw e (
        weaker _ _ (mount_files kernel cnt.rootfs cnt cnt.cfg.libs_dir (own_libraries cnt info))
          (subst (λ l. length l ≤ length cnt.libs) (sym (own_libraries-kept cnt info))
            (length-kept info.nvrm_version cnt.libs))
          (files cnt.rootfs cnt cnt.cfg.libs_dir (own_libraries cnt info)))
  ]

  added :
      (m n : ℕ) (mnts : List Bytes) (o : Op (List Bytes))
      → length mnts ≤ m
      → Gives (AtMost n) o
      → Gives (AtMost (m + n)) (add_mounts kernel mnts o)
  unfolding add_mounts guarded
  added m n mnts o i g =
      Gives-bind (AtMost n) _ (guarded kernel mnts o) _
        (Gives-or_else _ o (unmount_all kernel mnts) g)
        (λ tmp k. Gives-pure _ (mnts ++ tmp) (omega (arith, length-append mnts tmp)))

  node :
      (ctx : NvcContext) (cnt : NvcContainer) (dev : NvcDeviceNode) (b : Bool)
      → Gives (AtMost 1) (mount_node kernel ctx cnt dev b)
  unfolding mount_node
  node ctx cnt dev true = Gives-pure _ [] (omega arith)
  node ctx cnt dev false =
      Gives-behind _ (mount_device kernel ctx.root cnt dev) _
        (λ mnt. Gives-pure _ (mnt ∷ []) (omega arith))

  and_allow :
      (ctx : NvcContext) (cnt : NvcContainer) (dev : NvcDeviceNode) (m : ℕ) (mnts : List Bytes)
      → length mnts ≤ m
      → Gives (AtMost (m + 1)) (mount_and_allow kernel ctx cnt dev mnts)
  unfolding mount_and_allow
  and_allow ctx cnt dev m mnts i =
      let one : Op (List Bytes) = mount_node kernel ctx cnt dev (bit opt_no_devbind cnt.flags) in
      Gives-bind (AtMost (m + 1)) (AtMost (m + 1)) (add_mounts kernel mnts one) _
        (added m 1 mnts one i (node ctx cnt dev (bit opt_no_devbind cnt.flags)))
        (λ mnts' j.
          Gives-behind (AtMost (m + 1))
            (guarded kernel mnts'
              (when (not (bit opt_no_cgroups cnt.flags)) (allow_device kernel cnt dev.id)))
            _ (λ u. Gives-pure (AtMost (m + 1)) mnts' j))

  nodes :
      (ctx : NvcContext) (cnt : NvcContainer) (dxcore : Bool) (devs : List NvcDeviceNode) (m : ℕ)
      (mnts : List Bytes)
      → length mnts ≤ m
      → Gives (AtMost (m + length devs)) (mount_nodes kernel ctx cnt dxcore devs mnts)
  unfolding mount_nodes
  nodes ctx cnt dxcore [] m mnts i = Gives-pure _ mnts (omega arith)
  nodes ctx cnt dxcore (dev ∷ devs) m mnts i =
      elim (Bool-cases (is_passed_over cnt.flags dxcore dev)) [
        | inl e ↦
            rw (e, mount_nodes)
              (weaker _ _ (mount_nodes kernel ctx cnt dxcore devs mnts) (omega arith)
                (nodes ctx cnt dxcore devs m mnts i))
        | inr e ↦
            rw (e, mount_nodes)
              (Gives-bind (AtMost (m + 1)) _ (mount_and_allow kernel ctx cnt dev mnts) _
                (and_allow ctx cnt dev m mnts i)
                (λ mnts' j.
                  weaker _ _ (mount_nodes kernel ctx cnt dxcore devs mnts') (omega arith)
                    (nodes ctx cnt dxcore devs (m + 1) mnts' j)))
      ]

-- Every list of mounts that the body of nvc_driver_mount gives, with the NULL behind it, fits the
-- array that is made for it.
pub driver_mounts-AtMost :
    (kernel : Kernel) (ctx : NvcContext) (cnt : NvcContainer) (info : NvcDriverInfo)
    → Gives (λ mnts. length mnts < mount_capacity cnt info) (driver_mounts kernel ctx cnt info)
unfolding driver_mounts mount_capacity
driver_mounts-AtMost kernel ctx cnt info =
    let b : ℕ = 0 + length info.bins in
    let l : ℕ = b + length info.libs in
    let c : ℕ = l + length info.libs32 in
    let o : ℕ = c + length cnt.libs in
    let bins : Op (List Bytes) = mount_some kernel ctx.root cnt cnt.cfg.bins_dir true info.bins in
    let libs : Op (List Bytes) = mount_some kernel ctx.root cnt cnt.cfg.libs_dir true info.libs in
    let libs32 : Op (List Bytes) =
      mount_some kernel ctx.root cnt cnt.cfg.libs32_dir (bit opt_compat32 cnt.flags) info.libs32 in
    Gives-bind (AtMost b) _ (add_mounts kernel [] bins) _
      (added kernel 0 _ [] bins (omega arith)
        (some kernel ctx.root cnt cnt.cfg.bins_dir true info.bins))
      (λ x i.
        Gives-bind (AtMost l) _ (add_mounts kernel x libs) _
          (added kernel b _ x libs i (some kernel ctx.root cnt cnt.cfg.libs_dir true info.libs))
          (λ y j.
            Gives-bind (AtMost c) _ (add_mounts kernel y libs32) _
              (added kernel l _ y libs32 j (
                some kernel ctx.root cnt cnt.cfg.libs32_dir (bit opt_compat32 cnt.flags)
                  info.libs32))
              (λ z k. Gives-behind _ (guarded kernel z (symlink_libraries kernel cnt z)) _ (λ u.
                Gives-bind (AtMost o) _ (add_mounts kernel z (mount_own kernel cnt info)) _
                  (added kernel c _ z (mount_own kernel cnt info) k (own kernel cnt info))
                  (λ mnts n.
                    Gives-weaker (AtMost (o + length info.devs)) _
                      (mount_nodes kernel ctx cnt (has_dxcore ctx) info.devs mnts)
                      (λ r q. omega arith)
                      (nodes kernel ctx cnt (has_dxcore ctx) info.devs o mnts n))))))
