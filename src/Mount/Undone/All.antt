-- ===== src/Mount/Undone/All.antt =====
-- src/nvc_mount.c: the mounts at one path, which is not empty, behind nvc_driver_mount.
use libxdxgpu_container.Base.{
  ℕ, ◌+◌, refl, Bool, true, false, not, ◌&&◌, List, [], ◌∷◌, ◌++◌, none, some, arith, inl, inr,
  Bool-cases,
}
use libxdxgpu_container.Base.Bits.{bit}
use libxdxgpu_container.Libc.{Bytes}
use libxdxgpu_container.Options.Table.{opt_no_devbind, opt_no_cgroups, opt_compat32}
use libxdxgpu_container.Path.{path_new, path_append, path_join}
use libxdxgpu_container.Info.{NvcDeviceNode}
use libxdxgpu_container.Container.{NvcContainer}
use libxdxgpu_container.Kernel.{Kernel, Op, return, or_else}
use libxdxgpu_container.File.{file_create, when, mode_dir, mode_lnk}
use libxdxgpu_container.File.Paths.{basename, dirname}
use libxdxgpu_container.Mount.{NvcContext, resolve, create_like, mount_device, allow_device}
use libxdxgpu_container.Mount.Files.{
  file_flags, unmount_all, is_wanted, mount_file, mount_each, mount_files,
}
use libxdxgpu_container.Mount.Libraries.{links_of, symlink_library, symlink_each, symlink_libraries}
use libxdxgpu_container.Mount.Driver.{
  NvcDriverInfo, is_nil, guarded, add_mounts, mount_some, is_passed_over, mount_node,
  mount_and_allow, mount_nodes, has_dxcore, own_libraries, mount_own, driver_mounts,
}
use libxdxgpu_container.Mount.View.{count_path, count_path-append}
use libxdxgpu_container.Mount.Undone.Rules.{
  Own, Own-pure, Own-return, Own-bind, Own-eq, Own-or_else,
}
use libxdxgpu_container.Mount.Undone.Single.{
  IsDetaching, counting, Own-resolve, Own-file_create, Own-create_like, Own-mount_twice,
  Own-allow_device,
}
use libxdxgpu_container.Mount.Undone.Many.{Removes-unmount_all, Own-mount_device}

module _ (x : ℕ) (q : Bytes) (kernel : Kernel) (fair : IsDetaching kernel) where
  abbrev p : Bytes
  p = x ∷ q

  abbrev listed : List Bytes → ℕ
  listed mnts = count_path p mnts

  -- What fails is cleaned up with all the mounts before it.
  Own-guarded :
      {A : Type 0} (mnts : List Bytes) (c : A → ℕ) (m : Op A)
      → Own p 0 c m
      → Own p (listed mnts) (λ a. listed mnts + c a) (or_else m (unmount_all kernel mnts))
  Own-guarded mnts c m l =
      Own-or_else p (listed mnts) c m (unmount_all kernel mnts) l
        (Removes-unmount_all x q kernel fair mnts)

  Own-mount_each :
      (wanted : Bytes → Bool) (one : Bytes → Op Bytes)
      → ((path : Bytes) → Own p 0 (counting p kernel) (one path))
      → (mnts paths : List Bytes)
      → Own p (listed mnts) listed (mount_each kernel wanted one mnts paths)
  unfolding mount_each
  Own-mount_each wanted one k mnts [] = Own-pure p listed mnts
  Own-mount_each wanted one k mnts (path ∷ paths) = elim (Bool-cases (wanted path)) [
    | inr e ↦ rw (e, mount_each) (Own-mount_each wanted one k mnts paths)
    | inl e ↦
        rw (e, mount_each)
          (Own-bind p (listed mnts) (λ a. listed mnts + counting p kernel a) listed
            (or_else (one path) (unmount_all kernel mnts)) _
            (Own-guarded mnts (counting p kernel) (one path) (k path))
            (λ mnt.
              Own-eq p (listed (mnts ++ mnt ∷ [])) _ listed listed _
                (count_path-append p mnts (mnt ∷ [])) (λ a. refl)
                (Own-mount_each wanted one k (mnts ++ mnt ∷ []) paths)))
  ]

  Own-mount_files :
      (root : Bytes) (cnt : NvcContainer) (dir : Bytes) (paths : List Bytes)
      → Own p 0 listed (mount_files kernel root cnt dir paths)
  unfolding mount_files mount_file
  Own-mount_files root cnt dir paths =
      Own-bind p 0 (λ _. 0) listed (return (path_new root)) _ (Own-return p _)
        (λ src.
          Own-bind p 0 (λ _. 0) listed (resolve kernel cnt.rootfs dir) _
            (Own-resolve p kernel cnt.rootfs dir)
            (λ dst.
              Own-bind p 0 (λ _. 0) listed
                (file_create kernel dst none cnt.uid cnt.gid (mode_dir 493)) _
                (Own-file_create p kernel dst none cnt.uid cnt.gid (mode_dir 493))
                (λ _.
                  Own-mount_each (is_wanted cnt.flags) (mount_file kernel cnt src dst)
                    (λ path.
                      Own-bind p 0 (λ _. 0) (counting p kernel) (return (path_append src path)) _
                        (Own-return p _)
                        (λ s.
                          Own-bind p 0 (λ _. 0) (counting p kernel)
                            (return (path_append dst (basename path))) _ (Own-return p _)
                            (λ d.
                              Own-bind p 0 (λ _. 0) (counting p kernel) (create_like kernel cnt s d)
                                _ (Own-create_like p kernel cnt s d)
                                (λ _. Own-mount_twice p kernel s d file_flags))))
                    [] paths)))

  Own-symlink_each :
      (cnt : NvcContainer) (src : Bytes) (links : List (Bytes × Bytes))
      → Own p 0 (λ _. 0) (symlink_each kernel cnt src links)
  unfolding symlink_each symlink_library
  Own-symlink_each cnt src [] = Own-pure p (λ _. 0) tt
  Own-symlink_each cnt src ((target, linkname) ∷ links) =
      Own-bind p 0 (λ _. 0) (λ _. 0) (symlink_library kernel cnt src (target, linkname)) _
        (Own-bind p 0 (λ _. 0) (λ _. 0) (return (path_join (dirname src) linkname)) _
          (Own-return p _)
          (λ path. Own-file_create p kernel path (some target) cnt.uid cnt.gid (mode_lnk 511)))
        (λ _. Own-symlink_each cnt src links)

  Own-symlink_libraries :
      (cnt : NvcContainer) (paths : List Bytes)
      → Own p 0 (λ _. 0) (symlink_libraries kernel cnt paths)
  unfolding symlink_libraries
  Own-symlink_libraries cnt [] = Own-pure p (λ _. 0) tt
  Own-symlink_libraries cnt (path ∷ paths) =
      Own-bind p 0 (λ _. 0) (λ _. 0) (symlink_each kernel cnt path (links_of (basename path))) _
        (Own-symlink_each cnt path (links_of (basename path)))
        (λ _. Own-symlink_libraries cnt paths)

  module _ (ctx : NvcContext) (cnt : NvcContainer) where
    Own-add_mounts :
        (mnts : List Bytes) (m : Op (List Bytes))
        → Own p 0 listed m
        → Own p (listed mnts) listed (add_mounts kernel mnts m)
    unfolding add_mounts guarded
    Own-add_mounts mnts m l =
        Own-bind p (listed mnts) (λ tmp. listed mnts + listed tmp) listed (guarded kernel mnts m) _
          (Own-guarded mnts listed m l)
          (λ tmp.
            Own-eq p (listed (mnts ++ tmp)) _ listed listed _ (count_path-append p mnts tmp)
              (λ a. refl) (Own-pure p listed (mnts ++ tmp)))

    Own-mount_some :
        (dir : Bytes) (wanted : Bool) (paths : List Bytes)
        → Own p 0 listed (mount_some kernel ctx.root cnt dir wanted paths)
    unfolding mount_some
    Own-mount_some dir wanted paths = elim (Bool-cases (wanted && not (is_nil paths))) [
      | inl e ↦ rw e (Own-mount_files ctx.root cnt dir paths)
      | inr e ↦ rw e (Own-pure p listed [])
    ]

    Own-mount_own : (info : NvcDriverInfo) → Own p 0 listed (mount_own kernel cnt info)
    unfolding mount_own
    Own-mount_own info = elim (Bool-cases (is_nil cnt.libs)) [
      | inl e ↦ rw e (Own-pure p listed [])
      | inr e ↦ rw e (Own-mount_files cnt.rootfs cnt cnt.cfg.libs_dir (own_libraries cnt info))
    ]

    Own-mount_node :
        (dev : NvcDeviceNode) (b : Bool) → Own p 0 listed (mount_node kernel ctx cnt dev b)
    unfolding mount_node
    Own-mount_node dev true = Own-pure p listed []
    Own-mount_node dev false =
        Own-bind p 0 (counting p kernel) listed (mount_device kernel ctx.root cnt dev) _
          (Own-mount_device x q kernel fair ctx.root cnt dev) (λ mnt. Own-pure p listed (mnt ∷ []))

    Own-when : (b : Bool) (m : Op (Unit {0})) → Own p 0 (λ _. 0) m → Own p 0 (λ _. 0) (when b m)
    Own-when true m l = l
    Own-when false m l = Own-pure p (λ _. 0) tt

    Own-mount_and_allow :
        (dev : NvcDeviceNode) (mnts : List Bytes)
        → Own p (listed mnts) listed (mount_and_allow kernel ctx cnt dev mnts)
    unfolding mount_and_allow guarded
    Own-mount_and_allow dev mnts =
        Own-bind p (listed mnts) listed listed _ _
          (Own-add_mounts mnts _ (Own-mount_node dev (bit opt_no_devbind cnt.flags)))
          (λ mnts'.
            Own-bind p (listed mnts') (λ _. listed mnts' + 0) listed
              (guarded kernel mnts'
                (when (not (bit opt_no_cgroups cnt.flags)) (allow_device kernel cnt dev.id)))
              _ (Own-guarded mnts' (λ _. 0) _ (Own-when _ _ (Own-allow_device p kernel cnt dev.id)))
              (λ _.
                Own-eq p (listed mnts') _ listed listed _ (omega arith) (λ a. refl)
                  (Own-pure p listed mnts')))

    Own-mount_nodes :
        (dxcore : Bool) (devs : List NvcDeviceNode) (mnts : List Bytes)
        → Own p (listed mnts) listed (mount_nodes kernel ctx cnt dxcore devs mnts)
    unfolding mount_nodes
    Own-mount_nodes dxcore [] mnts = Own-pure p listed mnts
    Own-mount_nodes dxcore (dev ∷ devs) mnts =
        elim (Bool-cases (is_passed_over cnt.flags dxcore dev)) [
          | inl e ↦ rw (e, mount_nodes) (Own-mount_nodes dxcore devs mnts)
          | inr e ↦
              rw (e, mount_nodes)
                (Own-bind p (listed mnts) listed listed (mount_and_allow kernel ctx cnt dev mnts) _
                  (Own-mount_and_allow dev mnts) (λ mnts'. Own-mount_nodes dxcore devs mnts'))
        ]

    pub Own-driver_mounts :
        (info : NvcDriverInfo) → Own p 0 listed (driver_mounts kernel ctx cnt info)
    unfolding driver_mounts guarded
    Own-driver_mounts info =
        Own-bind p 0 listed listed
          (add_mounts kernel [] (mount_some kernel ctx.root cnt cnt.cfg.bins_dir true info.bins)) _
          (Own-add_mounts [] _ (Own-mount_some cnt.cfg.bins_dir true info.bins))
          (λ bins.
            Own-bind p (listed bins) listed listed
              (add_mounts kernel bins
                (mount_some kernel ctx.root cnt cnt.cfg.libs_dir true info.libs))
              _ (Own-add_mounts bins _ (Own-mount_some cnt.cfg.libs_dir true info.libs))
              (λ libs.
                Own-bind p (listed libs) listed listed
                  (add_mounts kernel libs (
                    mount_some kernel ctx.root cnt cnt.cfg.libs32_dir (bit opt_compat32 cnt.flags)
                      info.libs32))
                  _
                  (Own-add_mounts libs _
                    (Own-mount_some cnt.cfg.libs32_dir (bit opt_compat32 cnt.flags) info.libs32))
                  (λ libs32.
                    Own-bind p (listed libs32) (λ _. listed libs32 + 0) listed
                      (guarded kernel libs32 (symlink_libraries kernel cnt libs32)) _
                      (Own-guarded libs32 (λ _. 0) _ (Own-symlink_libraries cnt libs32))
                      (λ _.
                        Own-eq p (listed libs32) _ listed listed _ (omega arith) (λ a. refl)
                          (Own-bind p (listed libs32) listed listed
                            (add_mounts kernel libs32 (mount_own kernel cnt info)) _
                            (Own-add_mounts libs32 _ (Own-mount_own info))
                            (λ own. Own-mount_nodes (has_dxcore ctx) info.devs own))))))
