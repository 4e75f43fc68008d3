-- ===== src/Mount/Inside/Operations.antt =====
-- src/nvc_mount.c: what every call but setns keeps, the bodies of the six operations keep.
use libxdxgpu_container.Base.{
  ℕ, ◌≡◌, Bool, true, false, not, ◌&&◌, ◌||◌, List, [], ◌∷◌, ◌++◌, Option, none, some, ltb, inl,
  inr, length, Bool-cases,
}
use libxdxgpu_container.Base.Bits.{bit}
use libxdxgpu_container.Libc.{Bytes, codes}
use libxdxgpu_container.Options.Table.{
  opt_no_devbind, opt_no_cgroups, opt_graphics_libs, opt_utility_libs, opt_video_libs, opt_compat32,
}
use libxdxgpu_container.Devices.{NvcDevice}
use libxdxgpu_container.Info.{NvcDeviceNode}
use libxdxgpu_container.Container.{NvcContainer}
use libxdxgpu_container.Kernel.{
  Act, History, Kernel, Op, pure, ◌>>=◌, ◌>>◌, ask, or_else, error_set, or_errno,
}
use libxdxgpu_container.Kernel.Holds.{
  Holds, Holds-pure, Holds-crash, Holds-ask, Holds-or_errno, Holds-bind, Holds-then, Holds-or_else,
  Holds-error_set,
}
use libxdxgpu_container.File.{when}
use libxdxgpu_container.Mount.{
  NvcContext, DriverStore, unmount, mount_device, mount_config_file, mount_procfs_mig, allow_device,
}
use libxdxgpu_container.Mount.Files.{unmount_all, mount_files}
use libxdxgpu_container.Mount.Libraries.{symlink_libraries}
use libxdxgpu_container.Mount.Profile.{update_app_profile}
use libxdxgpu_container.Mount.Device.{
  ld_config_dir, smi_front_dir, xdx_video_lib_num, matching, within_bounds, library_search_in_dir,
  forget, unmount_opt, bind_device, node_of, device_extras, device_mount_native,
  device_mount_dxcore, device_mount,
}
use libxdxgpu_container.Mount.Driver.{
  NvcDriverInfo, is_nil, guarded, add_mounts, mount_some, is_passed_over, mount_node,
  mount_and_allow, mount_nodes, has_dxcore, own_libraries, mount_own, driver_mounts,
}
use libxdxgpu_container.Mount.Inside.Single.{
  is_local, Holds-unmount, Holds-mount_device, Holds-mount_same_path, Holds-allow_device,
}
use libxdxgpu_container.Mount.Inside.Bodies.{
  Holds-unmount_all, Holds-mount_files, Holds-mount_driverstore_files, Holds-symlink_libraries,
  Holds-update_app_profile, Holds-forget, Holds-unmount_opt, Holds-bind_device, on,
}

module _ (I : History → Type 0)
    (local : (a : Act) → is_local a ≡ true → (h : History) (r : Option ℕ) → I h → I ((a, r) ∷ h))
    (kernel : Kernel) (ctx : NvcContext) (cnt : NvcContainer) where
  Holds-config_file : (dir : Bytes) → Holds I (mount_config_file kernel ctx.root cnt dir)
  unfolding mount_config_file
  Holds-config_file dir = Holds-mount_same_path I local kernel ctx.root cnt dir _

  Holds-procfs_mig : (path : Bytes) → Holds I (mount_procfs_mig kernel ctx.root cnt path)
  unfolding mount_procfs_mig
  Holds-procfs_mig path = Holds-mount_same_path I local kernel ctx.root cnt path _

  Holds-within : (dir : Bytes) (entries : List Bytes) → Holds I (within_bounds dir entries)
  unfolding within_bounds
  Holds-within dir entries =
      elim (Bool-cases (ltb xdx_video_lib_num (length (matching dir entries)))) [
        | inl e ↦ rw e (Holds-crash I)
        | inr e ↦ rw e (Holds-pure I (matching dir entries))
      ]

  Holds-library_search_in_dir : (dir : Bytes) → Holds I (library_search_in_dir kernel dir)
  unfolding library_search_in_dir
  Holds-library_search_in_dir dir =
      Holds-bind I
        (error_set (codes "Open dir error!") (ask (λ h. kernel.list_dir h dir) >>= or_errno)) _
        (Holds-error_set I _ _
          (Holds-bind I (ask (λ h. kernel.list_dir h dir)) _ (Holds-ask I _) (Holds-or_errno I)))
        (Holds-within dir)

  Holds-device_extras :
      (dri_libs : List Bytes) (id : ℕ) → Holds I (device_extras kernel ctx cnt dri_libs id)
  unfolding device_extras
  Holds-device_extras dri_libs id =
      let profile = when (bit opt_graphics_libs cnt.flags) (update_app_profile kernel cnt id) in
      let front =
        when (bit opt_utility_libs cnt.flags)
          (forget (mount_config_file kernel ctx.root cnt smi_front_dir)) in
      let drivers =
        when (bit opt_video_libs cnt.flags || bit opt_graphics_libs cnt.flags)
          (forget (mount_files kernel ctx.root cnt cnt.cfg.dris_dir dri_libs)) in
      let rule = when (not (bit opt_no_cgroups cnt.flags)) (allow_device kernel cnt id) in
      Holds-then I (profile >> front >> drivers) rule
        (Holds-then I (profile >> front) drivers
          (Holds-then I profile front
            (on I local kernel _ _ (Holds-update_app_profile I local kernel cnt id))
            (on I local kernel _ _
              (Holds-forget I local kernel _ (Holds-config_file smi_front_dir))))
          (on I local kernel _ _ (
            Holds-forget I local kernel _
              (Holds-mount_files I local kernel ctx.root cnt cnt.cfg.dris_dir dri_libs))))
        (on I local kernel _ _ (Holds-allow_device I local kernel cnt id))

  Holds-device_mount_native : (dev : NvcDevice) → Holds I (device_mount_native kernel ctx cnt dev)
  unfolding device_mount_native
  Holds-device_mount_native dev =
      Holds-bind I (library_search_in_dir kernel cnt.cfg.dris_dir) _
        (Holds-library_search_in_dir cnt.cfg.dris_dir)
        (λ dri_libs.
          Holds-bind I (bind_device kernel ctx cnt (node_of dev) (bit opt_no_devbind cnt.flags)) _
            (Holds-bind_device I local kernel ctx cnt (node_of dev) (bit opt_no_devbind cnt.flags))
            (λ dev_mnt.
              Holds-bind I
                (or_else (mount_config_file kernel ctx.root cnt ld_config_dir)
                  (unmount_opt kernel dev_mnt))
                _
                (Holds-or_else I _ _ (Holds-config_file ld_config_dir)
                  (Holds-unmount_opt I local kernel dev_mnt))
                (λ mnt.
                  Holds-or_else I (device_extras kernel ctx cnt dri_libs dev.node_id)
                    (unmount kernel mnt >> unmount_opt kernel dev_mnt)
                    (Holds-device_extras dri_libs dev.node_id)
                    (Holds-then I (unmount kernel mnt) _ (Holds-unmount I local kernel mnt)
                      (Holds-unmount_opt I local kernel dev_mnt)))))

  pub Holds-device_mount :
      (dev : NvcDevice) (dxcore : Option DriverStore)
      → Holds I (device_mount kernel ctx cnt dev dxcore)
  unfolding device_mount device_mount_dxcore
  Holds-device_mount dev none = Holds-device_mount_native dev
  Holds-device_mount dev (some store) =
      Holds-forget I local kernel _
        (Holds-mount_driverstore_files I local kernel ctx.root cnt store.path store.components)

  Holds-guarded :
      {A : Type 0} (mnts : List Bytes) (m : Op A) → Holds I m → Holds I (guarded kernel mnts m)
  unfolding guarded
  Holds-guarded mnts m l =
      Holds-or_else I m (unmount_all kernel mnts) l (Holds-unmount_all I local kernel mnts)

  Holds-add_mounts :
      (mnts : List Bytes) (m : Op (List Bytes)) → Holds I m → Holds I (add_mounts kernel mnts m)
  unfolding add_mounts
  Holds-add_mounts mnts m l =
      Holds-bind I (guarded kernel mnts m) _ (Holds-guarded mnts m l)
        (λ tmp. Holds-pure I (mnts ++ tmp))

  Holds-mount_some :
      (dir : Bytes) (wanted : Bool) (paths : List Bytes)
      → Holds I (mount_some kernel ctx.root cnt dir wanted paths)
  unfolding mount_some
  Holds-mount_some dir wanted paths = elim (Bool-cases (wanted && not (is_nil paths))) [
    | inl e ↦ rw e (Holds-mount_files I local kernel ctx.root cnt dir paths)
    | inr e ↦ rw e (Holds-pure I [])
  ]

  Holds-mount_own : (info : NvcDriverInfo) → Holds I (mount_own kernel cnt info)
  unfolding mount_own
  Holds-mount_own info = elim (Bool-cases (is_nil cnt.libs)) [
    | inl e ↦ rw e (Holds-pure I [])
    | inr e ↦
        rw e (
          Holds-mount_files I local kernel cnt.rootfs cnt cnt.cfg.libs_dir (own_libraries cnt info))
  ]

  Holds-mount_node : (dev : NvcDeviceNode) (b : Bool) → Holds I (mount_node kernel ctx cnt dev b)
  unfolding mount_node
  Holds-mount_node dev true = Holds-pure I []
  Holds-mount_node dev false =
      Holds-bind I (mount_device kernel ctx.root cnt dev) _
        (Holds-mount_device I local kernel ctx.root cnt dev) (λ mnt. Holds-pure I (mnt ∷ []))

  Holds-mount_and_allow :
      (dev : NvcDeviceNode) (mnts : List Bytes) → Holds I (mount_and_allow kernel ctx cnt dev mnts)
  unfolding mount_and_allow
  Holds-mount_and_allow dev mnts =
      Holds-bind I
        (add_mounts kernel mnts (mount_node kernel ctx cnt dev (bit opt_no_devbind cnt.flags))) _
        (Holds-add_mounts mnts _ (Holds-mount_node dev _))
        (λ mnts'.
          Holds-then I
            (guarded kernel mnts'
              (when (not (bit opt_no_cgroups cnt.flags)) (allow_device kernel cnt dev.id)))
            (pure mnts')
            (Holds-guarded mnts' _
              (on I local kernel _ _ (Holds-allow_device I local kernel cnt dev.id)))
            (Holds-pure I mnts'))

  Holds-mount_nodes :
      (dxcore : Bool) (devs : List NvcDeviceNode) (mnts : List Bytes)
      → Holds I (mount_nodes kernel ctx cnt dxcore devs mnts)
  unfolding mount_nodes
  Holds-mount_nodes dxcore [] mnts = Holds-pure I mnts
  Holds-mount_nodes dxcore (dev ∷ devs) mnts =
      elim (Bool-cases (is_passed_over cnt.flags dxcore dev)) [
        | inl e ↦ rw (e, mount_nodes) (Holds-mount_nodes dxcore devs mnts)
        | inr e ↦
            rw (e, mount_nodes)
              (Holds-bind I (mount_and_allow kernel ctx cnt dev mnts) _
                (Holds-mount_and_allow dev mnts) (λ mnts'. Holds-mount_nodes dxcore devs mnts'))
      ]

  pub Holds-driver_mounts : (info : NvcDriverInfo) → Holds I (driver_mounts kernel ctx cnt info)
  unfolding driver_mounts
  Holds-driver_mounts info =
      Holds-bind I
        (add_mounts kernel [] (mount_some kernel ctx.root cnt cnt.cfg.bins_dir true info.bins)) _
        (Holds-add_mounts [] _ (Holds-mount_some cnt.cfg.bins_dir true info.bins))
        (λ bins.
          Holds-bind I
            (add_mounts kernel bins
              (mount_some kernel ctx.root cnt cnt.cfg.libs_dir true info.libs))
            _ (Holds-add_mounts bins _ (Holds-mount_some cnt.cfg.libs_dir true info.libs))
            (λ libs.
              Holds-bind I
                (add_mounts kernel libs (
                  mount_some kernel ctx.root cnt cnt.cfg.libs32_dir (bit opt_compat32 cnt.flags)
                    info.libs32))
                _
                (Holds-add_mounts libs _
                  (Holds-mount_some cnt.cfg.libs32_dir (bit opt_compat32 cnt.flags) info.libs32))
                (λ libs32.
                  Holds-then I (guarded kernel libs32 (symlink_libraries kernel cnt libs32)) _
                    (Holds-guarded libs32 _ (Holds-symlink_libraries I local kernel cnt libs32))
                    (Holds-bind I (add_mounts kernel libs32 (mount_own kernel cnt info)) _
                      (Holds-add_mounts libs32 _ (Holds-mount_own info))
                      (λ own. Holds-mount_nodes (has_dxcore ctx) info.devs own)))))
