-- ===== src/Mount/Device.antt =====
-- src/nvc_mount.c: what is mounted for one device.
use libxdxgpu_container.Base.{
  ℕ, Bool, true, false, not, ◌||◌, List, [], ◌∷◌, ◌++◌, Option, none, some, ltb, if◌then◌else◌,
  length,
}
use libxdxgpu_container.Base.Bits.{bit}
use libxdxgpu_container.Libc.{Bytes, codes}
use libxdxgpu_container.Options.Table.{
  opt_no_devbind, opt_no_cgroups, opt_graphics_libs, opt_utility_libs, opt_video_libs,
}
use libxdxgpu_container.Devices.{NvcDevice}
use libxdxgpu_container.Info.{NvcDeviceNode}
use libxdxgpu_container.Container.{NvcContainer}
use libxdxgpu_container.Kernel.{
  Kernel, Op, pure, crash, ◌>>=◌, ◌>>◌, ask, or_else, error_set, or_errno,
}
use libxdxgpu_container.File.{when}
use libxdxgpu_container.Mount.{
  NvcContext, DriverStore, unmount, mount_device, mount_config_file, inside, allow_device,
}
use libxdxgpu_container.Mount.Files.{mount_files, mount_driverstore_files}
use libxdxgpu_container.Mount.Libraries.{dri_driver, macth_target_library}
use libxdxgpu_container.Mount.Profile.{update_app_profile}

-- LD_CONFIG_DIR and SMI_FRONT_DIR
abbrev pub ld_config_dir : Bytes
ld_config_dir = codes "/etc/ld.so.conf.d"

abbrev pub smi_front_dir : Bytes
smi_front_dir = codes "/usr/lib/python3/dist-packages/xdxsmi"

-- XDX_VIDEO_LIB_NUM
abbrev pub xdx_video_lib_num : ℕ
xdx_video_lib_num = 4

-- The entries that match, with the directory
unfoldable pub matching : Bytes → List Bytes → List Bytes
unfolding macth_target_library
matching lib_dir [] = []
matching lib_dir (entry ∷ entries) =
    let rest = matching lib_dir entries in
    if macth_target_library entry dri_driver then (lib_dir ++ (b'/' ∷ entry)) ∷ rest else rest

-- They are stored in an array of XDX_VIDEO_LIB_NUM elements, without a test.
unfoldable pub within_bounds : Bytes → List Bytes → Op (List Bytes)
unfolding matching
within_bounds lib_dir names =
    if ltb xdx_video_lib_num (length (matching lib_dir names))
    then crash
    else pure (matching lib_dir names)

unfoldable pub library_search_in_dir : Kernel → Bytes → Op (List Bytes)
unfolding within_bounds
library_search_in_dir kernel lib_dir = do
  entries ← error_set (codes "Open dir error!") (ask (λ h. kernel.list_dir h lib_dir) >>= or_errno)
  within_bounds lib_dir entries

abbrev pub forget : {A : Type 0} → Op A → Op (Unit {0})
forget m = m >>= λ _. pure tt

-- `unmount(mnt)` for a pointer that may be NULL
unfoldable pub unmount_opt : Kernel → Option Bytes → Op (Unit {0})
unfolding unmount
unmount_opt kernel none = pure tt
unmount_opt kernel (some mnt) = unmount kernel mnt

-- A device node, unless devices are not bound.
unfoldable pub bind_device :
    Kernel → NvcContext → NvcContainer → NvcDeviceNode → Bool → Op (Option Bytes)
unfolding mount_device
bind_device kernel ctx cnt node true = pure none
bind_device kernel ctx cnt node false = do
  mnt ← mount_device kernel ctx.root cnt node
  pure (some mnt)

abbrev pub node_of : NvcDevice → NvcDeviceNode
node_of dev = record { path = dev.node_path; id = dev.node_id }

-- What follows the mount of the linker's configuration. Its mounts are not taken back.
unfoldable pub device_extras : Kernel → NvcContext → NvcContainer → List Bytes → ℕ → Op (Unit {0})
unfolding bit update_app_profile mount_config_file mount_files allow_device
device_extras kernel ctx cnt dri_libs id =
    when (bit opt_graphics_libs cnt.flags) (update_app_profile kernel cnt id)
    >> when (bit opt_utility_libs cnt.flags)
        (forget (mount_config_file kernel ctx.root cnt smi_front_dir))
    >> when (bit opt_video_libs cnt.flags || bit opt_graphics_libs cnt.flags)
        (forget (mount_files kernel ctx.root cnt cnt.cfg.dris_dir dri_libs))
    >> when (not (bit opt_no_cgroups cnt.flags)) (allow_device kernel cnt id)

unfoldable pub device_mount_native : Kernel → NvcContext → NvcContainer → NvcDevice → Op (Unit {0})
unfolding library_search_in_dir bit bind_device mount_config_file unmount unmount_opt device_extras
device_mount_native kernel ctx cnt dev = do
  dri_libs ← library_search_in_dir kernel cnt.cfg.dris_dir
  dev_mnt ← bind_device kernel ctx cnt (node_of dev) (bit opt_no_devbind cnt.flags)
  ld_config_mnt ←
      or_else (mount_config_file kernel ctx.root cnt ld_config_dir) (unmount_opt kernel dev_mnt)
  or_else (device_extras kernel ctx cnt dri_libs dev.node_id)
      (unmount kernel ld_config_mnt >> unmount_opt kernel dev_mnt)

unfoldable pub device_mount_dxcore :
    Kernel → NvcContext → NvcContainer → DriverStore → Op (Unit {0})
unfolding mount_driverstore_files
device_mount_dxcore kernel ctx cnt store =
    forget (mount_driverstore_files kernel ctx.root cnt store.path store.components)

unfoldable pub device_mount :
    Kernel → NvcContext → NvcContainer → NvcDevice → Option DriverStore → Op (Unit {0})
unfolding device_mount_native device_mount_dxcore
device_mount kernel ctx cnt dev none = device_mount_native kernel ctx cnt dev
device_mount kernel ctx cnt dev (some store) = device_mount_dxcore kernel ctx cnt store

unfoldable pub nvc_device_mount : Kernel → NvcContext → NvcContainer → NvcDevice → Op (Unit {0})
unfolding inside device_mount
nvc_device_mount kernel ctx cnt dev =
    inside kernel ctx cnt (device_mount kernel ctx cnt dev ctx.dxcore)
