-- ===== src/Mount/Driver.antt =====
-- src/nvc_mount.c: `nvc_driver_mount`.
use libxdxgpu_container.Base.{
  ℕ, ◌+◌, Bool, true, false, not, ◌&&◌, ◌||◌, List, [], ◌∷◌, ◌++◌, Option, none, some, ◌==◌,
  if◌then◌else◌, length,
}
use libxdxgpu_container.Base.Bits.{bit}
use libxdxgpu_container.Libc.{Bytes}
use libxdxgpu_container.Options.Table.{
  opt_no_devbind, opt_no_cgroups, opt_compute_libs, opt_compat32, opt_display,
}
use libxdxgpu_container.Cgroup.Setup.{major, minor}
use libxdxgpu_container.Info.{NvcDeviceNode}
use libxdxgpu_container.Container.{NvcContainer}
use libxdxgpu_container.Kernel.{Kernel, Op, pure, ◌>>=◌, ◌>>◌, or_else}
use libxdxgpu_container.File.{when}
use libxdxgpu_container.Mount.{NvcContext, mount_device, inside, allow_device}
use libxdxgpu_container.Mount.Files.{mount_files, unmount_all}
use libxdxgpu_container.Mount.Libraries.{symlink_libraries, filter_libraries}

-- `struct nvc_driver_info`, as the mounts use it
pub record NvcDriverInfo : Type 0 where
  pub nvrm_version : Bytes
  pub bins : List Bytes
  pub libs : List Bytes
  pub libs32 : List Bytes
  pub ipcs : List Bytes
  pub devs : List NvcDeviceNode
  pub firmwares : List Bytes

-- NV_DEVICE_MAJOR and NV_MODESET_DEVICE_MINOR
abbrev pub nv_device_major : ℕ
nv_device_major = 226

abbrev pub nv_modeset_device_minor : ℕ
nv_modeset_device_minor = 254

-- The entries of an array in front of the first NULL, as `array_pack` leaves them
abbrev pub entries : List (Option Bytes) → List Bytes
entries [] = []
entries (none ∷ arr) = []
entries (some path ∷ arr) = path ∷ entries arr

abbrev pub is_nil : List Bytes → Bool
is_nil [] = true
is_nil (x ∷ xs) = false

-- A part of the function, behind which the mounts so far are taken back where it fails.
unfoldable pub guarded : {A : Type 0} → Kernel → List Bytes → Op A → Op A
unfolding unmount_all
guarded kernel mnts m = or_else m (unmount_all kernel mnts)

-- Mounts are put behind those so far.
unfoldable pub add_mounts : Kernel → List Bytes → Op (List Bytes) → Op (List Bytes)
unfolding guarded
add_mounts kernel mnts m = do tmp ← guarded kernel mnts m; pure (mnts ++ tmp)

unfoldable pub mount_some :
    Kernel → Bytes → NvcContainer → Bytes → Bool → List Bytes → Op (List Bytes)
unfolding mount_files
mount_some kernel root cnt dir wanted paths =
    if wanted && not (is_nil paths) then mount_files kernel root cnt dir paths else pure []

-- Nodes that are passed over: without dxcore, those of other devices unless compute-libs is asked
-- for, and the modeset device unless display is.
unfoldable pub is_passed_over : ℕ → Bool → NvcDeviceNode → Bool
unfolding bit major minor
is_passed_over flags dxcore dev =
    not dxcore
    && ((not (bit opt_compute_libs flags) && not (major dev.id == nv_device_major))
        || (not (bit opt_display flags) && minor dev.id == nv_modeset_device_minor))

unfoldable pub mount_node :
    Kernel → NvcContext → NvcContainer → NvcDeviceNode → Bool → Op (List Bytes)
unfolding mount_device
mount_node kernel ctx cnt dev true = pure []
mount_node kernel ctx cnt dev false = do mnt ← mount_device kernel ctx.root cnt dev; pure (mnt ∷ [])

-- A round of the loop over the devices: the mounts so far, with its own.
unfoldable pub mount_and_allow :
    Kernel → NvcContext → NvcContainer → NvcDeviceNode → List Bytes → Op (List Bytes)
unfolding bit add_mounts guarded mount_node allow_device
mount_and_allow kernel ctx cnt dev mnts = do
  mnts' ← add_mounts kernel mnts (mount_node kernel ctx cnt dev (bit opt_no_devbind cnt.flags))
  guarded kernel mnts' (when (not (bit opt_no_cgroups cnt.flags)) (allow_device kernel cnt dev.id))
  pure mnts'

unfoldable pub mount_nodes :
    Kernel → NvcContext → NvcContainer → Bool → List NvcDeviceNode → List Bytes → Op (List Bytes)
unfolding is_passed_over mount_and_allow
mount_nodes kernel ctx cnt dxcore [] mnts = pure mnts
mount_nodes kernel ctx cnt dxcore (dev ∷ devs) mnts = elim (is_passed_over cnt.flags dxcore dev) [
  | true ↦ mount_nodes kernel ctx cnt dxcore devs mnts
  | false ↦ mount_and_allow kernel ctx cnt dev mnts >>= λ mnts'.
      mount_nodes kernel ctx cnt dxcore devs mnts'
]

abbrev pub has_dxcore : NvcContext → Bool
has_dxcore ctx = elim ctx.dxcore [ none ↦ false | some store ↦ true ]

-- The libraries of the container that are not filtered out.
unfoldable pub own_libraries : NvcContainer → NvcDriverInfo → List Bytes
unfolding filter_libraries
own_libraries cnt info = entries (filter_libraries info.nvrm_version cnt.libs).0

-- mount_files is called for them also where all are filtered out.
unfoldable pub mount_own : Kernel → NvcContainer → NvcDriverInfo → Op (List Bytes)
unfolding mount_files own_libraries
mount_own kernel cnt info =
    if is_nil cnt.libs
    then pure []
    else mount_files kernel cnt.rootfs cnt cnt.cfg.libs_dir (own_libraries cnt info)

-- The body of the function, which gives all the mounts.
unfoldable pub driver_mounts : Kernel → NvcContext → NvcContainer → NvcDriverInfo → Op (List Bytes)
unfolding mount_some bit add_mounts guarded symlink_libraries mount_own mount_nodes
driver_mounts kernel ctx cnt info = do
  bins ← add_mounts kernel [] (mount_some kernel ctx.root cnt cnt.cfg.bins_dir true info.bins)
  libs ← add_mounts kernel bins (mount_some kernel ctx.root cnt cnt.cfg.libs_dir true info.libs)
  libs32 ←
      add_mounts kernel libs
        (mount_some kernel ctx.root cnt cnt.cfg.libs32_dir (bit opt_compat32 cnt.flags) info.libs32)
  guarded kernel libs32 (symlink_libraries kernel cnt libs32)
  own ← add_mounts kernel libs32 (mount_own kernel cnt info)
  mount_nodes kernel ctx cnt (has_dxcore ctx) info.devs own

unfoldable pub nvc_driver_mount : Kernel → NvcContext → NvcContainer → NvcDriverInfo → Op (Unit {0})
unfolding inside driver_mounts
nvc_driver_mount kernel ctx cnt info =
    inside kernel ctx cnt (driver_mounts kernel ctx cnt info >>= λ mnts. pure tt)

-- The size of the array of the mounts
unfoldable pub mount_capacity : NvcContainer → NvcDriverInfo → ℕ
mount_capacity cnt info =
    2
    + length info.bins
    + length info.libs
    + length cnt.libs
    + length info.libs32
    + length info.ipcs
    + length info.devs
    + length info.firmwares
