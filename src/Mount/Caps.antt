-- ===== src/Mount/Caps.antt =====
-- src/nvc_mount.c: the capabilities of MIG devices. The two functions of nvidia-modprobe that are
-- called are a parameter.
use libxdxgpu_container.Base.{
  ℕ, ◌^◌, ◌%◌, Bool, true, false, not, List, [], ◌∷◌, ◌++◌, Option, none, some, ◌==◌, if◌then◌else◌,
  ◌⊎◌, inl, inr,
}
use libxdxgpu_container.Base.Bits.{bit}
use libxdxgpu_container.Libc.{Bytes, codes, is_space, skip_space, strtoumax}
use libxdxgpu_container.Options.Table.{opt_no_devbind, opt_no_cgroups}
use libxdxgpu_container.Path.{path_join}
use libxdxgpu_container.Utils.Str.{str_has_prefix}
use libxdxgpu_container.Cgroup.{read_lines}
use libxdxgpu_container.Cgroup.Setup.{minor, makedev}
use libxdxgpu_container.Devices.{NvcDevice, NvcMigDevice}
use libxdxgpu_container.Info.{NvcDeviceNode}
use libxdxgpu_container.Container.{NvcContainer}
use libxdxgpu_container.Kernel.{
  History, Kernel, Op, pure, crash, ◌>>=◌, ◌>>◌, return, ask, or_else, error_set, or_errno,
}
use libxdxgpu_container.File.{when}
use libxdxgpu_container.Mount.{
  NvcContext, unmount, mount_directory, mount_procfs_mig, inside, allow_device,
}
use libxdxgpu_container.Mount.Device.{bind_device, unmount_opt}

-- nvidia_cap_get_device_file_attrs, with errno where it fails, or the major and the minor number and
-- the name; and nvidia_get_chardev_major of NV_CAPS_MODULE_NAME, none where it gives -1.
pub record Modprobe : Type 0 where
  pub device_file_attrs : History → Bytes → ℕ ⊎ (ℕ × ℕ × Bytes)
  pub caps_major : History → Option ℕ

-- NV_CAPS_DEVICE_DIR, NV_PROC_DRIVER_CAPS and NV_MIG_CAPS_PATH
abbrev pub nv_caps_device_dir : Bytes
nv_caps_device_dir = codes "/dev/nvidia-caps"

abbrev pub nv_proc_driver_caps : Bytes
nv_proc_driver_caps = codes "/proc/driver/nvidia/capabilities"

abbrev pub nv_mig_caps_path : Bytes
nv_mig_caps_path = codes "/proc/driver/nvidia/capabilities/mig"

-- NV_CAPS_MIG_MINORS_PATH
abbrev pub nv_caps_mig_minors_path : Bytes
nv_caps_mig_minors_path = codes "/proc/driver/nvidia-caps/mig-minors"

abbrev pub node_at : ℕ × ℕ × Bytes → NvcDeviceNode
node_at (x, y, name) = record { path = name; id = makedev x y }

unfoldable pub nvc_nvcaps_device_from_proc_path :
    Kernel → Modprobe → NvcContext → Bytes → Op NvcDeviceNode
unfolding path_join
nvc_nvcaps_device_from_proc_path kernel modprobe ctx cap_path = do
  abs_cap_path ← return (path_join ctx.root cap_path)
  attrs ←
      error_set (codes "unable to get cap device attributes: " ++ cap_path)
        (ask (λ h. modprobe.device_file_attrs h abs_cap_path) >>= or_errno)
  pure (node_at attrs)

unfoldable pub allow_unless : Kernel → NvcContainer → ℕ → Op (Unit {0})
unfolding bit allow_device
allow_unless kernel cnt id = when (not (bit opt_no_cgroups cnt.flags)) (allow_device kernel cnt id)

unfoldable pub cap_device_mount :
    Kernel → Modprobe → NvcContext → NvcContainer → Bytes → Op (Unit {0})
unfolding nvc_nvcaps_device_from_proc_path bind_device bit allow_unless unmount_opt
cap_device_mount kernel modprobe ctx cnt cap_path = do
  node ← nvc_nvcaps_device_from_proc_path kernel modprobe ctx cap_path
  dev_mnt ← bind_device kernel ctx cnt node (bit opt_no_devbind cnt.flags)
  or_else (allow_unless kernel cnt node.id) (unmount_opt kernel dev_mnt)

abbrev pub is_found : Option ℕ → Bool
is_found none = false
is_found (some n) = true

-- `if (nvidia_get_chardev_major(NV_CAPS_MODULE_NAME) != -1)`
abbrev pub with_caps : Modprobe → Op (Unit {0}) → Op (Unit {0})
with_caps modprobe m = ask (λ h. is_found (modprobe.caps_major h)) >>= λ b. when b m

-- The compute instance, behind the mount for the GPU instance.
unfoldable pub mount_compute :
    Kernel → Modprobe → NvcContext → NvcContainer → NvcMigDevice → Bytes → Bytes → Op (Unit {0})
unfolding cap_device_mount path_join mount_procfs_mig unmount
mount_compute kernel modprobe ctx cnt dev gi_access proc_mnt_gi = do
  access ←
      or_else
        (with_caps modprobe (cap_device_mount kernel modprobe ctx cnt gi_access)
          >> return (path_join dev.ci_caps_path (codes "access")))
        (unmount kernel proc_mnt_gi)
  proc_mnt_ci ← or_else (mount_procfs_mig kernel ctx.root cnt access) (unmount kernel proc_mnt_gi)
  or_else (with_caps modprobe (cap_device_mount kernel modprobe ctx cnt access))
      (unmount kernel proc_mnt_gi >> unmount kernel proc_mnt_ci)

unfoldable pub access_caps :
    Kernel → Modprobe → NvcContext → NvcContainer → NvcMigDevice → Op (Unit {0})
unfolding path_join mount_procfs_mig mount_compute
access_caps kernel modprobe ctx cnt dev = do
  access ← return (path_join dev.gi_caps_path (codes "access"))
  proc_mnt_gi ← mount_procfs_mig kernel ctx.root cnt access
  mount_compute kernel modprobe ctx cnt dev access proc_mnt_gi

unfoldable pub nvc_mig_device_access_caps_mount :
    Kernel → Modprobe → NvcContext → NvcContainer → NvcMigDevice → Op (Unit {0})
unfolding inside access_caps
nvc_mig_device_access_caps_mount kernel modprobe ctx cnt dev =
    inside kernel ctx cnt (access_caps kernel modprobe ctx cnt dev)

-- The directory of the devices is mounted, and stays so where what follows fails.
unfoldable pub allow_global : Kernel → Modprobe → NvcContext → NvcContainer → Bytes → Op (Unit {0})
unfolding mount_directory path_join nvc_nvcaps_device_from_proc_path allow_unless
allow_global kernel modprobe ctx cnt file = do
  dev_mnt ← mount_directory kernel ctx.root cnt nv_caps_device_dir
  config ← return (path_join nv_mig_caps_path file)
  node ← nvc_nvcaps_device_from_proc_path kernel modprobe ctx config
  allow_unless kernel cnt node.id

-- What nvc_mig_config_global_caps_mount and nvc_mig_monitor_global_caps_mount share, but for a name
unfoldable pub global_caps : Kernel → Modprobe → NvcContext → NvcContainer → Bytes → Op (Unit {0})
unfolding mount_procfs_mig allow_global unmount
global_caps kernel modprobe ctx cnt file = do
  proc_mnt ← mount_procfs_mig kernel ctx.root cnt nv_proc_driver_caps
  or_else (with_caps modprobe (allow_global kernel modprobe ctx cnt file)) (unmount kernel proc_mnt)

unfoldable pub nvc_mig_config_global_caps_mount :
    Kernel → Modprobe → NvcContext → NvcContainer → Op (Unit {0})
unfolding inside global_caps
nvc_mig_config_global_caps_mount kernel modprobe ctx cnt =
    inside kernel ctx cnt (global_caps kernel modprobe ctx cnt (codes "config"))

unfoldable pub nvc_mig_monitor_global_caps_mount :
    Kernel → Modprobe → NvcContext → NvcContainer → Op (Unit {0})
unfolding inside global_caps
nvc_mig_monitor_global_caps_mount kernel modprobe ctx cnt =
    inside kernel ctx cnt (global_caps kernel modprobe ctx cnt (codes "monitor"))

-- The conversion %s: the text behind the first word, which must not be empty.
unfoldable pub behind_word : Bytes → Bytes
behind_word [] = []
behind_word (c ∷ s) = let rest = behind_word s in if is_space c then c ∷ s else rest

abbrev pub scan_word : Bytes → Option Bytes
unfolding behind_word
scan_word [] = none
scan_word (c ∷ s) = some (behind_word s)

-- The conversion %u, into 32 bits
abbrev pub stored_unsigned : ℕ × Option Bytes → Option (ℕ × Bytes)
stored_unsigned (n, none) = none
stored_unsigned (n, some rest) = some (n % 2 ^ 32, rest)

abbrev pub last_number : ℕ → Option Bytes → Option (ℕ × ℕ)
unfolding strtoumax
last_number gpu none = none
last_number gpu (some s) = elim (stored_unsigned (strtoumax s)) [
  | none ↦ none
  | some (mig, rest) ↦ some (gpu, mig)
]

abbrev pub behind_gpu : Option (ℕ × Bytes) → Option (ℕ × ℕ)
unfolding skip_space scan_word last_number
behind_gpu none = none
behind_gpu (some (gpu, rest)) = last_number gpu (scan_word (skip_space rest))

-- sscanf(line, "gpu%u%s %u", …) == 3: the two numbers.
unfoldable pub scan_minors : Bytes → Option (ℕ × ℕ)
unfolding str_has_prefix strtoumax behind_gpu
scan_minors (c ∷ d ∷ e ∷ s) =
    if str_has_prefix (c ∷ d ∷ e ∷ []) (codes "gpu")
    then behind_gpu (stored_unsigned (strtoumax s))
    else none
scan_minors s = none

-- The minor numbers in the lines for a GPU, none longer than the buffer
unfoldable pub minors_of : ℕ → List (Bytes × Bool) → List ℕ
unfolding scan_minors
minors_of gpu_minor [] = []
minors_of gpu_minor ((line, ended) ∷ lines) = elim (scan_minors line) [
  | none ↦ minors_of gpu_minor lines
  | some (gpu, mig) ↦
      let rest = minors_of gpu_minor lines in if gpu == gpu_minor then mig ∷ rest else rest
]

unfoldable pub allow_each : Kernel → NvcContainer → ℕ → List ℕ → Op (Unit {0})
unfolding allow_device
allow_each kernel cnt mig_major [] = pure tt
allow_each kernel cnt mig_major (mig ∷ migs) =
    allow_device kernel cnt (makedev mig_major mig) >> allow_each kernel cnt mig_major migs

-- The lines that fgets gives; where the file cannot be opened, fclose is called on NULL.
unfoldable pub lines_of : ℕ ⊎ Option Bytes → Op (List (Bytes × Bool))
unfolding read_lines
lines_of (inl errno) = crash
lines_of (inr none) = pure []
lines_of (inr (some text)) = pure (read_lines text)

unfoldable pub setup_mig_minor_cgroups : Kernel → NvcContainer → ℕ → ℕ → Op (Unit {0})
unfolding lines_of minor minors_of allow_each
setup_mig_minor_cgroups kernel cnt mig_major id = do
  lines ← ask (λ h. kernel.read_text h nv_caps_mig_minors_path) >>= lines_of
  allow_each kernel cnt mig_major (minors_of (minor id) lines)

unfoldable pub mig_minors : Kernel → NvcContainer → ℕ → Option ℕ → Op (Unit {0})
unfolding bit setup_mig_minor_cgroups
mig_minors kernel cnt id none = pure tt
mig_minors kernel cnt id (some mig_major) =
    when (not (bit opt_no_cgroups cnt.flags)) (setup_mig_minor_cgroups kernel cnt mig_major id)

unfoldable pub nvc_device_mig_caps_mount :
    Kernel → Modprobe → NvcContext → NvcContainer → NvcDevice → Op (Unit {0})
unfolding inside mig_minors
nvc_device_mig_caps_mount kernel modprobe ctx cnt dev =
    inside kernel ctx cnt (ask (λ h. modprobe.caps_major h) >>= mig_minors kernel cnt dev.node_id)
