-- ===== src/Tests/Mounts.antt =====
-- The mounts, for src/nvc_mount.c.
use libxdxgpu_container.Base.{
  ℕ, ◌-◌, ◌<◌, ◌≡◌, refl, true, false, List, [], ◌∷◌, ◌++◌, map, Option, none, some, length,
  replicate, inl, inr, ◌⊎◌, if◌then◌else◌,
}
use libxdxgpu_container.Base.Int.{pos}
use libxdxgpu_container.Base.Bits.{bit}
use libxdxgpu_container.Libc.{Bytes, codes, tokens, strcmp_eq, strncmp_eq, strstr, strspn, strrchr}
use libxdxgpu_container.Error.{ok}
use libxdxgpu_container.Utils.Str.{str_equal}
use libxdxgpu_container.Path.Resolve.{not_link}
use libxdxgpu_container.Container.{NvcContainer}
use libxdxgpu_container.Devices.{NvcDevice, NvcMigDevice}
use libxdxgpu_container.Kernel.{Kernel, Act, bind, Stat, run}
use libxdxgpu_container.Info.{dxcore_libs, utility_libs, compute_libs}
use libxdxgpu_container.Kernel.Gives.{Gives}
use libxdxgpu_container.Mount.{NvcContext}
use libxdxgpu_container.Mount.Caps.{
  Modprobe, nvc_mig_device_access_caps_mount, nvc_mig_config_global_caps_mount,
  nvc_mig_monitor_global_caps_mount, nvc_device_mig_caps_mount,
}
use libxdxgpu_container.Mount.Device.{nvc_device_mount}
use libxdxgpu_container.Mount.Driver.{
  NvcDriverInfo, driver_mounts, nvc_driver_mount, mount_capacity,
}
use libxdxgpu_container.Mount.Libraries.{filter_libraries}
use libxdxgpu_container.Mount.Filter.{kept, filter_libraries_lem}
use libxdxgpu_container.Mount.Capacity.{driver_mounts-AtMost}
use libxdxgpu_container.Mount.View.{mounts_at, count_path}
use libxdxgpu_container.Mount.Inside.Entered.{Visits, operations-Visit}
use libxdxgpu_container.Mount.Undone.Rules.{Owns}
use libxdxgpu_container.Mount.Undone.Single.{IsDetaching}
use libxdxgpu_container.Mount.Undone.Whole.{Leaves, driver_mounts-Owns, nvc_driver_mount-Leaves}

-- Devices have the number 226:128, and other paths are directories, but for libraries.
abbrev stat_of : Bytes → ℕ ⊎ Stat
unfolding strstr
stat_of path = elim (strstr path (codes ".so")) [
  | some rest ↦ inr (record { mode = 33261; rdev = 0; size = 9 })
  | none ↦ elim (strstr path (codes "/dev/")) [
    | some rest ↦ inr (record { mode = 8630; rdev = 57984; size = 0 })
    | none ↦ inr (record { mode = 16877; rdev = 0; size = 0 })
  ]
]

-- Only binding the device fails, with EPERM.
abbrev answer_of : Act → Option ℕ
unfolding str_equal strcmp_eq
answer_of (bind s t) = if str_equal t (codes "/c/dev/dri/renderD128") then some 1 else none
answer_of act = none

abbrev kernel : Kernel
kernel = record {
  answer = λ h act. answer_of act;
  files = λ h. record { openat = λ fd path dir. inr 5; readlinkat = λ fd path. not_link 22 };
  stat = λ h path. stat_of path;
  lstat = λ h path. stat_of path;
  access = λ h path. none;
  open_read = λ h path. none;
  appender = λ h. record { append_to = λ path. ok tt; write = λ path text. none };
  read_text = λ h path. inl 2;
  list_dir = λ h path. inr [];
  walk = λ h path. inr [];
  fsuid = λ h. 0;
  fsgid = λ h. 0;
  dac_override_permitted = inr false;
  umask = 18;
  euid = 0;
  egid = 0;
}

abbrev ctx : NvcContext
ctx = record { initialized = true; root = codes "/"; mnt_ns = 3; no_pivot = false; dxcore = none }

abbrev cnt : NvcContainer
cnt = record {
  flags = 112;
  pid = pos 7;
  rootfs = codes "/c";
  cfg = record {
    bins_dir = codes "/usr/bin";
    libs_dir = codes "/lib";
    libs32_dir = codes "/lib32";
    dris_dir = codes "/lib/dri";
    cudart_dir = codes "/usr/local/cuda";
    ldconfig = codes "@/sbin/ldconfig";
  };
  uid = 0;
  gid = 0;
  mnt_ns = codes "/proc/7/ns/mnt";
  dev_cg_version = 1;
  dev_cg = some (codes "/cg");
  libs = [];
}

abbrev info : NvcDriverInfo
info = record {
  nvrm_version = codes "1.2.3";
  bins = [];
  libs = codes "/lib/libdrm.so.2" ∷ codes "/lib/libother.so" ∷ [];
  libs32 = [];
  ipcs = [];
  devs = record { path = codes "/dev/dri/renderD128"; id = 57984 } ∷ [];
  firmwares = [];
}

detaching : IsDetaching kernel
unfolding answer_of
detaching = record { detaches = λ h p i. refl }

-- The library is mounted, and taken off again when the device fails.
mounted_library :
    mounts_at (codes "/c/lib/libdrm.so.2") (run (nvc_driver_mount kernel ctx cnt info) []).0 ≡ 0
unfolding nvc_driver_mount mounts_at tokens strcmp_eq strncmp_eq strstr strspn strrchr str_equal bit
    dxcore_libs utility_libs compute_libs
mounted_library = refl

driver_mounts-Owns_example :
    Owns
      (codes "/c/lib/libdrm.so.2")
      0
      (count_path (codes "/c/lib/libdrm.so.2"))
      []
      (run (driver_mounts kernel ctx cnt info) [])
driver_mounts-Owns_example =
    driver_mounts-Owns kernel ctx cnt info b'/' (codes "c/lib/libdrm.so.2") detaching []

nvc_driver_mount-Leaves_example :
    Leaves kernel ctx cnt info
      (codes "/c/lib/libdrm.so.2")
      []
      (run (nvc_driver_mount kernel ctx cnt info) [])
nvc_driver_mount-Leaves_example =
    nvc_driver_mount-Leaves kernel ctx cnt info b'/' (codes "c/lib/libdrm.so.2") detaching []

driver_mounts-AtMost_example :
    Gives (λ mnts. length mnts < mount_capacity cnt info) (driver_mounts kernel ctx cnt info)
driver_mounts-AtMost_example = driver_mounts-AtMost kernel ctx cnt info

abbrev own_libs : List Bytes
own_libs =
    codes "/c/lib/libcuda.so.1.2.3" ∷ codes "/c/lib/libcuda.so.9.0" ∷ codes "/c/lib/libm.a" ∷ []

filters :
    filter_libraries (codes "1.2.3") own_libs
    ≡ (some (codes "/c/lib/libcuda.so.9.0") ∷ none ∷ none ∷ [], 1)
unfolding filter_libraries tokens strcmp_eq strncmp_eq strstr strspn strrchr
filters = refl

filter_libraries_lem_example : filter_libraries (codes "1.2.3") own_libs ≡ (
  map some (kept (codes "1.2.3") own_libs)
      ++ replicate (length own_libs - length (kept (codes "1.2.3") own_libs)) none,
  length (kept (codes "1.2.3") own_libs),
)
filter_libraries_lem_example = filter_libraries_lem (codes "1.2.3") own_libs

abbrev modprobe : Modprobe
modprobe = record {
  device_file_attrs = λ h path. inr (226, 128, codes "/dev/dri/renderD128");
  caps_major = λ h. some 226;
}

abbrev mig : NvcMigDevice
mig = record {
  parent = 0;
  uuid = codes "MIG-0";
  gi = 0;
  ci = 0;
  gi_caps_path = codes "/proc/gi";
  ci_caps_path = codes "/proc/ci";
}

abbrev dev : NvcDevice
dev = record {
  model = codes "Pangu";
  uuid = codes "GPU-0";
  busid = codes "0:1";
  arch = none;
  brand = none;
  node_path = codes "/dev/dri/renderD128";
  node_id = 57984;
  mig_capable = true;
  mig_caps_path = none;
  mig_devices = mig ∷ [];
}

operations-Visit_example :
    Visits ctx cnt (nvc_driver_mount kernel ctx cnt info)
    × Visits ctx cnt (nvc_device_mount kernel ctx cnt dev)
    × Visits ctx cnt (nvc_mig_device_access_caps_mount kernel modprobe ctx cnt mig)
    × Visits ctx cnt (nvc_mig_config_global_caps_mount kernel modprobe ctx cnt)
    × Visits ctx cnt (nvc_mig_monitor_global_caps_mount kernel modprobe ctx cnt)
    × Visits ctx cnt (nvc_device_mig_caps_mount kernel modprobe ctx cnt dev)
operations-Visit_example = operations-Visit kernel modprobe ctx cnt info dev mig
