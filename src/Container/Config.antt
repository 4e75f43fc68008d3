-- ===== src/Container/Config.antt =====
-- src/nvc_container.c: `copy_config`, the directories of a container.
use libxdxgpu_container.Base.{ℕ, Bool, not, ◌&&◌, List, ◌++◌, Option, none, some, if◌then◌else◌}
use libxdxgpu_container.Base.Bits.{bit}
use libxdxgpu_container.Base.Int.{ℤ}
use libxdxgpu_container.Libc.{Bytes, codes}
use libxdxgpu_container.Error.{Result, ok, err, unset, ◌>>=◌}
use libxdxgpu_container.Options.Table.{opt_standalone}
use libxdxgpu_container.Utils.Str.{str_equal, str_has_suffix}
use libxdxgpu_container.Cgroup.{print_path}

-- `struct nvc_container_config`
pub record NvcContainerConfig : Type 0 where
  pub pid : ℤ
  pub rootfs : Option Bytes
  pub bins_dir : Option Bytes
  pub libs_dir : Option Bytes
  pub libs32_dir : Option Bytes
  pub dris_dir : Option Bytes
  pub cudart_dir : Option Bytes
  pub ldconfig : Option Bytes

-- `nvc_container_config_new`
abbrev pub nvc_container_config_new : ℤ → Option Bytes → NvcContainerConfig
nvc_container_config_new pid rootfs = record {
  pid = pid;
  rootfs = rootfs;
  bins_dir = none;
  libs_dir = none;
  libs32_dir = none;
  dris_dir = none;
  cudart_dir = none;
  ldconfig = none;
}

-- The paths of `struct nvc_container_config` in a container: none of them is NULL.
pub record Directories : Type 0 where
  pub bins_dir : Bytes
  pub libs_dir : Bytes
  pub libs32_dir : Bytes
  pub dris_dir : Bytes
  pub cudart_dir : Bytes
  pub ldconfig : Bytes

-- The kernel and the C library: resolving a path below a root as path_resolve and path_resolve_full
-- do, files, the machine's name, directories, the owner of a file, the names that match a
-- pattern, the text of a file, and printed process ids.
pub record Host : Type 0 where
  pub resolve : Bytes → Bytes → Result Bytes
  pub resolve_full : Bytes → Bytes → Result Bytes
  pub file_exists : Bytes → Result Bool
  pub uname : Result Bytes
  pub is_directory : Bytes → Bool
  pub owner : Bytes → Result (ℕ × ℕ)
  pub glob : Bytes → Result (List Bytes)
  pub open_text : Bytes → Result Bytes
  pub print_pid : ℤ → Bytes
  pub ppid : ℤ

unfoldable pub is_standalone : ℕ → Bool
unfolding bit
is_standalone flags = bit opt_standalone flags

abbrev pub pid_path : Host → ℤ → Bytes
pid_path host pid = codes "/proc/" ++ host.print_pid pid

abbrev pub given_or : Option Bytes → Bytes → Bytes
given_or none default = default
given_or (some dir) default = dir

-- The file system of the container, as the host sees it.
unfoldable pub root_of : Host → ℕ → ℤ → Bytes → Result Bytes
unfolding is_standalone
root_of host flags pid rootfs =
    if is_standalone flags
    then ok rootfs
    else (do tmp ← print_path (pid_path host pid ++ codes "/root/"); host.resolve_full tmp rootfs)

abbrev pub exists_below : Host → Bytes → Bytes → Result Bool
exists_below host root path = do full ← host.resolve_full root path; host.file_exists full

-- USR_LIB32_DIR and USR_LIB32_ALT_DIR
abbrev pub usr_lib32_dir : Bytes
usr_lib32_dir = codes "/usr/lib32"

abbrev pub usr_lib32_alt_dir : Bytes
usr_lib32_alt_dir = codes "/usr/lib"

-- The directory of 32 bits where there is no multiarch and none is given.
unfoldable pub probe_libs32 : Host → Bytes → Bytes → Result Bytes
unfolding str_equal
probe_libs32 host root libs_dir = do
  there ← exists_below host root usr_lib32_dir
  (if there then ok usr_lib32_dir else (do
    tmp ← host.resolve_full root libs_dir
    path ← host.resolve_full root usr_lib32_alt_dir
    alt ← host.file_exists path
    ok (if alt && not (str_equal path tmp) then usr_lib32_alt_dir else usr_lib32_dir)))

unfoldable pub libs32_or_probe : Host → Bytes → Bytes → Option Bytes → Result Bytes
unfolding probe_libs32
libs32_or_probe host root libs_dir (some dir) = ok dir
libs32_or_probe host root libs_dir none = probe_libs32 host root libs_dir

-- The two library directories, where one of them is not given.
unfoldable pub choose_libs : Host → Bytes → Option Bytes → Option Bytes → Result (Bytes × Bytes)
unfolding libs32_or_probe
choose_libs host root libs_dir libs32_dir = do
  multiarch ← exists_below host root (codes "/etc/debian_version")
  (if multiarch
      then ok (
        given_or libs_dir (codes "/opt/xdxgpu/lib/x86_64-linux-gnu"),
        given_or libs32_dir (codes "/usr/lib/i386-linux-gnu"),
      )
      else (do
        dir32 ← libs32_or_probe host root (given_or libs_dir (codes "/usr/lib64")) libs32_dir
        ok (given_or libs_dir (codes "/usr/lib64"), dir32)))

unfoldable pub library_dirs : Host → Bytes → Option Bytes → Option Bytes → Result (Bytes × Bytes)
unfolding choose_libs
library_dirs host root (some libs_dir) (some libs32_dir) = ok (libs_dir, libs32_dir)
library_dirs host root libs_dir libs32_dir = choose_libs host root libs_dir libs32_dir

-- The last branch fails without an error.
unfoldable pub dri_dir_of : Host → Bytes → Result Bytes
unfolding str_has_suffix
dri_dir_of host machine =
    if str_has_suffix machine (codes "x86_64") && host.is_directory (codes "/etc/apt")
    then ok (codes "/usr/lib/x86_64-linux-gnu/dri")
    else if str_has_suffix machine (codes "aarch64") && host.is_directory (codes "/etc/apt")
    then ok (codes "/usr/lib/aarch64-linux-gnu/dri")
    else if str_has_suffix machine (codes "x86_64") && host.is_directory (codes "/etc/rpm")
    then ok (codes "/usr/lib64/dri")
    else err unset

unfoldable pub dri_dir : Host → Option Bytes → Result Bytes
unfolding dri_dir_of
dri_dir host (some dir) = ok dir
dri_dir host none = do machine ← host.uname; dri_dir_of host machine

unfoldable pub ldconfig_path : Host → Bytes → Option Bytes → Result Bytes
ldconfig_path host root (some path) = ok path
ldconfig_path host root none = do
  alt ← exists_below host root (codes "/sbin/ldconfig.real")
  ok (if alt then codes "/sbin/ldconfig.real" else codes "/sbin/ldconfig")

-- `copy_config`, for the directories
unfoldable pub resolve_directories : Host → ℕ → Bytes → NvcContainerConfig → Result Directories
unfolding root_of library_dirs dri_dir ldconfig_path
resolve_directories host flags rootfs cfg = do
  root ← root_of host flags cfg.pid rootfs
  (libs_dir, libs32_dir) ← library_dirs host root cfg.libs_dir cfg.libs32_dir
  dris_dir ← dri_dir host cfg.dris_dir
  ldconfig ← ldconfig_path host root cfg.ldconfig
  ok (record {
    bins_dir = given_or cfg.bins_dir (codes "/usr/bin");
    libs_dir = libs_dir;
    libs32_dir = libs32_dir;
    dris_dir = dris_dir;
    cudart_dir = given_or cfg.cudart_dir (codes "/usr/local/cuda");
    ldconfig = ldconfig;
  })
