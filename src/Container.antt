-- ===== src/Container.antt =====
-- src/nvc_container.c: making a container's context, for the architecture x86_64. Memory is always
-- found.
pub mod Config
pub mod Mode
pub mod Keeps
pub mod Made
use libxdxgpu_container.Base.{
  ℕ, zero, suc, Bool, true, false, not, ◌&&◌, ◌||◌, List, [], ◌∷◌, ◌++◌, Option, none, some, ◌==◌,
  if◌then◌else◌, length, drop,
}
use libxdxgpu_container.Base.Bits.{bit}
use libxdxgpu_container.Base.Int.{ℤ, pos, negsuc}
use libxdxgpu_container.Libc.{Bytes, codes}
use libxdxgpu_container.Error.{Result, ok, err, setx, ◌>>=◌}
use libxdxgpu_container.Options.{options_parse}
use libxdxgpu_container.Options.Table.{
  container_opts, default_container_opts, opt_supervised, opt_standalone, opt_no_cgroups,
  opt_no_cntlibs, opt_compute_libs,
}
use libxdxgpu_container.Utils.Str.{str_empty, str_array_match}
use libxdxgpu_container.Path.{path_append}
use libxdxgpu_container.Cgroup.{print_path, find_device_cgroup_path}
use libxdxgpu_container.Container.Config.{
  NvcContainerConfig, Host, Directories, resolve_directories, pid_path, is_standalone,
}

-- `struct nvc_container`
pub record NvcContainer : Type 0 where
  pub flags : ℕ
  pub pid : ℤ
  pub rootfs : Bytes
  pub cfg : Directories
  pub uid : ℕ
  pub gid : ℕ
  pub mnt_ns : Bytes
  pub dev_cg_version : ℕ
  pub dev_cg : Option Bytes
  pub libs : List Bytes

abbrev pub is_positive : ℤ → Bool
is_positive (pos zero) = false
is_positive (pos (suc n)) = true
is_positive (negsuc n) = false

abbrev pub is_absolute : Option Bytes → Bool
is_absolute none = false
is_absolute (some []) = false
is_absolute (some (c ∷ s)) = c == b'/'

-- The condition of validate_args
unfoldable pub is_valid_config : NvcContainerConfig → Bool
unfolding str_empty
is_valid_config cfg =
    is_positive cfg.pid
    && (is_absolute cfg.rootfs
        && (not (str_empty cfg.dris_dir)
            && (not (str_empty cfg.bins_dir)
                && (not (str_empty cfg.libs_dir)
                    && (not (str_empty cfg.libs32_dir)
                        && (not (str_empty cfg.cudart_dir) && not (str_empty cfg.ldconfig)))))))

-- `!(flags & OPT_SUPERVISED) ^ !(flags & OPT_STANDALONE)`
abbrev pub differ : Bool → Bool → Bool
differ true b = not b
differ false b = b

unfoldable pub is_one_mode : ℕ → Bool
unfolding bit
is_one_mode flags = differ (not (bit opt_supervised flags)) (not (bit opt_standalone flags))

-- The root directory in standalone mode, and nothing otherwise.
unfoldable pub prefix_of : ℕ → Bytes → Bytes
unfolding is_standalone
prefix_of flags rootfs = if is_standalone flags then rootfs else []

unfoldable pub lookup_owner : Host → ℕ → ℤ → Bytes → Result (ℕ × ℕ)
unfolding prefix_of
lookup_owner host flags pid rootfs = do
  path ← print_path (prefix_of flags rootfs ++ pid_path host pid)
  host.owner path

-- The loop of find_library_paths over the names that match; array_pack leaves the list as it is.
unfoldable pub add_library_paths : Host → Bytes → List Bytes → List Bytes → Result (List Bytes)
unfolding str_array_match
add_library_paths host rootfs [] libs = ok libs
add_library_paths host rootfs (file ∷ files) libs = do
  path ← host.resolve rootfs (drop (length rootfs) file)
  add_library_paths host rootfs files
      (if str_array_match path libs then libs else libs ++ path ∷ [])

unfoldable pub find_library_paths : Host → ℕ → Bytes → Directories → Result (List Bytes)
unfolding bit path_append add_library_paths
find_library_paths host flags rootfs dirs = if not (bit opt_compute_libs flags) then ok [] else (do
  path ← host.resolve_full rootfs dirs.cudart_dir
  pattern ← path_append path (codes "compat/lib*.so.*")
  files ← host.glob pattern
  add_library_paths host rootfs files [])

unfoldable pub find_namespace_path : Host → ℕ → ℤ → Bytes → Bytes → Bytes
unfolding prefix_of
find_namespace_path host flags pid rootfs namespace =
    prefix_of flags rootfs ++ (pid_path host pid ++ (codes "/ns/" ++ namespace))

-- `get_device_cgroup_version`, of src/cgroup_legacy.c
abbrev pub get_device_cgroup_version : ℕ
get_device_cgroup_version = 1

abbrev pub known_path : Option Bytes → Result (Option (Option Bytes))
known_path none = ok none
known_path (some cg) = ok (some (some cg))

-- The path of the device cgroup, where it is wanted; `none` inside is a crash.
unfoldable pub find_cgroup : Host → ℕ → ℤ → Bytes → Result (Option (Option Bytes))
unfolding bit find_device_cgroup_path prefix_of is_standalone
find_cgroup host flags pid rootfs = if bit opt_no_cgroups flags then ok (some none) else (do
  path ←
      find_device_cgroup_path host.open_text (prefix_of flags rootfs)
        (host.print_pid (if is_standalone flags then pid else host.ppid)) (host.print_pid pid)
  known_path path)

abbrev pub text_or_empty : Option Bytes → Bytes
text_or_empty none = []
text_or_empty (some s) = s

-- The context, where the path of the cgroup is known.
unfoldable pub filled :
    Host
    → ℕ
    → NvcContainerConfig
    → Directories
    → ℕ × ℕ
    → List Bytes
    → Option (Option Bytes)
    → Option NvcContainer
unfolding bit find_namespace_path
filled host flags cfg dirs owner libs none = none
filled host flags cfg dirs owner libs (some dev_cg) = some (record {
  flags = flags;
  pid = cfg.pid;
  rootfs = text_or_empty cfg.rootfs;
  cfg = dirs;
  uid = owner.0;
  gid = owner.1;
  mnt_ns = find_namespace_path host flags cfg.pid (text_or_empty cfg.rootfs) (codes "mnt");
  dev_cg_version = if bit opt_no_cgroups flags then 0 else get_device_cgroup_version;
  dev_cg = dev_cg;
  libs = libs;
})

-- What follows the checks. `none` is a crash.
unfoldable pub build_container : Host → ℕ → NvcContainerConfig → Result (Option NvcContainer)
unfolding bit resolve_directories lookup_owner find_library_paths find_cgroup filled
build_container host flags cfg = do
  let rootfs = text_or_empty cfg.rootfs
  dirs ← resolve_directories host flags rootfs cfg
  owner ← lookup_owner host flags cfg.pid rootfs
  libs ← (if bit opt_no_cntlibs flags then ok [] else find_library_paths host flags rootfs dirs)
  cgroup ← find_cgroup host flags cfg.pid rootfs
  ok (filled host flags cfg dirs owner libs cgroup)

-- The text of the options
abbrev pub options_text : Option Bytes → Bytes
options_text none = default_container_opts
options_text (some opts) = opts

unfoldable pub check_mode : ℕ → Result ℕ
unfolding is_one_mode
check_mode flags =
    if is_one_mode flags then ok flags else err (setx (codes "invalid mode of operation"))

-- `nvc_container_new`, for a context that is initialised, and a configuration that is not NULL.
unfoldable pub nvc_container_new :
    Host → NvcContainerConfig → Option Bytes → Result (Option NvcContainer)
unfolding is_valid_config options_parse check_mode build_container
nvc_container_new host cfg opts =
    if not (is_valid_config cfg) then err (setx (codes "invalid argument")) else (do
      flags ← options_parse (options_text opts) container_opts
      mode ← check_mode flags
      build_container host mode cfg)
