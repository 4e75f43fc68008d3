-- ===== src/Configure/Parser.antt =====
-- src/cli/configure.c: `configure_parser`, the options of the command.
pub mod Open
pub mod Accepts
use libxdxgpu_container.Base.{
  ℕ, zero, suc, ◌+◌, Bool, true, false, not, ◌&&◌, ◌||◌, List, [], ◌∷◌, ◌++◌, Option, none, some,
  ltb, leb, ◌==◌, if◌then◌else◌, length,
}
use libxdxgpu_container.Base.Int.{ℤ, pos, negsuc}
use libxdxgpu_container.Libc.{Bytes, codes, strncmp_eq}
use libxdxgpu_container.Error.{Result, ok, err}
use libxdxgpu_container.Devices.{message}
use libxdxgpu_container.Utils.Str.{str_equal, str_join}
use libxdxgpu_container.Utils.Ids.{str_to_pid}
use libxdxgpu_container.Configure.{Context}

-- The keys that argp calls the parser with, with their arguments.
pub data Key : Type 0 where
  pid_option device_option require_option ldconfig_option : Bytes → Key
  compute_option utility_option video_option graphics_option display_option ngx_option : Key
  compat32_option : Key
  mig_config_option mig_monitor_option : Bytes → Key
  no_cgroups_option no_devbind_option : Key
  argument : ℕ → Bytes → Key
  success : Key
  end_of_arguments : ℕ → Key
  other_key : Key

-- How a call ends: with the new context, with ARGP_ERR_UNKNOWN, or by the exit of the process,
-- after the usage text or an error.
pub data Parsed : Type 0 where
  parsed : Context → Parsed
  unknown_key : Parsed
  usage : Parsed
  fatal : Bytes → Parsed

-- `str_join(&err, &s1, s2, sep)`
abbrev pub joined_text : Option Bytes → Bytes → Bytes → Option Bytes
unfolding str_join
joined_text s1 s2 sep = some (str_join s1 s2 sep).1

abbrev pub with_flag : Context → Bytes → Parsed
with_flag ctx flag =
    parsed (record ctx { container_flags = joined_text ctx.container_flags flag (codes " ") })

-- The size of `reqs`
abbrev pub max_reqs : ℕ
max_reqs = 32

abbrev pub add_requirement : Context → Bytes → Parsed
add_requirement ctx arg =
    if leb max_reqs (length ctx.reqs)
    then fatal (codes "too many requirements")
    else parsed (record ctx { reqs = ctx.reqs ++ arg ∷ [] })

-- `libnvc.version()->major` is 0 with the library for Tegra.
abbrev pub parse_requirement : ℕ → Context → Bytes → Parsed
parse_requirement major ctx arg =
    if major == 0 && strncmp_eq 14 arg (codes "csv-mounts=all")
    then with_flag ctx (codes "jetpack-mount-all")
    else if major == 0 && strncmp_eq 9 arg (codes "base-only")
    then with_flag ctx (codes "jetpack-base-only")
    else add_requirement ctx arg

abbrev pub parse_pid : Context → Result ℤ → Parsed
parse_pid ctx (ok pid) = parsed (record ctx { pid = pid })
parse_pid ctx (err e) = fatal (message e)

abbrev pub parse_rootfs : Context → Bytes → Parsed
unfolding str_equal
parse_rootfs ctx [] = fatal (codes "invalid rootfs directory")
parse_rootfs ctx (c ∷ arg) =
    if not (c == b'/') || str_equal (c ∷ arg) (codes "/")
    then fatal (codes "invalid rootfs directory")
    else parsed (record ctx { rootfs = some (c ∷ arg) })

-- `ppid` is what getppid returns.
abbrev pub choose_mode : ℤ → Context → ℤ → Parsed
choose_mode ppid ctx (pos (suc n)) = with_flag ctx (codes "supervised")
choose_mode ppid ctx _ = with_flag (record ctx { pid = ppid }) (codes "standalone")

unfoldable pub configure_parser : ℕ → ℤ → Key → Context → Parsed
unfolding str_to_pid str_join
configure_parser major ppid (pid_option arg) ctx = parse_pid ctx (str_to_pid arg)
configure_parser major ppid (device_option arg) ctx =
    parsed (record ctx { devices = joined_text ctx.devices arg (codes ",") })
configure_parser major ppid (require_option arg) ctx = parse_requirement major ctx arg
configure_parser major ppid (ldconfig_option arg) ctx = parsed (record ctx { ldconfig = some arg })
configure_parser major ppid compute_option ctx = with_flag ctx (codes "compute")
configure_parser major ppid utility_option ctx = with_flag ctx (codes "utility")
configure_parser major ppid video_option ctx = with_flag ctx (codes "video")
configure_parser major ppid graphics_option ctx = with_flag ctx (codes "graphics")
configure_parser major ppid display_option ctx = with_flag ctx (codes "display")
configure_parser major ppid ngx_option ctx =
    if major == 0 then parsed ctx else with_flag ctx (codes "ngx")
configure_parser major ppid compat32_option ctx = with_flag ctx (codes "compat32")
configure_parser major ppid (mig_config_option arg) ctx =
    parsed (record ctx { mig_config = joined_text ctx.mig_config arg (codes ",") })
configure_parser major ppid (mig_monitor_option arg) ctx =
    parsed (record ctx { mig_monitor = joined_text ctx.mig_monitor arg (codes ",") })
configure_parser major ppid no_cgroups_option ctx = with_flag ctx (codes "no-cgroups")
configure_parser major ppid no_devbind_option ctx = with_flag ctx (codes "no-devbind")
configure_parser major ppid (argument n arg) ctx = if ltb 0 n then usage else parse_rootfs ctx arg
configure_parser major ppid success ctx = choose_mode ppid ctx ctx.pid
configure_parser major ppid (end_of_arguments n) ctx = if ltb n 1 then usage else parsed ctx
configure_parser major ppid other_key ctx = unknown_key

-- The calls that argp makes, one key after the other. It goes on behind a key that the parser does
-- not know.
abbrev pub parse_on : (Context → Parsed) → Context → Parsed → Parsed
parse_on next ctx (parsed ctx') = next ctx'
parse_on next ctx unknown_key = next ctx
parse_on next ctx usage = usage
parse_on next ctx (fatal text) = fatal text

unfoldable pub parse_keys : ℕ → ℤ → List Key → Context → Parsed
unfolding configure_parser
parse_keys major ppid [] ctx = parsed ctx
parse_keys major ppid (k ∷ ks) ctx =
    parse_on (λ c. parse_keys major ppid ks c) ctx (configure_parser major ppid k ctx)
