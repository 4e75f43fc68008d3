-- ===== src/Tests/Container.antt =====
-- The making of a container, for src/nvc_container.c, and its device cgroup, for src/cgroup_legacy.c.
use libxdxgpu_container.Base.{◌≡◌, refl, true, false, [], ◌∷◌, none, some, arith}
use libxdxgpu_container.Base.Bits.{bit}
use libxdxgpu_container.Base.Int.{pos}
use libxdxgpu_container.Libc.{codes, tokens, strcmp_eq}
use libxdxgpu_container.Utils.Str.{str_equal}
use libxdxgpu_container.Error.{ok, err, setx}
use libxdxgpu_container.Options.{options_parse}
use libxdxgpu_container.Options.Table.{container_opts}
use libxdxgpu_container.Configure.{Context}
use libxdxgpu_container.Configure.Parser.Accepts.{IsClosed}
use libxdxgpu_container.Path.{path_append}
use libxdxgpu_container.Cgroup.Setup.{
  Appender, IsAllowed, setup_device_cgroup, setup_device_cgroup-IsAllowed,
}
use libxdxgpu_container.Container.{
  NvcContainer, nvc_container_new, build_container, is_valid_config,
}
use libxdxgpu_container.Container.Config.{Host, NvcContainerConfig}
use libxdxgpu_container.Container.Made.{IsMade, nvc_container_new-IsMade}
use libxdxgpu_container.Container.Mode.{nvc_container_new-IsClosed}

-- A host on which each path is its own target, with two names for one library.
abbrev host : Host
host = record {
  resolve = λ root path. ok (codes "/libcuda.so.1");
  resolve_full = λ root path. ok path;
  file_exists = λ path. ok false;
  uname = ok (codes "x86_64");
  is_directory = λ path. true;
  owner = λ path. ok (1000, 100);
  glob = λ pattern. ok (codes "/c/a" ∷ codes "/c/b" ∷ []);
  open_text = λ path. err (setx (codes "absent"));
  print_pid = λ pid. codes "7";
  ppid = pos 1;
}

abbrev config : NvcContainerConfig
config = record {
  pid = pos 7;
  rootfs = some (codes "/c");
  bins_dir = none;
  libs_dir = some (codes "/lib");
  libs32_dir = none;
  dris_dir = none;
  cudart_dir = none;
  ldconfig = some (codes "@/sbin/ldconfig");
}

abbrev closed : Context
closed = record {
  init_flags = none;
  load_kmods = false;
  pid = pos 7;
  rootfs = some (codes "/c");
  reqs = [];
  ldconfig = none;
  container_flags = some (codes "compute no-cgroups supervised");
  devices = none;
  mig_config = none;
  mig_monitor = none;
}

closed-IsClosed : IsClosed closed
unfolding tokens strcmp_eq str_equal bit
closed-IsClosed = record { few = omega arith; rooted = (refl, λ e. cc); one_mode = refl }

abbrev made : NvcContainer
made = record {
  flags = 4165;
  pid = pos 7;
  rootfs = codes "/c";
  cfg = record {
    bins_dir = codes "/usr/bin";
    libs_dir = codes "/lib";
    libs32_dir = codes "/usr/lib32";
    dris_dir = codes "/usr/lib/x86_64-linux-gnu/dri";
    cudart_dir = codes "/usr/local/cuda";
    ldconfig = codes "@/sbin/ldconfig";
  };
  uid = 1000;
  gid = 100;
  mnt_ns = codes "/proc/7/ns/mnt";
  dev_cg_version = 0;
  dev_cg = none;
  libs = codes "/libcuda.so.1" ∷ [];
}

makes :
    nvc_container_new host config (some (codes "compute no-cgroups supervised")) ≡ ok (some made)
unfolding nvc_container_new tokens strcmp_eq str_equal
makes = refl

nvc_container_new-IsMade_example : IsMade config (some (codes "compute no-cgroups supervised")) made
nvc_container_new-IsMade_example =
    nvc_container_new-IsMade host config (some (codes "compute no-cgroups supervised")) {cnt = made}
      makes

reads : options_parse (codes "compute no-cgroups supervised") container_opts ≡ ok 4165
unfolding options_parse tokens strcmp_eq
reads = refl

config-is_valid : is_valid_config config ≡ true
unfolding is_valid_config
config-is_valid = refl

nvc_container_new-IsClosed_example :
    nvc_container_new host config (some (codes "compute no-cgroups supervised"))
    ≡ build_container host 4165 config
nvc_container_new-IsClosed_example =
    nvc_container_new-IsClosed host config closed {text = codes "compute no-cgroups supervised"}
      {flags = 4165} closed-IsClosed refl reads config-is_valid

abbrev appender : Appender
appender = record { append_to = λ path. ok tt; write = λ path text. none }

rule_written :
    setup_device_cgroup appender (codes "/cg") 57984
    ≡ ok (codes "/cg/devices.allow", codes "c 226:128 rw")
unfolding setup_device_cgroup path_append
rule_written = refl

setup_device_cgroup-IsAllowed_example :
    IsAllowed appender (codes "/cg") 57984 (codes "/cg/devices.allow", codes "c 226:128 rw")
setup_device_cgroup-IsAllowed_example =
    setup_device_cgroup-IsAllowed appender (codes "/cg") 57984
      {done = (codes "/cg/devices.allow", codes "c 226:128 rw")} (omega arith) rule_written
