-- ===== src/Tests/Updates.antt =====
-- Running ldconfig, for src/nvc_ldcache.c.
use libxdxgpu_container.Base.{◌≡◌, refl, true, false, [], none, some, inr}
use libxdxgpu_container.Libc.{codes, strtoumax, strcmp_eq, strncmp_eq, strrchr}
use libxdxgpu_container.Utils.Str.{str_equal, str_has_prefix}
use libxdxgpu_container.Kernel.{Kernel, confine, exec, done, run}
use libxdxgpu_container.File.Paths.{dirname}
use libxdxgpu_container.Process.{Process, exited}
use libxdxgpu_container.Update.{command, child, nvc_ldcache_update}
use libxdxgpu_container.Update.Confined.{anywhere, behind, Reaches}
use libxdxgpu_container.Update.Steps.{steps}
use libxdxgpu_container.Update.Executed.{child-Reaches}
use libxdxgpu_container.Update.Outcome.{Ran, nvc_ldcache_update-Ran}
use libxdxgpu_container.Base.Int.{pos}
use libxdxgpu_container.Container.{NvcContainer}
use libxdxgpu_container.Mount.{NvcContext}
use libxdxgpu_container.Error.{ok}
use libxdxgpu_container.Path.Resolve.{not_link}

-- A kernel on which every step succeeds: every file holds the last capability, 3.
abbrev kernel : Kernel
kernel = record {
  answer = λ h act. none;
  files = λ h. record { openat = λ fd path dir. inr 5; readlinkat = λ fd path. not_link 22 };
  stat = λ h path. inr (record { mode = 16877; rdev = 0; size = 0 });
  lstat = λ h path. inr (record { mode = 16877; rdev = 0; size = 0 });
  access = λ h path. none;
  open_read = λ h path. none;
  appender = λ h. record { append_to = λ path. ok tt; write = λ path text. none };
  read_text = λ h path. inr (some (codes "3"));
  list_dir = λ h path. inr [];
  walk = λ h path. inr [];
  fsuid = λ h. 0;
  fsgid = λ h. 0;
  dac_override_permitted = inr false;
  umask = 18;
  euid = 0;
  egid = 0;
}

abbrev ctx : NvcContext
ctx = record { initialized = true; root = codes "/"; mnt_ns = 3; no_pivot = false; dxcore = none }

abbrev cnt : NvcContainer
cnt = record {
  flags = 112;
  pid = pos 7;
  rootfs = codes "/c";
  cfg = record {
    bins_dir = codes "/usr/bin";
    libs_dir = codes "/lib";
    libs32_dir = codes "/lib32";
    dris_dir = codes "/lib/dri";
    cudart_dir = codes "/usr/local/cuda";
    ldconfig = codes "@/sbin/ldconfig";
  };
  uid = 0;
  gid = 0;
  mnt_ns = codes "/proc/7/ns/mnt";
  dev_cg_version = 1;
  dev_cg = some (codes "/cg");
  libs = [];
}

abbrev process : Process
process = record {
  groups = λ h. inr [];
  egid = λ h. 0;
  euid = λ h. 0;
  is_bounding = λ h c. true;
  insecure_mode = none;
  cap_state = λ h. none;
  filter_made = true;
  rule_added = λ syscall. true;
  clone = λ h. none;
  wait = λ h. none;
  status = λ h. exited 0;
}

child-Reaches_example :
    Reaches
      (steps false process cnt)
      anywhere
      (behind (confine (exec true (command cnt).0)) (steps false process cnt true))
      (child kernel process ctx cnt ((command cnt).0, true))
child-Reaches_example = child-Reaches kernel process ctx cnt (command cnt).0 true

updated : run (nvc_ldcache_update kernel process ctx cnt) [] ≡ ([], done tt)
unfolding nvc_ldcache_update strtoumax strcmp_eq strncmp_eq strrchr str_equal str_has_prefix dirname
updated = refl

nvc_ldcache_update-Ran_example :
    Ran false process cnt (command cnt) (run (child kernel process ctx cnt (command cnt)) [])
nvc_ldcache_update-Ran_example = nvc_ldcache_update-Ran kernel process ctx cnt [] [] tt updated
