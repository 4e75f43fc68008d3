-- ===== src/Tests/Contexts.antt =====
-- The life of a context, for src/nvc.c, and making files, for src/utils.c.
use libxdxgpu_container.Base.{◌≡◌, refl, false, not, ◌&&◌, [], none, some, inr}
use libxdxgpu_container.Libc.{Bytes, codes, strtoumax}
use libxdxgpu_container.Utils.Str.{str_has_prefix}
use libxdxgpu_container.Error.{ok}
use libxdxgpu_container.Path.Resolve.{not_link}
use libxdxgpu_container.Kernel.{Kernel, done, run}
use libxdxgpu_container.File.{create_as}
use libxdxgpu_container.File.Total.{Lives, create_as-Lives}
use libxdxgpu_container.Process.{fgets}
use libxdxgpu_container.Context.{
  Services, scan_map, uninitialized, none_given, nvc_init, init_within_userns,
}
use libxdxgpu_container.Context.Life.{Leaves, nvc_init-Leaves}
use libxdxgpu_container.Context.Userns.{is_whole, init_within_userns_lem}

abbrev whole : Bytes
whole = codes "         0          0 4294967295"

abbrev kernel : Kernel
kernel = record {
  answer = λ h act. none;
  files = λ h. record { openat = λ fd path dir. inr 5; readlinkat = λ fd path. not_link 22 };
  stat = λ h path. inr (record { mode = 16877; rdev = 0; size = 0 });
  lstat = λ h path. inr (record { mode = 16877; rdev = 0; size = 0 });
  access = λ h path. none;
  open_read = λ h path. none;
  appender = λ h. record { append_to = λ path. ok tt; write = λ path text. none };
  read_text = λ h path. inr (some (codes "         0          0 4294967295"));
  list_dir = λ h path. inr [];
  walk = λ h path. inr [];
  fsuid = λ h. 0;
  fsgid = λ h. 0;
  dac_override_permitted = inr false;
  umask = 18;
  euid = 0;
  egid = 0;
}

abbrev services : Services
services = record {
  open_ns = λ h. inr 3;
  dxcore_adapters = λ h. none;
  fork = λ h. none;
  driver_init = λ h config. ok tt;
  nvcgo_init = λ h. ok tt;
  driver_shutdown = ok tt;
  nvcgo_shutdown = ok tt;
}

nvc_init-Leaves_example :
    Leaves kernel none_given (nvc_init kernel services uninitialized none none [])
nvc_init-Leaves_example = nvc_init-Leaves kernel services uninitialized none none [] refl

scanned_whole : scan_map (fgets 63 whole) ≡ some (0, 0, 4294967295)
unfolding scan_map strtoumax fgets
scanned_whole = refl

init_within_userns_lem_example : run (init_within_userns kernel) [] ≡ (
  [],
  done (
      not (
        is_whole (0, 0, 4294967295)
        && is_whole (0, 0, 4294967295)
        && not (str_has_prefix (fgets 63 whole) (codes "deny")))),
)
init_within_userns_lem_example =
    init_within_userns_lem kernel [] whole whole whole (0, 0, 4294967295) (0, 0, 4294967295) refl
      refl refl scanned_whole scanned_whole

create_as-Lives_example :
    Lives (create_as kernel (codes "/c/usr/lib/x") (some (codes "text")) 0 0 33060)
create_as-Lives_example =
    create_as-Lives kernel (codes "/c/usr/lib/x") (some (codes "text")) 0 0 33060
