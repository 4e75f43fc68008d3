-- ===== src/Configure.antt =====
-- src/cli/configure.c and src/cli/cli.h: the `configure` command. This module has the data that the
-- command works on, and the calls that it makes of the library as a record of a client.
pub mod Parser
pub mod Rules
pub mod Command
use libxdxgpu_container.Base.{ℕ, Bool, List, [], ◌∷◌, ◌++◌, Option, none, some}
use libxdxgpu_container.Base.Int.{ℤ}
use libxdxgpu_container.Libc.{Bytes}
use libxdxgpu_container.Error.{Result, ok, err}
use libxdxgpu_container.Devices.{NvcDeviceInfo, MigRef, message}

-- `struct context`, without the fields of the other commands. `rootfs` and the texts are `none`
-- where they are NULL; `reqs` is the array's first `nreqs` entries.
pub record Context : Type 0 where
  pub init_flags : Option Bytes
  pub load_kmods : Bool
  pub pid : ℤ
  pub rootfs : Option Bytes
  pub reqs : List Bytes
  pub ldconfig : Option Bytes
  pub container_flags : Option Bytes
  pub devices : Option Bytes
  pub mig_config : Option Bytes
  pub mig_monitor : Option Bytes

-- The versions of `struct nvc_driver_info`.
pub record DriverVersions : Type 0 where
  pub nvrm_version : Option Bytes
  pub cuda_version : Option Bytes

-- The indices of `ecaps` in src/cli/main.c
pub data Phase : Type 0 where
  nvc_init nvc_init_kmods nvc_container nvc_info nvc_mount nvc_ldcache nvc_shutdown : Phase

-- The calls that the command makes, each of which can fail.
pub data Call : Type 0 where
  permitted_capabilities inheritable_capabilities bounding_capabilities : Call
  effective_capabilities : Phase → Call
  allocate_configs : Call
  init : Option Bytes → Call
  container_new : Option Bytes → Call
  driver_info_new device_info_new : Call
  allocate_devices : ℕ → Call
  driver_mount : Call
  device_mount : ℕ → Call
  mig_device_access_caps_mount : MigRef → Call
  mig_config_global_caps_mount mig_monitor_global_caps_mount : Call
  device_mig_caps_mount : ℕ → Call
  ldcache_update : Call
  shutdown : Call
  release : Call

-- What was called so far, the last call first.
abbrev pub History : Type 0
History = List Call

-- The library and the kernel: how a call ends behind those before it, with the message where it
-- fails, and what the two queries find.
pub record Library : Type 0 where
  pub respond : History → Call → Option Bytes
  pub drv : DriverVersions
  pub dev : NvcDeviceInfo

-- How a part of the command ends: with a value, or with the text that it warns with.
pub data Step (A : Type 0) : Type 0 where
  done : A → Step A
  warned : Bytes → Step A

pub data Run (A : Type 0) : Type 0 where
  act : (History → History × Step A) → Run A

abbrev pub run : {A : Type 0} → Run A → History → History × Step A
run (act m) = m

abbrev pub and_then : {A B : Type 0} → (A → Run B) → History × Step A → History × Step B
and_then f (h, done a) = run (f a) h
and_then f (h, warned text) = (h, warned text)

infixl 5 ◌>>=◌ ◌>>◌
abbrev pub ◌>>=◌ : {A B : Type 0} → Run A → (A → Run B) → Run B
m >>= f = act (λ h. and_then f (run m h))

abbrev pub ◌>>◌ : {A B : Type 0} → Run A → Run B → Run B
m >> k = m >>= λ _. k

abbrev pub pure : {A : Type 0} → A → Run A
pure a = act (λ h. (h, done a))

abbrev pub response : Bytes → Option Bytes → Step (Unit {0})
response what none = done tt
response what (some text) = warned (what ++ text)

-- `if (call < 0) { warnx("<what>: %s", ...); goto fail; }`
unfoldable pub call : Library → Bytes → Call → Run (Unit {0})
call lib what c = act (λ h. (c ∷ h, response what (lib.respond h c)))

abbrev pub checked_step : {A : Type 0} → Bytes → Result A → Step A
checked_step what (ok a) = done a
checked_step what (err e) = warned (what ++ message e)

-- The same for a function of the command itself, which calls nothing.
abbrev pub check : {A : Type 0} → Bytes → Result A → Run A
check what r = act (λ h. (h, checked_step what r))
