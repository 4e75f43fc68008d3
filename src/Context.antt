-- ===== src/Context.antt =====
-- src/nvc.c: the life of a context. What the driver service, nvcgo and dxcore answer is the record
-- Services.
pub mod Alive
pub mod Life
pub mod Userns
use libxdxgpu_container.Base.{
  ℕ, ◌+◌, ◌-◌, ◌^◌, Bool, true, false, not, ◌&&◌, ◌||◌, List, [], ◌∷◌, ◌++◌, Option, none, some,
  ◌==◌, if◌then◌else◌, ◌⊎◌, inl, inr,
}
use libxdxgpu_container.Base.Bits.{bit}
use libxdxgpu_container.Libc.{Bytes, codes, strtoumax}
use libxdxgpu_container.Error.{Result, ok, err, Failure, setx, set_errno}
use libxdxgpu_container.Options.{options_parse}
use libxdxgpu_container.Options.Table.{library_opts, default_library_opts, opt_load_kmods}
use libxdxgpu_container.Utils.Ids.{enoent}
use libxdxgpu_container.Utils.Str.{str_empty, str_has_prefix}
use libxdxgpu_container.Kernel.{
  History, Kernel, Ended, done, failed, crashed, Op, run, pure, fail, ◌>>=◌, ◌>>◌, try, return, ask,
}
use libxdxgpu_container.File.{has_errno, when}
use libxdxgpu_container.Process.{file_read_line, file_read_uint32}
use libxdxgpu_container.Mount.{DriverStore, readable}
use libxdxgpu_container.Mount.Caps.{stored_unsigned}
use libxdxgpu_container.Update.{unless_errno_of}

-- `struct nvc_config`; an id that is (uid_t)-1 or (gid_t)-1 is none.
pub record NvcConfig : Type 0 where
  pub root : Option Bytes
  pub ldcache : Option Bytes
  pub uid : Option ℕ
  pub gid : Option ℕ

-- The configuration of a context
pub record Config : Type 0 where
  pub root : Bytes
  pub ldcache : Bytes
  pub uid : ℕ
  pub gid : ℕ

-- `struct nvc_context`; the configuration and the descriptor are none where they were freed and
-- closed, and dxcore where it is not initialized.
pub record ContextState : Type 0 where
  pub initialized : Bool
  pub cfg : Option Config
  pub mnt_ns : Option ℕ
  pub dxcore : Option DriverStore

-- The descriptor of the namespace; the adapters of dxcore, none where it cannot be initialized;
-- fork; and driver_init, nvcgo_init and what shuts them down.
pub record Services : Type 0 where
  pub open_ns : History → ℕ ⊎ ℕ
  pub dxcore_adapters : History → Option (List DriverStore)
  pub fork : History → Option ℕ
  pub driver_init : History → Config → Result (Unit {0})
  pub nvcgo_init : History → Result (Unit {0})
  pub driver_shutdown : Result (Unit {0})
  pub nvcgo_shutdown : Result (Unit {0})

-- sscanf(buf, "%u %u %u", …) == 3: the numbers.
abbrev pub third : ℕ → ℕ → Option (ℕ × Bytes) → Option (ℕ × ℕ × ℕ)
third x y none = none
third x y (some (z, rest)) = some (x, y, z)

unfoldable pub second : ℕ → Option (ℕ × Bytes) → Option (ℕ × ℕ × ℕ)
unfolding strtoumax
second x none = none
second x (some (y, rest)) = third x y (stored_unsigned (strtoumax rest))

unfoldable pub first : Option (ℕ × Bytes) → Option (ℕ × ℕ × ℕ)
unfolding strtoumax second
first none = none
first (some (x, rest)) = second x (stored_unsigned (strtoumax rest))

unfoldable pub scan_map : Bytes → Option (ℕ × ℕ × ℕ)
unfolding strtoumax first
scan_map buf = first (stored_unsigned (strtoumax buf))

-- UINT32_MAX
abbrev pub uint32_max : ℕ
uint32_max = 2 ^ 32 - 1

-- None where the map is the one of the initial namespace.
abbrev pub map_scanned : Bytes → Option (ℕ × ℕ × ℕ) → Op (Option Bool)
map_scanned path none = fail (setx (codes "invalid map file: " ++ path))
map_scanned path (some (start, pstart, len)) =
    if not (start == 0) || not (pstart == 0) || not (len == uint32_max)
    then pure (some true)
    else pure none

-- A file that is not there says that there are no user namespaces.
abbrev pub unsupported : {A : Type 0} → A → Failure → Op A
unsupported a e = if has_errno enoent e then pure a else fail e

unfoldable pub map_read : Bytes → Result Bytes → Op (Option Bool)
unfolding scan_map
map_read path (err e) = unsupported (some false) e
map_read path (ok []) = pure (some true)
map_read path (ok (c ∷ buf)) = map_scanned path (scan_map (c ∷ buf))

unfoldable pub check_map : Kernel → Bytes → Op (Option Bool)
unfolding file_read_line map_read
check_map kernel path = try (file_read_line kernel path 64) >>= map_read path

unfoldable pub groups_read : Result Bytes → Op Bool
unfolding str_has_prefix
groups_read (err e) = unsupported false e
groups_read (ok buf) = pure (str_has_prefix buf (codes "deny"))

unfoldable pub check_groups : Kernel → Op Bool
unfolding file_read_line groups_read
check_groups kernel = try (file_read_line kernel (codes "/proc/self/setgroups") 64) >>= groups_read

abbrev pub or_next : Op Bool → Option Bool → Op Bool
or_next next (some b) = pure b
or_next next none = next

unfoldable pub init_within_userns : Kernel → Op Bool
unfolding check_map check_groups
init_within_userns kernel =
    check_map kernel (codes "/proc/self/uid_map")
    >>= or_next (check_map kernel (codes "/proc/self/gid_map") >>= or_next (check_groups kernel))

-- The parent: what the new process does is not looked at.
unfoldable pub load_kernel_modules : Kernel → Services → Op (Unit {0})
unfolding init_within_userns
load_kernel_modules kernel services = do
  userns ← init_within_userns kernel
  when (not userns)
      (ask (λ h. services.fork h) >>= unless_errno_of (codes "process creation failed"))

abbrev pub given_or : {A : Type 0} → A → Option A → A
given_or a none = a
given_or a (some b) = b

-- The overflow ids stand for an id that is not given.
unfoldable pub id_or_overflow : Kernel → Bytes → Option ℕ → Op ℕ
unfolding file_read_uint32
id_or_overflow kernel path (some id) = pure id
id_or_overflow kernel path none = file_read_uint32 kernel path

unfoldable pub copy_config : Kernel → NvcConfig → Op Config
unfolding id_or_overflow
copy_config kernel cfg = do
  uid ← id_or_overflow kernel (codes "/proc/sys/kernel/overflowuid") cfg.uid
  gid ← id_or_overflow kernel (codes "/proc/sys/kernel/overflowgid") cfg.gid
  pure (record {
    root = given_or (codes "/") cfg.root;
    ldcache = given_or (codes "/etc/ld.so.cache") cfg.ldcache;
    uid = uid;
    gid = gid;
  })

-- xopen of /proc/self/ns/mnt
abbrev pub ns_opened : ℕ ⊎ ℕ → Op ℕ
ns_opened (inl errno) = fail (set_errno errno (codes "open failed: /proc/self/ns/mnt"))
ns_opened (inr fd) = pure fd

abbrev pub first_adapter : Option (List DriverStore) → Op (Option DriverStore)
first_adapter none = pure none
first_adapter (some []) = fail (setx (codes "WSL environment detected but no adapters were found"))
first_adapter (some (a ∷ adapters)) = pure (some a)

-- The kernel modules are loaded where that is asked for, but not with dxcore.
unfoldable pub load_modules : Kernel → Services → ℕ → Option DriverStore → Op (Unit {0})
unfolding bit load_kernel_modules
load_modules kernel services flags none =
    when (bit opt_load_kmods flags) (load_kernel_modules kernel services)
load_modules kernel services flags (some a) = pure tt

-- What stands before `fail:`, behind the options.
unfoldable pub initialize : Kernel → Services → NvcConfig → ℕ → Op ContextState
unfolding copy_config load_modules
initialize kernel services cfg flags = do
  config ← copy_config kernel cfg
  fd ← ask (λ h. services.open_ns h) >>= ns_opened
  dxcore ← ask (λ h. services.dxcore_adapters h) >>= first_adapter
  load_modules kernel services flags dxcore
  ask (λ h. services.driver_init h config) >>= return
  ask (λ h. services.nvcgo_init h) >>= return
  pure (record { initialized = true; cfg = some config; mnt_ns = some fd; dxcore = dxcore })

abbrev pub none_given : NvcConfig
none_given = record { root = none; ldcache = none; uid = none; gid = none }

-- What the fields of a context that is not initialized hold is not read before nvc_init sets them.
abbrev pub uninitialized : ContextState
uninitialized = record { initialized = false; cfg = none; mnt_ns = none; dxcore = none }

-- The label `fail:`
abbrev pub settled : History × Ended ContextState → ContextState × Ended (Unit {0})
settled (h, done ctx) = (ctx, done tt)
settled (h, failed e) = (uninitialized, failed e)
settled (h, crashed) = (uninitialized, crashed)

unfoldable pub init_parsed :
    Kernel
    → Services
    → ContextState
    → NvcConfig
    → History
    → Result ℕ
    → ContextState × Ended (Unit {0})
unfolding initialize
init_parsed kernel services ctx cfg h (err e) = (ctx, failed e)
init_parsed kernel services ctx cfg h (ok flags) =
    settled (run (initialize kernel services cfg flags) h)

-- Behind the test whether the context is initialized
unfoldable pub init_context :
    Kernel → Services → ContextState → NvcConfig → Bytes → History → ContextState × Ended (Unit {0})
unfolding str_empty options_parse init_parsed
init_context kernel services ctx cfg opts h =
    if not (str_empty cfg.ldcache) && not (str_empty cfg.root)
    then init_parsed kernel services ctx cfg h (options_parse opts library_opts)
    else (ctx, failed (setx (codes "invalid argument")))

unfoldable pub nvc_init :
    Kernel
    → Services
    → ContextState
    → Option NvcConfig
    → Option Bytes
    → History
    → ContextState × Ended (Unit {0})
unfolding init_context
nvc_init kernel services ctx cfg opts h =
    if ctx.initialized
    then (ctx, done tt)
    else init_context kernel services ctx (given_or none_given cfg)
        (given_or default_library_opts opts) h

-- Both services are shut down, whatever the first one answers.
abbrev pub both : Result (Unit {0}) → Result (Unit {0}) → Ended (Unit {0})
both nvcgo (err e) = failed e
both (err e) (ok u) = failed e
both (ok v) (ok u) = done tt

unfoldable pub nvc_shutdown : Services → ContextState → ContextState × Ended (Unit {0})
nvc_shutdown services ctx = (
  if ctx.initialized then uninitialized else ctx,
  both services.nvcgo_shutdown services.driver_shutdown,
)
