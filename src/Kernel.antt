-- ===== src/Kernel.antt =====
-- The kernel, as src/utils.c and src/nvc_mount.c use it: calls that change something are logged with
-- what they answered, and every answer may depend on the calls before it.
pub mod Holds
pub mod Gives
use libxdxgpu_container.Base.{ℕ, Bool, List, [], ◌∷◌, ◌++◌, Option, none, some, ◌⊎◌, inl, inr}
use libxdxgpu_container.Libc.{Bytes}
use libxdxgpu_container.Error.{Result, ok, err, Failure, set_errno}
use libxdxgpu_container.Path.Resolve.{Files}
use libxdxgpu_container.Cgroup.Setup.{Appender}

-- The flags of mount(2) that a remount sets.
pub data MsFlag : Type 0 where
  ms_rdonly ms_nosuid ms_nodev ms_noexec : MsFlag

-- A mount namespace, by the path or the descriptor that setns is given.
pub data Namespace : Type 0 where
  at_path : Bytes → Namespace
  at_fd : ℕ → Namespace

-- CAP_INHERITABLE and CAP_AMBIENT, and the limits that a process sets.
pub data CapFlag : Type 0 where
  cap_inheritable cap_ambient : CapFlag

pub data Resource : Type 0 where
  rlimit_cpu rlimit_as rlimit_nofile rlimit_fsize : Resource

-- The calls by which the process of ldconfig confines itself. `make_private` is mount(2) of "/" with
-- MS_PRIVATE|MS_REC, `bind_all` of a path on itself with MS_BIND|MS_REC, `move_to_root` with MS_MOVE,
-- `mount_proc` of "proc" and `hide` of a tmpfs with MS_RDONLY, and `remount_dev` with MS_REMOUNT and
-- where the Boolean says so MS_RDONLY. `pivot_root`, `detach_here` and `chroot_here` are for ".". `exec`
-- is execve or, where the Boolean says so, fexecve.
pub data Confinement : Type 0 where
  unshare_mounts make_private : Confinement
  bind_all move_to_root hide : Bytes → Confinement
  enter_new_root enter_old_root pivot_root detach_here chroot_here mount_proc : Confinement
  remount_dev : Bool → Confinement
  cap_set_proc : CapFlag → List ℕ → Confinement
  cap_ambient_clear_all : Confinement
  cap_ambient_raise capbset_drop : ℕ → Confinement
  no_setuid_fixup no_new_privs : Confinement
  setgroups setregid setreuid : ℕ → Confinement
  setrlimit : Resource → ℕ → Confinement
  seccomp_load : List Bytes → Confinement
  exec : Bool → List Bytes → Confinement

-- The calls that change something. `bind` is mount(2) with MS_BIND, `remount` with
-- MS_BIND|MS_REMOUNT and flags, `mount_tmpfs` with the type "tmpfs" and "mode=0555"; `umount2` has
-- MNT_DETACH. `write_file` opens with O_NOFOLLOW|O_CREAT, and with a text also truncates and writes
-- it; `append_file` opens with "a" and writes a text.
pub data Act : Type 0 where
  bind : Bytes → Bytes → Act
  remount : Bytes → List MsFlag → Act
  mount_tmpfs : Bytes → Act
  umount2 : Bytes → Act
  setns : Namespace → Act
  mkdir : Bytes → ℕ → Act
  symlink : Bytes → Bytes → Act
  write_file : Bytes → Option Bytes → ℕ → Act
  append_file : Bytes → Bytes → Act
  rmdir unlink : Bytes → Act
  setfsuid setfsgid : ℕ → Act
  raise_dac_override : Act
  confine : Confinement → Act

-- A call and the errno where it failed.
abbrev pub Event : Type 0
Event = Act × Option ℕ

-- The calls so far, the last one first.
abbrev pub History : Type 0
History = List Event

-- `struct stat`: the mode with the type of the file, the device of a device node, and the size.
pub record Stat : Type 0 where
  pub mode : ℕ
  pub rdev : ℕ
  pub size : ℕ

-- What nftw reports of an entry, with FTW_PHYS|FTW_DEPTH.
pub data Visit : Type 0 where
  unreadable : Visit
  directory : Visit
  regular : ℕ → Visit
  link : Visit

-- The answers of the kernel and of the C library: to a call that changes something, none or errno;
-- errno or the value to a query. `read_text` is the text of a file, none where reading fails. `walk` is the order of nftw's visits, or errno. The masks and ids
-- of the process stay as they are, but for those of the file system.
pub record Kernel : Type 0 where
  pub answer : History → Act → Option ℕ
  pub files : History → Files
  pub stat : History → Bytes → ℕ ⊎ Stat
  pub lstat : History → Bytes → ℕ ⊎ Stat
  pub access : History → Bytes → Option ℕ
  pub open_read : History → Bytes → Option ℕ
  pub appender : History → Appender
  pub read_text : History → Bytes → ℕ ⊎ Option Bytes
  pub list_dir : History → Bytes → ℕ ⊎ List Bytes
  pub walk : History → Bytes → ℕ ⊎ List (Bytes × Visit)
  pub fsuid : History → ℕ
  pub fsgid : History → ℕ
  pub dac_override_permitted : ℕ ⊎ Bool
  pub umask : ℕ
  pub euid : ℕ
  pub egid : ℕ

-- How a function ends: with a value, with -1 or NULL and its error, or not at all, by a failed
-- assertion or by behaviour that C leaves undefined.
pub data Ended (A : Type 0) : Type 0 where
  done : A → Ended A
  failed : Failure → Ended A
  crashed : Ended A

pub data Op (A : Type 0) : Type 0 where
  op : (History → History × Ended A) → Op A

abbrev pub run : {A : Type 0} → Op A → History → History × Ended A
run (op m) = m

abbrev pub pure : {A : Type 0} → A → Op A
pure a = op (λ h. (h, done a))

abbrev pub fail : {A : Type 0} → Failure → Op A
fail e = op (λ h. (h, failed e))

abbrev pub crash : {A : Type 0} → Op A
crash = op (λ h. (h, crashed))

abbrev pub continue : {A B : Type 0} → (A → Op B) → History × Ended A → History × Ended B
continue f (h, done a) = run (f a) h
continue f (h, failed e) = (h, failed e)
continue f (h, crashed) = (h, crashed)

infixl 5 ◌>>=◌ ◌>>◌
abbrev pub ◌>>=◌ : {A B : Type 0} → Op A → (A → Op B) → Op B
m >>= f = op (λ h. continue f (run m h))

abbrev pub ◌>>◌ : {A B : Type 0} → Op A → Op B → Op B
m >> k = m >>= λ _. k

abbrev pub as_value : {A : Type 0} → History × Ended A → History × Ended (Result A)
as_value (h, done a) = (h, done (ok a))
as_value (h, failed e) = (h, done (err e))
as_value (h, crashed) = (h, crashed)

-- A call whose failure the caller looks at.
abbrev pub try : {A : Type 0} → Op A → Op (Result A)
try m = op (λ h. as_value (run m h))

abbrev pub return : {A : Type 0} → Result A → Op A
return (ok a) = pure a
return (err e) = fail e

-- A query.
abbrev pub ask : {A : Type 0} → (History → A) → Op A
ask f = op (λ h. (h, done (f h)))

abbrev pub settle : {A : Type 0} → Op (Unit {0}) → Result A → Op A
settle clean (ok a) = pure a
settle clean (err e) = clean >> fail e

-- `goto fail`, with what stands at the label before the return.
abbrev pub or_else : {A : Type 0} → Op A → Op (Unit {0}) → Op A
or_else m clean = try m >>= settle clean

abbrev pub answered : Option ℕ → Ended (Unit {0})
answered none = done tt
answered (some errno) = failed (set_errno errno [])

-- A call of the kernel. Where it fails there is only errno: `error_set` adds the text.
unfoldable pub perform : Kernel → Act → Op (Unit {0})
perform kernel act = op (λ h. let r = kernel.answer h act in ((act, r) ∷ h, answered r))

abbrev pub with_text : Bytes → Failure → Failure
with_text text (set_errno errno _) = set_errno errno text
with_text text e = e

abbrev pub relabel : {A : Type 0} → Bytes → Result A → Op A
relabel text (ok a) = pure a
relabel text (err e) = fail (with_text text e)

-- `if (call < 0) { error_set(err, text); return (-1); }`
abbrev pub error_set : {A : Type 0} → Bytes → Op A → Op A
error_set text m = try m >>= relabel text

-- A call that succeeded, logged.
unfoldable pub log_done : Act → Op (Unit {0})
log_done act = op (λ h. ((act, none) ∷ h, done tt))

abbrev pub or_errno : {A : Type 0} → ℕ ⊎ A → Op A
or_errno (inl errno) = fail (set_errno errno [])
or_errno (inr a) = pure a
