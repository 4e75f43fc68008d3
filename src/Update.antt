-- ===== src/Update.antt =====
-- src/nvc_ldcache.c: ldconfig is run in the container, in a process that confines itself first.
pub mod Syscalls
pub mod Confined
pub mod Kept
pub mod Steps
pub mod Bounds
pub mod Rootfs
pub mod Identity
pub mod Executed
pub mod Outcome
use libxdxgpu_container.Base.{
  ℕ, ◌+◌, ◌*◌, ◌^◌, Bool, true, false, not, ◌&&◌, ◌||◌, List, [], ◌∷◌, ◌++◌, Option, none, some,
  ◌==◌, if◌then◌else◌,
}
use libxdxgpu_container.Libc.{Bytes, codes}
use libxdxgpu_container.Error.{Result, ok, err, Failure, setx, set_errno}
use libxdxgpu_container.Utils.Ids.{enoent}
use libxdxgpu_container.Utils.Str.{str_equal, str_case_equal, str_has_prefix}
use libxdxgpu_container.Container.{NvcContainer}
use libxdxgpu_container.Kernel.{
  Confinement, confine, CapFlag, cap_inheritable, cap_ambient, unshare_mounts, make_private,
  bind_all, move_to_root, hide, enter_new_root, enter_old_root, pivot_root, detach_here,
  chroot_here, mount_proc, remount_dev, no_setuid_fixup, Resource, rlimit_cpu, rlimit_as,
  rlimit_nofile, rlimit_fsize, setrlimit, seccomp_load, exec, History, Kernel, Ended, done, failed,
  crashed, Op, run, pure, fail, crash, ◌>>=◌, ◌>>◌, try, return, ask, perform, error_set,
}
use libxdxgpu_container.File.{eperm, has_errno, unless_errno, ignoring, when, file_create, mode_lnk}
use libxdxgpu_container.Process.{
  Process, Status, exited, signalled, call, file_read_line, perm_set_capabilities, perm_set_bounds,
  perm_drop_privileges,
}
use libxdxgpu_container.Mount.{NvcContext, ns_enter, readable, validate}
use libxdxgpu_container.Update.Syscalls.{allowed_syscalls}

abbrev pub is_no : Option Bytes → Bool
unfolding str_equal str_case_equal
is_no none = true
is_no (some s) =
    str_equal s (codes "0") || str_case_equal s (codes "false") || str_case_equal s (codes "no")

unfoldable pub secure_mode : Process → Bool
unfolding is_no
secure_mode process = is_no process.insecure_mode

-- A call of the kernel that fails without a text, which `fail:` adds.
abbrev pub confined : Kernel → Confinement → Op (Unit {0})
confined kernel c = error_set (codes "process confinement failed") (call kernel c)

-- xmount, of a source that is no path or of the path itself
abbrev pub mounted : Kernel → Bytes → Confinement → Op (Unit {0})
mounted kernel path c = error_set (codes "mount operation failed: " ++ path) (call kernel c)

-- xopen
unfoldable pub open_dir : Kernel → Bytes → Op (Unit {0})
open_dir kernel path = ask (λ h. kernel.open_read h path) >>= readable path

-- The two ways to make `rootfs` the root.
unfoldable pub enter_root : Kernel → Bytes → Bool → Op (Unit {0})
unfolding confined mounted open_dir
enter_root kernel rootfs true =
    mounted kernel rootfs (move_to_root rootfs)
    >> open_dir kernel rootfs
    >> confined kernel enter_new_root
enter_root kernel rootfs false =
    open_dir kernel (codes "/")
    >> open_dir kernel rootfs
    >> confined kernel enter_new_root
    >> confined kernel pivot_root
    >> confined kernel enter_old_root
    >> confined kernel detach_here
    >> confined kernel enter_new_root

abbrev pub setgroups_path : Bytes
setgroups_path = codes "/proc/self/setgroups"

abbrev pub line_or_empty : Result Bytes → Bytes
line_or_empty (ok line) = line
line_or_empty (err e) = []

-- Whether the groups are to be dropped; a file that cannot be read counts as empty.
unfoldable pub may_set_groups : Kernel → Op Bool
unfolding file_read_line str_has_prefix
may_set_groups kernel = do
  r ← try (file_read_line kernel setgroups_path 8)
  pure (not (str_has_prefix (line_or_empty r) (codes "deny")))

-- /proc is hidden too, unless it is mounted for fexecve.
unfoldable pub hide_or_mount_proc : Kernel → Bool → Op (Unit {0})
unfolding mounted
hide_or_mount_proc kernel true = pure tt
hide_or_mount_proc kernel false = mounted kernel (codes "/proc") (hide (codes "/proc"))

unfoldable pub hide_mounts : Kernel → Bool → Op (Unit {0})
unfolding mounted hide_or_mount_proc
hide_mounts kernel proc =
    hide_or_mount_proc kernel proc
    >> mounted kernel (codes "/sys") (hide (codes "/sys"))
    >> mounted kernel (codes "/dev") (hide (codes "/dev"))

unfoldable pub link_fds : Kernel → ℕ → ℕ → Op (Unit {0})
unfolding mounted file_create
link_fds kernel uid gid =
    mounted kernel (codes "/dev") (remount_dev false)
    >> file_create kernel (codes "/dev/fd") (some (codes "/proc/self/fd")) uid gid (mode_lnk 511)
    >> mounted kernel (codes "/dev") (remount_dev true)

-- `change_rootfs`, which gives whether the groups are to be dropped.
unfoldable pub change_rootfs : Kernel → Bytes → Bool → Bool → ℕ → ℕ → Op Bool
unfolding confined mounted enter_root may_set_groups hide_mounts link_fds
change_rootfs kernel rootfs no_pivot proc uid gid = do
  confined kernel unshare_mounts
  mounted kernel (codes "/") make_private
  mounted kernel rootfs (bind_all rootfs)
  enter_root kernel rootfs no_pivot
  confined kernel chroot_here
  when proc (mounted kernel (codes "/proc") mount_proc)
  drop ← may_set_groups kernel
  hide_mounts kernel proc
  link_fds kernel uid gid
  pure drop

-- CAP_DAC_OVERRIDE
abbrev pub cap_dac_override : ℕ
cap_dac_override = 1

-- What follows the attempt to set the inheritable set.
unfoldable pub inherited : Kernel → Process → ℕ → Result (Unit {0}) → Op (Unit {0})
unfolding perm_set_capabilities
inherited kernel process uid (err e) =
    if has_errno eperm e then perm_set_capabilities kernel process cap_inheritable [] else fail e
inherited kernel process uid (ok u) =
    when (not (uid == 0))
      (ignoring eperm (perm_set_capabilities kernel process cap_ambient (cap_dac_override ∷ [])))

unfoldable pub keep_caps : Kernel → Process → ℕ → Bool → Op (Unit {0})
unfolding perm_set_capabilities inherited
keep_caps kernel process uid true = perm_set_capabilities kernel process cap_inheritable []
keep_caps kernel process uid false =
    try (perm_set_capabilities kernel process cap_inheritable (cap_dac_override ∷ []))
    >>= inherited kernel process uid

unfoldable pub adjust_capabilities : Kernel → Process → ℕ → Bool → Op (Unit {0})
unfolding keep_caps secure_mode perm_set_bounds
adjust_capabilities kernel process uid host_ldconfig =
    keep_caps kernel process uid (secure_mode process && not host_ldconfig)
    >> perm_set_bounds kernel process

unfoldable pub adjust_privileges : Kernel → Process → ℕ → ℕ → Bool → Op (Unit {0})
unfolding perm_drop_privileges
adjust_privileges kernel process uid gid drop =
    when (not (uid == 0))
      (ignoring eperm (error_set (codes "privilege change failed") (call kernel no_setuid_fixup)))
    >> perm_drop_privileges kernel process uid gid drop

abbrev pub limited : Kernel → Resource → ℕ → Op (Unit {0})
limited kernel resource limit =
    error_set (codes "resource limiting failed") (call kernel (setrlimit resource limit))

unfoldable pub limit_resources : Kernel → Op (Unit {0})
unfolding limited
limit_resources kernel =
    limited kernel rlimit_cpu 10
    >> limited kernel rlimit_as (2 * 1024 * 1024 * 1024)
    >> limited kernel rlimit_nofile 64
    >> limited kernel rlimit_fsize (1024 * 1024)

abbrev pub all_added : (Bytes → Bool) → List Bytes → Bool
all_added f [] = true
all_added f (s ∷ syscalls) = f s && all_added f syscalls

abbrev pub or_setx : Bytes → Result (Unit {0}) → Op (Unit {0})
or_setx text (ok u) = pure tt
or_setx text (err e) = fail (setx text)

-- `limit_syscalls`, with seccomp
unfoldable pub limit_syscalls : Kernel → Process → Op (Unit {0})
unfolding or_setx
limit_syscalls kernel process =
    if process.filter_made && all_added process.rule_added allowed_syscalls
    then (try (call kernel (seccomp_load allowed_syscalls))
        >>= or_setx (codes "syscall limiting failed"))
    else fail (setx (codes "syscall limiting failed"))

-- The command line, and whether its program is the host's.
unfoldable pub command : NvcContainer → List Bytes × Bool
command cnt =
    let args : List Bytes =
      codes "-f"
      ∷ codes "/etc/ld.so.conf"
      ∷ codes "-C"
      ∷ codes "/etc/ld.so.cache"
      ∷ cnt.cfg.libs_dir
      ∷ cnt.cfg.libs32_dir
      ∷ [] in
    elim cnt.cfg.ldconfig [
      | [] ↦ ([] ∷ args, false)
      | c ∷ path ↦ if c == b'@' then (path ∷ args, true) else ((c ∷ path) ∷ args, false)
    ]

-- What the new process does; where it succeeds, the program runs.
unfoldable pub child :
    Kernel → Process → NvcContext → NvcContainer → List Bytes × Bool → Op (Unit {0})
unfolding ns_enter adjust_capabilities change_rootfs limit_resources adjust_privileges
    limit_syscalls
child kernel process ctx cnt (argv, host_ldconfig) = do
  ns_enter kernel cnt.mnt_ns
  adjust_capabilities kernel process cnt.uid host_ldconfig
  drop ← change_rootfs kernel cnt.rootfs ctx.no_pivot host_ldconfig cnt.uid cnt.gid
  limit_resources kernel
  adjust_privileges kernel process cnt.uid cnt.gid drop
  limit_syscalls kernel process
  error_set (codes "process execution failed") (call kernel (exec host_ldconfig argv))

-- The status of the new process: a failed assertion aborts it, and an error is its exit code.
abbrev pub exit_code : Failure → ℕ
exit_code e = if has_errno enoent e then 0 else 1

abbrev pub sigabrt : ℕ
sigabrt = 6

abbrev pub ends_as : Process → History × Ended (Unit {0}) → Status
ends_as process (h, done u) = process.status h
ends_as process (h, failed e) = exited (exit_code e)
ends_as process (h, crashed) = signalled sigabrt

-- What the parent makes of it.
abbrev pub reported : Status → Op (Unit {0})
reported (exited n) =
    if n == 0 then pure tt else fail (setx (codes "process failed with error code"))
reported (signalled n) = fail (setx (codes "process terminated with signal"))

-- The program of the host is opened before.
unfoldable pub open_ldconfig : Kernel → List Bytes × Bool → Op (Unit {0})
open_ldconfig kernel (path ∷ args, true) = ask (λ h. kernel.open_read h path) >>= readable path
open_ldconfig kernel (argv, host_ldconfig) = pure tt

abbrev pub unless_errno_of : Bytes → Option ℕ → Op (Unit {0})
unless_errno_of text none = pure tt
unless_errno_of text (some errno) = fail (set_errno errno text)

-- The calls of the new process are its own, and do not change the parent.
unfoldable pub spawn_and_wait :
    Kernel → Process → NvcContext → NvcContainer → List Bytes × Bool → Op (Unit {0})
unfolding child reported ends_as
spawn_and_wait kernel process ctx cnt argv = do
  r ← ask (λ h. process.clone h)
  unless_errno_of (codes "process creation failed") r
  status ← ask (λ h. ends_as process (run (child kernel process ctx cnt argv) h))
  w ← ask (λ h. process.wait h)
  unless_errno_of (codes "process reaping failed") w
  reported status

unfoldable pub nvc_ldcache_update : Kernel → Process → NvcContext → NvcContainer → Op (Unit {0})
unfolding command open_ldconfig spawn_and_wait
nvc_ldcache_update kernel process ctx cnt =
    validate ctx
    >> open_ldconfig kernel (command cnt)
    >> spawn_and_wait kernel process ctx cnt (command cnt)
