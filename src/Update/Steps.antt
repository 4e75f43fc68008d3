-- ===== src/Update/Steps.antt =====
-- src/nvc_ldcache.c: the steps of the new process, in their order.
use libxdxgpu_container.Base.{ℕ, zero, suc, ◌*◌, ◌==◌, ◌≢◌, Bool, true, false, not, List}
use libxdxgpu_container.Libc.{Bytes, codes}
use libxdxgpu_container.Container.{NvcContainer}
use libxdxgpu_container.Kernel.{
  Kernel, Confinement, confine, setns, at_path, capbset_drop, unshare_mounts, make_private,
  bind_all, move_to_root, enter_new_root, enter_old_root, pivot_root, detach_here, hide,
  chroot_here, mount_proc, remount_dev, no_new_privs, rlimit_cpu, rlimit_as, rlimit_nofile,
  rlimit_fsize, setrlimit, seccomp_load, exec, Op, ◌>>◌, error_set,
}
use libxdxgpu_container.Kernel.Holds.{Holds, Holds-error_set}
use libxdxgpu_container.Process.{Process, call}
use libxdxgpu_container.Update.Syscalls.{allowed_syscalls}
use libxdxgpu_container.Update.Kept.{Holds-call}
use libxdxgpu_container.Update.Confined.{
  Log, anywhere, behind, behind_or_seen, seen_both, Both, Both-later, Reaches, Reaches-bind,
  Reaches-error_set, Reaches-call,
}

-- The mount namespace of the container was entered.
abbrev pub entered : NvcContainer → Log
entered cnt = behind (setns (at_path cnt.mnt_ns)) anywhere

-- Each capability below `n` was seen to be out of the bounding set, or was dropped from it.
unfoldable pub unbounded : Process → ℕ → Log → Log
unbounded process zero log = log
unbounded process (suc c) log =
    behind_or_seen (confine (capbset_drop c)) (λ h. not (process.is_bounding h c))
      (unbounded process c log)

-- None of the capabilities up to CAP_LAST_CAP, 40, is left in the bounding set.
abbrev pub bounded : Process → NvcContainer → Log
bounded process cnt = unbounded process 41 (entered cnt)

-- The mounts of the process are its own, and the root of the container is mounted on itself.
abbrev pub own_mounts : Process → NvcContainer → Log
own_mounts process cnt =
    behind (confine (bind_all cnt.rootfs))
      (behind (confine make_private) (behind (confine unshare_mounts) (bounded process cnt)))

-- The root of the container is made the root: it is moved there, or pivot_root puts it there and
-- the old root is detached.
abbrev pub moved : Bool → Process → NvcContainer → Log
moved true process cnt =
    behind (confine enter_new_root)
      (behind (confine (move_to_root cnt.rootfs)) (own_mounts process cnt))
moved false process cnt = behind (confine enter_new_root) (
    behind (confine detach_here) (
      behind (confine enter_old_root)
        (behind (confine pivot_root) (behind (confine enter_new_root) (own_mounts process cnt)))))

abbrev pub rooted : Bool → Process → NvcContainer → Log
rooted no_pivot process cnt = behind (confine chroot_here) (moved no_pivot process cnt)

-- /proc is mounted for the program of the host, and hidden from that of the container.
abbrev pub proc_step : Bool → Confinement
proc_step true = mount_proc
proc_step false = hide (codes "/proc")

abbrev pub hidden : Bool → Process → NvcContainer → Bool → Log
hidden no_pivot process cnt host = behind (confine (remount_dev true)) (
    behind (confine (hide (codes "/dev"))) (
      behind (confine (hide (codes "/sys")))
        (behind (confine (proc_step host)) (rooted no_pivot process cnt))))

abbrev pub limits : Bool → Process → NvcContainer → Bool → Log
limits no_pivot process cnt host = behind (confine (setrlimit rlimit_fsize (1024 * 1024))) (
    behind (confine (setrlimit rlimit_nofile 64)) (
      behind (confine (setrlimit rlimit_as (2 * 1024 * 1024 * 1024)))
        (behind (confine (setrlimit rlimit_cpu 10)) (hidden no_pivot process cnt host))))

-- The effective ids were seen to be those of the container.
abbrev pub owned : Process → ℕ → ℕ → Log → Log
owned process uid gid log = seen_both (λ h. process.egid h == gid) (λ h. process.euid h == uid) log

-- All the steps, the last one first.
abbrev pub steps : Bool → Process → NvcContainer → Bool → Log
steps no_pivot process cnt host = behind (confine (seccomp_load allowed_syscalls)) (
    behind (confine no_new_privs)
      (owned process cnt.uid cnt.gid (limits no_pivot process cnt host)))

module _ (kernel : Kernel) (no_pivot : Bool) (process : Process) (cnt : NvcContainer) where
  abbrev pub needed : Bool → Log
  needed = steps no_pivot process cnt

  -- A step with its message, and what keeps the steps so far.
  pub step :
      (cs : Log) (text : Bytes) (c : Confinement)
      → ((host : Bool) (argv : List Bytes) → confine c ≢ confine (exec host argv))
      → Reaches needed cs (behind (confine c) cs) (error_set text (call kernel c))
  step cs text c n =
      Reaches-error_set needed cs (behind (confine c) cs) text (call kernel c)
        (Reaches-call needed kernel cs c n)

  pub next :
      {A B : Type 0} (cs ds es : Log) (m : Op A) (k : Op B)
      → Reaches needed cs ds m
      → Reaches needed ds es k
      → Reaches needed cs es (m >> k)
  next cs ds es m k l n = Reaches-bind needed cs ds es m (λ _. k) l (λ _. n)

  pub kept :
      (cs : Log) (c : Confinement)
      → ((host : Bool) (argv : List Bytes) → confine c ≢ confine (exec host argv))
      → (text : Bytes) → Holds (Both needed cs) (error_set text (call kernel c))
  kept cs c n text =
      Holds-error_set _ text _ (Holds-call (Both needed cs) (Both-later needed cs) kernel c n)
