-- ===== src/Update/Executed.antt =====
-- src/nvc_ldcache.c: the limits of the new process, and the program that it runs.
use libxdxgpu_container.Base.{◌*◌, Bool, ◌&&◌, List, inl, inr, Bool-cases}
use libxdxgpu_container.Libc.{Bytes, codes}
use libxdxgpu_container.Container.{NvcContainer}
use libxdxgpu_container.Kernel.{
  History, Kernel, confine, setns, at_path, no_new_privs, rlimit_cpu, rlimit_as, rlimit_nofile,
  rlimit_fsize, setrlimit, seccomp_load, exec, Ended, done, failed, crashed, run, continue,
  as_value,
}
use libxdxgpu_container.Process.{Process, call}
use libxdxgpu_container.Mount.{NvcContext, ns_enter}
use libxdxgpu_container.Update.{
  change_rootfs, adjust_capabilities, adjust_privileges, limit_resources, all_added, or_setx,
  limit_syscalls, child,
}
use libxdxgpu_container.Update.Syscalls.{allowed_syscalls}
use libxdxgpu_container.Update.Kept.{Holds-opened}
use libxdxgpu_container.Update.Confined.{
  Log, anywhere, behind, Both, Both-later, After, Reaches, Reaches-Holds, Reaches-bind,
  Reaches-error_set, Reaches-call, Reaches-perform, Reaches-exec,
}
use libxdxgpu_container.Update.Bounds.{Reaches-adjust_capabilities}
use libxdxgpu_container.Update.Identity.{Reaches-adjust_privileges}
use libxdxgpu_container.Update.Rootfs.{Reaches-change_rootfs}
use libxdxgpu_container.Update.Steps.{entered, bounded, hidden, limits, owned, steps, step, next}

module _ (kernel : Kernel) (no_pivot : Bool) (process : Process) (cnt : NvcContainer) where
  abbrev needed : Bool → Log
  needed = steps no_pivot process cnt

  Reaches-limit_resources :
      (host : Bool)
      → Reaches needed
          (hidden no_pivot process cnt host)
          (limits no_pivot process cnt host)
          (limit_resources kernel)
  unfolding limit_resources
  Reaches-limit_resources host =
      next kernel no_pivot process cnt _ _ _ _ _
        (next kernel no_pivot process cnt _ _ _ _ _
          (next kernel no_pivot process cnt _ _ _ _ _
            (step kernel no_pivot process cnt _ _ (setrlimit rlimit_cpu 10) (λ host argv e. cc))
            (step kernel no_pivot process cnt _ _ (setrlimit rlimit_as (2 * 1024 * 1024 * 1024))
              (λ host argv e. cc)))
          (step kernel no_pivot process cnt _ _ (setrlimit rlimit_nofile 64) (λ host argv e. cc)))
        (step kernel no_pivot process cnt _ _ (setrlimit rlimit_fsize (1024 * 1024))
          (λ host argv e. cc))

  After-or_setx :
      (ds : Log) (text : Bytes) (x : History × Ended (Unit {0}))
      → After needed ds x
      → After needed ds (continue (or_setx text) (as_value x))
  After-or_setx ds text (h, done u) i = i
  After-or_setx ds text (h, failed e) i = i
  After-or_setx ds text (h, crashed) i = i

  Reaches-limit_syscalls :
      (cs : Log)
      → Reaches needed cs
          (behind (confine (seccomp_load allowed_syscalls)) cs)
          (limit_syscalls kernel process)
  unfolding limit_syscalls
  Reaches-limit_syscalls cs =
      elim (Bool-cases (process.filter_made && all_added process.rule_added allowed_syscalls)) [
        | inr e ↦ rw e (record { runs = λ h i. i.0 })
        | inl e ↦ rw e (record {
          runs = λ h i.
              After-or_setx (behind (confine (seccomp_load allowed_syscalls)) cs) _
                (run (call kernel (seccomp_load allowed_syscalls)) h)
                ((Reaches-call needed kernel cs (seccomp_load allowed_syscalls)
                    (λ host argv e. cc)).runs
                  h i);
        })
      ]

-- From a log in which every program was executed behind the steps it needs, the new process of
-- nvc_ldcache_update keeps it so: the program is executed only when, in this order, the mount
-- namespace of the container was entered; each capability up to CAP_LAST_CAP was seen to be out of
-- the bounding set or was dropped from it; the mount namespace was left and made private, and the
-- root of the container was mounted on itself; that root was moved to "/", or pivot_root put it
-- there and the old root was detached; chroot was called; /proc was mounted or hidden, /sys and
-- /dev were hidden, and /dev was made read-only again; the four limits were set; each effective id
-- was seen to be that of the container; no new privileges were allowed; and the filter of the
-- system calls was loaded. Where the process succeeds, the program was executed behind these steps.
pub child-Reaches :
    (kernel : Kernel) (process : Process) (ctx : NvcContext) (cnt : NvcContainer)
    (argv : List Bytes) (host : Bool)
    → Reaches
        (steps ctx.no_pivot process cnt)
        anywhere
        (behind (confine (exec host argv)) (steps ctx.no_pivot process cnt host))
        (child kernel process ctx cnt (argv, host))
unfolding child ns_enter
child-Reaches kernel process ctx cnt argv host =
    let N : Bool → Log = steps ctx.no_pivot process cnt in
    let lim : Log = limits ctx.no_pivot process cnt host in
    let own : Log = behind (confine no_new_privs) (owned process cnt.uid cnt.gid lim) in
    Reaches-bind N anywhere (entered cnt) _ (ns_enter kernel cnt.mnt_ns) _
      (next kernel ctx.no_pivot process cnt anywhere anywhere (entered cnt) _ _
        (Reaches-Holds N anywhere _
          (Holds-opened (Both N anywhere) (Both-later N anywhere) kernel cnt.mnt_ns))
        (Reaches-error_set N anywhere (entered cnt) _ _
          (Reaches-perform N kernel anywhere (setns (at_path cnt.mnt_ns)) (λ host argv e. cc))))
      (λ u.
        Reaches-bind N (entered cnt) (bounded process cnt) _
          (adjust_capabilities kernel process cnt.uid host) _
          (Reaches-adjust_capabilities kernel ctx.no_pivot process cnt host)
          (λ u.
            Reaches-bind N (bounded process cnt) (hidden ctx.no_pivot process cnt host) _
              (change_rootfs kernel cnt.rootfs ctx.no_pivot host cnt.uid cnt.gid) _
              (Reaches-change_rootfs kernel ctx.no_pivot process cnt host cnt.uid cnt.gid)
              (λ drop.
                Reaches-bind N _ lim _ (limit_resources kernel) _
                  (Reaches-limit_resources kernel ctx.no_pivot process cnt host)
                  (λ u.
                    Reaches-bind N lim own _ (adjust_privileges kernel process cnt.uid cnt.gid drop)
                      _
                      (Reaches-adjust_privileges kernel ctx.no_pivot process cnt lim cnt.uid cnt.gid
                        drop)
                      (λ u.
                        Reaches-bind N own (N host) _ (limit_syscalls kernel process) _
                          (Reaches-limit_syscalls kernel ctx.no_pivot process cnt own)
                          (λ u.
                            Reaches-error_set N _ _ (codes "process execution failed")
                              (call kernel (exec host argv)) (Reaches-exec N kernel host argv)))))))
