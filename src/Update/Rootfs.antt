-- ===== src/Update/Rootfs.antt =====
-- src/nvc_ldcache.c: `change_rootfs`.
use libxdxgpu_container.Base.{ℕ, Bool, true, false}
use libxdxgpu_container.Libc.{Bytes, codes}
use libxdxgpu_container.Kernel.{
  Kernel, confine, unshare_mounts, make_private, bind_all, move_to_root, hide, enter_new_root,
  enter_old_root, pivot_root, detach_here, chroot_here, mount_proc, remount_dev,
}
use libxdxgpu_container.Kernel.Holds.{Holds-pure, Holds-then}
use libxdxgpu_container.Container.{NvcContainer}
use libxdxgpu_container.File.{when}
use libxdxgpu_container.Process.{Process}
use libxdxgpu_container.Update.{
  mounted, open_dir, enter_root, may_set_groups, hide_or_mount_proc, hide_mounts, link_fds,
  change_rootfs,
}
use libxdxgpu_container.Update.Kept.{Holds-open_dir, Holds-may_set_groups, Holds-link}
use libxdxgpu_container.Update.Confined.{
  Log, behind, Both, Both-later, Reaches, Reaches-Holds, Reaches-bind,
}
use libxdxgpu_container.Update.Steps.{
  bounded, own_mounts, moved, rooted, proc_step, hidden, steps, step, next, kept,
}

module _ (kernel : Kernel) (no_pivot : Bool) (process : Process) (cnt : NvcContainer) where
  abbrev needed : Bool → Log
  needed = steps no_pivot process cnt

  opens : (cs : Log) (path : Bytes) → Reaches needed cs cs (open_dir kernel path)
  opens cs path =
      Reaches-Holds needed cs _ (Holds-open_dir (Both needed cs) (Both-later needed cs) kernel path)

  Reaches-enter_root :
      (pivot : Bool)
      → Reaches needed
          (own_mounts process cnt)
          (moved pivot process cnt)
          (enter_root kernel cnt.rootfs pivot)
  unfolding enter_root
  Reaches-enter_root true =
      next kernel no_pivot process cnt _ _ _ _ _
        (next kernel no_pivot process cnt _ _ _ _ _
          (step kernel no_pivot process cnt _ _ (move_to_root cnt.rootfs) (λ host argv e. cc))
          (opens _ cnt.rootfs))
        (step kernel no_pivot process cnt _ _ enter_new_root (λ host argv e. cc))
  Reaches-enter_root false =
      next kernel no_pivot process cnt _ _ _ _ _
        (next kernel no_pivot process cnt _ _ _ _ _
          (next kernel no_pivot process cnt _ _ _ _ _
            (next kernel no_pivot process cnt _ _ _ _ _
              (next kernel no_pivot process cnt _ _ _ _ _
                (next kernel no_pivot process cnt _ _ _ _ _ (opens _ (codes "/"))
                  (opens _ cnt.rootfs))
                (step kernel no_pivot process cnt _ _ enter_new_root (λ host argv e. cc)))
              (step kernel no_pivot process cnt _ _ pivot_root (λ host argv e. cc)))
            (step kernel no_pivot process cnt _ _ enter_old_root (λ host argv e. cc)))
          (step kernel no_pivot process cnt _ _ detach_here (λ host argv e. cc)))
        (step kernel no_pivot process cnt _ _ enter_new_root (λ host argv e. cc))

  -- The mount of /proc comes before the groups are looked at, and hiding it behind.
  abbrev behind_proc : Bool → Log
  behind_proc true = behind (confine mount_proc) (rooted no_pivot process cnt)
  behind_proc false = rooted no_pivot process cnt

  Reaches-proc :
      (host : Bool)
      → Reaches needed
          (rooted no_pivot process cnt)
          (behind_proc host)
          (when host (mounted kernel (codes "/proc") mount_proc))
  Reaches-proc true = step kernel no_pivot process cnt _ _ mount_proc (λ host argv e. cc)
  Reaches-proc false = Reaches-Holds needed _ _ (Holds-pure _ tt)

  Reaches-hide_proc :
      (host : Bool)
      → Reaches needed
          (behind_proc host)
          (behind (confine (proc_step host)) (rooted no_pivot process cnt))
          (hide_or_mount_proc kernel host)
  unfolding hide_or_mount_proc
  Reaches-hide_proc true = Reaches-Holds needed _ _ (Holds-pure _ tt)
  Reaches-hide_proc false =
      step kernel no_pivot process cnt _ _ (hide (codes "/proc")) (λ host argv e. cc)

  Reaches-hide_mounts :
      (host : Bool)
      → Reaches needed
          (behind_proc host)
          (behind (confine (hide (codes "/dev"))) (
            behind
              (confine (hide (codes "/sys")))
              (behind (confine (proc_step host)) (rooted no_pivot process cnt))))
          (hide_mounts kernel host)
  unfolding hide_mounts
  Reaches-hide_mounts host =
      next kernel no_pivot process cnt _ _ _ _ _
        (next kernel no_pivot process cnt _ _ _ _ _ (Reaches-hide_proc host)
          (step kernel no_pivot process cnt _ _ (hide (codes "/sys")) (λ host argv e. cc)))
        (step kernel no_pivot process cnt _ _ (hide (codes "/dev")) (λ host argv e. cc))

  Reaches-link_fds :
      (cs : Log) (uid gid : ℕ)
      → Reaches needed cs (behind (confine (remount_dev true)) cs) (link_fds kernel uid gid)
  unfolding link_fds
  Reaches-link_fds cs uid gid =
      next kernel no_pivot process cnt cs cs _ _ _
        (Reaches-Holds needed cs _ (
          Holds-then _ _ _
            (kept kernel no_pivot process cnt cs (remount_dev false) (λ host argv e. cc) _)
            (Holds-link (Both needed cs) (Both-later needed cs) kernel (codes "/dev/fd")
              (codes "/proc/self/fd") uid gid)))
        (step kernel no_pivot process cnt cs _ (remount_dev true) (λ host argv e. cc))

  pub Reaches-change_rootfs :
      (host : Bool) (uid gid : ℕ)
      → Reaches needed
          (bounded process cnt)
          (hidden no_pivot process cnt host)
          (change_rootfs kernel cnt.rootfs no_pivot host uid gid)
  unfolding change_rootfs
  Reaches-change_rootfs host uid gid =
      next kernel no_pivot process cnt _ _ _ _ _
        (step kernel no_pivot process cnt _ _ unshare_mounts (λ host argv e. cc))
        (next kernel no_pivot process cnt _ _ _ _ _
          (step kernel no_pivot process cnt _ _ make_private (λ host argv e. cc))
          (next kernel no_pivot process cnt _ _ _ _ _
            (step kernel no_pivot process cnt _ _ (bind_all cnt.rootfs) (λ host argv e. cc))
            (next kernel no_pivot process cnt _ _ _ _ _ (Reaches-enter_root no_pivot) (
              next kernel no_pivot process cnt _ _ _ _ _
                (step kernel no_pivot process cnt _ _ chroot_here (λ host argv e. cc))
                (next kernel no_pivot process cnt _ _ _ _ _ (Reaches-proc host) (
                  Reaches-bind needed _ _ _ (may_set_groups kernel) _
                    (Reaches-Holds needed _ _ (
                      Holds-may_set_groups (Both needed (behind_proc host))
                        (Both-later needed (behind_proc host)) kernel))
                    (λ drop. next kernel no_pivot process cnt _ _ _ _ _ (Reaches-hide_mounts host) (
                      next kernel no_pivot process cnt _ _ _ _ _ (Reaches-link_fds _ uid gid)
                        (Reaches-Holds needed _ _ (Holds-pure _ drop))))))))))
