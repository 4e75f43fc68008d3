-- ===== src/Mount/Undone/Whole.antt =====
-- src/nvc_mount.c: what nvc_driver_mount leaves mounted.
use libxdxgpu_container.Base.{
  ℕ, ◌+◌, ◌≤◌, ◌≡◌, refl, List, ◌∷◌, none, some, arith, ◌⊎◌, inl, inr, Bool, true, false,
  if◌then◌else◌, Option-cases,
}
use libxdxgpu_container.Libc.{Bytes, codes}
use libxdxgpu_container.Error.{ok, err, Failure, setx}
use libxdxgpu_container.Container.{NvcContainer}
use libxdxgpu_container.Kernel.{
  setns, at_path, at_fd, History, Kernel, Ended, done, failed, crashed, Op, run, pure, fail,
  continue, ◌>>=◌, ◌>>◌, as_value, try, perform,
}
use libxdxgpu_container.Mount.{NvcContext, ns_enter, ns_enter_at, leave, inside}
use libxdxgpu_container.Mount.Driver.{NvcDriverInfo, driver_mounts, nvc_driver_mount}
use libxdxgpu_container.Mount.View.{mounts_at, loose_at, count_path}
use libxdxgpu_container.Mount.Undone.Rules.{Owns}
use libxdxgpu_container.Mount.Undone.Single.{IsDetaching}
use libxdxgpu_container.Mount.Undone.All.{Own-driver_mounts}

-- At every path that is not empty: where the body of nvc_driver_mount succeeds, the path is mounted
-- on as often more as it stands in the list of the mounts, and where the body fails, it is mounted on
-- no more often than before, but for one mount for each remount of it that failed. This holds if
-- umount2 takes a mount off every path that is mounted on.
pub driver_mounts-Owns :
    (kernel : Kernel) (ctx : NvcContext) (cnt : NvcContainer) (info : NvcDriverInfo) (x : ℕ)
    (q : Bytes)
    → IsDetaching kernel
    → (h : History)
    → Owns (x ∷ q) 0 (count_path (x ∷ q)) h (run (driver_mounts kernel ctx cnt info) h)
driver_mounts-Owns kernel ctx cnt info x q fair h =
    (Own-driver_mounts x q kernel fair ctx cnt info).runs h (omega arith)

-- The body succeeded in the namespace of the container, and only the call that leads back to the
-- namespace of the process, the last one, failed.
abbrev pub OnlyWayBack :
    Kernel → NvcContext → NvcContainer → NvcDriverInfo → History → History → Type 0
OnlyWayBack kernel ctx cnt info h h' =
    (mnts : List Bytes) × (before : History) × (errno : ℕ) × (run
        (driver_mounts kernel ctx cnt info) ((setns (at_path cnt.mnt_ns), none) ∷ h)
      ≡ (before, done mnts))
    × (h' ≡ (setns (at_fd ctx.mnt_ns), some errno) ∷ before)

-- What a path has behind the whole function.
abbrev pub Leaves :
    Kernel
    → NvcContext
    → NvcContainer
    → NvcDriverInfo
    → Bytes
    → History
    → History × Ended (Unit {0})
    → Type 0
Leaves kernel ctx cnt info p h (h', done u) =
    (mounts_at p h ≤ mounts_at p h') × (loose_at p h' ≡ loose_at p h)
Leaves kernel ctx cnt info p h (h', failed e) =
    (mounts_at p h' + loose_at p h ≤ mounts_at p h + loose_at p h')
    ⊎ OnlyWayBack kernel ctx cnt info h h'
Leaves kernel ctx cnt info p h (h', crashed) = Unit

module _ (kernel : Kernel) (ctx : NvcContext) (cnt : NvcContainer) (info : NvcDriverInfo)
    (p : Bytes) (h : History) where
  -- The history in the namespace of the container
  abbrev entered : History
  entered = (setns (at_path cnt.mnt_ns), none) ∷ h

  leave_ok :
      (h' : History) (mnts : List Bytes)
      → run (driver_mounts kernel ctx cnt info) entered ≡ (h', done mnts)
      → mounts_at p h ≤ mounts_at p h'
      → loose_at p h' ≡ loose_at p h
      → Leaves kernel ctx cnt info p h (run (leave kernel ctx (ok tt)) h')
  unfolding leave ns_enter_at perform mounts_at loose_at
  leave_ok h' mnts q i s = elim (Option-cases (kernel.answer h' (setns (at_fd ctx.mnt_ns)))) [
    | inl e ↦ rw e (i, s)
    | inr (errno, e) ↦ rw e (inr (mnts, h', errno, q, refl))
  ]

  leave_err :
      (h' : History) (e : Failure)
      → mounts_at p h' + loose_at p h ≤ mounts_at p h + loose_at p h'
      → Leaves kernel ctx cnt info p h (run (leave kernel ctx (err e)) h')
  unfolding leave ns_enter_at perform mounts_at loose_at
  leave_err h' e i = elim (Option-cases (kernel.answer h' (setns (at_fd ctx.mnt_ns)))) [
    | inl a ↦ rw a (inl i)
    | inr (errno, a) ↦ rw a tt
  ]

  forgotten :
      (x : History × Ended (List Bytes))
      → run (driver_mounts kernel ctx cnt info) entered ≡ x
      → Owns p 0 (count_path p) entered x
      → Leaves kernel ctx cnt info p h
          (continue (leave kernel ctx) (as_value (continue (λ mnts. pure tt) x)))
  unfolding mounts_at loose_at
  forgotten (h', done mnts) q (u, v) = leave_ok h' mnts q (omega arith) (omega arith)
  forgotten (h', failed f) q (u, v) = leave_err h' f (omega arith)
  forgotten (h', crashed) q u = tt

  entering :
      (k : Op (Unit {0}))
      → Leaves kernel ctx cnt info p h (run k entered)
      → Leaves kernel ctx cnt info p h (run (ns_enter kernel cnt.mnt_ns >> k) h)
  unfolding ns_enter perform mounts_at loose_at
  entering k n = elim (Option-cases (kernel.open_read h cnt.mnt_ns)) [
    | inr (errno, e) ↦ rw e (inl (omega arith))
    | inl e ↦ elim (Option-cases (kernel.answer h (setns (at_path cnt.mnt_ns)))) [
      | inr (errno, a) ↦ rw (e, a) (inl (omega arith))
      | inl a ↦ rw (e, a) n
    ]
  ]

  when_initialized :
      (b : Bool) (e : Failure) (m k : Op (Unit {0}))
      → Leaves kernel ctx cnt info p h (run (m >> k) h)
      → Leaves kernel ctx cnt info p h (run ((if b then pure tt else fail e) >> m >> k) h)
  when_initialized true e m k l = l
  when_initialized false e m k l = inl (omega arith)

-- Where nvc_driver_mount fails, either every path that is not empty is mounted on no more often than
-- before, but for one mount for each remount of it that failed, or the body succeeded, so that its
-- mounts stay, and only the call that leads back to the namespace of the process, the last one,
-- failed. Where it succeeds, no mount is lost and no remount has failed. This holds if umount2 takes
-- a mount off every path that is mounted on.
pub nvc_driver_mount-Leaves :
    (kernel : Kernel) (ctx : NvcContext) (cnt : NvcContainer) (info : NvcDriverInfo) (x : ℕ)
    (q : Bytes)
    → IsDetaching kernel
    → (h : History)
    → Leaves kernel ctx cnt info (x ∷ q) h (run (nvc_driver_mount kernel ctx cnt info) h)
unfolding nvc_driver_mount inside
nvc_driver_mount-Leaves kernel ctx cnt info x q fair h =
    when_initialized kernel ctx cnt info (x ∷ q) h ctx.initialized
      (setx (codes "context uninitialized")) (ns_enter kernel cnt.mnt_ns)
      (try (driver_mounts kernel ctx cnt info >>= λ mnts. pure tt) >>= leave kernel ctx)
      (entering kernel ctx cnt info (x ∷ q) h
        (try (driver_mounts kernel ctx cnt info >>= λ mnts. pure tt) >>= leave kernel ctx)
        (forgotten kernel ctx cnt info (x ∷ q) h
          (run (driver_mounts kernel ctx cnt info) ((setns (at_path cnt.mnt_ns), none) ∷ h)) refl
          (driver_mounts-Owns kernel ctx cnt info x q fair
            ((setns (at_path cnt.mnt_ns), none) ∷ h))))
