-- ===== src/Mount/Undone/Single.antt =====
-- src/nvc_mount.c: the mounts at one path, which is not empty, behind a single mount.
use libxdxgpu_container.Base.{
  ℕ, ◌<◌, ◌≡◌, refl, ◌∙◌, true, List, [], ◌∷◌, ◌++◌, Option, none, some, ◌==◌, arith, inl, inr,
  Bool-cases, Option-cases,
}
use libxdxgpu_container.Libc.{Bytes, codes}
use libxdxgpu_container.Path.Resolve.{Ending, returned, aborted, exhausted, path_resolve_full}
use libxdxgpu_container.Cgroup.Setup.{setup_device_cgroup}
use libxdxgpu_container.Container.{NvcContainer}
use libxdxgpu_container.Kernel.{
  MsFlag, Act, bind, remount, umount2, append_file, Stat, History, Kernel, Op, ◌>>=◌, return, ask,
  perform, error_set, or_errno,
}
use libxdxgpu_container.Kernel.Holds.{
  Holds, Holds-pure, Holds-fail, Holds-crash, Holds-ask, Holds-return, Holds-or_errno, Holds-bind,
  Holds-error_set, Holds-log_done,
}
use libxdxgpu_container.File.{file_mode, file_create}
use libxdxgpu_container.File.Local.{is_quiet, Holds-file_mode, Holds-file_create}
use libxdxgpu_container.Mount.{
  resolved, resolve, bind_mount, remount_flags, mount_twice, create_like, same_device, check_device,
  known, allow_device,
}
use libxdxgpu_container.Mount.View.{
  mounts_at, mounts_at-quiet, loose_at, loose_at-quiet, count_path,
}
use libxdxgpu_container.Mount.Undone.Rules.{Own, Own-Holds}

-- umount2 with MNT_DETACH takes the last mount off a path that is mounted on.
pub record IsDetaching (kernel : Kernel) : Type 0 where
  pub detaches : (h : History) (p : Bytes) → 0 < mounts_at p h → kernel.answer h (umount2 p) ≡ none

module _ (p : Bytes) where
  pub AtMounts :
      (n : ℕ) (a : Act)
      → is_quiet a ≡ true
      → (h : History) (r : Option ℕ) → mounts_at p h ≡ n
      → mounts_at p ((a, r) ∷ h) ≡ n
  AtMounts n a q h r e = mounts_at-quiet p a q h r ∙ e

  pub AtLoose :
      (n : ℕ) (a : Act)
      → is_quiet a ≡ true
      → (h : History) (r : Option ℕ) → loose_at p h ≡ n
      → loose_at p ((a, r) ∷ h) ≡ n
  AtLoose n a q h r e = loose_at-quiet p a q h r ∙ e

  -- An operation that keeps all that quiet calls keep.
  pub Own-quiet :
      {A : Type 0} (m : Op A)
      → ((I : History → Type 0)
          → ((a : Act) → is_quiet a ≡ true → (h : History) (r : Option ℕ) → I h → I ((a, r) ∷ h))
          → Holds I m)
      → Own p 0 (λ (a : A). 0) m
  Own-quiet m k = Own-Holds p m (λ n. k _ (AtMounts n)) (λ n. k _ (AtLoose n))

  Holds-resolved : (I : History → Type 0) (r : Ending Bytes) → Holds I (resolved r)
  Holds-resolved I (returned r) = Holds-return I r
  Holds-resolved I aborted = Holds-crash I
  Holds-resolved I exhausted = Holds-crash I

  module _ (kernel : Kernel) where
    pub Own-resolve : (root path : Bytes) → Own p 0 (λ (a : Bytes). 0) (resolve kernel root path)
    unfolding resolve
    Own-resolve root path = Own-quiet _ (λ I q.
        Holds-bind I (ask (λ h. path_resolve_full (kernel.files h) root path)) _ (Holds-ask I _)
          (Holds-resolved I))

    pub Own-file_create :
        (path : Bytes) (content : Option Bytes) (uid gid mode : ℕ)
        → Own p 0 (λ u. 0) (file_create kernel path content uid gid mode)
    Own-file_create path content uid gid mode =
        Own-quiet _ (λ I q. Holds-file_create I q kernel path content uid gid mode)

    pub Own-create_like :
        (cnt : NvcContainer) (src dst : Bytes) → Own p 0 (λ u. 0) (create_like kernel cnt src dst)
    unfolding create_like
    Own-create_like cnt src dst = Own-quiet _ (λ I q.
        Holds-bind I (file_mode kernel src) _ (Holds-file_mode I q kernel src)
          (λ mode. Holds-file_create I q kernel dst none cnt.uid cnt.gid mode))

    Holds-same_device :
        (I : History → Type 0) (src : Bytes) (id : ℕ) (s : Stat) → Holds I (same_device src id s)
    Holds-same_device I src id s = elim (Bool-cases (s.rdev == id)) [
      | inl e ↦ rw e (Holds-pure I tt)
      | inr e ↦ rw e (Holds-fail I _)
    ]

    pub Own-check_device : (src : Bytes) (id : ℕ) → Own p 0 (λ u. 0) (check_device kernel src id)
    unfolding check_device
    Own-check_device src id = Own-quiet _ (λ I q.
        Holds-bind I
          (error_set (codes "stat failed: " ++ src) (ask (λ h. kernel.stat h src) >>= or_errno)) _
          (Holds-error_set I _ _
            (Holds-bind I (ask (λ h. kernel.stat h src)) _ (Holds-ask I _) (Holds-or_errno I)))
          (Holds-same_device I src id))

    Holds-known : (I : History → Type 0) {A : Type 0} (r : Option A) → Holds I (known r)
    Holds-known I none = Holds-crash I
    Holds-known I (some a) = Holds-pure I a

    pub Own-allow_device :
        (cnt : NvcContainer) (id : ℕ) → Own p 0 (λ u. 0) (allow_device kernel cnt id)
    unfolding allow_device
    Own-allow_device cnt id = Own-quiet _ (λ I q.
        Holds-bind I (known cnt.dev_cg) _ (Holds-known I cnt.dev_cg) (λ dev_cg.
          Holds-bind I (ask (λ h. setup_device_cgroup (kernel.appender h) dev_cg id)) _
            (Holds-ask I _)
            (λ r. Holds-bind I (return r) _ (Holds-return I r) (λ (path, text).
              Holds-log_done I (append_file path text) (q (append_file path text) refl)))))

    abbrev pub counting : Bytes → ℕ
    counting mnt = count_path p (mnt ∷ [])

    -- A bind that is left where the remount fails counts as loose.
    pub Own-mount_twice :
        (src dst : Bytes) (flags : List MsFlag)
        → Own p 0 counting (mount_twice kernel src dst flags)
    unfolding mount_twice bind_mount remount_flags perform mounts_at loose_at
    Own-mount_twice src dst flags = record {
      runs = λ h i. elim (Option-cases (kernel.answer h (bind src dst))) [
        | inr (errno, e) ↦ rw e (omega arith, omega arith)
        | inl e ↦
            elim (Option-cases (kernel.answer ((bind src dst, none) ∷ h) (remount dst flags))) [
              | inl f ↦ rw (e, f) (ground arith)
              | inr (errno, f) ↦ rw (e, f) (ground arith)
            ]
      ];
    }
