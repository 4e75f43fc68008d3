-- ===== src/Mount/Inside/Single.antt =====
-- src/nvc_mount.c: what every call but setns keeps, a single mount keeps.
use libxdxgpu_container.Base.{
  ℕ, ◌≡◌, refl, Bool, true, false, List, [], ◌∷◌, ◌++◌, Option, none, some, ◌==◌, inl, inr,
  Bool-cases,
}
use libxdxgpu_container.Libc.{Bytes, codes}
use libxdxgpu_container.Path.{path_join}
use libxdxgpu_container.Path.Resolve.{
  Ending, returned, aborted, exhausted, path_resolve, path_resolve_full,
}
use libxdxgpu_container.Cgroup.Setup.{setup_device_cgroup}
use libxdxgpu_container.Info.{NvcDeviceNode}
use libxdxgpu_container.Container.{NvcContainer}
use libxdxgpu_container.Kernel.{
  MsFlag, Act, bind, remount, mount_tmpfs, umount2, setns, mkdir, symlink, write_file, append_file,
  rmdir, unlink, setfsuid, setfsgid, raise_dac_override, confine, Stat, History, Kernel, pure,
  crash, ◌>>=◌, ◌>>◌, try, return, ask, perform, error_set, or_errno,
}
use libxdxgpu_container.Kernel.Holds.{
  Holds, Holds-pure, Holds-fail, Holds-crash, Holds-ask, Holds-return, Holds-or_errno, Holds-bind,
  Holds-then, Holds-try, Holds-or_else, Holds-error_set, Holds-perform, Holds-log_done,
}
use libxdxgpu_container.File.{file_create, file_mode, file_remove}
use libxdxgpu_container.File.Local.{is_quiet, Holds-file_mode, Holds-file_create, Holds-file_remove}
use libxdxgpu_container.Mount.{
  resolved, resolve, bind_mount, remount_flags, unmount, mount_twice, mount_or_unmount, create_like,
  mount_with_flags, mount_directory, same_device, check_device, mount_device, left_in_buffer,
  resolve_or_unmount, mount_same_path, known, allow_device,
}

-- Every call but setns
abbrev pub is_local : Act → Bool
is_local (setns n) = false
is_local (bind s t) = true
is_local (remount t f) = true
is_local (mount_tmpfs t) = true
is_local (umount2 t) = true
is_local (mkdir p m) = true
is_local (symlink s p) = true
is_local (write_file p c m) = true
is_local (append_file p c) = true
is_local (rmdir p) = true
is_local (unlink p) = true
is_local (setfsuid u) = true
is_local (setfsgid g) = true
is_local raise_dac_override = true
is_local (confine c) = false

is_local_of_quiet : (a : Act) → is_quiet a ≡ true → is_local a ≡ true
is_local_of_quiet (setns n) q = cc
is_local_of_quiet (bind s t) q = refl
is_local_of_quiet (remount t f) q = refl
is_local_of_quiet (mount_tmpfs t) q = refl
is_local_of_quiet (umount2 t) q = refl
is_local_of_quiet (mkdir p m) q = refl
is_local_of_quiet (symlink s p) q = refl
is_local_of_quiet (write_file p c m) q = refl
is_local_of_quiet (append_file p c) q = refl
is_local_of_quiet (rmdir p) q = refl
is_local_of_quiet (unlink p) q = refl
is_local_of_quiet (setfsuid u) q = refl
is_local_of_quiet (setfsgid g) q = refl
is_local_of_quiet raise_dac_override q = refl
is_local_of_quiet (confine c) q = cc

module _ (I : History → Type 0)
    (local : (a : Act)
      → is_local a ≡ true
      → (h : History) (r : Option ℕ) → I h
      → I ((a, r) ∷ h)) where
  pub quiet : (a : Act) → is_quiet a ≡ true → (h : History) (r : Option ℕ) → I h → I ((a, r) ∷ h)
  quiet a q = local a (is_local_of_quiet a q)

  Holds-resolved : (r : Ending Bytes) → Holds I (resolved r)
  Holds-resolved (returned r) = Holds-return I r
  Holds-resolved aborted = Holds-crash I
  Holds-resolved exhausted = Holds-crash I

  Holds-same_device : (src : Bytes) (id : ℕ) (s : Stat) → Holds I (same_device src id s)
  Holds-same_device src id s = elim (Bool-cases (s.rdev == id)) [
    | inl e ↦ rw e (Holds-pure I tt)
    | inr e ↦ rw e (Holds-fail I _)
  ]

  pub Holds-known : {A : Type 0} (r : Option A) → Holds I (known r)
  Holds-known none = Holds-crash I
  Holds-known (some a) = Holds-pure I a

  module _ (kernel : Kernel) where
    pub Holds-create :
        (path : Bytes) (content : Option Bytes) (uid gid mode : ℕ)
        → Holds I (file_create kernel path content uid gid mode)
    Holds-create path content uid gid mode =
        Holds-file_create I quiet kernel path content uid gid mode

    pub Holds-resolve : (root path : Bytes) → Holds I (resolve kernel root path)
    unfolding resolve
    Holds-resolve root path =
        Holds-bind I (ask (λ h. path_resolve_full (kernel.files h) root path)) _ (Holds-ask I _)
          Holds-resolved

    pub Holds-unmount : (path : Bytes) → Holds I (unmount kernel path)
    unfolding unmount
    Holds-unmount [] = Holds-pure I tt
    Holds-unmount (c ∷ path) =
        Holds-bind I (try (perform kernel (umount2 (c ∷ path)))) _
          (Holds-try I _
            (Holds-perform I kernel (umount2 (c ∷ path)) (local (umount2 (c ∷ path)) refl)))
          (λ _.
            Holds-bind I (try (file_remove kernel (c ∷ path))) _
              (Holds-try I _ (Holds-file_remove I quiet kernel (c ∷ path))) (λ _. Holds-pure I tt))

    pub Holds-mount_twice :
        (src dst : Bytes) (flags : List MsFlag) → Holds I (mount_twice kernel src dst flags)
    unfolding mount_twice bind_mount remount_flags
    Holds-mount_twice src dst flags =
        Holds-then I (bind_mount kernel src dst >> remount_flags kernel dst flags) (pure dst)
          (Holds-then I (bind_mount kernel src dst) (remount_flags kernel dst flags)
            (Holds-error_set I _ _
              (Holds-perform I kernel (bind src dst) (local (bind src dst) refl)))
            (Holds-error_set I _ _
              (Holds-perform I kernel (remount dst flags) (local (remount dst flags) refl))))
          (Holds-pure I dst)

    pub Holds-create_like :
        (cnt : NvcContainer) (src dst : Bytes) → Holds I (create_like kernel cnt src dst)
    unfolding create_like
    Holds-create_like cnt src dst =
        Holds-bind I (file_mode kernel src) _ (Holds-file_mode I quiet kernel src)
          (λ mode. Holds-create dst none cnt.uid cnt.gid mode)

    Holds-mount_or_unmount :
        (src dst : Bytes) (flags : List MsFlag) → Holds I (mount_or_unmount kernel src dst flags)
    unfolding mount_or_unmount
    Holds-mount_or_unmount src dst flags =
        Holds-or_else I _ _ (Holds-mount_twice src dst flags) (Holds-unmount dst)

    Holds-mount_with_flags :
        (cnt : NvcContainer) (src dst : Bytes) (flags : List MsFlag)
        → Holds I (mount_with_flags kernel cnt src dst flags)
    unfolding mount_with_flags
    Holds-mount_with_flags cnt src dst flags =
        Holds-or_else I (create_like kernel cnt src dst >> mount_twice kernel src dst flags) crash
          (Holds-then I (create_like kernel cnt src dst) _ (Holds-create_like cnt src dst)
            (Holds-mount_twice src dst flags))
          (Holds-crash I)

    pub Holds-mount_directory :
        (root : Bytes) (cnt : NvcContainer) (dir : Bytes)
        → Holds I (mount_directory kernel root cnt dir)
    unfolding mount_directory
    Holds-mount_directory root cnt dir =
        Holds-bind I (return (path_join root dir)) _ (Holds-return I _) (λ src.
          Holds-bind I (resolve kernel cnt.rootfs dir) _ (Holds-resolve cnt.rootfs dir)
            (λ dst. Holds-mount_with_flags cnt src dst _))

    Holds-check_device : (src : Bytes) (id : ℕ) → Holds I (check_device kernel src id)
    unfolding check_device
    Holds-check_device src id =
        Holds-bind I
          (error_set (codes "stat failed: " ++ src) (ask (λ h. kernel.stat h src) >>= or_errno)) _
          (Holds-error_set I _ _
            (Holds-bind I (ask (λ h. kernel.stat h src)) _ (Holds-ask I _) (Holds-or_errno I)))
          (Holds-same_device src id)

    pub Holds-mount_device :
        (root : Bytes) (cnt : NvcContainer) (dev : NvcDeviceNode)
        → Holds I (mount_device kernel root cnt dev)
    unfolding mount_device
    Holds-mount_device root cnt dev =
        Holds-bind I (return (path_join root dev.path)) _ (Holds-return I _) (λ src.
          Holds-bind I (resolve kernel cnt.rootfs dev.path) _ (Holds-resolve cnt.rootfs dev.path)
            (λ dst.
              Holds-then I (check_device kernel src dev.id) _ (Holds-check_device src dev.id) (
                Holds-then I (create_like kernel cnt src dst) _ (Holds-create_like cnt src dst)
                  (Holds-mount_or_unmount src dst _))))

    Holds-resolve_or_unmount : (root path : Bytes) → Holds I (resolve_or_unmount kernel root path)
    unfolding resolve_or_unmount
    Holds-resolve_or_unmount root path =
        Holds-bind I (ask (λ h. left_in_buffer root (path_resolve (kernel.files h) root path))) _
          (Holds-ask I _)
          (λ left. Holds-or_else I _ _ (Holds-resolve root path) (Holds-unmount left))

    pub Holds-mount_same_path :
        (root : Bytes) (cnt : NvcContainer) (path : Bytes) (flags : List MsFlag)
        → Holds I (mount_same_path kernel root cnt path flags)
    unfolding mount_same_path
    Holds-mount_same_path root cnt path flags =
        Holds-bind I (return (path_join root path)) _ (Holds-return I _) (λ src.
          Holds-bind I (resolve_or_unmount kernel cnt.rootfs path) _
            (Holds-resolve_or_unmount cnt.rootfs path)
            (λ dst.
              Holds-or_else I (create_like kernel cnt src dst >> mount_twice kernel src dst flags)
                (unmount kernel dst)
                (Holds-then I (create_like kernel cnt src dst) _ (Holds-create_like cnt src dst)
                  (Holds-mount_twice src dst flags))
                (Holds-unmount dst)))

    pub Holds-allow_device : (cnt : NvcContainer) (id : ℕ) → Holds I (allow_device kernel cnt id)
    unfolding allow_device
    Holds-allow_device cnt id =
        Holds-bind I (known cnt.dev_cg) _ (Holds-known cnt.dev_cg) (λ dev_cg.
          Holds-bind I (ask (λ h. setup_device_cgroup (kernel.appender h) dev_cg id)) _
            (Holds-ask I _)
            (λ r. Holds-bind I (return r) _ (Holds-return I r) (λ (path, text).
              Holds-log_done I (append_file path text) (local (append_file path text) refl))))
