-- ===== src/Mount/Undone/Many.antt =====
-- src/nvc_mount.c: the mounts at one path, which is not empty, behind unmounting and behind a loop.
use libxdxgpu_container.Base.{
  ℕ, zero, suc, ◌+◌, ◌-◌, ◌≤◌, ◌<◌, ◌≡◌, refl, sym, ap, ◌∙◌, true, List, [], ◌∷◌, Option, none,
  some, arith, ◌⊎◌, inl, inr, Bool-cases, Option-cases,
}
use libxdxgpu_container.Libc.{Bytes, strcmp_eq}
use libxdxgpu_container.Path.{path_join}
use libxdxgpu_container.Utils.Str.{str_equal}
use libxdxgpu_container.Utils.Str.Laws.{str_equal_iff}
use libxdxgpu_container.Info.{NvcDeviceNode}
use libxdxgpu_container.Container.{NvcContainer}
use libxdxgpu_container.Kernel.{
  umount2, History, Kernel, Ended, done, failed, crashed, run, pure, continue, as_value, return,
  perform,
}
use libxdxgpu_container.File.{file_remove}
use libxdxgpu_container.File.Local.{Holds-file_remove}
use libxdxgpu_container.Mount.{
  resolve, unmount, mount_twice, mount_or_unmount, create_like, check_device, mount_device,
}
use libxdxgpu_container.Mount.Files.{unmount_all}
use libxdxgpu_container.Mount.View.{mounts_at, loose_at, count_path}
use libxdxgpu_container.Mount.Undone.Rules.{
  Own, Own-return, Own-bind, Own-eq, Removal, Removes, Removes-nothing, Removes-then, Removes-fewer,
  Own-or_else,
}
use libxdxgpu_container.Mount.Undone.Single.{
  IsDetaching, AtMounts, AtLoose, counting, Own-resolve, Own-create_like, Own-check_device,
  Own-mount_twice,
}

module _ (x : ℕ) (q : Bytes) (kernel : Kernel) (fair : IsDetaching kernel) where
  abbrev p : Bytes
  p = x ∷ q

  Removal-forget :
      {A : Type 0} (k : ℕ) (h : History) (y : History × Ended A)
      → mounts_at p y.0 ≤ mounts_at p h - k
      → loose_at p y.0 ≡ loose_at p h
      → Removal p k h (continue (λ _. pure tt) (as_value y))
  Removal-forget k h (h', done a) i s = (i, s)
  Removal-forget k h (h', failed e) i s = (i, s)
  Removal-forget k h (h', crashed) i s = tt

  zero_or_positive : (n : ℕ) → (n ≡ 0) ⊎ (0 < n)
  zero_or_positive zero = inl refl
  zero_or_positive (suc n) = inr (omega arith)

  -- Where the call fails at the path, nothing was mounted there.
  unmounted :
      (t : Bytes) (h : History) {errno : ℕ}
      → str_equal p t ≡ true
      → kernel.answer h (umount2 t) ≡ some errno
      → mounts_at p h ≡ 0
  unmounted t h e f = elim (zero_or_positive (mounts_at p h)) [
    | inl z ↦ z
    | inr n ↦
        let same : kernel.answer h (umount2 p) ≡ kernel.answer h (umount2 t) =
          ap (λ y. kernel.answer h (umount2 y)) ((str_equal_iff p t).0 e) in
        cc (sym (fair.detaches h p n) ∙ same ∙ f)
  ]

  -- The call itself, whatever it answers.
  detached :
      (c : ℕ) (t : Bytes) (h : History) (r : Option ℕ)
      → kernel.answer h (umount2 (c ∷ t)) ≡ r
      → mounts_at p ((umount2 (c ∷ t), r) ∷ h) ≤ mounts_at p h - count_path p ((c ∷ t) ∷ [])
  unfolding mounts_at
  detached c t h none f = elim (Bool-cases (str_equal p (c ∷ t))) [
    | inr e ↦ rw e (omega arith)
    | inl e ↦ rw e (omega arith)
  ]
  detached c t h (some errno) f = elim (Bool-cases (str_equal p (c ∷ t))) [
    | inr e ↦ rw e (omega arith)
    | inl e ↦ rw e (omega (arith, unmounted (c ∷ t) h e f))
  ]

  same_loose :
      (c : ℕ) (t : Bytes) (h : History) (r : Option ℕ)
      → loose_at p ((umount2 (c ∷ t), r) ∷ h) ≡ loose_at p h
  unfolding loose_at
  same_loose c t h r = refl

  Removal-unmount :
      (c : ℕ) (t : Bytes) (h : History) (r : Option ℕ)
      → mounts_at p ((umount2 (c ∷ t), r) ∷ h) ≤ mounts_at p h - count_path p ((c ∷ t) ∷ [])
      → Removal p (count_path p ((c ∷ t) ∷ [])) h (
          continue
            (λ _. pure tt)
            (as_value (run (file_remove kernel (c ∷ t)) ((umount2 (c ∷ t), r) ∷ h))))
  Removal-unmount c t h r i =
      let h' : History = (umount2 (c ∷ t), r) ∷ h in
      let mounts = Holds-file_remove _ (AtMounts p (mounts_at p h')) kernel (c ∷ t) in
      let loose = Holds-file_remove _ (AtLoose p (loose_at p h')) kernel (c ∷ t) in
      Removal-forget _ h (run (file_remove kernel (c ∷ t)) h')
        (omega (arith, i, mounts.runs h' refl)) (loose.runs h' refl ∙ same_loose c t h r)

  pub Removes-unmount : (mnt : Bytes) → Removes p (count_path p (mnt ∷ [])) (unmount kernel mnt)
  unfolding unmount perform str_equal strcmp_eq
  Removes-unmount [] = Removes-nothing p
  Removes-unmount (c ∷ t) = record {
    runs = λ h. elim (Option-cases (kernel.answer h (umount2 (c ∷ t)))) [
      | inl e ↦ rw e (Removal-unmount c t h none (detached c t h _ e))
      | inr (errno, e) ↦ rw e (Removal-unmount c t h (some errno) (detached c t h _ e))
    ];
  }

  count_path-cons :
      (mnt : Bytes) (mnts : List Bytes)
      → count_path p (mnt ∷ mnts) ≡ count_path p (mnt ∷ []) + count_path p mnts
  count_path-cons mnt mnts = ground arith

  pub Removes-unmount_all :
      (mnts : List Bytes) → Removes p (count_path p mnts) (unmount_all kernel mnts)
  unfolding unmount_all
  Removes-unmount_all [] = Removes-nothing p
  Removes-unmount_all (mnt ∷ mnts) =
      Removes-fewer p _ _ _ (omega (arith, count_path-cons mnt mnts)) (
        Removes-then p (count_path p (mnt ∷ [])) (count_path p mnts) (unmount kernel mnt)
          (unmount_all kernel mnts) (Removes-unmount mnt) (Removes-unmount_all mnts))

  pub Own-mount_device :
      (root : Bytes) (cnt : NvcContainer) (dev : NvcDeviceNode)
      → Own p 0 (counting p kernel) (mount_device kernel root cnt dev)
  unfolding mount_device mount_or_unmount
  Own-mount_device root cnt dev =
      Own-bind p 0 (λ _. 0) _ (return (path_join root dev.path)) _ (Own-return p _)
        (λ src.
          Own-bind p 0 (λ _. 0) _ (resolve kernel cnt.rootfs dev.path) _
            (Own-resolve p kernel cnt.rootfs dev.path)
            (λ dst.
              Own-bind p 0 (λ _. 0) _ (check_device kernel src dev.id) _
                (Own-check_device p kernel src dev.id)
                (λ _.
                  Own-bind p 0 (λ _. 0) _ (create_like kernel cnt src dst) _
                    (Own-create_like p kernel cnt src dst)
                    (λ _.
                      Own-eq p 0 0 _ _ _ refl (λ a. omega arith)
                        (Own-or_else p 0 (counting p kernel) (mount_twice kernel src dst _)
                          (unmount kernel dst) (Own-mount_twice p kernel src dst _)
                          (Removes-fewer p 0 _ (unmount kernel dst) (omega arith)
                            (Removes-unmount dst)))))))
