-- ===== src/Mount/Inside/Bodies.antt =====
-- src/nvc_mount.c: what every call but setns keeps, the bodies of the operations keep.
use libxdxgpu_container.Base.{
  ℕ, ◌≡◌, Bool, true, false, List, [], ◌∷◌, ◌++◌, Option, none, some, ltb, inl, inr, Bool-cases,
  ◌^◌, bit_or,
}
use libxdxgpu_container.Libc.{Bytes}
use libxdxgpu_container.Error.{Result, ok, err}
use libxdxgpu_container.Utils.Ids.{enoent}
use libxdxgpu_container.Path.{path_new, path_append, path_join}
use libxdxgpu_container.Cgroup.Setup.{minor}
use libxdxgpu_container.Info.{NvcDeviceNode}
use libxdxgpu_container.Container.{NvcContainer}
use libxdxgpu_container.Kernel.{Act, History, Kernel, Op, try, return, or_else}
use libxdxgpu_container.Kernel.Holds.{
  Holds, Holds-pure, Holds-fail, Holds-crash, Holds-return, Holds-bind, Holds-then, Holds-try,
  Holds-or_else,
}
use libxdxgpu_container.File.{
  file_create, file_read_text, when, has_errno, mode_dir, mode_reg, mode_lnk,
}
use libxdxgpu_container.File.Paths.{basename, dirname}
use libxdxgpu_container.File.Local.{Holds-when, Holds-file_read_text}
use libxdxgpu_container.Mount.{NvcContext, resolve, unmount, create_like, mount_device}
use libxdxgpu_container.Mount.Files.{
  file_flags, unmount_all, is_wanted, mount_file, mount_each, mount_files, mount_component,
  mount_driverstore_files,
}
use libxdxgpu_container.Mount.Libraries.{links_of, symlink_library, symlink_each, symlink_libraries}
use libxdxgpu_container.Mount.Profile.{
  profile_path, profile, read_profile, or_invalid, devices_so_far, device_bit, update_app_profile,
}
use libxdxgpu_container.Mount.Device.{forget, unmount_opt, bind_device}
use libxdxgpu_container.Mount.Inside.Single.{
  is_local, quiet, Holds-create, Holds-resolve, Holds-unmount, Holds-mount_twice, Holds-create_like,
  Holds-mount_device,
}

module _ (I : History → Type 0)
    (local : (a : Act) → is_local a ≡ true → (h : History) (r : Option ℕ) → I h → I ((a, r) ∷ h))
    (kernel : Kernel) where
  pub Holds-unmount_all : (mnts : List Bytes) → Holds I (unmount_all kernel mnts)
  unfolding unmount_all
  Holds-unmount_all [] = Holds-pure I tt
  Holds-unmount_all (mnt ∷ mnts) =
      Holds-then I (unmount kernel mnt) _ (Holds-unmount I local kernel mnt)
        (Holds-unmount_all mnts)

  Holds-mount_each :
      (wanted : Bytes → Bool) (one : Bytes → Op Bytes)
      → ((path : Bytes) → Holds I (one path))
      → (mnts paths : List Bytes) → Holds I (mount_each kernel wanted one mnts paths)
  unfolding mount_each
  Holds-mount_each wanted one k mnts [] = Holds-pure I mnts
  Holds-mount_each wanted one k mnts (path ∷ paths) = elim (Bool-cases (wanted path)) [
    | inr e ↦ rw (e, mount_each) (Holds-mount_each wanted one k mnts paths)
    | inl e ↦
        rw (e, mount_each)
          (Holds-bind I (or_else (one path) (unmount_all kernel mnts)) _
            (Holds-or_else I _ _ (k path) (Holds-unmount_all mnts))
            (λ mnt. Holds-mount_each wanted one k (mnts ++ mnt ∷ []) paths))
  ]

  pub Holds-mount_files :
      (root : Bytes) (cnt : NvcContainer) (dir : Bytes) (paths : List Bytes)
      → Holds I (mount_files kernel root cnt dir paths)
  unfolding mount_files mount_file
  Holds-mount_files root cnt dir paths =
      Holds-bind I (return (path_new root)) _ (Holds-return I _) (λ src.
        Holds-bind I (resolve kernel cnt.rootfs dir) _ (Holds-resolve I local kernel cnt.rootfs dir)
          (λ dst.
            Holds-then I (file_create kernel dst none cnt.uid cnt.gid (mode_dir 493)) _
              (Holds-create I local kernel dst none cnt.uid cnt.gid (mode_dir 493))
              (Holds-mount_each (is_wanted cnt.flags) (mount_file kernel cnt src dst)
                (λ path. Holds-bind I (return (path_append src path)) _ (Holds-return I _) (λ s.
                  Holds-bind I (return (path_append dst (basename path))) _ (Holds-return I _) (λ d.
                    Holds-then I (create_like kernel cnt s d) _
                      (Holds-create_like I local kernel cnt s d)
                      (Holds-mount_twice I local kernel s d file_flags))))
                [] paths)))

  pub Holds-mount_driverstore_files :
      (root : Bytes) (cnt : NvcContainer) (dir : Bytes) (paths : List Bytes)
      → Holds I (mount_driverstore_files kernel root cnt dir paths)
  unfolding mount_driverstore_files mount_component
  Holds-mount_driverstore_files root cnt dir paths =
      Holds-bind I (return (path_join root dir)) _ (Holds-return I _) (λ src.
        Holds-bind I (resolve kernel cnt.rootfs dir) _ (Holds-resolve I local kernel cnt.rootfs dir)
          (λ dst.
            Holds-then I (file_create kernel dst none cnt.uid cnt.gid (mode_dir 493)) _
              (Holds-create I local kernel dst none cnt.uid cnt.gid (mode_dir 493))
              (Holds-mount_each (λ file. true) (mount_component kernel cnt src dst)
                (λ path. Holds-bind I (return (path_append src path)) _ (Holds-return I _) (λ s.
                  Holds-bind I (return (path_append dst (basename path))) _ (Holds-return I _) (λ d.
                    Holds-then I (file_create kernel d none cnt.uid cnt.gid (mode_reg 365)) _
                      (Holds-create I local kernel d none cnt.uid cnt.gid (mode_reg 365))
                      (Holds-mount_twice I local kernel s d file_flags))))
                [] paths)))

  Holds-symlink_each :
      (cnt : NvcContainer) (src : Bytes) (links : List (Bytes × Bytes))
      → Holds I (symlink_each kernel cnt src links)
  unfolding symlink_each symlink_library
  Holds-symlink_each cnt src [] = Holds-pure I tt
  Holds-symlink_each cnt src ((target, linkname) ∷ links) =
      Holds-then I (symlink_library kernel cnt src (target, linkname)) _
        (Holds-bind I (return (path_join (dirname src) linkname)) _ (Holds-return I _)
          (λ path. Holds-create I local kernel path (some target) cnt.uid cnt.gid (mode_lnk 511)))
        (Holds-symlink_each cnt src links)

  pub Holds-symlink_libraries :
      (cnt : NvcContainer) (paths : List Bytes) → Holds I (symlink_libraries kernel cnt paths)
  unfolding symlink_libraries
  Holds-symlink_libraries cnt [] = Holds-pure I tt
  Holds-symlink_libraries cnt (path ∷ paths) =
      Holds-then I (symlink_each kernel cnt path (links_of (basename path))) _
        (Holds-symlink_each cnt path (links_of (basename path))) (Holds-symlink_libraries cnt paths)

  Holds-or_invalid : (path : Bytes) (r : Option ℕ) → Holds I (or_invalid path r)
  Holds-or_invalid path none = Holds-fail I _
  Holds-or_invalid path (some n) = Holds-pure I n

  Holds-devices_so_far :
      (path : Bytes) (r : Result (Option Bytes)) → Holds I (devices_so_far path r)
  unfolding devices_so_far
  Holds-devices_so_far path (err e) = elim (Bool-cases (has_errno enoent e)) [
    | inl t ↦ rw t (Holds-pure I 0)
    | inr f ↦ rw f (Holds-fail I e)
  ]
  Holds-devices_so_far path (ok none) = Holds-crash I
  Holds-devices_so_far path (ok (some text)) = Holds-or_invalid path (read_profile text)

  Holds-device_bit : (id : ℕ) → Holds I (device_bit id)
  unfolding device_bit
  Holds-device_bit id = elim (Bool-cases (ltb (minor id) 64)) [
    | inl t ↦ rw t (Holds-pure I (2 ^ minor id))
    | inr f ↦ rw f (Holds-crash I)
  ]

  pub Holds-update_app_profile :
      (cnt : NvcContainer) (id : ℕ) → Holds I (update_app_profile kernel cnt id)
  unfolding update_app_profile
  Holds-update_app_profile cnt id = Holds-bind I (device_bit id) _ (Holds-device_bit id) (λ dev.
      Holds-bind I (resolve kernel cnt.rootfs profile_path) _
        (Holds-resolve I local kernel cnt.rootfs profile_path)
        (λ path.
          Holds-bind I (try (file_read_text kernel path)) _
            (Holds-try I _ (Holds-file_read_text I (quiet I local) kernel path))
            (λ text.
              Holds-bind I (devices_so_far path text) _ (Holds-devices_so_far path text) (λ n.
                Holds-create I local kernel path (some (profile (bit_or n dev))) cnt.uid cnt.gid
                  (mode_reg 365)))))

  pub Holds-forget : {A : Type 0} (m : Op A) → Holds I m → Holds I (forget m)
  Holds-forget m l = Holds-bind I m _ l (λ _. Holds-pure I tt)

  pub Holds-unmount_opt : (mnt : Option Bytes) → Holds I (unmount_opt kernel mnt)
  unfolding unmount_opt
  Holds-unmount_opt none = Holds-pure I tt
  Holds-unmount_opt (some mnt) = Holds-unmount I local kernel mnt

  pub Holds-bind_device :
      (ctx : NvcContext) (cnt : NvcContainer) (node : NvcDeviceNode) (b : Bool)
      → Holds I (bind_device kernel ctx cnt node b)
  unfolding bind_device
  Holds-bind_device ctx cnt node true = Holds-pure I none
  Holds-bind_device ctx cnt node false =
      Holds-bind I (mount_device kernel ctx.root cnt node) _
        (Holds-mount_device I local kernel ctx.root cnt node) (λ mnt. Holds-pure I (some mnt))

  pub on : (b : Bool) (m : Op (Unit {0})) → Holds I m → Holds I (when b m)
  on = Holds-when I (quiet I local)
