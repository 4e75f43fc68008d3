-- ===== src/Mount/Inside/Capabilities.antt =====
-- src/nvc_mount.c: what every call but setns keeps, mounting the capabilities of MIG devices keeps.
use libxdxgpu_container.Base.{ℕ, ◌≡◌, true, List, [], ◌∷◌, ◌++◌, Option, none, some, ◌⊎◌, inl, inr}
use libxdxgpu_container.Base.Bits.{bit}
use libxdxgpu_container.Libc.{Bytes, codes}
use libxdxgpu_container.Options.Table.{opt_no_devbind}
use libxdxgpu_container.Path.{path_join}
use libxdxgpu_container.Cgroup.Setup.{minor, makedev}
use libxdxgpu_container.Devices.{NvcMigDevice}
use libxdxgpu_container.Container.{NvcContainer}
use libxdxgpu_container.Kernel.{
  Act, History, Kernel, Op, ◌>>=◌, ◌>>◌, return, ask, or_else, error_set, or_errno,
}
use libxdxgpu_container.Kernel.Holds.{
  Holds, Holds-pure, Holds-crash, Holds-ask, Holds-return, Holds-or_errno, Holds-bind, Holds-then,
  Holds-or_else, Holds-error_set,
}
use libxdxgpu_container.Mount.{NvcContext, unmount, mount_directory, mount_procfs_mig, allow_device}
use libxdxgpu_container.Mount.Device.{unmount_opt, bind_device}
use libxdxgpu_container.Mount.Caps.{
  Modprobe, nvc_nvcaps_device_from_proc_path, node_at, allow_unless, cap_device_mount, is_found,
  with_caps, mount_compute, access_caps, allow_global, global_caps, nv_proc_driver_caps,
  nv_caps_device_dir, nv_mig_caps_path, allow_each, minors_of, lines_of, setup_mig_minor_cgroups,
  mig_minors, nv_caps_mig_minors_path,
}
use libxdxgpu_container.Mount.Inside.Single.{
  is_local, Holds-unmount, Holds-mount_directory, Holds-mount_same_path, Holds-allow_device,
}
use libxdxgpu_container.Mount.Inside.Bodies.{Holds-unmount_opt, Holds-bind_device, on}

module _ (I : History → Type 0)
    (local : (a : Act) → is_local a ≡ true → (h : History) (r : Option ℕ) → I h → I ((a, r) ∷ h))
    (kernel : Kernel) (modprobe : Modprobe) (ctx : NvcContext) (cnt : NvcContainer) where
  Holds-procfs_mig : (path : Bytes) → Holds I (mount_procfs_mig kernel ctx.root cnt path)
  unfolding mount_procfs_mig
  Holds-procfs_mig path = Holds-mount_same_path I local kernel ctx.root cnt path _

  Holds-from_proc_path :
      (path : Bytes) → Holds I (nvc_nvcaps_device_from_proc_path kernel modprobe ctx path)
  unfolding nvc_nvcaps_device_from_proc_path
  Holds-from_proc_path path =
      Holds-bind I (return (path_join ctx.root path)) _ (Holds-return I _) (λ abs.
        Holds-bind I
          (error_set (codes "unable to get cap device attributes: " ++ path)
            (ask (λ h. modprobe.device_file_attrs h abs) >>= or_errno))
          _
          (Holds-error_set I _ _ (
            Holds-bind I (ask (λ h. modprobe.device_file_attrs h abs)) _ (Holds-ask I _)
              (Holds-or_errno I)))
          (λ attrs. Holds-pure I (node_at attrs)))

  Holds-allow_unless : (id : ℕ) → Holds I (allow_unless kernel cnt id)
  unfolding allow_unless
  Holds-allow_unless id = on I local kernel _ _ (Holds-allow_device I local kernel cnt id)

  Holds-cap_device_mount : (path : Bytes) → Holds I (cap_device_mount kernel modprobe ctx cnt path)
  unfolding cap_device_mount
  Holds-cap_device_mount path =
      Holds-bind I (nvc_nvcaps_device_from_proc_path kernel modprobe ctx path) _
        (Holds-from_proc_path path)
        (λ node.
          Holds-bind I (bind_device kernel ctx cnt node (bit opt_no_devbind cnt.flags)) _
            (Holds-bind_device I local kernel ctx cnt node _)
            (λ mnt.
              Holds-or_else I (allow_unless kernel cnt node.id) (unmount_opt kernel mnt)
                (Holds-allow_unless node.id) (Holds-unmount_opt I local kernel mnt)))

  Holds-with_caps : (m : Op (Unit {0})) → Holds I m → Holds I (with_caps modprobe m)
  Holds-with_caps m l =
      Holds-bind I (ask (λ h. is_found (modprobe.caps_major h))) _ (Holds-ask I _)
        (λ b. on I local kernel b m l)

  Holds-mount_compute :
      (dev : NvcMigDevice) (access gi : Bytes)
      → Holds I (mount_compute kernel modprobe ctx cnt dev access gi)
  unfolding mount_compute
  Holds-mount_compute dev gi_access gi =
      let first = with_caps modprobe (cap_device_mount kernel modprobe ctx cnt gi_access) in
      Holds-bind I
        (or_else (first >> return (path_join dev.ci_caps_path (codes "access")))
          (unmount kernel gi))
        _
        (Holds-or_else I (first >> return (path_join dev.ci_caps_path (codes "access")))
          (unmount kernel gi)
          (Holds-then I first _ (Holds-with_caps _ (Holds-cap_device_mount gi_access))
            (Holds-return I _))
          (Holds-unmount I local kernel gi))
        (λ access.
          Holds-bind I (or_else (mount_procfs_mig kernel ctx.root cnt access) (unmount kernel gi)) _
            (Holds-or_else I _ _ (Holds-procfs_mig access) (Holds-unmount I local kernel gi))
            (λ ci.
              Holds-or_else I (with_caps modprobe (cap_device_mount kernel modprobe ctx cnt access))
                (unmount kernel gi >> unmount kernel ci)
                (Holds-with_caps _ (Holds-cap_device_mount access))
                (Holds-then I (unmount kernel gi) _ (Holds-unmount I local kernel gi)
                  (Holds-unmount I local kernel ci))))

  pub Holds-access_caps : (dev : NvcMigDevice) → Holds I (access_caps kernel modprobe ctx cnt dev)
  unfolding access_caps
  Holds-access_caps dev =
      Holds-bind I (return (path_join dev.gi_caps_path (codes "access"))) _ (Holds-return I _)
        (λ access.
          Holds-bind I (mount_procfs_mig kernel ctx.root cnt access) _ (Holds-procfs_mig access)
            (Holds-mount_compute dev access))

  Holds-allow_global : (file : Bytes) → Holds I (allow_global kernel modprobe ctx cnt file)
  unfolding allow_global
  Holds-allow_global file =
      Holds-bind I (mount_directory kernel ctx.root cnt nv_caps_device_dir) _
        (Holds-mount_directory I local kernel ctx.root cnt nv_caps_device_dir)
        (λ dev_mnt.
          Holds-bind I (return (path_join nv_mig_caps_path file)) _ (Holds-return I _) (λ config.
            Holds-bind I (nvc_nvcaps_device_from_proc_path kernel modprobe ctx config) _
              (Holds-from_proc_path config) (λ node. Holds-allow_unless node.id)))

  pub Holds-global_caps : (file : Bytes) → Holds I (global_caps kernel modprobe ctx cnt file)
  unfolding global_caps
  Holds-global_caps file =
      Holds-bind I (mount_procfs_mig kernel ctx.root cnt nv_proc_driver_caps) _
        (Holds-procfs_mig nv_proc_driver_caps)
        (λ mnt.
          Holds-or_else I (with_caps modprobe (allow_global kernel modprobe ctx cnt file))
            (unmount kernel mnt) (Holds-with_caps _ (Holds-allow_global file))
            (Holds-unmount I local kernel mnt))

  Holds-allow_each :
      (mig_major : ℕ) (migs : List ℕ) → Holds I (allow_each kernel cnt mig_major migs)
  unfolding allow_each
  Holds-allow_each mig_major [] = Holds-pure I tt
  Holds-allow_each mig_major (mig ∷ migs) =
      Holds-then I (allow_device kernel cnt (makedev mig_major mig)) _
        (Holds-allow_device I local kernel cnt (makedev mig_major mig))
        (Holds-allow_each mig_major migs)

  Holds-lines_of : (r : ℕ ⊎ Option Bytes) → Holds I (lines_of r)
  unfolding lines_of
  Holds-lines_of (inl errno) = Holds-crash I
  Holds-lines_of (inr none) = Holds-pure I []
  Holds-lines_of (inr (some text)) = Holds-pure I _

  Holds-mig_minors : (id : ℕ) (r : Option ℕ) → Holds I (mig_minors kernel cnt id r)
  unfolding mig_minors setup_mig_minor_cgroups
  Holds-mig_minors id none = Holds-pure I tt
  Holds-mig_minors id (some mig_major) = on I local kernel _ _ (
      Holds-bind I (ask (λ h. kernel.read_text h nv_caps_mig_minors_path) >>= lines_of) _
        (Holds-bind I (ask (λ h. kernel.read_text h nv_caps_mig_minors_path)) _ (Holds-ask I _)
          Holds-lines_of)
        (λ lines. Holds-allow_each mig_major (minors_of (minor id) lines)))

  pub Holds-mig_caps :
      (id : ℕ) → Holds I (ask (λ h. modprobe.caps_major h) >>= mig_minors kernel cnt id)
  Holds-mig_caps id =
      Holds-bind I (ask (λ h. modprobe.caps_major h)) _ (Holds-ask I _) (Holds-mig_minors id)
