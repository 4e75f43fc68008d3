-- ===== src/Mount/Procfs.antt =====
-- src/nvc_mount.c: `mount_app_profile`, `mount_procfs` and `mount_procfs_gpu`, which nothing calls.
use libxdxgpu_container.Base.{
  ℕ, ◌-◌, Bool, true, false, List, [], ◌∷◌, ◌++◌, Option, none, some, if◌then◌else◌, length, take,
  drop,
}
use libxdxgpu_container.Libc.{Bytes, codes, strstr}
use libxdxgpu_container.Error.{Result, ok, err}
use libxdxgpu_container.Utils.Ids.{enoent}
use libxdxgpu_container.Path.{path_append, path_join}
use libxdxgpu_container.Container.{NvcContainer}
use libxdxgpu_container.Kernel.{
  MsFlag, ms_rdonly, ms_nosuid, ms_nodev, ms_noexec, mount_tmpfs, Kernel, Op, pure, fail, crash,
  ◌>>=◌, ◌>>◌, try, return, or_else, perform, error_set,
}
use libxdxgpu_container.File.{has_errno, file_mode, file_read_text, file_create, mode_dir}
use libxdxgpu_container.Mount.{resolve, resolve_or_unmount, mount_twice, remount_flags, unmount}

-- NV_APP_PROFILE_DIR and NV_PROC_DRIVER
abbrev pub nv_app_profile_dir : Bytes
nv_app_profile_dir = codes "/etc/nvidia/nvidia-application-profiles-rc.d"

abbrev pub nv_proc_driver : Bytes
nv_proc_driver = codes "/proc/driver/nvidia"

-- xmount of a tmpfs
unfoldable pub tmpfs : Kernel → Bytes → Op (Unit {0})
unfolding perform
tmpfs kernel path =
    error_set (codes "mount operation failed: " ++ path) (perform kernel (mount_tmpfs path))

abbrev pub tmpfs_flags : List MsFlag
tmpfs_flags = ms_nodev ∷ ms_nosuid ∷ ms_noexec ∷ []

unfoldable pub mount_app_profile : Kernel → NvcContainer → Op Bytes
unfolding resolve file_create tmpfs remount_flags unmount
mount_app_profile kernel cnt = do
  path ← resolve kernel cnt.rootfs nv_app_profile_dir
  file_create kernel path none cnt.uid cnt.gid (mode_dir 365)
  or_else (tmpfs kernel path >> remount_flags kernel path tmpfs_flags >> pure path)
      (unmount kernel path)

-- The character that says whether the driver adjusts the device nodes becomes '0'.
abbrev pub adjusted_at : Bytes → Option Bytes → Bytes
adjusted_at buf none = buf
adjusted_at buf (some param) =
    take (length buf - length param) buf ++ (take 19 param ++ (b'0' ∷ drop 20 param))

-- Only in the first file, where strstr reads NULL if the file is empty.
unfoldable pub adjusted : Bool → Option Bytes → Op (Option Bytes)
unfolding strstr
adjusted false buf = pure buf
adjusted true none = crash
adjusted true (some buf) = pure (some (adjusted_at buf (strstr buf (codes "ModifyDeviceFiles: 1"))))

-- A file that is not there is skipped.
unfoldable pub copy_file : Kernel → NvcContainer → Bool → Bytes → Bytes → Result ℕ → Op (Unit {0})
unfolding file_read_text adjusted file_create
copy_file kernel cnt is_first src dst (err e) = if has_errno enoent e then pure tt else fail e
copy_file kernel cnt is_first src dst (ok mode) = do
  text ← file_read_text kernel src
  buf ← adjusted is_first text
  file_create kernel dst buf cnt.uid cnt.gid mode

-- A round of the loop; the file is put behind both directories.
unfoldable pub copy_round : Kernel → NvcContainer → Bytes → Bytes → Bool → Bytes → Op (Unit {0})
unfolding path_append file_mode copy_file
copy_round kernel cnt src dst is_first file = do
  s ← return (path_append src file)
  d ← return (path_append dst file)
  r ← try (file_mode kernel s)
  copy_file kernel cnt is_first s d r

unfoldable pub mount_procfs : Kernel → Bytes → NvcContainer → Op Bytes
unfolding path_join resolve tmpfs copy_round remount_flags unmount
mount_procfs kernel root cnt = do
  src ← return (path_join root nv_proc_driver)
  dst ← resolve kernel cnt.rootfs nv_proc_driver
  tmpfs kernel dst
  or_else
      (copy_round kernel cnt src dst true (codes "params")
        >> copy_round kernel cnt src dst false (codes "version")
        >> copy_round kernel cnt src dst false (codes "registry")
        >> remount_flags kernel dst tmpfs_flags
        >> pure dst)
      (unmount kernel dst)

-- The paths of a GPU with one form of its bus id, and the mode of the source.
unfoldable pub look_for_gpu : Kernel → Bytes → NvcContainer → Bytes → Op (Bytes × Bytes × Result ℕ)
unfolding path_join resolve_or_unmount file_mode
look_for_gpu kernel root cnt busid = do
  src ← return (path_join root (nv_proc_driver ++ (codes "/gpus/" ++ busid)))
  dst ← resolve_or_unmount kernel cnt.rootfs (nv_proc_driver ++ (codes "/gpus/" ++ busid))
  r ← try (file_mode kernel src)
  pure (src, dst, r)

unfoldable pub mount_gpu : Kernel → NvcContainer → Bytes × Bytes × Result ℕ → Op Bytes
unfolding file_create mount_twice unmount
mount_gpu kernel cnt (src, dst, err e) = unmount kernel dst >> fail e
mount_gpu kernel cnt (src, dst, ok mode) =
    or_else
      (file_create kernel dst none cnt.uid cnt.gid mode
        >> mount_twice kernel src dst (ms_rdonly ∷ ms_nodev ∷ ms_nosuid ∷ ms_noexec ∷ []))
      (unmount kernel dst)

abbrev pub is_absent : Result ℕ → Bool
is_absent (ok mode) = false
is_absent (err e) = has_errno enoent e

-- The bus id without the upper half of its domain is tried where there is nothing for the whole.
unfoldable pub mount_procfs_gpu : Kernel → Bytes → NvcContainer → Bytes → Op Bytes
unfolding look_for_gpu mount_gpu
mount_procfs_gpu kernel root cnt busid = do
  (src, dst, r) ← look_for_gpu kernel root cnt busid
  (if is_absent r
      then (look_for_gpu kernel root cnt (drop 4 busid) >>= mount_gpu kernel cnt)
      else mount_gpu kernel cnt (src, dst, r))
