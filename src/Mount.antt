-- ===== src/Mount.antt =====
-- src/nvc_mount.c: a single mount into the container, and taking it back.
pub mod Files
pub mod Libraries
pub mod Profile
pub mod Procfs
pub mod Device
pub mod Driver
pub mod Caps
pub mod View
pub mod Undone
pub mod Inside
pub mod Capacity
pub mod Filter
use libxdxgpu_container.Base.{
  ℕ, Bool, List, [], ◌∷◌, ◌++◌, Option, none, some, ◌==◌, if◌then◌else◌, ◌⊎◌, inl, inr,
}
use libxdxgpu_container.Libc.{Bytes, codes}
use libxdxgpu_container.Error.{Result, ok, err, Failure, setx, set_errno}
use libxdxgpu_container.Path.{path_new, path_join}
use libxdxgpu_container.Path.Resolve.{
  Ending, returned, aborted, exhausted, path_resolve, path_resolve_full,
}
use libxdxgpu_container.Cgroup.Setup.{setup_device_cgroup}
use libxdxgpu_container.Info.{NvcDeviceNode}
use libxdxgpu_container.Container.{NvcContainer}
use libxdxgpu_container.Kernel.{
  MsFlag, ms_rdonly, ms_nosuid, ms_nodev, ms_noexec, bind, remount, mount_tmpfs, umount2, setns,
  Namespace, at_path, at_fd, Stat, History, Kernel, Op, pure, fail, crash, ◌>>=◌, ◌>>◌, try, return,
  ask, settle, or_else, perform, error_set, or_errno, log_done, append_file,
}
use libxdxgpu_container.File.{file_mode, file_create, file_remove, mode_dir}

-- The adapter of dxcore that the source uses, the first one.
pub record DriverStore : Type 0 where
  pub path : Bytes
  pub components : List Bytes

-- `struct nvc_context`, as the mounts use it; `dxcore` is none where it is not initialized.
pub record NvcContext : Type 0 where
  pub initialized : Bool
  pub root : Bytes
  pub mnt_ns : ℕ
  pub no_pivot : Bool
  pub dxcore : Option DriverStore

abbrev pub resolved : Ending Bytes → Op Bytes
resolved (returned r) = return r
resolved aborted = crash
resolved exhausted = crash

-- `path_resolve_full` in the file system as it is now
unfoldable pub resolve : Kernel → Bytes → Bytes → Op Bytes
unfolding path_resolve_full
resolve kernel root path = ask (λ h. path_resolve_full (kernel.files h) root path) >>= resolved

-- xmount, and its message
abbrev pub mount_text : Bytes → Bytes → Bytes
mount_text [] target = codes "mount operation failed: " ++ target
mount_text (c ∷ source) target =
    codes "mount operation failed: " ++ (if c == b'/' then c ∷ source else target)

unfoldable pub bind_mount : Kernel → Bytes → Bytes → Op (Unit {0})
unfolding perform
bind_mount kernel src dst = error_set (mount_text src dst) (perform kernel (bind src dst))

unfoldable pub remount_flags : Kernel → Bytes → List MsFlag → Op (Unit {0})
unfolding perform
remount_flags kernel dst flags =
    error_set (codes "mount operation failed: " ++ dst) (perform kernel (remount dst flags))

-- `unmount`: neither failure counts.
unfoldable pub unmount : Kernel → Bytes → Op (Unit {0})
unfolding perform file_remove
unmount kernel [] = pure tt
unmount kernel (c ∷ path) = try (perform kernel (umount2 (c ∷ path))) >>= λ _.
    try (file_remove kernel (c ∷ path)) >>= λ _. pure tt

-- The two mounts that every function makes, behind which it returns the mount point.
unfoldable pub mount_twice : Kernel → Bytes → Bytes → List MsFlag → Op Bytes
unfolding bind_mount remount_flags
mount_twice kernel src dst flags =
    bind_mount kernel src dst >> remount_flags kernel dst flags >> pure dst

-- What may fail behind the two paths: `unmount(dst)` stands at the label.
unfoldable pub mount_or_unmount : Kernel → Bytes → Bytes → List MsFlag → Op Bytes
unfolding mount_twice unmount
mount_or_unmount kernel src dst flags =
    or_else (mount_twice kernel src dst flags) (unmount kernel dst)

-- The file at `dst` is made with the mode of the one at `src`.
unfoldable pub create_like : Kernel → NvcContainer → Bytes → Bytes → Op (Unit {0})
unfolding file_mode file_create
create_like kernel cnt src dst = do
  mode ← file_mode kernel src
  file_create kernel dst none cnt.uid cnt.gid mode

-- `mount_with_flags`: at the label it unmounts a pointer that was never set.
unfoldable pub mount_with_flags : Kernel → NvcContainer → Bytes → Bytes → List MsFlag → Op Bytes
unfolding create_like mount_twice
mount_with_flags kernel cnt src dst flags =
    or_else (create_like kernel cnt src dst >> mount_twice kernel src dst flags) crash

unfoldable pub mount_directory : Kernel → Bytes → NvcContainer → Bytes → Op Bytes
unfolding path_join resolve mount_with_flags
mount_directory kernel root cnt dir = do
  src ← return (path_join root dir)
  dst ← resolve kernel cnt.rootfs dir
  mount_with_flags kernel cnt src dst (ms_nosuid ∷ ms_noexec ∷ [])

-- `mount_firmware`, which nothing calls
unfoldable pub mount_firmware : Kernel → Bytes → NvcContainer → Bytes → Op Bytes
unfolding path_join resolve mount_with_flags
mount_firmware kernel root cnt container_path = do
  src ← resolve kernel root container_path
  dst ← return (path_join cnt.rootfs container_path)
  mount_with_flags kernel cnt src dst (ms_rdonly ∷ ms_nodev ∷ ms_nosuid ∷ [])

-- `if (s.st_rdev != dev->id)`
abbrev pub same_device : Bytes → ℕ → Stat → Op (Unit {0})
same_device src id s =
    if s.rdev == id then pure tt else fail (setx (codes "invalid device node: " ++ src))

unfoldable pub check_device : Kernel → Bytes → ℕ → Op (Unit {0})
check_device kernel src id = do
  s ← error_set (codes "stat failed: " ++ src) (ask (λ h. kernel.stat h src) >>= or_errno)
  same_device src id s

unfoldable pub mount_device : Kernel → Bytes → NvcContainer → NvcDeviceNode → Op Bytes
unfolding path_join resolve check_device create_like mount_or_unmount
mount_device kernel root cnt dev = do
  src ← return (path_join root dev.path)
  dst ← resolve kernel cnt.rootfs dev.path
  check_device kernel src dev.id
  create_like kernel cnt src dst
  mount_or_unmount kernel src dst (ms_rdonly ∷ ms_nosuid ∷ ms_noexec ∷ [])

-- `mount_ipc`, which nothing calls
unfoldable pub mount_ipc : Kernel → Bytes → NvcContainer → Bytes → Op Bytes
unfolding path_join resolve create_like mount_or_unmount
mount_ipc kernel root cnt ipc = do
  src ← return (path_join root ipc)
  dst ← resolve kernel cnt.rootfs ipc
  create_like kernel cnt src dst
  mount_or_unmount kernel src dst (ms_nodev ∷ ms_nosuid ∷ ms_noexec ∷ [])

-- What a buffer of zeros holds where path_resolve_full has failed: the root directory, if the path
-- was resolved and only joining the two was too long.
abbrev pub root_or_nothing : Bytes → Result Bytes → Bytes
root_or_nothing root (ok r) = root
root_or_nothing root (err e) = []

unfoldable pub left_in_buffer : Bytes → Ending Bytes → Bytes
unfolding path_new
left_in_buffer root (returned (ok r)) = root_or_nothing root (path_new root)
left_in_buffer root (returned (err e)) = []
left_in_buffer root aborted = []
left_in_buffer root exhausted = []

-- `resolve`, behind which `unmount(dst)` stands at the label.
unfoldable pub resolve_or_unmount : Kernel → Bytes → Bytes → Op Bytes
unfolding resolve path_resolve unmount left_in_buffer
resolve_or_unmount kernel root path = do
  left ← ask (λ h. left_in_buffer root (path_resolve (kernel.files h) root path))
  or_else (resolve kernel root path) (unmount kernel left)

-- `mount_procfs_mig` and `mount_config_file` differ in the flags: all that fails goes to the label.
unfoldable pub mount_same_path : Kernel → Bytes → NvcContainer → Bytes → List MsFlag → Op Bytes
unfolding path_join resolve_or_unmount create_like mount_twice unmount
mount_same_path kernel root cnt path flags = do
  src ← return (path_join root path)
  dst ← resolve_or_unmount kernel cnt.rootfs path
  or_else (create_like kernel cnt src dst >> mount_twice kernel src dst flags) (unmount kernel dst)

unfoldable pub mount_procfs_mig : Kernel → Bytes → NvcContainer → Bytes → Op Bytes
unfolding mount_same_path
mount_procfs_mig kernel root cnt caps_path =
    mount_same_path kernel root cnt caps_path (ms_rdonly ∷ ms_nodev ∷ ms_nosuid ∷ ms_noexec ∷ [])

unfoldable pub mount_config_file : Kernel → Bytes → NvcContainer → Bytes → Op Bytes
unfolding mount_same_path
mount_config_file kernel root cnt dir =
    mount_same_path kernel root cnt dir (ms_rdonly ∷ ms_nodev ∷ ms_nosuid ∷ [])

abbrev pub readable : Bytes → Option ℕ → Op (Unit {0})
readable path none = pure tt
readable path (some errno) = fail (set_errno errno (codes "open failed: " ++ path))

unfoldable pub ns_enter : Kernel → Bytes → Op (Unit {0})
unfolding perform
ns_enter kernel path =
    (ask (λ h. kernel.open_read h path) >>= readable path)
    >> error_set (codes "namespace association failed: " ++ path)
        (perform kernel (setns (at_path path)))

unfoldable pub ns_enter_at : Kernel → ℕ → Op (Unit {0})
unfolding perform
ns_enter_at kernel fd =
    error_set (codes "namespace association failed") (perform kernel (setns (at_fd fd)))

-- validate_context and validate_args, for arguments that are not NULL
abbrev pub validate : NvcContext → Op (Unit {0})
validate ctx = if ctx.initialized then pure tt else fail (setx (codes "context uninitialized"))

-- Behind `assert_func`
abbrev pub asserted : {A : Type 0} → Failure → Result (Unit {0}) → Op A
asserted e (ok u) = fail e
asserted e (err e') = crash

-- The way back: an assertion where the body failed, and its own failure otherwise.
unfoldable pub leave : Kernel → NvcContext → Result (Unit {0}) → Op (Unit {0})
unfolding ns_enter_at
leave kernel ctx (ok u) = ns_enter_at kernel ctx.mnt_ns
leave kernel ctx (err e) = try (ns_enter_at kernel ctx.mnt_ns) >>= asserted e

-- How every operation runs: in the mount namespace of the container.
unfoldable pub inside : Kernel → NvcContext → NvcContainer → Op (Unit {0}) → Op (Unit {0})
unfolding ns_enter leave
inside kernel ctx cnt body =
    validate ctx >> ns_enter kernel cnt.mnt_ns >> (try body >>= leave kernel ctx)

-- A pointer that is dereferenced
abbrev pub known : {A : Type 0} → Option A → Op A
known none = crash
known (some a) = pure a

-- `setup_device_cgroup`, for a container whose cgroup is known
unfoldable pub allow_device : Kernel → NvcContainer → ℕ → Op (Unit {0})
unfolding setup_device_cgroup log_done
allow_device kernel cnt id = do
  dev_cg ← known cnt.dev_cg
  r ← ask (λ h. setup_device_cgroup (kernel.appender h) dev_cg id)
  (path, text) ← return r
  log_done (append_file path text)
