-- ===== src/Mount/Files.antt =====
-- src/nvc_mount.c: mounting many files into one directory.
use libxdxgpu_container.Base.{ℕ, Bool, true, false, ◌||◌, List, [], ◌∷◌, ◌++◌, none}
use libxdxgpu_container.Libc.{Bytes}
use libxdxgpu_container.Path.{path_new, path_append, path_join}
use libxdxgpu_container.Info.{match_binary_flags, match_library_flags}
use libxdxgpu_container.Container.{NvcContainer}
use libxdxgpu_container.Kernel.{
  MsFlag, ms_rdonly, ms_nosuid, ms_nodev, Kernel, Op, pure, ◌>>=◌, ◌>>◌, return, or_else,
}
use libxdxgpu_container.File.{file_create, mode_dir, mode_reg}
use libxdxgpu_container.File.Paths.{basename}
use libxdxgpu_container.Mount.{resolve, create_like, mount_twice, unmount}

abbrev pub file_flags : List MsFlag
file_flags = ms_rdonly ∷ ms_nodev ∷ ms_nosuid ∷ []

-- The loop of the labels; behind the entries there is only NULL.
unfoldable pub unmount_all : Kernel → List Bytes → Op (Unit {0})
unfolding unmount
unmount_all kernel [] = pure tt
unmount_all kernel (mnt ∷ mnts) = unmount kernel mnt >> unmount_all kernel mnts

unfoldable pub is_wanted : ℕ → Bytes → Bool
unfolding match_binary_flags match_library_flags basename
is_wanted flags path =
    match_binary_flags (basename path) flags || match_library_flags (basename path) flags

-- A round: both paths are put behind the directories, and cut off again.
unfoldable pub mount_file : Kernel → NvcContainer → Bytes → Bytes → Bytes → Op Bytes
unfolding path_append basename create_like mount_twice
mount_file kernel cnt src dst path = do
  s ← return (path_append src path)
  d ← return (path_append dst (basename path))
  create_like kernel cnt s d
  mount_twice kernel s d file_flags

-- The loop, with what was mounted so far; `one` is the round.
unfoldable pub mount_each :
    Kernel → (Bytes → Bool) → (Bytes → Op Bytes) → List Bytes → List Bytes → Op (List Bytes)
unfolding unmount_all
mount_each kernel wanted one mnts [] = pure mnts
mount_each kernel wanted one mnts (path ∷ paths) = elim (wanted path) [
  | false ↦ mount_each kernel wanted one mnts paths
  | true ↦ (do
    mnt ← or_else (one path) (unmount_all kernel mnts)
    mount_each kernel wanted one (mnts ++ mnt ∷ []) paths)
]

unfoldable pub mount_files : Kernel → Bytes → NvcContainer → Bytes → List Bytes → Op (List Bytes)
unfolding path_new resolve file_create is_wanted mount_file mount_each
mount_files kernel root cnt dir paths = do
  src ← return (path_new root)
  dst ← resolve kernel cnt.rootfs dir
  file_create kernel dst none cnt.uid cnt.gid (mode_dir 493)
  mount_each kernel (is_wanted cnt.flags) (mount_file kernel cnt src dst) [] paths

unfoldable pub mount_component : Kernel → NvcContainer → Bytes → Bytes → Bytes → Op Bytes
unfolding path_append basename file_create mount_twice
mount_component kernel cnt src dst file = do
  s ← return (path_append src file)
  d ← return (path_append dst (basename file))
  file_create kernel d none cnt.uid cnt.gid (mode_reg 365)
  mount_twice kernel s d file_flags

unfoldable pub mount_driverstore_files :
    Kernel → Bytes → NvcContainer → Bytes → List Bytes → Op (List Bytes)
unfolding path_join resolve file_create mount_component mount_each
mount_driverstore_files kernel root cnt driver_store files = do
  src ← return (path_join root driver_store)
  dst ← resolve kernel cnt.rootfs driver_store
  file_create kernel dst none cnt.uid cnt.gid (mode_dir 493)
  mount_each kernel (λ file. true) (mount_component kernel cnt src dst) [] files
