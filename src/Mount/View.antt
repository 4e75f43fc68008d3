-- ===== src/Mount/View.antt =====
-- What a log amounts to: the mount points, and the namespace.
use libxdxgpu_container.Base.{
  ℕ, suc, ◌+◌, ◌-◌, ◌≡◌, refl, true, List, [], ◌∷◌, ◌++◌, Option, none, some, if◌then◌else◌, arith,
}
use libxdxgpu_container.Libc.{Bytes}
use libxdxgpu_container.Utils.Str.{str_equal}
use libxdxgpu_container.Kernel.{
  Act, bind, remount, mount_tmpfs, umount2, setns, mkdir, symlink, write_file, append_file, rmdir,
  unlink, setfsuid, setfsgid, raise_dac_override, confine, Namespace, History,
}
use libxdxgpu_container.File.Local.{is_quiet}
use libxdxgpu_container.Mount.Inside.Single.{is_local}

-- The namespace of the process: where it began, or the one that it entered last.
abbrev pub entered : Act → Option ℕ → Option Namespace → Option Namespace
entered (setns n) none s = some n
entered (setns n) (some errno) s = s
entered (bind a t) r s = s
entered (remount t f) r s = s
entered (mount_tmpfs t) r s = s
entered (umount2 t) r s = s
entered (mkdir p m) r s = s
entered (symlink a p) r s = s
entered (write_file p c m) r s = s
entered (append_file p c) r s = s
entered (rmdir p) r s = s
entered (unlink p) r s = s
entered (setfsuid u) r s = s
entered (setfsgid g) r s = s
entered raise_dac_override r s = s
entered (confine c) r s = s

unfoldable pub space : History → Option Namespace
space [] = none
space ((act, r) ∷ h) = entered act r (space h)

pub space-local :
    (a : Act) → is_local a ≡ true → (h : History) (r : Option ℕ) → space ((a, r) ∷ h) ≡ space h
unfolding space
space-local (setns n) q h r = cc
space-local (bind s t) q h r = refl
space-local (remount t f) q h r = refl
space-local (mount_tmpfs t) q h r = refl
space-local (umount2 t) q h r = refl
space-local (mkdir p m) q h r = refl
space-local (symlink s p) q h r = refl
space-local (write_file p c m) q h r = refl
space-local (append_file p c) q h r = refl
space-local (rmdir p) q h r = refl
space-local (unlink p) q h r = refl
space-local (setfsuid u) q h r = refl
space-local (setfsgid g) q h r = refl
space-local raise_dac_override q h r = refl
space-local (confine c) q h r = refl

-- How often a path is mounted on: binding it adds a mount, and unmounting takes the last one off.
abbrev pub counted : Bytes → Act → Option ℕ → ℕ → ℕ
counted p (bind a t) none n = if str_equal p t then suc n else n
counted p (bind a t) (some errno) n = n
counted p (mount_tmpfs t) none n = if str_equal p t then suc n else n
counted p (mount_tmpfs t) (some errno) n = n
counted p (umount2 t) none n = if str_equal p t then n - 1 else n
counted p (umount2 t) (some errno) n = n
counted p (remount t f) r n = n
counted p (setns s) r n = n
counted p (mkdir t m) r n = n
counted p (symlink a t) r n = n
counted p (write_file t c m) r n = n
counted p (append_file t c) r n = n
counted p (rmdir t) r n = n
counted p (unlink t) r n = n
counted p (setfsuid u) r n = n
counted p (setfsgid g) r n = n
counted p raise_dac_override r n = n
counted p (confine c) r n = n

unfoldable pub mounts_at : Bytes → History → ℕ
mounts_at p [] = 0
mounts_at p ((act, r) ∷ h) = counted p act r (mounts_at p h)

pub mounts_at-quiet :
    (p : Bytes) (a : Act)
    → is_quiet a ≡ true
    → (h : History) (r : Option ℕ) → mounts_at p ((a, r) ∷ h) ≡ mounts_at p h
unfolding mounts_at
mounts_at-quiet p (setns n) q h r = cc
mounts_at-quiet p (bind s t) q h r = cc
mounts_at-quiet p (remount t f) q h r = cc
mounts_at-quiet p (mount_tmpfs t) q h r = cc
mounts_at-quiet p (umount2 t) q h r = cc
mounts_at-quiet p (mkdir t m) q h r = refl
mounts_at-quiet p (symlink s t) q h r = refl
mounts_at-quiet p (write_file t c m) q h r = refl
mounts_at-quiet p (append_file t c) q h r = refl
mounts_at-quiet p (rmdir t) q h r = refl
mounts_at-quiet p (unlink t) q h r = refl
mounts_at-quiet p (setfsuid u) q h r = refl
mounts_at-quiet p (setfsgid g) q h r = refl
mounts_at-quiet p raise_dac_override q h r = refl
mounts_at-quiet p (confine c) q h r = refl

-- How often a remount of a path has failed, behind which mount_files leaves the mount.
abbrev pub loosened : Bytes → Act → Option ℕ → ℕ → ℕ
loosened p (remount t f) none n = n
loosened p (remount t f) (some errno) n = if str_equal p t then suc n else n
loosened p (bind a t) r n = n
loosened p (mount_tmpfs t) r n = n
loosened p (umount2 t) r n = n
loosened p (setns s) r n = n
loosened p (mkdir t m) r n = n
loosened p (symlink a t) r n = n
loosened p (write_file t c m) r n = n
loosened p (append_file t c) r n = n
loosened p (rmdir t) r n = n
loosened p (unlink t) r n = n
loosened p (setfsuid u) r n = n
loosened p (setfsgid g) r n = n
loosened p raise_dac_override r n = n
loosened p (confine c) r n = n

unfoldable pub loose_at : Bytes → History → ℕ
loose_at p [] = 0
loose_at p ((act, r) ∷ h) = loosened p act r (loose_at p h)

pub loose_at-quiet :
    (p : Bytes) (a : Act)
    → is_quiet a ≡ true
    → (h : History) (r : Option ℕ) → loose_at p ((a, r) ∷ h) ≡ loose_at p h
unfolding loose_at
loose_at-quiet p (setns n) q h r = cc
loose_at-quiet p (bind s t) q h r = cc
loose_at-quiet p (remount t f) q h r = cc
loose_at-quiet p (mount_tmpfs t) q h r = cc
loose_at-quiet p (umount2 t) q h r = cc
loose_at-quiet p (mkdir t m) q h r = refl
loose_at-quiet p (symlink s t) q h r = refl
loose_at-quiet p (write_file t c m) q h r = refl
loose_at-quiet p (append_file t c) q h r = refl
loose_at-quiet p (rmdir t) q h r = refl
loose_at-quiet p (unlink t) q h r = refl
loose_at-quiet p (setfsuid u) q h r = refl
loose_at-quiet p (setfsgid g) q h r = refl
loose_at-quiet p raise_dac_override q h r = refl
loose_at-quiet p (confine c) q h r = refl

-- How often a path stands in a list.
abbrev pub count_path : Bytes → List Bytes → ℕ
count_path p [] = 0
count_path p (m ∷ ms) = if str_equal p m then suc (count_path p ms) else count_path p ms

pub count_path-append :
    (p : Bytes) (a b : List Bytes) → count_path p (a ++ b) ≡ count_path p a + count_path p b
count_path-append p [] b = omega arith
count_path-append p (m ∷ a) b = ground (arith, count_path-append p a b)
