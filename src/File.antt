-- ===== src/File.antt =====
-- src/utils.c: the files. The names are those of the source.
pub mod Paths
pub mod Local
pub mod Total
use libxdxgpu_container.Base.{
  ℕ, zero, suc, ◌+◌, ◌-◌, ◌*◌, ◌/◌, ◌%◌, Bool, true, false, not, ◌&&◌, ◌||◌, List, [], ◌∷◌, ◌++◌,
  Option, none, some, ◌==◌, if◌then◌else◌, length, bit_or, bit_and, ◌⊎◌, inl, inr,
}
use libxdxgpu_container.Libc.{Bytes, codes, strrchr}
use libxdxgpu_container.Error.{Result, ok, err, Failure, setx, set_errno}
use libxdxgpu_container.Utils.Str.{str_join}
use libxdxgpu_container.Utils.Ids.{enoent, einval}
use libxdxgpu_container.File.Paths.{dirname}
use libxdxgpu_container.Kernel.{
  Act, mkdir, symlink, write_file, rmdir, unlink, setfsuid, setfsgid, raise_dac_override, Stat,
  Visit, unreadable, directory, regular, link, Kernel, Ended, Op, pure, fail, crash, ◌>>=◌, ◌>>◌,
  try, return, ask, perform, error_set, or_errno,
}

-- The values of errno
abbrev pub eperm : ℕ
eperm = 1

abbrev pub eexist : ℕ
eexist = 17

abbrev pub enotdir : ℕ
enotdir = 20

abbrev pub enotempty : ℕ
enotempty = 39

abbrev pub eloop : ℕ
eloop = 40

-- S_ISDIR and S_ISLNK, and the modes that MODE_DIR, MODE_REG and MODE_LNK make
abbrev pub is_directory : ℕ → Bool
is_directory mode = mode / 4096 % 16 == 4

abbrev pub is_link : ℕ → Bool
is_link mode = mode / 4096 % 16 == 10

abbrev pub mode_dir : ℕ → ℕ
mode_dir mode = 4 * 4096 + mode

abbrev pub mode_reg : ℕ → ℕ
mode_reg mode = 8 * 4096 + mode

abbrev pub mode_lnk : ℕ → ℕ
mode_lnk mode = 10 * 4096 + mode

abbrev pub has_errno : ℕ → Failure → Bool
has_errno n (set_errno errno text) = errno == n
has_errno n failure = false

-- `if (call < 0 && errno != n) goto fail;`
abbrev pub unless_errno : ℕ → Result (Unit {0}) → Op (Unit {0})
unless_errno n (ok u) = pure tt
unless_errno n (err e) = if has_errno n e then pure tt else fail e

abbrev pub ignoring : ℕ → Op (Unit {0}) → Op (Unit {0})
ignoring n m = try m >>= unless_errno n

abbrev pub when : Bool → Op (Unit {0}) → Op (Unit {0})
when b m = if b then m else pure tt

unfoldable pub file_mode : Kernel → Bytes → Op ℕ
file_mode kernel path =
    error_set (codes "stat failed: " ++ path)
      (do r ← ask (λ h. kernel.stat h path); s ← or_errno r; pure s.mode)

unfoldable pub file_mode_link : Kernel → Bytes → Op ℕ
file_mode_link kernel path =
    error_set (codes "stat failed: " ++ path)
      (do r ← ask (λ h. kernel.lstat h path); s ← or_errno r; pure s.mode)

abbrev pub existence : Bytes → Option ℕ → Op Bool
existence path none = pure true
existence path (some errno) =
    if errno == enoent
    then pure false
    else fail (set_errno errno (codes "file lookup failed: " ++ path))

unfoldable pub file_exists : Kernel → Bytes → Op Bool
file_exists kernel path = ask (λ h. kernel.access h path) >>= existence path

-- What str_join leaves of the text of a file: NULL if it has none.
abbrev pub text_or_null : Bytes → Option Bytes
text_or_null [] = none
text_or_null (c ∷ text) = some (c ∷ text)

abbrev pub text_read : Bytes → ℕ ⊎ Option Bytes → Op (Option Bytes)
text_read path (inl errno) = fail (set_errno errno (codes "open failed: " ++ path))
text_read path (inr none) = fail (setx (codes "file read error: " ++ path))
text_read path (inr (some text)) = pure (text_or_null text)

unfoldable pub file_read_text : Kernel → Bytes → Op (Option Bytes)
file_read_text kernel path = ask (λ h. kernel.read_text h path) >>= text_read path

-- `if ((gid_t)setfsgid((gid_t)-1) != gid) { errno = EPERM; return (-1); }`
abbrev pub demand : Bool → ℕ → Op (Unit {0})
demand b errno = if b then pure tt else fail (set_errno errno [])

-- CAP_DAC_OVERRIDE is restored where it is permitted.
unfoldable pub restore_dac_override : Kernel → Op (Unit {0})
unfolding perform
restore_dac_override kernel = do
  permitted ← or_errno kernel.dac_override_permitted
  when permitted (perform kernel raise_dac_override)

unfoldable pub set_fsugid : Kernel → ℕ → ℕ → Op (Unit {0})
unfolding perform restore_dac_override
set_fsugid kernel uid gid = do
  _ ← try (perform kernel (setfsgid gid))
  g ← ask (λ h. kernel.fsgid h)
  demand (g == gid) eperm
  _ ← try (perform kernel (setfsuid uid))
  u ← ask (λ h. kernel.fsuid h)
  demand (u == uid) eperm
  restore_dac_override kernel

-- What make_ancestors makes of stat: a directory ends it, ENOENT goes on, and all else fails.
abbrev pub is_there : ℕ ⊎ Stat → Op Bool
is_there (inr s) = if is_directory s.mode then pure true else fail (set_errno enotdir [])
is_there (inl errno) = if errno == enoent then pure false else fail (set_errno errno [])

abbrev pub ends_ancestors : Bytes → Bool
ends_ancestors [] = true
ends_ancestors (c ∷ path) = c == b'.'

-- The directory above is made first; `above` is the recursive call.
unfoldable pub make_below :
    Kernel → Bytes → ℕ → (Bytes → Op (Unit {0})) → Option (Bytes × Bytes) → Op (Unit {0})
unfolding perform
make_below kernel path perm above none = perform kernel (mkdir path perm)
make_below kernel path perm above (some (before, rest)) =
    above before >> perform kernel (mkdir path perm)

unfoldable pub make_missing : Kernel → Bytes → ℕ → (Bytes → Op (Unit {0})) → Bool → Op (Unit {0})
unfolding perform make_below strrchr
make_missing kernel path perm above true = pure tt
make_missing kernel path perm above false = make_below kernel path perm above (strrchr path b'/')

unfoldable pub unless_ended : Kernel → Bytes → ℕ → (Bytes → Op (Unit {0})) → Bool → Op (Unit {0})
unfolding make_missing
unless_ended kernel path perm above true = pure tt
unless_ended kernel path perm above false = do
  r ← ask (λ h. kernel.stat h path)
  there ← is_there r
  make_missing kernel path perm above there

-- `make_ancestors` on fuel, with the text before the last slash in place of the one that is cut.
unfoldable pub make_ancestors : Kernel → ℕ → Bytes → ℕ → Op (Unit {0})
unfolding unless_ended
make_ancestors kernel zero path perm = crash
make_ancestors kernel (suc fuel) path perm =
    unless_ended kernel path perm (λ before. make_ancestors kernel fuel before perm)
      (ends_ancestors path)

-- `0777 & ~get_umask()`
unfoldable pub allowed_mode : Kernel → ℕ
allowed_mode kernel = 511 - bit_and 511 kernel.umask

unfoldable pub link_to : Kernel → Bytes → Option Bytes → Op (Unit {0})
unfolding perform
link_to kernel path none = fail (set_errno einval [])
link_to kernel path (some target) = ignoring eexist (perform kernel (symlink target path))

abbrev pub no_link_error : Failure → Failure
no_link_error (set_errno errno text) =
    if errno == eloop then set_errno eexist text else set_errno errno text
no_link_error e = e

abbrev pub opened : Result (Unit {0}) → Op (Unit {0})
opened (ok u) = pure tt
opened (err e) = fail (no_link_error e)

-- A directory, a link or a file, by the mode.
unfoldable pub make_file : Kernel → Bytes → Option Bytes → ℕ → ℕ → Op (Unit {0})
unfolding perform link_to
make_file kernel path content mode perm =
    if is_directory mode
    then ignoring eexist (perform kernel (mkdir path perm))
    else if is_link mode
    then link_to kernel path content
    else (try (perform kernel (write_file path content perm)) >>= opened)

unfoldable pub create_as : Kernel → Bytes → Option Bytes → ℕ → ℕ → ℕ → Op (Unit {0})
unfolding set_fsugid make_ancestors make_file allowed_mode
create_as kernel path content uid gid mode =
    set_fsugid kernel uid gid
    >> make_ancestors kernel (suc (length (dirname path))) (dirname path)
        (bit_or (allowed_mode kernel) (128 + 64))
    >> make_file kernel path content mode (bit_and (allowed_mode kernel) mode)

-- `assert_func(set_fsugid(euid, egid))`, and then the return.
abbrev pub after_restore : Result (Unit {0}) → Result (Unit {0}) → Op (Unit {0})
after_restore r (ok u) = return r
after_restore r (err e) = crash

abbrev pub is_mode : ℕ → Result ℕ → Bool
is_mode mode (ok perm) = perm == mode
is_mode mode (err e) = false

-- The file is there with the mode, and nothing is to be written to it.
unfoldable pub already_there : Kernel → Bytes → Option Bytes → ℕ → Op Bool
unfolding file_mode
already_there kernel path (some content) mode = pure false
already_there kernel path none mode = do r ← try (file_mode kernel path); pure (is_mode mode r)

unfoldable pub create_and_restore : Kernel → Bytes → Option Bytes → ℕ → ℕ → ℕ → Op (Unit {0})
unfolding create_as set_fsugid
create_and_restore kernel path content uid gid mode = do
  r ← try (
      error_set (codes "file creation failed: " ++ path)
        (create_as kernel path content uid gid mode))
  restored ← try (set_fsugid kernel kernel.euid kernel.egid)
  after_restore r restored

unfoldable pub unless_there : Kernel → Bytes → Option Bytes → ℕ → ℕ → ℕ → Bool → Op (Unit {0})
unfolding create_and_restore
unless_there kernel path content uid gid mode true = pure tt
unless_there kernel path content uid gid mode false =
    create_and_restore kernel path content uid gid mode

unfoldable pub file_create : Kernel → Bytes → Option Bytes → ℕ → ℕ → ℕ → Op (Unit {0})
unfolding already_there unless_there
file_create kernel path content uid gid mode = do
  there ← already_there kernel path content mode
  unless_there kernel path content uid gid mode there

-- A link is removed if it leads nowhere or to an empty file.
unfoldable pub remove_link : Kernel → Bytes → ℕ ⊎ Stat → Op (Unit {0})
unfolding perform
remove_link kernel path (inr s) = when (s.size == 0) (perform kernel (unlink path))
remove_link kernel path (inl errno) =
    if errno == enoent then perform kernel (unlink path) else fail (set_errno errno [])

-- `do_file_remove`; its return value stops the walk if it is not 0.
unfoldable pub do_file_remove : Kernel → Bytes → Visit → Op (Unit {0})
unfolding perform remove_link
do_file_remove kernel path unreadable = fail (set_errno 0 [])
do_file_remove kernel path directory = ignoring enotempty (perform kernel (rmdir path))
do_file_remove kernel path (regular size) = when (size == 0) (perform kernel (unlink path))
do_file_remove kernel path link = ask (λ h. kernel.stat h path) >>= remove_link kernel path

unfoldable pub remove_visits : Kernel → List (Bytes × Visit) → Op (Unit {0})
unfolding do_file_remove
remove_visits kernel [] = pure tt
remove_visits kernel ((path, visit) ∷ visits) =
    do_file_remove kernel path visit >> remove_visits kernel visits

unfoldable pub file_remove : Kernel → Bytes → Op (Unit {0})
unfolding remove_visits
file_remove kernel path =
    error_set (codes "file removal failed: " ++ path)
      (do r ← ask (λ h. kernel.walk h path); visits ← or_errno r; remove_visits kernel visits)
