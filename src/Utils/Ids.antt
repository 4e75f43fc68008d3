-- ===== src/Utils/Ids.antt =====
-- src/utils.c: reading process, user and group ids.
pub mod Decimal
use libxdxgpu_container.Base.{
  ℕ, ◌+◌, ◌-◌, ◌^◌, Bool, true, false, not, ◌&&◌, ◌||◌, List, [], ◌∷◌, ◌++◌, Option, none, some,
  ltb, leb, ◌==◌, if◌then◌else◌,
}
use libxdxgpu_container.Base.Int.{ℤ, pos, negsuc}
use libxdxgpu_container.Libc.{Bytes, codes, strtoumax, strtoimax, strsep, uintmax_max}
use libxdxgpu_container.Error.{Result, ok, err, set_errno, ◌>>=◌}

-- The values of errno
abbrev pub enoent : ℕ
enoent = 2

abbrev pub einval : ℕ
einval = 22

abbrev pub erange : ℕ
erange = 34

-- `n != (pid_t)n`, for a pid_t of 32 bits; INTMAX_MIN and INTMAX_MAX are no such values either.
abbrev pub is_pid : ℤ → Bool
is_pid (pos n) = ltb n (2 ^ 31)
is_pid (negsuc n) = ltb n (2 ^ 31)

abbrev pub pid_failed : {A : Type 0} → ℕ → Result A
pid_failed errno = err (set_errno errno (codes "parse pid failed"))

abbrev pub pid_from : ℤ × Option Bytes → Result ℤ
pid_from (n, none) = pid_failed einval
pid_from (n, some (c ∷ s)) = pid_failed einval
pid_from (n, some []) = if is_pid n then ok n else pid_failed erange

unfoldable pub str_to_pid : Bytes → Result ℤ
str_to_pid str = pid_from (strtoimax str)

-- The databases of users and groups: the ids of a user by name and by id, and the id of a group.
pub record Database : Type 0 where
  pub getpwnam : Bytes → Option (ℕ × ℕ)
  pub getpwuid : ℕ → Option (ℕ × ℕ)
  pub getgrnam : Bytes → Option ℕ

abbrev pub ids_failed : {A : Type 0} → ℕ → Result A
ids_failed errno = err (set_errno errno (codes "parse user/group failed"))

-- `n == UINTMAX_MAX || n != (uid_t)n`, for ids of 32 bits
abbrev pub is_id : ℕ → Bool
is_id n = not (n == uintmax_max) && ltb n (2 ^ 32)

abbrev pub colon : Bytes
colon = codes ":"

-- What the first part gives: the user, their record if it was looked up, and the text of the group.
pub record UserPart : Type 0 where
  pub uid : ℕ
  pub passwd : Option (ℕ × ℕ)
  pub group : Option Bytes

abbrev pub numeric_user : ℕ → Bytes → Result UserPart
numeric_user n rest =
    if is_id n then ok (record { uid = n; passwd = none; group = some rest }) else ids_failed erange

abbrev pub named_user : Database → Bytes × Option Bytes → Result UserPart
named_user db (name, rest) = elim (db.getpwnam name) [
  | none ↦ ids_failed enoent
  | some (uid, gid) ↦ ok (record { uid = uid; passwd = some (uid, gid); group = rest })
]

abbrev pub user_from : Database → Bytes → ℕ × Option Bytes → Result UserPart
user_from db str (n, none) = named_user db (strsep str colon)
user_from db str (n, some []) = numeric_user n []
user_from db str (n, some (c ∷ s)) = if c == b':' then numeric_user n s else ids_failed einval

unfoldable pub read_user : Database → Bytes → Result UserPart
unfolding strsep
read_user db str = user_from db str (strtoumax str)

abbrev pub own_group : Database → UserPart → Result ℕ
own_group db u = elim u.passwd [
  | some (uid, gid) ↦ ok gid
  | none ↦ elim (db.getpwuid u.uid) [ none ↦ ids_failed enoent | some (uid, gid) ↦ ok gid ]
]

abbrev pub group_from : Database → Bytes → ℕ × Option Bytes → Result ℕ
group_from db str (n, some (c ∷ s)) = ids_failed einval
group_from db str (n, some []) = if is_id n then ok n else ids_failed erange
group_from db str (n, none) = elim (db.getgrnam str) [
  | none ↦ ids_failed enoent
  | some gid ↦ ok gid
]

unfoldable pub read_group : Database → UserPart → Result ℕ
read_group db u = elim u.group [
  | none ↦ own_group db u
  | some [] ↦ own_group db u
  | some (c ∷ s) ↦ group_from db (c ∷ s) (strtoumax (c ∷ s))
]

unfoldable pub str_to_ugid : Database → Bytes → Result (ℕ × ℕ)
unfolding read_user read_group
str_to_ugid db str = do u ← read_user db str; gid ← read_group db u; ok (u.uid, gid)
