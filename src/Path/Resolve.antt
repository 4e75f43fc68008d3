-- ===== src/Path/Resolve.antt =====
-- src/utils.c: `do_path_resolve`. The file system, which does not change during the call, is a
-- parameter.
use libxdxgpu_container.Base.{
  ℕ, zero, suc, ◌+◌, ◌-◌, ◌*◌, Bool, true, false, not, ◌&&◌, [], ◌∷◌, ◌++◌, Option, none, some, ltb,
  leb, ◌==◌, if◌then◌else◌, length, ◌⊎◌, inl, inr,
}
use libxdxgpu_container.Libc.{Bytes, codes, strsep, strrchr}
use libxdxgpu_container.Error.{Result, ok, err, setx, set_errno, ◌>>=◌}
use libxdxgpu_container.Utils.Str.{str_equal}
use libxdxgpu_container.Utils.Ids.{enoent, einval}
use libxdxgpu_container.Path.{
  path_max, enametoolong, slash, starts_slash, path_append, path_new, path_join,
}

-- What readlinkat finds: a target, which is not empty, or the errno.
pub data Link : Type 0 where
  target : ℕ → Bytes → Link
  not_link : ℕ → Link

-- openat with O_PATH|O_NOFOLLOW, and O_DIRECTORY where the Boolean says so, gives errno or a
-- descriptor; `none` is the directory -1.
pub record Files : Type 0 where
  pub openat : Option ℕ → Bytes → Bool → ℕ ⊎ ℕ
  pub readlinkat : ℕ → Bytes → Link

-- MAXSYMLINKS
abbrev pub max_symlinks : ℕ
max_symlinks = 20

-- ELOOP
abbrev pub eloop : ℕ
eloop = 40

abbrev pub opened : Bytes → ℕ ⊎ ℕ → Result ℕ
opened path (inl errno) = err (set_errno errno (codes "open failed: " ++ path))
opened path (inr fd) = ok fd

unfoldable pub open_next : Files → Option ℕ → Bytes → Result ℕ
open_next files dir path = opened path (files.openat dir path (starts_slash path))

-- The local variables of do_path_resolve, without `ptr`.
pub record Walk : Type 0 where
  pub fd : ℕ
  pub realpath : Bytes
  pub noents : ℕ
  pub nlinks : ℕ

-- What a round of the loop leaves: `ptr` and the variables.
abbrev pub Next : Type 0
Next = Result (Option Bytes × Walk)

abbrev pub outside_of : Bytes → Bytes → Next
outside_of root path =
    err (setx (codes "path error: " ++ (path ++ (codes " resolves outside of " ++ root))))

abbrev pub path_error : Bytes → Bytes → ℕ → Next
path_error root path errno = err (set_errno errno (codes "path error: " ++ (root ++ slash ∷ path)))

-- The component "..", by the text before the last slash of the resolved path.
unfoldable pub go_up : Files → Bytes → Bytes → Option Bytes → Walk → Option (Bytes × Bytes) → Next
unfolding open_next
go_up files root path rest w none = outside_of root path
go_up files root path rest w (some (before, last)) =
    if ltb 0 w.noents then ok (rest, record w { realpath = before; noents = w.noents - 1 }) else (do
      fd ← open_next files (some w.fd) (codes "..")
      ok (rest, record w { fd = fd; realpath = before }))

-- A component that does not exist
unfoldable pub add_missing : Bytes → Option Bytes → Walk → Next
unfolding path_append
add_missing file rest w = do
  realpath ← path_append w.realpath file
  ok (rest, record w { realpath = realpath; noents = w.noents + 1 })

-- A component that is not a symbolic link
unfoldable pub add_existing : Files → Bytes → Option Bytes → Walk → Next
unfolding open_next path_append
add_existing files file rest w = do
  fd ← open_next files (some w.fd) file
  realpath ← path_append w.realpath file
  ok (rest, record w { fd = fd; realpath = realpath })

-- `if (ptr != NULL)`: the rest of the path behind the target of a link
unfoldable pub behind_link : Bytes → Option Bytes → Result Bytes
unfolding path_append
behind_link link none = ok link
behind_link link (some rest) = path_append link rest

-- A symbolic link whose target is `c ∷ link`
unfoldable pub follow : Files → Bytes → ℕ → Bytes → Option Bytes → Walk → Next
unfolding open_next behind_link
follow files root c link rest w =
    if c == slash
    then (do
      fd ← open_next files (some w.fd) root
      ptr ← behind_link link rest
      ok (some ptr, record w { fd = fd; realpath = []; nlinks = w.nlinks + 1 }))
    else (do ptr ← behind_link (c ∷ link) rest; ok (some ptr, record w { nlinks = w.nlinks + 1 }))

-- `switch (errno)`
unfoldable pub by_errno : Files → Bytes → Bytes → Bytes → Option Bytes → Walk → ℕ → Next
unfolding add_missing add_existing
by_errno files root path file rest w errno =
    if errno == enoent
    then add_missing file rest w
    else if errno == einval
    then add_existing files file rest w
    else path_error root path errno

unfoldable pub enter : Files → Bytes → Bytes → Bytes → Option Bytes → Walk → Link → Next
unfolding follow by_errno
enter files root path file rest w (target c link) =
    if ltb (length (c ∷ link)) path_max && ltb w.nlinks max_symlinks
    then follow files root c link rest w
    else if leb path_max (length (c ∷ link))
    then path_error root path enametoolong
    else path_error root path eloop
enter files root path file rest w (not_link errno) =
    if leb max_symlinks w.nlinks
    then path_error root path eloop
    else by_errno files root path file rest w errno

-- A component that is not empty, "." or ".."
unfoldable pub go_down : Files → Bytes → Bytes → Bytes → Option Bytes → Walk → Next
unfolding add_missing enter
go_down files root path file rest w =
    if ltb 0 w.noents
    then add_missing file rest w
    else enter files root path file rest w (files.readlinkat w.fd file)

-- One round of the loop
unfoldable pub round : Files → Bytes → Bytes → Bytes × Option Bytes → Walk → Next
unfolding go_up go_down
round files root path ([], rest) w = ok (rest, w)
round files root path (c ∷ file, rest) w =
    if str_equal (c ∷ file) (codes ".")
    then ok (rest, w)
    else if str_equal (c ∷ file) (codes "..")
    then go_up files root path rest w (strrchr w.realpath slash)
    else go_down files root path (c ∷ file) rest w

-- How a call ends: it returns, a failed assertion aborts it, or the fuel runs out.
pub data Ending (A : Type 0) : Type 0 where
  returned : Result A → Ending A
  aborted : Ending A
  exhausted : Ending A

unfoldable pub resolve_loop : ℕ → Files → Bytes → Bytes → Option Bytes → Walk → Ending Walk
unfolding round strsep
resolve_loop zero files root path ptr w = exhausted
resolve_loop (suc fuel) files root path none w = returned (ok w)
resolve_loop (suc fuel) files root path (some s) w =
    elim (round files root path (strsep s (slash ∷ [])) w) [
      | ok (ptr, w') ↦ resolve_loop fuel files root path ptr w'
      | err e ↦ returned (err e)
    ]

-- Each of at most MAXSYMLINKS targets, and the path itself, has fewer than PATH_MAX characters.
abbrev pub resolve_fuel : ℕ
resolve_fuel = (max_symlinks + 1) * (path_max + 1)

unfoldable pub written : Bool → Bytes → Ending Walk → Ending Bytes
unfolding path_new path_join
written full root (returned (ok w)) =
    returned (if full then path_join root w.realpath else path_new w.realpath)
written full root (returned (err e)) = returned (err e)
written full root aborted = aborted
written full root exhausted = exhausted

abbrev pub start_walk : ℕ → Walk
start_walk fd = record { fd = fd; realpath = []; noents = 0; nlinks = 0 }

unfoldable pub from_start : Files → Bytes → Bytes → Result (Bytes × Walk) → Ending Walk
unfolding resolve_loop
from_start files root path (ok (ptr, w)) = resolve_loop resolve_fuel files root path (some ptr) w
from_start files root path (err e) = returned (err e)

unfoldable pub do_path_resolve : Files → Bool → Bytes → Bytes → Ending Bytes
unfolding open_next path_append from_start written
do_path_resolve files full root path =
    if not (starts_slash root)
    then aborted
    else written full root (
        from_start files root path
          (do fd ← open_next files none root; ptr ← path_append [] path; ok (ptr, start_walk fd)))

unfoldable pub path_resolve : Files → Bytes → Bytes → Ending Bytes
unfolding do_path_resolve
path_resolve files root path = do_path_resolve files false root path

unfoldable pub path_resolve_full : Files → Bytes → Bytes → Ending Bytes
unfolding do_path_resolve
path_resolve_full files root path = do_path_resolve files true root path
