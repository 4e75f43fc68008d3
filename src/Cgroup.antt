-- ===== src/Cgroup.antt =====
-- src/cgroup_legacy.c: the path of the device cgroup, version 1.
pub mod Lines
pub mod Setup
use libxdxgpu_container.Base.{
  ℕ, zero, suc, ◌+◌, ◌-◌, Bool, true, false, not, ◌&&◌, ◌||◌, List, [], ◌∷◌, ◌++◌, Option, none,
  some, ltb, leb, ◌==◌, if◌then◌else◌, length, drop,
}
use libxdxgpu_container.Libc.{Bytes, codes, strsep, strchr, strstr}
use libxdxgpu_container.Error.{Result, ok, err, setx, ◌>>=◌}
use libxdxgpu_container.Utils.Str.{str_equal, str_has_prefix}
use libxdxgpu_container.Path.{path_max}

-- What a parser makes of a line: it dereferences NULL, passes the line over, or finds a text and
-- leaves a text in the buffer of the prefix.
pub data Found : Type 0 where
  fault : Found
  skipped : Found
  found : Bytes → Bytes → Found

-- strsep on a pointer that may be NULL: the token, and what the pointer is left at.
unfoldable pub next_token : Bytes → Option Bytes → Option Bytes × Option Bytes
unfolding strsep
next_token delim none = (none, none)
next_token delim (some s) = let (token, rest) = strsep s delim in (some token, rest)

-- `for (int i = 0; i < n; ++i) token = strsep(&line, delim);`, for a loop of at least one round
unfoldable pub nth_token : ℕ → Bytes → Option Bytes → Option Bytes × Option Bytes
unfolding next_token
nth_token zero delim line = next_token delim line
nth_token (suc n) delim line = nth_token n delim (next_token delim line).1

abbrev pub is_given : Option Bytes → Bool
is_given none = false
is_given (some []) = false
is_given (some (c ∷ s)) = true

abbrev pub text_of : Option Bytes → Bytes
text_of none = []
text_of (some s) = s

-- `strstr(text, part) != NULL`
unfoldable pub has_text : Bytes → Bytes → Bool
unfolding strstr
has_text text part = elim (strstr text part) [ none ↦ false | some s ↦ true ]

-- The conditions on the four fields
unfoldable pub checked_mount :
    Bytes → Option Bytes → Option Bytes → Option Bytes → Option Bytes → Found
unfolding str_equal str_has_prefix has_text
checked_mount subsys root mount fstype substr =
    if not (is_given root && is_given mount && is_given fstype && is_given substr)
    then skipped
    else if not (str_equal (text_of fstype) (codes "cgroup"))
    then skipped
    else if not (has_text (text_of substr) subsys)
    then skipped
    else if leb path_max (length (text_of root)) || str_has_prefix (text_of root) (codes "/..")
    then skipped
    else found (text_of mount) (text_of root)

-- Behind the mount point: strchr is called on NULL where the line has ended.
unfoldable pub behind_mount : Bytes → Option Bytes → Option Bytes → Option Bytes → Found
unfolding nth_token strchr checked_mount
behind_mount subsys root mount none = fault
behind_mount subsys root mount (some line) =
    let (fstype, rest) = nth_token 1 (codes " ") (strchr line b'-') in
    checked_mount subsys root mount fstype (nth_token 1 (codes " ") rest).0

unfoldable pub cgroup_mount : Bytes → Bytes → Bytes → Found
unfolding nth_token next_token behind_mount
cgroup_mount line prefix subsys =
    let (root, rest) = nth_token 3 (codes " ") (some line) in
    let (mount, rest') = next_token (codes " ") rest in behind_mount subsys root mount rest'

-- The cgroup path without the prefix
unfoldable pub strip_prefix : Bytes → Bytes → Bytes
unfolding str_equal str_has_prefix
strip_prefix prefix path =
    if not (str_equal prefix (codes "/")) && str_has_prefix path prefix
    then drop (length prefix) path
    else path

unfoldable pub checked_root : Bytes → Bytes → Option Bytes → Option Bytes → Found
unfolding has_text str_has_prefix strip_prefix
checked_root prefix subsys controllers path =
    if not (is_given path && is_given controllers)
    then skipped
    else if not (has_text (text_of controllers) subsys)
    then skipped
    else if leb path_max (length (text_of path)) || str_has_prefix (text_of path) (codes "/..")
    then skipped
    else found (strip_prefix prefix (text_of path)) prefix

unfoldable pub cgroup_root : Bytes → Bytes → Bytes → Found
unfolding nth_token checked_root
cgroup_root line prefix subsys =
    let (controllers, path) = nth_token 1 (codes ":") (some line) in
    checked_root prefix subsys controllers path

-- The lines that getline gives, without their newline, and whether they had one.
abbrev pub grow_line : ℕ → List (Bytes × Bool) → List (Bytes × Bool)
grow_line c [] = (c ∷ [], false) ∷ []
grow_line c ((line, ended) ∷ lines) = (c ∷ line, ended) ∷ lines

unfoldable pub read_lines : Bytes → List (Bytes × Bool)
read_lines [] = []
read_lines (c ∷ text) =
    let rest = read_lines text in if c == b'\n' then ([], true) ∷ rest else grow_line c rest

-- `parse_fn`, with the buffer of the prefix and the subsystem
abbrev pub ParseFn : Type 0
ParseFn = Bytes → Bytes → Bytes → Found

abbrev pub not_found : Bytes → Result (Option (Bytes × Bytes))
not_found subsys = err (setx (codes "cgroup subsystem " ++ (subsys ++ codes " not found")))

-- The loop, and the tests behind it; `none` is a crash. A line that is found behind the last newline
-- does not count: the end of the file was seen with it.
unfoldable pub parse_lines :
    ParseFn → Bytes → Bytes → List (Bytes × Bool) → Result (Option (Bytes × Bytes))
parse_lines parse prefix subsys [] = not_found subsys
parse_lines parse prefix subsys (([], ended) ∷ lines) = parse_lines parse prefix subsys lines
parse_lines parse prefix subsys ((c ∷ line, ended) ∷ lines) =
    elim (parse (c ∷ line) prefix subsys) [
      | fault ↦ ok none
      | skipped ↦ parse_lines parse prefix subsys lines
      | found path prefix' ↦ if ended then ok (some (path, prefix')) else not_found subsys
    ]

-- `parse_proc_file`; `open_text` reads the whole of a file.
unfoldable pub parse_proc_file :
    (Bytes → Result Bytes) → Bytes → ParseFn → Bytes → Bytes → Result (Option (Bytes × Bytes))
unfolding parse_lines read_lines
parse_proc_file open_text procf parse prefix subsys = do
  text ← open_text procf
  parse_lines parse prefix subsys (read_lines text)

-- xsnprintf into a buffer of PATH_MAX bytes
abbrev pub print_path : Bytes → Result Bytes
print_path text =
    if leb path_max (length text) then err (setx (codes "string formatting failed")) else ok text

abbrev pub devices : Bytes
devices = codes "devices"

-- The second half, behind the mount point and the prefix.
unfoldable pub cgroup_of :
    (Bytes → Result Bytes) → Bytes → Bytes → Option (Bytes × Bytes) → Result (Option Bytes)
unfolding parse_proc_file cgroup_root
cgroup_of open_text prefix pid none = ok none
cgroup_of open_text prefix pid (some (mount, root_prefix)) = do
  procf ← print_path (prefix ++ (codes "/proc/" ++ (pid ++ codes "/cgroup")))
  root ← parse_proc_file open_text procf cgroup_root root_prefix devices
  elim root [ none ↦ ok none | some (path, _) ↦ ok (some (prefix ++ (mount ++ path))) ]

-- `find_device_cgroup_path`. `prefix` is the root directory in standalone mode and empty otherwise;
-- `own_pid` and `pid` are the printed ids of the process whose mounts are read and of the container.
unfoldable pub find_device_cgroup_path :
    (Bytes → Result Bytes) → Bytes → Bytes → Bytes → Result (Option Bytes)
unfolding parse_proc_file cgroup_mount cgroup_of
find_device_cgroup_path open_text prefix own_pid pid = do
  procf ← print_path (prefix ++ (codes "/proc/" ++ (own_pid ++ codes "/mountinfo")))
  mount ← parse_proc_file open_text procf cgroup_mount [] devices
  cgroup_of open_text prefix pid mount
