-- ===== src/Path.antt =====
-- src/utils.c: the path functions. A buffer of PATH_MAX bytes is the text that it holds.
pub mod Append
pub mod Resolve
pub mod Names
pub mod Rounds
pub mod Confined
use libxdxgpu_container.Base.{
  ℕ, ◌+◌, ◌-◌, Bool, true, false, not, ◌&&◌, ◌||◌, List, [], ◌∷◌, ◌++◌, Option, none, some, ltb,
  leb, ◌==◌, if◌then◌else◌, length, take,
}
use libxdxgpu_container.Libc.{Bytes, codes}
use libxdxgpu_container.Error.{Result, ok, err, set_errno, ◌>>=◌}

-- PATH_MAX
abbrev pub path_max : ℕ
path_max = 4096

-- ENAMETOOLONG
abbrev pub enametoolong : ℕ
enametoolong = 36

abbrev pub slash : ℕ
slash = b'/'

abbrev pub starts_slash : Bytes → Bool
starts_slash [] = false
starts_slash (c ∷ s) = c == slash

-- `*end == '/'`, for the last character of the buffer
unfoldable pub ends_slash : Bytes → Bool
ends_slash [] = false
ends_slash (c ∷ []) = c == slash
ends_slash (c ∷ d ∷ s) = ends_slash (d ∷ s)

abbrev pub behind_slash : Bytes → Bytes
behind_slash [] = []
behind_slash (c ∷ s) = s

-- What snprintf is asked to write behind the text of the buffer.
unfoldable pub appended : Bytes → Bytes → Bytes
unfolding ends_slash
appended buf path =
    (if not (starts_slash path) && not (ends_slash buf) then slash ∷ [] else [])
    ++ (if starts_slash path && ends_slash buf then behind_slash path else path)

-- `n >= cap`, or the text that the buffer then holds. The message shows what snprintf wrote.
abbrev pub checked_append : Bytes → Bytes → Bytes → Result Bytes
checked_append buf path text =
    let cap = path_max - length buf in
    if leb cap (length text)
    then err
        (set_errno enametoolong (codes "path error: " ++ (take (cap - 1) text ++ slash ∷ path)))
    else ok (buf ++ text)

-- `path_append`, for a buffer whose text is shorter than PATH_MAX.
unfoldable pub path_append : Bytes → Bytes → Result Bytes
unfolding appended
path_append buf [] = ok buf
path_append buf (c ∷ path) = checked_append buf (c ∷ path) (appended buf (c ∷ path))

unfoldable pub path_new : Bytes → Result Bytes
unfolding path_append
path_new path = path_append [] path

unfoldable pub path_join : Bytes → Bytes → Result Bytes
unfolding path_new path_append
path_join p1 p2 = do buf ← path_new p1; path_append buf p2
