-- ===== src/File/Paths.antt =====
-- <libgen.h> and <string.h>: dirname, and the basename of GNU.
use libxdxgpu_container.Base.{ℕ, [], ◌∷◌, Option, none, some, ◌==◌, if◌then◌else◌, drop}
use libxdxgpu_container.Libc.{Bytes, codes, strrchr}

-- What follows the last slash
abbrev pub behind_slash : Bytes → Option (Bytes × Bytes) → Bytes
behind_slash path none = path
behind_slash path (some (before, rest)) = drop 1 rest

unfoldable pub basename : Bytes → Bytes
unfolding strrchr
basename path = behind_slash path (strrchr path b'/')

-- A text without the slashes at its end
abbrev pub keep_slash : ℕ → Bytes → Bytes
keep_slash c [] = if c == b'/' then [] else c ∷ []
keep_slash c (d ∷ s) = c ∷ d ∷ s

unfoldable pub trim_slashes : Bytes → Bytes
trim_slashes [] = []
trim_slashes (c ∷ s) = keep_slash c (trim_slashes s)

abbrev pub or_root : Bytes → Bytes
or_root [] = codes "/"
or_root (c ∷ s) = c ∷ s

abbrev pub before_slash : Option (Bytes × Bytes) → Bytes
unfolding trim_slashes
before_slash none = codes "."
before_slash (some (before, rest)) = or_root (trim_slashes before)

-- A path of slashes only gives "/", and the empty one ".".
unfoldable pub dirname : Bytes → Bytes
unfolding trim_slashes strrchr before_slash
dirname [] = codes "."
dirname (c ∷ s) = elim (trim_slashes (c ∷ s)) [
  | [] ↦ codes "/"
  | d ∷ t ↦ before_slash (strrchr (d ∷ t) b'/')
]
