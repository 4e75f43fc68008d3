-- ===== src/Libc/Sep.antt =====
-- strsep. The string that it walks is `none` once the last token was taken.
use libxdxgpu_container.Base.{ℕ, List, [], ◌∷◌, Option, none, some, if◌then◌else◌}
use libxdxgpu_container.Libc.Text.{Bytes, elem}

-- A token goes on by one more character.
abbrev pub grow : ℕ → Bytes × Option Bytes → Bytes × Option Bytes
grow c (token, rest) = (c ∷ token, rest)

-- One call on a string that is not NULL: the token, and what the pointer is left at.
unfoldable pub strsep : Bytes → Bytes → Bytes × Option Bytes
strsep [] delim = ([], none)
strsep (c ∷ s) delim = if elem c delim then ([], some s) else grow c (strsep s delim)

-- All tokens that `while ((t = strsep(&s, delim)) != NULL)` sees, in order.
abbrev pub join_head : ℕ → List Bytes → List Bytes
join_head c [] = (c ∷ []) ∷ []
join_head c (t ∷ ts) = (c ∷ t) ∷ ts

unfoldable pub tokens : Bytes → Bytes → List Bytes
tokens delim [] = [] ∷ []
tokens delim (c ∷ s) =
    let rest = tokens delim s in if elem c delim then [] ∷ rest else join_head c rest

-- The tokens with what the pointer is left at behind each of them.
abbrev pub grow_head : ℕ → List (Bytes × Option Bytes) → List (Bytes × Option Bytes)
grow_head c [] = (c ∷ [], none) ∷ []
grow_head c ((t, r) ∷ ts) = (c ∷ t, r) ∷ ts

unfoldable pub token_rests : Bytes → Bytes → List (Bytes × Option Bytes)
token_rests delim [] = ([], none) ∷ []
token_rests delim (c ∷ s) =
    let rest = token_rests delim s in if elem c delim then ([], some s) ∷ rest else grow_head c rest
