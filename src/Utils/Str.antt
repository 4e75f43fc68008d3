-- ===== src/Utils/Str.antt =====
-- src/utils.c: the string helpers. Memory is always found; `str_join` gives the size it asks for.
pub mod Laws
use libxdxgpu_container.Base.{
  ℕ, ◌+◌, ◌-◌, Bool, true, false, List, [], ◌∷◌, ◌++◌, Option, none, some, leb, if◌then◌else◌,
  length, drop,
}
use libxdxgpu_container.Libc.{Bytes, strcmp_eq, strncmp_eq, strcasecmp_eq}

unfoldable pub str_equal : Bytes → Bytes → Bool
str_equal s1 s2 = strcmp_eq s1 s2

unfoldable pub str_case_equal : Bytes → Bytes → Bool
str_case_equal s1 s2 = strcasecmp_eq s1 s2

unfoldable pub str_has_prefix : Bytes → Bytes → Bool
str_has_prefix str prefix = strncmp_eq (length prefix) str prefix

unfoldable pub str_has_suffix : Bytes → Bytes → Bool
unfolding str_equal
str_has_suffix str suffix =
    let len = length str in
    let slen = length suffix in
    if leb slen len then str_equal (drop (len - slen) str) suffix else false

-- A text that is given and empty; NULL is not.
unfoldable pub str_empty : Option Bytes → Bool
str_empty none = false
str_empty (some []) = true
str_empty (some (c ∷ s)) = false

unfoldable pub str_array_match_prefix : Bytes → List Bytes → Bool
unfolding str_has_prefix
str_array_match_prefix str [] = false
str_array_match_prefix str (a ∷ arr) =
    if str_has_prefix str a then true else str_array_match_prefix str arr

unfoldable pub str_array_match : Bytes → List Bytes → Bool
unfolding str_equal
str_array_match str [] = false
str_array_match str (a ∷ arr) = if str_equal str a then true else str_array_match str arr

-- The size asked of realloc, and the text that the buffer then holds.
unfoldable pub str_join : Option Bytes → Bytes → Bytes → ℕ × Bytes
str_join none s2 sep = (1 + length s2, s2)
str_join (some []) s2 sep = (1 + length s2, s2)
str_join (some (c ∷ s)) s2 sep =
    (1 + (length (c ∷ s) + length sep) + length s2, ((c ∷ s) ++ sep) ++ s2)
