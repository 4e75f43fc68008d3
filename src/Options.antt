-- ===== src/Options.antt =====
-- src/options.c and src/options.h: the option words of the library's functions, and their flags.
pub mod Laws
pub mod Table
use libxdxgpu_container.Base.{
  ℕ, ◌+◌, ◌≤◌, ◌<◌, ◌^◌, Bool, true, false, List, [], ◌∷◌, ◌++◌, Option, none, some, bit_or, leb,
  if◌then◌else◌, length,
}
use libxdxgpu_container.Libc.{Bytes, codes, tokens}
use libxdxgpu_container.Error.{Result, ok, err, setx}
use libxdxgpu_container.Utils.Str.{str_equal}

-- `struct option`. The values are small and positive, so that `flags` never becomes negative.
pub record OptionWord : Type 0 where
  pub name : Bytes
  pub value : ℕ

-- NVC_ARG_MAX, the size of `buf`
abbrev pub nvc_arg_max : ℕ
nvc_arg_max = 256

-- The inner loop: the first entry of that name.
unfoldable pub find_option : Bytes → List OptionWord → Option ℕ
unfolding str_equal
find_option opt [] = none
find_option opt (o ∷ opts) = if str_equal opt o.name then some o.value else find_option opt opts

abbrev pub invalid_option : Bytes → Bytes
invalid_option opt = codes "invalid option: " ++ opt

-- `while ((opt = strsep(&ptr, " ")) != NULL)`
unfoldable pub parse_words : List Bytes → List OptionWord → ℕ → Result ℕ
unfolding find_option
parse_words [] opts flags = ok flags
parse_words ([] ∷ words) opts flags = parse_words words opts flags
parse_words ((c ∷ word) ∷ words) opts flags = elim (find_option (c ∷ word) opts) [
  | none ↦ err (setx (invalid_option (c ∷ word)))
  | some value ↦ parse_words words opts (bit_or flags value)
]

unfoldable pub options_parse : Bytes → List OptionWord → Result ℕ
unfolding parse_words
options_parse str opts =
    if leb nvc_arg_max (length str)
    then err (setx (codes "too many options"))
    else parse_words (tokens (codes " ") str) opts 0
