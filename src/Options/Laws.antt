-- ===== src/Options/Laws.antt =====
-- What `options_parse` returns, by the words of the text and the entries of the table.
use libxdxgpu_container.Base.{
  ℕ, ◌≡◌, inl, inr, refl, ap, ◌∙◌, Bool, true, false, ◌&&◌, ◌||◌, List, [], ◌∷◌, ◌++◌, Option, none,
  some, bit_or, leb, if◌then◌else◌, length, arith, Bool-cases, Option-cases,
}
use libxdxgpu_container.Base.Bits.{bit, bit-bit_or, bit-zero}
use libxdxgpu_container.Libc.{Bytes, codes, tokens}
use libxdxgpu_container.Error.{Result, ok, err, setx}
use libxdxgpu_container.Utils.Str.{str_equal}
use libxdxgpu_container.Utils.Str.Laws.{str_equal_iff}
use libxdxgpu_container.Options.{
  OptionWord, find_option, parse_words, options_parse, nvc_arg_max, invalid_option,
}

-- Some entry named `word` has bit `k`.
abbrev pub named_bit : ℕ → List OptionWord → Bytes → Bool
named_bit k [] word = false
named_bit k (o ∷ opts) word = (str_equal word o.name && bit k o.value) || named_bit k opts word

-- Some word of the text that is not empty asks for bit `k`.
abbrev pub requested : ℕ → List OptionWord → List Bytes → Bool
requested k opts [] = false
requested k opts ([] ∷ words) = requested k opts words
requested k opts ((c ∷ word) ∷ words) = named_bit k opts (c ∷ word) || requested k opts words

abbrev pub is_named : List OptionWord → Bytes → Bool
is_named [] word = false
is_named (o ∷ opts) word = str_equal word o.name || is_named opts word

-- The names of the table differ.
abbrev pub Distinct : List OptionWord → Type 0
Distinct [] = Unit
Distinct (o ∷ opts) = (is_named opts o.name ≡ false) × Distinct opts

is_named-find_option :
    (word : Bytes) (opts : List OptionWord)
    → is_named opts word ≡ elim (find_option word opts) [ none ↦ false | some v ↦ true ]
unfolding find_option
is_named-find_option word [] = refl
is_named-find_option word (o ∷ opts) = ground (arith, is_named-find_option word opts)

named_bit-is_named :
    (k : ℕ) (word : Bytes) (opts : List OptionWord)
    → is_named opts word ≡ false
    → named_bit k opts word ≡ false
named_bit-is_named k word [] h = refl
named_bit-is_named k word (o ∷ opts) h = ground (arith, named_bit-is_named k word opts)

find_option-named_bit :
    (k : ℕ) (word : Bytes) (opts : List OptionWord) (v : ℕ)
    → Distinct opts
    → find_option word opts ≡ some v
    → bit k v ≡ named_bit k opts word
unfolding find_option
find_option-named_bit k word [] v d h = cc
find_option-named_bit k word (o ∷ opts) v d h = elim (Bool-cases (str_equal word o.name)) [
  | inl e ↦
      let same : word ≡ o.name = (str_equal_iff word o.name).0 e in
      let others : is_named opts word ≡ false = ap (is_named opts) same ∙ d.0 in
      ground (arith, named_bit-is_named k word opts others)
  | inr e ↦ ground (arith, find_option-named_bit k word opts v d.1)
]

parse_words-bit :
    (k : ℕ) (words : List Bytes) (opts : List OptionWord) (flags : ℕ) {result : ℕ}
    → Distinct opts
    → parse_words words opts flags ≡ ok result
    → bit k result ≡ (bit k flags || requested k opts words)
unfolding parse_words
parse_words-bit k [] opts flags d h = ground arith
parse_words-bit k ([] ∷ words) opts flags d h = parse_words-bit k words opts flags d h
parse_words-bit k ((c ∷ word) ∷ words) opts flags d h =
    elim (Option-cases (find_option (c ∷ word) opts)) [
      | inl e ↦ cc (rw (e, parse_words) at h)
      | inr (v, e) ↦ ground (
        arith,
        parse_words-bit k words opts (bit_or flags v) d (rw (e, parse_words) at h),
        bit-bit_or k flags v,
        find_option-named_bit k (c ∷ word) opts v d e,
      )
    ]

-- Where a text is read, each bit of the flags is set exactly if some word of the text names an
-- entry that has the bit. The order and the repetition of words do not matter.
pub options_parse-bit :
    (k : ℕ) (str : Bytes) (opts : List OptionWord) {flags : ℕ}
    → Distinct opts
    → options_parse str opts ≡ ok flags
    → bit k flags ≡ requested k opts (tokens (codes " ") str)
unfolding options_parse
options_parse-bit k str opts d h = elim (Bool-cases (leb nvc_arg_max (length str))) [
  | inl e ↦ cc (rw e at h)
  | inr e ↦
      ground (arith, parse_words-bit k (tokens (codes " ") str) opts 0 d (rw e at h), bit-zero k)
]

-- The first word that is not empty and names no entry.
abbrev pub first_unknown : List OptionWord → List Bytes → Option Bytes
first_unknown opts [] = none
first_unknown opts ([] ∷ words) = first_unknown opts words
first_unknown opts ((c ∷ word) ∷ words) =
    if is_named opts (c ∷ word) then first_unknown opts words else some (c ∷ word)

-- How the loop ends.
abbrev pub Ends : Option Bytes → Result ℕ → Type 0
Ends none r = (flags : ℕ) × (r ≡ ok flags)
Ends (some word) r = r ≡ err (setx (invalid_option word))

parse_words-Ends :
    (words : List Bytes) (opts : List OptionWord) (flags : ℕ)
    → Ends (first_unknown opts words) (parse_words words opts flags)
unfolding parse_words
parse_words-Ends [] opts flags = (flags, refl)
parse_words-Ends ([] ∷ words) opts flags = parse_words-Ends words opts flags
parse_words-Ends ((c ∷ word) ∷ words) opts flags =
    elim (Option-cases (find_option (c ∷ word) opts)) [
      | inl e ↦
          let unknown : is_named opts (c ∷ word) ≡ false =
            is_named-find_option (c ∷ word) opts ∙ rw e refl in
          rw (unknown, e, parse_words, Ends) refl
      | inr (v, e) ↦
          let known : is_named opts (c ∷ word) ≡ true =
            is_named-find_option (c ∷ word) opts ∙ rw e refl in
          rw (known, e, parse_words) (parse_words-Ends words opts (bit_or flags v))
    ]

-- How a text is read: not at all if it is too long, and otherwise by its words.
abbrev pub IsReadAs : Bool → Bytes → List OptionWord → Result ℕ → Type 0
IsReadAs true str opts r = r ≡ err (setx (codes "too many options"))
IsReadAs false str opts r = Ends (first_unknown opts (tokens (codes " ") str)) r

-- A text of 256 bytes or more is refused. A shorter one is read exactly if each of its words that is
-- not empty names an entry, and the first that does not is reported.
pub options_parse-Ends :
    (str : Bytes) (opts : List OptionWord)
    → IsReadAs (leb nvc_arg_max (length str)) str opts (options_parse str opts)
unfolding options_parse
options_parse-Ends str opts = elim (Bool-cases (leb nvc_arg_max (length str))) [
  | inl e ↦ rw e refl
  | inr e ↦ rw e (parse_words-Ends (tokens (codes " ") str) opts 0)
]

pub requested-append :
    (k : ℕ) (opts : List OptionWord) (a b : List Bytes)
    → requested k opts (a ++ b) ≡ (requested k opts a || requested k opts b)
requested-append k opts [] b = refl
requested-append k opts ([] ∷ a) b = requested-append k opts a b
requested-append k opts ((c ∷ w) ∷ a) b = ground (arith, requested-append k opts a b)
