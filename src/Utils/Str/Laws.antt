-- ===== src/Utils/Str/Laws.antt =====
-- The string helpers against prefixes, suffixes and lists of texts.
use libxdxgpu_container.Base.{
  ◌+◌, ◌-◌, ◌≡◌, ◌↔◌, inl, inr, refl, sym, ap, ◌∙◌, true, List, [], ◌∷◌, ◌++◌, Option, none, some,
  leb, length, drop, take, arith, length-append, take-append-drop, Bool-cases, drop-append_length,
}
use libxdxgpu_container.Libc.{Bytes}
use libxdxgpu_container.Libc.TextLaws.{
  strcmp_eq_iff, strcmp_eq_refl, strncmp_eq-length_append, strncmp_eq-length-drop,
}
use libxdxgpu_container.Utils.Str.{
  str_equal, str_has_prefix, str_has_suffix, str_array_match_prefix, str_join,
}

-- `str_has_prefix` says true exactly where the text is the prefix and something behind it.
pub str_has_prefix_iff :
    (str prefix : Bytes) → (str_has_prefix str prefix ≡ true) ↔ ((r : Bytes) × (str ≡ prefix ++ r))
unfolding str_has_prefix
str_has_prefix_iff str prefix = (
  λ h. (drop (length prefix) str, strncmp_eq-length-drop str prefix h),
  λ (r, e). rw e (strncmp_eq-length_append prefix r),
)

pub str_equal_iff : (a b : Bytes) → (str_equal a b ≡ true) ↔ (a ≡ b)
unfolding str_equal
str_equal_iff a b = strcmp_eq_iff a b

suffix_of_append : (r suffix : Bytes) → str_has_suffix (r ++ suffix) suffix ≡ true
unfolding str_has_suffix
suffix_of_append r suffix =
    let at : length (r ++ suffix) - length suffix ≡ length r =
      omega (arith, length-append r suffix) in
    let fits : leb (length suffix) (length (r ++ suffix)) ≡ true =
      ground (arith, length-append r suffix) in
    rw (fits, at, drop-append_length r suffix) (strcmp_eq_refl suffix)

-- `str_has_suffix` says true exactly where the text is something and the suffix behind it.
pub str_has_suffix_iff :
    (str suffix : Bytes) → (str_has_suffix str suffix ≡ true) ↔ ((r : Bytes) × (str ≡ r ++ suffix))
unfolding str_has_suffix
str_has_suffix_iff str suffix = (has, ends)
  where
    has : str_has_suffix str suffix ≡ true → (r : Bytes) × (str ≡ r ++ suffix)
    has h = elim (Bool-cases (leb (length suffix) (length str))) [
      | inl fits ↦ (
        take (length str - length suffix) str,
        sym (take-append-drop (length str - length suffix) str)
            ∙ ap (λ t. take (length str - length suffix) str ++ t)
                ((strcmp_eq_iff _ _).0 (rw fits at h)),
      )
      | inr short ↦ cc (rw short at h)
    ]

    ends : ((r : Bytes) × (str ≡ r ++ suffix)) → str_has_suffix str suffix ≡ true
    ends (r, e) = rw e (suffix_of_append r suffix)

-- A text matches an array by prefix exactly where some element is a prefix of it.
pub str_array_match_prefix-append :
    (str : Bytes) (a b : List Bytes) (p : Bytes)
    → str_has_prefix str p ≡ true
    → str_array_match_prefix str (a ++ p ∷ b) ≡ true
unfolding str_array_match_prefix
str_array_match_prefix-append str [] b p h = rw h refl
str_array_match_prefix-append str (q ∷ a) b p h =
    ground (arith, str_array_match_prefix-append str a b p h)

-- The buffer of `str_join` holds the joined text and its terminator, and no byte more.
pub size-str_join :
    (s1 : Option Bytes) (s2 sep : Bytes)
    → (str_join s1 s2 sep).0 ≡ length (str_join s1 s2 sep).1 + 1
unfolding str_join
size-str_join none s2 sep = omega arith
size-str_join (some []) s2 sep = omega arith
size-str_join (some (c ∷ s)) s2 sep =
    omega (arith, length-append ((c ∷ s) ++ sep) s2, length-append (c ∷ s) sep)
