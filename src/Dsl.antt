-- ===== src/Dsl.antt =====
-- src/cli/dsl.c: the requirement expressions, such as "cuda>=9.0 brand=tesla,driver>=384".
pub mod Version
pub mod Predicate
pub mod Total
use libxdxgpu_container.Base.{
  ℕ, zero, suc, ◌+◌, Bool, true, false, not, ◌&&◌, ◌||◌, List, [], ◌∷◌, ◌++◌, Option, none, some,
  ltb, leb, ◌==◌, if◌then◌else◌, length, take, drop,
}
use libxdxgpu_container.Base.Int.{ℤ, pos, negsuc, is_negative}
use libxdxgpu_container.Libc.{
  Bytes, codes, tokens, skip, strspn, strcspn, strncmp_eq, strtoumax, uintmax_max, strsep,
}
use libxdxgpu_container.Error.{Result, ok, err, setx}
use libxdxgpu_container.Utils.Str.{str_case_equal}

-- `enum dsl_comparator`
pub data DslComparator : Type 0 where
  equal not_equal less less_equal greater greater_equal : DslComparator

-- A C truth value, and the -1 of an error.
abbrev pub truth : Bool → ℤ
truth true = pos 1
truth false = pos 0

abbrev pub minus_one : ℤ
minus_one = negsuc 0

-- `return` for two components that differ
unfoldable pub compare_components : DslComparator → ℕ → ℕ → ℤ
compare_components equal n1 n2 = truth false
compare_components not_equal n1 n2 = truth true
compare_components less n1 n2 = truth (ltb n1 n2)
compare_components less_equal n1 n2 = truth (ltb n1 n2)
compare_components greater n1 n2 = truth (ltb n2 n1)
compare_components greater_equal n1 n2 = truth (ltb n2 n1)

abbrev pub is_nil : Bytes → Bool
is_nil [] = true
is_nil (c ∷ s) = false

-- Behind the loop, with the trailing zeros skipped: what is left of the two versions.
unfoldable pub compare_tails : DslComparator → Bool → Bool → ℤ
compare_tails not_equal end1 end2 = truth (not end1 || not end2)
compare_tails equal end1 end2 = if end1 && end2 then truth true else truth false
compare_tails less end1 end2 = truth (end1 && not end2)
compare_tails less_equal end1 end2 = if end1 && end2 then truth true else truth (end1 && not end2)
compare_tails greater end1 end2 = truth (not end1 && end2)
compare_tails greater_equal end1 end2 =
    if end1 && end2 then truth true else truth (not end1 && end2)

-- `(n = strtoumax(v, &ptr, 10)) == UINTMAX_MAX || v == ptr` returns; otherwise the number and `ptr`.
abbrev checked : ℕ × Option Bytes → Option (ℕ × Bytes)
checked (n, none) = none
checked (n, some ptr) = if n == uintmax_max then none else some (n, ptr)

unfoldable pub read_component : Bytes → Option (ℕ × Bytes)
read_component v = checked (strtoumax v)

-- The loop, on fuel for the rounds; `none` where the fuel runs out.
unfoldable pub compare_loop : ℕ → DslComparator → Bytes → Bytes → Option ℤ
unfolding compare_components compare_tails read_component
compare_loop zero cmp v1 v2 = none
compare_loop (suc fuel) cmp v1 v2 =
    if is_nil v1 || is_nil v2
    then some (compare_tails cmp (is_nil (skip (codes ".0") v1)) (is_nil (skip (codes ".0") v2)))
    else elim (read_component v1) [
      | none ↦ some minus_one
      | some (n1, ptr1) ↦ elim (read_component v2) [
        | none ↦ some minus_one
        | some (n2, ptr2) ↦ elim (n1 == n2) [
          | true ↦ compare_loop fuel cmp (skip (codes ".") ptr1) (skip (codes ".") ptr2)
          | false ↦ some (compare_components cmp n1 n2)
        ]
      ]
    ]

abbrev pub version_chars : Bytes
version_chars = codes "0123456789."

-- A round reads at least one character of `v1`.
unfoldable pub dsl_compare_version : Bytes → DslComparator → Bytes → Option ℤ
unfolding compare_loop
dsl_compare_version v1 cmp v2 =
    if not (strspn v1 version_chars == length v1) || not (strspn v2 version_chars == length v2)
    then some minus_one
    else compare_loop (suc (length v1)) cmp v1 v2

unfoldable pub dsl_compare_string : Bytes → DslComparator → Bytes → ℤ
unfolding str_case_equal
dsl_compare_string s1 equal s2 = truth (str_case_equal s1 s2)
dsl_compare_string s1 not_equal s2 = truth (not (str_case_equal s1 s2))
dsl_compare_string s1 _ s2 = minus_one

-- `struct dsl_rule`, with the context that `dsl_evaluate` hands to each function already applied.
pub record DslRule : Type 0 where
  pub name : Bytes
  pub func : DslComparator → Bytes → ℤ

-- `struct operator`
pub record Operator : Type 0 where
  pub str : Bytes
  pub cmp : DslComparator

abbrev pub operators : List Operator
operators =
    record { str = codes "="; cmp = equal }
    ∷ record { str = codes "!="; cmp = not_equal }
    ∷ record { str = codes "<"; cmp = less }
    ∷ record { str = codes "<="; cmp = less_equal }
    ∷ record { str = codes ">"; cmp = greater }
    ∷ record { str = codes ">="; cmp = greater_equal }
    ∷ []

-- The first operator that agrees with the `n` operator characters at `ptr`.
unfoldable pub find_operator : ℕ → Bytes → List Operator → Option Operator
find_operator n ptr [] = none
find_operator n ptr (op ∷ ops) =
    if strncmp_eq n ptr op.str then some op else find_operator n ptr ops

-- EXPR_MAX
abbrev pub expr_max : ℕ
expr_max = 128

-- The loop over the rules; the failing expression is formatted into a buffer of EXPR_MAX bytes.
unfoldable pub apply_rules : Bytes → Operator → Bytes → List DslRule → ℤ
unfolding str_case_equal
apply_rules expr op val [] = minus_one
apply_rules expr op val (r ∷ rules) =
    let ret = r.func op.cmp val in
    if str_case_equal expr r.name
    then elim ret [
      | pos n ↦
          if n == 0 && leb expr_max (length expr + 1 + length op.str + 1 + length val)
          then minus_one
          else pos n
      | negsuc n ↦ negsuc n
    ]
    else apply_rules expr op val rules

abbrev pub operator_chars : Bytes
operator_chars = codes "<>=!"

unfoldable pub evaluate_rule : Bytes → List DslRule → ℤ
unfolding find_operator apply_rules
evaluate_rule expr rules =
    let n = strcspn expr operator_chars in
    let ptr = drop n expr in
    let m = strspn ptr operator_chars in
    let val = drop m ptr in
    if n == 0
    then minus_one
    else if m == 0
    then minus_one
    else elim (find_operator m ptr operators) [
      | none ↦ minus_one
      | some op ↦ if is_nil val then minus_one else apply_rules (take n expr) op val rules
    ]

-- How the loop over the parts of one `or_expr` ends: at an invalid part, at a part that does not
-- hold, or behind the last part, with the last value of `ret`.
pub data GroupEnd : Type 0 where
  invalid : GroupEnd
  stopped : ℤ → GroupEnd
  finished : ℤ → GroupEnd

unfoldable pub evaluate_group : (Bytes → ℤ) → ℤ → List Bytes → GroupEnd
evaluate_group eval ret [] = finished ret
evaluate_group eval ret ([] ∷ parts) = evaluate_group eval ret parts
evaluate_group eval ret ((c ∷ part) ∷ parts) = elim (eval (c ∷ part)) [
  | negsuc n ↦ invalid
  | pos zero ↦ stopped (pos zero)
  | pos (suc n) ↦ evaluate_group eval (pos (suc n)) parts
]

-- The loop over the `or_expr`s: the last value of `ret`, or `none` at an invalid expression.
unfoldable pub evaluate_groups : (Bytes → ℤ) → ℤ → List Bytes → Option ℤ
unfolding evaluate_group
evaluate_groups eval ret [] = some ret
evaluate_groups eval ret ([] ∷ groups) = evaluate_groups eval ret groups
evaluate_groups eval ret ((c ∷ group) ∷ groups) =
    elim (evaluate_group eval ret (tokens (codes ",") (c ∷ group))) [
      | invalid ↦ none
      | finished r ↦ some r
      | stopped r ↦ evaluate_groups eval r groups
    ]

abbrev pub cuda_require_greater : Bytes
cuda_require_greater = codes "cuda>="

-- The message for a condition that does not hold, about the first word of the predicate.
unfoldable pub unsatisfied : Bytes → Bytes
unsatisfied predicate =
    let format = (strsep predicate (codes " ")).0 in
    if leb (length cuda_require_greater) (length format)
      && strncmp_eq (length cuda_require_greater) format cuda_require_greater
    then codes "unsatisfied condition: "
      ++ (format
          ++ codes
              ", please update your driver to a newer version, or use an earlier cuda container")
    else codes "unsatisfied condition: " ++ format

abbrev pub verdict : Bytes → Option ℤ → Result (Unit {0})
verdict predicate none = err (setx (codes "invalid expression"))
verdict predicate (some (pos zero)) = err (setx (unsatisfied predicate))
verdict predicate (some (pos (suc n))) = ok tt
verdict predicate (some (negsuc n)) = ok tt

unfoldable pub dsl_evaluate : Bytes → List DslRule → Result (Unit {0})
unfolding evaluate_rule evaluate_groups unsatisfied
dsl_evaluate predicate rules =
    verdict predicate
      (evaluate_groups (λ expr. evaluate_rule expr rules) (pos 1) (tokens (codes " ") predicate))
