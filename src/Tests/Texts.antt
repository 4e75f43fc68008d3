-- ===== src/Tests/Texts.antt =====
-- Strings, ids, options and requirements, for src/utils.c, src/options.c and src/cli/dsl.c.
use libxdxgpu_container.Base.{
  ℕ, ◌≡◌, ◌↔◌, refl, true, false, ◌||◌, List, [], ◌∷◌, ◌++◌, map, replicate, ◌-◌, Option, none,
  some, length, leb, if◌then◌else◌, arith,
}
use libxdxgpu_container.Base.Bits.{bit}
use libxdxgpu_container.Base.Int.{ℤ, pos}
use libxdxgpu_container.Libc.{
  Bytes, codes, tokens, strcmp_eq, strncmp_eq, strcasecmp_eq, strspn, strcspn, skip, tolower,
}
use libxdxgpu_container.Error.{ErrorState, error_vset, first_line, joined, ok, err, setx}
use libxdxgpu_container.Error.Message.{Formatted, error_vset-Formatted}
use libxdxgpu_container.Utils.Str.{str_has_prefix}
use libxdxgpu_container.Utils.Str.Laws.{str_has_prefix_iff}
use libxdxgpu_container.Utils.Array.{array_pack, array_size}
use libxdxgpu_container.Utils.Array.Pack.{present, array_pack_lem, array_size-array_pack}
use libxdxgpu_container.Utils.Ids.{Database, str_to_ugid}
use libxdxgpu_container.Utils.Ids.Decimal.{str_to_ugid-decimal, str_to_ugid-user}
use libxdxgpu_container.Options.{options_parse, nvc_arg_max}
use libxdxgpu_container.Options.Table.{container_opts}
use libxdxgpu_container.Container.Mode.{container_opts-Distinct}
use libxdxgpu_container.Options.Laws.{requested, IsReadAs, options_parse-bit, options_parse-Ends}
use libxdxgpu_container.Dsl.{
  DslRule, equal, less, truth, dsl_compare_version, dsl_evaluate, evaluate_groups, evaluate_rule,
  unsatisfied,
}
use libxdxgpu_container.Dsl.Version.{IsVersion, end, part, version_order, holds}
use libxdxgpu_container.Dsl.Version.Order.{dsl_compare_version-IsVersion}
use libxdxgpu_container.Dsl.Total.{Returns, dsl_compare_version-Returns}
use libxdxgpu_container.Dsl.Predicate.{
  any_met, is_blank, words, eval_by, dsl_evaluate-any_met, evaluate_groups-vacuous,
}

abbrev empty_error : ErrorState
empty_error = record { code = pos 0; msg = none }

error_vset-Formatted_example :
    Formatted (pos 2) (first_line (joined (codes "open: a") (codes "No such file"))) (
      error_vset
        (some empty_error)
        (pos 2)
        (some (codes "No such file"))
        (some (codes "open: a"))
        true)
error_vset-Formatted_example =
    error_vset-Formatted empty_error (pos 2) (codes "No such file") (codes "open: a")

str_has_prefix_iff_example :
    (str_has_prefix (codes "libdrm.so.2") (codes "libdrm.so") ≡ true)
    ↔ ((r : Bytes) × (codes "libdrm.so.2" ≡ codes "libdrm.so" ++ r))
str_has_prefix_iff_example = str_has_prefix_iff (codes "libdrm.so.2") (codes "libdrm.so")

abbrev holes : List (Option ℕ)
holes = none ∷ some 1 ∷ none ∷ some 2 ∷ []

array_pack_lem_example :
    (array_pack holes (length holes) ≡ (
      map some (present holes) ++ replicate (length holes - length (present holes)) none,
      length (present holes),
    ))
    × (length (array_pack holes (length holes)).0 ≡ length holes)
array_pack_lem_example = array_pack_lem holes

array_size-array_pack_example :
    array_size ((array_pack holes (length holes)).0 ++ none ∷ [])
    ≡ (array_pack holes (length holes)).1
array_size-array_pack_example = array_size-array_pack holes

abbrev no_users : Database
no_users = record {
  getpwnam = λ name. none;
  getpwuid = λ uid. some (uid, 100);
  getgrnam = λ name. none;
}

str_to_ugid-decimal_example : str_to_ugid no_users (codes "1000:50") ≡ ok (1000, 50)
str_to_ugid-decimal_example =
    str_to_ugid-decimal no_users b'1' b'5' (codes "000") (codes "0")
      (refl, (refl, (refl, (refl, tt)))) (refl, (refl, tt)) (omega arith) (omega arith)

str_to_ugid-user_example : str_to_ugid no_users (codes "1000") ≡ ok (1000, 100)
str_to_ugid-user_example =
    str_to_ugid-user no_users b'1' (codes "000") (refl, (refl, (refl, (refl, tt)))) (omega arith)

options_parse-Ends_example :
    IsReadAs
      (leb nvc_arg_max (length (codes "utility lost")))
      (codes "utility lost")
      container_opts
      (options_parse (codes "utility lost") container_opts)
options_parse-Ends_example = options_parse-Ends (codes "utility lost") container_opts

utility_flags : options_parse (codes "utility") container_opts ≡ ok 2080
unfolding options_parse tokens strcmp_eq
utility_flags = refl

options_parse-bit_example :
    bit 1 2080 ≡ requested 1 container_opts (tokens (codes " ") (codes "utility"))
options_parse-bit_example =
    options_parse-bit 1 (codes "utility") container_opts {flags = 2080} container_opts-Distinct
      utility_flags

IsVersion-9 : IsVersion (codes "9.0") (9 ∷ 0 ∷ [])
IsVersion-9 =
    part b'9' [] (codes ".") (refl, tt) (refl, tt) (λ e. cc) refl (omega arith) refl
      (part b'0' [] [] (refl, tt) tt (λ e. refl) refl (omega arith) refl end)

IsVersion-10 : IsVersion (codes "10") (10 ∷ [])
IsVersion-10 =
    part b'1' (codes "0") [] (refl, (refl, tt)) tt (λ e. refl) refl (omega arith) refl end

dsl_compare_version-IsVersion_example :
    dsl_compare_version (codes "9.0") less (codes "10")
    ≡ some (truth (holds less (version_order (9 ∷ 0 ∷ []) (10 ∷ []))))
dsl_compare_version-IsVersion_example =
    dsl_compare_version-IsVersion less {v1 = codes "9.0"} {v2 = codes "10"} {ns = 9 ∷ 0 ∷ []}
      {ms = 10 ∷ []} IsVersion-9 IsVersion-10

dsl_compare_version-Returns_example : Returns (dsl_compare_version (codes "9.x") equal (codes "10"))
dsl_compare_version-Returns_example = dsl_compare_version-Returns (codes "9.x") equal (codes "10")

abbrev brand_rules : List DslRule
brand_rules = record { name = codes "brand"; func = λ cmp val. truth true } ∷ []

dsl_evaluate-any_met_example : dsl_evaluate (codes "brand=a") brand_rules ≡ (
    if is_blank (words (codes "brand=a")) || any_met (eval_by brand_rules) (words (codes "brand=a"))
    then ok tt
    else err (setx (unsatisfied (codes "brand=a"))))
unfolding tokens evaluate_rule strspn strcspn skip strcmp_eq strncmp_eq strcasecmp_eq tolower
dsl_evaluate-any_met_example = dsl_evaluate-any_met (codes "brand=a") brand_rules (refl, refl, tt)

abbrev eval_x : Bytes → ℤ
eval_x [] = pos 1
eval_x (c ∷ s) = truth false

evaluate_groups-vacuous_example :
    evaluate_groups eval_x (pos 1) (codes "x" ∷ codes "," ∷ []) ≡ some (pos 0)
unfolding tokens
evaluate_groups-vacuous_example =
    evaluate_groups-vacuous eval_x b'x' b',' [] [] [] (pos 1) refl refl refl
