-- ===== src/Dsl/Total.antt =====
-- dsl_compare_version needs no more rounds than it is given.
use libxdxgpu_container.Base.{
  ℕ, zero, suc, ◌<◌, ◌≡◌, refl, subst, inl, inr, not, ◌||◌, Option, none, some, ◌==◌, length, arith,
  Bool-cases, Option-cases,
}
use mathlib.Core.Option.{some-injective}
use libxdxgpu_container.Base.Int.{ℤ}
use libxdxgpu_container.Libc.{Bytes, codes, skip, strspn, strtoumax, uintmax_max}
use libxdxgpu_container.Libc.NumberLaws.{length-skip, Shorter, Shorter-strtoumax}
use libxdxgpu_container.Dsl.{
  DslComparator, is_nil, minus_one, checked, read_component, compare_components, compare_loop,
  version_chars, dsl_compare_version,
}

checked-lt :
    (n : ℕ) (r : ℕ × Option Bytes) {m : ℕ} {ptr : Bytes}
    → Shorter n r.1
    → checked r ≡ some (m, ptr)
    → length ptr < n
checked-lt n (k, none) h e = cc
checked-lt n (k, some s) {m} {ptr} h e = elim (Bool-cases (k == uintmax_max)) [
  | inl b ↦ cc (rw b at e)
  | inr b ↦ subst (λ (x : ℕ × Bytes). length x.1 < n) (some-injective (k, s) (m, ptr) (rw b at e)) h
]

read_component-lt :
    (v : Bytes) {n : ℕ} {ptr : Bytes} → read_component v ≡ some (n, ptr) → length ptr < length v
unfolding read_component
read_component-lt v h = checked-lt (length v) (strtoumax v) (Shorter-strtoumax v) h

-- The value that there is.
abbrev pub Returns : Option ℤ → Type 0
Returns r = (n : ℤ) × (r ≡ some n)

compare_loop-Returns :
    (fuel : ℕ) (cmp : DslComparator) (v1 v2 : Bytes)
    → length v1 < fuel
    → Returns (compare_loop fuel cmp v1 v2)
unfolding compare_loop
compare_loop-Returns zero cmp v1 v2 h = absurd (omega arith)
compare_loop-Returns (suc fuel) cmp v1 v2 h = elim (Bool-cases (is_nil v1 || is_nil v2)) [
  | inl e ↦ rw e (_, refl)
  | inr e ↦ elim (Option-cases (read_component v1)) [
    | inl f ↦ rw (e, f) (minus_one, refl)
    | inr ((n1, p1), f) ↦ elim (Option-cases (read_component v2)) [
      | inl g ↦ rw (e, f, g) (minus_one, refl)
      | inr ((n2, p2), g) ↦ elim (Bool-cases (n1 == n2)) [
        | inl b ↦
            rw (e, f, g, b)
              (compare_loop-Returns fuel cmp (skip (codes ".") p1) (skip (codes ".") p2)
                (omega (arith, length-skip (codes ".") p1, read_component-lt v1 f)))
        | inr b ↦ rw (e, f, g, b) (compare_components cmp n1 n2, refl)
      ]
    ]
  ]
]

-- For all texts and comparators, the comparison of versions returns: a round reads at least one
-- character of the first version.
pub dsl_compare_version-Returns :
    (v1 : Bytes) (cmp : DslComparator) (v2 : Bytes) → Returns (dsl_compare_version v1 cmp v2)
unfolding dsl_compare_version
dsl_compare_version-Returns v1 cmp v2 =
    elim (Bool-cases
      (not (strspn v1 version_chars == length v1) || not (strspn v2 version_chars == length v2))) [
        | inl e ↦ rw e (minus_one, refl)
        | inr e ↦ rw e (compare_loop-Returns (suc (length v1)) cmp v1 v2 (omega arith))
      ]
