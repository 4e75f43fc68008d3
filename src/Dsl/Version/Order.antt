-- ===== src/Dsl/Version/Order.antt =====
-- `dsl_compare_version` on versions.
use Prim.Native.Nat.{compare, Ordering}
use libxdxgpu_container.Base.{
  ℕ, zero, suc, ◌<◌, ◌≡◌, refl, sym, ap, ap₂, ◌∙◌, Bool, true, false, List, [], ◌∷◌, ◌++◌, ◌==◌,
  if◌then◌else◌, ==_refl, Option, some, arith, length, length-append, inl, inr, Bool-cases,
}
use libxdxgpu_container.Base.Int.{ℤ}
use libxdxgpu_container.Libc.{Bytes, codes, skip, uintmax_max}
use libxdxgpu_container.Dsl.{
  DslComparator, equal, truth, is_nil, read_component, compare_components, compare_tails,
  compare_loop, dsl_compare_version,
}
use libxdxgpu_container.Dsl.Version.{
  IsVersion, end, part, all_zero, version_order, holds, Digits, Dots, decimal,
}
use libxdxgpu_container.Dsl.Version.Scan.{
  read_component-append, skip_zeros-IsVersion, strspn-IsVersion, Dots-stop, skip-Dots,
  IsVersion-StartsDigit,
}

-- The first version has ended, and the second is all zeros or not.
tails_left :
    (cmp : DslComparator) (z : Bool)
    → compare_tails cmp true z ≡ truth (holds cmp (if z then Ordering.eq else Ordering.lt))
unfolding compare_tails
tails_left equal true = refl
tails_left _ z = ground arith

tails_right :
    (cmp : DslComparator) (z : Bool)
    → compare_tails cmp z true ≡ truth (holds cmp (if z then Ordering.eq else Ordering.gt))
unfolding compare_tails
tails_right equal true = refl
tails_right _ z = ground arith

components_differ :
    (cmp : DslComparator) (n m : ℕ) (o : Ordering)
    → (n == m) ≡ false
    → compare_components cmp n m
      ≡ truth (
          holds cmp (elim (compare n m) [
            | Ordering.lt ↦ Ordering.lt
            | Ordering.eq ↦ o
            | Ordering.gt ↦ Ordering.gt
          ]))
unfolding compare_components
components_differ equal n m o h = ground arith
components_differ _ n m o h = ground arith

components_same :
    (n m : ℕ) (o : Ordering)
    → (n == m) ≡ true
    → elim (compare n m) [ Ordering.lt ↦ Ordering.lt | Ordering.eq ↦ o | Ordering.gt ↦ Ordering.gt ]
      ≡ o
components_same n m o h = ground arith

-- What a round reads from a version that has not ended.
record Round (v : Bytes) (n : ℕ) (ns : List ℕ) : Type 0 where
  ptr : Bytes
  rest : Bytes
  goes_on : is_nil v ≡ false
  reads : read_component v ≡ some (n, ptr)
  skips : skip (codes ".") ptr ≡ rest
  shorter : length rest < length v
  version : IsVersion rest ns

read_part :
    {v rest : Bytes} {n : ℕ} {ns : List ℕ} (c : ℕ) (d dots : Bytes)
    → Digits (c ∷ d)
    → Dots dots
    → (dots ≡ [] → rest ≡ [])
    → n ≡ decimal 0 (c ∷ d)
    → n < uintmax_max
    → v ≡ (c ∷ d) ++ (dots ++ rest)
    → IsVersion rest ns
    → Round v n ns
read_part {v} {rest} c d dots h p q e b f r = record {
  ptr = dots ++ rest;
  rest = rest;
  goes_on = ap is_nil f;
  reads =
      ap read_component f
      ∙ read_component-append c d (dots ++ rest) h (Dots-stop dots rest p q) (rw e at b)
      ∙ rw e;
  skips = skip-Dots dots rest p (IsVersion-StartsDigit r);
  shorter = rw f (omega (arith, length-append (c ∷ d) (dots ++ rest), length-append dots rest));
  version = r;
}

compare_loop_round :
    (fuel : ℕ) (cmp : DslComparator) {v1 v2 : Bytes} {n m : ℕ} {ns ms : List ℕ} (r1 : Round v1 n ns)
    (r2 : Round v2 m ms)
    → compare_loop (suc fuel) cmp v1 v2 ≡ elim (n == m) [
      | true ↦ compare_loop fuel cmp r1.rest r2.rest
      | false ↦ some (compare_components cmp n m)
    ]
unfolding compare_loop
compare_loop_round fuel cmp {v1} {v2} {n} {m} r1 r2 =
    let next : Bytes → Bytes → Option ℤ = λ a b. elim (n == m) [
      | true ↦ compare_loop fuel cmp a b
      | false ↦ some (compare_components cmp n m)
    ] in
    rw (r1.goes_on, r2.goes_on, r1.reads, r2.reads) (ap₂ next r1.skips r2.skips)

compare_loop-IsVersion :
    (fuel : ℕ) (cmp : DslComparator) {v1 v2 : Bytes} {ns ms : List ℕ}
    → IsVersion v1 ns
    → IsVersion v2 ms
    → length v1 < fuel
    → compare_loop fuel cmp v1 v2 ≡ some (truth (holds cmp (version_order ns ms)))
unfolding compare_loop skip read_part
compare_loop-IsVersion zero cmp a b h = absurd (omega arith)
compare_loop-IsVersion (suc fuel) cmp {ms = ms} end b h =
    ap some (rw (skip_zeros-IsVersion b) (tails_left cmp (all_zero ms)))
compare_loop-IsVersion (suc fuel) cmp {ns = n ∷ ns} (part c d dots p q r e l f a) end h =
    let r1 = read_part c d dots p q r e l f a in
    let v1 : IsVersion _ (n ∷ ns) = part c d dots p q r e l f a in
    rw (r1.goes_on) (ap some (rw (skip_zeros-IsVersion v1) (tails_right cmp (all_zero (n ∷ ns)))))
compare_loop-IsVersion (suc fuel) cmp {ns = n ∷ ns} {ms = m ∷ ms} (part c d dots p q r e l f a)
      (part c' d' dots' p' q' r' e' l' f' b) h =
    let r1 = read_part c d dots p q r e l f a in
    let r2 = read_part c' d' dots' p' q' r' e' l' f' b in
    let ih = compare_loop-IsVersion fuel cmp a b (omega (arith, r1.shorter)) in
    compare_loop_round fuel cmp r1 r2 ∙ elim (Bool-cases (n == m)) [
      | inl s ↦ rw s (
          ih
          ∙ ap (λ o. some (truth (holds cmp o)))
              (sym (components_same n m (version_order ns ms) s)))
      | inr s ↦ rw s (ap some (components_differ cmp n m (version_order ns ms) s))
    ]

-- On two versions, `dsl_compare_version` decides its comparison of them in the order by components,
-- where a missing component counts as zero. It never fails, and its loop ends within the fuel.
pub dsl_compare_version-IsVersion :
    (cmp : DslComparator) {v1 v2 : Bytes} {ns ms : List ℕ}
    → IsVersion v1 ns
    → IsVersion v2 ms
    → dsl_compare_version v1 cmp v2 ≡ some (truth (holds cmp (version_order ns ms)))
unfolding dsl_compare_version
dsl_compare_version-IsVersion cmp {v1} {v2} a b =
    rw (strspn-IsVersion a, strspn-IsVersion b, ==_refl (length v1), ==_refl (length v2))
      (compare_loop-IsVersion (suc (length v1)) cmp a b (omega arith))
