-- ===== src/Base/Distinct.antt =====
-- Lists without repetition under a Boolean equality, and the pigeonhole principle.
use libxdxgpu_container.Base.Tests.{if◌then◌else◌, Bool-cases}
use libxdxgpu_container.Base.Lists.{length, All}
use Prim.Native.Nat.{suc, ◌≤◌}
use mathlib.Core.Path.{◌≡◌, refl, sym, ap, ◌∙◌}
use mathlib.Core.Logic.{◌↔◌, inl, inr}
use mathlib.Core.Bool.{Bool, true, false, ◌||◌}
use mathlib.Core.List.{List, [], ◌∷◌, ◌++◌}
use native.Mathlib.Omega.{arith}

module _ {ℓ} {A : Type ℓ} (same : A → A → Bool) where
  abbrev pub present : A → List A → Bool
  present x [] = false
  present x (y ∷ ys) = if same y x then true else present x ys

  abbrev pub Distinct : List A → Type 0
  Distinct [] = Unit
  Distinct (x ∷ xs) = (present x xs ≡ false) × Distinct xs

  remove : A → List A → List A
  remove x [] = []
  remove x (y ∷ ys) = if same y x then ys else y ∷ remove x ys

  length-remove :
      (x : A) (ys : List A) → present x ys ≡ true → length ys ≡ suc (length (remove x ys))
  unfolding remove
  length-remove x [] h = cc
  length-remove x (y ∷ ys) h = ground (arith, length-remove x ys)

  pub present-append :
      (x : A) (ys zs : List A) → present x (ys ++ zs) ≡ (present x ys || present x zs)
  present-append x [] zs = refl
  present-append x (y ∷ ys) zs = ground (arith, present-append x ys zs)

  module _ (same_iff : (x y : A) → (same x y ≡ true) ↔ (x ≡ y)) where
    different : (x z : A) → same z x ≡ false → same x z ≡ false
    different x z n = elim (Bool-cases (same x z)) [
      | inl t ↦ cc (sym n ∙ (same_iff z x).1 (sym ((same_iff x z).0 t)))
      | inr f ↦ f
    ]

    present-remove :
        (x z : A) (ys : List A)
        → same z x ≡ false
        → present z ys ≡ true
        → present z (remove x ys) ≡ true
    unfolding remove
    present-remove x z [] n h = cc
    present-remove x z (y ∷ ys) n h = elim (Bool-cases (same y x)) [
      | inl e ↦
          let k : same y z ≡ false = ap (λ u. same u z) ((same_iff y x).0 e) ∙ different x z n in
          rw (e, if◌then◌else◌) (rw k at h)
      | inr e ↦ ground (arith, present-remove x z ys n)
    ]

    All-present-remove :
        (x : A) (xs ys : List A)
        → present x xs ≡ false
        → All (λ z. present z ys ≡ true) xs
        → All (λ z. present z (remove x ys) ≡ true) xs
    All-present-remove x [] ys n h = tt
    All-present-remove x (z ∷ xs) ys n (h, hs) = elim (Bool-cases (same z x)) [
      | inl e ↦ cc (rw e at n)
      | inr e ↦ (present-remove x z ys e h, All-present-remove x xs ys (rw e at n) hs)
    ]

    -- A list without repetition is no longer than a list that holds all of it.
    pub length-le_of_Distinct :
        (xs ys : List A) → Distinct xs → All (λ z. present z ys ≡ true) xs → length xs ≤ length ys
    length-le_of_Distinct [] ys d h = omega arith
    length-le_of_Distinct (x ∷ xs) ys (n, d) (h, hs) = omega (
      arith,
      length-remove x ys h,
      length-le_of_Distinct xs (remove x ys) d (All-present-remove x xs ys n hs),
    )

    pub Distinct-concat :
        (xs : List A) (x : A) → Distinct xs → present x xs ≡ false → Distinct (xs ++ x ∷ [])
    Distinct-concat [] x d h = (refl, tt)
    Distinct-concat (y ∷ xs) x (n, d) h = elim (Bool-cases (same y x)) [
      | inl e ↦ cc (rw e at h)
      | inr e ↦ (
        rw (present-append y xs (x ∷ []), n, different x y e) refl,
        Distinct-concat xs x d (rw e at h),
      )
    ]
