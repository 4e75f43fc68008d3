-- ===== src/Libc/TextLaws.antt =====
-- Laws of comparing, spanning and searching.
use libxdxgpu_container.Base.{
  ℕ, ◌≡◌, refl, ap, ◌↔◌, inl, inr, true, false, ◌||◌, [], ◌∷◌, ◌++◌, Option, none, some, ◌==◌,
  ==_iff, ==_refl, arith, length, take, drop, Bool-cases,
}
use libxdxgpu_container.Libc.Text.{
  Bytes, elem, strcmp_eq, strncmp_eq, strcspn, strchr, strrchr, strrchr_cons,
}

pub strcmp_eq_refl : (s : Bytes) → strcmp_eq s s ≡ true
unfolding strcmp_eq
strcmp_eq_refl [] = refl
strcmp_eq_refl (x ∷ s) = ground (arith, strcmp_eq_refl s)

pub strcmp_eq→eq : (a b : Bytes) → strcmp_eq a b ≡ true → a ≡ b
unfolding strcmp_eq
strcmp_eq→eq [] [] h = refl
strcmp_eq→eq [] (y ∷ b) h = cc
strcmp_eq→eq (x ∷ a) [] h = cc
strcmp_eq→eq (x ∷ a) (y ∷ b) h = ground (arith, strcmp_eq→eq a b)

pub eq→strcmp_eq : (a b : Bytes) → a ≡ b → strcmp_eq a b ≡ true
eq→strcmp_eq a b e = rw e (strcmp_eq_refl b)

pub strcmp_eq_iff : (a b : Bytes) → (strcmp_eq a b ≡ true) ↔ (a ≡ b)
strcmp_eq_iff a b = (strcmp_eq→eq a b, eq→strcmp_eq a b)

-- Comparing as many characters as the second text has tests for a prefix.
pub strncmp_eq-length_append : (p r : Bytes) → strncmp_eq (length p) (p ++ r) p ≡ true
unfolding strncmp_eq
strncmp_eq-length_append [] r = refl
strncmp_eq-length_append (x ∷ p) r = ground (arith, strncmp_eq-length_append p r)

pub strncmp_eq-length-drop :
    (s p : Bytes) → strncmp_eq (length p) s p ≡ true → s ≡ p ++ drop (length p) s
unfolding strncmp_eq
strncmp_eq-length-drop s [] h = refl
strncmp_eq-length-drop [] (y ∷ p) h = cc
strncmp_eq-length-drop (x ∷ s) (y ∷ p) h = ground (arith, strncmp_eq-length-drop s p)

pub elem-append : (c : ℕ) (a b : Bytes) → elem c (a ++ b) ≡ (elem c a || elem c b)
elem-append c [] b = refl
elem-append c (x ∷ a) b = ground (arith, elem-append c a b)

-- The characters before the first one of `reject`, and the rest, which begins with one.
pub elem-take-strcspn : (c : ℕ) (s : Bytes) → elem c (take (strcspn s (c ∷ [])) s) ≡ false
unfolding strcspn
elem-take-strcspn c [] = refl
elem-take-strcspn c (x ∷ s) = ground (arith, elem-take-strcspn c s)

pub take-strcspn-append :
    (c : ℕ) (s t : Bytes) → elem c s ≡ false → take (strcspn (s ++ c ∷ t) (c ∷ [])) (s ++ c ∷ t) ≡ s
unfolding strcspn
take-strcspn-append c [] t h = ground arith
take-strcspn-append c (x ∷ s) t h = ground (arith, take-strcspn-append c s t)

pub take-strcspn_self : (c : ℕ) (s : Bytes) → elem c s ≡ false → take (strcspn s (c ∷ [])) s ≡ s
unfolding strcspn
take-strcspn_self c [] h = refl
take-strcspn_self c (x ∷ s) h = ground (arith, take-strcspn_self c s)

-- What strrchr finds: the text splits before the last `c`.
abbrev pub Last : ℕ → Bytes → Option (Bytes × Bytes) → Type 0
Last c s none = elem c s ≡ false
Last c s (some (a, b)) = (t : Bytes) × (b ≡ c ∷ t) × (s ≡ a ++ b) × (elem c t ≡ false)

strrchr_cons-Last :
    (c x : ℕ) (s : Bytes) (o : Option (Bytes × Bytes))
    → Last c s o
    → Last c (x ∷ s) (strrchr_cons x c s o)
strrchr_cons-Last c x s (some (a, b)) (t, e, f, g) = (t, e, ap (◌∷◌ x) f, g)
strrchr_cons-Last c x s none h = elim (Bool-cases (x == c)) [
  | inl e ↦ rw (e, strrchr_cons) (s, ap (λ y. y ∷ s) ((==_iff x c).0 e), refl, h)
  | inr e ↦ rw (e, strrchr_cons) (ground arith)
]

pub strrchr-Last : (s : Bytes) (c : ℕ) → Last c s (strrchr s c)
unfolding strrchr
strrchr-Last [] c = refl
strrchr-Last (x ∷ s) c = strrchr_cons-Last c x s (strrchr s c) (strrchr-Last s c)

pub strchr-append : (c : ℕ) (a t : Bytes) → elem c a ≡ false → strchr (a ++ c ∷ t) c ≡ some (c ∷ t)
unfolding strchr
strchr-append c [] t h = rw (==_refl c) refl
strchr-append c (x ∷ a) t h =
    let n : (x == c) ≡ false = ground arith in rw n (strchr-append c a t (ground arith))
