-- ===== src/Utils/Array/Pack.antt =====
-- `array_pack` moves the entries that are not NULL to the front, in order.
use libxdxgpu_container.Base.{
  ℕ, zero, suc, ◌+◌, ◌-◌, ◌≡◌, refl, ap, ap₂, ◌∙◌, List, [], ◌∷◌, ◌++◌, map, Option, none, some,
  set, replicate, length, arith, length-append, length-replicate, append-nil, append_assoc,
}
use native.Mathlib.Nat.{add-zero}
use libxdxgpu_container.Utils.Array.{at, swap, pack_loop, array_pack, array_size}

module _ {ℓ} {A : Type ℓ} where
  -- The entries that are not NULL, in order.
  abbrev pub present : List (Option A) → List A
  present [] = []
  present (none ∷ arr) = present arr
  present (some x ∷ arr) = x ∷ present arr

  abbrev pub nulls : List (Option A) → ℕ
  nulls [] = 0
  nulls (none ∷ arr) = suc (nulls arr)
  nulls (some x ∷ arr) = nulls arr

  at-append_cons :
      (p : List (Option A)) (o : Option A) (r : List (Option A)) (i : ℕ)
      → i ≡ length p
      → at (p ++ o ∷ r) i ≡ o
  at-append_cons [] o r zero e = refl
  at-append_cons [] o r (suc i) e = absurd (omega arith)
  at-append_cons (q ∷ p) o r zero e = absurd (omega arith)
  at-append_cons (q ∷ p) o r (suc i) e = at-append_cons p o r i (omega arith)

  set-append_cons :
      (p : List (Option A)) (o : Option A) (r : List (Option A)) (v : Option A) (i : ℕ)
      → i ≡ length p
      → set (p ++ o ∷ r) i v ≡ p ++ v ∷ r
  set-append_cons [] o r v zero e = refl
  set-append_cons [] o r v (suc i) e = absurd (omega arith)
  set-append_cons (q ∷ p) o r v zero e = absurd (omega arith)
  set-append_cons (q ∷ p) o r v (suc i) e = ap (◌∷◌ q) (set-append_cons p o r v i (omega arith))

  length-map-some : (xs : List A) → length (map some xs) ≡ length xs
  length-map-some [] = refl
  length-map-some (x ∷ xs) = ap suc (length-map-some xs)

  map-append_one :
      (xs : List A) (x : A) (r : List (Option A))
      → map some xs ++ some x ∷ r ≡ map some (xs ++ x ∷ []) ++ r
  map-append_one [] x r = refl
  map-append_one (y ∷ xs) x r = ap (◌∷◌ (some y)) (map-append_one xs x r)

  replicate-cons :
      (m : ℕ) (r : List (Option A)) → replicate m none ++ none ∷ r ≡ none ∷ (replicate m none ++ r)
  replicate-cons zero r = refl
  replicate-cons (suc m) r = ap (◌∷◌ none) (replicate-cons m r)

  -- The state of the loop: the entries found, `m` places that are NULL, and what is still to read.
  abbrev state : List A → ℕ → List (Option A) → List (Option A)
  state xs m r = map some xs ++ (replicate m none ++ r)

  at-state :
      (xs : List A) (m : ℕ) (o : Option A) (r : List (Option A)) (i : ℕ)
      → i ≡ length xs + m
      → at (state xs m (o ∷ r)) i ≡ o
  at-state [] m o r i e =
      at-append_cons (replicate m none) o r i
        (omega (arith, length-replicate {A = Option A} m none))
  at-state (x ∷ xs) m o r zero e = absurd (omega arith)
  at-state (x ∷ xs) m o r (suc i) e = at-state xs m o r i (omega arith)

  swap_at :
      (xs : List A) (m : ℕ) (x : A) (r : List (Option A)) (w i : ℕ)
      → w ≡ length xs
      → i ≡ length xs + m
      → swap (state xs m (some x ∷ r)) w i ≡ state (xs ++ x ∷ []) m r
  unfolding swap
  swap_at [] zero x r zero zero p q = refl
  swap_at [] m x r (suc w) i p q = absurd (omega arith)
  swap_at [] zero x r zero (suc i) p q = absurd (omega arith)
  swap_at [] (suc m) x r zero zero p q = absurd (omega arith)
  swap_at [] (suc m) x r zero (suc i) p q =
      let e : i ≡ length (replicate {A = Option A} m none) =
        omega (arith, length-replicate {A = Option A} m none) in
      ap₂ ◌∷◌ (at-append_cons (replicate m none) (some x) r i e)
        (set-append_cons (replicate m none) (some x) r none i e ∙ replicate-cons m r)
  swap_at (y ∷ xs) m x r (suc w) (suc i) p q =
      ap (◌∷◌ (some y)) (swap_at xs m x r w i (omega arith) (omega arith))
  swap_at (y ∷ xs) m x r zero i p q = absurd (omega arith)
  swap_at (y ∷ xs) m x r (suc w) zero p q = absurd (omega arith)

  state_skip :
      (xs : List A) (m : ℕ) (r : List (Option A)) → state xs m (none ∷ r) ≡ state xs (suc m) r
  state_skip xs m r = ap (λ l. map some xs ++ l) (replicate-cons m r)

  -- Where the loop ends, from such a state.
  pack_loop-state :
      (r : List (Option A)) (xs : List A) (m i w : ℕ)
      → w ≡ length xs
      → i ≡ length xs + m
      → pack_loop (length r) (state xs m r) i w
        ≡ (state (xs ++ present r) (m + nulls r) [], length (xs ++ present r))
  unfolding pack_loop
  pack_loop-state [] xs m i w p q = simp (append-nil, add-zero, p)
  pack_loop-state (none ∷ r) xs m i w p q =
      rw (at-state xs m none r i q, pack_loop)
        (ap (λ l. pack_loop (length r) l (i + 1) w) (state_skip xs m r)
          ∙ pack_loop-state r xs (suc m) (i + 1) w p (omega arith)
          ∙ ap (λ k. (state (xs ++ present r) k [], length (xs ++ present r)))
              (let e : suc m + nulls r ≡ m + suc (nulls r) = omega arith in e))
  pack_loop-state (some x ∷ r) xs m i w p q =
      rw (at-state xs m (some x) r i q, pack_loop)
        (ap (λ l. pack_loop (length r) l (i + 1) (w + 1)) (swap_at xs m x r w i p q)
          ∙ pack_loop-state r (xs ++ x ∷ []) m (i + 1) (w + 1)
              (omega (arith, length-append xs (x ∷ []))) (omega (arith, length-append xs (x ∷ [])))
          ∙ ap (λ l. (state l (m + nulls r) [], length l)) (append_assoc xs (x ∷ []) (present r)))

  present_all : (arr : List (Option A)) → length (present arr) + nulls arr ≡ length arr
  present_all [] = omega arith
  present_all (none ∷ arr) = omega (arith, present_all arr)
  present_all (some x ∷ arr) = omega (arith, present_all arr)

  packed :
      (arr : List (Option A))
      → array_pack arr (length arr) ≡ (
        map some (present arr) ++ replicate (length arr - length (present arr)) none,
        length (present arr),
      )
  unfolding array_pack
  packed arr =
      let left : 0 + nulls arr ≡ length arr - length (present arr) =
        omega (arith, present_all arr) in
      pack_loop-state arr [] 0 0 0 (omega arith) (omega arith)
      ∙ ap (λ l. (map some (present arr) ++ l, length (present arr)))
          (append-nil _ ∙ ap (λ k. replicate k none) left)

  -- `array_pack` leaves the entries that are not NULL in front, in their order, NULL in every place
  -- behind them, and the number of entries that are not NULL as the size. The array keeps its length.
  pub array_pack_lem :
      (arr : List (Option A))
      → (array_pack arr (length arr) ≡ (
        map some (present arr) ++ replicate (length arr - length (present arr)) none,
        length (present arr),
      ))
        × (length (array_pack arr (length arr)).0 ≡ length arr)
  array_pack_lem arr = (
    packed arr,
    rw (packed arr) (
        omega (
          arith,
          length-append (map some (present arr))
              (replicate (length arr - length (present arr)) none),
          length-map-some (present arr),
          length-replicate {A = Option A} (length arr - length (present arr)) none,
          present_all arr,
        )),
  )

  array_size_front :
      (xs : List A) (m : ℕ)
      → array_size ((map some xs ++ replicate m none) ++ none ∷ []) ≡ length xs
  unfolding array_size
  array_size_front [] zero = refl
  array_size_front [] (suc m) = refl
  array_size_front (x ∷ xs) m = ap suc (array_size_front xs m)

  -- After `array_pack`, with a NULL behind the array, `array_size` counts what the size says.
  pub array_size-array_pack :
      (arr : List (Option A))
      → array_size ((array_pack arr (length arr)).0 ++ none ∷ []) ≡ (array_pack arr (length arr)).1
  array_size-array_pack arr = rw (packed arr) (array_size_front (present arr) _)
