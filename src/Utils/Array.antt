-- ===== src/Utils/Array.antt =====
-- src/utils.c: arrays of pointers to texts. An entry is `none` where the pointer is NULL.
pub mod Pack
use libxdxgpu_container.Base.{
  ℕ, zero, suc, ◌+◌, List, [], ◌∷◌, ◌++◌, Option, none, some, set, get_elem?, replicate,
}

-- `array_new`: calloc fills with NULL.
unfoldable pub array_new {ℓ} : {A : Type ℓ} → ℕ → List (Option A)
array_new size = replicate size none

-- `*arr` for an index in range; NULL behind the end.
abbrev pub at {ℓ} : {A : Type ℓ} → List (Option A) → ℕ → Option A
at arr i = elim (get_elem? arr i) [ none ↦ none | some x ↦ x ]

-- `tmp = *arr; *arr = *ptr; *ptr = tmp` for `arr` at `w` and `ptr` at `i`
unfoldable pub swap {ℓ} : {A : Type ℓ} → List (Option A) → ℕ → ℕ → List (Option A)
swap arr w i = set (set arr w (at arr i)) i (at arr w)

-- The loop of `array_pack`, with `n` elements left at `ptr = i`, the next place `w` to fill.
-- The result is the array and its new size.
unfoldable pub pack_loop {ℓ} : {A : Type ℓ} → ℕ → List (Option A) → ℕ → ℕ → List (Option A) × ℕ
unfolding swap
pack_loop zero arr i w = (arr, w)
pack_loop (suc n) arr i w = elim (at arr i) [
  | none ↦ pack_loop n arr (i + 1) w
  | some x ↦ pack_loop n (swap arr w i) (i + 1) (w + 1)
]

-- `array_pack` on an array that is not NULL, of `size` elements.
unfoldable pub array_pack {ℓ} : {A : Type ℓ} → List (Option A) → ℕ → List (Option A) × ℕ
unfolding pack_loop
array_pack arr size = pack_loop size arr 0 0

-- `array_size`: the entries before the first NULL. The loop has no other bound.
unfoldable pub array_size {ℓ} : {A : Type ℓ} → List (Option A) → ℕ
array_size [] = 0
array_size (none ∷ arr) = 0
array_size (some x ∷ arr) = suc (array_size arr)
