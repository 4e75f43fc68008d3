-- ===== src/Devices/Capacity.antt =====
-- How many devices there are, and that a list without repetition holds no more.
use libxdxgpu_container.Base.{
  ℕ, zero, suc, ◌+◌, ◌≤◌, ◌<◌, ◌≡◌, ◌↔◌, refl, ap, Bool, true, false, List, [], ◌∷◌, ◌++◌, none,
  some, ltb, ◌==◌, length, length-append, get_elem?, All, arith, ==_iff, ltb→lt,
}
use libxdxgpu_container.Base.Distinct.{present, Distinct, length-le_of_Distinct, present-append}
use libxdxgpu_container.Devices.{NvcDeviceInfo, MigRef, count_mig_devices, same_mig}

pub same_mig_iff : (m n : MigRef) → (same_mig m n ≡ true) ↔ (m ≡ n)
same_mig_iff (i, j) (k, l) = ground arith

-- The pointer is to an entry of the array of MIG devices of an entry of the array of GPUs.
abbrev pub is_mig : NvcDeviceInfo → MigRef → Bool
is_mig info (i, j) = elim (get_elem? info i) [
  | none ↦ false
  | some gpu ↦ ltb j (length gpu.mig_devices)
]

-- The numbers below `n`, from `i` on.
abbrev indices : ℕ → ℕ → List ℕ
indices i zero = []
indices i (suc n) = i ∷ indices (i + 1) n

length-indices : (i n : ℕ) → length (indices i n) ≡ n
length-indices i zero = refl
length-indices i (suc n) = ap suc (length-indices (i + 1) n)

present-indices : (i n k : ℕ) → i ≤ k → k < i + n → present ◌==◌ k (indices i n) ≡ true
present-indices i zero k p q = absurd (omega arith)
present-indices i (suc n) k p q = ground (arith, present-indices (i + 1) n k)

abbrev pairs : ℕ → List ℕ → List MigRef
pairs i [] = []
pairs i (j ∷ js) = (i, j) ∷ pairs i js

-- All MIG devices, from GPU `i` on.
abbrev mig_refs : ℕ → NvcDeviceInfo → List MigRef
mig_refs i [] = []
mig_refs i (gpu ∷ gpus) = pairs i (indices 0 (length gpu.mig_devices)) ++ mig_refs (i + 1) gpus

length-pairs : (i : ℕ) (js : List ℕ) → length (pairs i js) ≡ length js
length-pairs i [] = refl
length-pairs i (j ∷ js) = ap suc (length-pairs i js)

length-mig_refs : (i : ℕ) (info : NvcDeviceInfo) → length (mig_refs i info) ≡ count_mig_devices info
unfolding count_mig_devices
length-mig_refs i [] = refl
length-mig_refs i (gpu ∷ gpus) = omega (
  arith,
  length-append (pairs i (indices 0 (length gpu.mig_devices))) (mig_refs (i + 1) gpus),
  length-pairs i (indices 0 (length gpu.mig_devices)),
  length-indices 0 (length gpu.mig_devices),
  length-mig_refs (i + 1) gpus,
)

present-pairs :
    (i j : ℕ) (js : List ℕ) → present ◌==◌ j js ≡ true → present same_mig (i, j) (pairs i js) ≡ true
present-pairs i j [] h = cc
present-pairs i j (k ∷ js) h = ground (arith, present-pairs i j js)

present-mig_refs :
    (i k j : ℕ) (info : NvcDeviceInfo)
    → is_mig info (k, j) ≡ true
    → present same_mig (i + k, j) (mig_refs i info) ≡ true
present-mig_refs i k j [] h = cc
present-mig_refs i zero j (gpu ∷ gpus) h =
    let own = pairs i (indices 0 (length gpu.mig_devices)) in
    let same_gpu : i + 0 ≡ i = omega arith in
    let here : present same_mig (i, j) own ≡ true =
      present-pairs i j (indices 0 (length gpu.mig_devices)) (
        present-indices 0 (length gpu.mig_devices) j (omega arith)
          (omega (arith, ltb→lt j (length gpu.mig_devices) h))) in
    rw (same_gpu, present-append same_mig (i, j) own (mig_refs (i + 1) gpus), here) refl
present-mig_refs i (suc k) j (gpu ∷ gpus) h =
    let own = pairs i (indices 0 (length gpu.mig_devices)) in
    let next : i + suc k ≡ i + 1 + k = omega arith in
    rw (next, present-append same_mig (i + 1 + k, j) own (mig_refs (i + 1) gpus))
      (ground (arith, present-mig_refs (i + 1) k j gpus h))

present-indices-All :
    (info : NvcDeviceInfo) (gpus : List ℕ)
    → All (λ i. i < length info) gpus
    → All (λ i. present ◌==◌ i (indices 0 (length info)) ≡ true) gpus
present-indices-All info [] h = tt
present-indices-All info (i ∷ gpus) (h, hs) = (
  present-indices 0 (length info) i (omega arith) (omega arith),
  present-indices-All info gpus hs,
)

present-mig_refs-All :
    (info : NvcDeviceInfo) (migs : List MigRef)
    → All (λ m. is_mig info m ≡ true) migs
    → All (λ m. present same_mig m (mig_refs 0 info) ≡ true) migs
present-mig_refs-All info [] h = tt
present-mig_refs-All info ((i, j) ∷ migs) (h, hs) =
    let zero_add : 0 + i ≡ i = omega arith in
    (rw zero_add at (present-mig_refs 0 i j info h), present-mig_refs-All info migs hs)

-- No selection is longer than the number of devices.
pub length-gpus_le :
    (info : NvcDeviceInfo) (gpus : List ℕ)
    → Distinct ◌==◌ gpus
    → All (λ i. i < length info) gpus
    → length gpus ≤ length info
length-gpus_le info gpus d h = omega (
  arith,
  length-le_of_Distinct ◌==◌ ==_iff gpus (indices 0 (length info)) d
      (present-indices-All info gpus h),
  length-indices 0 (length info),
)

pub length-migs_le :
    (info : NvcDeviceInfo) (migs : List MigRef)
    → Distinct same_mig migs
    → All (λ m. is_mig info m ≡ true) migs
    → length migs ≤ count_mig_devices info
length-migs_le info migs d h = omega (
  arith,
  length-le_of_Distinct same_mig same_mig_iff migs (mig_refs 0 info) d
      (present-mig_refs-All info migs h),
  length-mig_refs 0 info,
)
