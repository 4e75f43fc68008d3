-- ===== src/Devices/Found.antt =====
-- The devices that the search functions find are devices that there are.
use libxdxgpu_container.Base.{
  ℕ, zero, suc, ◌+◌, ◌<◌, ◌≡◌, refl, sym, ap, subst, ◌∙◌, ◌⊎◌, inl, inr, Bool, true, ◌&&◌, List, [],
  ◌∷◌, Option, none, some, ltb, if◌then◌else◌, length, get_elem?, arith, ltb→lt, Bool-cases,
  Option-cases, All,
}
use mathlib.Core.Option.{some-injective}
use libxdxgpu_container.Libc.{Bytes, strtoumax, strncasecmp_eq}
use libxdxgpu_container.Devices.Pci.{matches_pci_format, busid_buffer}
use libxdxgpu_container.Devices.{NvcMigDevice, NvcDevice, NvcDeviceInfo, MigRef}
use libxdxgpu_container.Devices.Capacity.{is_mig}
use libxdxgpu_container.Devices.Select.{
  index_below, mig_at, find_from, find_busid, find_gpu, find_mig, find_mig_from, scan_mig_index,
  mig_prefix, or_next, same_uuid, text_behind, parent_of,
}

pub find_from-some :
    {A : Type 0} (test : A → Bool) (i : ℕ) (xs : List A) {k : ℕ}
    → find_from test i xs ≡ some k
    → (x : A) × (j : ℕ) × (k ≡ i + j) × (get_elem? xs j ≡ some x) × (test x ≡ true)
unfolding find_from
find_from-some test i [] h = cc
find_from-some test i (x ∷ xs) {k} h = elim (Bool-cases (test x)) [
  | inl e ↦ (x, 0, (let s : some i ≡ some k = rw e at h in ground arith), refl, e)
  | inr e ↦
      let (y, j, p, q, t) = find_from-some test (i + 1) xs (rw e at h) in
      (y, suc j, omega arith, q, t)
]

get_elem?-lt : {A : Type 0} (xs : List A) (j : ℕ) {x : A} → get_elem? xs j ≡ some x → j < length xs
get_elem?-lt [] j h = cc
get_elem?-lt (y ∷ xs) zero h = omega arith
get_elem?-lt (y ∷ xs) (suc j) h = omega (arith, get_elem?-lt xs j h)

find_from-lt :
    {A : Type 0} (test : A → Bool) (xs : List A) {k : ℕ}
    → find_from test 0 xs ≡ some k
    → k < length xs
find_from-lt test xs h =
    let (x, j, p, q, t) = find_from-some test 0 xs h in omega (arith, get_elem?-lt xs j q)

or_next-some :
    {A : Type 0} (a b : Option A) {x : A} → or_next a b ≡ some x → (a ≡ some x) ⊎ (b ≡ some x)
or_next-some none b h = inr h
or_next-some (some a) b h = inl h

find_busid-lt :
    (dev : Bytes) (info : NvcDeviceInfo) {k : ℕ} → find_busid dev info ≡ some k → k < length info
unfolding find_busid
find_busid-lt dev info {k} h = elim (Option-cases (matches_pci_format dev busid_buffer)) [
  | inl e ↦ cc (rw (e, find_busid) at h)
  | inr (buf, e) ↦
      find_from-lt (λ (gpu : NvcDevice). strncasecmp_eq (length buf) gpu.busid buf) info
        (rw (e, find_busid) at h)
]

index_below-lt : (size : ℕ) (r : ℕ × Option Bytes) {k : ℕ} → index_below size r ≡ some k → k < size
index_below-lt size (n, some []) {k} h = ground arith
index_below-lt size (n, some (c ∷ s)) h = cc
index_below-lt size (n, none) h = cc

-- A GPU that is found is one of the array.
pub find_gpu-lt :
    (outside dev : Bytes) (rest : Option Bytes) (info : NvcDeviceInfo) {k : ℕ}
    → find_gpu outside dev rest info ≡ some k
    → k < length info
unfolding find_gpu
find_gpu-lt outside dev rest info {k} h = elim (or_next-some _ _ h) [
  | inl uuid ↦
      find_from-lt (λ (gpu : NvcDevice). same_uuid gpu.uuid (text_behind outside dev rest)) info
        uuid
  | inr other ↦ elim (or_next-some _ _ other) [
    | inl busid ↦ find_busid-lt dev info busid
    | inr index ↦ index_below-lt (length info) (strtoumax dev) index
  ]
]

is_mig-lt :
    (info : NvcDeviceInfo) (i j : ℕ) {gpu : NvcDevice}
    → get_elem? info i ≡ some gpu
    → j < length gpu.mig_devices
    → is_mig info (i, j) ≡ true
is_mig-lt info i j e h = rw (e, is_mig) (ground arith)

find_mig_from-is_mig :
    (dev : Bytes) (i : ℕ) (gpus : List NvcDevice) {m : MigRef}
    → find_mig_from dev i gpus ≡ some m
    → (k j : ℕ) × (m ≡ (i + k, j)) × (is_mig gpus (k, j) ≡ true)
unfolding find_mig_from
find_mig_from-is_mig dev i [] h = cc
find_mig_from-is_mig dev i (gpu ∷ gpus) {m} h =
    elim (Option-cases
      (find_from (λ (mig : NvcMigDevice). same_uuid mig.uuid dev) 0 gpu.mig_devices)) [
        | inl e ↦
            let (k, j, p, q) = find_mig_from-is_mig dev (i + 1) gpus (rw (e, find_mig_from) at h) in
            (
              suc k,
              j,
              p ∙ ap (λ (n : ℕ). (n, j)) (let n : i + 1 + k ≡ i + suc k = omega arith in n),
              q,
            )
        | inr (j, e) ↦
            let s : some (i, j) ≡ some m = rw (e, find_mig_from) at h in
            (
              0,
              j,
              sym (some-injective (i, j) m s)
                  ∙ ap (λ (n : ℕ). (n, j)) (let n : i ≡ i + 0 = omega arith in n),
              is_mig-lt (gpu ∷ gpus) 0 j refl
                  (find_from-lt (λ (mig : NvcMigDevice). same_uuid mig.uuid dev) gpu.mig_devices e),
            )
      ]

mig_at-is_mig :
    (info : NvcDeviceInfo) (i j : ℕ) {m : MigRef}
    → mig_at info (i, j) ≡ some m
    → is_mig info m ≡ true
mig_at-is_mig info i j {m} h = elim (Option-cases (get_elem? info i)) [
  | inl e ↦ cc (rw (e, mig_at) at h)
  | inr (gpu, e) ↦ elim (Bool-cases (ltb j (length gpu.mig_devices))) [
    | inl l ↦
        let s : some (i, j) ≡ some m = rw l at (rw (e, mig_at) at h) in
        rw (sym (some-injective (i, j) m s))
          (is_mig-lt info i j e (ltb→lt j (length gpu.mig_devices) l))
    | inr l ↦ cc (rw l at (rw (e, mig_at) at h))
  ]
]

-- A MIG device that is found is one of the array of a GPU.
pub find_mig-is_mig :
    (dev : Bytes) (info : NvcDeviceInfo) {m : MigRef}
    → find_mig dev info ≡ some m
    → is_mig info m ≡ true
unfolding find_mig
find_mig-is_mig dev info {m} h =
    elim (or_next-some
      (if strncasecmp_eq 4 dev mig_prefix && ltb 4 (length dev)
        then find_mig_from dev 0 info
        else none)
      (elim (scan_mig_index dev) as (λ x. Option MigRef) [
        | none ↦ none
        | some index ↦ mig_at info index
      ])
      h) [
        | inl uuid ↦ elim (Bool-cases (strncasecmp_eq 4 dev mig_prefix && ltb 4 (length dev))) [
          | inl b ↦
              let (k, j, p, q) = find_mig_from-is_mig dev 0 info (rw b at uuid) in
              let n : 0 + k ≡ k = omega arith in rw (p, n) q
          | inr b ↦ cc (rw b at uuid)
        ]
        | inr index ↦ elim (Option-cases (scan_mig_index dev)) [
          | inl e ↦ cc (rw e at index)
          | inr ((i, j), e) ↦ mig_at-is_mig info i j (rw e at index)
        ]
      ]

-- The parent of every MIG device is an entry of the array of GPUs.
abbrev pub ParentsExist : NvcDeviceInfo → Type 0
ParentsExist info =
    All
      (λ (gpu : NvcDevice). All (λ (mig : NvcMigDevice). mig.parent < length info) gpu.mig_devices)
      info

All-get_elem? :
    {A : Type 0} (P : A → Type 0) (xs : List A) (j : ℕ) {x : A}
    → All P xs
    → get_elem? xs j ≡ some x
    → P x
All-get_elem? P [] j a h = cc
All-get_elem? P (y ∷ xs) zero {x} a h = subst P (some-injective y x h) a.0
All-get_elem? P (y ∷ xs) (suc j) a h = All-get_elem? P xs j a.1 h

get_elem?-some :
    {A : Type 0} (xs : List A) (j : ℕ) → j < length xs → (x : A) × (get_elem? xs j ≡ some x)
get_elem?-some [] j h = absurd (omega arith)
get_elem?-some (x ∷ xs) zero h = (x, refl)
get_elem?-some (x ∷ xs) (suc j) h = get_elem?-some xs j (omega arith)

pub parent_of-lt :
    (info : NvcDeviceInfo) (m : MigRef)
    → ParentsExist info
    → is_mig info m ≡ true
    → parent_of info m < length info
parent_of-lt info (i, j) ps v = elim (Option-cases (get_elem? info i)) [
  | inl e ↦ cc (rw (e, is_mig) at v)
  | inr (gpu, e) ↦
      let (mig, f) =
        get_elem?-some gpu.mig_devices j
          (ltb→lt j (length gpu.mig_devices) (rw (e, is_mig) at v)) in
      let own = All-get_elem? _ info i ps e in
      rw (e, parent_of) (rw f (All-get_elem? _ gpu.mig_devices j own f))
]
