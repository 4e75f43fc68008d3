-- ===== src/Devices/Select.antt =====
-- src/cli/common.c: reading the lists of devices given on the command line.
use libxdxgpu_container.Base.{
  ℕ, ◌+◌, Bool, true, ◌&&◌, List, [], ◌∷◌, Option, none, some, ltb, ◌==◌, if◌then◌else◌, length,
  get_elem?,
}
use libxdxgpu_container.Libc.{
  Bytes, codes, strcasecmp_eq, strncasecmp_eq, strtoumax, uintmax_max, token_rests,
}
use libxdxgpu_container.Error.{setx, Result, ok, err, ◌>>=◌}
use libxdxgpu_container.Utils.Str.{str_case_equal}
use libxdxgpu_container.Devices.{
  NvcMigDevice, NvcDevice, NvcDeviceInfo, MigRef, Devices, add_gpu_device, add_mig_device, within,
  select_all_devices,
}
use libxdxgpu_container.Devices.Pci.{matches_pci_format, busid_buffer}

-- The first element that passes a test, by its index from `i` on.
unfoldable pub find_from {ℓ} : {A : Type ℓ} → (A → Bool) → ℕ → List A → Option ℕ
find_from test i [] = none
find_from test i (x ∷ xs) = if test x then some i else find_from test (i + 1) xs

-- `dev + 2`, for a token that is not empty: in a token of one character this lies behind the
-- terminator that strsep wrote, in what strsep left the pointer at, or outside the list.
unfoldable pub text_behind : Bytes → Bytes → Option Bytes → Bytes
text_behind outside [] rest = outside
text_behind outside (c ∷ []) none = outside
text_behind outside (c ∷ []) (some rest) = rest
text_behind outside (c ∷ d ∷ dev) rest = dev

-- strlen(uuid) == strlen(tmp) and then !strcasecmp(uuid, tmp)
abbrev pub same_uuid : Bytes → Bytes → Bool
same_uuid uuid text = length uuid == length text && strcasecmp_eq uuid text

-- The index of a bus id, if the token has the format of one.
unfoldable pub find_busid : Bytes → NvcDeviceInfo → Option ℕ
unfolding find_from
find_busid dev available = elim (matches_pci_format dev busid_buffer) [
  | none ↦ none
  | some buf ↦
      find_from (λ (gpu : NvcDevice). strncasecmp_eq (length buf) gpu.busid buf) 0 available
]

-- `*ptr == '\0' && n < UINTMAX_MAX && n < available->ngpus`
abbrev pub index_below : ℕ → ℕ × Option Bytes → Option ℕ
index_below size (n, some []) = if ltb n uintmax_max && ltb n size then some n else none
index_below size (n, some (c ∷ s)) = none
index_below size (n, none) = none

unfoldable pub find_index : Bytes → NvcDeviceInfo → Option ℕ
find_index dev available = index_below (length available) (strtoumax dev)

abbrev pub or_next {ℓ} : {A : Type ℓ} → Option A → Option A → Option A
or_next none b = b
or_next (some a) b = some a

-- The GPU that a token means: by UUID behind two characters, by bus id, or by index.
unfoldable pub find_gpu : Bytes → Bytes → Option Bytes → NvcDeviceInfo → Option ℕ
unfolding find_from text_behind find_busid find_index
find_gpu outside dev rest available =
    or_next
      (find_from (λ (gpu : NvcDevice). same_uuid gpu.uuid (text_behind outside dev rest)) 0
        available)
      (or_next (find_busid dev available) (find_index dev available))

-- `select_gpu_device`: the GPU found, and the selection with it.
unfoldable pub select_gpu_device :
    Bytes → Bytes → Option Bytes → NvcDeviceInfo → Devices → Result (Option ℕ × Devices)
unfolding find_gpu
select_gpu_device outside dev rest available selected = elim (find_gpu outside dev rest available) [
  | none ↦ ok (none, selected)
  | some gpu ↦ do
    d ← within (codes "error adding GPU device") (add_gpu_device gpu selected)
    ok (some gpu, d)
]

-- The first MIG device with a UUID, from GPU `i` on.
unfoldable pub find_mig_from : Bytes → ℕ → List NvcDevice → Option MigRef
unfolding find_from
find_mig_from dev i [] = none
find_mig_from dev i (gpu ∷ gpus) =
    elim (find_from (λ (mig : NvcMigDevice). same_uuid mig.uuid dev) 0 gpu.mig_devices) [
      | none ↦ find_mig_from dev (i + 1) gpus
      | some j ↦ some (i, j)
    ]

abbrev pub mig_prefix : Bytes
mig_prefix = codes "MIG-"

-- sscanf(dev, "%lu:%lu", &i, &j) == 2
abbrev pub second_number : ℕ → ℕ × Option Bytes → Option (ℕ × ℕ)
second_number i (j, none) = none
second_number i (j, some rest) = some (i, j)

abbrev pub behind_colon : ℕ × Option Bytes → Option (ℕ × ℕ)
behind_colon (i, none) = none
behind_colon (i, some []) = none
behind_colon (i, some (c ∷ s)) = if c == b':' then second_number i (strtoumax s) else none

unfoldable pub scan_mig_index : Bytes → Option (ℕ × ℕ)
scan_mig_index dev = behind_colon (strtoumax dev)

-- `i < available->ngpus`, and `j < gpu->mig_devices.ndevices`
abbrev pub mig_at : NvcDeviceInfo → ℕ × ℕ → Option MigRef
mig_at available (i, j) = elim (get_elem? available i) [
  | none ↦ none
  | some gpu ↦ if ltb j (length gpu.mig_devices) then some (i, j) else none
]

unfoldable pub find_mig : Bytes → NvcDeviceInfo → Option MigRef
unfolding find_mig_from scan_mig_index
find_mig dev available =
    or_next
      (if strncasecmp_eq 4 dev mig_prefix && ltb 4 (length dev)
        then find_mig_from dev 0 available
        else none)
      (elim (scan_mig_index dev) [ none ↦ none | some index ↦ mig_at available index ])

-- `(*mig)->parent`
abbrev pub parent_of : NvcDeviceInfo → MigRef → ℕ
parent_of available (i, j) = elim (get_elem? available i) [
  | none ↦ i
  | some gpu ↦ elim (get_elem? gpu.mig_devices j) [ none ↦ i | some mig ↦ mig.parent ]
]

unfoldable pub select_mig_device :
    Bytes → NvcDeviceInfo → Devices → Result (Option MigRef × Devices)
unfolding find_mig
select_mig_device dev available selected = elim (find_mig dev available) [
  | none ↦ ok (none, selected)
  | some mig ↦ do
    d ← within (codes "error adding MIG device") (add_mig_device mig selected)
    d' ← within (codes "error adding GPU device") (add_gpu_device (parent_of available mig) d)
    ok (some mig, d')
]

-- A token that is neither empty nor "all".
unfoldable pub select_device :
    Bytes → Bytes → Option Bytes → NvcDeviceInfo → Devices → Result Devices
unfolding select_gpu_device select_mig_device
select_device outside dev rest gpus selected = do
  (gpu, d) ← select_gpu_device outside dev rest gpus selected
  elim gpu [
    | some i ↦ ok d
    | none ↦ do
      (mig, d') ← select_mig_device dev gpus d
      elim mig [ some m ↦ ok d' | none ↦ err (setx (codes "unknown device")) ]
  ]

-- `error_setx(err, "%s: %s", dev, ierr.msg)`
unfoldable pub select_loop :
    Bytes → NvcDeviceInfo → List (Bytes × Option Bytes) → Devices → Result Devices
unfolding select_device
select_loop outside gpus [] d = ok d
select_loop outside gpus (([], rest) ∷ ts) d = select_loop outside gpus ts d
select_loop outside gpus ((c ∷ dev, rest) ∷ ts) d =
    if str_case_equal (c ∷ dev) (codes "all")
    then (do d' ← within (c ∷ dev) (select_all_devices gpus d); ok (record d' { all = true }))
    else (do
      d' ← within (c ∷ dev) (select_device outside (c ∷ dev) rest gpus d)
      select_loop outside gpus ts d')

-- `select_devices`; the list is `none` where it is NULL. `outside` is the memory behind the list.
unfoldable pub select_devices : Bytes → Option Bytes → NvcDeviceInfo → Devices → Result Devices
unfolding select_loop
select_devices outside none gpus selected = ok selected
select_devices outside (some devs) gpus selected =
    select_loop outside gpus (token_rests (codes ",") devs) selected
