-- ===== src/Devices.antt =====
-- src/cli/common.c: selecting GPUs and MIG devices. A pointer into the array of GPUs is its index, a
-- pointer to a MIG device the index of its GPU and its own.
pub mod Pci
pub mod Select
pub mod Capacity
pub mod Invariant
pub mod AllDevices
pub mod Found
pub mod Chosen
pub mod Wanted
pub mod Outcome
use libxdxgpu_container.Base.{
  ℕ, zero, suc, ◌+◌, Bool, true, false, ◌&&◌, ◌||◌, List, [], ◌∷◌, ◌++◌, Option, none, some, ltb,
  ◌==◌, if◌then◌else◌, length,
}
use libxdxgpu_container.Libc.{Bytes, codes}
use libxdxgpu_container.Error.{Failure, setx, set_errno, unset, Result, ok, err, ◌>>=◌}

-- `struct nvc_mig_device`
pub record NvcMigDevice : Type 0 where
  pub parent : ℕ
  pub uuid : Bytes
  pub gi : ℕ
  pub ci : ℕ
  pub gi_caps_path : Bytes
  pub ci_caps_path : Bytes

-- `struct nvc_device`, with its array of MIG devices. `arch` and `brand` may be NULL.
pub record NvcDevice : Type 0 where
  pub model : Bytes
  pub uuid : Bytes
  pub busid : Bytes
  pub arch : Option Bytes
  pub brand : Option Bytes
  pub node_path : Bytes
  pub node_id : ℕ
  pub mig_capable : Bool
  pub mig_caps_path : Option Bytes
  pub mig_devices : List NvcMigDevice

-- `struct nvc_device_info`
abbrev pub NvcDeviceInfo : Type 0
NvcDeviceInfo = List NvcDevice

-- A pointer to a MIG device.
abbrev pub MigRef : Type 0
MigRef = ℕ × ℕ

-- `struct devices`. The lists are the arrays' first `ngpus` and `nmigs` entries.
pub record Devices : Type 0 where
  pub all : Bool
  pub gpus : List ℕ
  pub max_gpus : ℕ
  pub migs : List MigRef
  pub max_migs : ℕ

unfoldable pub count_mig_devices : NvcDeviceInfo → ℕ
count_mig_devices [] = 0
count_mig_devices (gpu ∷ gpus) = length gpu.mig_devices + count_mig_devices gpus

unfoldable pub new_devices : NvcDeviceInfo → Devices
unfolding count_mig_devices
new_devices dev = record {
  all = false;
  gpus = [];
  max_gpus = length dev;
  migs = [];
  max_migs = count_mig_devices dev;
}

-- `already_present`, at the two types of pointers.
abbrev pub same_mig : MigRef → MigRef → Bool
same_mig (i, j) (k, l) = i == k && j == l

unfoldable pub already_present {ℓ} : {A : Type ℓ} → (A → A → Bool) → A → List A → Bool
already_present same ptr [] = false
already_present same ptr (p ∷ ptrs) = if same p ptr then true else already_present same ptr ptrs

unfoldable pub add_gpu_device : ℕ → Devices → Result Devices
unfolding already_present
add_gpu_device gpu d =
    if already_present ◌==◌ gpu d.gpus
    then ok d
    else if ltb d.max_gpus (length d.gpus + 1)
    then err (setx (codes "exceeds maximum GPU device count"))
    else ok (record d { gpus = d.gpus ++ gpu ∷ [] })

unfoldable pub add_mig_device : MigRef → Devices → Result Devices
unfolding already_present
add_mig_device mig d =
    if already_present same_mig mig d.migs
    then ok d
    else if ltb d.max_migs (length d.migs + 1)
    then err (setx (codes "exceeds maximum MIG device count"))
    else ok (record d { migs = d.migs ++ mig ∷ [] })

-- `ierr.msg`; the functions of this file fail by `error_setx` only.
abbrev pub message : Failure → Bytes
message (setx text) = text
message (set_errno n text) = text
message unset = codes "(null)"

-- `error_setx(err, "<prefix>: %s", ierr.msg)`
abbrev pub within : {A : Type 0} → Bytes → Result A → Result A
within prefix (ok a) = ok a
within prefix (err e) = err (setx (prefix ++ (codes ": " ++ message e)))

-- The loop over all GPUs, from index `i` on.
unfoldable pub add_gpus_from : ℕ → List NvcDevice → Devices → Result Devices
add_gpus_from i [] d = ok d
add_gpus_from i (gpu ∷ gpus) d = do d' ← add_gpu_device i d; add_gpus_from (i + 1) gpus d'

unfoldable pub select_all_gpu_devices : NvcDeviceInfo → Devices → Result Devices
unfolding add_gpus_from
select_all_gpu_devices available selected =
    within (codes "error adding all GPU devices") (add_gpus_from 0 available selected)

-- The inner loop, over the MIG devices of GPU `i`, from index `j` on.
unfoldable pub add_migs_of : ℕ → ℕ → List NvcMigDevice → Devices → Result Devices
add_migs_of i j [] d = ok d
add_migs_of i j (mig ∷ migs) d = do d' ← add_mig_device (i, j) d; add_migs_of i (j + 1) migs d'

unfoldable pub add_migs_from : ℕ → List NvcDevice → Devices → Result Devices
add_migs_from i [] d = ok d
add_migs_from i (gpu ∷ gpus) d = do
  d' ← add_migs_of i 0 gpu.mig_devices d
  add_migs_from (i + 1) gpus d'

unfoldable pub select_all_mig_devices : NvcDeviceInfo → Devices → Result Devices
unfolding add_migs_from
select_all_mig_devices available selected =
    within (codes "error adding all MIG devices") (add_migs_from 0 available selected)

unfoldable pub select_all_devices : NvcDeviceInfo → Devices → Result Devices
select_all_devices available selected = do
  d ← select_all_gpu_devices available selected
  select_all_mig_devices available d
