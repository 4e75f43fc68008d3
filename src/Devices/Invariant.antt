-- ===== src/Devices/Invariant.antt =====
-- What a selection satisfies, and that adding a device keeps it and finds room.
use libxdxgpu_container.Base.{
  ℕ, ◌+◌, ◌<◌, ◌≡◌, inl, inr, refl, Bool, true, false, List, [], ◌∷◌, ◌++◌, ltb, ◌==◌, length,
  length-append, All, All-append, arith, Bool-cases, ==_iff, ==_refl,
}
use libxdxgpu_container.Base.Distinct.{present, Distinct, Distinct-concat, present-append}
use libxdxgpu_container.Error.{Result, ok}
use libxdxgpu_container.Devices.{
  NvcDeviceInfo, MigRef, Devices, count_mig_devices, new_devices, already_present, same_mig,
  add_gpu_device, add_mig_device,
}
use libxdxgpu_container.Devices.Capacity.{is_mig, same_mig_iff, length-gpus_le, length-migs_le}

-- Every pointer selected is to a device that there is, none is selected twice, and the arrays have
-- room for all devices.
pub record IsSelection (info : NvcDeviceInfo) (d : Devices) : Type 0 where
  pub gpus_valid : All (λ i. i < length info) d.gpus
  pub gpus_distinct : Distinct ◌==◌ d.gpus
  pub gpus_room : d.max_gpus ≡ length info
  pub migs_valid : All (λ m. is_mig info m ≡ true) d.migs
  pub migs_distinct : Distinct same_mig d.migs
  pub migs_room : d.max_migs ≡ count_mig_devices info

pub new_devices-IsSelection : (info : NvcDeviceInfo) → IsSelection info (new_devices info)
unfolding new_devices
new_devices-IsSelection info = record {
  gpus_valid = tt;
  gpus_distinct = tt;
  gpus_room = refl;
  migs_valid = tt;
  migs_distinct = tt;
  migs_room = refl;
}

already_present-present :
    {A : Type 0} (same : A → A → Bool) (x : A) (xs : List A)
    → already_present same x xs ≡ present same x xs
unfolding already_present
already_present-present same x [] = refl
already_present-present same x (y ∷ ys) = ground (arith, already_present-present same x ys)

-- What adding a device gives: a selection that holds the device and all that was selected.
pub record Added (info : NvcDeviceInfo) (d : Devices) (r : Result Devices) : Type 0 where
  pub after : Devices
  pub succeeds : r ≡ ok after
  pub selection : IsSelection info after
  pub all_kept : after.all ≡ d.all
  pub gpus_kept : (i : ℕ) → present ◌==◌ i d.gpus ≡ true → present ◌==◌ i after.gpus ≡ true
  pub migs_kept :
      (m : MigRef) → present same_mig m d.migs ≡ true → present same_mig m after.migs ≡ true

unchanged :
    {info : NvcDeviceInfo} {d : Devices} {r : Result Devices}
    → IsSelection info d
    → r ≡ ok d
    → Added info d r
unchanged {d = d} s e = record {
  after = d;
  succeeds = e;
  selection = s;
  all_kept = refl;
  gpus_kept = λ i h. h;
  migs_kept = λ m h. h;
}

abbrev pub HasGpu : ℕ → Devices → Type 0
HasGpu i d = present ◌==◌ i d.gpus ≡ true

abbrev pub HasMig : MigRef → Devices → Type 0
HasMig m d = present same_mig m d.migs ≡ true

-- A GPU that there is can always be added: the array has room.
pub add_gpu_device-Added :
    {info : NvcDeviceInfo} (i : ℕ) (d : Devices)
    → IsSelection info d
    → i < length info
    → (a : Added info d (add_gpu_device i d)) × HasGpu i a.after
unfolding add_gpu_device unchanged
add_gpu_device-Added {info} i d s lt = elim (Bool-cases (present ◌==◌ i d.gpus)) [
  | inl old ↦ (unchanged s (rw (already_present-present ◌==◌ i d.gpus, old) refl), old)
  | inr new ↦
      let gpus = d.gpus ++ i ∷ [] in
      let distinct : Distinct ◌==◌ gpus =
        Distinct-concat ◌==◌ ==_iff d.gpus i s.gpus_distinct new in
      let valid : All (λ k. k < length info) gpus =
        All-append (λ k. k < length info) d.gpus (i ∷ []) s.gpus_valid (lt, tt) in
      let room : ltb d.max_gpus (length d.gpus + 1) ≡ false = ground (
        arith,
        length-gpus_le info gpus distinct valid,
        length-append d.gpus (i ∷ []),
        s.gpus_room,
      ) in
      (
        record {
          after = record d { gpus = gpus };
          succeeds = rw (already_present-present ◌==◌ i d.gpus, new, room) refl;
          selection = record {
            gpus_valid = valid;
            gpus_distinct = distinct;
            gpus_room = s.gpus_room;
            migs_valid = s.migs_valid;
            migs_distinct = s.migs_distinct;
            migs_room = s.migs_room;
          };
          all_kept = refl;
          gpus_kept = λ k h. rw (present-append ◌==◌ k d.gpus (i ∷ []), h) refl;
          migs_kept = λ m h. h;
        },
        rw (present-append ◌==◌ i d.gpus (i ∷ []), new, ==_refl i) refl,
      )
]

-- A MIG device that there is can always be added.
pub add_mig_device-Added :
    {info : NvcDeviceInfo} (m : MigRef) (d : Devices)
    → IsSelection info d
    → is_mig info m ≡ true
    → (a : Added info d (add_mig_device m d)) × HasMig m a.after
unfolding add_mig_device unchanged
add_mig_device-Added {info} m d s v = elim (Bool-cases (present same_mig m d.migs)) [
  | inl old ↦ (unchanged s (rw (already_present-present same_mig m d.migs, old) refl), old)
  | inr new ↦
      let migs = d.migs ++ m ∷ [] in
      let distinct : Distinct same_mig migs =
        Distinct-concat same_mig same_mig_iff d.migs m s.migs_distinct new in
      let valid : All (λ k. is_mig info k ≡ true) migs =
        All-append (λ k. is_mig info k ≡ true) d.migs (m ∷ []) s.migs_valid (v, tt) in
      let room : ltb d.max_migs (length d.migs + 1) ≡ false = ground (
        arith,
        length-migs_le info migs distinct valid,
        length-append d.migs (m ∷ []),
        s.migs_room,
      ) in
      (
        record {
          after = record d { migs = migs };
          succeeds = rw (already_present-present same_mig m d.migs, new, room) refl;
          selection = record {
            gpus_valid = s.gpus_valid;
            gpus_distinct = s.gpus_distinct;
            gpus_room = s.gpus_room;
            migs_valid = valid;
            migs_distinct = distinct;
            migs_room = s.migs_room;
          };
          all_kept = refl;
          gpus_kept = λ k h. h;
          migs_kept = λ k h. rw (present-append same_mig k d.migs (m ∷ []), h) refl;
        },
        rw (present-append same_mig m d.migs (m ∷ []), new, (same_mig_iff m m).1 refl) refl,
      )
]
