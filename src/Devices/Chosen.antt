-- ===== src/Devices/Chosen.antt =====
-- src/cli/common.c: which devices one token of the list selects.
use libxdxgpu_container.Base.{
  ℕ, ◌≡◌, refl, ◌∙◌, ◌⊎◌, inl, inr, Bool, true, Bool-cases, ◌+◌, List, [], ◌∷◌, ◌++◌, Option, none,
  some, Option-cases, ltb, ◌==◌, ==_iff, length, ap, sym, subst,
}
use libxdxgpu_container.Base.Distinct.{present, present-append}
use libxdxgpu_container.Libc.{Bytes, codes}
use libxdxgpu_container.Error.{setx, ok, err, ok-injective}
use libxdxgpu_container.Devices.{
  NvcDeviceInfo, MigRef, Devices, already_present, same_mig, add_gpu_device, add_mig_device,
}
use libxdxgpu_container.Devices.Capacity.{same_mig_iff}
use libxdxgpu_container.Devices.Invariant.{
  IsSelection, HasGpu, HasMig, add_gpu_device-Added, add_mig_device-Added,
}
use libxdxgpu_container.Devices.AllDevices.{Grows}
use libxdxgpu_container.Devices.Found.{ParentsExist, find_gpu-lt, find_mig-is_mig, parent_of-lt}
use libxdxgpu_container.Devices.Select.{
  find_gpu, find_mig, parent_of, select_gpu_device, select_mig_device, select_device,
}

module _ (outside : Bytes) (info : NvcDeviceInfo) where
  -- The token means the GPU: it is the one that is found, or the parent of the MIG device that is
  -- found where no GPU is.
  abbrev pub MeansGpu : Bytes → Option Bytes → ℕ → Type 0
  MeansGpu dev rest i =
      (find_gpu outside dev rest info ≡ some i)
      ⊎ ((find_gpu outside dev rest info ≡ none)
          × ((m : MigRef) × (find_mig dev info ≡ some m) × (parent_of info m ≡ i)))

  -- The token means the MIG device: it is found, and no GPU is.
  abbrev pub MeansMig : Bytes → Option Bytes → MigRef → Type 0
  MeansMig dev rest m = (find_gpu outside dev rest info ≡ none) × (find_mig dev info ≡ some m)

  -- The token means no device.
  abbrev pub IsUnknown : Bytes → Option Bytes → Type 0
  IsUnknown dev rest = (find_gpu outside dev rest info ≡ none) × (find_mig dev info ≡ none)

  -- The GPU that is found is selected, or, where none is, the MIG device that is found with its
  -- parent.
  abbrev pub IsChosen : Bytes → Option Bytes → Devices → Type 0
  IsChosen dev rest d =
      ((i : ℕ) × (find_gpu outside dev rest info ≡ some i) × HasGpu i d)
      ⊎ ((m : MigRef) × MeansMig dev rest m × HasMig m d × HasGpu (parent_of info m) d)

  -- A token for which something is selected means a GPU.
  pub IsChosen-MeansGpu :
      (dev : Bytes) (rest : Option Bytes) (d : Devices)
      → IsChosen dev rest d
      → (i : ℕ) × MeansGpu dev rest i
  IsChosen-MeansGpu dev rest d (inl (i, e, h)) = (i, inl e)
  IsChosen-MeansGpu dev rest d (inr (m, (e, f), h, k)) = (parent_of info m, inr (e, (m, f, refl)))

  -- What was not selected before is meant by the token.
  abbrev IsOnly : Bytes → Option Bytes → Devices → Devices → Type 0
  IsOnly dev rest d after =
      ((i : ℕ) → HasGpu i after → HasGpu i d ⊎ MeansGpu dev rest i)
      × ((m : MigRef) → HasMig m after → HasMig m d ⊎ MeansMig dev rest m)

or_last :
    {A : Type 0} (same : A → A → Bool) (k i : A) (xs : List A)
    → present same k (xs ++ i ∷ []) ≡ true
    → (present same k xs ≡ true) ⊎ (same i k ≡ true)
or_last same k i xs h = elim (Bool-cases (present same k xs)) [
  | inl e ↦ inl e
  | inr e ↦ elim (Bool-cases (same i k)) [
    | inl f ↦ inr f
    | inr f ↦ cc (rw (present-append same k xs (i ∷ []), e, f) at h)
  ]
]

-- Adding a GPU adds that GPU only.
add_gpu_device-only :
    (i : ℕ) (d after : Devices)
    → add_gpu_device i d ≡ ok after
    → ((k : ℕ) → HasGpu k after → HasGpu k d ⊎ (i ≡ k)) × (after.migs ≡ d.migs)
unfolding add_gpu_device
add_gpu_device-only i d after r = elim (Bool-cases (already_present ◌==◌ i d.gpus)) [
  | inl e ↦
      let q = ok-injective (rw e at r) in
      (
        λ k h. inl (subst (λ (x : Devices). HasGpu k x) (sym q) h),
        ap (λ (x : Devices). x.migs) (sym q),
      )
  | inr e ↦ elim (Bool-cases (ltb d.max_gpus (length d.gpus + 1))) [
    | inl f ↦ cc (rw (e, f) at r)
    | inr f ↦
        let q = ok-injective (rw (e, f) at r) in
        (
          λ k h. elim (or_last ◌==◌ k i d.gpus (subst (λ (x : Devices). HasGpu k x) (sym q) h)) [
            | inl old ↦ inl old
            | inr new ↦ inr ((==_iff i k).0 new)
          ],
          ap (λ (x : Devices). x.migs) (sym q),
        )
  ]
]

-- Adding a MIG device adds that MIG device only.
add_mig_device-only :
    (m : MigRef) (d after : Devices)
    → add_mig_device m d ≡ ok after
    → ((k : MigRef) → HasMig k after → HasMig k d ⊎ (m ≡ k)) × (after.gpus ≡ d.gpus)
unfolding add_mig_device
add_mig_device-only m d after r = elim (Bool-cases (already_present same_mig m d.migs)) [
  | inl e ↦
      let q = ok-injective (rw e at r) in
      (
        λ k h. inl (subst (λ (x : Devices). HasMig k x) (sym q) h),
        ap (λ (x : Devices). x.gpus) (sym q),
      )
  | inr e ↦ elim (Bool-cases (ltb d.max_migs (length d.migs + 1))) [
    | inl f ↦ cc (rw (e, f) at r)
    | inr f ↦
        let q = ok-injective (rw (e, f) at r) in
        (
          λ k h.
              elim (or_last same_mig k m d.migs (subst (λ (x : Devices). HasMig k x) (sym q) h)) [
                | inl old ↦ inl old
                | inr new ↦ inr ((same_mig_iff m k).0 new)
              ],
          ap (λ (x : Devices). x.gpus) (sym q),
        )
  ]
]

-- A token selects the device that it means and nothing else, or means no device and is an error.
pub select_device-Chosen :
    {info : NvcDeviceInfo} (outside dev : Bytes) (rest : Option Bytes) (d : Devices)
    → ParentsExist info
    → IsSelection info d
    → ((g : Grows info d (select_device outside dev rest info d)) × IsChosen outside info dev rest
          g.after
        × IsOnly outside info dev rest d g.after)
      ⊎ ((select_device outside dev rest info d ≡ err (setx (codes "unknown device")))
          × IsUnknown outside info dev rest)
unfolding select_device select_gpu_device select_mig_device
select_device-Chosen {info} outside dev rest d ps s =
    elim (Option-cases (find_gpu outside dev rest info)) [
      | inr (i, e) ↦
          let (a, has) = add_gpu_device-Added i d s (find_gpu-lt outside dev rest info e) in
          let (only, same) = add_gpu_device-only i d a.after a.succeeds in
          inl (
            record {
              after = a.after;
              succeeds = rw (e, select_gpu_device, a.succeeds) refl;
              selection = a.selection;
              all_kept = a.all_kept;
              keeps = record { gpus = a.gpus_kept; migs = a.migs_kept };
            },
            inl (i, e, has),
            (
              λ k h. elim (only k h) [
                | inl old ↦ inl old
                | inr q ↦ inr (inl (e ∙ ap (λ x. some x) q))
              ],
              λ k h. inl (subst (λ x. present same_mig k x ≡ true) same h),
            ),
          )
      | inl e ↦ elim (Option-cases (find_mig dev info)) [
        | inl f ↦ inr (rw (e, select_gpu_device) (rw (f, select_mig_device) refl), (e, f))
        | inr (m, f) ↦
            let v = find_mig-is_mig dev info f in
            let (a, has_mig) = add_mig_device-Added m d s v in
            let (b, has_gpu) =
              add_gpu_device-Added (parent_of info m) a.after a.selection
                (parent_of-lt info m ps v) in
            let (only_mig, same_gpus) = add_mig_device-only m d a.after a.succeeds in
            let (only_gpu, same_migs) =
              add_gpu_device-only (parent_of info m) a.after b.after b.succeeds in
            inl (
              record {
                after = b.after;
                succeeds =
                    rw (e, select_gpu_device)
                      (rw (f, select_mig_device) (rw (a.succeeds, b.succeeds) refl));
                selection = b.selection;
                all_kept = b.all_kept ∙ a.all_kept;
                keeps = record {
                  gpus = λ i h. b.gpus_kept i (a.gpus_kept i h);
                  migs = λ k h. b.migs_kept k (a.migs_kept k h);
                };
              },
              inr (m, (e, f), b.migs_kept m has_mig, has_gpu),
              (
                λ k h. elim (only_gpu k h) [
                  | inl old ↦ inl (subst (λ x. present ◌==◌ k x ≡ true) same_gpus old)
                  | inr q ↦ inr (inr (e, (m, f, q)))
                ],
                λ k h. elim (only_mig k (subst (λ x. present same_mig k x ≡ true) same_migs h)) [
                  | inl old ↦ inl old
                  | inr q ↦ inr (e, f ∙ ap (λ x. some x) q)
                ],
              ),
            )
      ]
    ]
