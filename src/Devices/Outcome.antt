-- ===== src/Devices/Outcome.antt =====
-- src/cli/common.c: how select_devices ends.
use libxdxgpu_container.Base.{
  ℕ, ◌<◌, ◌≡◌, refl, ◌∙◌, ◌⊎◌, inl, inr, true, false, List, [], ◌∷◌, ◌++◌, Option, none, some,
  length, Bool-cases,
}
use libxdxgpu_container.Libc.{Bytes, codes, token_rests, strcasecmp_eq}
use libxdxgpu_container.Error.{Failure, setx, Result, ok, err}
use libxdxgpu_container.Utils.Str.{str_case_equal}
use libxdxgpu_container.Devices.{NvcDeviceInfo, MigRef, Devices, new_devices}
use libxdxgpu_container.Devices.Capacity.{is_mig}
use libxdxgpu_container.Devices.Invariant.{IsSelection, new_devices-IsSelection, HasGpu, HasMig}
use libxdxgpu_container.Devices.AllDevices.{Keeps, select_all_devices-Grows}
use libxdxgpu_container.Devices.Found.{ParentsExist}
use libxdxgpu_container.Devices.Chosen.{
  MeansGpu, MeansMig, IsUnknown, IsChosen, IsChosen-MeansGpu, select_device-Chosen,
}
use libxdxgpu_container.Devices.Select.{parent_of, select_loop, select_devices}

-- The only error there is.
abbrev pub unknown : Bytes → Failure
unknown dev = setx (dev ++ (codes ": " ++ codes "unknown device"))

-- Every device there is is selected.
abbrev pub HoldsAll : NvcDeviceInfo → Devices → Type 0
HoldsAll info d =
    ((k : ℕ) → k < length info → HasGpu k d) × ((m : MigRef) → is_mig info m ≡ true → HasMig m d)

-- A token, and the rest of the list behind it.
abbrev pub Token : Type 0
Token = Bytes × Option Bytes

module _ (outside : Bytes) (info : NvcDeviceInfo) where
  -- What the tokens ask for is selected, up to the first "all", which asks for every device. Empty
  -- tokens are passed over, and `all` is set only if there is an "all".
  abbrev pub Chosen : List Token → Devices → Type 0
  Chosen [] after = after.all ≡ false
  Chosen (([], rest) ∷ ts) after = Chosen ts after
  Chosen ((c ∷ dev, rest) ∷ ts) after =
      ((strcasecmp_eq (c ∷ dev) (codes "all") ≡ true) × (after.all ≡ true) × HoldsAll info after)
      ⊎ ((strcasecmp_eq (c ∷ dev) (codes "all") ≡ false)
          × IsChosen outside info (c ∷ dev) rest after
          × Chosen ts after)

  -- One of the tokens means the GPU.
  abbrev pub AskGpu : List Token → ℕ → Type 0
  AskGpu [] i = ⊥
  AskGpu (([], rest) ∷ ts) i = AskGpu ts i
  AskGpu ((c ∷ dev, rest) ∷ ts) i = MeansGpu outside info (c ∷ dev) rest i ⊎ AskGpu ts i

  -- One of the tokens means the MIG device.
  abbrev pub AskMig : List Token → MigRef → Type 0
  AskMig [] m = ⊥
  AskMig (([], rest) ∷ ts) m = AskMig ts m
  AskMig ((c ∷ dev, rest) ∷ ts) m = MeansMig outside info (c ∷ dev) rest m ⊎ AskMig ts m

  -- The first token that is not passed over and not known is the one of the error, with no "all"
  -- before it.
  abbrev pub Fails : List Token → Result Devices → Type 0
  Fails [] r = ⊥
  Fails (([], rest) ∷ ts) r = Fails ts r
  Fails ((c ∷ dev, rest) ∷ ts) r =
      (strcasecmp_eq (c ∷ dev) (codes "all") ≡ false)
      × ((IsUnknown outside info (c ∷ dev) rest × (r ≡ err (unknown (c ∷ dev))))
          ⊎ (((i : ℕ) × MeansGpu outside info (c ∷ dev) rest i) × Fails ts r))

  -- Nothing is selected but what was before and what the tokens mean, unless `all` is set.
  abbrev Only : List Token → Devices → Devices → Type 0
  Only ts d after =
      (after.all ≡ true)
      ⊎ (((i : ℕ) → HasGpu i after → HasGpu i d ⊎ AskGpu ts i)
          × ((m : MigRef) → HasMig m after → HasMig m d ⊎ AskMig ts m))

  -- How the loop ends that starts with the selection `d`.
  abbrev LoopEnds : List Token → Devices → Result Devices → Type 0
  LoopEnds ts d r =
      ((after : Devices) × (r ≡ ok after)
        × IsSelection info after
        × Keeps d after
        × Chosen ts after
        × Only ts d after)
      ⊎ Fails ts r

  -- The function succeeds with a selection of what the tokens ask for, and of nothing else unless
  -- that is everything, or fails for the first unknown token.
  abbrev pub Ends : List Token → Result Devices → Type 0
  Ends ts r =
      ((after : Devices) × (r ≡ ok after)
        × IsSelection info after
        × Chosen ts after
        × ((after.all ≡ true)
            ⊎ (((i : ℕ) → HasGpu i after → AskGpu ts i)
                × ((m : MigRef) → HasMig m after → AskMig ts m))))
      ⊎ Fails ts r

  IsChosen-Keeps :
      (dev : Bytes) (rest : Option Bytes) {d after : Devices}
      → Keeps d after
      → IsChosen outside info dev rest d
      → IsChosen outside info dev rest after
  IsChosen-Keeps dev rest k (inl (i, e, h)) = inl (i, e, k.gpus i h)
  IsChosen-Keeps dev rest k (inr (m, e, h, g)) = inr (m, e, k.migs m h, k.gpus (parent_of info m) g)

  then_Only :
      (c : ℕ) (dev : Bytes) (rest : Option Bytes) (ts : List Token) (a b after : Devices)
      → ((i : ℕ) → HasGpu i b → HasGpu i a ⊎ MeansGpu outside info (c ∷ dev) rest i)
      → ((m : MigRef) → HasMig m b → HasMig m a ⊎ MeansMig outside info (c ∷ dev) rest m)
      → Only ts b after
      → Only ((c ∷ dev, rest) ∷ ts) a after
  then_Only c dev rest ts a b after f g (inl h) = inl h
  then_Only c dev rest ts a b after f g (inr (p, q)) = inr (
    λ i h. elim (p i h) [
      | inr u ↦ inr (inr u)
      | inl u ↦ elim (f i u) [ inl v ↦ inl v | inr v ↦ inr (inl v) ]
    ],
    λ m h. elim (q m h) [
      | inr u ↦ inr (inr u)
      | inl u ↦ elim (g m u) [ inl v ↦ inl v | inr v ↦ inr (inl v) ]
    ],
  )

  select_loop-LoopEnds :
      (ts : List Token) (d : Devices)
      → ParentsExist info
      → IsSelection info d
      → d.all ≡ false
      → LoopEnds ts d (select_loop outside info ts d)
  unfolding select_loop str_case_equal
  select_loop-LoopEnds [] d ps s h =
      inl (
        d,
        refl,
        s,
        record { gpus = λ i p. p; migs = λ m p. p },
        h,
        inr (λ i p. inl p, λ m p. inl p),
      )
  select_loop-LoopEnds (([], rest) ∷ ts) d ps s h = select_loop-LoopEnds ts d ps s h
  select_loop-LoopEnds ((c ∷ dev, rest) ∷ ts) d ps s h =
      elim (Bool-cases (strcasecmp_eq (c ∷ dev) (codes "all"))) [
        | inl b ↦
            let (g, gpus, migs) = select_all_devices-Grows d s in
            inl (
              record g.after { all = true },
              rw (b, g.succeeds) refl,
              record {
                gpus_valid = g.selection.gpus_valid;
                gpus_distinct = g.selection.gpus_distinct;
                gpus_room = g.selection.gpus_room;
                migs_valid = g.selection.migs_valid;
                migs_distinct = g.selection.migs_distinct;
                migs_room = g.selection.migs_room;
              },
              record { gpus = g.keeps.gpus; migs = g.keeps.migs },
              inl (b, refl, (gpus, migs)),
              inl refl,
            )
        | inr b ↦ elim (select_device-Chosen outside (c ∷ dev) rest d ps s) [
          | inr (e, u) ↦ inr (b, inl (u, rw (b, e) refl))
          | inl (g, chosen, (gpus, migs)) ↦
              rw (b, g.succeeds)
                (elim (select_loop-LoopEnds ts g.after ps g.selection (g.all_kept ∙ h)) [
                  | inr f ↦
                      inr (
                        refl,
                        inr (IsChosen-MeansGpu outside info (c ∷ dev) rest g.after chosen, f),
                      )
                  | inl (after, e, v, k, all, only) ↦ inl (
                    after,
                    e,
                    v,
                    record {
                      gpus = λ i p. k.gpus i (g.keeps.gpus i p);
                      migs = λ m p. k.migs m (g.keeps.migs m p);
                    },
                    inr (refl, IsChosen-Keeps (c ∷ dev) rest k chosen, all),
                    then_Only c dev rest ts d g.after after gpus migs only,
                  )
                ])
        ]
      ]

  start_Only :
      (ts : List Token) (after : Devices)
      → Only ts (new_devices info) after
      → (after.all ≡ true)
        ⊎ (((i : ℕ) → HasGpu i after → AskGpu ts i) × ((m : MigRef) → HasMig m after → AskMig ts m))
  unfolding new_devices
  start_Only ts after (inl h) = inl h
  start_Only ts after (inr (p, q)) = inr (
    λ i h. elim (p i h) [ inl u ↦ cc | inr u ↦ u ],
    λ m h. elim (q m h) [ inl u ↦ cc | inr u ↦ u ],
  )

  from_start : (ts : List Token) (r : Result Devices) → LoopEnds ts (new_devices info) r → Ends ts r
  from_start ts r (inl (after, e, s, k, c, o)) = inl (after, e, s, c, start_Only ts after o)
  from_start ts r (inr f) = inr f

start_all : (info : NvcDeviceInfo) → (new_devices info).all ≡ false
unfolding new_devices
start_all info = refl

-- The tokens of the list, none where it is NULL.
abbrev pub listed : Option Bytes → List Token
listed none = []
listed (some devs) = token_rests (codes ",") devs

-- For a list of devices whose MIG devices have a parent among the GPUs, select_devices, from the
-- selection that new_devices makes, either succeeds or fails for an unknown token. Where it
-- succeeds, every selected pointer is valid, none is selected twice, and the arrays have room; for
-- each token, empty ones aside, the GPU that find_gpu finds is selected, or, where it finds none,
-- the MIG device that find_mig finds with its parent, up to the first "all", for which every GPU
-- and MIG device is selected; `all` is set if and only if there is an "all"; and otherwise nothing
-- is selected but what some token means. Where it fails, the error is "<token>: unknown device" for
-- the first token that means no device, with no "all" before it.
pub select_devices-Ends :
    (outside : Bytes) (devs : Option Bytes) (info : NvcDeviceInfo)
    → ParentsExist info
    → Ends outside info (listed devs) (select_devices outside devs info (new_devices info))
unfolding select_devices select_loop
select_devices-Ends outside none info ps = from_start outside info [] _ (
    select_loop-LoopEnds outside info [] (new_devices info) ps (new_devices-IsSelection info)
      (start_all info))
select_devices-Ends outside (some devs) info ps =
    from_start outside info (token_rests (codes ",") devs) _ (
      select_loop-LoopEnds outside info (token_rests (codes ",") devs) (new_devices info) ps
        (new_devices-IsSelection info) (start_all info))
