-- ===== src/Configure/Command/Met.antt =====
-- src/cli/configure.c: for which devices the requirements are accepted.
use libxdxgpu_container.Base.{
  ℕ, ◌≡◌, refl, subst, inl, inr, List, [], ◌∷◌, ◌++◌, map, Option, none, some, All, get_elem?,
  Option-cases,
}
use libxdxgpu_container.Libc.{Bytes}
use libxdxgpu_container.Error.{ok, >>=-eq-ok}
use libxdxgpu_container.Devices.{NvcDevice, NvcMigDevice, NvcDeviceInfo, MigRef, Devices}
use libxdxgpu_container.Devices.Select.{parent_of}
use libxdxgpu_container.Dsl.{dsl_evaluate}
use libxdxgpu_container.Configure.{DriverVersions}
use libxdxgpu_container.Configure.Rules.{DslData, rules, evaluate_reqs, evaluate_devices}
use libxdxgpu_container.Configure.Command.{evaluated, or_globally}

-- Every requirement is accepted for the device, or without one.
abbrev pub Meets : DriverVersions → List Bytes → Option NvcDevice → Type 0
Meets drv reqs dev =
    All (λ (r : Bytes). dsl_evaluate r (rules (record { drv = some drv; dev = dev })) ≡ ok tt) reqs

-- Every requirement was evaluated for every one of the devices, and accepted.
abbrev pub Accepted : DriverVersions → List Bytes → List (Option NvcDevice) → Type 0
Accepted drv reqs devs = All (Meets drv reqs) devs

-- What is there, if something is, has `P`.
abbrev pub AtMostSome : {A : Type 0} → (A → Type 0) → Option A → Type 0
AtMostSome P none = Unit
AtMostSome P (some a) = P a

-- The requirements are accepted for the GPU that the MIG device names as its parent.
abbrev pub ParentMeets : DriverVersions → List Bytes → NvcDeviceInfo → MigRef → Type 0
ParentMeets drv reqs info (i, j) =
    AtMostSome
      (λ (gpu : NvcDevice).
        AtMostSome (λ (mig : NvcMigDevice). Meets drv reqs (get_elem? info mig.parent))
          (get_elem? gpu.mig_devices j))
      (get_elem? info i)

-- Where no device is visible, the requirements are accepted without one.
abbrev pub MeetsWithout : DriverVersions → List Bytes → List ℕ → List MigRef → Type 0
MeetsWithout drv reqs [] [] = Meets drv reqs none
MeetsWithout drv reqs [] (m ∷ migs) = Unit
MeetsWithout drv reqs (i ∷ gpus) migs = Unit

-- Every device that is selected meets the requirements.
abbrev pub MeetAll : DriverVersions → List Bytes → NvcDeviceInfo → List ℕ → List MigRef → Type 0
MeetAll drv reqs info gpus migs =
    All (λ (i : ℕ). Meets drv reqs (get_elem? info i)) gpus
    × All (ParentMeets drv reqs info) migs
    × MeetsWithout drv reqs gpus migs

module _ (drv : DriverVersions) (reqs : List Bytes) (info : NvcDeviceInfo) where
  parent_of-some :
      (i j : ℕ) {gpu : NvcDevice} {mig : NvcMigDevice}
      → get_elem? info i ≡ some gpu
      → get_elem? gpu.mig_devices j ≡ some mig
      → parent_of info (i, j) ≡ mig.parent
  parent_of-some i j e f = rw (parent_of, e) (rw f refl)

  parent_of-Meets :
      (m : MigRef)
      → Meets drv reqs (get_elem? info (parent_of info m))
      → ParentMeets drv reqs info m
  parent_of-Meets (i, j) h = elim (Option-cases (get_elem? info i)) [
    | inl e ↦ rw e tt
    | inr (gpu, e) ↦ elim (Option-cases (get_elem? gpu.mig_devices j)) [
      | inl f ↦ rw e (rw f tt)
      | inr (mig, f) ↦
          rw e (rw f (subst (λ k. Meets drv reqs (get_elem? info k)) (parent_of-some i j e f) h))
    ]
  ]

  parents_meet :
      (migs : List MigRef)
      → Accepted drv reqs (map (λ (m : MigRef). get_elem? info (parent_of info m)) migs)
      → All (ParentMeets drv reqs info) migs
  parents_meet [] h = tt
  parents_meet (m ∷ migs) (h, hs) = (parent_of-Meets m h, parents_meet migs hs)

  gpus_meet :
      (gpus : List ℕ) (devs : List (Option NvcDevice))
      → Accepted drv reqs (map (λ (i : ℕ). get_elem? info i) gpus ++ devs)
      → All (λ (i : ℕ). Meets drv reqs (get_elem? info i)) gpus × Accepted drv reqs devs
  gpus_meet [] devs h = (tt, h)
  gpus_meet (i ∷ gpus) devs (h, hs) = let (g, d) = gpus_meet gpus devs hs in ((h, g), d)

  or_globally-All :
      (devs : List (Option NvcDevice))
      → Accepted drv reqs (or_globally devs)
      → Accepted drv reqs devs
  or_globally-All [] h = tt
  or_globally-All (d ∷ devs) h = h

  without :
      (gpus : List ℕ) (migs : List MigRef)
      → Accepted drv reqs (
          or_globally (
            map (λ (i : ℕ). get_elem? info i) gpus
            ++ map (λ (m : MigRef). get_elem? info (parent_of info m)) migs))
      → MeetsWithout drv reqs gpus migs
  without [] [] h = h.0
  without [] (m ∷ migs) h = tt
  without (i ∷ gpus) migs h = tt

  pub evaluated-MeetAll :
      (visible : Devices)
      → Accepted drv reqs (evaluated info visible)
      → MeetAll drv reqs info visible.gpus visible.migs
  unfolding evaluated
  evaluated-MeetAll visible h =
      let (g, m) = gpus_meet visible.gpus _ (or_globally-All _ h) in
      (g, parents_meet visible.migs m, without visible.gpus visible.migs h)

evaluate_reqs-All :
    (d : DslData) (reqs : List Bytes)
    → evaluate_reqs d reqs ≡ ok tt
    → All (λ (r : Bytes). dsl_evaluate r (rules d) ≡ ok tt) reqs
unfolding evaluate_reqs
evaluate_reqs-All d [] h = tt
evaluate_reqs-All d (r ∷ reqs) h =
    let (u, e, k) = >>=-eq-ok (dsl_evaluate r (rules d)) (λ _. evaluate_reqs d reqs) h in
    (e, evaluate_reqs-All d reqs k)

pub evaluate_devices-Accepted :
    (drv : DriverVersions) (reqs : List Bytes) (devs : List (Option NvcDevice))
    → evaluate_devices drv reqs devs ≡ ok tt
    → Accepted drv reqs devs
unfolding evaluate_devices
evaluate_devices-Accepted drv reqs [] h = tt
evaluate_devices-Accepted drv reqs (dev ∷ devs) h =
    let d : DslData = record { drv = some drv; dev = dev } in
    let (u, e, k) = >>=-eq-ok (evaluate_reqs d reqs) (λ _. evaluate_devices drv reqs devs) h in
    (evaluate_reqs-All d reqs e, evaluate_devices-Accepted drv reqs devs k)
