-- ===== src/Devices/AllDevices.antt =====
-- "all" selects every device, and never runs out of room.
use libxdxgpu_container.Base.{
  ℕ, zero, suc, ◌+◌, ◌≤◌, ◌<◌, ◌≡◌, refl, sym, ap, subst, ◌∙◌, ◌⊎◌, inl, inr, true, List, [], ◌∷◌,
  none, some, ◌==◌, length, get_elem?, arith, ltb→lt, drop, Bool-cases, ==_iff,
}
use libxdxgpu_container.Error.{Result, ok, ◌>>=◌}
use libxdxgpu_container.Libc.{codes}
use libxdxgpu_container.Devices.{
  NvcMigDevice, NvcDevice, NvcDeviceInfo, MigRef, Devices, within, add_gpus_from,
  select_all_gpu_devices, add_migs_of, add_migs_from, select_all_mig_devices, select_all_devices,
}
use libxdxgpu_container.Devices.Capacity.{is_mig}
use libxdxgpu_container.Devices.Invariant.{
  IsSelection, Added, HasGpu, HasMig, add_gpu_device-Added, add_mig_device-Added,
}

-- What was selected stays selected.
pub record Keeps (d after : Devices) : Type 0 where
  pub gpus : (i : ℕ) → HasGpu i d → HasGpu i after
  pub migs : (m : MigRef) → HasMig m d → HasMig m after

Keeps-trans : {a b c : Devices} → Keeps a b → Keeps b c → Keeps a c
Keeps-trans p q = record {
  gpus = λ i h. q.gpus i (p.gpus i h);
  migs = λ m h. q.migs m (p.migs m h);
}

-- A step that succeeds with a selection, keeps what was selected, and `all` as it was.
pub record Grows (info : NvcDeviceInfo) (d : Devices) (r : Result Devices) : Type 0 where
  pub after : Devices
  pub succeeds : r ≡ ok after
  pub selection : IsSelection info after
  pub all_kept : after.all ≡ d.all
  pub keeps : Keeps d after

pub grows_add :
    {info : NvcDeviceInfo} {d : Devices} {r : Result Devices} → Added info d r → Grows info d r
grows_add a = record {
  after = a.after;
  succeeds = a.succeeds;
  selection = a.selection;
  all_kept = a.all_kept;
  keeps = record { gpus = a.gpus_kept; migs = a.migs_kept };
}

-- Two steps, one behind the other.
pub then_grows :
    {info : NvcDeviceInfo} {d : Devices} {r : Result Devices} (f : Devices → Result Devices)
    (a : Grows info d r)
    → Grows info a.after (f a.after)
    → Grows info d (r >>= f)
then_grows f a g = record {
  after = g.after;
  succeeds = ap (λ x. x >>= f) a.succeeds ∙ g.succeeds;
  selection = g.selection;
  all_kept = g.all_kept ∙ a.all_kept;
  keeps = Keeps-trans a.keeps g.keeps;
}

grows_none : {info : NvcDeviceInfo} {d : Devices} → IsSelection info d → Grows info d (ok d)
grows_none {d = d} s = record {
  after = d;
  succeeds = refl;
  selection = s;
  all_kept = refl;
  keeps = record { gpus = λ i h. h; migs = λ m h. h };
}

pub grows_within :
    {info : NvcDeviceInfo} {d : Devices} {r : Result Devices} (prefix : List ℕ)
    → Grows info d r
    → Grows info d (within prefix r)
grows_within prefix g = record {
  after = g.after;
  succeeds = ap (within prefix) g.succeeds;
  selection = g.selection;
  all_kept = g.all_kept;
  keeps = g.keeps;
}

this_or_later : (i k : ℕ) → i ≤ k → (i ≡ k) ⊎ (i + 1 ≤ k)
this_or_later i k p = elim (Bool-cases (i == k)) [
  | inl e ↦ inl ((==_iff i k).0 e)
  | inr n ↦ inr (ground arith)
]

add_gpus_from-Grows :
    {info : NvcDeviceInfo} (gpus : List NvcDevice) (i : ℕ) (d : Devices)
    → IsSelection info d
    → i + length gpus ≡ length info
    → (g : Grows info d (add_gpus_from i gpus d)) × ((k : ℕ)
        → i ≤ k
        → k < length info
        → HasGpu k g.after)
unfolding add_gpus_from grows_none then_grows grows_add
add_gpus_from-Grows [] i d s e = (grows_none s, λ k p q. absurd (omega arith))
add_gpus_from-Grows (gpu ∷ gpus) i d s e =
    let (a, has) = add_gpu_device-Added i d s (omega arith) in
    let (g, more) = add_gpus_from-Grows gpus (i + 1) a.after a.selection (omega arith) in
    (
      then_grows (λ x. add_gpus_from (i + 1) gpus x) (grows_add a) g,
      λ k p q. elim (this_or_later i k p) [
        | inl e ↦ g.keeps.gpus k (rw e at has)
        | inr l ↦ more k l q
      ],
    )

add_migs_of-Grows :
    {info : NvcDeviceInfo} (i : ℕ) (migs : List NvcMigDevice) (j : ℕ) (d : Devices)
    → IsSelection info d
    → ((k : ℕ) → j ≤ k → k < j + length migs → is_mig info (i, k) ≡ true)
    → (g : Grows info d (add_migs_of i j migs d)) × ((k : ℕ)
        → j ≤ k
        → k < j + length migs
        → HasMig (i, k) g.after)
unfolding add_migs_of grows_none then_grows grows_add
add_migs_of-Grows i [] j d s v = (grows_none s, λ k p q. absurd (omega arith))
add_migs_of-Grows i (mig ∷ migs) j d s v =
    let (a, has) = add_mig_device-Added (i, j) d s (v j (omega arith) (omega arith)) in
    let (g, more) =
      add_migs_of-Grows i migs (j + 1) a.after a.selection
        (λ k p q. v k (omega arith) (omega arith)) in
    (
      then_grows (λ x. add_migs_of i (j + 1) migs x) (grows_add a) g,
      λ k p q. elim (this_or_later j k p) [
        | inl e ↦ g.keeps.migs (i, k) (rw e at has)
        | inr l ↦ more k l (omega arith)
      ],
    )

drop_head :
    (info : NvcDeviceInfo) (i : ℕ) {gpu : NvcDevice} {gpus : List NvcDevice}
    → drop i info ≡ gpu ∷ gpus
    → (get_elem? info i ≡ some gpu) × (drop (i + 1) info ≡ gpus)
drop_head [] zero e = cc
drop_head [] (suc i) e = cc
drop_head (x ∷ info) zero e = ground arith
drop_head (x ∷ info) (suc i) e =
    let (h, t) = drop_head info i e in
    (h, ap (λ n. drop n (x ∷ info)) (let n : suc i + 1 ≡ suc (i + 1) = omega arith in n) ∙ t)

get_elem?-drop_nil :
    (info : NvcDeviceInfo) (i k : ℕ) → drop i info ≡ [] → i ≤ k → get_elem? info k ≡ none
get_elem?-drop_nil [] i k e p = refl
get_elem?-drop_nil (x ∷ info) zero k e p = cc
get_elem?-drop_nil (x ∷ info) (suc i) zero e p = absurd (omega arith)
get_elem?-drop_nil (x ∷ info) (suc i) (suc k) e p = get_elem?-drop_nil info i k e (omega arith)

own_index :
    (info : NvcDeviceInfo) (i : ℕ) {gpu : NvcDevice}
    → get_elem? info i ≡ some gpu
    → (j : ℕ) → is_mig info (i, j) ≡ true
    → j < 0 + length gpu.mig_devices
own_index info i {gpu} e j h =
    omega (arith, ltb→lt j (length gpu.mig_devices) (rw (e, is_mig) at h))

add_migs_from-Grows :
    {info : NvcDeviceInfo} (gpus : List NvcDevice) (i : ℕ) (d : Devices)
    → IsSelection info d
    → drop i info ≡ gpus
    → (g : Grows info d (add_migs_from i gpus d)) × ((k j : ℕ)
        → i ≤ k
        → is_mig info (k, j) ≡ true
        → HasMig (k, j) g.after)
unfolding add_migs_from grows_none then_grows
add_migs_from-Grows {info} [] i d s e =
    (grows_none s, λ k j p h. cc (rw (get_elem?-drop_nil info i k e p, is_mig) at h))
add_migs_from-Grows {info} (gpu ∷ gpus) i d s e =
    let (here, rest) = drop_head info i e in
    let own : (j : ℕ) → 0 ≤ j → j < 0 + length gpu.mig_devices → is_mig info (i, j) ≡ true =
      λ j p q. rw (here, is_mig) (ground arith) in
    let (a, has) = add_migs_of-Grows i gpu.mig_devices 0 d s own in
    let (g, more) = add_migs_from-Grows gpus (i + 1) a.after a.selection rest in
    (
      then_grows (λ x. add_migs_from (i + 1) gpus x) a g,
      λ k j p h. elim (this_or_later i k p) [
        | inl e ↦
            g.keeps.migs (k, j)
              (subst (λ n. HasMig (n, j) a.after) e
                (has j (omega arith) (own_index info i here j (rw (sym e) at h))))
        | inr l ↦ more k j l h
      ],
    )

-- `select_all_devices` succeeds on every selection, and leaves one that holds every GPU and every
-- MIG device.
pub select_all_devices-Grows :
    {info : NvcDeviceInfo} (d : Devices)
    → IsSelection info d
    → (g : Grows info d (select_all_devices info d)) × ((k : ℕ)
        → k < length info
        → HasGpu k g.after)
      × ((m : MigRef) → is_mig info m ≡ true → HasMig m g.after)
unfolding select_all_devices select_all_gpu_devices select_all_mig_devices then_grows grows_within
select_all_devices-Grows {info} d s =
    let (a, gpus) = add_gpus_from-Grows info 0 d s (omega arith) in
    let (b, migs) = add_migs_from-Grows info 0 a.after a.selection refl in
    (
      then_grows (λ x. select_all_mig_devices info x)
          (grows_within (codes "error adding all GPU devices") a)
          (grows_within (codes "error adding all MIG devices") b),
      λ k q. b.keeps.gpus k (gpus k (omega arith) q),
      λ (k, j) h. migs k j (omega arith) h,
    )
