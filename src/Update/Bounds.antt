-- ===== src/Update/Bounds.antt =====
-- src/utils.c: `perm_set_bounds` leaves no capability up to CAP_LAST_CAP in the bounding set.
use libxdxgpu_container.Base.{
  ℕ, zero, suc, ◌+◌, ◌≤◌, ◌≡◌, refl, subst, sym, not, ◌&&◌, ◌==◌, ==_iff, arith, inl, inr, Bool, [],
  ◌∷◌, Bool-cases,
}
use libxdxgpu_container.Libc.{codes}
use libxdxgpu_container.Container.{NvcContainer}
use libxdxgpu_container.Kernel.{
  History, Kernel, confine, capbset_drop, Op, ◌>>=◌, ◌>>◌, ask, error_set,
}
use libxdxgpu_container.File.{when}
use libxdxgpu_container.Process.{
  Process, call, file_read_uint32, last_cap_path, last_cap, drop_bounds, perm_set_bounds,
}
use libxdxgpu_container.Update.{adjust_capabilities, secure_mode}
use libxdxgpu_container.Update.Kept.{Holds-last_cap, Holds-keep_caps}
use libxdxgpu_container.Update.Confined.{
  Log, Ever-now, Ever-holds, IsLastOrSeen, behind, behind_or_seen, Both, Both-later, Reaches,
  Reaches-Holds, Reaches-bind, Reaches-call, Reaches-weaken, Reaches-error_set,
}
use libxdxgpu_container.Update.Steps.{entered, unbounded, bounded, steps, next}

-- A call that succeeded is one that succeeded, or the test was true.
behind-or_seen :
    (c : ℕ) (test : History → Bool) (log : Log) (h : History)
    → (behind (confine (capbset_drop c)) log).holds h
    → (behind_or_seen (confine (capbset_drop c)) test log).holds h
unfolding behind behind_or_seen
behind-or_seen c test log [] p = elim p [ ]
behind-or_seen c test log (e ∷ h) (inl (q, p)) = inl (inl q, log.grows e h p)
behind-or_seen c test log (e ∷ h) (inr p) = inr (behind-or_seen c test log h p)

or_seen-holds :
    (c : ℕ) (test : History → Bool) (log : Log) (h : History)
    → (behind_or_seen (confine (capbset_drop c)) test log).holds h
    → log.holds h
unfolding behind_or_seen
or_seen-holds c test log h p =
    Ever-holds (IsLastOrSeen (confine (capbset_drop c)) test log) log (λ k (u, q). q) h p

-- What holds of more capabilities holds of fewer.
unbounded-fewer :
    (process : Process) (log : Log) (k n : ℕ)
    → k ≤ n
    → (h : History) → (unbounded process n log).holds h
    → (unbounded process k log).holds h
unfolding unbounded
unbounded-fewer process log k zero le h p =
    let e : k ≡ 0 = omega arith in subst (λ i. (unbounded process i log).holds h) (sym e) p
unbounded-fewer process log k (suc n) le h p = elim (Bool-cases (k == suc n)) [
  | inl e ↦ subst (λ i. (unbounded process i log).holds h) (sym ((==_iff k (suc n)).0 e)) p
  | inr e ↦
      unbounded-fewer process log k n (ground arith) h
        (or_seen-holds n (λ i. not (process.is_bounding i n)) (unbounded process n log) h p)
]

module _ (kernel : Kernel) (no_pivot : Bool) (process : Process) (cnt : NvcContainer) where
  abbrev needed : Bool → Log
  needed = steps no_pivot process cnt

  -- One round of the loop
  Reaches-round :
      {B : Type 0} (cs es : Log) (c : ℕ) (k : Op B)
      → Reaches needed
          (behind_or_seen (confine (capbset_drop c)) (λ h. not (process.is_bounding h c)) cs)
          es
          k
      → Reaches needed cs es (
          ask (λ h. process.is_bounding h c) >>= λ b.
          when b (error_set (codes "capability change failed") (call kernel (capbset_drop c))) >> k)
  unfolding behind_or_seen
  Reaches-round cs es c k l =
      let ds : Log =
        behind_or_seen (confine (capbset_drop c)) (λ h. not (process.is_bounding h c)) cs in
      let dropped : Reaches needed cs es
          (error_set (codes "capability change failed") (call kernel (capbset_drop c)) >> k) =
        next kernel no_pivot process cnt cs ds es _ _
          (Reaches-weaken needed cs (behind (confine (capbset_drop c)) cs) ds _
            (behind-or_seen c (λ h. not (process.is_bounding h c)) cs)
            (Reaches-error_set needed cs _ (codes "capability change failed") _
              (Reaches-call needed kernel cs (capbset_drop c) (λ host argv e. cc))))
          l in
      record {
        runs = λ h (g, s). elim (Bool-cases (process.is_bounding h c)) [
          | inl e ↦ rw e (dropped.runs h (g, s))
          | inr e ↦ rw e (
              l.runs h (
                g,
                Ever-now
                    (IsLastOrSeen (confine (capbset_drop c)) (λ h. not (process.is_bounding h c))
                      cs)
                    h (inr (rw e refl), s),
              ))
        ];
      }

  Reaches-drop_bounds :
      (log : Log) (n c goal : ℕ)
      → goal ≤ c + n
      → Reaches needed
          (unbounded process c log)
          (unbounded process goal log)
          (drop_bounds kernel process n c)
  unfolding drop_bounds unbounded
  Reaches-drop_bounds log zero c goal le = record {
    runs = λ h (g, s). (g, unbounded-fewer process log goal c (omega arith) h s);
  }
  Reaches-drop_bounds log (suc n) c goal le =
      let e : c + 1 ≡ suc c = omega arith in
      Reaches-round (unbounded process c log) (unbounded process goal log) c _ (
        subst
          (λ i.
            Reaches needed (unbounded process i log) (unbounded process goal log)
              (drop_bounds kernel process n (c + 1)))
          e (Reaches-drop_bounds log n (c + 1) goal (omega arith)))

  last_cap-cap_last_cap : (n : ℕ) → 41 ≤ 0 + suc (last_cap n)
  last_cap-cap_last_cap n = ground arith

  Reaches-perm_set_bounds :
      (log : Log) → Reaches needed log (unbounded process 41 log) (perm_set_bounds kernel process)
  unfolding perm_set_bounds unbounded
  Reaches-perm_set_bounds log =
      Reaches-bind needed log log _ (file_read_uint32 kernel last_cap_path) _
        (Reaches-Holds needed log _
          (Holds-last_cap (Both needed log) (Both-later needed log) kernel))
        (λ n. Reaches-drop_bounds log (suc (last_cap n)) 0 41 (last_cap-cap_last_cap n))

  pub Reaches-adjust_capabilities :
      (host : Bool)
      → Reaches needed
          (entered cnt)
          (bounded process cnt)
          (adjust_capabilities kernel process cnt.uid host)
  unfolding adjust_capabilities
  Reaches-adjust_capabilities host =
      next kernel no_pivot process cnt _ _ _ _ _
        (Reaches-Holds needed (entered cnt) _ (
          Holds-keep_caps (Both needed (entered cnt)) (Both-later needed (entered cnt)) kernel
            process cnt.uid (secure_mode process && not host)))
        (Reaches-perm_set_bounds (entered cnt))
