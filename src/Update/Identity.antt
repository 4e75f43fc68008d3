-- ===== src/Update/Identity.antt =====
-- src/nvc_ldcache.c and src/utils.c: the ids of the new process are checked when they are changed.
use libxdxgpu_container.Base.{ℕ, ◌≡◌, refl, Bool, true, false, not, ◌&&◌, ◌||◌, ◌==◌, ◌⊎◌, inl, inr}
use libxdxgpu_container.Libc.{codes}
use libxdxgpu_container.Container.{NvcContainer}
use libxdxgpu_container.Kernel.{
  History, Kernel, confine, no_setuid_fixup, no_new_privs, setregid, setreuid, Op, run, ◌>>=◌, ◌>>◌,
  ask, or_errno,
}
use libxdxgpu_container.Kernel.Holds.{Holds-ask, Holds-or_errno, Holds-bind}
use libxdxgpu_container.File.{eperm, when, demand}
use libxdxgpu_container.Process.{Process, call, drop_groups, change_ids, perm_drop_privileges}
use libxdxgpu_container.Update.{adjust_privileges}
use libxdxgpu_container.Update.Kept.{Holds-call, Holds-when, Holds-ignoring, Holds-drop_groups}
use libxdxgpu_container.Update.Confined.{
  Log, Ever, Ever-now, behind, seen_both, Both, Both-later, After, Reaches, Reaches-Holds,
  Reaches-error_set, Reaches-call,
}
use libxdxgpu_container.Update.Steps.{owned, steps, next, kept}

-- What is known of the ids while they are changed: those that were the ones of the container when
-- they were asked for first were so behind `log`.
abbrev asked : Process → (uid gid euid egid : ℕ) → Log → Log
asked process uid gid euid egid log = record {
  holds = λ h.
      ((egid == gid) ≡ true → Ever (λ k. ((process.egid k == gid) ≡ true) × log.holds k) h)
      × ((euid == uid) ≡ true → Ever (λ k. ((process.euid k == uid) ≡ true) × log.holds k) h)
      × log.holds h;
  grows = λ e h (p, q, s). (λ t. inr (p t), λ t. inr (q t), log.grows e h s);
}

||-cases : (a b : Bool) → (a || b) ≡ true → (a ≡ true) ⊎ (b ≡ true)
||-cases true b h = inl refl
||-cases false b h = inr h

&&-cases : (a b : Bool) → (a && b) ≡ true → (a ≡ true) × (b ≡ true)
&&-cases true b h = (refl, h)
&&-cases false b h = cc

module _ (kernel : Kernel) (no_pivot : Bool) (process : Process) (cnt : NvcContainer) where
  abbrev needed : Bool → Log
  needed = steps no_pivot process cnt

  demanded :
      (cs ds es : Log) (h : History) (k : Op (Unit {0})) (b : Bool)
      → Both needed cs h
      → (b ≡ true → ds.holds h)
      → Reaches needed ds es k
      → After needed es (run (demand b eperm >> k) h)
  demanded cs ds es h k true (g, s) d l = l.runs h (g, d refl)
  demanded cs ds es h k false (g, s) d l = g

  -- The last part: the ids are asked for again, and no new privileges are allowed.
  Reaches-checked :
      (log : Log) (uid gid euid egid : ℕ)
      → Reaches needed
          (asked process uid gid euid egid log)
          (behind (confine no_new_privs) (owned process uid gid log))
          (ask (λ h. process.egid h) >>= λ g. ask (λ h. process.euid h) >>= λ u.
            demand ((egid == gid || g == gid) && (euid == uid || u == uid)) eperm
            >> call kernel no_new_privs)
  unfolding seen_both
  Reaches-checked log uid gid euid egid =
      let ds : Log = owned process uid gid log in
      record {
        runs = λ h (g, (p, q, s)).
            demanded (asked process uid gid euid egid log) ds (behind (confine no_new_privs) ds) h
              (call kernel no_new_privs) _ (g, (p, q, s))
              (λ t.
                let (t, v) = &&-cases _ _ t in
                (
                  elim (||-cases (egid == gid) (process.egid h == gid) t) [
                    | inl old ↦ p old
                    | inr now ↦
                        Ever-now (λ k. ((process.egid k == gid) ≡ true) × log.holds k) h (now, s)
                  ],
                  elim (||-cases (euid == uid) (process.euid h == uid) v) [
                    | inl old ↦ q old
                    | inr now ↦
                        Ever-now (λ k. ((process.euid k == uid) ≡ true) × log.holds k) h (now, s)
                  ],
                ))
              (Reaches-call needed kernel ds no_new_privs (λ host argv e. cc));
      }

  Reaches-change_ids :
      (log : Log) (uid gid : ℕ) (drop : Bool) (euid egid : ℕ)
      → Reaches needed
          (asked process uid gid euid egid log)
          (behind (confine no_new_privs) (owned process uid gid log))
          (change_ids kernel process uid gid drop euid egid)
  unfolding change_ids
  Reaches-change_ids log uid gid drop euid egid =
      let cs : Log = asked process uid gid euid egid log in
      let I : History → Type 0 = Both needed cs in
      let keeps = Both-later needed cs in
      let groups : Op (Unit {0}) =
        (ask (λ h. process.groups h) >>= or_errno) >>= drop_groups kernel gid in
      next kernel no_pivot process cnt cs cs _ (when drop groups) _
        (Reaches-Holds needed cs _ (
          Holds-when I keeps kernel drop groups (
            Holds-bind I _ _ (Holds-bind I _ _ (Holds-ask I _) (Holds-or_errno I))
              (Holds-drop_groups I keeps kernel gid))))
        (next kernel no_pivot process cnt cs cs _ _ _
          (Reaches-Holds needed cs _ (
            Holds-when I keeps kernel (not (egid == gid)) _
              (Holds-call I keeps kernel (setregid gid) (λ host argv e. cc))))
          (next kernel no_pivot process cnt cs cs _ _ _
            (Reaches-Holds needed cs _ (
              Holds-when I keeps kernel (not (euid == uid)) _
                (Holds-call I keeps kernel (setreuid uid) (λ host argv e. cc))))
            (Reaches-checked log uid gid euid egid)))

  Reaches-drop :
      (log : Log) (uid gid : ℕ) (drop : Bool)
      → Reaches needed log
          (behind (confine no_new_privs) (owned process uid gid log))
          (perm_drop_privileges kernel process uid gid drop)
  unfolding perm_drop_privileges
  Reaches-drop log uid gid drop = record {
    runs = λ h (g, s).
        (Reaches-error_set needed (asked process uid gid (process.euid h) (process.egid h) log)
            (behind (confine no_new_privs) (owned process uid gid log))
            (codes "privilege change failed")
            (change_ids kernel process uid gid drop (process.euid h) (process.egid h))
            (Reaches-change_ids log uid gid drop (process.euid h) (process.egid h))).runs
          h
          (
            g,
            (
              λ t. Ever-now (λ k. ((process.egid k == gid) ≡ true) × log.holds k) h (t, s),
              λ t. Ever-now (λ k. ((process.euid k == uid) ≡ true) × log.holds k) h (t, s),
              s,
            ),
          );
  }

  pub Reaches-adjust_privileges :
      (log : Log) (uid gid : ℕ) (drop : Bool)
      → Reaches needed log
          (behind (confine no_new_privs) (owned process uid gid log))
          (adjust_privileges kernel process uid gid drop)
  unfolding adjust_privileges
  Reaches-adjust_privileges log uid gid drop =
      next kernel no_pivot process cnt log log _ _ _
        (Reaches-Holds needed log _ (
          Holds-when _ (Both-later needed log) kernel (not (uid == 0)) _ (
            Holds-ignoring _ (Both-later needed log) kernel eperm _ (
              kept kernel no_pivot process cnt log no_setuid_fixup (λ host argv e. cc)
                (codes "privilege change failed")))))
        (Reaches-drop log uid gid drop)
