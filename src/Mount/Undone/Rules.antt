-- ===== src/Mount/Undone/Rules.antt =====
-- A logic of mounts at one path: an operation takes over some of them, and where it fails it has
-- taken them off again, but for those whose remount failed.
use libxdxgpu_container.Base.{ℕ, ◌+◌, ◌-◌, ◌≤◌, ◌≡◌, refl, arith}
use libxdxgpu_container.Libc.{Bytes}
use libxdxgpu_container.Error.{Result, ok, err, Failure}
use libxdxgpu_container.Kernel.{
  History, Ended, done, failed, crashed, Op, run, pure, fail, crash, continue, ◌>>=◌, ◌>>◌,
  as_value, return, ask, settle, or_else,
}
use libxdxgpu_container.Kernel.Holds.{Holds}
use libxdxgpu_container.Mount.View.{mounts_at, loose_at}

module _ (p : Bytes) where
  -- The mounts at the path, and the failed remounts, in two logs.
  abbrev Undoes : ℕ → History → History → Type 0
  Undoes k h h' =
      (mounts_at p h' + loose_at p h + k ≤ mounts_at p h + loose_at p h')
      × (loose_at p h ≤ loose_at p h')

  -- From `k` mounts of its own, `a` has `c a`.
  abbrev pub Owns : {A : Type 0} → ℕ → (A → ℕ) → History → History × Ended A → Type 0
  Owns k c h (h', done a) =
      (mounts_at p h' + k ≡ mounts_at p h + c a) × (loose_at p h' ≡ loose_at p h)
  Owns k c h (h', failed e) = Undoes k h h'
  Owns k c h (h', crashed) = Unit

  pub record Own {A : Type 0} (k : ℕ) (c : A → ℕ) (m : Op A) : Type 0 where
    pub runs : (h : History) → k ≤ mounts_at p h → Owns k c h (run m h)

  pub Own-pure : {A : Type 0} (c : A → ℕ) (a : A) → Own (c a) c (pure a)
  Own-pure c a = record { runs = λ h i. (refl, refl) }

  pub Own-fail : {A : Type 0} (c : A → ℕ) (e : Failure) → Own 0 c (fail e)
  Own-fail c e = record { runs = λ h i. (omega arith, omega arith) }

  pub Own-crash : {A : Type 0} (k : ℕ) (c : A → ℕ) → Own k c (crash {A = A})
  Own-crash k c = record { runs = λ h i. tt }

  pub Own-return : {A : Type 0} (r : Result A) → Own 0 (λ (a : A). 0) (return r)
  Own-return (ok a) = record { runs = λ h i. (refl, refl) }
  Own-return (err e) = record { runs = λ h i. (omega arith, omega arith) }

  pub Own-ask : {A : Type 0} (f : History → A) → Own 0 (λ (a : A). 0) (ask f)
  Own-ask f = record { runs = λ h i. (refl, refl) }

  Owns-trans :
      {B : Type 0} (k n : ℕ) (d : B → ℕ) (h h' : History)
      → mounts_at p h' + k ≡ mounts_at p h + n
      → loose_at p h' ≡ loose_at p h
      → (y : History × Ended B) → Owns n d h' y
      → Owns k d h y
  Owns-trans k n d h h' e s (h'', done b) (e', s') = (omega arith, omega arith)
  Owns-trans k n d h h' e s (h'', failed f) (u, v) = (omega arith, omega arith)
  Owns-trans k n d h h' e s (h'', crashed) u = tt

  Owns-continue :
      {A B : Type 0} (k : ℕ) (c : A → ℕ) (d : B → ℕ) (f : A → Op B)
      → ((a : A) → Own (c a) d (f a))
      → (h : History) → k ≤ mounts_at p h
      → (x : History × Ended A) → Owns k c h x
      → Owns k d h (continue f x)
  Owns-continue k c d f l h i (h', done a) (e, s) =
      Owns-trans k (c a) d h h' e s (run (f a) h') ((l a).runs h' (omega (arith, e)))
  Owns-continue k c d f l h i (h', failed e) u = u
  Owns-continue k c d f l h i (h', crashed) u = tt

  pub Own-bind :
      {A B : Type 0} (k : ℕ) (c : A → ℕ) (d : B → ℕ) (m : Op A) (f : A → Op B)
      → Own k c m
      → ((a : A) → Own (c a) d (f a))
      → Own k d (m >>= f)
  Own-bind k c d m f l n = record {
    runs = λ h i. Owns-continue k c d f n h i (run m h) (l.runs h i);
  }

  -- A cleanup takes off `k` mounts, or all if there are fewer; it does not fail.
  abbrev pub Removal : ℕ → History → History × Ended (Unit {0}) → Type 0
  Removal k h (h', done u) = (mounts_at p h' ≤ mounts_at p h - k) × (loose_at p h' ≡ loose_at p h)
  Removal k h (h', failed e) = ⊥
  Removal k h (h', crashed) = Unit

  pub record Removes (k : ℕ) (m : Op (Unit {0})) : Type 0 where
    pub runs : (h : History) → Removal k h (run m h)

  pub Removes-crash : (k : ℕ) → Removes k crash
  Removes-crash k = record { runs = λ h. tt }

  pub Removes-nothing : Removes 0 (pure tt)
  Removes-nothing = record { runs = λ h. (omega arith, refl) }

  Removal-trans :
      (j k : ℕ) (h h' : History)
      → mounts_at p h' ≤ mounts_at p h - j
      → loose_at p h' ≡ loose_at p h
      → (y : History × Ended (Unit {0})) → Removal k h' y
      → Removal (j + k) h y
  Removal-trans j k h h' e s (h'', done u) (e', s') = (omega arith, omega arith)
  Removal-trans j k h h' e s (h'', failed f) v = v
  Removal-trans j k h h' e s (h'', crashed) v = tt

  Removal-continue :
      (j k : ℕ) (n : Op (Unit {0}))
      → Removes k n
      → (h : History) (x : History × Ended (Unit {0})) → Removal j h x
      → Removal (j + k) h (continue (λ _. n) x)
  Removal-continue j k n s h (h', done u) (e, l) = Removal-trans j k h h' e l (run n h') (s.runs h')
  Removal-continue j k n s h (h', failed f) v = v
  Removal-continue j k n s h (h', crashed) v = tt

  pub Removes-then :
      (j k : ℕ) (m n : Op (Unit {0})) → Removes j m → Removes k n → Removes (j + k) (m >> n)
  Removes-then j k m n r s = record { runs = λ h. Removal-continue j k n s h (run m h) (r.runs h) }

  Owns-clean :
      {A : Type 0} (k : ℕ) (c : A → ℕ) (h h' : History) (e : Failure)
      → k ≤ mounts_at p h
      → mounts_at p h' + loose_at p h + 0 ≤ mounts_at p h + loose_at p h'
      → loose_at p h ≤ loose_at p h'
      → (x : History × Ended (Unit {0})) → Removal k h' x
      → Owns k c h (continue (λ _. fail e) x)
  Owns-clean k c h h' e i u v (h'', done t) (w, s) = (omega arith, omega arith)
  Owns-clean k c h h' e i u v (h'', failed f) w = elim w [ ]
  Owns-clean k c h h' e i u v (h'', crashed) w = tt

  Owns-settle :
      {A : Type 0} (k : ℕ) (c : A → ℕ) (clean : Op (Unit {0}))
      → Removes k clean
      → (h : History) → k ≤ mounts_at p h
      → (x : History × Ended A) → Owns 0 c h x
      → Owns k (λ a. k + c a) h (continue (settle clean) (as_value x))
  Owns-settle k c clean r h i (h', done a) (e, s) = (omega arith, s)
  Owns-settle k c clean r h i (h', failed f) (u, v) =
      Owns-clean k (λ a. k + c a) h h' f i u v (run clean h') (r.runs h')
  Owns-settle k c clean r h i (h', crashed) u = tt

  -- What is cleaned up was there before, and stays where nothing fails.
  pub Own-or_else :
      {A : Type 0} (k : ℕ) (c : A → ℕ) (m : Op A) (clean : Op (Unit {0}))
      → Own 0 c m
      → Removes k clean
      → Own k (λ a. k + c a) (or_else m clean)
  Own-or_else k c m clean l r = record {
    runs = λ h i. Owns-settle k c clean r h i (run m h) (l.runs h (omega arith));
  }

  Owns-same :
      {A : Type 0} (h : History) (x : History × Ended A)
      → mounts_at p x.0 ≡ mounts_at p h
      → loose_at p x.0 ≡ loose_at p h
      → Owns 0 (λ (a : A). 0) h x
  Owns-same h (h', done a) e s = (omega arith, s)
  Owns-same h (h', failed f) e s = (omega arith, omega arith)
  Owns-same h (h', crashed) e s = tt

  -- What changes neither mounts nor remounts.
  pub Own-Holds :
      {A : Type 0} (m : Op A)
      → ((n : ℕ) → Holds (λ h. mounts_at p h ≡ n) m)
      → ((n : ℕ) → Holds (λ h. loose_at p h ≡ n) m)
      → Own 0 (λ (a : A). 0) m
  Own-Holds m k l = record {
    runs = λ h i.
        Owns-same h (run m h) ((k (mounts_at p h)).runs h refl) ((l (loose_at p h)).runs h refl);
  }

  Owns-eq :
      {A : Type 0} (j k : ℕ) (c d : A → ℕ)
      → j ≡ k
      → ((a : A) → c a ≡ d a)
      → (h : History) (x : History × Ended A) → Owns j c h x
      → Owns k d h x
  Owns-eq j k c d e f h (h', done a) (u, v) = (omega (arith, f a), v)
  Owns-eq j k c d e f h (h', failed g) (u, v) = (omega arith, v)
  Owns-eq j k c d e f h (h', crashed) u = tt

  pub Own-eq :
      {A : Type 0} (j k : ℕ) (c d : A → ℕ) (m : Op A)
      → j ≡ k
      → ((a : A) → c a ≡ d a)
      → Own j c m
      → Own k d m
  Own-eq j k c d m e f l = record {
    runs = λ h i. Owns-eq j k c d e f h (run m h) (l.runs h (omega arith));
  }

  Removal-fewer :
      (j k : ℕ)
      → j ≤ k
      → (h : History) (x : History × Ended (Unit {0})) → Removal k h x
      → Removal j h x
  Removal-fewer j k i h (h', done u) (e, s) = (omega arith, s)
  Removal-fewer j k i h (h', failed f) v = v
  Removal-fewer j k i h (h', crashed) v = tt

  pub Removes-fewer : (j k : ℕ) (m : Op (Unit {0})) → j ≤ k → Removes k m → Removes j m
  Removes-fewer j k m i r = record { runs = λ h. Removal-fewer j k i h (run m h) (r.runs h) }
