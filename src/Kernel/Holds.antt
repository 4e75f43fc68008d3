-- ===== src/Kernel/Holds.antt =====
-- Properties of the log that every step of an operation keeps.
use libxdxgpu_container.Base.{ℕ, ◌∷◌, Option, none, ◌⊎◌, inl, inr}
use libxdxgpu_container.Libc.{Bytes}
use libxdxgpu_container.Error.{Result, ok, err, Failure}
use libxdxgpu_container.Kernel.{
  Act, History, Kernel, Ended, done, failed, crashed, Op, run, pure, fail, crash, continue, ◌>>=◌,
  ◌>>◌, as_value, try, return, ask, settle, or_else, perform, relabel, error_set, or_errno,
  log_done,
}

-- Whatever a run of `m` ends with, it keeps `I`.
pub record Holds {A : Type 0} (I : History → Type 0) (m : Op A) : Type 0 where
  pub runs : (h : History) → I h → I (run m h).0

module _ (I : History → Type 0) where
  pub Holds-pure : {A : Type 0} (a : A) → Holds I (pure a)
  Holds-pure a = record { runs = λ h i. i }

  pub Holds-fail : {A : Type 0} (e : Failure) → Holds I (fail {A = A} e)
  Holds-fail e = record { runs = λ h i. i }

  pub Holds-crash : {A : Type 0} → Holds I (crash {A = A})
  Holds-crash = record { runs = λ h i. i }

  pub Holds-ask : {A : Type 0} (f : History → A) → Holds I (ask f)
  Holds-ask f = record { runs = λ h i. i }

  pub Holds-return : {A : Type 0} (r : Result A) → Holds I (return r)
  Holds-return (ok a) = record { runs = λ h i. i }
  Holds-return (err e) = record { runs = λ h i. i }

  pub Holds-or_errno : {A : Type 0} (r : ℕ ⊎ A) → Holds I (or_errno r)
  Holds-or_errno (inl e) = record { runs = λ h i. i }
  Holds-or_errno (inr a) = record { runs = λ h i. i }

  Holds-continue :
      {A B : Type 0} (f : A → Op B)
      → ((a : A) → Holds I (f a))
      → (x : History × Ended A) → I x.0
      → I (continue f x).0
  Holds-continue f k (h, done a) i = (k a).runs h i
  Holds-continue f k (h, failed e) i = i
  Holds-continue f k (h, crashed) i = i

  pub Holds-bind :
      {A B : Type 0} (m : Op A) (f : A → Op B)
      → Holds I m
      → ((a : A) → Holds I (f a))
      → Holds I (m >>= f)
  Holds-bind m f l k = record { runs = λ h i. Holds-continue f k (run m h) (l.runs h i) }

  pub Holds-then : {A B : Type 0} (m : Op A) (k : Op B) → Holds I m → Holds I k → Holds I (m >> k)
  Holds-then m k l n = Holds-bind m (λ _. k) l (λ _. n)

  Holds-as_value : {A : Type 0} (x : History × Ended A) → I x.0 → I (as_value x).0
  Holds-as_value (h, done a) i = i
  Holds-as_value (h, failed e) i = i
  Holds-as_value (h, crashed) i = i

  pub Holds-try : {A : Type 0} (m : Op A) → Holds I m → Holds I (try m)
  Holds-try m l = record { runs = λ h i. Holds-as_value (run m h) (l.runs h i) }

  pub Holds-settle :
      {A : Type 0} (clean : Op (Unit {0})) (r : Result A) → Holds I clean → Holds I (settle clean r)
  Holds-settle clean (ok a) l = Holds-pure a
  Holds-settle clean (err e) l = Holds-then clean (fail e) l (Holds-fail e)

  pub Holds-or_else :
      {A : Type 0} (m : Op A) (clean : Op (Unit {0}))
      → Holds I m
      → Holds I clean
      → Holds I (or_else m clean)
  Holds-or_else m clean l k =
      Holds-bind (try m) (settle clean) (Holds-try m l) (λ r. Holds-settle clean r k)

  Holds-relabel : {A : Type 0} (text : Bytes) (r : Result A) → Holds I (relabel text r)
  Holds-relabel text (ok a) = Holds-pure a
  Holds-relabel text (err e) = Holds-fail _

  pub Holds-error_set :
      {A : Type 0} (text : Bytes) (m : Op A) → Holds I m → Holds I (error_set text m)
  Holds-error_set text m l =
      Holds-bind (try m) (relabel text) (Holds-try m l) (λ r. Holds-relabel text r)

  pub Holds-perform :
      (kernel : Kernel) (act : Act)
      → ((h : History) (r : Option ℕ) → I h → I ((act, r) ∷ h))
      → Holds I (perform kernel act)
  unfolding perform
  Holds-perform kernel act k = record { runs = λ h i. k h (kernel.answer h act) i }

  pub Holds-log_done :
      (act : Act) → ((h : History) (r : Option ℕ) → I h → I ((act, r) ∷ h)) → Holds I (log_done act)
  unfolding log_done
  Holds-log_done act k = record { runs = λ h i. k h none i }
