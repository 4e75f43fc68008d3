-- ===== src/Update/Confined.antt =====
-- src/nvc_ldcache.c: behind which calls of the new process its program is executed.
use libxdxgpu_container.Base.{
  ℕ, ◌≡◌, ◌≢◌, refl, ap, subst, Bool, true, false, List, [], ◌∷◌, Option, none, some, ◌⊎◌, inl, inr,
  Option-cases,
}
use libxdxgpu_container.Libc.{Bytes}
use libxdxgpu_container.Kernel.{
  Act, Event, History, Kernel, Confinement, confine, exec, Ended, done, failed, crashed, Op, run,
  continue, ◌>>=◌, as_value, perform, relabel, error_set,
}
use libxdxgpu_container.Kernel.Holds.{Holds}
use libxdxgpu_container.Process.{call}

-- What a log says, which it goes on to say whatever calls follow.
pub record Log : Type 1 where
  pub holds : History → Type 0
  pub grows : (e : Event) (h : History) → holds h → holds (e ∷ h)

-- At this log, or at one of those before it.
abbrev pub Ever : (History → Type 0) → History → Type 0
Ever P [] = P []
Ever P (e ∷ h) = P (e ∷ h) ⊎ Ever P h

pub Ever-now : (P : History → Type 0) (h : History) → P h → Ever P h
Ever-now P [] p = p
Ever-now P (e ∷ h) p = inl p

abbrev pub ever : (History → Type 0) → Log
ever P = record { holds = Ever P; grows = λ e h p. inr p }

-- The last call is this one, and it succeeded.
abbrev pub IsLast : Act → History → Type 0
IsLast a [] = ⊥
IsLast a (e ∷ h) = e ≡ (a, none)

-- The last call is this one, it succeeded, and the log said `log` before it.
abbrev pub IsBehind : Act → Log → History → Type 0
IsBehind a log [] = ⊥
IsBehind a log (e ∷ h) = (e ≡ (a, none)) × log.holds h

-- The last call is this one, and it succeeded, or the test is true, and the log says `log`.
abbrev pub IsLastOrSeen : Act → (History → Bool) → Log → History → Type 0
IsLastOrSeen a test log h = (IsLast a h ⊎ (test h ≡ true)) × log.holds h

-- Nothing
unfoldable pub anywhere : Log
anywhere = record { holds = λ h. Unit; grows = λ e h u. u }

-- The call succeeded, behind `log`, with other calls between them.
unfoldable pub behind : Act → Log → Log
behind a log = ever (IsBehind a log)

-- The call succeeded, or the test was true, behind `log`.
unfoldable pub behind_or_seen : Act → (History → Bool) → Log → Log
behind_or_seen a test log = ever (IsLastOrSeen a test log)

-- The two tests were true, each at some time behind `log`.
unfoldable pub seen_both : (History → Bool) → (History → Bool) → Log → Log
seen_both f g log = record {
  holds = λ h. Ever (λ k. (f k ≡ true) × log.holds k) h × Ever (λ k. (g k ≡ true) × log.holds k) h;
  grows = λ e h (p, q). (inr p, inr q);
}

-- What was said at some time is said.
pub Ever-holds :
    (P : History → Type 0) (log : Log)
    → ((h : History) → P h → log.holds h)
    → (h : History) → Ever P h
    → log.holds h
Ever-holds P log k [] p = k [] p
Ever-holds P log k (e ∷ h) (inl p) = k (e ∷ h) p
Ever-holds P log k (e ∷ h) (inr p) = log.grows e h (Ever-holds P log k h p)

module _ (needed : Bool → Log) where
  -- Every program was executed behind the steps that it needs.
  abbrev pub Guarded : History → Type 0
  Guarded [] = Unit
  Guarded ((a, r) ∷ h) =
      ((host : Bool) (argv : List Bytes) → a ≡ confine (exec host argv) → (needed host).holds h)
      × Guarded h

  abbrev pub Both : Log → History → Type 0
  Both cs h = Guarded h × cs.holds h

  abbrev IsNoExec : Act → Type 0
  IsNoExec a = (host : Bool) (argv : List Bytes) → a ≢ confine (exec host argv)

  pub Both-later :
      (cs : Log) (a : Act)
      → IsNoExec a
      → (h : History) (r : Option ℕ) → Both cs h
      → Both cs ((a, r) ∷ h)
  Both-later cs a n h r (g, s) = ((λ host argv e. elim (n host argv e) [ ], g), cs.grows (a, r) h s)

  -- Where an operation succeeds, more steps were made.
  abbrev pub After : {A : Type 0} → Log → History × Ended A → Type 0
  After ds (h, done a) = Both ds h
  After ds (h, failed e) = Guarded h
  After ds (h, crashed) = Guarded h

  pub record Reaches {A : Type 0} (cs ds : Log) (m : Op A) : Type 0 where
    pub runs : (h : History) → Both cs h → After ds (run m h)

  After-weaken :
      {A : Type 0} (ds es : Log)
      → ((h : History) → ds.holds h → es.holds h)
      → (x : History × Ended A) → After ds x
      → After es x
  After-weaken ds es w (h, done a) (g, s) = (g, w h s)
  After-weaken ds es w (h, failed e) i = i
  After-weaken ds es w (h, crashed) i = i

  After-any : {A : Type 0} (cs : Log) (x : History × Ended A) → Both cs x.0 → After cs x
  After-any cs (h, done a) i = i
  After-any cs (h, failed e) i = i.0
  After-any cs (h, crashed) i = i.0

  pub Reaches-Holds : {A : Type 0} (cs : Log) (m : Op A) → Holds (Both cs) m → Reaches cs cs m
  Reaches-Holds cs m l = record { runs = λ h i. After-any cs (run m h) (l.runs h i) }

  After-continue :
      {A B : Type 0} (ds es : Log) (f : A → Op B)
      → ((a : A) → Reaches ds es (f a))
      → (x : History × Ended A) → After ds x
      → After es (continue f x)
  After-continue ds es f k (h, done a) i = (k a).runs h i
  After-continue ds es f k (h, failed e) i = i
  After-continue ds es f k (h, crashed) i = i

  pub Reaches-bind :
      {A B : Type 0} (cs ds es : Log) (m : Op A) (f : A → Op B)
      → Reaches cs ds m
      → ((a : A) → Reaches ds es (f a))
      → Reaches cs es (m >>= f)
  Reaches-bind cs ds es m f l k = record {
    runs = λ h i. After-continue ds es f k (run m h) (l.runs h i);
  }

  After-error_set :
      {A : Type 0} (ds : Log) (text : Bytes) (x : History × Ended A)
      → After ds x
      → After ds (continue (relabel text) (as_value x))
  After-error_set ds text (h, done a) i = i
  After-error_set ds text (h, failed e) i = i
  After-error_set ds text (h, crashed) i = i

  pub Reaches-error_set :
      {A : Type 0} (cs ds : Log) (text : Bytes) (m : Op A)
      → Reaches cs ds m
      → Reaches cs ds (error_set text m)
  Reaches-error_set cs ds text m l = record {
    runs = λ h i. After-error_set ds text (run m h) (l.runs h i);
  }

  -- A step that succeeds is added.
  pub Reaches-perform :
      (kernel : Kernel) (cs : Log) (a : Act)
      → IsNoExec a
      → Reaches cs (behind a cs) (perform kernel a)
  unfolding perform behind
  Reaches-perform kernel cs a n = record {
    runs = λ h (g, s). elim (Option-cases (kernel.answer h a)) [
      | inl e ↦ rw e ((Both-later cs a n h none (g, s)).0, inl (refl, s))
      | inr (errno, e) ↦ rw e ((Both-later cs a n h (some errno) (g, s)).0)
    ];
  }

  pub Reaches-call :
      (kernel : Kernel) (cs : Log) (c : Confinement)
      → IsNoExec (confine c)
      → Reaches cs (behind (confine c) cs) (call kernel c)
  unfolding call
  Reaches-call kernel cs c n = Reaches-perform kernel cs (confine c) n

  pub Reaches-weaken :
      {A : Type 0} (cs ds es : Log) (m : Op A)
      → ((h : History) → ds.holds h → es.holds h)
      → Reaches cs ds m
      → Reaches cs es m
  Reaches-weaken cs ds es m w l = record {
    runs = λ h i. After-weaken ds es w (run m h) (l.runs h i);
  }

  host_of : Act → Bool
  host_of (confine (exec host argv)) = host
  host_of a = false

  exec-allowed :
      (cs : Bool → Log) (h : History) (host host' : Bool) (argv argv' : List Bytes)
      → (cs host).holds h
      → confine (exec host argv) ≡ confine (exec host' argv')
      → (cs host').holds h
  unfolding host_of
  exec-allowed cs h host host' argv argv' s e = subst (λ b. (cs b).holds h) (ap host_of e) s

  -- The program itself
  pub Reaches-exec :
      (kernel : Kernel) (host : Bool) (argv : List Bytes)
      → Reaches
          (needed host)
          (behind (confine (exec host argv)) (needed host))
          (call kernel (exec host argv))
  unfolding perform call behind
  Reaches-exec kernel host argv = record {
    runs = λ h (g, s). elim (Option-cases (kernel.answer h (confine (exec host argv)))) [
      | inl e ↦
          rw e
            (((λ host' argv' a. exec-allowed needed h host host' argv argv' s a), g), inl (refl, s))
      | inr (errno, e) ↦
          rw e ((λ host' argv' a. exec-allowed needed h host host' argv argv' s a), g)
    ];
  }
