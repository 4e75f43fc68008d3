-- ===== src/Update/Outcome.antt =====
-- src/nvc_ldcache.c: what a success of nvc_ldcache_update means.
use libxdxgpu_container.Base.{
  ℕ, ◌≡◌, refl, subst, Bool, true, false, List, [], ◌∷◌, Option, none, some, Option-cases, ◌==◌,
  inl, inr, Bool-cases,
}
use libxdxgpu_container.Libc.{Bytes}
use libxdxgpu_container.Utils.Ids.{enoent}
use libxdxgpu_container.Container.{NvcContainer}
use libxdxgpu_container.Kernel.{
  History, Kernel, confine, exec, Ended, done, failed, crashed, Op, run, continue, ◌>>◌, ask,
}
use libxdxgpu_container.Kernel.Holds.{Holds, Holds-pure, Holds-fail, Holds-ask, Holds-bind}
use libxdxgpu_container.File.{has_errno}
use libxdxgpu_container.Mount.{NvcContext, validate, readable}
use libxdxgpu_container.Process.{Process, Status, exited, signalled}
use libxdxgpu_container.Update.{
  ends_as, reported, open_ldconfig, unless_errno_of, command, child, spawn_and_wait,
  nvc_ldcache_update,
}
use libxdxgpu_container.Update.Confined.{Guarded, anywhere, behind, After}
use libxdxgpu_container.Update.Steps.{steps}
use libxdxgpu_container.Update.Executed.{child-Reaches}

-- A sequence that succeeds went through its first part.
abbrev Passed : {A B : Type 0} → (A → Op B) → History × Ended A → History × Ended B → Type 0
Passed {A = A} f x y = (a : A) × (h : History) × (x ≡ (h, done a)) × (run (f a) h ≡ y)

passed :
    {A B : Type 0} (f : A → Op B) (h' : History) (b : B) (x : History × Ended A)
    → continue f x ≡ (h', done b)
    → Passed f x (h', done b)
passed f h' b (h, done a) q = (a, h, refl, q)
passed f h' b (h, failed e) q = cc
passed f h' b (h, crashed) q = cc

abbrev is_success : Status → Bool
is_success (exited n) = n == 0
is_success (signalled n) = false

reported-is_success :
    (s : Status) (h h' : History) (u : Unit {0})
    → run (reported s) h ≡ (h', done u)
    → is_success s ≡ true
reported-is_success (exited n) h h' u q = elim (Bool-cases (n == 0)) [
  | inl e ↦ e
  | inr e ↦ cc (rw e at q)
]
reported-is_success (signalled n) h h' u q = cc

-- The queries before and around the new process change nothing.
module _ (start : History) where
  abbrev Same : History → Type 0
  Same h = h ≡ start

  Same-unless_errno : (text : Bytes) (r : Option ℕ) → Holds Same (unless_errno_of text r)
  Same-unless_errno text none = Holds-pure Same tt
  Same-unless_errno text (some errno) = Holds-fail Same _

  Same-validate : (ctx : NvcContext) → Holds Same (validate ctx)
  Same-validate ctx = elim (Bool-cases ctx.initialized) [
    | inl e ↦ rw e (Holds-pure Same tt)
    | inr e ↦ rw e (Holds-fail Same _)
  ]

  Same-readable : (path : Bytes) (r : Option ℕ) → Holds Same (readable path r)
  Same-readable path none = Holds-pure Same tt
  Same-readable path (some errno) = Holds-fail Same _

  Same-open_ldconfig :
      (kernel : Kernel) (c : List Bytes × Bool) → Holds Same (open_ldconfig kernel c)
  unfolding open_ldconfig
  Same-open_ldconfig kernel (path ∷ args, true) =
      Holds-bind Same (ask (λ h. kernel.open_read h path)) _ (Holds-ask Same _) (Same-readable path)
  Same-open_ldconfig kernel (path ∷ args, false) = Holds-pure Same tt
  Same-open_ldconfig kernel ([], host) = Holds-pure Same tt

  same :
      {A : Type 0} (m : Op A)
      → Holds Same m
      → {h : History} {a : A} → run m start ≡ (h, done a)
      → h ≡ start
  same m l {h = h} e = subst (λ x. x.0 ≡ start) e (l.runs start refl)

-- The program was executed behind the steps and exited with 0, or a step failed with ENOENT.
abbrev pub Ran :
    Bool → Process → NvcContainer → List Bytes × Bool → History × Ended (Unit {0}) → Type 0
Ran no_pivot process cnt c (h, done u) =
    (is_success (process.status h) ≡ true)
    × (behind (confine (exec c.1 c.0)) (steps no_pivot process cnt c.1)).holds h
Ran no_pivot process cnt c (h, failed e) = has_errno enoent e ≡ true
Ran no_pivot process cnt c (h, crashed) = true ≡ false

Ran-ended :
    (no_pivot : Bool) (process : Process) (cnt : NvcContainer) (c : List Bytes × Bool)
    (x : History × Ended (Unit {0}))
    → After
        (steps no_pivot process cnt)
        (behind (confine (exec c.1 c.0)) (steps no_pivot process cnt c.1))
        x
    → is_success (ends_as process x) ≡ true
    → Ran no_pivot process cnt c x
unfolding is_success
Ran-ended no_pivot process cnt c (h, done u) i s = (s, i.1)
Ran-ended no_pivot process cnt c (h, failed e) i s = elim (Bool-cases (has_errno enoent e)) [
  | inl t ↦ t
  | inr t ↦ cc (rw t at s)
]
Ran-ended no_pivot process cnt c (h, crashed) i s = cc

waited :
    (kernel : Kernel) (process : Process) (ctx : NvcContext) (cnt : NvcContainer)
    (c : List Bytes × Bool) (h h' : History) (u : Unit {0})
    → run (spawn_and_wait kernel process ctx cnt c) h ≡ (h', done u)
    → is_success (ends_as process (run (child kernel process ctx cnt c) h)) ≡ true
unfolding spawn_and_wait
waited kernel process ctx cnt c h h' u q = elim (Option-cases (process.clone h)) [
  | inr (errno, e) ↦ cc (rw e at q)
  | inl e ↦ elim (Option-cases (process.wait h)) [
    | inr (errno, w) ↦ cc (rw (e, w) at q)
    | inl w ↦
        reported-is_success (ends_as process (run (child kernel process ctx cnt c) h)) h h' u
          (rw (e, w) at q)
  ]
]

-- From a log in which every program was executed behind the steps it needs, nvc_ldcache_update
-- succeeds only if its new process executed the command and the program exited with 0, or if a step
-- of the new process failed with ENOENT. In the first case the command was executed behind these
-- steps, in this order: the mount namespace of the container was entered; each capability up to
-- CAP_LAST_CAP was seen to be out of the bounding set or was dropped from it; the mount namespace
-- was left and made private, and the root of the container was mounted on itself; that root was
-- moved to "/", or pivot_root put it there and the old root was detached; chroot was called; /proc
-- was mounted or hidden, /sys and /dev were hidden, and /dev was made read-only again; the four
-- limits were set; each effective id was seen to be that of the container; no new privileges were
-- allowed; and the filter of the system calls was loaded.
pub nvc_ldcache_update-Ran :
    (kernel : Kernel) (process : Process) (ctx : NvcContext) (cnt : NvcContainer) (h h' : History)
    → Guarded (steps ctx.no_pivot process cnt) h
    → run (nvc_ldcache_update kernel process ctx cnt) h ≡ (h', done tt)
    → Ran ctx.no_pivot process cnt
        (command cnt)
        (run (child kernel process ctx cnt (command cnt)) h)
unfolding nvc_ldcache_update anywhere
nvc_ldcache_update-Ran kernel process ctx cnt h h' g q =
    let c = command cnt in
    let before : Op (Unit {0}) = validate ctx >> open_ldconfig kernel c in
    let (u, h1, e, r) =
      passed (λ _. spawn_and_wait kernel process ctx cnt c) h' tt (run before h) q in
    let s : h1 ≡ h =
      same h before
        (Holds-bind (Same h) (validate ctx) _ (Same-validate h ctx)
          (λ _. Same-open_ldconfig h kernel c))
        e in
    Ran-ended ctx.no_pivot process cnt c (run (child kernel process ctx cnt c) h)
      ((child-Reaches kernel process ctx cnt c.0 c.1).runs h (g, tt))
      (waited kernel process ctx cnt c h h' tt
        (subst (λ x. run (spawn_and_wait kernel process ctx cnt c) x ≡ (h', done tt)) s r))
