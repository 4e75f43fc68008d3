-- ===== src/File/Total.antt =====
-- src/utils.c: make_ancestors ends.
use libxdxgpu_container.Base.{
  ℕ, zero, suc, ◌<◌, Bool, true, false, Option, none, some, ◌==◌, ◌⊎◌, inl, inr, length, arith,
  Bool-cases,
}
use libxdxgpu_container.Libc.{Bytes, strrchr}
use libxdxgpu_container.Libc.TextLaws.{Last, strrchr-Last}
use libxdxgpu_container.Base.{ap, length-append}
use libxdxgpu_container.Utils.Ids.{enoent}
use libxdxgpu_container.Kernel.{
  Act, mkdir, Stat, History, Kernel, Ended, done, failed, crashed, Op, run, pure, fail, answered,
  continue, as_value, try, or_errno, symlink, write_file, setfsuid, setfsgid, raise_dac_override,
  ◌>>=◌, ask, perform,
}
use libxdxgpu_container.Error.{Result, ok, err, Failure}
use libxdxgpu_container.File.Paths.{dirname}
use libxdxgpu_container.File.{
  eperm, eexist, has_errno, unless_errno, ignoring, when, demand, restore_dac_override, set_fsugid,
  is_link, link_to, opened, make_file, create_as, is_directory, is_there, ends_ancestors,
  make_below, make_missing, unless_ended, make_ancestors,
}

abbrev pub IsAlive : {A : Type 0} → Ended A → Type 0
IsAlive (done a) = Unit
IsAlive (failed e) = Unit
IsAlive crashed = ⊥

-- An operation that ends with a value or an error.
pub record Lives {A : Type 0} (m : Op A) : Type 0 where
  pub runs : (h : History) → IsAlive (run m h).1

pub Lives-pure : {A : Type 0} (a : A) → Lives (pure a)
Lives-pure a = record { runs = λ h. tt }

IsAlive-answered : (r : Option ℕ) → IsAlive (answered r)
IsAlive-answered none = tt
IsAlive-answered (some errno) = tt

Lives-perform : (kernel : Kernel) (a : Act) → Lives (perform kernel a)
unfolding perform
Lives-perform kernel a = record { runs = λ h. IsAlive-answered (kernel.answer h a) }

IsAlive-continue :
    {A B : Type 0} (f : A → Op B)
    → ((a : A) → Lives (f a))
    → (x : History × Ended A) → IsAlive x.1
    → IsAlive (continue f x).1
IsAlive-continue f k (h, done a) i = (k a).runs h
IsAlive-continue f k (h, failed e) i = tt
IsAlive-continue f k (h, crashed) i = elim i [ ]

pub Lives-bind :
    {A B : Type 0} (m : Op A) (f : A → Op B) → Lives m → ((a : A) → Lives (f a)) → Lives (m >>= f)
Lives-bind m f l k = record { runs = λ h. IsAlive-continue f k (run m h) (l.runs h) }

Lives-is_there : (r : ℕ ⊎ Stat) → Lives (is_there r)
Lives-is_there (inr s) = elim (Bool-cases (is_directory s.mode)) [
  | inl e ↦ rw e (Lives-pure true)
  | inr e ↦ rw e (record { runs = λ h. tt })
]
Lives-is_there (inl errno) = elim (Bool-cases (errno == enoent)) [
  | inl e ↦ rw e (Lives-pure false)
  | inr e ↦ rw e (record { runs = λ h. tt })
]

shorter :
    (path before rest : Bytes) → Last b'/' path (some (before, rest)) → length before < length path
shorter path before rest (t, e, f, g) =
    omega (arith, ap length f, ap length e, length-append before rest)

Lives-below :
    (kernel : Kernel) (path : Bytes) (perm : ℕ) (above : Bytes → Op (Unit {0}))
    → ((before : Bytes) → length before < length path → Lives (above before))
    → (o : Option (Bytes × Bytes)) → Last b'/' path o
    → Lives (make_below kernel path perm above o)
unfolding make_below
Lives-below kernel path perm above k none l = Lives-perform kernel (mkdir path perm)
Lives-below kernel path perm above k (some (before, rest)) l =
    Lives-bind (above before) _ (k before (shorter path before rest l))
      (λ u. Lives-perform kernel (mkdir path perm))

Lives-missing :
    (kernel : Kernel) (path : Bytes) (perm : ℕ) (above : Bytes → Op (Unit {0}))
    → ((before : Bytes) → length before < length path → Lives (above before))
    → (there : Bool) → Lives (make_missing kernel path perm above there)
unfolding make_missing
Lives-missing kernel path perm above k true = Lives-pure tt
Lives-missing kernel path perm above k false =
    Lives-below kernel path perm above k (strrchr path b'/') (strrchr-Last path b'/')

-- Fuel that is more than the length of the path is enough.
make_ancestors-Lives :
    (kernel : Kernel) (fuel : ℕ) (path : Bytes) (perm : ℕ)
    → length path < fuel
    → Lives (make_ancestors kernel fuel path perm)
unfolding make_ancestors unless_ended
make_ancestors-Lives kernel zero path perm i = elim i [ ]
make_ancestors-Lives kernel (suc fuel) path perm i = elim (Bool-cases (ends_ancestors path)) [
  | inl e ↦ rw e (Lives-pure tt)
  | inr e ↦ rw e (
      Lives-bind (ask (λ h. kernel.stat h path)) _ (record { runs = λ h. tt })
        (λ r. Lives-bind (is_there r) _ (Lives-is_there r) (
          Lives-missing kernel path perm (λ before. make_ancestors kernel fuel before perm)
            (λ before l. make_ancestors-Lives kernel fuel before perm (omega arith)))))
]

IsAlive-as_value : {A : Type 0} (x : History × Ended A) → IsAlive x.1 → IsAlive (as_value x).1
IsAlive-as_value (h, done a) i = tt
IsAlive-as_value (h, failed e) i = tt
IsAlive-as_value (h, crashed) i = i

pub Lives-try : {A : Type 0} (m : Op A) → Lives m → Lives (try m)
Lives-try m l = record { runs = λ h. IsAlive-as_value (run m h) (l.runs h) }

pub Lives-fail : {A : Type 0} (e : Failure) → Lives (fail {A = A} e)
Lives-fail e = record { runs = λ h. tt }

pub Lives-ask : {A : Type 0} (f : History → A) → Lives (ask f)
Lives-ask f = record { runs = λ h. tt }

Lives-demand : (b : Bool) (n : ℕ) → Lives (demand b n)
Lives-demand true n = Lives-pure tt
Lives-demand false n = Lives-fail _

pub Lives-when : (b : Bool) (m : Op (Unit {0})) → Lives m → Lives (when b m)
Lives-when true m l = l
Lives-when false m l = Lives-pure tt

pub Lives-or_errno : {A : Type 0} (r : ℕ ⊎ A) → Lives (or_errno r)
Lives-or_errno (inl e) = Lives-fail _
Lives-or_errno (inr a) = Lives-pure a

Lives-set_fsugid : (kernel : Kernel) (uid gid : ℕ) → Lives (set_fsugid kernel uid gid)
unfolding set_fsugid restore_dac_override
Lives-set_fsugid kernel uid gid =
    Lives-bind (try (perform kernel (setfsgid gid))) _
      (Lives-try _ (Lives-perform kernel (setfsgid gid)))
      (λ u. Lives-bind (ask (λ h. kernel.fsgid h)) _ (Lives-ask _) (λ g.
        Lives-bind (demand (g == gid) eperm) _ (Lives-demand (g == gid) eperm) (λ u.
          Lives-bind (try (perform kernel (setfsuid uid))) _
            (Lives-try _ (Lives-perform kernel (setfsuid uid)))
            (λ u. Lives-bind (ask (λ h. kernel.fsuid h)) _ (Lives-ask _) (λ f.
              Lives-bind (demand (f == uid) eperm) _ (Lives-demand (f == uid) eperm) (λ u.
                Lives-bind (or_errno kernel.dac_override_permitted) _ (Lives-or_errno _)
                  (λ b. Lives-when b _ (Lives-perform kernel raise_dac_override))))))))

Lives-unless_errno : (n : ℕ) (r : Result (Unit {0})) → Lives (unless_errno n r)
Lives-unless_errno n (ok u) = Lives-pure tt
Lives-unless_errno n (err e) = elim (Bool-cases (has_errno n e)) [
  | inl t ↦ rw t (Lives-pure tt)
  | inr t ↦ rw t (Lives-fail e)
]

Lives-ignoring : (n : ℕ) (m : Op (Unit {0})) → Lives m → Lives (ignoring n m)
Lives-ignoring n m l = Lives-bind (try m) _ (Lives-try m l) (Lives-unless_errno n)

Lives-link_to :
    (kernel : Kernel) (path : Bytes) (content : Option Bytes) → Lives (link_to kernel path content)
unfolding link_to
Lives-link_to kernel path none = Lives-fail _
Lives-link_to kernel path (some target) =
    Lives-ignoring eexist _ (Lives-perform kernel (symlink target path))

Lives-opened : (r : Result (Unit {0})) → Lives (opened r)
Lives-opened (ok u) = Lives-pure tt
Lives-opened (err e) = Lives-fail _

Lives-make_file :
    (kernel : Kernel) (path : Bytes) (content : Option Bytes) (mode perm : ℕ)
    → Lives (make_file kernel path content mode perm)
unfolding make_file
Lives-make_file kernel path content mode perm = elim (Bool-cases (is_directory mode)) [
  | inl e ↦ rw e (Lives-ignoring eexist _ (Lives-perform kernel (mkdir path perm)))
  | inr e ↦ elim (Bool-cases (is_link mode)) [
    | inl f ↦ rw (e, f) (Lives-link_to kernel path content)
    | inr f ↦
        rw (e, f)
          (Lives-bind (try (perform kernel (write_file path content perm))) _
            (Lives-try _ (Lives-perform kernel (write_file path content perm))) Lives-opened)
  ]
]

-- Making a file with its directories always ends, with success or an error: make_ancestors, which
-- calls itself for the directory above, reaches one that is there, or none that is left.
pub create_as-Lives :
    (kernel : Kernel) (path : Bytes) (content : Option Bytes) (uid gid mode : ℕ)
    → Lives (create_as kernel path content uid gid mode)
unfolding create_as
create_as-Lives kernel path content uid gid mode =
    Lives-bind _ _
      (Lives-bind (set_fsugid kernel uid gid) _ (Lives-set_fsugid kernel uid gid) (λ u.
        make_ancestors-Lives kernel (suc (length (dirname path))) (dirname path) _ (omega arith)))
      (λ u. Lives-make_file kernel path content mode _)
