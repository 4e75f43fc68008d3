-- ===== src/Update/Kept.antt =====
-- src/utils.c and src/nvc_ldcache.c: the steps that execute no program keep what was done before.
use libxdxgpu_container.Base.{
  ℕ, ◌≡◌, ◌≢◌, sym, ap, ◌∙◌, Bool, true, false, not, List, [], ◌∷◌, Option, none, some, ◌==◌, ◌⊎◌,
  inl, inr, Bool-cases,
}
use libxdxgpu_container.Libc.{Bytes}
use libxdxgpu_container.Error.{Result, ok, err}
use libxdxgpu_container.Utils.Ids.{einval}
use libxdxgpu_container.Kernel.{
  Act, History, Kernel, Confinement, confine, exec, Op, ◌>>=◌, try, ask, cap_inheritable,
  cap_ambient, cap_set_proc, cap_ambient_clear_all, cap_ambient_raise, CapFlag, setgroups,
}
use libxdxgpu_container.Kernel.Holds.{
  Holds, Holds-pure, Holds-fail, Holds-ask, Holds-bind, Holds-then, Holds-try, Holds-error_set,
  Holds-perform,
}
use libxdxgpu_container.File.{
  eperm, has_errno, unless_errno, ignoring, when, demand, file_create, mode_lnk,
}
use libxdxgpu_container.File.Local.{is_quiet, Holds-file_create}
use libxdxgpu_container.Process.{
  Process, call, unless_failed, scanned, uint32_in, file_read_uint32, line_read, file_read_line,
  drop_groups, raise_ambient, set_caps, perm_set_capabilities, last_cap_path,
}
use libxdxgpu_container.Mount.{readable}
use libxdxgpu_container.Update.{
  inherited, keep_caps, open_dir, may_set_groups, setgroups_path, cap_dac_override,
}

module _ (I : History → Type 0)
    (keeps : (a : Act)
      → ((host : Bool) (argv : List Bytes) → a ≢ confine (exec host argv))
      → (h : History) (r : Option ℕ) → I h
      → I ((a, r) ∷ h))
    (kernel : Kernel) where
  quiet : (a : Act) → is_quiet a ≡ true → (h : History) (r : Option ℕ) → I h → I ((a, r) ∷ h)
  quiet a q h r i = keeps a (λ host argv e. cc (sym q ∙ ap is_quiet e)) h r i

  pub Holds-call :
      (c : Confinement)
      → ((host : Bool) (argv : List Bytes) → confine c ≢ confine (exec host argv))
      → Holds I (call kernel c)
  unfolding call
  Holds-call c n = Holds-perform I kernel (confine c) (keeps (confine c) n)

  pub Holds-when : (b : Bool) (m : Op (Unit {0})) → Holds I m → Holds I (when b m)
  Holds-when true m l = l
  Holds-when false m l = Holds-pure I tt

  Holds-unless_errno : (n : ℕ) (r : Result (Unit {0})) → Holds I (unless_errno n r)
  Holds-unless_errno n (ok u) = Holds-pure I tt
  Holds-unless_errno n (err e) = elim (Bool-cases (has_errno n e)) [
    | inl t ↦ rw t (Holds-pure I tt)
    | inr f ↦ rw f (Holds-fail I e)
  ]

  pub Holds-ignoring : (n : ℕ) (m : Op (Unit {0})) → Holds I m → Holds I (ignoring n m)
  Holds-ignoring n m l = Holds-bind I (try m) _ (Holds-try I m l) (λ r. Holds-unless_errno n r)

  pub Holds-demand : (b : Bool) (n : ℕ) → Holds I (demand b n)
  Holds-demand true n = Holds-pure I tt
  Holds-demand false n = Holds-fail I _

  Holds-readable : (path : Bytes) (r : Option ℕ) → Holds I (readable path r)
  Holds-readable path none = Holds-pure I tt
  Holds-readable path (some errno) = Holds-fail I _

  pub Holds-open_dir : (path : Bytes) → Holds I (open_dir kernel path)
  unfolding open_dir
  Holds-open_dir path = Holds-bind I (ask _) _ (Holds-ask I _) (Holds-readable path)

  pub Holds-opened : (path : Bytes) → Holds I (ask (λ h. kernel.open_read h path) >>= readable path)
  Holds-opened path = Holds-bind I (ask _) _ (Holds-ask I _) (Holds-readable path)

  Holds-scanned : (path : Bytes) (x : ℕ × Option Bytes) → Holds I (scanned path x)
  Holds-scanned path (n, none) = Holds-fail I _
  Holds-scanned path (n, some rest) = Holds-pure I _

  Holds-uint32_in : (path : Bytes) (r : ℕ ⊎ Option Bytes) → Holds I (uint32_in path r)
  unfolding uint32_in
  Holds-uint32_in path (inl errno) = Holds-fail I _
  Holds-uint32_in path (inr none) = Holds-fail I _
  Holds-uint32_in path (inr (some text)) = Holds-scanned path _

  Holds-line_read :
      (path : Bytes) (size : ℕ) (r : ℕ ⊎ Option Bytes) → Holds I (line_read path size r)
  unfolding line_read
  Holds-line_read path size (inl errno) = Holds-fail I _
  Holds-line_read path size (inr none) = Holds-fail I _
  Holds-line_read path size (inr (some text)) = Holds-pure I _

  pub Holds-may_set_groups : Holds I (may_set_groups kernel)
  unfolding may_set_groups file_read_line
  Holds-may_set_groups =
      Holds-bind I (try (file_read_line kernel setgroups_path 8)) _
        (Holds-try I _ (Holds-bind I (ask _) _ (Holds-ask I _) (Holds-line_read setgroups_path 8)))
        (λ r. Holds-pure I _)

  pub Holds-link :
      (path target : Bytes) (uid gid : ℕ)
      → Holds I (file_create kernel path (some target) uid gid (mode_lnk 511))
  Holds-link path target uid gid =
      Holds-file_create I quiet kernel path (some target) uid gid (mode_lnk 511)

  pub Holds-last_cap : Holds I (file_read_uint32 kernel last_cap_path)
  unfolding file_read_uint32
  Holds-last_cap =
      Holds-bind I (ask (λ h. kernel.read_text h last_cap_path)) _ (Holds-ask I _)
        (Holds-uint32_in last_cap_path)

  Holds-raise_ambient : (caps : List ℕ) → Holds I (raise_ambient kernel caps)
  unfolding raise_ambient
  Holds-raise_ambient [] = Holds-pure I tt
  Holds-raise_ambient (c ∷ caps) =
      Holds-then I _ _
        (Holds-ignoring einval _ (Holds-call (cap_ambient_raise c) (λ host argv e. cc)))
        (Holds-raise_ambient caps)

  Holds-unless_failed : (r : Option ℕ) → Holds I (unless_failed r)
  Holds-unless_failed none = Holds-pure I tt
  Holds-unless_failed (some errno) = Holds-fail I _

  Holds-set_caps :
      (process : Process) (flag : CapFlag) (caps : List ℕ)
      → Holds I (set_caps kernel process flag caps)
  unfolding set_caps
  Holds-set_caps process cap_ambient caps =
      Holds-then I _ _
        (Holds-ignoring einval _ (Holds-call cap_ambient_clear_all (λ host argv e. cc)))
        (Holds-raise_ambient caps)
  Holds-set_caps process cap_inheritable caps =
      Holds-then I _ _ (Holds-bind I (ask _) _ (Holds-ask I _) Holds-unless_failed)
        (Holds-call (cap_set_proc cap_inheritable caps) (λ host argv e. cc))

  Holds-perm_set_capabilities :
      (process : Process) (flag : CapFlag) (caps : List ℕ)
      → Holds I (perm_set_capabilities kernel process flag caps)
  unfolding perm_set_capabilities
  Holds-perm_set_capabilities process flag caps =
      Holds-error_set I _ _ (Holds-set_caps process flag caps)

  Holds-inherited :
      (process : Process) (uid : ℕ) (r : Result (Unit {0}))
      → Holds I (inherited kernel process uid r)
  unfolding inherited
  Holds-inherited process uid (ok u) = Holds-when (not (uid == 0)) _ (
      Holds-ignoring eperm _
        (Holds-perm_set_capabilities process cap_ambient (cap_dac_override ∷ [])))
  Holds-inherited process uid (err e) = elim (Bool-cases (has_errno eperm e)) [
    | inl t ↦ rw t (Holds-perm_set_capabilities process cap_inheritable [])
    | inr f ↦ rw f (Holds-fail I e)
  ]

  pub Holds-keep_caps :
      (process : Process) (uid : ℕ) (b : Bool) → Holds I (keep_caps kernel process uid b)
  unfolding keep_caps
  Holds-keep_caps process uid true = Holds-perm_set_capabilities process cap_inheritable []
  Holds-keep_caps process uid false =
      Holds-bind I
        (try (perm_set_capabilities kernel process cap_inheritable (cap_dac_override ∷ []))) _
        (Holds-try I _
          (Holds-perm_set_capabilities process cap_inheritable (cap_dac_override ∷ [])))
        (Holds-inherited process uid)

  pub Holds-drop_groups : (gid : ℕ) (groups : List ℕ) → Holds I (drop_groups kernel gid groups)
  unfolding drop_groups
  Holds-drop_groups gid [] = Holds-pure I tt
  Holds-drop_groups gid (g ∷ []) =
      Holds-when (not (g == gid)) _ (Holds-call (setgroups gid) (λ host argv e. cc))
  Holds-drop_groups gid (g ∷ h ∷ groups) = Holds-call (setgroups gid) (λ host argv e. cc)
