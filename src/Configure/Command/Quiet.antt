-- ===== src/Configure/Command/Quiet.antt =====
-- Parts of the configure command that mount nothing, and those that do so on a condition.
use libxdxgpu_container.Base.{◌≡◌, refl, sym, ap, ◌∙◌, Bool, true, false, ◌||◌, [], ◌∷◌}
use libxdxgpu_container.Libc.{Bytes, codes}
use libxdxgpu_container.Error.{Result, ok, err}
use libxdxgpu_container.Configure.{
  Context, Phase, nvc_container, nvc_info, Call, permitted_capabilities, inheritable_capabilities,
  bounding_capabilities, effective_capabilities, allocate_configs, init, container_new,
  driver_info_new, device_info_new, allocate_devices, driver_mount, device_mount,
  mig_device_access_caps_mount, mig_config_global_caps_mount, mig_monitor_global_caps_mount,
  device_mig_caps_mount, History, Library, Step, done, warned, Run, run, ◌>>=◌, ◌>>◌, pure, call,
  check, and_then,
}
use libxdxgpu_container.Configure.Command.{set_phase, restrict, prepare, permission_error}

abbrev pub is_mount : Call → Bool
is_mount driver_mount = true
is_mount (device_mount i) = true
is_mount (mig_device_access_caps_mount m) = true
is_mount mig_config_global_caps_mount = true
is_mount mig_monitor_global_caps_mount = true
is_mount (device_mig_caps_mount i) = true
is_mount c = false

-- Something was mounted, or its mount was tried.
abbrev pub mounted : History → Bool
mounted [] = false
mounted (c ∷ h) = is_mount c || mounted h

-- A part of the command that mounts nothing.
pub record Quiet {A : Type 0} (m : Run A) : Type 0 where
  pub runs : (h : History) → mounted h ≡ false → mounted (run m h).0 ≡ false

-- A part of the command that mounts nothing unless `P` holds.
pub record Gated {A : Type 0} (P : Type 0) (m : Run A) : Type 0 where
  pub runs : (h : History) → mounted h ≡ false → mounted (run m h).0 ≡ true → P

pub Quiet-call :
    (lib : Library) (what : Bytes) (c : Call) → is_mount c ≡ false → Quiet (call lib what c)
unfolding call
Quiet-call lib what c e = record { runs = λ h q. rw e q }

pub Quiet-and_then :
    {A B : Type 0} (f : A → Run B) (x : History × Step A)
    → ((a : A) → Quiet (f a))
    → mounted x.0 ≡ false
    → mounted (and_then f x).0 ≡ false
Quiet-and_then f (h, done a) k q = (k a).runs h q
Quiet-and_then f (h, warned text) k q = q

pub Quiet-then : {A B : Type 0} (m : Run A) (k : Run B) → Quiet m → Quiet k → Quiet (m >> k)
Quiet-then m k q r = record {
  runs = λ h n. Quiet-and_then (λ _. k) (run m h) (λ _. r) (q.runs h n);
}

pub Gated-and_then :
    {A B : Type 0} (P : Type 0) (f : A → Run B) (x : History × Step A)
    → ((a : A) → Gated P (f a))
    → mounted x.0 ≡ false
    → mounted (and_then f x).0 ≡ true
    → P
Gated-and_then P f (h, done a) k q m = (k a).runs h q m
Gated-and_then P f (h, warned text) k q m = cc

pub Gated-then :
    {A B : Type 0} (P : Type 0) (m : Run A) (k : Run B) → Quiet m → Gated P k → Gated P (m >> k)
Gated-then P m k q g = record {
  runs = λ h n. Gated-and_then P (λ _. k) (run m h) (λ _. g) (q.runs h n);
}

pub Gated-bind :
    {A B : Type 0} (P : Type 0) (what : Bytes) (r : Result A) (f : A → Run B)
    → ((a : A) → r ≡ ok a → Gated P (f a))
    → Gated P (check what r >>= f)
Gated-bind P what (ok a) f k = record { runs = λ h q m. (k a refl).runs h q m }
Gated-bind P what (err e) f k = record { runs = λ h q m. cc }

pub Gated-here : {A : Type 0} (P : Type 0) (m : Run A) → P → Gated P m
Gated-here P m p = record { runs = λ h q n. p }

pub and_then_assoc :
    {A B C : Type 0} (f : A → Run B) (g : B → Run C) (x : History × Step A)
    → and_then g (and_then f x) ≡ and_then (λ a. f a >>= g) x
and_then_assoc f g (h, done a) = refl
and_then_assoc f g (h, warned text) = refl

pub Gated-assoc :
    {A B C : Type 0} (P : Type 0) (m : Run A) (f : A → Run B) (g : B → Run C)
    → Gated P (m >>= λ a. f a >>= g)
    → Gated P ((m >>= f) >>= g)
Gated-assoc P m f g k = record {
  runs = λ h q n. k.runs h q (sym (ap (λ x. mounted x.0) (and_then_assoc f g (run m h))) ∙ n);
}

pub Gated-pure :
    {A B : Type 0} (P : Type 0) (a : A) (f : A → Run B) → Gated P (f a) → Gated P (pure a >>= f)
Gated-pure P a f g = record { runs = λ h q m. g.runs h q m }

pub Quiet-restrict : (lib : Library) → Quiet (restrict lib)
unfolding restrict
Quiet-restrict lib =
    Quiet-then _ _
      (Quiet-then _ _ (Quiet-call lib permission_error permitted_capabilities refl)
        (Quiet-call lib permission_error inheritable_capabilities refl))
      (Quiet-call lib permission_error bounding_capabilities refl)

pub Quiet-set_phase : (lib : Library) (p : Phase) → Quiet (set_phase lib p)
unfolding set_phase
Quiet-set_phase lib p = Quiet-call lib permission_error (effective_capabilities p) refl

pub Quiet-prepare : (lib : Library) (ctx : Context) → Quiet (prepare lib ctx)
unfolding prepare
Quiet-prepare lib ctx =
    Quiet-then _ _
      (Quiet-then _ _
        (Quiet-then _ _
          (Quiet-then _ _
            (Quiet-then _ _
              (Quiet-then _ _
                (Quiet-then _ _
                  (Quiet-then _ _
                    (Quiet-then _ _
                      (Quiet-then _ _ (Quiet-set_phase lib _)
                        (Quiet-call lib (codes "memory allocation failed") allocate_configs refl))
                      (Quiet-call lib (codes "initialization error: ") (init ctx.init_flags) refl))
                    (Quiet-set_phase lib nvc_container))
                  (Quiet-call lib (codes "container error: ") (container_new ctx.container_flags)
                    refl))
                (Quiet-set_phase lib nvc_info))
              (Quiet-call lib (codes "detection error: ") driver_info_new refl))
            (Quiet-call lib (codes "detection error: ") device_info_new refl))
          (Quiet-call lib (codes "memory allocation failed: ") (allocate_devices 0) refl))
        (Quiet-call lib (codes "memory allocation failed: ") (allocate_devices 1) refl))
      (Quiet-call lib (codes "memory allocation failed: ") (allocate_devices 2) refl)
