-- ===== src/Configure/Command/Phases.antt =====
-- The phases of the configure command, and the calls that each of them allows.
use libxdxgpu_container.Base.{
  ◌≡◌, refl, ap, ◌∙◌, inl, inr, Bool, true, false, [], ◌∷◌, Option, none, some, Option-cases,
}
use libxdxgpu_container.Libc.{Bytes}
use libxdxgpu_container.Error.{Result, ok, err}
use libxdxgpu_container.Configure.{
  Phase, nvc_init, nvc_init_kmods, nvc_container, nvc_info, nvc_mount, nvc_ldcache, nvc_shutdown,
  Call, permitted_capabilities, inheritable_capabilities, bounding_capabilities,
  effective_capabilities, allocate_configs, init, container_new, driver_info_new, device_info_new,
  allocate_devices, driver_mount, device_mount, mig_device_access_caps_mount,
  mig_config_global_caps_mount, mig_monitor_global_caps_mount, device_mig_caps_mount,
  ldcache_update, shutdown, release, History, Library, Step, done, warned, Run, run, ◌>>=◌, pure,
  call, check, and_then,
}

-- The capabilities that are in effect: the last phase that was asked for.
abbrev pub current : History → Option Phase
current [] = none
current (effective_capabilities p ∷ h) = some p
current (_ ∷ h) = current h

-- The calls that want the capabilities of one phase, and those that may come at any time.
abbrev pub allowed : Option Phase → Call → Bool
allowed (some nvc_init) (init flags) = true
allowed (some nvc_init_kmods) (init flags) = true
allowed p (init flags) = false
allowed (some nvc_container) (container_new flags) = true
allowed p (container_new flags) = false
allowed (some nvc_info) driver_info_new = true
allowed p driver_info_new = false
allowed (some nvc_info) device_info_new = true
allowed p device_info_new = false
allowed (some nvc_mount) driver_mount = true
allowed p driver_mount = false
allowed (some nvc_mount) (device_mount i) = true
allowed p (device_mount i) = false
allowed (some nvc_mount) (mig_device_access_caps_mount m) = true
allowed p (mig_device_access_caps_mount m) = false
allowed (some nvc_mount) mig_config_global_caps_mount = true
allowed p mig_config_global_caps_mount = false
allowed (some nvc_mount) mig_monitor_global_caps_mount = true
allowed p mig_monitor_global_caps_mount = false
allowed (some nvc_mount) (device_mig_caps_mount i) = true
allowed p (device_mig_caps_mount i) = false
allowed (some nvc_ldcache) ldcache_update = true
allowed p ldcache_update = false
allowed p c = true

-- Every call was made under the capabilities of its phase.
abbrev pub Lawful : History → Type 0
Lawful [] = Unit
Lawful (c ∷ h) = (allowed (current h) c ≡ true) × Lawful h

pub allowed_release : (p : Option Phase) → allowed p release ≡ true
allowed_release none = refl
allowed_release (some nvc_init) = refl
allowed_release (some nvc_init_kmods) = refl
allowed_release (some nvc_container) = refl
allowed_release (some nvc_info) = refl
allowed_release (some nvc_mount) = refl
allowed_release (some nvc_ldcache) = refl
allowed_release (some nvc_shutdown) = refl

pub allowed_shutdown : (p : Option Phase) → allowed p shutdown ≡ true
allowed_shutdown none = refl
allowed_shutdown (some nvc_init) = refl
allowed_shutdown (some nvc_init_kmods) = refl
allowed_shutdown (some nvc_container) = refl
allowed_shutdown (some nvc_info) = refl
allowed_shutdown (some nvc_mount) = refl
allowed_shutdown (some nvc_ldcache) = refl
allowed_shutdown (some nvc_shutdown) = refl

pub allowed_allocate_configs : (p : Option Phase) → allowed p allocate_configs ≡ true
allowed_allocate_configs none = refl
allowed_allocate_configs (some nvc_init) = refl
allowed_allocate_configs (some nvc_init_kmods) = refl
allowed_allocate_configs (some nvc_container) = refl
allowed_allocate_configs (some nvc_info) = refl
allowed_allocate_configs (some nvc_mount) = refl
allowed_allocate_configs (some nvc_ldcache) = refl
allowed_allocate_configs (some nvc_shutdown) = refl

pub allowed_effective_capabilities :
    (p : Option Phase) (q : Phase) → allowed p (effective_capabilities q) ≡ true
allowed_effective_capabilities none q = refl
allowed_effective_capabilities (some nvc_init) q = refl
allowed_effective_capabilities (some nvc_init_kmods) q = refl
allowed_effective_capabilities (some nvc_container) q = refl
allowed_effective_capabilities (some nvc_info) q = refl
allowed_effective_capabilities (some nvc_mount) q = refl
allowed_effective_capabilities (some nvc_ldcache) q = refl
allowed_effective_capabilities (some nvc_shutdown) q = refl

-- A part of the command that starts in one phase, and leaves another one where it succeeds.
abbrev pub Ends : {A : Type 0} → Option Phase → History × Step A → Type 0
Ends p (h, done a) = Lawful h × (current h ≡ p)
Ends p (h, warned text) = Lawful h

pub record Leads {A : Type 0} (p q : Option Phase) (m : Run A) : Type 0 where
  pub runs : (h : History) → Lawful h → current h ≡ p → Ends q (run m h)

pub Ends-and_then :
    {A B : Type 0} (q r : Option Phase) (f : A → Run B)
    → ((a : A) → Leads q r (f a))
    → (x : History × Step A) → Ends q x
    → Ends r (and_then f x)
Ends-and_then q r f k (h, done a) (w, c) = (k a).runs h w c
Ends-and_then q r f k (h, warned text) w = w

pub Leads-bind :
    {A B : Type 0} (p q r : Option Phase) (m : Run A) (f : A → Run B)
    → Leads p q m
    → ((a : A) → Leads q r (f a))
    → Leads p r (m >>= f)
Leads-bind p q r m f l k = record { runs = λ h w c. Ends-and_then q r f k (run m h) (l.runs h w c) }

pub Leads-pure : {A : Type 0} (p : Option Phase) (a : A) → Leads p p (pure a)
Leads-pure p a = record { runs = λ h w c. (w, c) }

pub Leads-check :
    {A : Type 0} (p : Option Phase) (what : Bytes) (r : Result A) → Leads p p (check what r)
Leads-check p what (ok a) = record { runs = λ h w c. (w, c) }
Leads-check p what (err e) = record { runs = λ h w c. w }

-- A call leaves the phase as it is, but for the calls that set it.
abbrev pub next : Option Phase → Call → Option Phase
next p (effective_capabilities q) = some q
next p c = p

pub current-next : (c : Call) (h : History) → current (c ∷ h) ≡ next (current h) c
current-next permitted_capabilities h = refl
current-next inheritable_capabilities h = refl
current-next bounding_capabilities h = refl
current-next (effective_capabilities p) h = refl
current-next allocate_configs h = refl
current-next (init flags) h = refl
current-next (container_new flags) h = refl
current-next driver_info_new h = refl
current-next device_info_new h = refl
current-next (allocate_devices n) h = refl
current-next driver_mount h = refl
current-next (device_mount i) h = refl
current-next (mig_device_access_caps_mount m) h = refl
current-next mig_config_global_caps_mount h = refl
current-next mig_monitor_global_caps_mount h = refl
current-next (device_mig_caps_mount i) h = refl
current-next ldcache_update h = refl
current-next shutdown h = refl
current-next release h = refl

pub Leads-call :
    (lib : Library) (what : Bytes) (p : Option Phase) (c : Call)
    → allowed p c ≡ true
    → Leads p (next p c) (call lib what c)
unfolding call
Leads-call lib what p c a = record {
  runs = λ h w e. elim (Option-cases (lib.respond h c)) [
    | inl n ↦ rw n ((rw e a, w), current-next c h ∙ ap (λ x. next x c) e)
    | inr (text, n) ↦ rw n (rw e a, w)
  ];
}
