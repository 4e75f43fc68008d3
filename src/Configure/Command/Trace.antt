-- ===== src/Configure/Command/Trace.antt =====
-- The order of the calls of the configure command: each is made under the capabilities of its phase.
use libxdxgpu_container.Base.{
  ℕ, ◌≡◌, refl, subst, inl, inr, Bool, true, false, not, ◌&&◌, List, [], ◌∷◌, map, Option, none,
  some, ltb, if◌then◌else◌, length, All, Bool-cases,
}
use libxdxgpu_container.Libc.{Bytes, codes}
use libxdxgpu_container.Devices.{MigRef, Devices, new_devices}
use libxdxgpu_container.Devices.Wanted.{select_mig_config_devices, select_mig_monitor_devices}
use libxdxgpu_container.Configure.Rules.{evaluate_devices}
use libxdxgpu_container.Configure.{
  Context, Phase, nvc_init, nvc_init_kmods, nvc_container, nvc_info, nvc_mount, nvc_ldcache,
  nvc_shutdown, Call, permitted_capabilities, inheritable_capabilities, bounding_capabilities,
  effective_capabilities, allocate_configs, init, container_new, driver_info_new, device_info_new,
  allocate_devices, driver_mount, device_mount, mig_device_access_caps_mount,
  mig_config_global_caps_mount, mig_monitor_global_caps_mount, device_mig_caps_mount,
  ldcache_update, History, Library, Step, done, warned, Run, run, ◌>>◌, call,
}
use libxdxgpu_container.Configure.Command.{
  Selections, select_monitor, select_config, configure, set_phase, restrict, prepare, select,
  require, each, when, mount_mig_caps, mount, finish, body, configure_command, clean_up,
  unless_refused, select_visible, evaluated, permission_error, mount_error,
}
use libxdxgpu_container.Configure.Command.Phases.{
  current, allowed, Lawful, allowed_release, allowed_shutdown, allowed_allocate_configs,
  allowed_effective_capabilities, Ends, Leads-bind, Leads-pure, Leads-check, next, Leads-call,
  Leads,
}

-- One part behind another.
pub Leads-then :
    {A B : Type 0} (p q r : Option Phase) (m : Run A) (k : Run B)
    → Leads p q m
    → Leads q r k
    → Leads p r (m >> k)
Leads-then p q r m k l n = Leads-bind p q r m (λ _. k) l (λ _. n)

Leads-set_phase :
    (lib : Library) (p : Option Phase) (q : Phase) → Leads p (some q) (set_phase lib q)
unfolding set_phase
Leads-set_phase lib p q =
    Leads-call lib permission_error p (effective_capabilities q)
      (allowed_effective_capabilities p q)

abbrev mounting : Option Phase
mounting = some nvc_mount

Leads-each :
    (lib : Library) (cs : List Call)
    → All (λ c. (allowed mounting c ≡ true) × (next mounting c ≡ mounting)) cs
    → Leads mounting mounting (each lib cs)
unfolding each
Leads-each lib [] a = Leads-pure mounting tt
Leads-each lib (c ∷ cs) ((a, n), more) =
    Leads-then mounting mounting mounting (call lib mount_error c) (each lib cs)
      (subst (λ q. Leads mounting q (call lib mount_error c)) n
        (Leads-call lib mount_error mounting c a))
      (Leads-each lib cs more)

All-map_calls :
    {A : Type 0} (f : A → Call)
    → ((a : A) → (allowed mounting (f a) ≡ true) × (next mounting (f a) ≡ mounting))
    → (xs : List A)
    → All (λ c. (allowed mounting c ≡ true) × (next mounting c ≡ mounting)) (map f xs)
All-map_calls f h [] = tt
All-map_calls f h (x ∷ xs) = (h x, All-map_calls f h xs)

Leads-when :
    (b : Bool) (m : Run (Unit {0})) → Leads mounting mounting m → Leads mounting mounting (when b m)
Leads-when true m l = l
Leads-when false m l = Leads-pure mounting tt

Leads-mount_mig_caps :
    (lib : Library) (c : Call) (d : Devices)
    → allowed mounting c ≡ true
    → next mounting c ≡ mounting
    → Leads mounting mounting (mount_mig_caps lib c d)
unfolding mount_mig_caps
Leads-mount_mig_caps lib c d a n = Leads-when (d.all && ltb 0 (length d.gpus)) _ (
    Leads-then mounting mounting mounting (call lib mount_error c) _
      (subst (λ q. Leads mounting q (call lib mount_error c)) n
        (Leads-call lib mount_error mounting c a))
      (Leads-each lib _
        (All-map_calls (λ (i : ℕ). device_mig_caps_mount i) (λ i. (refl, refl)) d.gpus)))

Leads-mount : (lib : Library) (s : Selections) → Leads (some nvc_info) mounting (mount lib s)
unfolding mount
Leads-mount lib s =
    Leads-then (some nvc_info) mounting mounting _ _
      (Leads-then (some nvc_info) mounting mounting _ _
        (Leads-then (some nvc_info) mounting mounting _ _
          (Leads-then (some nvc_info) mounting mounting _ _
            (Leads-then (some nvc_info) mounting mounting _ _
              (Leads-set_phase lib (some nvc_info) nvc_mount)
              (Leads-call lib mount_error mounting driver_mount refl))
            (Leads-each lib _
              (All-map_calls (λ (i : ℕ). device_mount i) (λ i. (refl, refl)) s.visible.gpus)))
          (Leads-when (not s.mig_config.all && not s.mig_monitor.all) _ (
            Leads-each lib _ (
              All-map_calls (λ (m : MigRef). mig_device_access_caps_mount m) (λ m. (refl, refl))
                s.visible.migs))))
        (Leads-mount_mig_caps lib mig_config_global_caps_mount s.mig_config refl refl))
      (Leads-mount_mig_caps lib mig_monitor_global_caps_mount s.mig_monitor refl refl)

Leads-select :
    (lib : Library) (outside : Bytes) (ctx : Context) (p : Option Phase)
    → Leads p p (select lib outside ctx)
unfolding select select_config select_monitor
Leads-select lib outside ctx p =
    let empty = new_devices lib.dev in
    Leads-bind p p p _ _
      (Leads-check p (codes "device error: ") (select_visible outside ctx.devices lib.dev))
      (λ visible.
        Leads-bind p p p _ _
          (Leads-check p (codes "mig-config error: ")
            (select_mig_config_devices lib.dev ctx.mig_config visible empty))
          (λ config.
            Leads-bind p p p _ _
              (Leads-check p (codes "mig-monitor error: ")
                (select_mig_monitor_devices lib.dev ctx.mig_monitor visible empty))
              (λ monitor.
                Leads-pure p
                  (record { visible = visible; mig_config = config; mig_monitor = monitor }))))

Leads-prepare :
    (lib : Library) (ctx : Context) (p : Phase)
    → allowed (some p) (init ctx.init_flags) ≡ true
    → (if ctx.load_kmods then nvc_init_kmods else nvc_init) ≡ p
    → Leads none (some nvc_info) (prepare lib ctx)
unfolding prepare
Leads-prepare lib ctx p a e =
    let start = some p in
    let info = some nvc_info in
    Leads-then none info info _ _
      (Leads-then none info info _ _
        (Leads-then none info info _ _
          (Leads-then none info info _ _
            (Leads-then none info info _ _
              (Leads-then none (some nvc_container) info _ _
                (Leads-then none (some nvc_container) (some nvc_container) _ _
                  (Leads-then none start (some nvc_container) _ _
                    (Leads-then none start start _ _
                      (Leads-then none start start _ _
                        (subst
                          (λ q.
                            Leads none (some q)
                              (set_phase lib (if ctx.load_kmods then nvc_init_kmods else nvc_init)))
                          e
                          (Leads-set_phase lib none
                            (if ctx.load_kmods then nvc_init_kmods else nvc_init)))
                        (Leads-call lib (codes "memory allocation failed") start allocate_configs
                          (allowed_allocate_configs start)))
                      (Leads-call lib (codes "initialization error: ") start (init ctx.init_flags)
                        a))
                    (Leads-set_phase lib start nvc_container))
                  (Leads-call lib (codes "container error: ") (some nvc_container)
                    (container_new ctx.container_flags) refl))
                (Leads-set_phase lib (some nvc_container) nvc_info))
              (Leads-call lib (codes "detection error: ") info driver_info_new refl))
            (Leads-call lib (codes "detection error: ") info device_info_new refl))
          (Leads-call lib (codes "memory allocation failed: ") info (allocate_devices 0) refl))
        (Leads-call lib (codes "memory allocation failed: ") info (allocate_devices 1) refl))
      (Leads-call lib (codes "memory allocation failed: ") info (allocate_devices 2) refl)

Leads-prepare_any : (lib : Library) (ctx : Context) → Leads none (some nvc_info) (prepare lib ctx)
Leads-prepare_any lib ctx = elim (Bool-cases ctx.load_kmods) [
  | inl b ↦ Leads-prepare lib ctx nvc_init_kmods refl (rw b refl)
  | inr b ↦ Leads-prepare lib ctx nvc_init refl (rw b refl)
]

Leads-finish : (lib : Library) → Leads mounting (some nvc_shutdown) (finish lib)
unfolding finish
Leads-finish lib =
    Leads-then mounting (some nvc_ldcache) (some nvc_shutdown) _ _
      (Leads-then mounting (some nvc_ldcache) (some nvc_ldcache) _ _
        (Leads-set_phase lib mounting nvc_ldcache)
        (Leads-call lib (codes "ldcache error: ") (some nvc_ldcache) ldcache_update refl))
      (Leads-set_phase lib (some nvc_ldcache) nvc_shutdown)

Leads-restrict : (lib : Library) → Leads none none (restrict lib)
unfolding restrict
Leads-restrict lib =
    Leads-then none none none _ _
      (Leads-then none none none _ _
        (Leads-call lib permission_error none permitted_capabilities refl)
        (Leads-call lib permission_error none inheritable_capabilities refl))
      (Leads-call lib permission_error none bounding_capabilities refl)

Leads-body :
    (lib : Library) (outside : Bytes) (ctx : Context)
    → Leads none (some nvc_shutdown) (body lib outside ctx)
unfolding body configure require
Leads-body lib outside ctx =
    Leads-then none (some nvc_info) (some nvc_shutdown) _ _ (Leads-prepare_any lib ctx) (
      Leads-bind (some nvc_info) (some nvc_info) (some nvc_shutdown) _ _
        (Leads-select lib outside ctx (some nvc_info))
        (λ s.
          Leads-then (some nvc_info) (some nvc_info) (some nvc_shutdown) _ _
            (Leads-check (some nvc_info) (codes "requirement error: ")
              (evaluate_devices lib.drv ctx.reqs (evaluated lib.dev s.visible)))
            (Leads-then (some nvc_info) mounting (some nvc_shutdown) _ _ (Leads-mount lib s)
              (Leads-finish lib))))

clean_up-Lawful :
    (p : Option Phase) (x : History × Step (Unit {0})) → Ends p x → Lawful (clean_up x).0
clean_up-Lawful p (h, done u) (w, c) =
    (allowed_release (current h), (allowed_shutdown (current h), w))
clean_up-Lawful p (h, warned text) w =
    (allowed_release (current h), (allowed_shutdown (current h), w))

-- However the library and the kernel answer, the configure command makes every call under the
-- capabilities of its phase: the library is initialised only while the last capabilities that were
-- asked for are those for that, and so the container, the queries, every mount and the ldcache.
pub configure_command-Lawful :
    (lib : Library) (outside : Bytes) (ctx : Context) → Lawful (configure_command lib outside ctx).0
unfolding configure_command
configure_command-Lawful lib outside ctx =
    go (run (restrict lib) []) ((Leads-restrict lib).runs [] tt refl)
  where
    go : (x : History × Step (Unit {0})) → Ends none x → Lawful (unless_refused lib outside ctx x).0
    go (h, warned text) w = w
    go (h, done u) (w, c) =
        clean_up-Lawful (some nvc_shutdown) _ ((Leads-body lib outside ctx).runs h w c)
