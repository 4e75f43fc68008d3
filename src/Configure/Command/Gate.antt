-- ===== src/Configure/Command/Gate.antt =====
-- Nothing is mounted unless the requirements of the container are met.
use libxdxgpu_container.Base.{◌≡◌, refl, sym, ◌∙◌, true, false, []}
use libxdxgpu_container.Libc.{Bytes, codes}
use libxdxgpu_container.Error.{ok}
use libxdxgpu_container.Devices.{Devices, new_devices}
use libxdxgpu_container.Devices.Wanted.{select_mig_config_devices, select_mig_monitor_devices}
use libxdxgpu_container.Configure.{
  Context, History, Library, Step, done, warned, run, ◌>>=◌, ◌>>◌, pure, check,
}
use libxdxgpu_container.Configure.Rules.{evaluate_devices}
use libxdxgpu_container.Configure.Command.{
  Selections, restrict, select_visible, evaluated, select_monitor, select_config, select, configure,
  require, mount, finish, body, configure_command, clean_up, unless_refused,
}
use libxdxgpu_container.Configure.Command.Met.{
  MeetAll, evaluated-MeetAll, evaluate_devices-Accepted,
}
use libxdxgpu_container.Configure.Command.Quiet.{
  mounted, Gated-then, Gated-bind, Gated-here, Gated-assoc, Gated-pure, Quiet-restrict,
  Quiet-prepare, Gated,
}

-- The visible devices are selected without an error, and meet every requirement.
abbrev pub IsCleared : Library → Bytes → Context → Type 0
IsCleared lib outside ctx =
    (visible : Devices) × (select_visible outside ctx.devices lib.dev ≡ ok visible)
    × MeetAll lib.drv ctx.reqs lib.dev visible.gpus visible.migs

Gated-configure :
    (lib : Library) (outside : Bytes) (ctx : Context) (s : Selections)
    → select_visible outside ctx.devices lib.dev ≡ ok s.visible
    → Gated (IsCleared lib outside ctx) (configure lib ctx s)
unfolding configure require
Gated-configure lib outside ctx s e =
    Gated-bind (IsCleared lib outside ctx) (codes "requirement error: ")
      (evaluate_devices lib.drv ctx.reqs (evaluated lib.dev s.visible))
      (λ _. mount lib s >> finish lib)
      (λ u a. Gated-here _ _ (
        s.visible,
        e,
        evaluated-MeetAll lib.drv ctx.reqs lib.dev s.visible
            (evaluate_devices-Accepted lib.drv ctx.reqs _ a),
      ))

Gated-select_monitor :
    (lib : Library) (outside : Bytes) (ctx : Context) (visible config : Devices)
    → select_visible outside ctx.devices lib.dev ≡ ok visible
    → Gated
        (IsCleared lib outside ctx)
        (select_monitor lib ctx visible config >>= λ s. configure lib ctx s)
unfolding select_monitor
Gated-select_monitor lib outside ctx visible config e =
    let P = IsCleared lib outside ctx in
    let r = select_mig_monitor_devices lib.dev ctx.mig_monitor visible (new_devices lib.dev) in
    let s : Devices → Selections =
      λ monitor. record { visible = visible; mig_config = config; mig_monitor = monitor } in
    Gated-assoc P (check (codes "mig-monitor error: ") r) (λ monitor. pure (s monitor))
      (λ x. configure lib ctx x)
      (Gated-bind P (codes "mig-monitor error: ") r
        (λ monitor. pure (s monitor) >>= λ x. configure lib ctx x)
        (λ monitor g.
          Gated-pure P (s monitor) (λ x. configure lib ctx x)
            (Gated-configure lib outside ctx (s monitor) e)))

Gated-select_config :
    (lib : Library) (outside : Bytes) (ctx : Context) (visible : Devices)
    → select_visible outside ctx.devices lib.dev ≡ ok visible
    → Gated (IsCleared lib outside ctx) (select_config lib ctx visible >>= λ s. configure lib ctx s)
unfolding select_config
Gated-select_config lib outside ctx visible e =
    let P = IsCleared lib outside ctx in
    let r = select_mig_config_devices lib.dev ctx.mig_config visible (new_devices lib.dev) in
    Gated-assoc P (check (codes "mig-config error: ") r)
      (λ config. select_monitor lib ctx visible config) (λ x. configure lib ctx x)
      (Gated-bind P (codes "mig-config error: ") r
        (λ config. select_monitor lib ctx visible config >>= λ x. configure lib ctx x)
        (λ config f. Gated-select_monitor lib outside ctx visible config e))

Gated-select :
    (lib : Library) (outside : Bytes) (ctx : Context)
    → Gated (IsCleared lib outside ctx) (select lib outside ctx >>= λ s. configure lib ctx s)
unfolding select
Gated-select lib outside ctx =
    let P = IsCleared lib outside ctx in
    let r = select_visible outside ctx.devices lib.dev in
    Gated-assoc P (check (codes "device error: ") r) (λ visible. select_config lib ctx visible)
      (λ x. configure lib ctx x)
      (Gated-bind P (codes "device error: ") r
        (λ visible. select_config lib ctx visible >>= λ x. configure lib ctx x)
        (λ visible e. Gated-select_config lib outside ctx visible e))

Gated-body :
    (lib : Library) (outside : Bytes) (ctx : Context)
    → Gated (IsCleared lib outside ctx) (body lib outside ctx)
unfolding body
Gated-body lib outside ctx =
    Gated-then (IsCleared lib outside ctx) _ _ (Quiet-prepare lib ctx)
      (Gated-select lib outside ctx)

clean_up-mounted : (x : History × Step (Unit {0})) → mounted (clean_up x).0 ≡ mounted x.0
clean_up-mounted (h, done u) = refl
clean_up-mounted (h, warned text) = refl

-- If the configure command tries any mount, then the visible devices were selected without an
-- error, and every requirement was accepted for each visible GPU, for the GPU that each visible MIG
-- device names as its parent, and, where no device is visible, without a device.
pub configure_command-IsCleared :
    (lib : Library) (outside : Bytes) (ctx : Context)
    → mounted (configure_command lib outside ctx).0 ≡ true
    → IsCleared lib outside ctx
unfolding configure_command
configure_command-IsCleared lib outside ctx m =
    go (run (restrict lib) []) ((Quiet-restrict lib).runs [] refl) m
  where
    go :
        (x : History × Step (Unit {0}))
        → mounted x.0 ≡ false
        → mounted (unless_refused lib outside ctx x).0 ≡ true
        → IsCleared lib outside ctx
    go (h, warned text) q n = cc
    go (h, done u) q n =
        (Gated-body lib outside ctx).runs h q
          (sym (clean_up-mounted (run (body lib outside ctx) h)) ∙ n)
