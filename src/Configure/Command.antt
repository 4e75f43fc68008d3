-- ===== src/Configure/Command.antt =====
-- src/cli/configure.c: `configure_command`.
pub mod Phases
pub mod Trace
pub mod Quiet
pub mod Met
pub mod Gate
use libxdxgpu_container.Base.{
  ℕ, zero, suc, ◌+◌, Bool, true, false, not, ◌&&◌, ◌||◌, List, [], ◌∷◌, ◌++◌, map, Option, none,
  some, ltb, if◌then◌else◌, length, get_elem?,
}
use libxdxgpu_container.Libc.{Bytes, codes}
use libxdxgpu_container.Error.{Result, ok, err}
use libxdxgpu_container.Devices.{NvcDevice, NvcDeviceInfo, MigRef, Devices, new_devices}
use libxdxgpu_container.Devices.Select.{parent_of, select_devices}
use libxdxgpu_container.Devices.Wanted.{select_mig_config_devices, select_mig_monitor_devices}
use libxdxgpu_container.Configure.{
  Context, DriverVersions, Phase, nvc_init, nvc_init_kmods, nvc_container, nvc_info, nvc_mount,
  nvc_ldcache, nvc_shutdown, Call, permitted_capabilities, inheritable_capabilities,
  bounding_capabilities, effective_capabilities, allocate_configs, init, container_new,
  driver_info_new, device_info_new, allocate_devices, driver_mount, device_mount,
  mig_device_access_caps_mount, mig_config_global_caps_mount, mig_monitor_global_caps_mount,
  device_mig_caps_mount, ldcache_update, shutdown, release, History, Library, Step, done, warned,
  Run, run, ◌>>=◌, ◌>>◌, pure, call, check,
}
use libxdxgpu_container.Configure.Rules.{evaluate_devices}

-- The three selections of the command.
pub record Selections : Type 0 where
  pub visible : Devices
  pub mig_config : Devices
  pub mig_monitor : Devices

abbrev pub permission_error : Bytes
permission_error = codes "permission error: "

abbrev pub mount_error : Bytes
mount_error = codes "mount error: "

unfoldable pub set_phase : Library → Phase → Run (Unit {0})
unfolding call
set_phase lib phase = call lib permission_error (effective_capabilities phase)

-- The first three calls, behind which the command returns at once where one fails.
unfoldable pub restrict : Library → Run (Unit {0})
unfolding call
restrict lib =
    call lib permission_error permitted_capabilities
    >> call lib permission_error inheritable_capabilities
    >> call lib permission_error bounding_capabilities

-- The library, the container and the queries.
unfoldable pub prepare : Library → Context → Run (Unit {0})
unfolding call set_phase
prepare lib ctx =
    set_phase lib (if ctx.load_kmods then nvc_init_kmods else nvc_init)
    >> call lib (codes "memory allocation failed") allocate_configs
    >> call lib (codes "initialization error: ") (init ctx.init_flags)
    >> set_phase lib nvc_container
    >> call lib (codes "container error: ") (container_new ctx.container_flags)
    >> set_phase lib nvc_info
    >> call lib (codes "detection error: ") driver_info_new
    >> call lib (codes "detection error: ") device_info_new
    >> call lib (codes "memory allocation failed: ") (allocate_devices 0)
    >> call lib (codes "memory allocation failed: ") (allocate_devices 1)
    >> call lib (codes "memory allocation failed: ") (allocate_devices 2)

-- `if (dev->ngpus > 0)`. `outside` is the memory behind the text of the devices.
unfoldable pub select_visible : Bytes → Option Bytes → NvcDeviceInfo → Result Devices
unfolding select_devices new_devices
select_visible outside devices dev =
    if ltb 0 (length dev)
    then select_devices outside devices dev (new_devices dev)
    else ok (new_devices dev)

unfoldable pub select_monitor : Library → Context → Devices → Devices → Run Selections
unfolding select_mig_monitor_devices new_devices
select_monitor lib ctx visible config = do
  monitor ←
      check (codes "mig-monitor error: ")
        (select_mig_monitor_devices lib.dev ctx.mig_monitor visible (new_devices lib.dev))
  pure (record { visible = visible; mig_config = config; mig_monitor = monitor })

unfoldable pub select_config : Library → Context → Devices → Run Selections
unfolding select_mig_config_devices new_devices select_monitor
select_config lib ctx visible = do
  config ←
      check (codes "mig-config error: ")
        (select_mig_config_devices lib.dev ctx.mig_config visible (new_devices lib.dev))
  select_monitor lib ctx visible config

unfoldable pub select : Library → Bytes → Context → Run Selections
unfolding select_visible select_config
select lib outside ctx = do
  visible ← check (codes "device error: ") (select_visible outside ctx.devices lib.dev)
  select_config lib ctx visible

-- The devices that the requirements are evaluated for: the visible GPUs and the parents of the
-- visible MIG devices, or none where there are neither.
abbrev pub or_globally : List (Option NvcDevice) → List (Option NvcDevice)
or_globally [] = none ∷ []
or_globally (d ∷ ds) = d ∷ ds

unfoldable pub evaluated : NvcDeviceInfo → Devices → List (Option NvcDevice)
evaluated info visible = or_globally (
    map (λ (i : ℕ). get_elem? info i) visible.gpus
    ++ map (λ (m : MigRef). get_elem? info (parent_of info m)) visible.migs)

unfoldable pub require : Library → Context → Devices → Run (Unit {0})
unfolding evaluated evaluate_devices
require lib ctx visible =
    check (codes "requirement error: ")
      (evaluate_devices lib.drv ctx.reqs (evaluated lib.dev visible))

-- A loop of calls that stops at the first one that fails.
unfoldable pub each : Library → List Call → Run (Unit {0})
unfolding call
each lib [] = pure tt
each lib (c ∷ cs) = call lib mount_error c >> each lib cs

abbrev pub when : Bool → Run (Unit {0}) → Run (Unit {0})
when b m = if b then m else pure tt

-- `global` is called first; then every GPU that was selected.
unfoldable pub mount_mig_caps : Library → Call → Devices → Run (Unit {0})
unfolding call each
mount_mig_caps lib global d =
    when (d.all && ltb 0 (length d.gpus))
      (call lib mount_error global >> each lib (map (λ (i : ℕ). device_mig_caps_mount i) d.gpus))

unfoldable pub mount : Library → Selections → Run (Unit {0})
unfolding set_phase call each mount_mig_caps
mount lib s =
    set_phase lib nvc_mount
    >> call lib mount_error driver_mount
    >> each lib (map (λ (i : ℕ). device_mount i) s.visible.gpus)
    >> when (not s.mig_config.all && not s.mig_monitor.all)
        (each lib (map (λ (m : MigRef). mig_device_access_caps_mount m) s.visible.migs))
    >> mount_mig_caps lib mig_config_global_caps_mount s.mig_config
    >> mount_mig_caps lib mig_monitor_global_caps_mount s.mig_monitor

unfoldable pub finish : Library → Run (Unit {0})
unfolding set_phase call
finish lib =
    set_phase lib nvc_ldcache
    >> call lib (codes "ldcache error: ") ldcache_update
    >> set_phase lib nvc_shutdown

-- What follows the selection.
unfoldable pub configure : Library → Context → Selections → Run (Unit {0})
unfolding require mount finish
configure lib ctx s = require lib ctx s.visible >> (mount lib s >> finish lib)

-- All that `goto fail` leaves.
unfoldable pub body : Library → Bytes → Context → Run (Unit {0})
unfolding prepare select configure
body lib outside ctx = prepare lib ctx >> (do s ← select lib outside ctx; configure lib ctx s)

-- EXIT_SUCCESS or EXIT_FAILURE, and the text of the warning.
pub data Exit : Type 0 where
  exit_success : Exit
  exit_failure : Bytes → Exit

abbrev pub exit_of : Step (Unit {0}) → Exit
exit_of (done u) = exit_success
exit_of (warned text) = exit_failure text

-- The label `fail`: the library is shut down and everything is freed, however the body ended.
abbrev pub clean_up : History × Step (Unit {0}) → History × Exit
clean_up (h, s) = (release ∷ shutdown ∷ h, exit_of s)

abbrev pub unless_refused : Library → Bytes → Context → History × Step (Unit {0}) → History × Exit
unfolding body
unless_refused lib outside ctx (h, warned text) = (h, exit_failure text)
unless_refused lib outside ctx (h, done u) = clean_up (run (body lib outside ctx) h)

unfoldable pub configure_command : Library → Bytes → Context → History × Exit
unfolding restrict body
configure_command lib outside ctx = unless_refused lib outside ctx (run (restrict lib) [])
