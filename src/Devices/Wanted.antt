-- ===== src/Devices/Wanted.antt =====
-- src/cli/common.c: the devices given to --mig-config and --mig-monitor.
use libxdxgpu_container.Base.{
  ℕ, Bool, true, false, not, ◌&&◌, List, [], ◌∷◌, Option, none, some, ltb, if◌then◌else◌, length,
  get_elem?,
}
use libxdxgpu_container.Libc.{Bytes, codes, tokens}
use libxdxgpu_container.Error.{setx, Result, ok, err, ◌>>=◌}
use libxdxgpu_container.Utils.Str.{str_case_equal}
use libxdxgpu_container.Devices.{NvcDeviceInfo, MigRef, Devices, add_gpu_device, within}
use libxdxgpu_container.Devices.Select.{parent_of}

-- `visible->gpus[i]->mig_capable`, through the array that the pointer is into.
unfoldable pub is_mig_capable : NvcDeviceInfo → ℕ → Bool
is_mig_capable info i = elim (get_elem? info i) [ none ↦ false | some gpu ↦ gpu.mig_capable ]

unfoldable pub add_capable_gpus : NvcDeviceInfo → List ℕ → Devices → Result Devices
unfolding is_mig_capable
add_capable_gpus info [] selected = ok selected
add_capable_gpus info (gpu ∷ gpus) selected = do
  d ← (if not (is_mig_capable info gpu) then ok selected else add_gpu_device gpu selected)
  add_capable_gpus info gpus d

unfoldable pub add_capable_parents : NvcDeviceInfo → List MigRef → Devices → Result Devices
unfolding is_mig_capable
add_capable_parents info [] selected = ok selected
add_capable_parents info (mig ∷ migs) selected = do
  d ←
      (if not (is_mig_capable info (parent_of info mig))
        then ok selected
        else add_gpu_device (parent_of info mig) selected)
  add_capable_parents info migs d

-- The token "all".
unfoldable pub select_capable : Bytes → NvcDeviceInfo → Devices → Devices → Result Devices
unfolding add_capable_gpus add_capable_parents
select_capable refusal info visible selected =
    if not visible.all && ltb 0 (length visible.migs) then err (setx refusal) else (do
      d ← add_capable_gpus info visible.gpus selected
      d' ← add_capable_parents info visible.migs d
      ok (record d' { all = true }))

-- The two functions differ in the text of one error only.
unfoldable pub wanted_loop : Bytes → NvcDeviceInfo → Devices → List Bytes → Devices → Result Devices
unfolding select_capable
wanted_loop refusal info visible [] selected = ok selected
wanted_loop refusal info visible ([] ∷ devs) selected =
    wanted_loop refusal info visible devs selected
wanted_loop refusal info visible ((c ∷ dev) ∷ devs) selected = within (c ∷ dev) (
    if str_case_equal (c ∷ dev) (codes "all")
    then select_capable refusal info visible selected
    else err (setx (codes "only 'all' devices are currently supported")))

unfoldable pub select_mig_config_devices :
    NvcDeviceInfo → Option Bytes → Devices → Devices → Result Devices
unfolding wanted_loop
select_mig_config_devices info none visible selected = ok selected
select_mig_config_devices info (some devs) visible selected =
    wanted_loop (codes "cannot enable mig-config with specific MIG devices selected") info visible
      (tokens (codes ",") devs) selected

unfoldable pub select_mig_monitor_devices :
    NvcDeviceInfo → Option Bytes → Devices → Devices → Result Devices
unfolding wanted_loop
select_mig_monitor_devices info none visible selected = ok selected
select_mig_monitor_devices info (some devs) visible selected =
    wanted_loop (codes "cannot enable mig-monitor with specific MIG devices selected") info visible
      (tokens (codes ",") devs) selected
