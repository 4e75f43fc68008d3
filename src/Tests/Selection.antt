-- ===== src/Tests/Selection.antt =====
-- Selecting devices, for src/cli/common.c.
use libxdxgpu_container.Base.{ℕ, ◌<◌, ◌≡◌, refl, true, List, [], ◌∷◌, none, some, length, arith}
use libxdxgpu_container.Libc.{Bytes, codes}
use libxdxgpu_container.Devices.{
  NvcMigDevice, NvcDevice, NvcDeviceInfo, MigRef, new_devices, add_gpu_device, add_mig_device,
  select_all_devices,
}
use libxdxgpu_container.Devices.Select.{select_devices}
use libxdxgpu_container.Devices.Capacity.{is_mig}
use libxdxgpu_container.Devices.Invariant.{
  Added, HasGpu, HasMig, new_devices-IsSelection, add_gpu_device-Added, add_mig_device-Added,
}
use libxdxgpu_container.Devices.AllDevices.{Grows, select_all_devices-Grows}
use libxdxgpu_container.Devices.Outcome.{Ends, listed, select_devices-Ends}

abbrev mig : NvcMigDevice
mig = record {
  parent = 1;
  uuid = codes "MIG-7";
  gi = 1;
  ci = 0;
  gi_caps_path = [];
  ci_caps_path = [];
}

abbrev gpu : Bytes → List NvcMigDevice → NvcDevice
gpu uuid migs = record {
  model = codes "model";
  uuid = uuid;
  busid = codes "00000000:01:00.0";
  arch = none;
  brand = none;
  node_path = codes "/dev/dri/card0";
  node_id = 0;
  mig_capable = true;
  mig_caps_path = none;
  mig_devices = migs;
}

abbrev two_gpus : NvcDeviceInfo
two_gpus = gpu (codes "aaaa") [] ∷ gpu (codes "bbbb") (mig ∷ []) ∷ []

select_devices-Ends_example :
    Ends [] two_gpus
      (listed (some (codes "0,GPbbbb,all")))
      (select_devices [] (some (codes "0,GPbbbb,all")) two_gpus (new_devices two_gpus))
select_devices-Ends_example =
    select_devices-Ends [] (some (codes "0,GPbbbb,all")) two_gpus (tt, ((omega arith, tt), tt))

select_all_devices-Grows_example :
    (g : Grows two_gpus (new_devices two_gpus) (select_all_devices two_gpus (new_devices two_gpus)))
    × ((k : ℕ) → k < length two_gpus → HasGpu k g.after)
    × ((m : MigRef) → is_mig two_gpus m ≡ true → HasMig m g.after)
select_all_devices-Grows_example =
    select_all_devices-Grows {info = two_gpus} (new_devices two_gpus)
      (new_devices-IsSelection two_gpus)

add_gpu_device-Added_example :
    (a : Added two_gpus (new_devices two_gpus) (add_gpu_device 1 (new_devices two_gpus))) × HasGpu 1
      a.after
add_gpu_device-Added_example =
    add_gpu_device-Added {info = two_gpus} 1 (new_devices two_gpus)
      (new_devices-IsSelection two_gpus) (omega arith)

add_mig_device-Added_example :
    (a : Added two_gpus (new_devices two_gpus) (add_mig_device (1, 0) (new_devices two_gpus)))
    × HasMig (1, 0) a.after
add_mig_device-Added_example =
    add_mig_device-Added {info = two_gpus} (1, 0) (new_devices two_gpus)
      (new_devices-IsSelection two_gpus) refl
