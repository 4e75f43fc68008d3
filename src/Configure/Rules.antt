-- ===== src/Configure/Rules.antt =====
-- src/cli/configure.c: what a requirement compares, and the evaluation of the requirements.
use libxdxgpu_container.Base.{true, List, [], ◌∷◌, Option, none, some}
use libxdxgpu_container.Base.Int.{ℤ}
use libxdxgpu_container.Libc.{Bytes, codes}
use libxdxgpu_container.Error.{Result, ok, ◌>>◌}
use libxdxgpu_container.Devices.{NvcDevice}
use libxdxgpu_container.Dsl.{
  DslComparator, DslRule, truth, minus_one, dsl_compare_version, dsl_compare_string, dsl_evaluate,
}
use libxdxgpu_container.Configure.{DriverVersions}

-- `struct dsl_data`
pub record DslData : Type 0 where
  pub drv : Option DriverVersions
  pub dev : Option NvcDevice

-- The comparison is given the fuel that it needs: `Dsl.Total.dsl_compare_version-Returns`.
abbrev pub settled : Option ℤ → ℤ
settled none = minus_one
settled (some n) = n

-- A field of something that may be NULL.
abbrev pub field : {A : Type 0} → (A → Option Bytes) → Option A → Option Bytes
field f none = none
field f (some a) = f a

abbrev pub compare_field : Option Bytes → DslComparator → Bytes → ℤ
compare_field none cmp version = truth true
compare_field (some v) cmp version = settled (dsl_compare_version v cmp version)

unfoldable pub check_cuda_version : DslData → DslComparator → Bytes → ℤ
check_cuda_version d cmp version =
    compare_field (field (λ (v : DriverVersions). v.cuda_version) d.drv) cmp version

unfoldable pub check_driver_version : DslData → DslComparator → Bytes → ℤ
check_driver_version d cmp version =
    compare_field (field (λ (v : DriverVersions). v.nvrm_version) d.drv) cmp version

unfoldable pub check_device_arch : DslData → DslComparator → Bytes → ℤ
check_device_arch d cmp arch = compare_field (field (λ (v : NvcDevice). v.arch) d.dev) cmp arch

unfoldable pub check_device_brand : DslData → DslComparator → Bytes → ℤ
check_device_brand d cmp brand = elim (field (λ (v : NvcDevice). v.brand) d.dev) [
  | none ↦ truth true
  | some b ↦ dsl_compare_string b cmp brand
]

-- `rules`
unfoldable pub rules : DslData → List DslRule
unfolding check_cuda_version check_driver_version check_device_arch check_device_brand
rules d =
    record { name = codes "cuda"; func = check_cuda_version d }
    ∷ record { name = codes "driver"; func = check_driver_version d }
    ∷ record { name = codes "arch"; func = check_device_arch d }
    ∷ record { name = codes "brand"; func = check_device_brand d }
    ∷ []

-- The inner loop, over `ctx->reqs`.
unfoldable pub evaluate_reqs : DslData → List Bytes → Result (Unit {0})
unfolding rules
evaluate_reqs d [] = ok tt
evaluate_reqs d (r ∷ reqs) = dsl_evaluate r (rules d) >> evaluate_reqs d reqs

-- The loop over the devices whose data is given.
unfoldable pub evaluate_devices :
    DriverVersions → List Bytes → List (Option NvcDevice) → Result (Unit {0})
unfolding evaluate_reqs
evaluate_devices drv reqs [] = ok tt
evaluate_devices drv reqs (dev ∷ devs) =
    evaluate_reqs (record { drv = some drv; dev = dev }) reqs >> evaluate_devices drv reqs devs
