-- ===== src/Configure/Parser/Accepts.antt =====
-- What configure_parser leaves: a bounded list of requirements, an absolute root directory, and a
-- mode of operation that the library accepts.
use libxdxgpu_container.Base.{
  ℕ, zero, suc, ◌≤◌, ◌≡◌, refl, ◌∙◌, inl, inr, false, not, List, [], ◌∷◌, ◌++◌, ltb, ◌==◌, length,
  All, Bool-cases,
}
use libxdxgpu_container.Base.Bits.{bit}
use libxdxgpu_container.Base.Int.{ℤ, pos, negsuc}
use libxdxgpu_container.Libc.{Bytes, codes, tokens, strcmp_eq}
use libxdxgpu_container.Options.Table.{container_opts, opt_supervised, opt_standalone}
use libxdxgpu_container.Options.Laws.{requested}
use libxdxgpu_container.Utils.Str.{str_equal}
use libxdxgpu_container.Utils.Ids.{str_to_pid}
use libxdxgpu_container.Configure.{Context}
use libxdxgpu_container.Configure.Parser.{
  Key, pid_option, device_option, require_option, ldconfig_option, compute_option, utility_option,
  video_option, graphics_option, display_option, ngx_option, compat32_option, mig_config_option,
  mig_monitor_option, no_cgroups_option, no_devbind_option, argument, success, end_of_arguments,
  other_key, Parsed, parsed, unknown_key, usage, fatal, with_flag, max_reqs, choose_mode,
  configure_parser, parse_on, parse_keys,
}
use libxdxgpu_container.Configure.Parser.Open.{
  asks, asks-with_flag, IsRooted, IsOpen, Leaves, IsOpen-with_flag, IsOpen-parse_requirement,
  IsOpen-parse_rootfs, IsOpen-same, IsOpen-parse_pid, is_success,
}

-- Every key but the last one keeps the context open.
IsOpen-configure_parser :
    (major : ℕ) (ppid : ℤ) (k : Key) (ctx : Context)
    → is_success k ≡ false
    → IsOpen ctx
    → Leaves IsOpen (configure_parser major ppid k ctx)
unfolding configure_parser tokens str_equal strcmp_eq bit
IsOpen-configure_parser major ppid (pid_option arg) ctx n o =
    IsOpen-parse_pid ctx (str_to_pid arg) o
IsOpen-configure_parser major ppid (device_option arg) ctx n o = IsOpen-same o refl refl refl
IsOpen-configure_parser major ppid (require_option arg) ctx n o =
    IsOpen-parse_requirement major ctx arg o
IsOpen-configure_parser major ppid (ldconfig_option arg) ctx n o = IsOpen-same o refl refl refl
IsOpen-configure_parser major ppid compute_option ctx n o =
    IsOpen-with_flag ctx (codes "compute") o refl refl
IsOpen-configure_parser major ppid utility_option ctx n o =
    IsOpen-with_flag ctx (codes "utility") o refl refl
IsOpen-configure_parser major ppid video_option ctx n o =
    IsOpen-with_flag ctx (codes "video") o refl refl
IsOpen-configure_parser major ppid graphics_option ctx n o =
    IsOpen-with_flag ctx (codes "graphics") o refl refl
IsOpen-configure_parser major ppid display_option ctx n o =
    IsOpen-with_flag ctx (codes "display") o refl refl
IsOpen-configure_parser major ppid ngx_option ctx n o = elim (Bool-cases (major == 0)) [
  | inl e ↦ rw e o
  | inr e ↦ rw e (IsOpen-with_flag ctx (codes "ngx") o refl refl)
]
IsOpen-configure_parser major ppid compat32_option ctx n o =
    IsOpen-with_flag ctx (codes "compat32") o refl refl
IsOpen-configure_parser major ppid (mig_config_option arg) ctx n o = IsOpen-same o refl refl refl
IsOpen-configure_parser major ppid (mig_monitor_option arg) ctx n o = IsOpen-same o refl refl refl
IsOpen-configure_parser major ppid no_cgroups_option ctx n o =
    IsOpen-with_flag ctx (codes "no-cgroups") o refl refl
IsOpen-configure_parser major ppid no_devbind_option ctx n o =
    IsOpen-with_flag ctx (codes "no-devbind") o refl refl
IsOpen-configure_parser major ppid (argument i arg) ctx n o = elim (Bool-cases (ltb 0 i)) [
  | inl e ↦ rw e tt
  | inr e ↦ rw e (IsOpen-parse_rootfs ctx arg o)
]
IsOpen-configure_parser major ppid success ctx n o = cc
IsOpen-configure_parser major ppid (end_of_arguments i) ctx n o = elim (Bool-cases (ltb i 1)) [
  | inl e ↦ rw e tt
  | inr e ↦ rw e o
]
IsOpen-configure_parser major ppid other_key ctx n o = tt

-- The flags name exactly one mode of operation.
pub record IsClosed (ctx : Context) : Type 0 where
  pub few : length ctx.reqs ≤ max_reqs
  pub rooted : IsRooted ctx.rootfs
  pub one_mode : asks opt_supervised ctx ≡ not (asks opt_standalone ctx)

IsClosed-by :
    (ctx : Context) (flag : Bytes)
    → IsOpen ctx
    → requested opt_supervised container_opts (tokens (codes " ") flag)
      ≡ not (requested opt_standalone container_opts (tokens (codes " ") flag))
    → Leaves IsClosed (with_flag ctx flag)
IsClosed-by ctx flag o e = record {
  few = o.few;
  rooted = o.rooted;
  one_mode =
      asks-with_flag opt_supervised ctx.container_flags flag
      ∙ rw
          (
            o.no_supervised,
            e,
            asks-with_flag opt_standalone ctx.container_flags flag,
            o.no_standalone,
          )
          refl;
}

choose_mode-IsClosed :
    (ppid : ℤ) (ctx : Context) (pid : ℤ)
    → IsOpen ctx
    → Leaves IsClosed (parse_on (λ c. parsed c) ctx (choose_mode ppid ctx pid))
unfolding tokens str_equal strcmp_eq bit
choose_mode-IsClosed ppid ctx (pos (suc n)) o = IsClosed-by ctx (codes "supervised") o refl
choose_mode-IsClosed ppid ctx (pos zero) o =
    IsClosed-by (record ctx { pid = ppid }) (codes "standalone") (IsOpen-same o refl refl refl) refl
choose_mode-IsClosed ppid ctx (negsuc n) o =
    IsClosed-by (record ctx { pid = ppid }) (codes "standalone") (IsOpen-same o refl refl refl) refl

Leaves-parse_on :
    (P : Context → Type 0) (next : Context → Parsed) (ctx : Context) (r : Parsed)
    → IsOpen ctx
    → ((c : Context) → IsOpen c → Leaves P (next c))
    → Leaves IsOpen r
    → Leaves P (parse_on next ctx r)
Leaves-parse_on P next ctx (parsed ctx') o k l = k ctx' l
Leaves-parse_on P next ctx unknown_key o k l = k ctx o
Leaves-parse_on P next ctx usage o k l = tt
Leaves-parse_on P next ctx (fatal text) o k l = tt

-- From an open context, options and arguments in any order and then the end leave at most 32
-- requirements, a root directory, if one is given, that is absolute and not "/", and flags that ask
-- for exactly one of the supervised and the standalone mode.
pub parse_keys-IsClosed :
    (major : ℕ) (ppid : ℤ) (keys : List Key) (ctx : Context)
    → All (λ k. is_success k ≡ false) keys
    → IsOpen ctx
    → Leaves IsClosed (parse_keys major ppid (keys ++ success ∷ []) ctx)
unfolding parse_keys configure_parser
parse_keys-IsClosed major ppid [] ctx a o = choose_mode-IsClosed ppid ctx ctx.pid o
parse_keys-IsClosed major ppid (k ∷ keys) ctx (n, a) o =
    Leaves-parse_on IsClosed (λ c. parse_keys major ppid (keys ++ success ∷ []) c) ctx
      (configure_parser major ppid k ctx) o (λ c p. parse_keys-IsClosed major ppid keys c a p)
      (IsOpen-configure_parser major ppid k ctx n o)
