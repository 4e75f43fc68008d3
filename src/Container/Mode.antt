-- ===== src/Container/Mode.antt =====
-- The mode of operation that the configure command's parser leaves, and `nvc_container_new`.
use libxdxgpu_container.Base.{ℕ, ◌≡◌, refl, sym, ap, ◌∙◌, Bool, true, false, not, some}
use libxdxgpu_container.Base.Bits.{bit}
use libxdxgpu_container.Libc.{Bytes}
use libxdxgpu_container.Error.{ok}
use libxdxgpu_container.Options.{options_parse}
use libxdxgpu_container.Options.Table.{container_opts, opt_supervised, opt_standalone}
use libxdxgpu_container.Options.Laws.{Distinct, options_parse-bit}
use libxdxgpu_container.Utils.Str.{str_equal}
use libxdxgpu_container.Libc.{strcmp_eq}
use libxdxgpu_container.Configure.{Context}
use libxdxgpu_container.Configure.Parser.Accepts.{IsClosed}
use libxdxgpu_container.Container.{
  differ, is_one_mode, is_valid_config, check_mode, build_container, nvc_container_new,
}
use libxdxgpu_container.Container.Config.{Host, NvcContainerConfig}

pub container_opts-Distinct : Distinct container_opts
unfolding str_equal strcmp_eq
container_opts-Distinct = (
  refl,
  (refl, (refl, (refl, (refl, (refl, (refl, (refl, (refl, (refl, (refl, (refl, tt))))))))))),
)

differ-not : (a b : Bool) → a ≡ not b → differ (not a) (not b) ≡ true
differ-not true true h = cc
differ-not true false h = refl
differ-not false true h = refl
differ-not false false h = cc

pub not-differ : (a b : Bool) → differ (not a) (not b) ≡ true → a ≡ not b
not-differ true true h = cc
not-differ true false h = refl
not-differ false true h = refl
not-differ false false h = cc

is_one_mode-IsClosed :
    (ctx : Context) {text : Bytes} {flags : ℕ}
    → IsClosed ctx
    → ctx.container_flags ≡ some text
    → options_parse text container_opts ≡ ok flags
    → is_one_mode flags ≡ true
unfolding is_one_mode
is_one_mode-IsClosed ctx {text} {flags} c t p =
    let supervised =
      options_parse-bit opt_supervised text container_opts container_opts-Distinct p in
    let standalone =
      options_parse-bit opt_standalone text container_opts container_opts-Distinct p in
    differ-not (bit opt_supervised flags) (bit opt_standalone flags)
      (supervised ∙ (rw t at c.one_mode) ∙ ap not (sym standalone))

-- What the parser of the configure command leaves is never refused for its mode of operation: if
-- the flags of a closed context are read, then `nvc_container_new` with a valid configuration goes
-- on to make the container with them.
pub nvc_container_new-IsClosed :
    (host : Host) (cfg : NvcContainerConfig) (ctx : Context) {text : Bytes} {flags : ℕ}
    → IsClosed ctx
    → ctx.container_flags ≡ some text
    → options_parse text container_opts ≡ ok flags
    → is_valid_config cfg ≡ true
    → nvc_container_new host cfg (some text) ≡ build_container host flags cfg
unfolding nvc_container_new check_mode
nvc_container_new-IsClosed host cfg ctx c t p v = rw (v, p, is_one_mode-IsClosed ctx c t p) refl
