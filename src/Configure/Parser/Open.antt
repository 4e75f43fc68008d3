-- ===== src/Configure/Parser/Open.antt =====
-- What the steps of configure_parser keep: the bounds, the root directory, and no mode yet.
use libxdxgpu_container.Base.{
  ℕ, ◌≤◌, ◌≡◌, ◌≢◌, refl, ap, ◌∙◌, inl, inr, Bool, true, false, not, ◌&&◌, ◌||◌, List, [], ◌∷◌,
  append_assoc, Option, none, some, leb, ◌==◌, length, length-append, arith, Bool-cases,
}
use libxdxgpu_container.Base.Int.{ℤ}
use libxdxgpu_container.Libc.{Bytes, codes, tokens, strncmp_eq, strcmp_eq}
use libxdxgpu_container.Libc.SepLaws.{tokens-append}
use libxdxgpu_container.Error.{Result, ok, err}
use libxdxgpu_container.Options.Table.{container_opts, opt_supervised, opt_standalone}
use libxdxgpu_container.Options.Laws.{requested, requested-append}
use libxdxgpu_container.Utils.Str.{str_equal, str_join}
use libxdxgpu_container.Configure.{Context}
use libxdxgpu_container.Configure.Parser.{
  Key, success, Parsed, parsed, unknown_key, usage, fatal, joined_text, with_flag, max_reqs,
  add_requirement, parse_requirement, parse_pid, parse_rootfs,
}

-- The words of the container flags.
abbrev pub flag_words : Option Bytes → List Bytes
flag_words none = []
flag_words (some text) = tokens (codes " ") text

abbrev pub asks : ℕ → Context → Bool
asks k ctx = requested k container_opts (flag_words ctx.container_flags)

pub asks-with_flag :
    (k : ℕ) (flags : Option Bytes) (flag : Bytes)
    → requested k container_opts (flag_words (joined_text flags flag (codes " "))) ≡ (
        requested k container_opts (flag_words flags)
        || requested k container_opts (tokens (codes " ") flag))
unfolding str_join tokens
asks-with_flag k none flag = refl
asks-with_flag k (some []) flag = refl
asks-with_flag k (some (c ∷ s)) flag =
    ap (λ x. requested k container_opts x)
      (ap (tokens (codes " ")) (append_assoc (c ∷ s) (codes " ") flag)
        ∙ tokens-append b' ' (c ∷ s) flag)
    ∙ requested-append k container_opts (tokens (codes " ") (c ∷ s)) (tokens (codes " ") flag)

-- A root directory that is given is absolute, and not "/".
abbrev pub IsRooted : Option Bytes → Type 0
IsRooted none = Unit
IsRooted (some []) = ⊥
IsRooted (some (c ∷ path)) = (c ≡ b'/') × (path ≢ [])

-- The requirements fit the array, the root directory is absolute and not the root itself, and the
-- flags name no mode of operation.
pub record IsOpen (ctx : Context) : Type 0 where
  pub few : length ctx.reqs ≤ max_reqs
  pub rooted : IsRooted ctx.rootfs
  pub no_supervised : asks opt_supervised ctx ≡ false
  pub no_standalone : asks opt_standalone ctx ≡ false

-- What a call of the parser leaves, if it leaves a context.
abbrev pub Leaves : (Context → Type 0) → Parsed → Type 0
Leaves P (parsed ctx) = P ctx
Leaves P unknown_key = Unit
Leaves P usage = Unit
Leaves P (fatal text) = Unit

pub IsOpen-with_flag :
    (ctx : Context) (flag : Bytes)
    → IsOpen ctx
    → requested opt_supervised container_opts (tokens (codes " ") flag) ≡ false
    → requested opt_standalone container_opts (tokens (codes " ") flag) ≡ false
    → Leaves IsOpen (with_flag ctx flag)
IsOpen-with_flag ctx flag o p q = record {
  few = o.few;
  rooted = o.rooted;
  no_supervised =
      asks-with_flag opt_supervised ctx.container_flags flag ∙ rw (o.no_supervised, p) refl;
  no_standalone =
      asks-with_flag opt_standalone ctx.container_flags flag ∙ rw (o.no_standalone, q) refl;
}

pub IsOpen-add_requirement :
    (ctx : Context) (arg : Bytes) → IsOpen ctx → Leaves IsOpen (add_requirement ctx arg)
IsOpen-add_requirement ctx arg o = elim (Bool-cases (leb max_reqs (length ctx.reqs))) [
  | inl e ↦ rw e tt
  | inr e ↦ rw e (record {
    few = ground (arith, length-append ctx.reqs (arg ∷ []));
    rooted = o.rooted;
    no_supervised = o.no_supervised;
    no_standalone = o.no_standalone;
  })
]

pub IsOpen-parse_requirement :
    (major : ℕ) (ctx : Context) (arg : Bytes)
    → IsOpen ctx
    → Leaves IsOpen (parse_requirement major ctx arg)
unfolding tokens str_equal strcmp_eq
IsOpen-parse_requirement major ctx arg o =
    elim (Bool-cases (major == 0 && strncmp_eq 14 arg (codes "csv-mounts=all"))) [
      | inl e ↦ rw e (IsOpen-with_flag ctx (codes "jetpack-mount-all") o refl refl)
      | inr e ↦ elim (Bool-cases (major == 0 && strncmp_eq 9 arg (codes "base-only"))) [
        | inl f ↦ rw (e, f) (IsOpen-with_flag ctx (codes "jetpack-base-only") o refl refl)
        | inr f ↦ rw (e, f) (IsOpen-add_requirement ctx arg o)
      ]
    ]

pub IsRooted-text :
    (c : ℕ) (path : Bytes)
    → not (c == b'/') || str_equal (c ∷ path) (codes "/") ≡ false
    → IsRooted (some (c ∷ path))
unfolding str_equal strcmp_eq
IsRooted-text c [] e = absurd (ground arith)
IsRooted-text c (d ∷ path) e = (ground arith, λ q. cc)

pub IsOpen-parse_rootfs :
    (ctx : Context) (arg : Bytes) → IsOpen ctx → Leaves IsOpen (parse_rootfs ctx arg)
unfolding parse_rootfs
IsOpen-parse_rootfs ctx [] o = tt
IsOpen-parse_rootfs ctx (c ∷ arg) o =
    elim (Bool-cases (not (c == b'/') || str_equal (c ∷ arg) (codes "/"))) [
      | inl e ↦ rw e tt
      | inr e ↦ rw e (record {
        few = o.few;
        rooted = IsRooted-text c arg e;
        no_supervised = o.no_supervised;
        no_standalone = o.no_standalone;
      })
    ]

pub IsOpen-same :
    {ctx after : Context}
    → IsOpen ctx
    → after.reqs ≡ ctx.reqs
    → after.rootfs ≡ ctx.rootfs
    → after.container_flags ≡ ctx.container_flags
    → IsOpen after
IsOpen-same o r p f = record {
  few = rw r o.few;
  rooted = rw p o.rooted;
  no_supervised = rw f o.no_supervised;
  no_standalone = rw f o.no_standalone;
}

pub IsOpen-parse_pid : (ctx : Context) (r : Result ℤ) → IsOpen ctx → Leaves IsOpen (parse_pid ctx r)
IsOpen-parse_pid ctx (ok pid) o = IsOpen-same o refl refl refl
IsOpen-parse_pid ctx (err e) o = tt

abbrev pub is_success : Key → Bool
is_success success = true
is_success k = false
