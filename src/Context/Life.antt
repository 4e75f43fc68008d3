-- ===== src/Context/Life.antt =====
-- src/nvc.c: nvc_init always ends, and what it leaves.
use libxdxgpu_container.Base.{
  ℕ, ◌≡◌, refl, sym, subst, true, false, not, ◌&&◌, Option, none, some, inl, inr, Bool-cases,
  if◌then◌else◌, ◌⊎◌, ◌%◌, ◌^◌,
}
use libxdxgpu_container.Libc.{Bytes, codes, strtoumax}
use libxdxgpu_container.Error.{Result, ok, err}
use libxdxgpu_container.Utils.Str.{str_empty}
use libxdxgpu_container.Options.{options_parse}
use libxdxgpu_container.Options.Table.{library_opts, default_library_opts}
use libxdxgpu_container.Kernel.{
  History, Kernel, Ended, done, failed, crashed, Op, run, pure, continue, ◌>>=◌, return, ask,
}
use libxdxgpu_container.File.Total.{IsAlive, Lives, Lives-bind, Lives-ask}
use libxdxgpu_container.Process.{scanned, uint32_in, file_read_uint32}
use libxdxgpu_container.Context.{
  NvcConfig, Config, ContextState, Services, given_or, id_or_overflow, copy_config, ns_opened,
  first_adapter, load_modules, initialize, none_given, settled, init_parsed, init_context, nvc_init,
}
use libxdxgpu_container.Context.Alive.{
  Lives-ns_opened, Lives-first_adapter, Lives-return, Lives-load_modules,
}

-- The number is what a read of the file gave, in 32 bits.
abbrev pub IsRead : Kernel → Bytes → ℕ → Type 0
IsRead kernel path id =
    (h : History) × (text rest : Bytes) × (n : ℕ) × (kernel.read_text h path ≡ inr (some text))
    × (strtoumax text ≡ (n, some rest))
    × (id ≡ n % 2 ^ 32)

-- The id is the one given, or the number in the file.
abbrev pub IsIdOr : Kernel → Bytes → Option ℕ → ℕ → Type 0
IsIdOr kernel path (some given) id = id ≡ given
IsIdOr kernel path none id = IsRead kernel path id

-- The configuration of a context is the one given, and what is not given has its default: the root
-- is "/", the cache is "/etc/ld.so.cache", and the ids are those of overflowuid and overflowgid.
abbrev pub IsCopy : Kernel → NvcConfig → Config → Type 0
IsCopy kernel cfg config =
    (config.root ≡ given_or (codes "/") cfg.root)
    × (config.ldcache ≡ given_or (codes "/etc/ld.so.cache") cfg.ldcache)
    × IsIdOr kernel (codes "/proc/sys/kernel/overflowuid") cfg.uid config.uid
    × IsIdOr kernel (codes "/proc/sys/kernel/overflowgid") cfg.gid config.gid

abbrev pub IsInitialized : Kernel → NvcConfig → ContextState → Type 0
IsInitialized kernel cfg ctx =
    (ctx.initialized ≡ true)
    × ((config : Config) × (ctx.cfg ≡ some config) × IsCopy kernel cfg config)

-- An operation that ends, and gives what has `P` where it succeeds.
abbrev Good : {A : Type 0} → (A → Type 0) → Ended A → Type 0
Good P (done a) = P a
Good P (failed e) = Unit
Good P crashed = ⊥

record Ends {A : Type 0} (P : A → Type 0) (m : Op A) : Type 0 where
  runs : (h : History) → Good P (run m h).1

Good-all : {A : Type 0} (P : A → Type 0) → ((a : A) → P a) → (x : Ended A) → IsAlive x → Good P x
Good-all P k (done a) i = k a
Good-all P k (failed e) i = tt
Good-all P k crashed i = i

Ends-all : {A : Type 0} (P : A → Type 0) (m : Op A) → ((a : A) → P a) → Lives m → Ends P m
Ends-all P m k l = record { runs = λ h. Good-all P k (run m h).1 (l.runs h) }

Good-continue :
    {A B : Type 0} (Q : A → Type 0) (P : B → Type 0) (f : A → Op B)
    → ((a : A) → Q a → Ends P (f a))
    → (x : History × Ended A) → Good Q x.1
    → Good P (continue f x).1
Good-continue Q P f k (h, done a) g = (k a g).runs h
Good-continue Q P f k (h, failed e) g = tt
Good-continue Q P f k (h, crashed) g = g

Ends-bind :
    {A B : Type 0} (Q : A → Type 0) (P : B → Type 0) (m : Op A) (f : A → Op B)
    → Ends Q m
    → ((a : A) → Q a → Ends P (f a))
    → Ends P (m >>= f)
Ends-bind Q P m f l k = record { runs = λ h. Good-continue Q P f k (run m h) (l.runs h) }

Ends-pure : {A : Type 0} (P : A → Type 0) (a : A) → P a → Ends P (pure a)
Ends-pure P a p = record { runs = λ h. p }

-- What comes first does not matter.
Ends-behind :
    {A B : Type 0} (P : B → Type 0) (m : Op A) (f : A → Op B)
    → Lives m
    → ((a : A) → Ends P (f a))
    → Ends P (m >>= f)
Ends-behind P m f l k = Ends-bind (λ a. Unit {0}) P m f (Ends-all _ m (λ a. tt) l) (λ a u. k a)

module _ (kernel : Kernel) where
  Ends-scanned :
      (path : Bytes) (h : History) (text : Bytes) (x : ℕ × Option Bytes)
      → kernel.read_text h path ≡ inr (some text)
      → strtoumax text ≡ x
      → Ends (IsRead kernel path) (scanned path x)
  Ends-scanned path h text (n, none) r t = record { runs = λ k. tt }
  Ends-scanned path h text (n, some rest) r t =
      Ends-pure (IsRead kernel path) (n % 2 ^ 32) (h, text, rest, n, r, t, refl)

  Ends-uint32_in :
      (path : Bytes) (h : History) (r : ℕ ⊎ Option Bytes)
      → kernel.read_text h path ≡ r
      → Ends (IsRead kernel path) (uint32_in path r)
  unfolding uint32_in
  Ends-uint32_in path h (inl e) q = record { runs = λ k. tt }
  Ends-uint32_in path h (inr none) q = record { runs = λ k. tt }
  Ends-uint32_in path h (inr (some text)) q = Ends-scanned path h text (strtoumax text) q refl

  Ends-id :
      (path : Bytes) (id : Option ℕ) → Ends (IsIdOr kernel path id) (id_or_overflow kernel path id)
  unfolding id_or_overflow file_read_uint32
  Ends-id path (some id) = Ends-pure (IsIdOr kernel path (some id)) id refl
  Ends-id path none = record {
    runs = λ h. (Ends-uint32_in path h (kernel.read_text h path) refl).runs h;
  }

  Ends-copy_config : (cfg : NvcConfig) → Ends (IsCopy kernel cfg) (copy_config kernel cfg)
  unfolding copy_config
  Ends-copy_config cfg =
      Ends-bind _ (IsCopy kernel cfg)
        (id_or_overflow kernel (codes "/proc/sys/kernel/overflowuid") cfg.uid) _ (Ends-id _ cfg.uid)
        (λ uid u.
          Ends-bind _ (IsCopy kernel cfg)
            (id_or_overflow kernel (codes "/proc/sys/kernel/overflowgid") cfg.gid) _
            (Ends-id _ cfg.gid)
            (λ gid g.
              let config : Config = record {
                root = given_or (codes "/") cfg.root;
                ldcache = given_or (codes "/etc/ld.so.cache") cfg.ldcache;
                uid = uid;
                gid = gid;
              } in
              Ends-pure (IsCopy kernel cfg) config (refl, refl, u, g)))

  Ends-initialize :
      (services : Services) (cfg : NvcConfig) (flags : ℕ)
      → Ends (IsInitialized kernel cfg) (initialize kernel services cfg flags)
  unfolding initialize
  Ends-initialize services cfg flags =
      Ends-bind (IsCopy kernel cfg) (IsInitialized kernel cfg) (copy_config kernel cfg) _
        (Ends-copy_config cfg)
        (λ config c.
          Ends-behind (IsInitialized kernel cfg) (ask (λ h. services.open_ns h) >>= ns_opened) _
            (Lives-bind (ask (λ h. services.open_ns h)) ns_opened (Lives-ask _)
              (Lives-ns_opened kernel))
            (λ fd.
              Ends-behind (IsInitialized kernel cfg)
                (ask (λ h. services.dxcore_adapters h) >>= first_adapter) _
                (Lives-bind (ask (λ h. services.dxcore_adapters h)) first_adapter (Lives-ask _)
                  (Lives-first_adapter kernel))
                (λ dxcore.
                  Ends-behind (IsInitialized kernel cfg) (load_modules kernel services flags dxcore)
                    _ (Lives-load_modules kernel services flags dxcore)
                    (λ u.
                      Ends-behind (IsInitialized kernel cfg)
                        (ask (λ h. services.driver_init h config) >>= return) _
                        (Lives-bind (ask (λ h. services.driver_init h config)) return (Lives-ask _)
                          (Lives-return kernel))
                        (λ u.
                          Ends-behind (IsInitialized kernel cfg)
                            (ask (λ h. services.nvcgo_init h) >>= return) _
                            (Lives-bind (ask (λ h. services.nvcgo_init h)) return (Lives-ask _)
                              (Lives-return kernel))
                            (λ u.
                              let ctx : ContextState = record {
                                initialized = true;
                                cfg = some config;
                                mnt_ns = some fd;
                                dxcore = dxcore;
                              } in
                              Ends-pure (IsInitialized kernel cfg) ctx
                                (refl, (config, refl, c))))))))

-- How nvc_init leaves a context that was not initialized.
abbrev pub Leaves : Kernel → NvcConfig → ContextState × Ended (Unit {0}) → Type 0
Leaves kernel cfg (ctx, done u) = IsInitialized kernel cfg ctx
Leaves kernel cfg (ctx, failed e) = ctx.initialized ≡ false
Leaves kernel cfg (ctx, crashed) = ⊥

Leaves-settled :
    (kernel : Kernel) (cfg : NvcConfig) (x : History × Ended ContextState)
    → Good (IsInitialized kernel cfg) x.1
    → Leaves kernel cfg (settled x)
Leaves-settled kernel cfg (h, done ctx) g = g
Leaves-settled kernel cfg (h, failed e) g = refl
Leaves-settled kernel cfg (h, crashed) g = g

Leaves-parsed :
    (kernel : Kernel) (services : Services) (ctx : ContextState) (cfg : NvcConfig) (h : History)
    (r : Result ℕ)
    → ctx.initialized ≡ false
    → Leaves kernel cfg (init_parsed kernel services ctx cfg h r)
unfolding init_parsed
Leaves-parsed kernel services ctx cfg h (err e) i = i
Leaves-parsed kernel services ctx cfg h (ok flags) i =
    Leaves-settled kernel cfg (run (initialize kernel services cfg flags) h)
      ((Ends-initialize kernel services cfg flags).runs h)

Leaves-context :
    (kernel : Kernel) (services : Services) (ctx : ContextState) (cfg : NvcConfig) (opts : Bytes)
    (h : History)
    → ctx.initialized ≡ false
    → Leaves kernel cfg (init_context kernel services ctx cfg opts h)
unfolding init_context
Leaves-context kernel services ctx cfg opts h i =
    elim (Bool-cases (not (str_empty cfg.ldcache) && not (str_empty cfg.root))) [
      | inl e ↦ rw e (Leaves-parsed kernel services ctx cfg h (options_parse opts library_opts) i)
      | inr e ↦ rw e i
    ]

-- On a context that is not initialized, nvc_init always ends. Where it succeeds, the context is
-- initialized with the configuration given, and with the defaults for what is not given: the root
-- "/", the cache "/etc/ld.so.cache", and the ids read from overflowuid and overflowgid of
-- /proc/sys/kernel. Where it fails, the context is still not initialized.
pub nvc_init-Leaves :
    (kernel : Kernel) (services : Services) (ctx : ContextState) (cfg : Option NvcConfig)
    (opts : Option Bytes) (h : History)
    → ctx.initialized ≡ false
    → Leaves kernel (given_or none_given cfg) (nvc_init kernel services ctx cfg opts h)
unfolding nvc_init
nvc_init-Leaves kernel services ctx cfg opts h i =
    subst
      (λ b. Leaves kernel (given_or none_given cfg) (
        if b
        then (ctx, done tt)
        else init_context kernel services ctx (given_or none_given cfg)
            (given_or default_library_opts opts) h))
      (sym i)
      (Leaves-context kernel services ctx (given_or none_given cfg)
        (given_or default_library_opts opts) h i)
