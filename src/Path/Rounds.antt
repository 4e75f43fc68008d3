-- ===== src/Path/Rounds.antt =====
-- A round of do_path_resolve keeps the resolved path a path of names, and has fewer rounds left.
use libxdxgpu_container.Base.{
  ℕ, ◌+◌, ◌-◌, ◌*◌, ◌<◌, ◌≡◌, refl, subst, inl, inr, false, ◌&&◌, List, [], ◌∷◌, Option, none, some,
  ltb, leb, ltb→lt, ◌==◌, length, All, arith, Bool-cases, and_true,
}
use libxdxgpu_container.Libc.{Bytes, codes, elem, strrchr}
use libxdxgpu_container.Error.{Result, ok, err, ◌>>=◌, ok-injective}
use libxdxgpu_container.Utils.Str.{str_equal}
use libxdxgpu_container.Utils.Ids.{enoent, einval}
use libxdxgpu_container.Path.{path_max, slash, path_append}
use libxdxgpu_container.Path.Append.{Fits, path_append-components}
use libxdxgpu_container.Path.Resolve.{
  Link, target, not_link, Files, max_symlinks, open_next, Walk, Next, go_up, add_missing,
  add_existing, behind_link, follow, by_errno, enter, go_down, round,
}
use libxdxgpu_container.Path.Names.{IsName, path_of, size, strrchr-append, path_append-path_of}

-- How many rounds the loop can still take.
abbrev pub weight : Option Bytes → Walk → ℕ
weight ptr w = (max_symlinks - w.nlinks) * (path_max + 1) + size ptr

-- What a round leaves: a resolved path of names, and fewer than `limit` rounds.
pub record Going (limit : ℕ) (ptr : Option Bytes) (w : Walk) : Type 0 where
  pub names : List Bytes
  pub real : w.realpath ≡ path_of names
  pub valid : All IsName names
  pub lighter : weight ptr w < limit

-- A result that is an error, or satisfies `P`.
abbrev pub OnOk : {A : Type 0} → (A → Type 0) → Result A → Type 0
OnOk P (ok a) = P a
OnOk P (err e) = Unit

pub OnOk-bind :
    {A B : Type 0} (P : B → Type 0) (m : Result A) (f : A → Result B)
    → ((a : A) → m ≡ ok a → OnOk P (f a))
    → OnOk P (m >>= f)
OnOk-bind P (ok a) f k = k a refl
OnOk-bind P (err e) f k = tt

abbrev pub Goes : ℕ → Next → Type 0
Goes limit r = OnOk (λ (x : Option Bytes × Walk). Going limit x.0 x.1) r

-- The same names, on the same number of links.
abbrev pub kept :
    {limit : ℕ} {ptr : Option Bytes} {w : Walk} (fd noents : ℕ)
    → Going limit ptr w
    → Going limit ptr (record w { fd = fd; noents = noents })
kept fd noents g = record { names = g.names; real = g.real; valid = g.valid; lighter = g.lighter }

pub parent_text :
    (names : List Bytes) (s : Bytes)
    → IsName s
    → strrchr (path_of (s ∷ names)) slash ≡ some (path_of names, slash ∷ s)
parent_text names s n = strrchr-append slash (path_of names) s n.1

pub go_up-Goes :
    (limit : ℕ) (files : Files) (root path : Bytes) (rest : Option Bytes) (w : Walk)
    → Going limit rest w
    → Goes limit (go_up files root path rest w (strrchr w.realpath slash))
unfolding go_up strrchr
go_up-Goes limit files root path rest w g = go g.names g.real g.valid
  where
    go :
        (names : List Bytes)
        → w.realpath ≡ path_of names
        → All IsName names
        → Goes limit (go_up files root path rest w (strrchr w.realpath slash))
    go [] r v = rw (r, strrchr) tt
    go (s ∷ names) r (n, v) =
        rw (r, parent_text names s n)
          (elim (Bool-cases (ltb 0 w.noents)) [
            | inl e ↦ rw e (record { names = names; real = refl; valid = v; lighter = g.lighter })
            | inr e ↦ rw e (
                OnOk-bind _ (open_next files (some w.fd) (codes "..")) _
                  (λ fd q. record { names = names; real = refl; valid = v; lighter = g.lighter }))
          ])

pub add_missing-Goes :
    (limit : ℕ) (file : Bytes) (rest : Option Bytes) (w : Walk)
    → IsName file
    → Going limit rest w
    → Goes limit (add_missing file rest w)
unfolding add_missing
add_missing-Goes limit file rest w n g = OnOk-bind _ (path_append w.realpath file) _ (λ r q.
    record {
      names = file ∷ g.names;
      real = path_append-path_of g.names file g.valid n (rw g.real at q);
      valid = (n, g.valid);
      lighter = g.lighter;
    })

pub add_existing-Goes :
    (limit : ℕ) (files : Files) (file : Bytes) (rest : Option Bytes) (w : Walk)
    → IsName file
    → Going limit rest w
    → Goes limit (add_existing files file rest w)
unfolding add_existing
add_existing-Goes limit files file rest w n g =
    OnOk-bind _ (open_next files (some w.fd) file) _ (λ fd p.
      OnOk-bind _ (path_append w.realpath file) _ (λ r q. record {
        names = file ∷ g.names;
        real = path_append-path_of g.names file g.valid n (rw g.real at q);
        valid = (n, g.valid);
        lighter = g.lighter;
      }))

pub behind_link-Fits :
    (link : Bytes) (rest : Option Bytes) {ptr : Bytes}
    → Fits link
    → behind_link link rest ≡ ok ptr
    → Fits ptr
unfolding behind_link
behind_link-Fits link none f h = subst Fits (ok-injective h) f
behind_link-Fits link (some rest) f h = (path_append-components link rest f h).1

-- One more link makes room for a whole buffer.
pub one_link :
    (n : ℕ) (ptr : Bytes) (rest : Option Bytes) (limit : ℕ)
    → n < max_symlinks
    → Fits ptr
    → (max_symlinks - n) * (path_max + 1) + size rest < limit
    → (max_symlinks - (n + 1)) * (path_max + 1) + size (some ptr) < limit
one_link n ptr rest limit l f h = omega arith

pub follow-Goes :
    (limit : ℕ) (files : Files) (root : Bytes) (c : ℕ) (link : Bytes) (rest : Option Bytes)
    (w : Walk)
    → Fits (c ∷ link)
    → w.nlinks < max_symlinks
    → Going limit rest w
    → Goes limit (follow files root c link rest w)
unfolding follow
follow-Goes limit files root c link rest w f l g = elim (Bool-cases (c == slash)) [
  | inl e ↦ rw e (
      OnOk-bind _ (open_next files (some w.fd) root) _ (λ fd p.
        OnOk-bind _ (behind_link link rest) _ (λ ptr q. record {
          names = [];
          real = refl;
          valid = tt;
          lighter =
              one_link w.nlinks ptr rest limit l (behind_link-Fits link rest (omega arith) q)
                g.lighter;
        })))
  | inr e ↦ rw e (
      OnOk-bind _ (behind_link (c ∷ link) rest) _ (λ ptr q. record {
        names = g.names;
        real = g.real;
        valid = g.valid;
        lighter =
            one_link w.nlinks ptr rest limit l (behind_link-Fits (c ∷ link) rest f q) g.lighter;
      }))
]

pub by_errno-Goes :
    (limit : ℕ) (files : Files) (root path file : Bytes) (rest : Option Bytes) (w : Walk)
    (errno : ℕ)
    → IsName file
    → Going limit rest w
    → Goes limit (by_errno files root path file rest w errno)
unfolding by_errno
by_errno-Goes limit files root path file rest w errno n g = elim (Bool-cases (errno == enoent)) [
  | inl e ↦ rw e (add_missing-Goes limit file rest w n g)
  | inr e ↦ elim (Bool-cases (errno == einval)) [
    | inl f ↦ rw (e, f) (add_existing-Goes limit files file rest w n g)
    | inr f ↦ rw (e, f) tt
  ]
]

pub enter-Goes :
    (limit : ℕ) (files : Files) (root path file : Bytes) (rest : Option Bytes) (w : Walk)
    (link : Link)
    → IsName file
    → Going limit rest w
    → Goes limit (enter files root path file rest w link)
unfolding enter
enter-Goes limit files root path file rest w (target c link) n g =
    elim (Bool-cases (ltb (length (c ∷ link)) path_max && ltb w.nlinks max_symlinks)) [
      | inl e ↦
          let (f, l) = and_true (ltb (length (c ∷ link)) path_max) (ltb w.nlinks max_symlinks) e in
          rw e (
            follow-Goes limit files root c link rest w (ltb→lt _ _ f)
              (ltb→lt w.nlinks max_symlinks l) g)
      | inr e ↦ elim (Bool-cases (leb path_max (length (c ∷ link)))) [
        | inl f ↦ rw (e, f) tt
        | inr f ↦ rw (e, f) tt
      ]
    ]
enter-Goes limit files root path file rest w (not_link errno) n g =
    elim (Bool-cases (leb max_symlinks w.nlinks)) [
      | inl e ↦ rw e tt
      | inr e ↦ rw e (by_errno-Goes limit files root path file rest w errno n g)
    ]

pub go_down-Goes :
    (limit : ℕ) (files : Files) (root path file : Bytes) (rest : Option Bytes) (w : Walk)
    → IsName file
    → Going limit rest w
    → Goes limit (go_down files root path file rest w)
unfolding go_down
go_down-Goes limit files root path file rest w n g = elim (Bool-cases (ltb 0 w.noents)) [
  | inl e ↦ rw e (add_missing-Goes limit file rest w n g)
  | inr e ↦ rw e (enter-Goes limit files root path file rest w (files.readlinkat w.fd file) n g)
]

pub round-Goes :
    (limit : ℕ) (files : Files) (root path : Bytes) (token : Bytes × Option Bytes) (w : Walk)
    → elem slash token.0 ≡ false
    → Going limit token.1 w
    → Goes limit (round files root path token w)
unfolding round
round-Goes limit files root path ([], rest) w e g = g
round-Goes limit files root path (c ∷ file, rest) w e g =
    elim (Bool-cases (str_equal (c ∷ file) (codes "."))) [
      | inl d ↦ rw d g
      | inr d ↦ elim (Bool-cases (str_equal (c ∷ file) (codes ".."))) [
        | inl u ↦ rw (d, u) (go_up-Goes limit files root path rest w g)
        | inr u ↦
            rw (d, u) (go_down-Goes limit files root path (c ∷ file) rest w ((λ q. cc), e, d, u) g)
      ]
    ]
