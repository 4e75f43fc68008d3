-- ===== src/Libc/SepLaws.antt =====
-- `tokens` is the loop over `strsep`, and the tokens joined again are the text.
use libxdxgpu_container.Base.{
  ℕ, ◌≡◌, ◌≢◌, refl, sym, ap, ap₂, ◌∙◌, false, List, [], ◌∷◌, ◌++◌, inl, inr, Option, none, some,
  if◌then◌else◌, arith, All, Bool-cases, ==_iff, ==_refl, ◌==◌,
}
use libxdxgpu_container.Libc.Text.{Bytes, elem}
use libxdxgpu_container.Libc.Sep.{strsep, tokens, grow, join_head}

-- What the loop sees after a call of strsep.
abbrev pub continue : Bytes → Bytes × Option Bytes → List Bytes
continue delim (token, none) = token ∷ []
continue delim (token, some rest) = token ∷ tokens delim rest

continue-grow :
    (delim : Bytes) (c : ℕ) (r : Bytes × Option Bytes)
    → continue delim (grow c r) ≡ join_head c (continue delim r)
continue-grow delim c (t, none) = refl
continue-grow delim c (t, some r) = refl

pub tokens-strsep : (delim s : Bytes) → tokens delim s ≡ continue delim (strsep s delim)
unfolding tokens strsep
tokens-strsep delim [] = refl
tokens-strsep delim (c ∷ s) = elim (Bool-cases (elem c delim)) [
  | inl e ↦ rw (e, if◌then◌else◌) refl
  | inr e ↦
      rw (e, if◌then◌else◌, tokens-strsep delim s, continue-grow delim c (strsep s delim)) refl
]

-- The tokens with one separator between each two.
abbrev pub join : ℕ → List Bytes → Bytes
join c [] = []
join c (t ∷ []) = t
join c (t ∷ u ∷ ts) = t ++ c ∷ join c (u ∷ ts)

join-join_head : (c d : ℕ) (ts : List Bytes) → ts ≢ [] → join c (join_head d ts) ≡ d ∷ join c ts
join-join_head c d [] h = absurd (h refl)
join-join_head c d (t ∷ []) h = refl
join-join_head c d (t ∷ u ∷ ts) h = refl

join_head-ne-nil : (d : ℕ) (ts : List Bytes) → join_head d ts ≢ []
join_head-ne-nil d [] h = cc
join_head-ne-nil d (t ∷ ts) h = cc

tokens-ne-nil : (delim s : Bytes) → tokens delim s ≢ []
unfolding tokens
tokens-ne-nil delim [] h = cc
tokens-ne-nil delim (c ∷ s) h = elim (Bool-cases (elem c delim)) [
  | inl e ↦ cc (rw (e, if◌then◌else◌) at h)
  | inr e ↦ join_head-ne-nil c (tokens delim s) (rw (e, if◌then◌else◌) at h)
]

join-nil_cons : (c : ℕ) (ts : List Bytes) → ts ≢ [] → join c ([] ∷ ts) ≡ c ∷ join c ts
join-nil_cons c [] h = absurd (h refl)
join-nil_cons c (t ∷ ts) h = refl

pub join-tokens : (c : ℕ) (s : Bytes) → join c (tokens (c ∷ []) s) ≡ s
unfolding tokens
join-tokens c [] = refl
join-tokens c (x ∷ s) = elim (Bool-cases (x == c)) [
  | inl e ↦ rw e (
      join-nil_cons c (tokens (c ∷ []) s) (tokens-ne-nil (c ∷ []) s)
      ∙ ap₂ ◌∷◌ (sym ((==_iff x c).0 e)) (join-tokens c s))
  | inr e ↦ rw e (
      join-join_head c x (tokens (c ∷ []) s) (tokens-ne-nil (c ∷ []) s)
      ∙ ap (◌∷◌ x) (join-tokens c s))
]

-- No token holds a separator.
elem-join_head :
    (c d : ℕ) (ts : List Bytes)
    → (c == d) ≡ false
    → All (λ t. elem c t ≡ false) ts
    → All (λ t. elem c t ≡ false) (join_head d ts)
elem-join_head c d [] n h = ground arith
elem-join_head c d (t ∷ ts) n (h, hs) = (ground arith, hs)

pub tokens-All : (c : ℕ) (s : Bytes) → All (λ t. elem c t ≡ false) (tokens (c ∷ []) s)
unfolding tokens
tokens-All c [] = (refl, tt)
tokens-All c (x ∷ s) = elim (Bool-cases (x == c)) [
  | inl e ↦ rw e (refl, tokens-All c s)
  | inr e ↦ rw e (elem-join_head c x (tokens (c ∷ []) s) (ground arith) (tokens-All c s))
]

-- The tokens of two texts with a separator between them.
join_head-append :
    (d : ℕ) (ts us : List Bytes) → ts ≢ [] → join_head d ts ++ us ≡ join_head d (ts ++ us)
join_head-append d [] us h = absurd (h refl)
join_head-append d (t ∷ ts) us h = refl

pub tokens-append :
    (c : ℕ) (a b : Bytes) → tokens (c ∷ []) (a ++ c ∷ b) ≡ tokens (c ∷ []) a ++ tokens (c ∷ []) b
unfolding tokens
tokens-append c [] b = rw (==_refl c) refl
tokens-append c (x ∷ a) b = elim (Bool-cases (x == c)) [
  | inl e ↦ rw e (ap (◌∷◌ []) (tokens-append c a b))
  | inr e ↦
      rw (e, tokens-append c a b)
        (sym
          (join_head-append x (tokens (c ∷ []) a) (tokens (c ∷ []) b) (tokens-ne-nil (c ∷ []) a)))
]

-- strsep stops at the first separator.
pub strsep-append :
    (c : ℕ) (t r : Bytes) → elem c t ≡ false → strsep (t ++ c ∷ r) (c ∷ []) ≡ (t, some r)
unfolding strsep
strsep-append c [] r h = rw (==_refl c) refl
strsep-append c (x ∷ t) r h =
    let n : (x == c) ≡ false = ground arith in rw (n, strsep-append c t r (ground arith)) refl

pub strsep_all : (c : ℕ) (t : Bytes) → elem c t ≡ false → strsep t (c ∷ []) ≡ (t, none)
unfolding strsep
strsep_all c [] h = refl
strsep_all c (x ∷ t) h =
    let n : (x == c) ≡ false = ground arith in rw (n, strsep_all c t (ground arith)) refl
