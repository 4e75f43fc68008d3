-- ===== src/Path/Append.antt =====
-- What path_append and path_join make of two paths.
use libxdxgpu_container.Base.{
  ℕ, ◌-◌, ◌<◌, ◌≡◌, refl, sym, ap, ap₂, subst, ◌∙◌, inl, inr, true, List, [], ◌∷◌, ◌++◌, append-nil,
  append_assoc, leb, ◌==◌, ==_iff, length, length-append, arith, Bool-cases,
}
use libxdxgpu_container.Libc.{Bytes, tokens}
use libxdxgpu_container.Libc.SepLaws.{tokens-append}
use libxdxgpu_container.Error.{ok, >>=-eq-ok, ok-injective}
use libxdxgpu_container.Path.{
  path_max, slash, ends_slash, appended, path_append, path_new, path_join,
}

-- The names in a path, without the empty ones.
abbrev pub not_empty : List Bytes → List Bytes
not_empty [] = []
not_empty ([] ∷ ts) = not_empty ts
not_empty ((c ∷ t) ∷ ts) = (c ∷ t) ∷ not_empty ts

abbrev pub components : Bytes → List Bytes
components s = not_empty (tokens (slash ∷ []) s)

not_empty-append : (a b : List Bytes) → not_empty (a ++ b) ≡ not_empty a ++ not_empty b
not_empty-append [] b = refl
not_empty-append ([] ∷ a) b = not_empty-append a b
not_empty-append ((c ∷ t) ∷ a) b = ap (◌∷◌ (c ∷ t)) (not_empty-append a b)

components-slash : (a b : Bytes) → components (a ++ slash ∷ b) ≡ components a ++ components b
components-slash a b =
    ap not_empty (tokens-append slash a b)
    ∙ not_empty-append (tokens (slash ∷ []) a) (tokens (slash ∷ []) b)

-- A text that ends with a slash.
ends_slash-split : (s : Bytes) → ends_slash s ≡ true → (a : Bytes) × (s ≡ a ++ slash ∷ [])
unfolding ends_slash
ends_slash-split [] h = cc
ends_slash-split (c ∷ []) h = ([], ap (λ x. x ∷ []) ((==_iff c slash).0 h))
ends_slash-split (c ∷ d ∷ s) h = let (a, e) = ends_slash-split (d ∷ s) h in (c ∷ a, ap (◌∷◌ c) e)

components_nil : components [] ≡ []
unfolding tokens
components_nil = refl

components-final : (a : Bytes) → components (a ++ slash ∷ []) ≡ components a
components-final a =
    components-slash a [] ∙ ap (λ x. components a ++ x) components_nil ∙ append-nil (components a)

components_leading : (b : Bytes) → components (slash ∷ b) ≡ components b
components_leading b = components-slash [] b ∙ ap (λ x. x ++ components b) components_nil

components-appended :
    (buf : Bytes) (c : ℕ) (path : Bytes)
    → components (buf ++ appended buf (c ∷ path)) ≡ components buf ++ components (c ∷ path)
unfolding appended
components-appended buf c path = elim (Bool-cases (ends_slash buf)) [
  | inl e ↦
      let (a, f) = ends_slash-split buf e in
      let joined : (x : Bytes) → buf ++ x ≡ a ++ slash ∷ x =
        λ x. ap (λ y. y ++ x) f ∙ append_assoc a (slash ∷ []) x in
      let whole : components buf ≡ components a = ap (λ x. components x) f ∙ components-final a in
      elim (Bool-cases (c == slash)) [
        | inl s ↦
            rw (e, s)
              (ap (λ x. components x) (joined path)
                ∙ components-slash a path
                ∙ ap₂ (λ x y. x ++ y) (sym whole)
                    (sym (
                      ap (λ x. components (x ∷ path)) ((==_iff c slash).0 s)
                      ∙ components_leading path)))
        | inr s ↦
            rw (e, s)
              (ap (λ x. components x) (joined (c ∷ path))
                ∙ components-slash a (c ∷ path)
                ∙ ap (λ x. x ++ components (c ∷ path)) (sym whole))
      ]
  | inr e ↦ elim (Bool-cases (c == slash)) [
    | inl s ↦
        rw (e, s)
          (ap (λ x. components (buf ++ x ∷ path)) ((==_iff c slash).0 s)
            ∙ components-slash buf path
            ∙ ap (λ x. components buf ++ x)
                (sym (
                  ap (λ x. components (x ∷ path)) ((==_iff c slash).0 s)
                  ∙ components_leading path)))
    | inr s ↦ rw (e, s) (components-slash buf (c ∷ path))
  ]
]

-- What a text in the buffer satisfies: it leaves room for the terminator.
abbrev pub Fits : Bytes → Type 0
Fits s = length s < path_max

-- Where path_append returns, the buffer holds the names of both paths, and their text and the
-- terminator fit PATH_MAX bytes.
pub path_append-components :
    (buf path : Bytes) {r : Bytes}
    → Fits buf
    → path_append buf path ≡ ok r
    → (components r ≡ components buf ++ components path) × Fits r
unfolding path_append
path_append-components buf [] f h =
    let e : buf ≡ _ = ok-injective h in
    (
      ap (λ x. components x) (sym e)
          ∙ sym (ap (λ x. components buf ++ x) components_nil ∙ append-nil (components buf)),
      subst Fits e f,
    )
path_append-components buf (c ∷ path) f h =
    let text = appended buf (c ∷ path) in
    elim (Bool-cases (leb (path_max - length buf) (length text))) [
      | inl e ↦ cc (rw e at h)
      | inr e ↦
          let r = ok-injective (rw e at h) in
          (
            ap (λ x. components x) (sym r) ∙ components-appended buf c path,
            subst Fits r (ground (arith, length-append buf text)),
          )
    ]

-- Where path_join returns, the buffer holds the names of the first path and then those of the
-- second, and its text and the terminator fit PATH_MAX bytes.
pub path_join-components :
    (p1 p2 : Bytes) {r : Bytes}
    → path_join p1 p2 ≡ ok r
    → (components r ≡ components p1 ++ components p2) × Fits r
unfolding path_join path_new
path_join-components p1 p2 h =
    let (buf, first, second) = >>=-eq-ok (path_append [] p1) (λ b. path_append b p2) h in
    let (names, fits) = path_append-components [] p1 (omega arith) first in
    let (more, room) = path_append-components buf p2 fits second in
    (
      more ∙ ap (λ x. x ++ components p2) (names ∙ ap (λ x. x ++ components p1) components_nil),
      room,
    )
