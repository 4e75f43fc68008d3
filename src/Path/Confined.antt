-- ===== src/Path/Confined.antt =====
-- do_path_resolve always returns, and what it resolves stays below the root directory.
use libxdxgpu_container.Base.{
  ℕ, zero, suc, ◌-◌, ◌≡◌, refl, sym, ap, ◌∙◌, inl, inr, true, false, List, [], ◌∷◌, ◌++◌, Option,
  none, some, leb, length, All, arith, Bool-cases, ◌⊎◌,
}
use libxdxgpu_container.Libc.{Bytes, strsep}
use libxdxgpu_container.Error.{Result, ok, err, ◌>>=◌, ok-injective}
use libxdxgpu_container.Path.{
  path_max, slash, starts_slash, ends_slash, appended, path_append, path_new,
}
use libxdxgpu_container.Path.Append.{Fits, path_append-components}
use libxdxgpu_container.Path.Resolve.{
  Files, opened, Walk, Next, round, Ending, returned, aborted, exhausted, resolve_loop,
  resolve_fuel, written, start_walk, from_start, do_path_resolve, path_resolve,
}
use libxdxgpu_container.Path.Names.{IsName, path_of, elem-strsep, size-strsep}
use libxdxgpu_container.Path.Rounds.{Going, Goes, round-Goes}

-- How the loop ends: with an error, or with a resolved path of names.
abbrev pub EndsBelow : Ending Walk → Type 0
EndsBelow (returned (ok w)) = (names : List Bytes) × (w.realpath ≡ path_of names) × All IsName names
EndsBelow (returned (err e)) = Unit
EndsBelow aborted = ⊥
EndsBelow exhausted = ⊥

resolve_loop-EndsBelow :
    (fuel : ℕ) (files : Files) (root path : Bytes) (ptr : Option Bytes) (w : Walk)
    → Going fuel ptr w
    → EndsBelow (resolve_loop fuel files root path ptr w)
unfolding resolve_loop
resolve_loop-EndsBelow zero files root path ptr w g = absurd (let l = g.lighter in omega arith)
resolve_loop-EndsBelow (suc fuel) files root path none w g = (g.names, g.real, g.valid)
resolve_loop-EndsBelow (suc fuel) files root path (some s) w g =
    go (round files root path (strsep s (slash ∷ [])) w)
      (round-Goes fuel files root path (strsep s (slash ∷ [])) w (elem-strsep slash s) (record {
        names = g.names;
        real = g.real;
        valid = g.valid;
        lighter = omega (arith, size-strsep (slash ∷ []) s, g.lighter);
      }))
      (λ p x h. resolve_loop-EndsBelow fuel files root path p x h)
  where
    go :
        (r : Next)
        → Goes fuel r
        → ((p : Option Bytes) (x : Walk)
            → Going fuel p x
            → EndsBelow (resolve_loop fuel files root path p x))
        → EndsBelow (elim r as (λ x. Ending Walk) [
          | ok (ptr, w') ↦ resolve_loop fuel files root path ptr w'
          | err e ↦ returned (err e)
        ])
    go (ok (ptr, w')) h k = k ptr w' h
    go (err e) h k = tt

from_start-EndsBelow :
    (files : Files) (root path : Bytes) (fd : Result ℕ)
    → EndsBelow
        (from_start files root path (do d ← fd; ptr ← path_append [] path; ok (ptr, start_walk d)))
unfolding from_start
from_start-EndsBelow files root path (err e) = tt
from_start-EndsBelow files root path (ok d) =
    go (path_append [] path) (λ r e. (path_append-components [] path (omega arith) e).1)
  where
    go :
        (p : Result Bytes)
        → ((r : Bytes) → p ≡ ok r → Fits r)
        → EndsBelow (from_start files root path (p >>= λ ptr. ok (ptr, start_walk d)))
    go (err e) f = tt
    go (ok ptr) f =
        resolve_loop-EndsBelow resolve_fuel files root path (some ptr) (start_walk d) (record {
          names = [];
          real = refl;
          valid = tt;
          lighter = let l = f ptr refl in omega arith;
        })

-- The text is empty or begins with a slash.
path_of-slash :
    (names : List Bytes) → (path_of names ≡ []) ⊎ ((t : Bytes) × (path_of names ≡ slash ∷ t))
path_of-slash [] = inl refl
path_of-slash (s ∷ names) = elim (path_of-slash names) [
  | inl e ↦ inr (s, ap (λ x. x ++ slash ∷ s) e)
  | inr (t, e) ↦ inr (t ++ slash ∷ s, ap (λ x. x ++ slash ∷ s) e)
]

path_new-slash : (t : Bytes) {r : Bytes} → path_new (slash ∷ t) ≡ ok r → r ≡ slash ∷ t
unfolding path_new path_append appended ends_slash
path_new-slash t h = elim (Bool-cases (leb (path_max - 0) (length (slash ∷ t)))) [
  | inl e ↦ cc (rw e at h)
  | inr e ↦ sym (ok-injective (rw e at h))
]

path_new-path_of :
    (names : List Bytes) {r : Bytes} → path_new (path_of names) ≡ ok r → r ≡ path_of names
unfolding path_new path_append
path_new-path_of names h = elim (path_of-slash names) [
  | inl e ↦ sym (ok-injective (rw e at h)) ∙ sym e
  | inr (t, e) ↦ path_new-slash t (rw e at h) ∙ sym e
]

-- How a call ends: an error, or a path of names.
abbrev pub IsConfined : Ending Bytes → Type 0
IsConfined (returned (ok r)) = (names : List Bytes) × (r ≡ path_of names) × All IsName names
IsConfined (returned (err e)) = Unit
IsConfined aborted = ⊥
IsConfined exhausted = ⊥

written-IsConfined :
    (root : Bytes) (e : Ending Walk) → EndsBelow e → IsConfined (written false root e)
unfolding written
written-IsConfined root (returned (ok w)) (names, r, v) =
    go (path_new w.realpath) (λ x e. path_new-path_of names (rw r at e))
  where
    go : (x : Result Bytes) → ((y : Bytes) → x ≡ ok y → y ≡ path_of names) → IsConfined (returned x)
    go (ok y) k = (names, k y refl, v)
    go (err f) k = tt
written-IsConfined root (returned (err f)) h = tt
written-IsConfined root aborted h = elim h [ ]
written-IsConfined root exhausted h = elim h [ ]

-- For an absolute root directory, whatever the file system answers, path_resolve returns, and never
-- needs more rounds than it is given. Where it succeeds, the path is empty or made of names behind
-- slashes, none of which is empty, ".", ".." or holds a slash: it leads nowhere outside of the root.
pub path_resolve-IsConfined :
    (files : Files) (root path : Bytes)
    → starts_slash root ≡ true
    → IsConfined (path_resolve files root path)
unfolding path_resolve do_path_resolve
path_resolve-IsConfined files root path a = rw a (
    written-IsConfined root _
      (from_start-EndsBelow files root path (opened root (files.openat none root true))))
