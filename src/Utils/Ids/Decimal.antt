-- ===== src/Utils/Ids/Decimal.antt =====
-- Ids written as decimal numbers.
use libxdxgpu_container.Base.{
  ℕ, ◌^◌, ◌<◌, ◌≡◌, refl, sym, ap, ◌∙◌, append-nil, inl, inr, Option-cases, true, [], ◌∷◌, ◌++◌,
  none, some, arith,
}
use libxdxgpu_container.Libc.{Bytes, strtoumax, uintmax_max}
use libxdxgpu_container.Error.{ok}
use libxdxgpu_container.Dsl.Version.{decimal, Digits}
use libxdxgpu_container.Dsl.Version.Scan.{strtoumax-append}
use libxdxgpu_container.Utils.Ids.{
  Database, ids_failed, enoent, own_group, is_id, str_to_ugid, read_user, read_group,
}

is_id-lt : (n : ℕ) → n < 2 ^ 32 → is_id n ≡ true
is_id-lt n h = ground arith

strtoumax_all :
    (c : ℕ) (d : Bytes)
    → Digits (c ∷ d)
    → decimal 0 (c ∷ d) < uintmax_max
    → strtoumax (c ∷ d) ≡ (decimal 0 (c ∷ d), some [])
strtoumax_all c d h b =
    ap (λ s. strtoumax (c ∷ s)) (sym (append-nil d)) ∙ strtoumax-append c d [] h tt b

-- Two decimal numbers of 32 bits with a colon between them are the user and the group, whatever the
-- databases hold.
pub str_to_ugid-decimal :
    (db : Database) (c d : ℕ) (u g : Bytes)
    → Digits (c ∷ u)
    → Digits (d ∷ g)
    → decimal 0 (c ∷ u) < 2 ^ 32
    → decimal 0 (d ∷ g) < 2 ^ 32
    → str_to_ugid db ((c ∷ u) ++ b':' ∷ d ∷ g) ≡ ok (decimal 0 (c ∷ u), decimal 0 (d ∷ g))
unfolding str_to_ugid read_user read_group
str_to_ugid-decimal db c d u g hu hg bu bg =
    rw (strtoumax-append c u (b':' ∷ d ∷ g) hu refl (omega arith), is_id-lt (decimal 0 (c ∷ u)) bu)
      (rw (strtoumax_all d g hg (omega arith), is_id-lt (decimal 0 (d ∷ g)) bg) refl)

-- A decimal number of 32 bits alone is the user; the group is the one that the database has for
-- that user, and without an entry the call fails.
pub str_to_ugid-user :
    (db : Database) (c : ℕ) (u : Bytes)
    → Digits (c ∷ u)
    → decimal 0 (c ∷ u) < 2 ^ 32
    → str_to_ugid db (c ∷ u) ≡ elim (db.getpwuid (decimal 0 (c ∷ u))) [
      | none ↦ ids_failed enoent
      | some (uid, gid) ↦ ok (decimal 0 (c ∷ u), gid)
    ]
unfolding str_to_ugid read_user read_group
str_to_ugid-user db c u hu bu =
    rw (strtoumax_all c u hu (omega arith), is_id-lt (decimal 0 (c ∷ u)) bu)
      (elim (Option-cases (db.getpwuid (decimal 0 (c ∷ u)))) [
        | inl e ↦ rw (e, own_group) refl
        | inr ((uid, gid), e) ↦ rw (e, own_group) refl
      ])
