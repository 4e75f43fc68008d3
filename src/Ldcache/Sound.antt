-- ===== src/Ldcache/Sound.antt =====
-- Every path that ldcache_resolve finds is the one of an entry of that name.
use libxdxgpu_container.Base.{
  ℕ, ◌≡◌, refl, sym, ap, ◌∙◌, ◌⊎◌, inl, inr, Bool, true, false, List, [], ◌∷◌, map, Option, none,
  some, if◌then◌else◌, All, Bool-cases, subst, bit_and, ◌==◌, ==_iff, ◌++◌, ◌≢◌,
}
use libxdxgpu_container.Libc.{Bytes}
use libxdxgpu_container.Error.{Result, ok, >>=-eq-ok, ok-injective}
use libxdxgpu_container.Utils.Str.{str_has_prefix}
use libxdxgpu_container.Utils.Str.Laws.{str_has_prefix_iff}
use libxdxgpu_container.Ldcache.{
  Entry, is_for, Slot, is_same, put_back, resolve_entry, resolve_entries, ldcache_resolve,
}

-- Some entry satisfies `P`.
abbrev pub Some : (Entry → Type 0) → List Entry → Type 0
Some P [] = ⊥
Some P (e ∷ es) = P e ⊎ Some P es

-- The entry is of an ELF library (LD_ELF, 1) of the architecture (under LD_ARCH_MASK, 0xff00), its
-- key begins with the name, and its value resolves to the path.
abbrev pub IsSource : (Bytes → Result Bytes) → ℕ → Bytes → Bytes → Entry → Type 0
IsSource resolve arch lib path e =
    (bit_and e.flags 1 ≢ 0)
    × (bit_and e.flags 65280 ≡ arch)
    × ((rest : Bytes) × (e.key ≡ lib ++ rest))
    × (resolve e.value ≡ ok path)

is_for-flags :
    (arch : ℕ) (e : Entry)
    → is_for arch e ≡ true
    → (bit_and e.flags 1 ≢ 0) × (bit_and e.flags 65280 ≡ arch)
unfolding is_for
is_for-flags arch e h = elim (Bool-cases (bit_and e.flags 1 == 0)) [
  | inl b ↦ cc (rw b at h)
  | inr b ↦ (
    λ q. cc (sym ((==_iff (bit_and e.flags 1) 0).1 q) ∙ b),
    (==_iff (bit_and e.flags 65280) arch).0 (rw b at h),
  )
]

abbrev pub IsSound : (Bytes → Result Bytes) → ℕ → List Entry → Slot → Type 0
IsSound resolve arch entries (lib, none) = Unit
IsSound resolve arch entries (lib, some path) = Some (IsSource resolve arch lib path) entries

-- The names of the slots
abbrev pub names : List Slot → List Bytes
names [] = []
names ((lib, p) ∷ slots) = lib ∷ names slots

Sound : (Bytes → Result Bytes) → ℕ → List Entry → List Slot → Type 0
Sound resolve arch entries slots = All (IsSound resolve arch entries) slots

IsSound-store :
    (resolve : Bytes → Result Bytes) (arch : ℕ) (entries : List Entry) (lib path : Bytes)
    (p : Option Bytes) (b : Bool)
    → IsSound resolve arch entries (lib, p)
    → Some (IsSource resolve arch lib path) entries
    → IsSound resolve arch entries (lib, if b then some path else p)
IsSound-store resolve arch entries lib path p true h s = s
IsSound-store resolve arch entries lib path p false h s = h

-- What one of the entries leaves of the slots.
abbrev Left : (Bytes → Result Bytes) → ℕ → List Entry → List Slot → List Slot → Type 0
unfolding Sound
Left resolve arch entries slots after =
    Sound resolve arch entries after × (names after ≡ names slots)

resolve_entry-Sound :
    (resolve : Bytes → Result Bytes) (select : Option Bytes → Bytes → Result Bool) (arch : ℕ)
    (e : Entry) (entries : List Entry) (slots : List Slot) {after : List Slot}
    → ((lib path : Bytes)
        → IsSource resolve arch lib path e
        → Some (IsSource resolve arch lib path) entries)
    → is_for arch e ≡ true
    → Sound resolve arch entries slots
    → resolve_entry resolve select e slots ≡ ok after
    → Left resolve arch entries slots after
unfolding resolve_entry Sound Left
resolve_entry-Sound resolve select arch e entries [] i f h r =
    let q = ok-injective r in
    (subst (λ s. All (IsSound resolve arch entries) s) q tt, sym (ap names q))
resolve_entry-Sound resolve select arch e entries ((lib, p) ∷ slots) {after} i f (h, hs) r =
    let ih : (a : List Slot)
        → resolve_entry resolve select e slots ≡ ok a
        → Left resolve arch entries slots a =
      λ a t. resolve_entry-Sound resolve select arch e entries slots i f hs t in
    elim (Bool-cases (str_has_prefix e.key lib)) [
      | inr b ↦ go ih (rw b at r)
      | inl b ↦
          let (path, found, k) = >>=-eq-ok (resolve e.value) _ (rw b at r) in
          elim (Bool-cases (is_same p path)) [
            | inl s ↦ go ih (rw s at k)
            | inr s ↦
                let (override, chosen, m) = >>=-eq-ok (select p path) _ (rw s at k) in
                let q = ok-injective m in
                (
                  subst (λ x. All (IsSound resolve arch entries) x) q
                      (
                        IsSound-store resolve arch entries lib path p override h (
                            let (elf, fits) = is_for-flags arch e f in
                            i lib path (elf, fits, (str_has_prefix_iff e.key lib).0 b, found)),
                        hs,
                      ),
                  sym (ap names q),
                )
          ]
    ]
  where
    go :
        ((a : List Slot)
          → resolve_entry resolve select e slots ≡ ok a
          → Left resolve arch entries slots a)
        → put_back (lib, p) (resolve_entry resolve select e slots) ≡ ok after
        → Left resolve arch entries ((lib, p) ∷ slots) after
    go ih t =
        let (a, done, q) = >>=-eq-ok (resolve_entry resolve select e slots) _ t in
        let (sound, same) = ih a done in
        (
          subst (λ x. All (IsSound resolve arch entries) x) (ok-injective q) (h, sound),
          sym (ap names (ok-injective q)) ∙ ap (◌∷◌ lib) same,
        )

resolve_entries-Sound :
    (resolve : Bytes → Result Bytes) (select : Option Bytes → Bytes → Result Bool) (arch : ℕ)
    (entries rest : List Entry) (slots : List Slot) {after : List Slot}
    → ((P : Entry → Type 0) → Some P rest → Some P entries)
    → Sound resolve arch entries slots
    → resolve_entries resolve select arch rest slots ≡ ok after
    → Left resolve arch entries slots after
unfolding resolve_entries Sound Left
resolve_entries-Sound resolve select arch entries [] slots i h r =
    let q = ok-injective r in
    (subst (λ s. All (IsSound resolve arch entries) s) q h, sym (ap names q))
resolve_entries-Sound resolve select arch entries (e ∷ rest) slots i h r =
    elim (Bool-cases (is_for arch e)) [
      | inr b ↦
          resolve_entries-Sound resolve select arch entries rest slots (λ P s. i P (inr s)) h
            (rw b at r)
      | inl b ↦
          let (slots', one, more) =
            >>=-eq-ok (resolve_entry resolve select e slots) _ (rw b at r) in
          let (sound, same) =
            resolve_entry-Sound resolve select arch e entries slots
              (λ lib path s. i (IsSource resolve arch lib path) (inl s)) b h one in
          let (final, all_same) =
            resolve_entries-Sound resolve select arch entries rest slots' (λ P s. i P (inr s)) sound
              more in
          (final, all_same ∙ same)
    ]

empty_slots :
    (resolve : Bytes → Result Bytes) (arch : ℕ) (entries : List Entry) (libs : List Bytes)
    → Sound resolve arch entries (map (λ (lib : Bytes). (lib, none)) libs)
      × (names (map (λ (lib : Bytes). (lib, none)) libs) ≡ libs)
unfolding Sound
empty_slots resolve arch entries [] = (tt, refl)
empty_slots resolve arch entries (lib ∷ libs) =
    let (s, n) = empty_slots resolve arch entries libs in ((tt, s), ap (◌∷◌ lib) n)

-- Where ldcache_resolve succeeds, it leaves one slot for each name, in order, and every path in a
-- slot is that of an entry of the cache that has the ELF flag and the architecture in its flags,
-- whose key begins with the name and whose value resolves to the path, whatever the callback
-- chooses.
pub ldcache_resolve-IsSound :
    (resolve : Bytes → Result Bytes) (select : Option Bytes → Bytes → Result Bool) (arch : ℕ)
    (entries : List Entry) (libs : List Bytes) {after : List Slot}
    → ldcache_resolve resolve select arch entries libs ≡ ok after
    → (names after ≡ libs) × All (IsSound resolve arch entries) after
unfolding ldcache_resolve Sound Left
ldcache_resolve-IsSound resolve select arch entries libs r =
    let (start, first) = empty_slots resolve arch entries libs in
    let (sound, same) =
      resolve_entries-Sound resolve select arch entries entries _ (λ P s. s) start r in
    (same ∙ first, sound)
