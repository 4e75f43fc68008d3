-- ===== src/Ldcache.antt =====
-- src/ldcache.c: `ldcache_resolve`. The entries of the cache are read already: the format of the
-- file and its mapping into memory are not part of this model.
pub mod Sound
use libxdxgpu_container.Base.{
  ℕ, ◌+◌, Bool, true, false, not, ◌&&◌, ◌||◌, List, [], ◌∷◌, map, Option, none, some, bit_and, ◌==◌,
  if◌then◌else◌,
}
use libxdxgpu_container.Libc.{Bytes}
use libxdxgpu_container.Error.{Result, ok, err, ◌>>=◌}
use libxdxgpu_container.Utils.Str.{str_equal, str_has_prefix}

-- `struct entry_libc6`, with the texts that `key` and `value` point to.
pub record Entry : Type 0 where
  pub flags : ℕ
  pub key : Bytes
  pub value : Bytes

-- LD_ELF
abbrev pub ld_elf : ℕ
ld_elf = 1

-- LD_ARCH_MASK
abbrev pub ld_arch_mask : ℕ
ld_arch_mask = 65280

-- The entry is for an ELF library of the architecture.
unfoldable pub is_for : ℕ → Entry → Bool
is_for arch e = not (bit_and e.flags ld_elf == 0) && bit_and e.flags ld_arch_mask == arch

-- An entry of `libs`, and the one of `paths` at the same index.
abbrev pub Slot : Type 0
Slot = Bytes × Option Bytes

-- `paths[j] != NULL && str_equal(paths[j], path)`
unfoldable pub is_same : Option Bytes → Bytes → Bool
unfolding str_equal
is_same none path = false
is_same (some p) path = str_equal p path

abbrev pub store : Bytes → Option Bytes → Bytes → List Slot → Bool → List Slot
store lib p path slots override = (lib, if override then some path else p) ∷ slots

abbrev pub put_back : Slot → Result (List Slot) → Result (List Slot)
put_back slot r = r >>= λ slots. ok (slot ∷ slots)

-- The inner loop. `resolve` is `path_resolve` below the root directory, and `select` the callback.
unfoldable pub resolve_entry :
    (Bytes → Result Bytes)
    → (Option Bytes → Bytes → Result Bool)
    → Entry
    → List Slot
    → Result (List Slot)
unfolding str_has_prefix is_same
resolve_entry resolve select e [] = ok []
resolve_entry resolve select e ((lib, p) ∷ slots) =
    let rest = put_back (lib, p) (resolve_entry resolve select e slots) in
    if not (str_has_prefix e.key lib)
    then rest
    else resolve e.value >>= λ path.
        (if is_same p path
          then rest
          else select p path >>= λ override. ok (store lib p path slots override))

-- The outer loop
unfoldable pub resolve_entries :
    (Bytes → Result Bytes)
    → (Option Bytes → Bytes → Result Bool)
    → ℕ
    → List Entry
    → List Slot
    → Result (List Slot)
unfolding is_for resolve_entry
resolve_entries resolve select arch [] slots = ok slots
resolve_entries resolve select arch (e ∷ es) slots = do
  slots' ← (if not (is_for arch e) then ok slots else resolve_entry resolve select e slots)
  resolve_entries resolve select arch es slots'

unfoldable pub ldcache_resolve :
    (Bytes → Result Bytes)
    → (Option Bytes → Bytes → Result Bool)
    → ℕ
    → List Entry
    → List Bytes
    → Result (List Slot)
unfolding resolve_entries
ldcache_resolve resolve select arch entries libs =
    resolve_entries resolve select arch entries (map (λ (lib : Bytes). (lib, none)) libs)
