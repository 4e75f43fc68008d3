-- ===== src/Context/Userns.antt =====
-- src/nvc.c: what init_within_userns decides.
use libxdxgpu_container.Base.{
  ℕ, ◌≡◌, refl, Bool, true, false, not, ◌&&◌, [], ◌∷◌, Option, none, some, ◌==◌, inl, inr,
  Bool-cases,
}
use libxdxgpu_container.Libc.{Bytes, codes, strtoumax}
use libxdxgpu_container.Error.{ok}
use libxdxgpu_container.Utils.Str.{str_has_prefix}
use libxdxgpu_container.Kernel.{History, Kernel, done, run}
use libxdxgpu_container.Process.{fgets, file_read_line, line_read}
use libxdxgpu_container.Context.{
  uint32_max, scan_map, map_scanned, map_read, check_map, groups_read, check_groups,
  init_within_userns,
}

-- The map of the initial namespace: all ids, each to itself.
abbrev pub is_whole : ℕ × ℕ × ℕ → Bool
is_whole (start, pstart, len) = start == 0 && pstart == 0 && len == uint32_max

abbrev decided : Bool → Option Bool
decided true = none
decided false = some true

scanned-decided :
    (path : Bytes) (m : ℕ × ℕ × ℕ) (h : History)
    → run (map_scanned path (some m)) h ≡ (h, done (decided (is_whole m)))
scanned-decided path (x, y, z) h = elim (Bool-cases (x == 0)) [
  | inr e ↦ rw e refl
  | inl e ↦ elim (Bool-cases (y == 0)) [
    | inr f ↦ rw (e, f) refl
    | inl f ↦ elim (Bool-cases (z == uint32_max)) [
      | inr g ↦ rw (e, f, g) refl
      | inl g ↦ rw (e, f, g) refl
    ]
  ]
]

read-decided :
    (path buf : Bytes) (m : ℕ × ℕ × ℕ) (h : History)
    → scan_map buf ≡ some m
    → run (map_read path (ok buf)) h ≡ (h, done (decided (is_whole m)))
unfolding map_read scan_map strtoumax
read-decided path [] m h e = cc
read-decided path (c ∷ buf) m h e = rw e (scanned-decided path m h)

check-decided :
    (kernel : Kernel) (path text : Bytes) (m : ℕ × ℕ × ℕ) (h : History)
    → kernel.read_text h path ≡ inr (some text)
    → scan_map (fgets 63 text) ≡ some m
    → run (check_map kernel path) h ≡ (h, done (decided (is_whole m)))
unfolding check_map file_read_line line_read
check-decided kernel path text m h r e = rw r (read-decided path (fgets 63 text) m h e)

groups-decided :
    (kernel : Kernel) (text : Bytes) (h : History)
    → kernel.read_text h (codes "/proc/self/setgroups") ≡ inr (some text)
    → run (check_groups kernel) h ≡ (h, done (str_has_prefix (fgets 63 text) (codes "deny")))
unfolding check_groups file_read_line line_read groups_read
groups-decided kernel text h r = rw r refl

-- Where the first lines of the three files can be read and those of the maps scanned, the process
-- is taken to be in a user namespace unless both maps are whole and the groups may be set.
pub init_within_userns_lem :
    (kernel : Kernel) (h : History) (uids gids groups : Bytes) (m n : ℕ × ℕ × ℕ)
    → kernel.read_text h (codes "/proc/self/uid_map") ≡ inr (some uids)
    → kernel.read_text h (codes "/proc/self/gid_map") ≡ inr (some gids)
    → kernel.read_text h (codes "/proc/self/setgroups") ≡ inr (some groups)
    → scan_map (fgets 63 uids) ≡ some m
    → scan_map (fgets 63 gids) ≡ some n
    → run (init_within_userns kernel) h ≡ (
      h,
      done
          (not (is_whole m && is_whole n && not (str_has_prefix (fgets 63 groups) (codes "deny")))),
    )
unfolding init_within_userns
init_within_userns_lem kernel h uids gids groups m n u g s e f =
    let a = check-decided kernel (codes "/proc/self/uid_map") uids m h u e in
    let b = check-decided kernel (codes "/proc/self/gid_map") gids n h g f in
    let c = groups-decided kernel groups h s in
    elim (Bool-cases (is_whole m)) [
      | inr i ↦ rw (a, i) refl
      | inl i ↦ elim (Bool-cases (is_whole n)) [
        | inr j ↦ rw (a, i, b, j) refl
        | inl j ↦ elim (Bool-cases (str_has_prefix (fgets 63 groups) (codes "deny"))) [
          | inr k ↦ rw (a, i, b, j, c, k) refl
          | inl k ↦ rw (a, i, b, j, c, k) refl
        ]
      ]
    ]
