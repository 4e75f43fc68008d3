-- ===== src/Cgroup/Lines.antt =====
-- The lines of /proc/<pid>/mountinfo and /proc/<pid>/cgroup that name a cgroup.
use libxdxgpu_container.Base.{
  ℕ, ◌≡◌, ◌≢◌, refl, sym, ap, ◌∙◌, ◌⊎◌, inl, inr, true, false, Bool-cases, [], ◌∷◌, ◌++◌, some, leb,
  length, drop, drop-append_length,
}
use libxdxgpu_container.Libc.{Bytes, codes, elem, strcmp_eq}
use libxdxgpu_container.Libc.SepLaws.{strsep-append, strsep_all}
use libxdxgpu_container.Libc.TextLaws.{strchr-append}
use libxdxgpu_container.Utils.Str.{str_equal, str_has_prefix}
use libxdxgpu_container.Utils.Str.Laws.{str_equal_iff, str_has_prefix_iff}
use libxdxgpu_container.Path.{path_max}
use libxdxgpu_container.Cgroup.{
  found, next_token, nth_token, is_given, has_text, checked_mount, behind_mount, cgroup_mount,
  strip_prefix, checked_root, cgroup_root,
}

-- A field of a line: not empty, and without the separator.
abbrev pub IsField : ℕ → Bytes → Type 0
IsField c s = (is_given (some s) ≡ true) × (elem c s ≡ false)

-- A path that the functions accept.
abbrev pub IsSafe : Bytes → Type 0
IsSafe path = (leb path_max (length path) ≡ false) × (str_has_prefix path (codes "/..") ≡ false)

second_token :
    (c : ℕ) (s t r : Bytes)
    → elem c s ≡ false
    → elem c t ≡ false
    → nth_token 1 (c ∷ []) (some (s ++ c ∷ (t ++ c ∷ r))) ≡ (some t, some r)
unfolding nth_token next_token
second_token c s t r h k = rw (strsep-append c s (t ++ c ∷ r) h, strsep-append c t r k) refl

-- The path is kept without the prefix, if it begins with that and the prefix is not "/", and is kept
-- as it is otherwise.
abbrev pub IsWithout : (prefix path kept : Bytes) → Type 0
IsWithout prefix path kept =
    ((prefix ≢ codes "/") × (path ≡ prefix ++ kept))
    ⊎ ((kept ≡ path) × ((prefix ≡ codes "/") ⊎ ((rest : Bytes) → path ≢ prefix ++ rest)))

strip_prefix-IsWithout : (prefix path : Bytes) → IsWithout prefix path (strip_prefix prefix path)
unfolding strip_prefix
strip_prefix-IsWithout prefix path = elim (Bool-cases (str_equal prefix (codes "/"))) [
  | inl e ↦ rw e (inr (refl, inl ((str_equal_iff prefix (codes "/")).0 e)))
  | inr e ↦
      let other : prefix ≢ codes "/" = λ q. cc (sym ((str_equal_iff prefix (codes "/")).1 q) ∙ e) in
      elim (Bool-cases (str_has_prefix path prefix)) [
        | inl b ↦
            let (rest, q) = (str_has_prefix_iff path prefix).0 b in
            rw (e, b)
              (inl (
                other,
                q
                    ∙ ap (◌++◌ prefix)
                        (sym (drop-append_length prefix rest) ∙ ap (drop (length prefix)) (sym q)),
              ))
        | inr b ↦
            rw (e, b)
              (inr
                (refl, inr (λ rest q. cc (sym ((str_has_prefix_iff path prefix).1 (rest, q)) ∙ b))))
      ]
]

-- A line `<id>:<controllers>:<path>` gives its path, without the prefix if the path begins with it
-- and the prefix is not "/", if the controllers hold the text of the subsystem, and the path is
-- short enough and does not begin with "/..". The id and the controllers hold no colon, and the
-- controllers and the path are not empty.
pub cgroup_root-line :
    (id controllers path prefix subsys : Bytes)
    → elem b':' id ≡ false
    → IsField b':' controllers
    → is_given (some path) ≡ true
    → has_text controllers subsys ≡ true
    → IsSafe path
    → (kept : Bytes) × (cgroup_root (id ++ b':' ∷ (controllers ++ b':' ∷ path)) prefix subsys
        ≡ found kept prefix)
      × IsWithout prefix path kept
unfolding cgroup_root checked_root
cgroup_root-line id controllers path prefix subsys h (g, k) p t (short, inside) = (
  strip_prefix prefix path,
  rw (second_token b':' id controllers path h k, p, g, t, short, inside) refl,
  strip_prefix-IsWithout prefix path,
)

-- The first four fields of a line of the mount table.
four_tokens :
    (c : ℕ) (i p d root r : Bytes)
    → elem c i ≡ false
    → elem c p ≡ false
    → elem c d ≡ false
    → elem c root ≡ false
    → nth_token 3 (c ∷ []) (some (i ++ c ∷ (p ++ c ∷ (d ++ c ∷ (root ++ c ∷ r)))))
      ≡ (some root, some r)
unfolding nth_token next_token
four_tokens c i p d root r hi hp hd hr =
    rw
      (
        strsep-append c i (p ++ c ∷ (d ++ c ∷ (root ++ c ∷ r))) hi,
        strsep-append c p (d ++ c ∷ (root ++ c ∷ r)) hp,
        strsep-append c d (root ++ c ∷ r) hd,
        strsep-append c root r hr,
      )
      refl

-- A line of the mount table: an id, the parent's id, a device, the root, the mount point, options
-- without a hyphen, and then the type of the file system, its source and its options.
abbrev pub mount_line : (id parent device root point options kind source super : Bytes) → Bytes
mount_line id parent device root point options kind source super =
    id
    ++ b' '
      ∷ (parent
          ++ b' '
            ∷ (device
                ++ b' '
                  ∷ (root
                      ++ b' '
                        ∷ (point
                            ++ b' '
                              ∷ (options
                                  ++ b'-' ∷ b' ' ∷ (kind ++ b' ' ∷ (source ++ b' ' ∷ super)))))))

-- A line of the mount table that is about a cgroup file system, whose options hold the text of the
-- subsystem, gives its mount point, and leaves its root as the prefix, if that is short enough and
-- does not begin with "/..".
pub cgroup_mount-line :
    (id parent device root point options source super prefix subsys : Bytes)
    → elem b' ' id ≡ false
    → elem b' ' parent ≡ false
    → elem b' ' device ≡ false
    → IsField b' ' root
    → IsField b' ' point
    → elem b'-' options ≡ false
    → elem b' ' source ≡ false
    → IsField b' ' super
    → has_text super subsys ≡ true
    → IsSafe root
    → cgroup_mount
        (mount_line id parent device root point options (codes "cgroup") source super)
        prefix
        subsys
      ≡ found point root
unfolding cgroup_mount next_token behind_mount checked_mount str_equal strcmp_eq
cgroup_mount-line id parent device root point options source super prefix subsys hi hp hd (gr, hr)
      (gp, hpt) ho hs (gs, hsu) t (short, inside) =
    let tail = source ++ b' ' ∷ super in
    let behind = codes "cgroup" ++ b' ' ∷ tail in
    let rest = options ++ b'-' ∷ b' ' ∷ behind in
    rw
      (
        four_tokens b' ' id parent device root (point ++ b' ' ∷ rest) hi hp hd hr,
        strsep-append b' ' point rest hpt,
        strchr-append b'-' options (b' ' ∷ behind) ho,
        strsep-append b' ' source super hs,
        strsep_all b' ' super hsu,
        gr,
        gp,
        gs,
        t,
        short,
        inside,
      )
      refl
