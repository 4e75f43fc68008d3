-- ===== src/File/Local.antt =====
-- src/utils.c: the file functions make and remove files only. What no such call changes, they keep.
use libxdxgpu_container.Base.{
  ℕ, zero, suc, ◌≡◌, refl, Bool, true, false, List, [], ◌∷◌, ◌++◌, Option, none, some, ◌==◌, ◌⊎◌,
  inl, inr, Bool-cases, length, bit_or, bit_and, ◌+◌,
}
use libxdxgpu_container.Libc.{Bytes, codes, strrchr}
use libxdxgpu_container.Error.{Result, ok, err}
use libxdxgpu_container.Utils.Ids.{enoent}
use libxdxgpu_container.File.Paths.{dirname}
use libxdxgpu_container.Kernel.{
  Act, bind, remount, mount_tmpfs, umount2, setns, mkdir, symlink, write_file, append_file, rmdir,
  unlink, setfsuid, setfsgid, raise_dac_override, confine, Visit, unreadable, directory, regular,
  link, Stat, History, Kernel, Op, ◌>>◌, try, ask, perform, error_set, or_errno,
}
use libxdxgpu_container.Kernel.Holds.{
  Holds, Holds-pure, Holds-fail, Holds-crash, Holds-ask, Holds-return, Holds-or_errno, Holds-bind,
  Holds-then, Holds-try, Holds-error_set, Holds-perform,
}
use libxdxgpu_container.File.{
  eperm, eexist, enotempty, unless_errno, ignoring, when, file_mode, file_read_text, text_read,
  demand, restore_dac_override, set_fsugid, is_there, ends_ancestors, make_ancestors, allowed_mode,
  make_below, make_missing, unless_ended, link_to, opened, make_file, create_as, after_restore,
  already_there, create_and_restore, unless_there, file_create, remove_link, do_file_remove,
  remove_visits, file_remove, has_errno, is_directory, is_link,
}

-- The calls that neither mount nor change the namespace.
abbrev pub is_quiet : Act → Bool
is_quiet (bind s t) = false
is_quiet (remount t f) = false
is_quiet (mount_tmpfs t) = false
is_quiet (umount2 t) = false
is_quiet (setns n) = false
is_quiet (mkdir p m) = true
is_quiet (symlink s p) = true
is_quiet (write_file p c m) = true
is_quiet (append_file p c) = true
is_quiet (rmdir p) = true
is_quiet (unlink p) = true
is_quiet (setfsuid u) = true
is_quiet (setfsgid g) = true
is_quiet raise_dac_override = true
is_quiet (confine c) = false

module _ (I : History → Type 0)
    (quiet : (a : Act)
      → is_quiet a ≡ true
      → (h : History) (r : Option ℕ) → I h
      → I ((a, r) ∷ h)) where
  pub Holds-quiet : (kernel : Kernel) (a : Act) → is_quiet a ≡ true → Holds I (perform kernel a)
  Holds-quiet kernel a q = Holds-perform I kernel a (quiet a q)

  Holds-unless_errno : (n : ℕ) (r : Result (Unit {0})) → Holds I (unless_errno n r)
  Holds-unless_errno n (ok u) = Holds-pure I tt
  Holds-unless_errno n (err e) = elim (Bool-cases (has_errno n e)) [
    | inl t ↦ rw t (Holds-pure I tt)
    | inr f ↦ rw f (Holds-fail I e)
  ]

  Holds-ignoring : (n : ℕ) (m : Op (Unit {0})) → Holds I m → Holds I (ignoring n m)
  Holds-ignoring n m l =
      Holds-bind I (try m) (unless_errno n) (Holds-try I m l) (Holds-unless_errno n)

  pub Holds-when : (b : Bool) (m : Op (Unit {0})) → Holds I m → Holds I (when b m)
  Holds-when true m l = l
  Holds-when false m l = Holds-pure I tt

  Holds-demand : (b : Bool) (errno : ℕ) → Holds I (demand b errno)
  Holds-demand true errno = Holds-pure I tt
  Holds-demand false errno = Holds-fail I _

  pub Holds-file_mode : (kernel : Kernel) (path : Bytes) → Holds I (file_mode kernel path)
  unfolding file_mode
  Holds-file_mode kernel path = Holds-error_set I _ _ (
      Holds-bind I (ask (λ h. kernel.stat h path)) _ (Holds-ask I _)
        (λ r. Holds-bind I (or_errno r) _ (Holds-or_errno I r) (λ s. Holds-pure I s.mode)))

  Holds-text_read : (path : Bytes) (r : ℕ ⊎ Option Bytes) → Holds I (text_read path r)
  Holds-text_read path (inl errno) = Holds-fail I _
  Holds-text_read path (inr none) = Holds-fail I _
  Holds-text_read path (inr (some text)) = Holds-pure I _

  pub Holds-file_read_text : (kernel : Kernel) (path : Bytes) → Holds I (file_read_text kernel path)
  unfolding file_read_text
  Holds-file_read_text kernel path =
      Holds-bind I (ask (λ h. kernel.read_text h path)) _ (Holds-ask I _) (Holds-text_read path)

  Holds-set_fsugid : (kernel : Kernel) (uid gid : ℕ) → Holds I (set_fsugid kernel uid gid)
  unfolding set_fsugid restore_dac_override
  Holds-set_fsugid kernel uid gid =
      Holds-bind I (try (perform kernel (setfsgid gid))) _
        (Holds-try I _ (Holds-quiet kernel (setfsgid gid) refl))
        (λ _. Holds-bind I (ask (λ h. kernel.fsgid h)) _ (Holds-ask I _) (λ g.
          Holds-then I (demand (g == gid) eperm) _ (Holds-demand _ _) (
            Holds-bind I (try (perform kernel (setfsuid uid))) _
              (Holds-try I _ (Holds-quiet kernel (setfsuid uid) refl))
              (λ _. Holds-bind I (ask (λ h. kernel.fsuid h)) _ (Holds-ask I _) (λ u.
                Holds-then I (demand (u == uid) eperm) _ (Holds-demand _ _) (
                  Holds-bind I (or_errno kernel.dac_override_permitted) _ (Holds-or_errno I _)
                    (λ p. Holds-when p _ (Holds-quiet kernel raise_dac_override refl))))))))

  Holds-is_there : (r : ℕ ⊎ Stat) → Holds I (is_there r)
  Holds-is_there (inr s) = elim (Bool-cases (is_directory s.mode)) [
    | inl t ↦ rw t (Holds-pure I true)
    | inr f ↦ rw f (Holds-fail I _)
  ]
  Holds-is_there (inl errno) = elim (Bool-cases (errno == enoent)) [
    | inl t ↦ rw t (Holds-pure I false)
    | inr f ↦ rw f (Holds-fail I _)
  ]

  module _ (kernel : Kernel) where
    Holds-make_below :
        (path : Bytes) (perm : ℕ) (above : Bytes → Op (Unit {0}))
        → ((before : Bytes) → Holds I (above before))
        → (p : Option (Bytes × Bytes)) → Holds I (make_below kernel path perm above p)
    unfolding make_below
    Holds-make_below path perm above k none = Holds-quiet kernel (mkdir path perm) refl
    Holds-make_below path perm above k (some (before, rest)) =
        Holds-then I (above before) _ (k before) (Holds-quiet kernel (mkdir path perm) refl)

    Holds-make_missing :
        (path : Bytes) (perm : ℕ) (above : Bytes → Op (Unit {0}))
        → ((before : Bytes) → Holds I (above before))
        → (there : Bool) → Holds I (make_missing kernel path perm above there)
    unfolding make_missing
    Holds-make_missing path perm above k true = Holds-pure I tt
    Holds-make_missing path perm above k false =
        Holds-make_below path perm above k (strrchr path b'/')

    Holds-unless_ended :
        (path : Bytes) (perm : ℕ) (above : Bytes → Op (Unit {0}))
        → ((before : Bytes) → Holds I (above before))
        → (ended : Bool) → Holds I (unless_ended kernel path perm above ended)
    unfolding unless_ended
    Holds-unless_ended path perm above k true = Holds-pure I tt
    Holds-unless_ended path perm above k false =
        Holds-bind I (ask (λ h. kernel.stat h path)) _ (Holds-ask I _) (λ r.
          Holds-bind I (is_there r) _ (Holds-is_there r) (Holds-make_missing path perm above k))

    Holds-make_ancestors :
        (fuel : ℕ) (path : Bytes) (perm : ℕ) → Holds I (make_ancestors kernel fuel path perm)
    unfolding make_ancestors
    Holds-make_ancestors zero path perm = Holds-crash I
    Holds-make_ancestors (suc fuel) path perm =
        Holds-unless_ended path perm _ (λ before. Holds-make_ancestors fuel before perm)
          (ends_ancestors path)

    Holds-link_to : (path : Bytes) (content : Option Bytes) → Holds I (link_to kernel path content)
    unfolding link_to
    Holds-link_to path none = Holds-fail I _
    Holds-link_to path (some target) =
        Holds-ignoring eexist _ (Holds-quiet kernel (symlink target path) refl)

    Holds-opened : (r : Result (Unit {0})) → Holds I (opened r)
    Holds-opened (ok u) = Holds-pure I tt
    Holds-opened (err e) = Holds-fail I _

    Holds-make_file :
        (path : Bytes) (content : Option Bytes) (mode perm : ℕ)
        → Holds I (make_file kernel path content mode perm)
    unfolding make_file
    Holds-make_file path content mode perm = elim (Bool-cases (is_directory mode)) [
      | inl d ↦ rw d (Holds-ignoring eexist _ (Holds-quiet kernel (mkdir path perm) refl))
      | inr d ↦ elim (Bool-cases (is_link mode)) [
        | inl l ↦ rw (d, l) (Holds-link_to path content)
        | inr l ↦
            rw (d, l)
              (Holds-bind I (try (perform kernel (write_file path content perm))) opened
                (Holds-try I _ (Holds-quiet kernel (write_file path content perm) refl))
                Holds-opened)
      ]
    ]

    Holds-create_as :
        (path : Bytes) (content : Option Bytes) (uid gid mode : ℕ)
        → Holds I (create_as kernel path content uid gid mode)
    unfolding create_as
    Holds-create_as path content uid gid mode =
        let fuel = suc (length (dirname path)) in
        let perm = bit_or (allowed_mode kernel) (128 + 64) in
        let above = make_ancestors kernel fuel (dirname path) perm in
        let file_perm = bit_and (allowed_mode kernel) mode in
        Holds-then I (set_fsugid kernel uid gid >> above)
          (make_file kernel path content mode file_perm)
          (Holds-then I (set_fsugid kernel uid gid) above (Holds-set_fsugid kernel uid gid)
            (Holds-make_ancestors fuel (dirname path) perm))
          (Holds-make_file path content mode file_perm)

    Holds-after_restore : (r s : Result (Unit {0})) → Holds I (after_restore r s)
    Holds-after_restore r (ok u) = Holds-return I r
    Holds-after_restore r (err e) = Holds-crash I

    Holds-create_and_restore :
        (path : Bytes) (content : Option Bytes) (uid gid mode : ℕ)
        → Holds I (create_and_restore kernel path content uid gid mode)
    unfolding create_and_restore
    Holds-create_and_restore path content uid gid mode =
        Holds-bind I
          (try (
            error_set (codes "file creation failed: " ++ path)
              (create_as kernel path content uid gid mode)))
          _ (Holds-try I _ (Holds-error_set I _ _ (Holds-create_as path content uid gid mode)))
          (λ r.
            Holds-bind I (try (set_fsugid kernel kernel.euid kernel.egid)) _
              (Holds-try I _ (Holds-set_fsugid kernel kernel.euid kernel.egid))
              (Holds-after_restore r))

    Holds-already_there :
        (path : Bytes) (content : Option Bytes) (mode : ℕ)
        → Holds I (already_there kernel path content mode)
    unfolding already_there
    Holds-already_there path (some content) mode = Holds-pure I false
    Holds-already_there path none mode =
        Holds-bind I (try (file_mode kernel path)) _ (Holds-try I _ (Holds-file_mode kernel path))
          (λ r. Holds-pure I _)

    Holds-unless_there :
        (path : Bytes) (content : Option Bytes) (uid gid mode : ℕ) (there : Bool)
        → Holds I (unless_there kernel path content uid gid mode there)
    unfolding unless_there
    Holds-unless_there path content uid gid mode true = Holds-pure I tt
    Holds-unless_there path content uid gid mode false =
        Holds-create_and_restore path content uid gid mode

    pub Holds-file_create :
        (path : Bytes) (content : Option Bytes) (uid gid mode : ℕ)
        → Holds I (file_create kernel path content uid gid mode)
    unfolding file_create
    Holds-file_create path content uid gid mode =
        Holds-bind I (already_there kernel path content mode) _
          (Holds-already_there path content mode) (Holds-unless_there path content uid gid mode)

    Holds-remove_link : (path : Bytes) (r : ℕ ⊎ Stat) → Holds I (remove_link kernel path r)
    unfolding remove_link
    Holds-remove_link path (inr s) =
        Holds-when (s.size == 0) _ (Holds-quiet kernel (unlink path) refl)
    Holds-remove_link path (inl errno) = elim (Bool-cases (errno == enoent)) [
      | inl t ↦ rw t (Holds-quiet kernel (unlink path) refl)
      | inr f ↦ rw f (Holds-fail I _)
    ]

    Holds-do_file_remove :
        (path : Bytes) (visit : Visit) → Holds I (do_file_remove kernel path visit)
    unfolding do_file_remove
    Holds-do_file_remove path unreadable = Holds-fail I _
    Holds-do_file_remove path directory =
        Holds-ignoring enotempty _ (Holds-quiet kernel (rmdir path) refl)
    Holds-do_file_remove path (regular size) =
        Holds-when (size == 0) _ (Holds-quiet kernel (unlink path) refl)
    Holds-do_file_remove path link =
        Holds-bind I (ask (λ h. kernel.stat h path)) _ (Holds-ask I _) (Holds-remove_link path)

    Holds-remove_visits : (visits : List (Bytes × Visit)) → Holds I (remove_visits kernel visits)
    unfolding remove_visits
    Holds-remove_visits [] = Holds-pure I tt
    Holds-remove_visits ((path, visit) ∷ visits) =
        Holds-then I (do_file_remove kernel path visit) _ (Holds-do_file_remove path visit)
          (Holds-remove_visits visits)

    pub Holds-file_remove : (path : Bytes) → Holds I (file_remove kernel path)
    unfolding file_remove
    Holds-file_remove path = Holds-error_set I _ _ (
        Holds-bind I (ask (λ h. kernel.walk h path)) _ (Holds-ask I _)
          (λ r. Holds-bind I (or_errno r) _ (Holds-or_errno I r) Holds-remove_visits))
