-- ===== src/Cgroup/Setup.antt =====
-- src/cgroup_legacy.c: `setup_device_cgroup`, and the numbers of a device.
use libxdxgpu_container.Base.{
  ℕ, zero, suc, ◌+◌, ◌*◌, ◌/◌, ◌%◌, ◌^◌, ◌<◌, ◌≡◌, refl, ap, subst, ◌∙◌, [], ◌∷◌, ◌++◌, Option,
  none, some, ltb, if◌then◌else◌, arith, inl, inr, Bool-cases,
}
use libxdxgpu_container.Libc.{Bytes, codes}
use libxdxgpu_container.Error.{Result, ok, err, set_errno, ◌>>=◌, >>=-eq-ok, ok-injective}
use libxdxgpu_container.Path.{path_join}
use libxdxgpu_container.Path.Append.{components, path_join-components}
use libxdxgpu_container.Dsl.Version.{decimal, Digits}

-- `major` and `minor` of a dev_t of 64 bits
unfoldable pub major : ℕ → ℕ
major id = id / 256 % 4096 + id / 2 ^ 32 / 4096 * 4096

unfoldable pub minor : ℕ → ℕ
minor id = id % 256 + id / 4096 % 2 ^ 32 / 256 * 256

-- The decimal digits of `n`, before a text.
unfoldable pub push_digits : ℕ → ℕ → Bytes → Bytes
push_digits zero n text = text
push_digits (suc fuel) n text =
    let more = push_digits fuel (n / 10) ((n % 10 + b'0') ∷ text) in
    if ltb n 10 then (n + b'0') ∷ text else more

-- The conversion "%u"
unfoldable pub print_decimal : ℕ → Bytes
unfolding push_digits
print_decimal n = push_digits (suc n) n []

unfoldable pub device_rule : ℕ → Bytes
unfolding major minor print_decimal
device_rule id =
    codes "c "
    ++ (print_decimal (major id) ++ (codes ":" ++ (print_decimal (minor id) ++ codes " rw")))

-- Opening a file to append to it, and writing a text to it and flushing, which may give an errno.
pub record Appender : Type 0 where
  pub append_to : Bytes → Result Unit
  pub write : Bytes → Bytes → Option ℕ

abbrev pub written_as : Bytes → Bytes → Option ℕ → Result (Bytes × Bytes)
written_as path text none = ok (path, text)
written_as path text (some errno) = err (set_errno errno (codes "write error: " ++ path))

-- `setup_device_cgroup`. Where it succeeds, it gives the file and the text that was written to it.
unfoldable pub setup_device_cgroup : Appender → Bytes → ℕ → Result (Bytes × Bytes)
unfolding path_join device_rule
setup_device_cgroup files dev_cg id = do
  path ← path_join dev_cg (codes "devices.allow")
  opened ← files.append_to path
  written_as path (device_rule id) (files.write path (device_rule id))

decimal-push_digits :
    (fuel n : ℕ) (text : Bytes) → n < fuel → decimal 0 (push_digits fuel n text) ≡ decimal n text
unfolding push_digits
decimal-push_digits zero n text h = absurd (omega arith)
decimal-push_digits (suc fuel) n text h = elim (Bool-cases (ltb n 10)) [
  | inl e ↦ rw e (ap (λ k. decimal k text) (omega arith))
  | inr e ↦ rw e (
      decimal-push_digits fuel (n / 10) ((n % 10 + b'0') ∷ text) (ground arith)
      ∙ ap (λ k. decimal k text) (omega arith))
]

Digits-push_digits : (fuel n : ℕ) (text : Bytes) → Digits text → Digits (push_digits fuel n text)
unfolding push_digits
Digits-push_digits zero n text d = d
Digits-push_digits (suc fuel) n text d = elim (Bool-cases (ltb n 10)) [
  | inl e ↦ rw e (ground arith, d)
  | inr e ↦ rw e (Digits-push_digits fuel (n / 10) ((n % 10 + b'0') ∷ text) (ground arith, d))
]

-- A text is the decimal number `n`.
abbrev pub IsDecimal : ℕ → Bytes → Type 0
IsDecimal n text = Digits text × (decimal 0 text ≡ n)

print_decimal-IsDecimal : (n : ℕ) → IsDecimal n (print_decimal n)
unfolding print_decimal
print_decimal-IsDecimal n =
    (Digits-push_digits (suc n) n [] tt, decimal-push_digits (suc n) n [] (omega arith))

-- The device with a major and a minor number.
abbrev pub makedev : ℕ → ℕ → ℕ
makedev x y = x % 4096 * 256 + x / 4096 * 4096 * 2 ^ 32 + (y % 256 + y / 256 * 256 * 4096)

makedev-major-minor : (id : ℕ) → id < 2 ^ 64 → makedev (major id) (minor id) ≡ id
unfolding major minor
makedev-major-minor id h = omega arith

-- A rule with the two numbers of a device in decimal.
pub record IsRule (id : ℕ) (text : Bytes) : Type 0 where
  pub major_number : ℕ
  pub minor_number : ℕ
  pub major_text : Bytes
  pub minor_text : Bytes
  pub major_decimal : IsDecimal major_number major_text
  pub minor_decimal : IsDecimal minor_number minor_text
  pub device : makedev major_number minor_number ≡ id
  pub reads : text ≡ codes "c " ++ (major_text ++ (codes ":" ++ (minor_text ++ codes " rw")))

device_rule-IsRule : (id : ℕ) → id < 2 ^ 64 → IsRule id (device_rule id)
unfolding device_rule
device_rule-IsRule id h = record {
  major_number = major id;
  minor_number = minor id;
  major_text = print_decimal (major id);
  minor_text = print_decimal (minor id);
  major_decimal = print_decimal-IsDecimal (major id);
  minor_decimal = print_decimal-IsDecimal (minor id);
  device = makedev-major-minor id h;
  reads = refl;
}

-- The file and the text, if the text was written.
pub record IsAllowed (files : Appender) (dev_cg : Bytes) (id : ℕ) (done : Bytes × Bytes)
    : Type 0 where
  pub file : components done.0 ≡ components dev_cg ++ components (codes "devices.allow")
  pub rule : IsRule id done.1
  pub written : files.write done.0 done.1 ≡ none

written_as-eq-ok :
    (path text : Bytes) (failure : Option ℕ) {done : Bytes × Bytes}
    → written_as path text failure ≡ ok done
    → (failure ≡ none) × ((path, text) ≡ done)
written_as-eq-ok path text none h = (refl, ok-injective h)
written_as-eq-ok path text (some errno) h = cc

-- Where setup_device_cgroup succeeds for a device of 64 bits, it has written, without an error, a
-- rule for character devices with two decimal numbers, which together are that device, to the file
-- devices.allow below the cgroup.
pub setup_device_cgroup-IsAllowed :
    (files : Appender) (dev_cg : Bytes) (id : ℕ) {done : Bytes × Bytes}
    → id < 2 ^ 64
    → setup_device_cgroup files dev_cg id ≡ ok done
    → IsAllowed files dev_cg id done
unfolding setup_device_cgroup
setup_device_cgroup-IsAllowed files dev_cg id b h =
    let (path, joined, k) = >>=-eq-ok (path_join dev_cg (codes "devices.allow")) _ h in
    let (opened, there, l) = >>=-eq-ok (files.append_to path) _ k in
    let (fine, same) =
      written_as-eq-ok path (device_rule id) (files.write path (device_rule id)) l in
    subst (IsAllowed files dev_cg id) same (record {
      file = (path_join-components dev_cg (codes "devices.allow") joined).0;
      rule = device_rule-IsRule id b;
      written = fine;
    })
