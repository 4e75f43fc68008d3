-- ===== src/Libc/NumberLaws.antt =====
-- strtoumax reads at least one character where it reads a number.
use libxdxgpu_container.Base.{
  ℕ, ◌+◌, ◌-◌, ◌*◌, ◌≤◌, ◌<◌, ◌≡◌, inl, inr, Bool, true, false, [], ◌∷◌, Option, none, some, ◌==◌,
  length, arith, Bool-cases,
}
use libxdxgpu_container.Libc.Text.{Bytes, is_digit, is_space, skip, elem}
use libxdxgpu_container.Libc.Number.{
  read_digits, skip_space, starts_digit, convert, signed, strtoumax,
}

pub length-skip : (accept s : Bytes) → length (skip accept s) ≤ length s
unfolding skip
length-skip accept [] = omega arith
length-skip accept (c ∷ s) = elim (Bool-cases (elem c accept)) [
  | inl e ↦ rw e (omega (arith, length-skip accept s))
  | inr e ↦ rw e (omega arith)
]

length-read_digits : (acc : ℕ) (s : Bytes) → length (read_digits acc s).1 ≤ length s
unfolding read_digits
length-read_digits acc [] = omega arith
length-read_digits acc (c ∷ s) = elim (Bool-cases (is_digit c)) [
  | inl e ↦ rw e (omega (arith, length-read_digits (acc * 10 + (c - b'0')) s))
  | inr e ↦ rw e (omega arith)
]

length-read_digit : (s : Bytes) → starts_digit s ≡ true → length (read_digits 0 s).1 < length s
unfolding read_digits
length-read_digit [] h = cc
length-read_digit (c ∷ s) h = rw h (omega (arith, length-read_digits (0 * 10 + (c - b'0')) s))

length-skip_space : (s : Bytes) → length (skip_space s) ≤ length s
unfolding skip_space
length-skip_space [] = omega arith
length-skip_space (c ∷ s) = elim (Bool-cases (is_space c)) [
  | inl e ↦ rw e (omega (arith, length-skip_space s))
  | inr e ↦ rw e (omega arith)
]

-- What a number leaves of a text of `n` characters.
abbrev pub Shorter : ℕ → Option Bytes → Type 0
Shorter n none = Unit
Shorter n (some rest) = length rest < n

Shorter-convert : (neg : Bool) (s : Bytes) (n : ℕ) → length s ≤ n → Shorter n (convert neg s).1
Shorter-convert neg s n h = elim (Bool-cases (starts_digit s)) [
  | inl e ↦ rw e (let l = length-read_digit s e in omega arith)
  | inr e ↦ rw e tt
]

Shorter-signed : (s : Bytes) (n : ℕ) → length s ≤ n → Shorter n (signed s).1
Shorter-signed [] n h = tt
Shorter-signed (c ∷ s) n h = elim (Bool-cases (c == b'-')) [
  | inl e ↦ rw e (Shorter-convert true s n (omega arith))
  | inr e ↦ elim (Bool-cases (c == b'+')) [
    | inl f ↦ rw (e, f) (Shorter-convert false s n (omega arith))
    | inr f ↦ rw (e, f) (Shorter-convert false (c ∷ s) n h)
  ]
]

pub Shorter-strtoumax : (s : Bytes) → Shorter (length s) (strtoumax s).1
unfolding strtoumax
Shorter-strtoumax s = Shorter-signed (skip_space s) (length s) (length-skip_space s)
