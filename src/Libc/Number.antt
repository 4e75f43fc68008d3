-- ===== src/Libc/Number.antt =====
-- strtoumax(s, &end, 10), with a 64-bit uintmax_t.
use libxdxgpu_container.Base.{
  ℕ, zero, suc, ◌+◌, ◌-◌, ◌*◌, ◌%◌, ◌^◌, Bool, true, false, [], ◌∷◌, Option, none, some, ltb, leb,
  ◌==◌, if◌then◌else◌,
}
use libxdxgpu_container.Base.Int.{ℤ, pos, negsuc}
use libxdxgpu_container.Libc.Text.{Bytes, is_digit, is_space}

abbrev pub uintmax_mod : ℕ
uintmax_mod = 2 ^ 64

-- UINTMAX_MAX
abbrev pub uintmax_max : ℕ
uintmax_max = uintmax_mod - 1

-- The value of the leading digits on top of `acc`, unbounded, and the text behind them.
unfoldable pub read_digits : ℕ → Bytes → ℕ × Bytes
read_digits acc [] = (acc, [])
read_digits acc (c ∷ s) =
    let more = read_digits (acc * 10 + (c - b'0')) s in if is_digit c then more else (acc, c ∷ s)

unfoldable pub skip_space : Bytes → Bytes
skip_space [] = []
skip_space (c ∷ s) = if is_space c then skip_space s else c ∷ s

abbrev pub starts_digit : Bytes → Bool
starts_digit [] = false
starts_digit (c ∷ s) = is_digit c

-- Out of range gives UINTMAX_MAX; a minus sign negates modulo 2^64.
abbrev pub clamp : Bool → ℕ × Bytes → ℕ × Option Bytes
clamp neg (n, rest) = (
  if leb uintmax_mod n then uintmax_max else if neg then (uintmax_mod - n) % uintmax_mod else n,
  some rest,
)

-- What stands behind the sign.
abbrev pub convert : Bool → Bytes → ℕ × Option Bytes
convert neg s = if starts_digit s then clamp neg (read_digits 0 s) else (0, none)

abbrev pub signed : Bytes → ℕ × Option Bytes
signed [] = (0, none)
signed (c ∷ s) =
    if c == b'-'
    then convert true s
    else if c == b'+'
    then convert false s
    else convert false (c ∷ s)

-- The value, and where `end` points; `none` where no number was read, so that `end` is `s` itself.
unfoldable pub strtoumax : Bytes → ℕ × Option Bytes
unfolding read_digits skip_space
strtoumax s = signed (skip_space s)

abbrev pub intmax_max : ℕ
intmax_max = 2 ^ 63 - 1

-- The negative of a number.
abbrev pub negated : ℕ → ℤ
negated zero = pos zero
negated (suc n) = negsuc n

-- Out of range gives INTMAX_MIN or INTMAX_MAX.
abbrev clamp_signed : Bool → ℕ × Bytes → ℤ × Option Bytes
clamp_signed true (n, rest) =
    (negated (if ltb (intmax_max + 1) n then intmax_max + 1 else n), some rest)
clamp_signed false (n, rest) = (pos (if ltb intmax_max n then intmax_max else n), some rest)

abbrev convert_signed : Bool → Bytes → ℤ × Option Bytes
convert_signed neg s = if starts_digit s then clamp_signed neg (read_digits 0 s) else (pos 0, none)

abbrev signed_max : Bytes → ℤ × Option Bytes
signed_max [] = (pos 0, none)
signed_max (c ∷ s) =
    if c == b'-'
    then convert_signed true s
    else if c == b'+'
    then convert_signed false s
    else convert_signed false (c ∷ s)

-- strtoimax(s, &end, 10)
unfoldable pub strtoimax : Bytes → ℤ × Option Bytes
unfolding read_digits skip_space
strtoimax s = signed_max (skip_space s)
