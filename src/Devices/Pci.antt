-- ===== src/Devices/Pci.antt =====
-- src/cli/common.c: `matches_pci_format`, with sscanf's %x and snprintf's %0x.
use libxdxgpu_container.Base.{
  ℕ, zero, suc, ◌+◌, ◌-◌, ◌*◌, ◌/◌, ◌%◌, ◌^◌, Bool, true, false, ◌&&◌, ◌||◌, [], ◌∷◌, ◌++◌, Option,
  none, some, ltb, leb, ◌==◌, if◌then◌else◌, length, take, replicate,
}
use libxdxgpu_container.Libc.{Bytes, codes, is_digit, skip_space, uintmax_mod}

abbrev hex_value : ℕ → Option ℕ
hex_value c =
    if is_digit c
    then some (c - b'0')
    else if leb b'a' c && leb c b'f'
    then some (c - b'a' + 10)
    else if leb b'A' c && leb c b'F'
    then some (c - b'A' + 10)
    else none

-- At most `width` hexadecimal digits on top of `acc`.
read_hex : ℕ → ℕ → Bytes → ℕ × Bytes
read_hex zero acc s = (acc, s)
read_hex (suc width) acc [] = (acc, [])
read_hex (suc width) acc (c ∷ s) = elim (hex_value c) [
  | none ↦ (acc, c ∷ s)
  | some v ↦ read_hex width (acc * 16 + v) s
]

abbrev is_x : ℕ → Bool
is_x c = c == b'x' || c == b'X'

-- Behind a leading zero: a prefix "0x" is passed over.
behind_zero : ℕ → Bytes → ℕ × Bytes
behind_zero zero s = (0, s)
behind_zero (suc width) [] = (0, [])
behind_zero (suc width) (c ∷ s) =
    if is_x c then read_hex width 0 s else read_hex (suc width) 0 (c ∷ s)

unsigned_hex : ℕ → Bytes → Option (ℕ × Bytes)
unsigned_hex zero s = none
unsigned_hex (suc width) [] = none
unsigned_hex (suc width) (c ∷ s) =
    if c == b'0'
    then some (behind_zero width s)
    else elim (hex_value c) [ none ↦ none | some v ↦ some (read_hex width v s) ]

-- The 32 bits that are stored: out of range counts as ULONG_MAX.
stored : Bool → ℕ × Bytes → ℕ × Bytes
stored neg (n, rest) = (
  if leb uintmax_mod n
      then 2 ^ 32 - 1
      else if neg
      then (2 ^ 32 - n % 2 ^ 32) % 2 ^ 32
      else n % 2 ^ 32,
  rest,
)

store_as : Bool → Option (ℕ × Bytes) → Option (ℕ × Bytes)
store_as neg none = none
store_as neg (some r) = some (stored neg r)

signed_hex : ℕ → Bytes → Option (ℕ × Bytes)
signed_hex width [] = none
signed_hex width (c ∷ s) =
    if c == b'-'
    then store_as true (unsigned_hex (width - 1) s)
    else if c == b'+'
    then store_as false (unsigned_hex (width - 1) s)
    else store_as false (unsigned_hex width (c ∷ s))

-- One conversion %x with at most `width` characters behind the leading white space.
unfoldable pub scan_hex : ℕ → Bytes → Option (ℕ × Bytes)
unfolding read_hex behind_zero unsigned_hex stored store_as signed_hex
scan_hex width s = signed_hex width (skip_space s)

-- A literal ':' of the format.
colon : Bytes → Option Bytes
colon [] = none
colon (c ∷ s) = if c == b':' then some s else none

-- sscanf(gpu, "%x:%02x:%02x.0", …) == 3; what follows the third number does not matter.
unfoldable pub scan_pci : Bytes → Option (ℕ × ℕ × ℕ)
unfolding scan_hex colon
scan_pci gpu = elim (scan_hex (length gpu) gpu) [
  | none ↦ none
  | some (domain, s) ↦ elim (colon s) [
    | none ↦ none
    | some s ↦ elim (scan_hex 2 s) [
      | none ↦ none
      | some (bus, s) ↦ elim (colon s) [
        | none ↦ none
        | some s ↦ elim (scan_hex 2 s) [
          | none ↦ none
          | some (device, s) ↦ some (domain, bus, device)
        ]
      ]
    ]
  ]
]

abbrev hex_digit : ℕ → ℕ
hex_digit v = if ltb v 10 then b'0' + v else b'a' + (v - 10)

-- The digits of a number in front of `out`; `fuel` is at least the number of digits.
hex_digits : ℕ → ℕ → Bytes → Bytes
hex_digits zero n out = out
hex_digits (suc fuel) n out =
    let more = hex_digits fuel (n / 16) (hex_digit (n % 16) ∷ out) in if n == 0 then out else more

-- "%0<width>x", of 32 bits
format_hex : ℕ → ℕ → Bytes
format_hex width n =
    let digits = hex_digits 8 n [] in replicate (width - length digits) b'0' ++ digits

-- NVML_DEVICE_PCI_BUS_ID_BUFFER_SIZE + 1
abbrev pub busid_buffer : ℕ
busid_buffer = 33

-- The buffer that is filled, or `none` for `false`.
unfoldable pub matches_pci_format : Bytes → ℕ → Option Bytes
unfolding scan_pci hex_digits format_hex
matches_pci_format gpu bufsize = elim (scan_pci gpu) [
  | none ↦ none
  | some (domain, bus, device) ↦ some (
      take (bufsize - 1) (
        format_hex 8 domain
        ++ b':' ∷ (format_hex 2 bus ++ b':' ∷ (format_hex 2 device ++ codes ".0"))))
]
