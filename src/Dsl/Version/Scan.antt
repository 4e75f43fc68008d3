-- ===== src/Dsl/Version/Scan.antt =====
-- How the scanning functions run over a version.
use libxdxgpu_container.Base.{
  ℕ, ◌+◌, ◌-◌, ◌*◌, ◌<◌, ◌≡◌, refl, ◌∙◌, true, false, ◌&&◌, List, [], ◌∷◌, ◌++◌, ◌==◌, leb, ltb,
  ==_iff, some, arith, length, length-append, inl, inr, Bool-cases,
}
use libxdxgpu_container.Libc.{
  Bytes, codes, is_digit, is_space, uintmax_max, uintmax_mod, read_digits, strtoumax, skip, strspn,
  elem,
}
use libxdxgpu_container.Dsl.{read_component, is_nil, version_chars}
use libxdxgpu_container.Dsl.Version.{decimal, Digits, Dots, IsVersion, end, part, all_zero}

-- The text does not go on with a digit.
abbrev pub StopsDigits : Bytes → Type 0
StopsDigits [] = Unit
StopsDigits (c ∷ s) = is_digit c ≡ false

read_digits-append :
    (d r : Bytes) (acc : ℕ)
    → Digits d
    → StopsDigits r
    → read_digits acc (d ++ r) ≡ (decimal acc d, r)
unfolding read_digits
read_digits-append [] [] acc h k = refl
read_digits-append [] (c ∷ r) acc h k = rw k refl
read_digits-append (c ∷ d) r acc (h, hs) k = rw h (read_digits-append d r _ hs k)

not_space : (c : ℕ) → is_digit c ≡ true → is_space c ≡ false
not_space c h = ground arith

not_sign : (c sign : ℕ) → is_digit c ≡ true → ltb sign b'0' ≡ true → (c == sign) ≡ false
not_sign c sign h k = ground arith

below_mod : (n : ℕ) → n < uintmax_max → leb uintmax_mod n ≡ false
below_mod n h = ground arith

pub strtoumax-append :
    (c : ℕ) (d r : Bytes)
    → Digits (c ∷ d)
    → StopsDigits r
    → decimal 0 (c ∷ d) < uintmax_max
    → strtoumax ((c ∷ d) ++ r) ≡ (decimal 0 (c ∷ d), some r)
unfolding strtoumax
strtoumax-append c d r h k b =
    let minus : (c == b'-') ≡ false = not_sign c b'-' h.0 refl in
    let plus : (c == b'+') ≡ false = not_sign c b'+' h.0 refl in
    let small : leb uintmax_mod (decimal 0 (c ∷ d)) ≡ false = below_mod (decimal 0 (c ∷ d)) b in
    rw (not_space c h.0, minus, plus, h.0, read_digits-append d r (0 + (c - b'0')) h.1 k, small)
      refl

pub read_component-append :
    (c : ℕ) (d r : Bytes)
    → Digits (c ∷ d)
    → StopsDigits r
    → decimal 0 (c ∷ d) < uintmax_max
    → read_component ((c ∷ d) ++ r) ≡ some (decimal 0 (c ∷ d), r)
unfolding read_component
read_component-append c d r h k b = rw (strtoumax-append c d r h k b) (ground arith)

-- Behind the dots the text ends or goes on with a digit.
abbrev pub StartsDigit : Bytes → Type 0
StartsDigit [] = Unit
StartsDigit (c ∷ s) = is_digit c ≡ true

pub IsVersion-StartsDigit : {s : Bytes} {ns : List ℕ} → IsVersion s ns → StartsDigit s
IsVersion-StartsDigit end = tt
IsVersion-StartsDigit (part c d dots h p q e b f v) = rw f h.0

pub skip-Dots :
    (dots rest : Bytes) → Dots dots → StartsDigit rest → skip (codes ".") (dots ++ rest) ≡ rest
unfolding skip
skip-Dots [] [] p h = refl
skip-Dots [] (c ∷ rest) p h = ground arith
skip-Dots (c ∷ dots) rest (p, ps) h = ground (arith, skip-Dots dots rest ps h)

pub Dots-stop :
    (dots rest : Bytes) → Dots dots → (dots ≡ [] → rest ≡ []) → StopsDigits (dots ++ rest)
Dots-stop [] rest p q = rw (q refl) tt
Dots-stop (c ∷ dots) rest (p, ps) q = ground arith

decimal_pos : (d : Bytes) (acc : ℕ) → 0 < acc → 0 < decimal acc d
decimal_pos [] acc h = h
decimal_pos (c ∷ d) acc h = decimal_pos d (acc * 10 + (c - b'0')) (omega arith)

skip_zeros-Digits :
    (d r : Bytes)
    → Digits d
    → is_nil (skip (codes ".0") (d ++ r)) ≡ (decimal 0 d == 0 && is_nil (skip (codes ".0") r))
unfolding skip
skip_zeros-Digits [] r h = refl
skip_zeros-Digits (c ∷ d) r (h, hs) = elim (Bool-cases (c == b'0')) [
  | inl e ↦ rw ((==_iff c b'0').0 e) (skip_zeros-Digits d r hs)
  | inr e ↦ ground (arith, decimal_pos d (0 + (c - b'0')) (ground arith))
]

skip_zeros-Dots : (dots r : Bytes) → Dots dots → skip (codes ".0") (dots ++ r) ≡ skip (codes ".0") r
unfolding skip
skip_zeros-Dots [] r p = refl
skip_zeros-Dots (c ∷ dots) r (p, ps) = ground (arith, skip_zeros-Dots dots r ps)

pub skip_zeros-IsVersion :
    {s : Bytes} {ns : List ℕ} → IsVersion s ns → is_nil (skip (codes ".0") s) ≡ all_zero ns
unfolding skip
skip_zeros-IsVersion end = refl
skip_zeros-IsVersion (part {rest = rest} c d dots h p q e b f v) =
    rw
      (
        f,
        e,
        skip_zeros-Digits (c ∷ d) (dots ++ rest) h,
        skip_zeros-Dots dots rest p,
        skip_zeros-IsVersion v,
      )
      refl

digit-version_chars : (c : ℕ) → is_digit c ≡ true → elem c version_chars ≡ true
digit-version_chars c h = ground arith

strspn-Digits :
    (d r : Bytes) → Digits d → strspn (d ++ r) version_chars ≡ length d + strspn r version_chars
unfolding strspn
strspn-Digits [] r h = omega arith
strspn-Digits (c ∷ d) r (h, hs) = rw (digit-version_chars c h) (omega (arith, strspn-Digits d r hs))

strspn-Dots :
    (d r : Bytes) → Dots d → strspn (d ++ r) version_chars ≡ length d + strspn r version_chars
unfolding strspn
strspn-Dots [] r h = omega arith
strspn-Dots (c ∷ d) r (h, hs) = rw h (omega (arith, strspn-Dots d r hs))

-- A version passes the test on its characters.
pub strspn-IsVersion :
    {s : Bytes} {ns : List ℕ} → IsVersion s ns → strspn s version_chars ≡ length s
unfolding strspn
strspn-IsVersion end = refl
strspn-IsVersion (part {rest = rest} c d dots h p q e b f v) = rw f (
    strspn-Digits (c ∷ d) (dots ++ rest) h
    ∙ omega (
      arith,
      strspn-Dots dots rest p,
      strspn-IsVersion v,
      length-append (c ∷ d) (dots ++ rest),
      length-append dots rest,
    ))
