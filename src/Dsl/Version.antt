-- ===== src/Dsl/Version.antt =====
-- Versions as numbers between dots, and the order that `dsl_compare_version` decides.
pub mod Scan
pub mod Order
use Prim.Native.Nat.{compare, Ordering}
use libxdxgpu_container.Base.{
  ℕ, zero, suc, ◌+◌, ◌-◌, ◌*◌, ◌<◌, ◌≡◌, ◌≢◌, Bool, true, false, not, ◌&&◌, List, [], ◌∷◌, ◌++◌,
  ◌==◌, All, if◌then◌else◌,
}
use libxdxgpu_container.Libc.{Bytes, is_digit, uintmax_max}
use libxdxgpu_container.Dsl.{
  DslComparator, equal, not_equal, less, less_equal, greater, greater_equal,
}

-- The value of decimal digits on top of `acc`.
abbrev pub decimal : ℕ → Bytes → ℕ
decimal acc [] = acc
decimal acc (c ∷ d) = decimal (acc * 10 + (c - b'0')) d

abbrev pub Digits : Bytes → Type 0
Digits d = All (λ c. is_digit c ≡ true) d

abbrev pub Dots : Bytes → Type 0
Dots s = All (λ c. c ≡ b'.') s

-- A text that reads as the numbers `ns`: runs of digits with one or more dots between them, and
-- dots allowed at the end. Each number is below UINTMAX_MAX.
pub data IsVersion : Bytes → List ℕ → Type 0 where
  end : IsVersion [] []
  part :
      {s rest : Bytes} {n : ℕ} {ns : List ℕ} (c : ℕ) (d dots : Bytes)
      → Digits (c ∷ d)
      → Dots dots
      → (dots ≡ [] → rest ≡ [])
      → n ≡ decimal 0 (c ∷ d)
      → n < uintmax_max
      → s ≡ (c ∷ d) ++ (dots ++ rest)
      → IsVersion rest ns
      → IsVersion s (n ∷ ns)

abbrev pub all_zero : List ℕ → Bool
all_zero [] = true
all_zero (n ∷ ns) = n == 0 && all_zero ns

-- Component by component, a missing component counting as zero.
abbrev pub version_order : List ℕ → List ℕ → Ordering
version_order [] ms = if all_zero ms then Ordering.eq else Ordering.lt
version_order (n ∷ ns) [] = if all_zero (n ∷ ns) then Ordering.eq else Ordering.gt
version_order (n ∷ ns) (m ∷ ms) = elim (compare n m) [
  | Ordering.lt ↦ Ordering.lt
  | Ordering.eq ↦ version_order ns ms
  | Ordering.gt ↦ Ordering.gt
]

abbrev pub holds : DslComparator → Ordering → Bool
holds equal Ordering.eq = true
holds equal _ = false
holds not_equal Ordering.eq = false
holds not_equal _ = true
holds less Ordering.lt = true
holds less _ = false
holds less_equal Ordering.gt = false
holds less_equal _ = true
holds greater Ordering.gt = true
holds greater _ = false
holds greater_equal Ordering.lt = false
holds greater_equal _ = true
