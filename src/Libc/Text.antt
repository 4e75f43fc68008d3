-- ===== src/Libc/Text.antt =====
-- Comparing, spanning and searching: strcmp, strncmp, strcasecmp, strspn, strcspn, strchr, strrchr,
-- strstr, tolower.
use Prim.Native.Char.{code}
use Prim.Native.String.{String}
use libxdxgpu_container.Base.{
  ℕ, zero, suc, ◌+◌, Bool, true, false, ◌&&◌, ◌||◌, List, [], ◌∷◌, map, Option, none, some, leb,
  ◌==◌, if◌then◌else◌,
}

-- A C string: its bytes up to the terminating NUL.
abbrev pub Bytes : Type 0
Bytes = List ℕ

-- The bytes of a literal of the source, which is ASCII.
abbrev pub codes : String → Bytes
codes String.[] = []
codes (String.◌∷◌ c s) = code c ∷ codes s

-- Membership in a set of characters.
abbrev pub elem : ℕ → Bytes → Bool
elem c [] = false
elem c (x ∷ xs) = c == x || elem c xs

-- strcmp(a, b) == 0
unfoldable pub strcmp_eq : Bytes → Bytes → Bool
strcmp_eq [] [] = true
strcmp_eq [] (y ∷ b) = false
strcmp_eq (x ∷ a) [] = false
strcmp_eq (x ∷ a) (y ∷ b) = x == y && strcmp_eq a b

-- strncmp(a, b, n) == 0: at most n characters, and none past a terminator.
unfoldable pub strncmp_eq : ℕ → Bytes → Bytes → Bool
strncmp_eq zero a b = true
strncmp_eq (suc n) [] [] = true
strncmp_eq (suc n) [] (y ∷ b) = false
strncmp_eq (suc n) (x ∷ a) [] = false
strncmp_eq (suc n) (x ∷ a) (y ∷ b) = x == y && strncmp_eq n a b

abbrev pub is_digit : ℕ → Bool
is_digit c = leb b'0' c && leb c b'9'

abbrev pub is_space : ℕ → Bool
is_space c = c == 32 || (leb 9 c && leb c 13)

unfoldable pub tolower : ℕ → ℕ
tolower c = if leb b'A' c && leb c b'Z' then c + 32 else c

-- strcasecmp(a, b) == 0
unfoldable pub strcasecmp_eq : Bytes → Bytes → Bool
strcasecmp_eq a b = strcmp_eq (map tolower a) (map tolower b)

-- strncasecmp(a, b, n) == 0
unfoldable pub strncasecmp_eq : ℕ → Bytes → Bytes → Bool
strncasecmp_eq n a b = strncmp_eq n (map tolower a) (map tolower b)

-- strspn
unfoldable pub strspn : Bytes → Bytes → ℕ
strspn [] accept = 0
strspn (c ∷ s) accept = if elem c accept then suc (strspn s accept) else 0

-- strcspn
unfoldable pub strcspn : Bytes → Bytes → ℕ
strcspn [] reject = 0
strcspn (c ∷ s) reject = if elem c reject then 0 else suc (strcspn s reject)

-- s + strspn(s, accept)
unfoldable pub skip : Bytes → Bytes → Bytes
skip accept [] = []
skip accept (c ∷ s) = if elem c accept then skip accept s else c ∷ s

-- strchr: the text from the first `c` on.
unfoldable pub strchr : Bytes → ℕ → Option Bytes
strchr [] c = none
strchr (x ∷ s) c = if x == c then some (x ∷ s) else strchr s c

-- strrchr, as the text before the last `c` and the text from it on.
abbrev pub strrchr_cons : ℕ → ℕ → Bytes → Option (Bytes × Bytes) → Option (Bytes × Bytes)
strrchr_cons x c s (some (a, b)) = some (x ∷ a, b)
strrchr_cons x c s none = if x == c then some ([], x ∷ s) else none

unfoldable pub strrchr : Bytes → ℕ → Option (Bytes × Bytes)
strrchr [] c = none
strrchr (x ∷ s) c = strrchr_cons x c s (strrchr s c)

-- strncmp(s, p, strlen(p)) == 0, for the search below.
abbrev starts : Bytes → Bytes → Bool
starts s [] = true
starts [] (y ∷ p) = false
starts (x ∷ s) (y ∷ p) = x == y && starts s p

-- strstr: the text from the first occurrence of `p` on.
unfoldable pub strstr : Bytes → Bytes → Option Bytes
strstr [] p = if starts [] p then some [] else none
strstr (x ∷ s) p = if starts (x ∷ s) p then some (x ∷ s) else strstr s p
