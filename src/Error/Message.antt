-- ===== src/Error/Message.antt =====
-- The message that `error_vset` leaves, and when it crashes.
use libxdxgpu_container.Base.{◌≡◌, refl, ap, ◌∙◌, true, false, ◌∷◌, ◌++◌, map, Option, none, some}
use libxdxgpu_container.Base.Int.{ℤ, pos}
use libxdxgpu_container.Libc.{Bytes, elem, tolower}
use libxdxgpu_container.Libc.TextLaws.{Last, strrchr-Last}
use libxdxgpu_container.Error.{
  ErrorState, finish, Outcome, fault, returned, first_line, lower_detail, error_vset, joined,
  str_lower,
}

-- The message with its detail, the text after the last colon, in lower case.
pub record Detailed (text : Bytes) (o : ErrorState) : Type 0 where
  pub before : Bytes
  pub detail : Bytes
  pub splits : text ≡ before ++ b':' ∷ detail
  pub last_colon : elem b':' detail ≡ false
  pub message : o.msg ≡ some (before ++ b':' ∷ map tolower detail)

-- What follows from the search for the colon.
abbrev pub Formatted : ℤ → Bytes → Outcome → Type 0
Formatted code text fault = elem b':' text ≡ false
Formatted code text (returned rv none) = ⊥
Formatted code text (returned rv (some o)) = (rv ≡ pos 0) × (o.code ≡ code) × Detailed text o

formats :
    (code : ℤ) (text : Bytes) (o : Option (Bytes × Bytes))
    → Last b':' text o
    → Formatted code text (finish code (lower_detail o))
unfolding finish lower_detail str_lower tolower
formats code text none h = h
formats code text (some (a, b)) (t, e, f, g) = (
  refl,
  refl,
  record {
    before = a;
    detail = t;
    splits = f ∙ ap (λ u. a ++ u) e;
    last_colon = g;
    message = ap (λ u. some (a ++ map tolower u)) e;
  },
)

-- With a detail to add, on an error that is not NULL and with memory for both messages,
-- `error_vset` returns 0, stores the code, and keeps the first line of "message: detail" with what
-- follows its last colon in lower case; it crashes exactly if that line holds no colon.
pub error_vset-Formatted :
    (e : ErrorState) (code : ℤ) (errmsg msg : Bytes)
    → Formatted code
        (first_line (joined msg errmsg))
        (error_vset (some e) code (some errmsg) (some msg) true)
unfolding error_vset
error_vset-Formatted e code errmsg msg =
    formats code (first_line (joined msg errmsg)) _
      (strrchr-Last (first_line (joined msg errmsg)) b':')
