-- ===== src/Error.antt =====
-- src/error_generic.c: `struct error`, `error_reset` and `error_vset`, and the values by which the
-- other modules say how they failed.
pub mod Message
use libxdxgpu_container.Base.{
  ℕ, Bool, true, false, List, [], ◌∷◌, ◌++◌, map, Option, none, some, if◌then◌else◌,
}
use libxdxgpu_container.Base.Int.{ℤ, pos, negsuc}
use libxdxgpu_container.Libc.{Bytes, codes, strcspn, strrchr, tolower}
use libxdxgpu_container.Base.{take, ◌≡◌, refl}

-- `struct error`
pub record ErrorState : Type 0 where
  pub code : ℤ
  pub msg : Option Bytes

-- What a call leaves: a return value and the error, or a crash on a NULL pointer.
pub data Outcome : Type 0 where
  fault : Outcome
  returned : ℤ → Option ErrorState → Outcome

-- `error_reset` on an error that is not NULL
pub error_reset : ErrorState → ErrorState
error_reset e = record { code = pos 0; msg = none }

-- `str_lower`
pub str_lower : Bytes → Bytes
str_lower s = map tolower s

-- `err->msg[strcspn(err->msg, "\n")] = '\0'`
pub first_line : Bytes → Bytes
first_line s = take (strcspn s (codes "\n")) s

-- `str_lower(strrchr(err->msg, ':'))`; `none` where strrchr gives NULL.
pub lower_detail : Option (Bytes × Bytes) → Option Bytes
unfolding str_lower
lower_detail none = none
lower_detail (some (before, detail)) = some (before ++ str_lower detail)

pub finish : ℤ → Option Bytes → Outcome
finish code none = fault
finish code (some text) = returned (pos 0) (some (record { code = code; msg = some text }))

-- Both allocations succeeded, and the message is followed by `errmsg`.
abbrev pub joined : Bytes → Bytes → Bytes
joined msg errmsg = msg ++ (codes ": " ++ errmsg)

with_detail : ℤ → Bytes → Bytes → Bool → Outcome
with_detail code msg errmsg false = returned (negsuc 0) (some (record { code = code; msg = none }))
with_detail code msg errmsg true =
    finish code (lower_detail (strrchr (first_line (joined msg errmsg)) b':'))

formatted : ErrorState → ℤ → Option Bytes → Option Bytes → Bool → Outcome
formatted e code errmsg none room = returned (negsuc 0) (some (record { code = code; msg = none }))
formatted e code none (some msg) room =
    returned (pos 0) (some (record { code = code; msg = some msg }))
formatted e code (some errmsg) (some msg) room = with_detail code msg errmsg room

-- `error_vset`. `msg` is what vasprintf makes of the format, `none` where it fails; `room` says
-- whether asprintf finds memory for the second message.
unfoldable pub error_vset : Option ErrorState → ℤ → Option Bytes → Option Bytes → Bool → Outcome
unfolding error_reset first_line lower_detail finish with_detail formatted
error_vset none code errmsg msg room = returned (pos 0) none
error_vset (some e) code errmsg msg room = formatted (error_reset e) code errmsg msg room

-- How a function that returns -1 has filled its error: the last call of `error_setx`, or of
-- `error_set` with the value of errno, and the formatted message; or not at all.
pub data Failure : Type 0 where
  setx : Bytes → Failure
  set_errno : ℕ → Bytes → Failure
  unset : Failure

-- The error that such a call leaves, by the text of `strerror`.
unfoldable pub record_failure : (ℕ → Bytes) → Failure → Option ErrorState → Outcome
unfolding error_vset
record_failure strerror (setx text) e = error_vset e (negsuc 0) none (some text) true
record_failure strerror (set_errno errno text) e =
    error_vset e (pos errno) (some (strerror errno)) (some text) true
record_failure strerror unset e = returned (pos 0) e

-- `err->code`, as the callers compare it; an error begins as zeros.
abbrev pub failure_code : Failure → ℤ
failure_code (setx text) = negsuc 0
failure_code (set_errno errno text) = pos errno
failure_code unset = pos 0

-- What a function that may fail gives.
pub data Result (A : Type 0) : Type 0 where
  err : Failure → Result A
  ok : A → Result A

-- `if (first < 0) return (-1);`, and then what is done with its value.
infixl 5 ◌>>=◌
abbrev pub ◌>>=◌ : {A B : Type 0} → Result A → (A → Result B) → Result B
err failure >>= next = err failure
ok value >>= next = next value

pub >>=-eq-ok :
    {A B : Type 0} (first : Result A) (next : A → Result B) {result : B}
    → (first >>= next) ≡ ok result
    → (value : A) × (first ≡ ok value) × (next value ≡ ok result)
>>=-eq-ok (err failure) next h = cc
>>=-eq-ok (ok value) next h = (value, refl, h)

-- The same, where there is no value to go on with.
infixl 5 ◌>>◌
abbrev pub ◌>>◌ : {A B : Type 0} → Result A → Result B → Result B
first >> second = first >>= λ value. second

pub ok-injective : {A : Type 0} {a b : A} → ok a ≡ ok b → a ≡ b
ok-injective h = cc
