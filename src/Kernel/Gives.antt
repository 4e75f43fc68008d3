-- ===== src/Kernel/Gives.antt =====
-- What an operation gives, where it succeeds.
use libxdxgpu_container.Error.{Failure}
use libxdxgpu_container.Kernel.{
  History, Ended, done, failed, crashed, Op, run, pure, fail, continue, ◌>>=◌, as_value, settle,
  or_else,
}

abbrev pub Given : {A : Type 0} → (A → Type 0) → Ended A → Type 0
Given P (done a) = P a
Given P (failed e) = Unit
Given P crashed = Unit

pub record Gives {A : Type 0} (P : A → Type 0) (m : Op A) : Type 0 where
  pub runs : (h : History) → Given P (run m h).1

pub Gives-pure : {A : Type 0} (P : A → Type 0) (a : A) → P a → Gives P (pure a)
Gives-pure P a p = record { runs = λ h. p }

Given-weaker :
    {A : Type 0} (Q P : A → Type 0) → ((a : A) → Q a → P a) → (r : Ended A) → Given Q r → Given P r
Given-weaker Q P w (done a) g = w a g
Given-weaker Q P w (failed e) g = tt
Given-weaker Q P w crashed g = tt

pub Gives-weaker :
    {A : Type 0} (Q P : A → Type 0) (m : Op A) → ((a : A) → Q a → P a) → Gives Q m → Gives P m
Gives-weaker Q P m w l = record { runs = λ h. Given-weaker Q P w (run m h).1 (l.runs h) }

Given-anything : {A : Type 0} (r : Ended A) → Given (λ a. Unit {0}) r
Given-anything (done a) = tt
Given-anything (failed e) = tt
Given-anything crashed = tt

pub Gives-anything : {A : Type 0} (m : Op A) → Gives (λ a. Unit {0}) m
Gives-anything m = record { runs = λ h. Given-anything (run m h).1 }

Given-continue :
    {A B : Type 0} (Q : A → Type 0) (P : B → Type 0) (f : A → Op B)
    → ((a : A) → Q a → Gives P (f a))
    → (x : History × Ended A) → Given Q x.1
    → Given P (continue f x).1
Given-continue Q P f k (h, done a) g = (k a g).runs h
Given-continue Q P f k (h, failed e) g = tt
Given-continue Q P f k (h, crashed) g = tt

pub Gives-bind :
    {A B : Type 0} (Q : A → Type 0) (P : B → Type 0) (m : Op A) (f : A → Op B)
    → Gives Q m
    → ((a : A) → Q a → Gives P (f a))
    → Gives P (m >>= f)
Gives-bind Q P m f l k = record { runs = λ h. Given-continue Q P f k (run m h) (l.runs h) }

-- What comes first does not matter.
pub Gives-behind :
    {A B : Type 0} (P : B → Type 0) (m : Op A) (f : A → Op B)
    → ((a : A) → Gives P (f a))
    → Gives P (m >>= f)
Gives-behind P m f k = Gives-bind (λ a. Unit {0}) P m f (Gives-anything m) (λ a u. k a)

Given-after :
    {A : Type 0} (P : A → Type 0) (e : Failure) (x : History × Ended (Unit {0}))
    → Given P (continue (λ _. fail {A = A} e) x).1
Given-after P e (h, done u) = tt
Given-after P e (h, failed f) = tt
Given-after P e (h, crashed) = tt

Given-settle :
    {A : Type 0} (P : A → Type 0) (clean : Op (Unit {0}))
    → (x : History × Ended A) → Given P x.1
    → Given P (continue (settle clean) (as_value x)).1
Given-settle P clean (h, done a) g = g
Given-settle P clean (h, failed e) g = Given-after P e (run clean h)
Given-settle P clean (h, crashed) g = tt

pub Gives-or_else :
    {A : Type 0} (P : A → Type 0) (m : Op A) (clean : Op (Unit {0}))
    → Gives P m
    → Gives P (or_else m clean)
Gives-or_else P m clean l = record { runs = λ h. Given-settle P clean (run m h) (l.runs h) }
