-- ===== src/Prelude/Results.antt =====
-- What a call that does not return normally ends in, and the chain of fallible calls.
use mathlib.Core.Path.{◌≡◌, refl, ap}
use mathlib.Core.Logic.{◌⊎◌, inl, inr}
use mathlib.Core.Option.{Option, none, some}

-- `std::out_of_range` of `at`, `std::logic_error`, `std::runtime_error`, a plain `std::exception`,
-- a null or dangling pointer that is read, a write past an array, `exit` or `die`, a wait that
-- only another thread can end, and the use of a value that was never set.
pub data Fault : Type 0 where
  out_of_range logic_error runtime_error exception bad_pointer overrun exits blocks : Fault
  uninitialised : Fault

pub data Result {ℓ} (A : Type ℓ) : Type ℓ where
  ok : A → Result A
  err : Fault → Result A

infixl 5 ◌>>=◌ ◌>>◌
abbrev pub ◌>>=◌ {ℓ κ} : {A : Type ℓ} {B : Type κ} → Result A → (A → Result B) → Result B
ok a >>= f = f a
err e >>= f = err e

abbrev pub ◌>>◌ {ℓ κ} : {A : Type ℓ} {B : Type κ} → Result A → Result B → Result B
m >> k = m >>= λ _. k

abbrev pub or_fault {ℓ} : {A : Type ℓ} → Option A → Fault → Result A
or_fault none e = err e
or_fault (some a) e = ok a

pub Result-cases {ℓ} :
    {A : Type ℓ} (r : Result A) → ((a : A) × (r ≡ ok a)) ⊎ ((e : Fault) × (r ≡ err e))
Result-cases (ok a) = inl (a, refl)
Result-cases (err e) = inr (e, refl)

pub ok-injective {ℓ} : {A : Type ℓ} (a b : A) → ok a ≡ ok b → a ≡ b
ok-injective a b e = ap (λ r. or_else r a) e
  where
    or_else : {A : Type ℓ} → Result A → A → A
    or_else (ok x) y = x
    or_else (err f) y = y
