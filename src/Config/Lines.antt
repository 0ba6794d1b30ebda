-- ===== src/Config/Lines.antt =====
-- Lines and words of a text, as `std::getline` of include/utils/miscutils.hpp gives them.
use rdma_migration_system.Prelude.{
  ℕ, zero, suc, ◌+◌, ◌/◌, ◌%◌, ◌<◌, ◌≡◌, ◌≢◌, refl, arith, inl, inr, some, none, true, [], ◌∷◌,
  ◌++◌,
}
use rdma_migration_system.Prelude.Tests.{ltb, ==_iff, Bool-cases}
use rdma_migration_system.Prelude.Integers.{ℤ, pos, negsuc}
use rdma_migration_system.Records.Order.{Text}
use rdma_migration_system.Records.Decimal.{write_digits, to_string, First, to_string-First}
use rdma_migration_system.Records.Signed.{int_to_string}
use rdma_migration_system.Config.{cut_line, get_line}

-- The text does not have the delimiter.
abbrev pub Without : ℕ → Text → Type 0
Without delim [] = Unit {0}
Without delim (c ∷ cs) = (c ≢ delim) × Without delim cs

cut_line-Without :
    (delim : ℕ) (s rest : Text)
    → Without delim s
    → cut_line delim (s ++ (delim ∷ rest)) ≡ (s, some rest)
unfolding cut_line
cut_line-Without delim [] rest w = rw ((==_iff delim delim).1 refl) refl
cut_line-Without delim (c ∷ cs) rest (differs, w) =
    ground (arith, cut_line-Without delim cs rest w, ==_iff c delim, differs)

cut_line_last : (delim : ℕ) (s : Text) → Without delim s → cut_line delim s ≡ (s, none)
unfolding cut_line
cut_line_last delim [] w = refl
cut_line_last delim (c ∷ cs) (differs, w) =
    ground (arith, cut_line_last delim cs w, ==_iff c delim, differs)

-- A word in front of a delimiter.
pub get_line-word :
    (delim : ℕ) (s rest old : Text)
    → Without delim s
    → get_line delim (some (s ++ (delim ∷ rest))) old ≡ (true, s, some rest)
unfolding get_line
get_line-word delim [] rest old w = rw (cut_line-Without delim [] rest w, get_line) refl
get_line-word delim (c ∷ cs) rest old w = rw (cut_line-Without delim (c ∷ cs) rest w, get_line) refl

-- The last word, which is not empty.
pub get_line_last :
    (delim : ℕ) (s old : Text)
    → Without delim s
    → s ≢ []
    → get_line delim (some s) old ≡ (true, s, none)
unfolding get_line
get_line_last delim [] old w full = absurd (full refl)
get_line_last delim (c ∷ cs) old w full = rw (cut_line_last delim (c ∷ cs) w, get_line) refl

pub append_full : (s : Text) (c : ℕ) (rest : Text) → s ++ (c ∷ rest) ≢ []
append_full [] c rest e = absurd (cc)
append_full (a ∷ s) c rest e = absurd (cc)

pub Without-append :
    (delim : ℕ) (a b : Text) → Without delim a → Without delim b → Without delim (a ++ b)
Without-append delim [] b wa wb = wb
Without-append delim (c ∷ a) b (differs, wa) wb = (differs, Without-append delim a b wa wb)

write_digits-Without :
    (delim fuel n : ℕ) (after : Text)
    → delim < 48
    → Without delim after
    → Without delim (write_digits fuel n after)
unfolding write_digits
write_digits-Without delim zero n after low w = w
write_digits-Without delim (suc fuel) n after low w = elim (Bool-cases (ltb n 10)) [
  | inl small ↦ rw small ((λ e. absurd (omega (arith, e, low))), w)
  | inr large ↦ rw large (
      write_digits-Without delim fuel (n / 10) ((48 + n % 10) ∷ after) low
        ((λ e. absurd (omega (arith, e, low))), w))
]

-- A number has digits and a sign only.
pub int_to_string-Without : (delim : ℕ) (n : ℤ) → delim < 45 → Without delim (int_to_string n)
unfolding int_to_string to_string
int_to_string-Without delim (pos n) low =
    write_digits-Without delim (suc n) n [] (omega (arith, low)) tt
int_to_string-Without delim (negsuc n) low = (
  λ e. absurd (omega (arith, e, low)),
  write_digits-Without delim (suc (suc n)) (suc n) [] (omega (arith, low)) tt,
)

-- A number is not the empty text.
pub int_to_string_full : (n : ℤ) → int_to_string n ≢ []
unfolding int_to_string
int_to_string_full (pos n) e = full (to_string n) (to_string-First n) e
  where
    full : (s : Text) → First n s → s ≢ []
    full [] first e = elim first [ ]
    full (c ∷ cs) first e = absurd (cc)
int_to_string_full (negsuc n) e = absurd (cc)
