-- ===== src/Records/Order.antt =====
-- `std::string` as a key of `std::map`: equality, and the order of the dictionary.
use rdma_migration_system.Prelude.{
  ℕ, ◌≡◌, ◌↔◌, refl, arith, Bool, true, false, ◌&&◌, ◌||◌, List, [], ◌∷◌,
}
use rdma_migration_system.Prelude.Tests.{ltb, ◌==◌, ==_iff}
use rdma_migration_system.Prelude.Maps.{Key}

abbrev pub Text : Type 0
Text = List ℕ

abbrev pub text_eq : Text → Text → Bool
text_eq [] [] = true
text_eq (a ∷ xs) (b ∷ ys) = (a == b) && text_eq xs ys
text_eq _ _ = false

abbrev pub text_lt : Text → Text → Bool
text_lt [] [] = false
text_lt [] (b ∷ ys) = true
text_lt (a ∷ xs) [] = false
text_lt (a ∷ xs) (b ∷ ys) = ltb a b || ((a == b) && text_lt xs ys)

pub text_eq_iff : (a b : Text) → (text_eq a b ≡ true) ↔ (a ≡ b)
text_eq_iff [] [] = (λ _. refl, λ _. refl)
text_eq_iff [] (b ∷ ys) = (λ e. ground arith, λ e. ground arith)
text_eq_iff (a ∷ xs) [] = (λ e. ground arith, λ e. ground arith)
text_eq_iff (a ∷ xs) (b ∷ ys) = (
  λ e. ground (arith, text_eq_iff xs ys, ==_iff a b),
  λ e. ground (arith, text_eq_iff xs ys, ==_iff a b),
)

instance abbrev pub text_key : Key Text
text_key = record { beq = λ a b. text_eq a b; blt = λ a b. text_lt a b; beq_iff = text_eq_iff }
