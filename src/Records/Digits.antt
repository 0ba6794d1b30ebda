-- ===== src/Records/Digits.antt =====
-- The texts of numbers: which characters they have, and how many.
use rdma_migration_system.Prelude.{
  ℕ, zero, suc, ◌+◌, ◌/◌, ◌%◌, ◌^◌, ◌≤◌, ◌<◌, arith, inl, inr, [], ◌∷◌,
}
use native.Mathlib.Nat.{mod-lt}
use rdma_migration_system.Prelude.Tests.{ltb, Bool-cases}
use rdma_migration_system.Prelude.Lists.{length}
use rdma_migration_system.Prelude.Integers.{ℤ, pos, negsuc, IsLong}
use rdma_migration_system.Prelude.Word.{word_mod}
use rdma_migration_system.Records.Order.{Text}
use rdma_migration_system.Records.Decimal.{write_digits, to_string}
use rdma_migration_system.Records.Signed.{int_to_string}
use rdma_migration_system.Records.Fields.{Plain}

write_digits-Plain : (fuel n : ℕ) (after : Text) → Plain after → Plain (write_digits fuel n after)
unfolding write_digits
write_digits-Plain zero n after p = p
write_digits-Plain (suc fuel) n after p =
    let digit : n % 10 < 10 = mod-lt n (omega arith) in
    elim (Bool-cases (ltb n 10)) [
      | inl small ↦ rw small (λ e. absurd (omega (arith, e)), λ e. absurd (omega (arith, e)), p)
      | inr large ↦ rw large (
          write_digits-Plain fuel (n / 10) ((48 + n % 10) ∷ after)
            (λ e. absurd (omega (arith, e)), λ e. absurd (omega (arith, e)), p))
    ]

pub to_string-Plain : (n : ℕ) → Plain (to_string n)
unfolding to_string
to_string-Plain n = write_digits-Plain (suc n) n [] tt

pub int_to_string-Plain : (n : ℤ) → Plain (int_to_string n)
unfolding int_to_string
int_to_string-Plain (pos n) = to_string-Plain n
int_to_string-Plain (negsuc n) =
    (λ e. absurd (omega (arith, e)), λ e. absurd (omega (arith, e)), to_string-Plain (suc n))

write_digits-length :
    (k fuel n : ℕ) (after : Text)
    → n < 10 ^ suc k
    → length (write_digits fuel n after) ≤ suc k + length after
unfolding write_digits
write_digits-length k zero n after bound = omega arith
write_digits-length zero (suc fuel) n after bound = ground (arith, bound)
write_digits-length (suc k) (suc fuel) n after bound =
    ground (arith, bound, write_digits-length k fuel (n / 10) ((48 + n % 10) ∷ after))

pub to_string-length : (n : ℕ) → n < word_mod → length (to_string n) ≤ 20
unfolding to_string
to_string-length n room = write_digits-length 19 (suc n) n [] (omega (arith, room))

pub int_to_string-length : (n : ℤ) → IsLong n → length (int_to_string n) ≤ 21
unfolding int_to_string
int_to_string-length (pos n) room = omega (arith, to_string-length n (omega (arith, room)))
int_to_string-length (negsuc n) room = omega (arith, to_string-length (suc n) (omega (arith, room)))
