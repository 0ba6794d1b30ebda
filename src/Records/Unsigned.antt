-- ===== src/Records/Unsigned.antt =====
-- `std::stoull` of the C++ library on the numbers that `std::to_string` writes.
use rdma_migration_system.Prelude.{ℕ, ◌+◌, ◌<◌, ◌≡◌, refl, ◌∙◌, arith, true, false, [], ◌∷◌}
use rdma_migration_system.Prelude.Tests.{◌==◌, lt→ltb}
use rdma_migration_system.Prelude.Word.{word_mod}
use rdma_migration_system.Prelude.Results.{ok}
use rdma_migration_system.Records.Order.{Text}
use rdma_migration_system.Records.Decimal.{
  to_string, stoull, read_digits, is_digit, is_space, in_range, First, read_digits-to_string,
  to_string-First,
}

record Opens (c : ℕ) : Type 0 where
  no_space : is_space c ≡ false
  no_plus : (c == 43) ≡ false
  no_minus : (c == 45) ≡ false
  ten : is_digit 10 c ≡ true

opens : (c k : ℕ) → c ≡ 48 + k → k < 10 → Opens c
opens c k e small = record {
  no_space = ground arith;
  no_plus = ground arith;
  no_minus = ground arith;
  ten = ground arith;
}

stoull-First : (n : ℕ) (s : Text) → First n s → stoull s ≡ in_range (read_digits 10 0 s)
unfolding stoull
stoull-First n [] first = elim first [ ]
stoull-First n (c ∷ cs) (k, e, small, _) =
    let o = opens c k e small in rw (o.no_space, o.no_plus, o.no_minus, o.ten) refl

-- `std::stoull` reads the number below 2 ^ 64 that `std::to_string` wrote.
pub stoull-to_string : (n : ℕ) → n < word_mod → stoull (to_string n) ≡ ok n
stoull-to_string n room =
    stoull-First n (to_string n) (to_string-First n)
    ∙ rw (read_digits-to_string n, lt→ltb n word_mod room) refl
