-- ===== src/Records/Signed.antt =====
-- `std::to_string` of an `int64_t`, and `atol`, which reads it.
use rdma_migration_system.Prelude.{
  ℕ, zero, suc, ◌+◌, ◌≤◌, ◌<◌, ◌≡◌, refl, ◌∙◌, ap, arith, [], ◌∷◌, false,
}
use rdma_migration_system.Prelude.Tests.{ltb, ◌==◌, if◌then◌else◌}
use rdma_migration_system.Prelude.Integers.{ℤ, pos, negsuc, long_max, IsLong}
use rdma_migration_system.Records.Order.{Text}
use rdma_migration_system.Records.Decimal.{
  to_string, read_digits, is_space, First, read_digits-to_string, to_string-First,
}

abbrev pub minus_sign : ℕ
minus_sign = 45

unfoldable pub int_to_string : ℤ → Text
int_to_string (pos n) = to_string n
int_to_string (negsuc n) = minus_sign ∷ to_string (suc n)

-- A number that does not fit becomes the nearest one that does.
abbrev at_most_long : ℕ → ℕ
at_most_long n = if ltb long_max n then long_max else n

abbrev positive : ℕ → ℤ
positive n = pos (at_most_long n)

abbrev negative : ℕ → ℤ
negative zero = pos 0
negative (suc n) = negsuc (at_most_long n)

-- Spaces, a sign, and the digits up to the first other character.
unfoldable pub atol : Text → ℤ
unfolding read_digits
atol [] = pos 0
atol (c ∷ cs) =
    let rest = atol cs in
    if is_space c
    then rest
    else (if c == 43
        then positive (read_digits 10 0 cs)
        else (if c == minus_sign
            then negative (read_digits 10 0 cs)
            else positive (read_digits 10 0 (c ∷ cs))))

record Starts (c : ℕ) : Type 0 where
  no_space : is_space c ≡ false
  no_plus : (c == 43) ≡ false
  no_minus : (c == minus_sign) ≡ false

starts : (c k : ℕ) → c ≡ 48 + k → k < 10 → Starts c
starts c k e small = record {
  no_space = ground arith;
  no_plus = ground arith;
  no_minus = ground arith;
}

at_most_long-IsLong : (n : ℕ) → n ≤ long_max → at_most_long n ≡ n
at_most_long-IsLong n room = ground arith

atol-First : (n : ℕ) (s : Text) → First n s → atol s ≡ positive (read_digits 10 0 s)
unfolding atol
atol-First n [] first = elim first [ ]
atol-First n (c ∷ cs) (k, e, small, _) =
    let l = starts c k e small in rw (l.no_space, l.no_plus, l.no_minus) refl

-- `atol` reads the `int64_t` that `std::to_string` wrote.
pub atol-int_to_string : (n : ℤ) → IsLong n → atol (int_to_string n) ≡ n
unfolding int_to_string atol
atol-int_to_string (pos n) room =
    atol-First n (to_string n) (to_string-First n)
    ∙ (ap positive (read_digits-to_string n) ∙ ap pos (at_most_long-IsLong n room))
atol-int_to_string (negsuc n) room =
    ap negative (read_digits-to_string (suc n)) ∙ ap negsuc (at_most_long-IsLong n room)
