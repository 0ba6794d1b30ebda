-- ===== src/Config/Numbers.antt =====
-- `std::stoi` of the C++ library, which reads an `int`.
use rdma_migration_system.Prelude.{
  ℕ, zero, suc, ◌+◌, ◌<◌, ◌≡◌, refl, ◌∙◌, arith, true, false, [], ◌∷◌,
}
use rdma_migration_system.Prelude.Tests.{ltb, lt→ltb, ◌==◌, if◌then◌else◌}
use rdma_migration_system.Prelude.Word.{int_max}
use rdma_migration_system.Prelude.Integers.{ℤ, pos, negsuc, IsLong}
use rdma_migration_system.Prelude.Results.{Result, ok, err, logic_error, out_of_range, ◌>>=◌}
use rdma_migration_system.Records.Order.{Text}
use rdma_migration_system.Records.Decimal.{
  to_string, read_digits, read_number, is_digit, is_space, First, read_digits-to_string,
  to_string-First,
}
use rdma_migration_system.Records.Signed.{int_to_string, minus_sign}

abbrev pub positive_int : ℕ → Result ℤ
positive_int n = if ltb n int_max then ok (pos n) else err out_of_range

abbrev pub negative_int : ℕ → Result ℤ
negative_int zero = ok (pos 0)
negative_int (suc n) = if ltb n int_max then ok (negsuc n) else err out_of_range

unfoldable pub stoi : Text → Result ℤ
unfolding read_digits
stoi [] = err logic_error
stoi (c ∷ cs) =
    let rest = stoi cs in
    if is_space c
    then rest
    else (if c == 43
        then (read_number 10 cs >>= positive_int)
        else (if c == minus_sign
            then (read_number 10 cs >>= negative_int)
            else (read_number 10 (c ∷ cs) >>= positive_int)))

-- The numbers that an `int` holds.
abbrev pub IsInt : ℤ → Type 0
IsInt (pos n) = n < int_max
IsInt (negsuc n) = n < int_max

pub IsInt-IsLong : (n : ℤ) → IsInt n → IsLong n
IsInt-IsLong (pos n) room = omega (arith, room)
IsInt-IsLong (negsuc n) room = omega (arith, room)

record Begins (c : ℕ) : Type 0 where
  no_space : is_space c ≡ false
  no_plus : (c == 43) ≡ false
  no_minus : (c == minus_sign) ≡ false
  ten : is_digit 10 c ≡ true

begins : (c k : ℕ) → c ≡ 48 + k → k < 10 → Begins c
begins c k e small = record {
  no_space = ground arith;
  no_plus = ground arith;
  no_minus = ground arith;
  ten = ground arith;
}

read_number-First : (n : ℕ) (s : Text) → First n s → read_number 10 s ≡ ok (read_digits 10 0 s)
read_number-First n [] first = elim first [ ]
read_number-First n (c ∷ cs) (k, e, small, _) = rw (begins c k e small).ten refl

stoi-First : (n : ℕ) (s : Text) → First n s → stoi s ≡ positive_int (read_digits 10 0 s)
unfolding stoi
stoi-First n [] first = elim first [ ]
stoi-First n (c ∷ cs) (k, e, small, _) =
    let b = begins c k e small in rw (b.no_space, b.no_plus, b.no_minus, b.ten) refl

-- `std::stoi` reads the `int` that `std::to_string` writes.
pub stoi-int_to_string : (n : ℤ) → IsInt n → stoi (int_to_string n) ≡ ok n
unfolding int_to_string stoi
stoi-int_to_string (pos n) room =
    stoi-First n (to_string n) (to_string-First n)
    ∙ rw (read_digits-to_string n, lt→ltb n int_max room) refl
stoi-int_to_string (negsuc n) room =
    rw
      (
        read_number-First (suc n) (to_string (suc n)) (to_string-First (suc n)),
        read_digits-to_string (suc n),
        lt→ltb n int_max room,
      )
      refl
