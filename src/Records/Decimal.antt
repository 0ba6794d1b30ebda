-- ===== src/Records/Decimal.antt =====
-- `std::to_string` and `std::stoul(text, &size, 0)` of the C++ library, as the code uses them on
-- addresses: the number of a text is written in base 10, and read in base 16, 8 or 10 by its prefix.
use native.Mathlib.Nat.{div-add-mod, mod-lt}
use rdma_migration_system.Prelude.{
  ℕ, zero, suc, ◌+◌, ◌-◌, ◌*◌, ◌/◌, ◌%◌, ◌<◌, ◌≡◌, refl, ◌∙◌, ap, inl, inr, arith, Bool, true,
  false, ◌&&◌, ◌||◌, [], ◌∷◌,
}
use rdma_migration_system.Prelude.Tests.{
  ltb, leb, ltb→lt, lt→ltb, ltb→le, ◌==◌, if◌then◌else◌, Bool-cases,
}
use rdma_migration_system.Prelude.Word.{word_mod, sub64}
use rdma_migration_system.Prelude.Results.{Result, ok, err, logic_error, out_of_range, ◌>>=◌}
use rdma_migration_system.Records.Order.{Text}

-- The digits of `n` before `after`; `fuel` is at least the number of digits.
unfoldable pub write_digits : ℕ → ℕ → Text → Text
write_digits zero n after = after
write_digits (suc fuel) n after =
    let longer = write_digits fuel (n / 10) ((48 + n % 10) ∷ after) in
    if ltb n 10 then (48 + n) ∷ after else longer

unfoldable pub to_string : ℕ → Text
unfolding write_digits
to_string n = write_digits (suc n) n []

-- What a character counts for; 255 is no digit.
abbrev pub digit : ℕ → ℕ
digit c =
    if leb 48 c && leb c 57
    then c - 48
    else (if leb 97 c && leb c 122 then c - 87 else (if leb 65 c && leb c 90 then c - 55 else 255))

abbrev pub is_digit : ℕ → ℕ → Bool
is_digit base c = ltb (digit c) base

unfoldable pub read_digits : ℕ → ℕ → Text → ℕ
read_digits base n [] = n
read_digits base n (c ∷ cs) =
    let rest = read_digits base (n * base + digit c) cs in if is_digit base c then rest else n

abbrev pub read_number : ℕ → Text → Result ℕ
read_number base [] = err logic_error
read_number base (c ∷ cs) =
    if is_digit base c then ok (read_digits base 0 (c ∷ cs)) else err logic_error

-- The base by the prefix.
abbrev pub read_prefixed : Text → Result ℕ
read_prefixed [] = err logic_error
read_prefixed (z ∷ x ∷ c ∷ cs) =
    if z == 48
    then (if (x == 120 || x == 88) && is_digit 16 c
        then read_number 16 (c ∷ cs)
        else read_number 8 (z ∷ x ∷ c ∷ cs))
    else read_number 10 (z ∷ x ∷ c ∷ cs)
read_prefixed (z ∷ cs) = if z == 48 then read_number 8 (z ∷ cs) else read_number 10 (z ∷ cs)

abbrev pub is_space : ℕ → Bool
is_space c = c == 32 || leb 9 c && leb c 13

abbrev pub in_range : ℕ → Result ℕ
in_range n = if ltb n word_mod then ok n else err out_of_range

unfoldable pub stoul : Text → Result ℕ
unfolding read_digits
stoul [] = err logic_error
stoul (c ∷ cs) =
    let rest = stoul cs in
    if is_space c
    then rest
    else (if c == 43
        then (read_prefixed cs >>= in_range)
        else (if c == 45
            then (do n ← read_prefixed cs >>= in_range; ok (sub64 0 n))
            else (read_prefixed (c ∷ cs) >>= in_range)))

-- `std::stoull`, which reads in base 10.
unfoldable pub stoull : Text → Result ℕ
unfolding read_digits
stoull [] = err logic_error
stoull (c ∷ cs) =
    let rest = stoull cs in
    if is_space c
    then rest
    else (if c == 43
        then (read_number 10 cs >>= in_range)
        else (if c == 45
            then (do n ← read_number 10 cs >>= in_range; ok (sub64 0 n))
            else (read_number 10 (c ∷ cs) >>= in_range)))

digit-digit : (k : ℕ) → k < 10 → digit (48 + k) ≡ k
digit-digit k h = ground arith

read_digits-digit :
    (n k : ℕ) (after : Text)
    → k < 10
    → read_digits 10 n ((48 + k) ∷ after) ≡ read_digits 10 (n * 10 + k) after
unfolding read_digits
read_digits-digit n k after h = rw (digit-digit k h, lt→ltb k 10 h) refl

write_digits-read :
    (fuel n : ℕ) (after : Text)
    → n < fuel
    → read_digits 10 0 (write_digits fuel n after) ≡ read_digits 10 n after
unfolding write_digits
write_digits-read zero n after enough = elim enough [ ]
write_digits-read (suc fuel) n after enough =
    let whole : n / 10 * 10 + n % 10 ≡ n = omega (arith, div-add-mod n 10) in
    elim (Bool-cases (ltb n 10)) [
      | inl small ↦
          rw (small, write_digits)
            (read_digits-digit 0 n after (ltb→lt n 10 small)
              ∙ ap (λ k. read_digits 10 k after) (omega arith))
      | inr large ↦
          let last = (48 + n % 10) ∷ after in
          rw (large, write_digits)
            (write_digits-read fuel (n / 10) last (ground (arith, ltb→le n 10 large, whole, enough))
              ∙ (read_digits-digit (n / 10) (n % 10) after (mod-lt n (omega arith))
                  ∙ ap (λ k. read_digits 10 k after) whole))
    ]

-- The first digit of a number is a digit, and zero for zero only.
abbrev pub First : ℕ → Text → Type 0
First n [] = ⊥
First n (c ∷ cs) = (k : ℕ) × (c ≡ 48 + k) × (k < 10) × (0 < n → 0 < k)

First-grow : (m n : ℕ) (s : Text) → (0 < n → 0 < m) → First m s → First n s
First-grow m n [] grows first = first
First-grow m n (c ∷ cs) grows (k, e, small, large) = (k, e, small, λ h. large (grows h))

write_digits-First : (fuel n : ℕ) (after : Text) → n < fuel → First n (write_digits fuel n after)
unfolding write_digits
write_digits-First zero n after enough = elim enough [ ]
write_digits-First (suc fuel) n after enough = elim (Bool-cases (ltb n 10)) [
  | inl small ↦ rw small (n, refl, ltb→lt n 10 small, λ h. h)
  | inr large ↦ rw large (
      First-grow (n / 10) n (write_digits fuel (n / 10) ((48 + n % 10) ∷ after))
        (λ _. ground (arith, ltb→le n 10 large))
        (write_digits-First fuel (n / 10) ((48 + n % 10) ∷ after)
          (ground (arith, ltb→le n 10 large, enough))))
]

-- A digit that is not zero is no space, no sign and no prefix.
record Leads (c : ℕ) : Type 0 where
  no_space : is_space c ≡ false
  no_plus : (c == 43) ≡ false
  no_minus : (c == 45) ≡ false
  no_zero : (c == 48) ≡ false
  ten : is_digit 10 c ≡ true

leads : (c k : ℕ) → c ≡ 48 + k → k < 10 → 0 < k → Leads c
leads c k e small some_digit = record {
  no_space = ground arith;
  no_plus = ground arith;
  no_minus = ground arith;
  no_zero = ground arith;
  ten = ground arith;
}

read_prefixed-Leads :
    (c : ℕ) (cs : Text) → Leads c → read_prefixed (c ∷ cs) ≡ ok (read_digits 10 0 (c ∷ cs))
read_prefixed-Leads c [] l = rw (l.no_zero, l.ten) refl
read_prefixed-Leads c (d ∷ []) l = rw (l.no_zero, l.ten) refl
read_prefixed-Leads c (d ∷ f ∷ cs) l = rw (l.no_zero, l.ten) refl

stoul-First : (n : ℕ) (s : Text) → 0 < n → First n s → stoul s ≡ in_range (read_digits 10 0 s)
unfolding stoul
stoul-First n [] some_number first = elim first [ ]
stoul-First n (c ∷ cs) some_number (k, e, small, large) =
    let l = leads c k e small (large some_number) in
    rw (l.no_space, l.no_plus, l.no_minus, read_prefixed-Leads c cs l) refl

pub read_digits-to_string : (n : ℕ) → read_digits 10 0 (to_string n) ≡ n
unfolding to_string read_digits
read_digits-to_string n = write_digits-read (suc n) n [] (omega arith)

pub to_string-First : (n : ℕ) → First n (to_string n)
unfolding to_string
to_string-First n = write_digits-First (suc n) n [] (omega arith)

zero_read : stoul (to_string 0) ≡ ok 0
unfolding stoul to_string write_digits read_digits
zero_read = refl

-- `std::stoul` reads the number below 2 ^ 64 that `std::to_string` wrote.
pub stoul-to_string : (n : ℕ) → n < word_mod → stoul (to_string n) ≡ ok n
unfolding to_string read_digits
stoul-to_string zero room = zero_read
stoul-to_string (suc n) room =
    stoul-First (suc n) (to_string (suc n)) (omega arith)
      (write_digits-First (suc (suc n)) (suc n) [] (omega arith))
    ∙ rw (write_digits-read (suc (suc n)) (suc n) [] (omega arith), to_string)
        (rw (lt→ltb (suc n) word_mod room) refl)
