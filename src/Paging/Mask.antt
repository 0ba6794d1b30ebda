-- ===== src/Paging/Mask.antt =====
-- `address & ~(page_size - 1)` for a page size that is a power of two, as arithmetic.
use Prim.Native.Nat.{min, bit_and, digits, bit_and-bitwise}
use native.Mathlib.Nat.{pow-suc, one-le-pow}
use rdma_migration_system.Prelude.{
  ℕ, zero, suc, ◌+◌, ◌-◌, ◌*◌, ◌/◌, ◌%◌, ◌^◌, ◌≤◌, ◌<◌, ◌≡◌, refl, ap, arith,
}

abbrev anded : ℕ → ℕ → ℕ → ℕ
anded n a b = digits (λ _. 0) min n a b

anded_fuel : (n m a b : ℕ) → a ≤ n → a ≤ m → anded n a b ≡ anded m a b
anded_fuel zero zero a b p q = refl
anded_fuel zero (suc m) zero b p q = refl
anded_fuel zero (suc m) (suc a) b p q = absurd (omega arith)
anded_fuel (suc n) zero zero b p q = refl
anded_fuel (suc n) zero (suc a) b p q = absurd (omega arith)
anded_fuel (suc n) (suc m) zero b p q = refl
anded_fuel (suc n) (suc m) (suc a) b p q =
    omega (arith, anded_fuel n m (suc a / 2) (b / 2) (omega arith) (omega arith))

-- One binary digit.
bit_and-step : (a b : ℕ) → bit_and a b ≡ bit_and (a / 2) (b / 2) * 2 + min (a % 2) (b % 2)
bit_and-step zero b = omega (arith, bit_and-bitwise 0 b, bit_and-bitwise 0 (b / 2))
bit_and-step (suc a) b = omega (
  arith,
  bit_and-bitwise (suc a) b,
  bit_and-bitwise (suc a / 2) (b / 2),
  anded_fuel a (suc a / 2) (suc a / 2) (b / 2) (omega arith) (omega arith),
)

-- Ones in `n` places keep a number of `n` digits.
bit_and-ones : (n a m : ℕ) → m ≡ 2 ^ n → a < m → bit_and a (m - 1) ≡ a
bit_and-ones zero zero m e h = omega (arith, bit_and-bitwise 0 (m - 1))
bit_and-ones zero (suc a) m e h = absurd (omega arith)
bit_and-ones (suc n) a m e h = omega (
  arith,
  bit_and-step a (m - 1),
  bit_and-ones n (a / 2) (m / 2) (omega (arith, pow-suc 2 n)) (omega (arith, pow-suc 2 n)),
  ap (λ (t : ℕ). bit_and (a / 2) t) halves,
  pow-suc 2 n,
  one-le-pow n 2,
)
  where
    halves : (m - 1) / 2 ≡ m / 2 - 1
    halves = omega (arith, pow-suc 2 n, one-le-pow n 2)

-- `k` zeros below ones clear the low `k` digits, `r` here.
bit_and-high :
    (k n q r d m a : ℕ)
    → d ≡ 2 ^ k
    → m ≡ d * 2 ^ n
    → a ≡ q * d + r
    → r < d
    → a < m
    → bit_and a (m - d) ≡ q * d
bit_and-high zero n q r d m a ed em ea hr ha =
    let d1 : d ≡ 1 = omega (arith, ed) in
    omega (
      arith,
      ap (λ (t : ℕ). t * 2 ^ n) d1,
      ap (λ (t : ℕ). q * t) d1,
      ap (λ (t : ℕ). bit_and a (m - t)) d1,
      bit_and-ones n a m (omega (arith, em, ap (λ (t : ℕ). t * 2 ^ n) d1)) ha,
    )
bit_and-high (suc k) n q r d m a ed em ea hr ha = omega (
  arith,
  bit_and-step a (m - d),
  bit_and-high k n q (r / 2) (d / 2) (m / 2) (a / 2) half_d half_m half_a (omega (arith, double))
      (omega (arith, double, twice_m)),
  ap (λ (t : ℕ). bit_and (a / 2) t) halves,
  ap (λ (t : ℕ). q * t) double,
  twice_m,
)
  where
    half_d : d / 2 ≡ 2 ^ k
    half_d = omega (arith, ed, pow-suc 2 k)

    double : d ≡ 2 * (d / 2)
    double = omega (arith, ed, pow-suc 2 k)

    twice_m : m ≡ 2 * (d / 2 * 2 ^ n)
    twice_m = omega (arith, em, ap (λ (t : ℕ). t * 2 ^ n) double)

    half_m : m / 2 ≡ d / 2 * 2 ^ n
    half_m = omega (arith, twice_m)

    half_a : a / 2 ≡ q * (d / 2) + r / 2
    half_a = omega (arith, ea, double, ap (λ (t : ℕ). q * t) double)

    halves : (m - d) / 2 ≡ m / 2 - d / 2
    halves = omega (arith, double, twice_m)

two-pow-add : (k j m : ℕ) → m ≡ k + j → 2 ^ m ≡ 2 ^ k * 2 ^ j
two-pow-add zero j m e = let e' : m ≡ j = omega arith in rw e' (omega arith)
two-pow-add (suc k) j m e =
    let e' : m ≡ suc (k + j) = omega arith in
    rw e' (
      omega (
        arith,
        pow-suc 2 (k + j),
        pow-suc 2 k,
        ap (λ (t : ℕ). t * 2 ^ j) (pow-suc 2 k),
        two-pow-add k j (k + j) refl,
      ))

-- The mask of a page of `2 ^ k` bytes clears the offset in the page.
pub bit_and-page : (k a : ℕ) → k ≤ 63 → a < 2 ^ 64 → bit_and a (2 ^ 64 - 2 ^ k) ≡ a / 2 ^ k * 2 ^ k
bit_and-page k a hk ha =
    bit_and-high k (64 - k) (a / 2 ^ k) (a % 2 ^ k) (2 ^ k) (2 ^ 64) a refl
      (two-pow-add k (64 - k) 64 (omega arith)) (grind (arith, one-le-pow k 2))
      (grind (arith, one-le-pow k 2)) ha
