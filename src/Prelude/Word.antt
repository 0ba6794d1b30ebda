-- ===== src/Prelude/Word.antt =====
-- `size_t` and `uintptr_t`: numbers below 2 ^ 64, with sums, differences and products that wrap.
use Prim.Native.Nat.{ℕ, ◌+◌, ◌-◌, ◌*◌, ◌%◌, ◌^◌, ◌<◌}
use mathlib.Core.Path.{◌≡◌}
use native.Mathlib.Nat.{mod-eq_of_lt}
use native.Mathlib.Omega.{arith}
use rdma_migration_system.Prelude.Tests.{ltb, if◌then◌else◌}

abbrev pub word_mod : ℕ
word_mod = 2 ^ 64

abbrev pub add64 : ℕ → ℕ → ℕ
add64 a b = (a + b) % word_mod

abbrev pub sub64 : ℕ → ℕ → ℕ
sub64 a b = (a + word_mod - b) % word_mod

abbrev pub mul64 : ℕ → ℕ → ℕ
mul64 a b = a * b % word_mod

-- `~a`
abbrev pub not64 : ℕ → ℕ
not64 a = word_mod - 1 - a

abbrev pub int_max : ℕ
int_max = 2 ^ 31

-- A `size_t` stored in an `int` and read as an index again: the low 32 bits, sign-extended.
abbrev pub as_int : ℕ → ℕ
as_int q = if ltb (q % 2 ^ 32) int_max then q % 2 ^ 32 else q % 2 ^ 32 + (word_mod - 2 ^ 32)

pub mul64_small : (a b : ℕ) → a * b < word_mod → mul64 a b ≡ a * b
mul64_small a b h = mod-eq_of_lt h

pub as_int_small : (q : ℕ) → q < int_max → as_int q ≡ q
as_int_small q h = ground arith
