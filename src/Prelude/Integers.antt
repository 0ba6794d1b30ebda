-- ===== src/Prelude/Integers.antt =====
-- The signed numbers of `int` and `int64_t`, over the native numbers.
use Prim.Native.Nat.{ℕ, ◌-◌, ◌≤◌, ◌^◌}
use mathlib.Core.Path.{◌≡◌}
use mathlib.Core.Logic.{◌↔◌}
use mathlib.Core.Bool.{Bool, true, false}
use native.Mathlib.Omega.{arith}
use rdma_migration_system.Prelude.Tests.{◌==◌, ==_iff}

-- `negsuc n` is -1 - n.
pub data ℤ : Type 0 where
  pos negsuc : ℕ → ℤ

abbrev pub long_max : ℕ
long_max = 2 ^ 63 - 1

-- The numbers that an `int64_t` holds.
abbrev pub IsLong : ℤ → Type 0
IsLong (pos n) = n ≤ long_max
IsLong (negsuc n) = n ≤ long_max

abbrev pub int_beq : ℤ → ℤ → Bool
int_beq (pos a) (pos b) = a == b
int_beq (negsuc a) (negsuc b) = a == b
int_beq _ _ = false

pub int_beq_iff : (a b : ℤ) → (int_beq a b ≡ true) ↔ (a ≡ b)
int_beq_iff (pos a) (pos b) = (λ e. ground (arith, ==_iff a b), λ e. ground (arith, ==_iff a b))
int_beq_iff (negsuc a) (negsuc b) =
    (λ e. ground (arith, ==_iff a b), λ e. ground (arith, ==_iff a b))
int_beq_iff (pos a) (negsuc b) = (λ e. ground arith, λ e. ground arith)
int_beq_iff (negsuc a) (pos b) = (λ e. ground arith, λ e. ground arith)
