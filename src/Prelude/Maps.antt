-- ===== src/Prelude/Maps.antt =====
-- `std::map` and `std::unordered_map` as association lists. The keys rise along the list, which is
-- the order in which `std::map` is walked; of `std::unordered_map` it is one order of many.
use Prim.Native.Nat.{ℕ}
use mathlib.Core.Path.{◌≡◌, refl}
use mathlib.Core.Logic.{◌↔◌}
use mathlib.Core.Bool.{Bool, true}
use mathlib.Core.Option.{Option, none, some}
use mathlib.Core.List.{List, [], ◌∷◌}
use native.Mathlib.Omega.{arith}
use rdma_migration_system.Prelude.Tests.{ltb, ◌==◌, if◌then◌else◌, ==_iff}

pub record Key {ℓ} (K : Type ℓ) : Type ℓ where
  pub beq : K → K → Bool
  pub blt : K → K → Bool
  pub beq_iff : (a b : K) → (beq a b ≡ true) ↔ (a ≡ b)

instance abbrev pub nat_key : Key ℕ
nat_key = record { beq = λ a b. a == b; blt = λ a b. ltb a b; beq_iff = ==_iff }

abbrev pub Map {ℓ κ} : Type ℓ → Type κ → Type (ℓ ⊔ κ)
Map K V = List (K × V)

module _ {ℓ κ} {K : Type ℓ} {V : Type κ} ⦃o : Key K⦄ where
  -- `find`, with `none` for `end()`.
  abbrev pub lookup : K → Map K V → Option V
  lookup k [] = none
  lookup k ((j, v) ∷ m) = if o.beq j k then some v else lookup k m

  -- `m[k] = v`
  abbrev pub insert : K → V → Map K V → Map K V
  insert k v [] = (k, v) ∷ []
  insert k v ((j, w) ∷ m) =
      if o.beq j k
      then (k, v) ∷ m
      else (if o.blt k j then (k, v) ∷ (j, w) ∷ m else (j, w) ∷ insert k v m)

  abbrev pub erase : K → Map K V → Map K V
  erase k [] = []
  erase k ((j, v) ∷ m) = if o.beq j k then erase k m else (j, v) ∷ erase k m

  pub lookup-insert :
      (k j : K) (v : V) (m : Map K V)
      → lookup j (insert k v m) ≡ (if o.beq k j then some v else lookup j m)
  lookup-insert k j v [] = refl
  lookup-insert k j v ((i, w) ∷ m) =
      ground (arith, o.beq_iff k j, o.beq_iff i k, o.beq_iff i j, lookup-insert k j v m)

  pub lookup-erase :
      (k j : K) (m : Map K V) → lookup j (erase k m) ≡ (if o.beq k j then none else lookup j m)
  lookup-erase k j [] = ground arith
  lookup-erase k j ((i, w) ∷ m) =
      ground (arith, o.beq_iff k j, o.beq_iff i k, o.beq_iff i j, lookup-erase k j m)
