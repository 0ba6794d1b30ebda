-- ===== src/Records.antt =====
-- include/utils/miscutils.hpp: the texts in which maps and lists of numbers are kept in ZooKeeper. A text is a list of
-- characters, as numbers; it is shorter than 2 ^ 31, so the `int` indices do not wrap.
pub mod Order
pub mod Decimal
pub mod Signed
pub mod Unsigned
pub mod Fields
pub mod Ids
pub mod Digits
pub mod Sorted
mod Examples
use rdma_migration_system.Prelude.{
  ℕ, zero, suc, Option, some, none, Bool, true, false, List, [], ◌∷◌, ◌++◌,
}
use rdma_migration_system.Prelude.Tests.{◌==◌, if◌then◌else◌}
use rdma_migration_system.Prelude.Lists.{length}
use rdma_migration_system.Prelude.Results.{Result, ok, err, out_of_range, ◌>>=◌}
use rdma_migration_system.Prelude.Maps.{Map, insert}
use rdma_migration_system.Prelude.Integers.{ℤ}
use Order.{Text, text_key}
use Signed.{int_to_string, atol}

abbrev pub comma : ℕ
comma = 44

-- `append(s.c_str())` stops at a zero.
abbrev pub c_str : Text → Text
c_str [] = []
c_str (c ∷ cs) = if c == 0 then [] else c ∷ c_str cs

-- `MAPtoZS`
unfoldable pub map_to_zs : Map Text Text → Text
map_to_zs [] = []
map_to_zs ((key, val) ∷ m) = c_str key ++ (comma ∷ (c_str val ++ (comma ∷ map_to_zs m)))

-- The loop that looks for the end of a field, and the field; `at` throws behind the end.
unfoldable pub take_field : Text → Result (Text × Text)
take_field [] = err out_of_range
take_field (c ∷ cs) =
    let rest = take_field cs in
    if c == comma then ok ([], cs) else (do (field, after) ← rest; ok (c ∷ field, after))

-- A round of the loop of `ZStoMAP`: a key, a value, and what is behind them.
unfoldable pub take_pair : Text → Result (Text × Text × Text)
unfolding take_field
take_pair input = do
  (key, rest) ← take_field input
  (val, rest') ← take_field rest
  ok (key, val, rest')

-- The loop of `ZStoMAP`; `none` is a loop that goes on after `fuel` rounds.
unfoldable pub read_map : ℕ → Text → Map Text Text → Option (Result (Map Text Text))
read_map fuel [] res = some (ok res)
read_map zero (c ∷ cs) res = none
read_map (suc fuel) (c ∷ cs) res = elim (take_pair (c ∷ cs)) [
  | err e ↦ some (err e)
  | ok (key, val, rest) ↦ read_map fuel rest (insert key val res)
]

-- `ZStoMAP`
unfoldable pub zs_to_map : Text → Option (Result (Map Text Text))
unfolding read_map
zs_to_map input = read_map (length input) input []

-- The loop of `ZStoProcessList`; `none` is a loop that goes on after `fuel` rounds.
unfoldable pub read_list : ℕ → Text → List ℤ → Option (Result (List ℤ))
unfolding take_field
read_list fuel [] res = some (ok res)
read_list zero (c ∷ cs) res = none
read_list (suc fuel) (c ∷ cs) res = elim (take_field (c ∷ cs)) [
  | err e ↦ some (err e)
  | ok (id, rest) ↦ read_list fuel rest (res ++ (atol (c_str id) ∷ []))
]

-- `ZStoProcessList`
unfoldable pub zs_to_process_list : Text → Option (Result (List ℤ))
unfolding read_list
zs_to_process_list str = read_list (length str) str []

-- `ProcessListtoZS`
unfoldable pub process_list_to_zs : List ℤ → Text
process_list_to_zs [] = []
process_list_to_zs (id ∷ vec) = int_to_string id ++ (comma ∷ process_list_to_zs vec)
