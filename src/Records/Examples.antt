-- ===== src/Records/Examples.antt =====
-- A segment's record and a server's list as texts, read again.
use rdma_migration_system.Prelude.{◌≡◌, refl, some, List, [], ◌∷◌}
use rdma_migration_system.Prelude.Results.{ok}
use rdma_migration_system.Prelude.Integers.{ℤ, pos, negsuc}
use rdma_migration_system.Prelude.Maps.{Map}
use rdma_migration_system.Records.{
  map_to_zs, zs_to_map, read_map, take_pair, take_field, zs_to_process_list, read_list,
  process_list_to_zs,
}
use rdma_migration_system.Records.Decimal.{to_string, write_digits, read_digits}
use rdma_migration_system.Records.Order.{Text}
use rdma_migration_system.Records.Signed.{int_to_string, atol}

-- "si": "42", "so": ""
abbrev entries : Map Text Text
entries = (115 ∷ 105 ∷ [], 52 ∷ 50 ∷ []) ∷ (115 ∷ 111 ∷ [], []) ∷ []

entries_read : zs_to_map (map_to_zs entries) ≡ some (ok entries)
unfolding zs_to_map map_to_zs read_map take_pair take_field
entries_read = refl

abbrev ids : List ℤ
ids = pos 120 ∷ negsuc 4 ∷ pos 0 ∷ []

ids_read : zs_to_process_list (process_list_to_zs ids) ≡ some (ok ids)
unfolding zs_to_process_list process_list_to_zs read_list take_field int_to_string to_string
    write_digits atol read_digits
ids_read = refl
