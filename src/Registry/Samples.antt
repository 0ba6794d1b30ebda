-- ===== src/Registry/Samples.antt =====
-- A segment of one server, in a service in memory.
use rdma_migration_system.Prelude.{◌≡◌, refl, ◌⊎◌, arith, some, none, true, [], ◌∷◌, map}
use rdma_migration_system.Prelude.Results.{ok}
use rdma_migration_system.Prelude.Integers.{pos, negsuc}
use rdma_migration_system.Records.{process_list_to_zs, map_to_zs}
use rdma_migration_system.Records.Decimal.{write_digits, to_string}
use rdma_migration_system.Records.Signed.{int_to_string}
use rdma_migration_system.Registry.{allocator_node}
use rdma_migration_system.Registry.Segments.{segment_path}
use rdma_migration_system.Registry.Spec.{
  SegmentInfo, IsValid, entries_of, Registered, assign, Represents,
}
use rdma_migration_system.Registry.Entries.{entries_of-Storable}
use rdma_migration_system.Registry.Refinement.{Represents-assign}
use rdma_migration_system.Registry.Processes.{
  process_path, remove_from_process_list, get_partitions_for_process,
}
use rdma_migration_system.Registry.Partitions.{
  Lists, Relisted, ListFails, entries_if_any, remove_from_process_list-Lists,
  get_partitions_for_process-Lists,
}
use rdma_migration_system.Zoo.{get, filled, create as create_node}
use rdma_migration_system.Zoo.Service.{Memory, memory_client}

-- Server 2 has its list, with segment 7 on it, and server 3 has an empty one; no segment has a record
-- yet.
abbrev pub started : Memory
started =
    (allocator_node, (some (to_string 4096), 1))
    ∷ (process_path (pos 2), (some (process_list_to_zs (pos 7 ∷ [])), 1))
    ∷ (process_path (pos 3), (some [], 1))
    ∷ []

abbrev pub nobody : Registered
nobody id = none

pub started-Represents : Represents memory_client started nobody
unfolding get filled int_to_string to_string write_digits
started-Represents id long = refl

abbrev pub segment : SegmentInfo
segment = record {
  address = 4096;
  size = 512;
  source = pos 2;
  destination = some (negsuc 0);
  client = pos 7;
}

segment-IsValid : IsValid segment
segment-IsValid = record {
  address_fits = omega arith;
  size_fits = omega arith;
  source_fits = omega arith;
  client_fits = omega arith;
}

abbrev pub recorded : Memory
recorded = (memory_client.create started (segment_path (pos 7)) (map_to_zs (entries_of segment))).0

abbrev pub one_segment : Registered
one_segment = assign (pos 7) (some segment) nobody

pub recorded-Represents : Represents memory_client recorded one_segment
unfolding create_node get filled int_to_string to_string write_digits map_to_zs
recorded-Represents =
    let text = map_to_zs (entries_of segment) in
    let (_, (v, stored), others) =
      memory_client.create_taken started (segment_path (pos 7)) text refl in
    Represents-assign memory_client started recorded nobody (pos 7) (some segment) (omega arith)
      started-Represents
      (
        segment-IsValid,
        omega arith,
        (v, stored (entries_of-Storable segment segment-IsValid (omega arith))),
      )
      others

pub recorded-Lists : Lists memory_client recorded (pos 2) (pos 7 ∷ [])
unfolding create_node get filled int_to_string to_string write_digits process_list_to_zs map_to_zs
recorded-Lists = ((omega arith, tt), omega arith, (1, refl))

get_partitions_for_process-Lists_example :
    get_partitions_for_process memory_client recorded (pos 2)
    ≡ ok (map (λ id. entries_if_any (one_segment id)) (pos 7 ∷ []))
get_partitions_for_process-Lists_example =
    get_partitions_for_process-Lists memory_client recorded one_segment (pos 2) (pos 7 ∷ [])
      recorded-Lists recorded-Represents

pub newcomer-Lists : Lists memory_client recorded (pos 3) []
unfolding create_node get filled int_to_string to_string write_digits process_list_to_zs map_to_zs
newcomer-Lists = (tt, omega arith, (1, refl))

pub newcomer-started : Lists memory_client started (pos 3) []
unfolding get filled int_to_string to_string write_digits process_list_to_zs
newcomer-started = (tt, omega arith, (1, refl))

remove_from_process_list-Lists_example :
    (z' : Memory) × (remove_from_process_list memory_client (pos 2) recorded (pos 7)
      ≡ ok (z', true))
    × (Relisted memory_client recorded z' (pos 2) []
        ⊎ (ListFails memory_client recorded (pos 2) [] × (z' ≡ recorded)))
remove_from_process_list-Lists_example =
    remove_from_process_list-Lists memory_client recorded (pos 2) (pos 7) (pos 7 ∷ [])
      recorded-Lists
