-- ===== src/Registry/Processes.antt =====
-- src/distributed-allocator/RDMAMemNode.tpp, built with FAULT_TOLERANT: the list of the segments
-- that a server has, and the records of the segments on it.
use rdma_migration_system.Prelude.{some, none, Bool, true, false, List, [], ◌∷◌, ◌++◌}
use rdma_migration_system.Prelude.Tests.{if◌then◌else◌}
use rdma_migration_system.Prelude.Results.{Result, ok, uninitialised, or_fault, ◌>>=◌}
use rdma_migration_system.Prelude.Integers.{ℤ, int_beq}
use rdma_migration_system.Prelude.Maps.{Map}
use rdma_migration_system.Records.{comma, zs_to_process_list, process_list_to_zs}
use rdma_migration_system.Records.Order.{Text}
use rdma_migration_system.Records.Signed.{int_to_string}
use rdma_migration_system.Registry.{ZooKeeper}
use rdma_migration_system.Registry.Segments.{finished, read_node, get_memory_segment}

-- "/process/", the node of the servers and the `"/"` behind it.
abbrev pub process_prefix : Text
process_prefix = 47 ∷ 112 ∷ 114 ∷ 111 ∷ 99 ∷ 101 ∷ 115 ∷ 115 ∷ 47 ∷ []

abbrev pub process_path : ℤ → Text
process_path server_id = process_prefix ++ int_to_string server_id

-- `vec.erase(std::remove(vec.begin(), vec.end(), id), vec.end())`
abbrev pub without : ℤ → List ℤ → List ℤ
without id [] = []
without id (x ∷ xs) = if int_beq x id then without id xs else x ∷ without id xs

module _ {Z : Type 0} (zk : ZooKeeper Z) where
  -- `addToProcessList`; `true` is 0, and `false` -1.
  unfoldable pub add_to_process_list : ℤ → Z → ℤ → Z × Bool
  add_to_process_list server_id z id = elim (zk.get z (process_path server_id)) [
    | none ↦ (z, false)
    | some (result, version) ↦
        zk.set z (process_path server_id) (result ++ (int_to_string id ++ (comma ∷ []))) version
  ]

  -- `removeFromProcessList`. What it returns is about the read: the result of its write is not
  -- kept.
  unfoldable pub remove_from_process_list : ℤ → Z → ℤ → Result (Z × Bool)
  remove_from_process_list server_id z id =
      let (result, stat) = read_node zk z (process_path server_id) in
      do
        vec ← finished (zs_to_process_list result)
        version ← or_fault stat uninitialised
        ok (
          (zk.set z (process_path server_id) (process_list_to_zs (without id vec)) version).0,
          true,
        )

  -- The loop of `GetPartitionsForProcess`.
  unfoldable pub read_segments : Z → List ℤ → List (Map Text Text) → Result (List (Map Text Text))
  read_segments z [] segment_info = ok segment_info
  read_segments z (id ∷ list) segment_info = do
    map ← get_memory_segment zk z id
    read_segments z list (segment_info ++ (map ∷ []))

  -- `GetPartitionsForProcess`
  unfoldable pub get_partitions_for_process : Z → ℤ → Result (List (Map Text Text))
  get_partitions_for_process z process_id = do
    list ← finished (zs_to_process_list (read_node zk z (process_path process_id)).0)
    read_segments z list []
