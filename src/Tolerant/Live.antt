-- ===== src/Tolerant/Live.antt =====
-- src/distributed-allocator/RDMAMemNode.tpp, built with FAULT_TOLERANT: the ids of the segments that
-- a server has, asked from that server.
use rdma_migration_system.Prelude.{ℕ, zero, suc, List, [], ◌∷◌}
use rdma_migration_system.Prelude.Tests.{◌==◌, if◌then◌else◌}
use rdma_migration_system.Prelude.Integers.{ℤ}
use rdma_migration_system.Prelude.Results.{Result, ok, err, blocks, ◌>>=◌}
use rdma_migration_system.Records.{zs_to_process_list}
use rdma_migration_system.Registry.Segments.{finished}
use rdma_migration_system.Manager.Links.{connection}
use rdma_migration_system.Tolerant.{Tolerant, Requests, get_partitions}
use rdma_migration_system.Tolerant.Migrate.{get_local_segments_list}

module _ {Z : Type 0} where
  -- `GetLivePartitionsForProcess` of another server, up to the wait, with a new semaphore.
  unfoldable pub ask_partitions : Tolerant Z → ℕ → Result (Tolerant Z × Requests)
  unfolding connection
  ask_partitions t process_id = do
    conn_id ← connection t.manager.node process_id
    ok (record t { answers = 0 }, (conn_id, get_partitions) ∷ [])

  -- The wait for the answer, and what is read from it.
  unfoldable pub take_partitions : Tolerant Z → Result (List ℤ)
  take_partitions t = elim t.answers [
    | zero ↦ err blocks
    | suc n ↦ finished (zs_to_process_list t.partition_list)
  ]

  -- `GetLivePartitionsForProcess`, where `answered` is what the other threads make of the node while
  -- the call waits.
  unfoldable pub get_live_partitions :
      (Tolerant Z → Requests → Tolerant Z) → Tolerant Z → ℕ → Result (List ℤ)
  unfolding ask_partitions take_partitions get_local_segments_list
  get_live_partitions answered t process_id =
      if process_id == t.manager.node.server_id
      then get_local_segments_list t
      else (do (t', requests) ← ask_partitions t process_id; take_partitions (answered t' requests))
