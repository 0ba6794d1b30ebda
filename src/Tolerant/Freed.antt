-- ===== src/Tolerant/Freed.antt =====
-- `deallocate` of src/distributed-allocator/RDMAMemory.tpp, built with FAULT_TOLERANT, and the records
-- in the service.
use rdma_migration_system.Prelude.{ℕ, ◌≡◌, ◌⊎◌, none, Bool, true, false, List}
use rdma_migration_system.Prelude.Results.{◌>>=◌}
use rdma_migration_system.Prelude.Integers.{ℤ}
use rdma_migration_system.Prelude.Maps.{erase, nat_key}
use rdma_migration_system.Records.Order.{text_key}
use rdma_migration_system.Registry.{ZooKeeper}
use rdma_migration_system.Registry.Segments.{segment_path}
use rdma_migration_system.Registry.Spec.{Registered, assign, Represents, RemoveFails}
use rdma_migration_system.Registry.Processes.{without}
use rdma_migration_system.Registry.Partitions.{Lists, ListFails}
use rdma_migration_system.Tolerant.{Tolerant}

module _ {Z : Type 0} (zk : ZooKeeper Z) where
  -- The server after a segment is released.
  abbrev pub released : Tolerant Z → ℕ → Z → Tolerant Z
  released t v_addr z = record t {
    zoo = z;
    manager = record t.manager { memory_map = erase v_addr t.manager.memory_map };
  }

  -- The id is off the list of the server; or the service did not confirm the write of the list
  -- without it, at `z0`, and the list is as it was.
  abbrev pub MaybeListed : Z → Z → ℤ → ℤ → List ℤ → Type 0
  MaybeListed z0 z server_id id ids =
      Lists zk z server_id (without id ids)
      ⊎ (ListFails zk z0 server_id (without id ids) × Lists zk z server_id ids)

  -- The record is gone and the call returns 0; or the service did not confirm its removal, at `z1`,
  -- the call returns -1, and the record is there or gone.
  abbrev pub MaybeGone : Z → Z → Registered → ℤ → Bool → Type 0
  MaybeGone z1 z r id done =
      ((done ≡ true) × Represents zk z (assign id none r))
      ⊎ ((done ≡ false)
          × RemoveFails zk z1 (segment_path id)
          × (Represents zk z r ⊎ Represents zk z (assign id none r)))
