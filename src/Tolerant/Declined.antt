-- ===== src/Tolerant/Declined.antt =====
-- `accept` of src/distributed-allocator/RDMAMemory.tpp, built with FAULT_TOLERANT, where the segment
-- cannot be mapped.
use rdma_migration_system.Prelude.{ℕ, ◌≤◌, ◌≡◌, refl, none, Bool, List, [], ◌∷◌, ◌++◌}
use rdma_migration_system.Prelude.Lists.{length}
use rdma_migration_system.Prelude.Results.{ok}
use rdma_migration_system.Prelude.Integers.{ℤ, IsLong}
use rdma_migration_system.Records.{process_list_to_zs}
use rdma_migration_system.Registry.{ZooKeeper, buflen}
use rdma_migration_system.Registry.Partitions.{Lists}
use rdma_migration_system.Manager.{decline}
use rdma_migration_system.Manager.Links.{connection}
use rdma_migration_system.Tolerant.{Tolerant, plain, own_id}
use rdma_migration_system.Tolerant.Allocate.{allocate_at}
use rdma_migration_system.Tolerant.Migrate.{accept_segment}
use rdma_migration_system.Tolerant.Reliable.{Reliable, add_to_process_list-grows}

module _ {Z : Type 0} (zk : ZooKeeper Z) where
  -- In the fault-tolerant build, a server that cannot map a segment declines it, with the null
  -- address, and has it on its list all the same, where the service takes every write with the
  -- current version, and the list with the id has at most 4096 characters, what the client reads of
  -- a node.
  pub declined_listed :
      (t : Tolerant Z) (v_addr size source conn_id : ℕ) (id : ℤ) (ids : List ℤ) (posted : Bool)
      → Reliable zk
      → IsLong id
      → connection t.manager.node source ≡ ok conn_id
      → length (process_list_to_zs (ids ++ (id ∷ []))) ≤ buflen
      → Lists zk t.zoo (own_id t) ids
      → (z : Z) × (accept_segment zk t v_addr size source id none posted
          ≡ ok (record t { zoo = z }, none, (conn_id, plain (decline 0 size)) ∷ []))
        × Lists zk z (own_id t) (ids ++ (id ∷ []))
  unfolding accept_segment allocate_at
  declined_listed t v_addr size source conn_id id ids posted reliable long linked room lists =
      let (z, added, longer, _) =
        add_to_process_list-grows zk t.zoo (own_id t) id ids reliable long room lists in
      (z, rw (added, linked, accept_segment) refl, longer)
