-- ===== src/Tolerant.antt =====
-- src/distributed-allocator/RDMAMemory.tpp, built with FAULT_TOLERANT and PREFETCHING off: the state
-- of a memory manager that shares its records with the other servers through ZooKeeper. The map of
-- its `Manager` is the one that this build uses, `local_segments`.
pub mod Allocate
pub mod Migrate
pub mod Live
pub mod Wire
pub mod Answers
pub mod Books
pub mod Kept
pub mod Freed
pub mod Reliable
pub mod Stages
pub mod Handover
pub mod Declined
mod Examples
use rdma_migration_system.Prelude.{ℕ, Option, Bool, List}
use rdma_migration_system.Prelude.Integers.{ℤ, pos}
use rdma_migration_system.Prelude.Results.{Result, bad_pointer, or_fault, ◌>>=◌, ok}
use rdma_migration_system.Prelude.Maps.{Map, lookup, nat_key}
use rdma_migration_system.Records.Order.{Text}
use rdma_migration_system.Manager.{Manager, Segment, Call}
use rdma_migration_system.Manager.Segments.{segment_at}

-- The service, the manager, the `application_id` of each object on its heap, and what the node keeps
-- for one request of a list: the list, and how often its semaphore was posted and not yet waited for.
pub record Tolerant (Z : Type 0) : Type 0 where
  pub zoo : Z
  pub manager : Manager
  pub application_ids : Map ℕ ℤ
  pub partition_list : Text
  pub answers : ℕ

-- A call of a method of the object that a connection belongs to.
pub data Request : Type 0 where
  plain : Call → Request
  prepare_client : ℕ → ℕ → Text → Request
  get_partitions : Request
  send_partitions : Text → Request

abbrev pub Requests : Type 0
Requests = List (ℕ × Request)

module _ {Z : Type 0} where
  -- This server, as the records name it.
  abbrev pub own_id : Tolerant Z → ℤ
  own_id t = pos t.manager.node.server_id

  -- `local_segments.find(v_addr)->second->application_id`, with the object.
  unfoldable pub application_at : Tolerant Z → ℕ → Result (ℕ × Segment × ℤ)
  unfolding segment_at
  application_at t v_addr = do
    (p, s) ← segment_at t.manager v_addr
    id ← or_fault (lookup p t.application_ids) bad_pointer
    ok (p, s, id)
