-- ===== src/Pulling/Waits.antt =====
-- When `PullPagesAsync` of src/distributed-allocator/RDMAMemory.tpp returns.
use rdma_migration_system.Prelude.{ℕ}
use rdma_migration_system.Paging.{Pages}
use rdma_migration_system.Pulling.Async.{AsyncPull}
use rdma_migration_system.Pulling.Flights.{Owned}
use rdma_migration_system.Pulling.Flights.Steps.{Counts}

record Sound (p : Pages) (n : ℕ) (s : AsyncPull) : Type 0 where
  owned : Owned p s
  limit : Counts n s
