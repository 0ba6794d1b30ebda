-- ===== src/Pulling/Limits.antt =====
-- `PullAllPagesWithoutCloseAsync` of src/distributed-allocator/RDMAMemory.tpp from a segment with no
-- page in flight: which reads are under way, how many, and when the loop stands still.
use rdma_migration_system.Prelude.{ℕ, ◌+◌, ◌≡◌, List, [], ◌∷◌}
use rdma_migration_system.Prelude.Lists.{length}
use rdma_migration_system.Paging.{Pages, page_of}
use rdma_migration_system.Pulling.{Read}
use rdma_migration_system.Pulling.Pass.{page_read}
use rdma_migration_system.Pulling.Async.{AsyncPull}
use rdma_migration_system.Pulling.Flights.{Owned}
use rdma_migration_system.Pulling.Flights.Steps.{Counts}

-- Each read is that of a whole page, at the page's own address and length.
abbrev pub AllOwn : Pages → List Read → Type 0
AllOwn p [] = Unit {0}
AllOwn p (r ∷ reads) = (r ≡ page_read p (page_of p r.addr)) × AllOwn p reads

-- What holds of the loop at any time.
record Sound (p : Pages) (n : ℕ) (s : AsyncPull) : Type 0 where
  owned : Owned p s
  limit : Counts n s
  room : s.id + length s.rest ≡ p.num_pages
  claimed : AllOwn p s.claimed
  pending : AllOwn p s.pending
