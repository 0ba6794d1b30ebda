-- ===== src/Pulling/Flown.antt =====
-- `PullAllPagesWithoutCloseAsync` at a segment of three pages.
use rdma_migration_system.Prelude.{true, false, [], ◌∷◌}
use rdma_migration_system.Paging.{remote, local, Pages}
use rdma_migration_system.Pulling.{Answers}
use rdma_migration_system.Pulling.Async.{AsyncPull, begun}

abbrev smooth : Answers
smooth = record { spurious = false; protected = true; pulled = true }

abbrev weak : Answers
weak = record { spurious = true; protected = true; pulled = true }

abbrev three_pages : Pages
three_pages = record {
  pages = remote ∷ remote ∷ local ∷ [];
  local_pages = 1;
  num_pages = 3;
  start_address = 0x1000;
  end_address = 14096;
  memory_size = 10000;
  page_size = 4096;
}

-- The exchange of the first page fails.
abbrev one_lost : AsyncPull
one_lost = record (begun three_pages) { rest = remote ∷ local ∷ []; id = 1; added = 1 }
