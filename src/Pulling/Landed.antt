-- ===== src/Pulling/Landed.antt =====
-- `PullPagesAsync` at a segment of one page, at an address whose low 32 bits are 0.
use rdma_migration_system.Prelude.{refl, arith, true, false, [], ◌∷◌}
use rdma_migration_system.Prelude.Integers.{pos}
use rdma_migration_system.Prelude.Results.{ok}
use rdma_migration_system.Paging.{
  remote, in_flight, Pages, page_of, set_page_state_cas, get_page_address, get_page_size,
  get_page_state_id,
}
use rdma_migration_system.Pulling.{Answers, Read}
use rdma_migration_system.Pulling.Async.{exchange, post_read, callback_counts, counts}
use rdma_migration_system.Pulling.Batch.{
  BatchPull, batch_round, sees, starts, posts, others, BatchSteps, stay, then_step, batch_begun,
}

abbrev smooth : Answers
smooth = record { spurious = false; protected = true; pulled = true }

abbrev one_page : Pages
one_page = record {
  pages = remote ∷ [];
  local_pages = 0;
  num_pages = 1;
  start_address = 0x100000000;
  end_address = 0x100001000;
  memory_size = 4096;
  page_size = 4096;
}

abbrev seen_page : BatchPull
seen_page = record (batch_begun one_page 0x100000000) { seen = true }

abbrev the_read : Read
the_read = record { addr = 0x100000000; size = 4096 }

abbrev claimed_page : BatchPull
claimed_page = record {
  segment_pull = 0x100001000;
  seen = false;
  shared = record (seen_page.shared) {
    table = record one_page { pages = in_flight ∷ [] };
    claimed = the_read ∷ [];
    added = 1;
  };
}

abbrev posted_page : BatchPull
posted_page = record claimed_page {
  shared = record (claimed_page.shared) { claimed = []; pending = the_read ∷ [] };
}

abbrev landing_page : BatchPull
landing_page = record posted_page {
  shared = record (posted_page.shared) { pending = []; landing = the_read ∷ []; added = 0 };
}

landing : BatchSteps (pos 0) 8 4096 0x100001000 (batch_begun one_page 0x100000000) 0 landing_page
unfolding batch_round exchange post_read callback_counts set_page_state_cas page_of get_page_address
    get_page_size get_page_state_id
landing =
    let first = batch_begun one_page 0x100000000 in
    then_step first posted_page landing_page 0 0
      (then_step first claimed_page posted_page 0 0
        (then_step first seen_page claimed_page 0 0
          (then_step first first seen_page 0 0 (stay first)
            (sees first remote (refl, refl, refl) refl (λ e. ground (arith, e))))
          (starts smooth seen_page claimed_page true refl refl refl))
        (posts (ok tt) claimed_page posted_page.shared the_read refl refl))
      (others posted_page landing_page.shared
        (counts smooth posted_page.shared landing_page.shared the_read [] [] refl refl))
