-- ===== src/Pulling/Batch.antt =====
-- `PullPagesAsync` of src/distributed-allocator/RDMAMemory.tpp, which posts a read for each page of a
-- range and then waits for the rate limiter to come back to 0. A check of a page's state, the exchange,
-- the post, and the steps of callbacks and of handlers of page faults are one step each.
use rdma_migration_system.Prelude.{ℕ, ◌+◌, ◌≡◌, ◌≢◌, Bool, true, false, List, [], ◌∷◌, not, ◌&&◌}
use rdma_migration_system.Prelude.Tests.{ltb, if◌then◌else◌}
use rdma_migration_system.Prelude.Integers.{ℤ}
use rdma_migration_system.Prelude.Word.{add64, as_int}
use rdma_migration_system.Prelude.Results.{Result, ok, ◌>>=◌}
use rdma_migration_system.Paging.{
  PageState, local, Pages, get_page_address, get_page_size, get_page_state_id,
}
use rdma_migration_system.Pulling.{Read, Answers}
use rdma_migration_system.Pulling.Async.{AsyncPull, above, exchange, post_read, FlightStep}

-- The address that the loop is at, whether the page there was seen not to be local, and what the loop
-- shares with callbacks and handlers, where `rest` and `id` have no use.
pub record BatchPull : Type 0 where
  pub segment_pull : ℕ
  pub seen : Bool
  pub shared : AsyncPull

-- A round of the loop on a page that was not local, after the wait, up to the call of `PullAsync`, and
-- whether its exchange succeeded.
unfoldable pub batch_round : Answers → ℕ → BatchPull → Result (BatchPull × Bool)
batch_round a page_size s = do
  let addr = get_page_address s.shared.table s.segment_pull
  let pagesize = get_page_size s.shared.table s.segment_pull
  (t, swapped) ← exchange a s.shared addr pagesize
  ok (record { segment_pull = add64 s.segment_pull page_size; seen = false; shared = t }, swapped)

-- The loop checks a page next.
abbrev pub AtPage : BatchPull → ℕ → Type 0
AtPage s end_segment_pull =
    (s.seen ≡ false) × (s.shared.claimed ≡ []) × (ltb s.segment_pull end_segment_pull ≡ true)

-- The steps, with how many exchanges of the loop failed in them.
pub data BatchStep (start : ℤ) (max_async_limit page_size end_segment_pull : ℕ)
    : BatchPull → ℕ → BatchPull → Type 0 where
  skips :
      (s : BatchPull)
      → AtPage s end_segment_pull
      → get_page_state_id s.shared.table (as_int s.segment_pull) ≡ ok local
      → BatchStep start max_async_limit page_size end_segment_pull s 0
          (record s { segment_pull = add64 s.segment_pull page_size })
  sees :
      (s : BatchPull) (st : PageState)
      → AtPage s end_segment_pull
      → get_page_state_id s.shared.table (as_int s.segment_pull) ≡ ok st
      → st ≢ local
      → BatchStep start max_async_limit page_size end_segment_pull s 0 (record s { seen = true })
  starts :
      (a : Answers) (s t : BatchPull) (swapped : Bool)
      → s.seen ≡ true
      → above start s.shared.added max_async_limit ≡ false
      → batch_round a page_size s ≡ ok (t, swapped)
      → BatchStep start max_async_limit page_size end_segment_pull s (if swapped then 0 else 1) t
  posts :
      (posted : Result (Unit {0})) (s : BatchPull) (t : AsyncPull) (r : Read)
      → s.shared.claimed ≡ r ∷ []
      → post_read posted s.shared r ≡ ok t
      → BatchStep start max_async_limit page_size end_segment_pull s 0 (record s { shared = t })
  others :
      (s : BatchPull) (t : AsyncPull)
      → FlightStep s.shared t
      → BatchStep start max_async_limit page_size end_segment_pull s 0 (record s { shared = t })

pub data BatchSteps (start : ℤ) (max_async_limit page_size end_segment_pull : ℕ)
    : BatchPull → ℕ → BatchPull → Type 0 where
  stay : (s : BatchPull) → BatchSteps start max_async_limit page_size end_segment_pull s 0 s
  then_step :
      (s t u : BatchPull) (m n : ℕ)
      → BatchSteps start max_async_limit page_size end_segment_pull s m t
      → BatchStep start max_async_limit page_size end_segment_pull t n u
      → BatchSteps start max_async_limit page_size end_segment_pull s (m + n) u

-- The loop as it begins.
abbrev pub batch_begun : Pages → ℕ → BatchPull
batch_begun p v_addr = record {
  segment_pull = v_addr;
  seen = false;
  shared = record {
    table = p;
    rest = [];
    id = 0;
    claimed = [];
    pending = [];
    landing = [];
    faulting = [];
    added = 0;
  };
}

abbrev pub no_claim : List Read → Bool
no_claim [] = true
no_claim (r ∷ reads) = false

-- Is the range at its end, and `while((*rate_limiter) > 0);` too?
unfoldable pub batch_returns : ℤ → ℕ → BatchPull → Bool
batch_returns start end_segment_pull s =
    not s.seen
    && (no_claim s.shared.claimed
        && (not (ltb s.segment_pull end_segment_pull) && not (above start s.shared.added 0)))
