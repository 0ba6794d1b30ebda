-- ===== src/Pulling/Async.antt =====
-- `PullAllPagesWithoutCloseAsync` of src/distributed-allocator/RDMAMemory.tpp, which posts reads
-- without waiting for them, the callback `MarkPageLocalCB` that a completed read runs, and the handler
-- of page faults. What the threads do between two accesses that another one can see is one step: a
-- round of the loop is an exchange and then a post, a callback takes its unit off the rate limiter and
-- then sets its page, and a fault is an exchange and then, behind the blocking read, the page.
use rdma_migration_system.Prelude.{ℕ, suc, ◌+◌, ◌-◌, ◌≡◌, ◌≢◌, Bool, false, List, [], ◌∷◌, ◌++◌}
use rdma_migration_system.Prelude.Tests.{ltb, if◌then◌else◌}
use rdma_migration_system.Prelude.Integers.{ℤ, pos, negsuc}
use rdma_migration_system.Prelude.Results.{Result, ok, err, exits, logic_error, ◌>>=◌}
use rdma_migration_system.Paging.{
  PageState, remote, in_flight, local, Pages, get_page_address, get_page_address_id, get_page_size,
  get_page_size_id, set_page_state, set_page_state_cas,
}
use rdma_migration_system.Pulling.{Read, Answers}

-- The page table, the rest of the copy that the loop goes through, from page `id` on, the read that
-- the loop is about to post, if any, the reads whose callback has not begun, those whose callback has
-- given its unit of the rate limiter back and not set its page, those that handlers of page faults wait
-- for, and how much is on the rate limiter beyond what was there first.
pub record AsyncPull : Type 0 where
  pub table : Pages
  pub rest : List PageState
  pub id : ℕ
  pub claimed : List Read
  pub pending : List Read
  pub landing : List Read
  pub faulting : List Read
  pub added : ℕ

-- `*rate_limiter > max_async_pending`, where the memory that `malloc` gave held `start`.
abbrev pub above : ℤ → ℕ → ℕ → Bool
above (pos n) added max_async_pending = ltb max_async_pending (n + added)
above (negsuc n) added max_async_pending = ltb (max_async_pending + suc n) added

-- A unit for the limiter and the exchange, and whether that succeeded. The limiter keeps the unit where
-- it fails.
unfoldable pub exchange : Answers → AsyncPull → ℕ → ℕ → Result (AsyncPull × Bool)
exchange a s addr pagesize = do
  (q, swapped) ← set_page_state_cas s.table addr remote in_flight a.spurious
  ok (
    record s {
      table = q;
      claimed = if swapped then record { addr = addr; size = pagesize } ∷ s.claimed else s.claimed;
      added = s.added + 1;
    },
    swapped,
  )

-- A round of the loop on a page that was not local, after the wait, up to the call of `PullAsync`.
unfoldable pub async_round : Answers → AsyncPull → List PageState → Result (AsyncPull × Bool)
async_round a s rest = do
  (t, swapped) ← exchange a s (get_page_address_id s.table s.id) (get_page_size_id s.table s.id)
  ok (record t { rest = rest; id = s.id + 1 }, swapped)

-- `PullAsync`: posted, or a fault where it throws or ends the program: no connection, a range that is
-- not registered, a post that fails.
unfoldable pub post_read : Result (Unit {0}) → AsyncPull → Read → Result AsyncPull
post_read posted s r = do
  _ ← posted
  ok (record s { claimed = []; pending = s.pending ++ (r ∷ []) })

-- `MarkPageLocalCB`, on a read that is not the last user of the limiter, up to `fetch_sub`.
unfoldable pub callback_counts : Answers → AsyncPull → Read → List Read → Result AsyncPull
callback_counts a s r pending =
    if a.protected
    then ok (record s { pending = pending; landing = r ∷ s.landing; added = s.added - 1 })
    else err exits

-- The rest of `MarkPageLocalCB`.
unfoldable pub callback_sets : AsyncPull → Read → List Read → Result AsyncPull
callback_sets s r landing = do
  q ← set_page_state s.table r.addr local
  ok (record s { table = q; landing = landing })

-- `sigsegv_advance` up to its exchange, and behind it.
unfoldable pub fault_begins : Answers → AsyncPull → ℕ → Result AsyncPull
fault_begins a s fault_address = do
  let addr = get_page_address s.table fault_address
  let page_size = get_page_size s.table addr
  (q, swapped) ← set_page_state_cas s.table addr remote in_flight a.spurious
  let read : Read = record { addr = addr; size = page_size }
  ok (record s { table = q; faulting = if swapped then read ∷ s.faulting else s.faulting })

unfoldable pub fault_ends : Answers → AsyncPull → Read → List Read → Result AsyncPull
fault_ends a s r faulting =
    if a.pulled
    then (do
      q ← set_page_state s.table r.addr local
      if a.protected then ok (record s { table = q; faulting = faulting }) else err exits)
    else err logic_error

-- A step of a callback or of a handler.
pub data FlightStep : AsyncPull → AsyncPull → Type 0 where
  counts :
      (a : Answers) (s t : AsyncPull) (r : Read) (before after : List Read)
      → s.pending ≡ before ++ (r ∷ after)
      → callback_counts a s r (before ++ after) ≡ ok t
      → FlightStep s t
  sets :
      (s t : AsyncPull) (r : Read) (before after : List Read)
      → s.landing ≡ before ++ (r ∷ after)
      → callback_sets s r (before ++ after) ≡ ok t
      → FlightStep s t
  faults :
      (a : Answers) (s t : AsyncPull) (fault_address : ℕ)
      → fault_begins a s fault_address ≡ ok t
      → FlightStep s t
  mends :
      (a : Answers) (s t : AsyncPull) (r : Read) (before after : List Read)
      → s.faulting ≡ before ++ (r ∷ after)
      → fault_ends a s r (before ++ after) ≡ ok t
      → FlightStep s t

-- The steps, with how many exchanges of the loop failed in them.
pub data AsyncStep (start : ℤ) (max_async_pending : ℕ) : AsyncPull → ℕ → AsyncPull → Type 0 where
  skips :
      (s : AsyncPull) (ss : List PageState)
      → s.claimed ≡ []
      → s.rest ≡ local ∷ ss
      → AsyncStep start max_async_pending s 0 (record s { rest = ss; id = s.id + 1 })
  starts :
      (a : Answers) (s t : AsyncPull) (st : PageState) (ss : List PageState) (swapped : Bool)
      → s.claimed ≡ []
      → s.rest ≡ st ∷ ss
      → st ≢ local
      → above start s.added max_async_pending ≡ false
      → async_round a s ss ≡ ok (t, swapped)
      → AsyncStep start max_async_pending s (if swapped then 0 else 1) t
  posts :
      (posted : Result (Unit {0})) (s t : AsyncPull) (r : Read)
      → s.claimed ≡ r ∷ []
      → post_read posted s r ≡ ok t
      → AsyncStep start max_async_pending s 0 t
  others : (s t : AsyncPull) → FlightStep s t → AsyncStep start max_async_pending s 0 t

pub data AsyncSteps (start : ℤ) (max_async_pending : ℕ) : AsyncPull → ℕ → AsyncPull → Type 0 where
  stay : (s : AsyncPull) → AsyncSteps start max_async_pending s 0 s
  then_step :
      (s t u : AsyncPull) (m n : ℕ)
      → AsyncSteps start max_async_pending s m t
      → AsyncStep start max_async_pending t n u
      → AsyncSteps start max_async_pending s (m + n) u

-- The loop as it begins.
abbrev pub begun : Pages → AsyncPull
begun p = record {
  table = p;
  rest = p.pages;
  id = 0;
  claimed = [];
  pending = [];
  landing = [];
  faulting = [];
  added = 0;
}
