-- ===== src/Pulling.antt =====
-- The pulling loops of src/distributed-allocator/RDMAMemory.tpp and the page-fault handler of
-- include/distributed-allocator/RDMAMemory.hpp, over the page table of one segment.
-- A read of remote memory is an entry of a list, in the order of the calls. What the kernel and the
-- processor answer (`mprotect`, a weak exchange that fails) is an argument, by page.
pub mod Pass
pub mod Repeat
pub mod Fault
pub mod Async
pub mod Flights
pub mod Limits
pub mod Batch
pub mod Waits
mod Examples
mod Flown
mod Landed
use mathlib.Core.Option
use rdma_migration_system.Prelude.{
  ℕ, zero, suc, ◌+◌, Option, none, some, List, [], ◌∷◌, ◌++◌, Bool, true, false,
}
use rdma_migration_system.Prelude.Tests.{ltb, if◌then◌else◌}
use rdma_migration_system.Prelude.Results.{Result, ok, err, exits, logic_error, out_of_range, ◌>>=◌}
use rdma_migration_system.Prelude.Word.{add64, as_int}
use rdma_migration_system.Paging.{
  PageState, remote, in_flight, local, same_state, Pages, get_page_address_id, get_page_address,
  get_page_size_id, get_page_size, set_page_state, set_page_state_cas, get_page_state_id,
}

pub record Read : Type 0 where
  pub addr : ℕ
  pub size : ℕ

-- Does the weak exchange fail, does `mprotect` succeed, does the read return 0?
pub record Answers : Type 0 where
  pub spurious : Bool
  pub protected : Bool
  pub pulled : Bool

-- `MarkPageLocal`; `MarkPageLocalCB` does the same in a completion callback.
unfoldable pub mark_page_local : Answers → Pages → ℕ → Result Pages
mark_page_local a p address = if a.protected then set_page_state p address local else err exits

-- The body of the loop of `PullAllPagesWithoutClose` on a page that was not local. The value of
-- `Pull` is dropped.
unfoldable pub pull_page : Answers → Pages → ℕ → Result (Pages × List Read)
unfolding mark_page_local
pull_page a p id = do
  let addr = get_page_address_id p id
  let pagesize = get_page_size_id p id
  (q, swapped) ← set_page_state_cas p addr remote in_flight a.spurious
  if swapped
      then (do r ← mark_page_local a q addr; ok (r, record { addr = addr; size = pagesize } ∷ []))
      else ok (q, [])

-- What is read later comes after what is read first.
abbrev pub after_reads : List Read → Result (Pages × List Read) → Result (Pages × List Read)
after_reads reads (ok (q, others)) = ok (q, reads ++ others)
after_reads reads (err e) = err e

-- The loop, from page `id` on, over the copy of the table that the method takes first.
unfoldable pub pull_from : (ℕ → Answers) → Pages → ℕ → List PageState → Result (Pages × List Read)
unfolding pull_page
pull_from a p id [] = ok (p, [])
pull_from a p id (local ∷ ss) = pull_from a p (suc id) ss
pull_from a p id (_ ∷ ss) = do
  (q, reads) ← pull_page (a id) p id
  after_reads reads (pull_from a q (suc id) ss)

-- `PullAllPagesWithoutClose`
unfoldable pub pull_all_pages_without_close : (ℕ → Answers) → Pages → Result (Pages × List Read)
unfolding pull_from
pull_all_pages_without_close a p = pull_from a p 0 p.pages

-- The loop of `PullAllPages` before it closes the segment: one pass after another, numbered from
-- `pass` on, until the counter reaches the number of pages. `none` is a loop that goes on after
-- `fuel` passes.
unfoldable pub pull_all_pages :
    ℕ → ℕ → (ℕ → ℕ → Answers) → Pages → Option (Result (Pages × List Read))
pull_all_pages zero pass a p = none
pull_all_pages (suc fuel) pass a p = elim (pull_all_pages_without_close (a pass) p) [
  | err e ↦ some (err e)
  | ok (q, reads) ↦
      let rest = Option.map (after_reads reads) (pull_all_pages fuel (suc pass) a q) in
      if ltb q.local_pages q.num_pages then rest else some (ok (q, reads))
]

-- One round of `PullPagesSync` on a page that `getPageState` does not find local.
pub pull_segment : Answers → Pages → ℕ → Result (Pages × List Read)
unfolding mark_page_local
pull_segment a p segment_pull = do
  let addr = get_page_address p segment_pull
  let pagesize = get_page_size p segment_pull
  (q, swapped) ← set_page_state_cas p addr remote in_flight a.spurious
  if swapped
      then (do r ← mark_page_local a q addr; ok (r, record { addr = addr; size = pagesize } ∷ []))
      else ok (q, [])

-- The loop of `PullPagesSync`, with fuel. Its call `getPageState(segment_pull)` has a `uintptr_t`
-- for its argument, which converts to `int` and not to `void*`: it is the overload on page numbers.
unfoldable pub pull_pages_sync :
    ℕ → (ℕ → Answers) → Pages → ℕ → ℕ → Option (Result (Pages × List Read))
pull_pages_sync zero a p segment_pull end_segment_pull = none
pull_pages_sync (suc fuel) a p segment_pull end_segment_pull =
    elim (ltb segment_pull end_segment_pull) [
      | false ↦ some (ok (p, []))
      | true ↦ elim (get_page_state_id p (as_int segment_pull)) [
        | err e ↦ some (err e)
        | ok local ↦ pull_pages_sync fuel a p (add64 segment_pull p.page_size) end_segment_pull
        | ok _ ↦ elim (pull_segment (a segment_pull) p segment_pull) [
          | err e ↦ some (err e)
          | ok (q, reads) ↦
              Option.map (after_reads reads)
                (pull_pages_sync fuel a q (add64 segment_pull p.page_size) end_segment_pull)
        ]
      ]
    ]

-- `sigsegv_advance`, once the segment is found
unfoldable pub sigsegv_advance : Answers → Pages → ℕ → Result (Pages × List Read)
sigsegv_advance a p fault_address = do
  let addr = get_page_address p fault_address
  let page_size = get_page_size p addr
  (q, swapped) ← set_page_state_cas p addr remote in_flight a.spurious
  if swapped
      then (if a.pulled
          then (do
            r ← set_page_state q addr local
            if a.protected
                then ok (r, record { addr = addr; size = page_size } ∷ [])
                else err exits)
          else err logic_error)
      else ok (q, [])
