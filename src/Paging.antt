-- ===== src/Paging.antt =====
-- include/paging/paging.hpp and src/paging/paging.tpp: the page table of one memory segment.
-- An atomic page state is a plain value here: each operation below is one atomic step, and other
-- threads act between steps. `at` out of range throws.
pub mod Mask
pub mod Geometry
pub mod Counting
pub mod Steps
mod Examples
use Prim.Native.Nat.{bit_and}
use rdma_migration_system.Prelude.{
  ℕ, ◌+◌, ◌-◌, ◌/◌, ◌%◌, List, Option, none, some, Bool, true, false, ◌&&◌, not,
}
use rdma_migration_system.Prelude.Tests.{ltb, ◌==◌, if◌then◌else◌}
use rdma_migration_system.Prelude.Lists.{get_elem?, set, replicate}
use rdma_migration_system.Prelude.Results.{Result, ok, err, Fault, out_of_range, ◌>>=◌, or_fault}
use rdma_migration_system.Prelude.Word.{add64, sub64, mul64, not64, as_int}

pub data PageState : Type 0 where
  remote in_flight local : PageState

abbrev pub same_state : PageState → PageState → Bool
same_state remote remote = true
same_state in_flight in_flight = true
same_state local local = true
same_state _ _ = false

pub record Pages : Type 0 where
  pub pages : List PageState
  pub local_pages : ℕ
  pub num_pages : ℕ
  pub start_address : ℕ
  pub end_address : ℕ
  pub memory_size : ℕ
  pub page_size : ℕ

-- The constructor's count of pages, before it is stored in an `int`.
abbrev pub page_count : ℕ → ℕ → ℕ
page_count memory_size page_size =
    if memory_size % page_size == 0 then memory_size / page_size else memory_size / page_size + 1

unfoldable pub new_pages : ℕ → ℕ → ℕ → Pages
new_pages start_address memory_size page_size = record {
  pages = replicate (as_int (page_count memory_size page_size)) remote;
  local_pages = 0;
  num_pages = as_int (page_count memory_size page_size);
  start_address = start_address;
  end_address = add64 start_address memory_size;
  memory_size = memory_size;
  page_size = page_size;
}

-- `getPageAddress(int)`
unfoldable pub get_page_address_id : Pages → ℕ → ℕ
get_page_address_id p page_id = add64 p.start_address (mul64 p.page_size page_id)

-- `getPageAddress(void*)`
unfoldable pub get_page_address : Pages → ℕ → ℕ
get_page_address p address = bit_and address (not64 (sub64 p.page_size 1))

-- `getPageSize(int)`; the test `page_id < num_pages - 1` is one on `int`.
unfoldable pub get_page_size_id : Pages → ℕ → ℕ
get_page_size_id p page_id =
    if ltb (page_id + 1) p.num_pages
    then p.page_size
    else (if p.memory_size % p.page_size == 0
        then p.page_size
        else sub64 p.memory_size (mul64 p.page_size (sub64 p.num_pages 1)))

-- `getPageSize(void*)`
unfoldable pub get_page_size : Pages → ℕ → ℕ
get_page_size p address =
    if ltb p.end_address (add64 address p.page_size)
    then sub64 (add64 address p.page_size) p.end_address
    else p.page_size

-- The `page_id` that the methods on addresses compute.
unfoldable pub page_of : Pages → ℕ → ℕ
page_of p address = as_int (sub64 address p.start_address / p.page_size)

abbrev pub store : Pages → ℕ → PageState → Pages
store p page_id state = record p {
  pages = set p.pages page_id state;
  local_pages = if same_state state local then p.local_pages + 1 else p.local_pages;
}

-- `setPageState(int, PageState)`
unfoldable pub set_page_state_id : Pages → ℕ → PageState → Result Pages
set_page_state_id p page_id state = do
  _ ← or_fault (get_elem? p.pages page_id) out_of_range
  ok (store p page_id state)

-- `setPageState(void*, PageState)`
unfoldable pub set_page_state : Pages → ℕ → PageState → Result Pages
set_page_state p address state = do
  _ ← or_fault (get_elem? p.pages (page_of p address)) out_of_range
  ok (store p (page_of p address) state)

-- `compare_exchange_weak` may fail though the states agree: `spurious` says whether it does.
unfoldable pub set_page_state_cas : Pages → ℕ → PageState → PageState → Bool → Result (Pages × Bool)
set_page_state_cas p address old_state new_state spurious = do
  current ← or_fault (get_elem? p.pages (page_of p address)) out_of_range
  if same_state current old_state && not spurious
      then ok (store p (page_of p address) new_state, true)
      else ok (p, false)

-- `getPageState(int)`
unfoldable pub get_page_state_id : Pages → ℕ → Result PageState
get_page_state_id p page_id = or_fault (get_elem? p.pages page_id) out_of_range

-- `getPageState(void*)`
unfoldable pub get_page_state : Pages → ℕ → Result PageState
get_page_state p address = or_fault (get_elem? p.pages (page_of p address)) out_of_range

-- The pages and their number stay as they were.
unfoldable pub set_page_size : Pages → ℕ → Pages
set_page_size p page_size = record p { page_size = page_size }
