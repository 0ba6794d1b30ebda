-- ===== src/Manager/Segments.antt =====
-- src/distributed-allocator/RDMAMemory.tpp: segments as objects, and the maps from addresses to
-- them.
use rdma_migration_system.Prelude.{ℕ, Option, some, none, Bool, true, false, ◌&&◌, [], ◌∷◌}
use rdma_migration_system.Prelude.Tests.{ltb, leb, if◌then◌else◌}
use rdma_migration_system.Prelude.Word.{add64}
use rdma_migration_system.Prelude.Results.{Result, ok, err, bad_pointer, or_fault, ◌>>=◌}
use rdma_migration_system.Prelude.Maps.{Map, lookup, insert, nat_key}
use rdma_migration_system.Paging.{new_pages, set_page_size}
use rdma_migration_system.Manager.{Manager, Segment, State, clean}

-- The constructor of `RDMAMemory`; pages are of 4096 bytes.
unfoldable pub new_segment : ℕ → ℕ → ℕ → Segment
unfolding new_pages
new_segment owner addr size = record {
  vaddr = addr;
  size = size;
  owner = owner;
  state = clean;
  pair = none;
  pages = new_pages addr size 4096;
}

-- The object that `memory_map` holds for an address: `find(v_addr)->second`.
unfoldable pub segment_at : Manager → ℕ → Result (ℕ × Segment)
segment_at m v_addr = do
  p ← or_fault (lookup v_addr m.memory_map) bad_pointer
  s ← or_fault (lookup p m.heap) bad_pointer
  ok (p, s)

abbrev pub store : Manager → ℕ → Segment → Manager
store m p s = record m { heap = insert p s m.heap }

-- A change of the object of an address, and false (for -1) where there is none.
abbrev pub update : (Segment → Segment) → Manager → ℕ → Manager × Bool
update f m v_addr = elim (segment_at m v_addr) [
  | ok (p, s) ↦ (store m p (f s), true)
  | err _ ↦ (m, false)
]

-- `UpdateState`
unfoldable pub update_state : Manager → ℕ → State → Manager × Bool
unfolding segment_at
update_state m memory state = update (λ s. record s { state = state }) m memory

-- `UpdatePair`
unfoldable pub update_pair : Manager → ℕ → ℕ → Manager × Bool
unfolding segment_at
update_pair m memory id = update (λ s. record s { pair = some id }) m memory

-- The loop of `getRDMAMemory` over the entries of `memory_map`, in the order of the map.
unfoldable pub find_segment : Manager → Map ℕ ℕ → ℕ → Result (Option ℕ)
find_segment m [] address = ok none
find_segment m ((addr1, p) ∷ rest) address = do
  memory ← or_fault (lookup p m.heap) bad_pointer
  if leb addr1 address && ltb address (add64 memory.vaddr memory.size)
      then ok (some p)
      else find_segment m rest address

-- `getRDMAMemory`
unfoldable pub get_rdma_memory : Manager → ℕ → Result (Option ℕ)
unfolding find_segment
get_rdma_memory m address = find_segment m m.memory_map address

-- `SetPageSize`
unfoldable pub set_segment_page_size : Manager → ℕ → ℕ → Result Manager
unfolding segment_at set_page_size
set_segment_page_size m address page_size = do
  (p, memory) ← segment_at m address
  ok (store m p (record memory { pages = set_page_size memory.pages page_size }))
