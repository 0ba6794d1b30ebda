-- ===== src/Manager/Migrate.antt =====
-- src/distributed-allocator/RDMAMemory.tpp: the two sides of a migration, built with
-- FAULT_TOLERANT and PREFETCHING off. Each operation gives the calls of the connection's object
-- that it makes. What `mmap` and `mprotect` answer are arguments.
use rdma_migration_system.Prelude.{
  ℕ, Option, some, none, Bool, true, false, not, ◌&&◌, [], ◌∷◌, ◌++◌,
}
use rdma_migration_system.Prelude.Tests.{if◌then◌else◌}
use rdma_migration_system.Prelude.Results.{Result, ok, err, exits, bad_pointer, or_fault, ◌>>=◌}
use rdma_migration_system.Prelude.Maps.{lookup, nat_key}
use rdma_migration_system.Manager.{
  Manager, shared, clean, register, register_local, deregister, prepare, accept, decline, transfer,
  done_transfer, read, write, Calls,
}
use rdma_migration_system.Manager.Links.{connection}
use rdma_migration_system.Manager.Segments.{segment_at, store, update_state, update_pair}
use rdma_migration_system.Manager.Allocate.{allocate_at}

-- `register_memory(v_addr, size, destination)`
unfoldable pub register_at : Manager → ℕ → ℕ → ℕ → Result Calls
unfolding connection
register_at m v_addr size destination = do
  conn_id ← connection m.node destination
  ok ((conn_id, register v_addr size) ∷ [])

-- `deregister_memory`
unfoldable pub deregister_at : Manager → ℕ → ℕ → Result Calls
unfolding connection
deregister_at m v_addr destination = do
  conn_id ← connection m.node destination
  ok ((conn_id, deregister v_addr) ∷ [])

-- `Prepare`. Its second log reads the state of the segment, which must be there.
unfoldable pub prepare_segment : Manager → ℕ → ℕ → ℕ → Result (Manager × Calls)
unfolding segment_at update_pair register_at connection
prepare_segment m v_addr size destination = do
  _ ← segment_at m v_addr
  let (m', _) = update_pair m v_addr destination
  conn_id ← connection m.node destination
  calls ← register_at m' v_addr size destination
  ok (m', calls ++ ((conn_id, prepare v_addr size) ∷ []))

-- `accept`. A failed allocation is declined with a null address.
unfoldable pub accept_segment : Manager → ℕ → ℕ → ℕ → Option ℕ → Result (Manager × Option ℕ × Calls)
unfolding update_pair allocate_at connection
accept_segment m v_addr size source mapped = do
  let (m', mem) = allocate_at m v_addr size mapped
  conn_id ← connection m.node source
  elim mem [
    | none ↦ ok (m', none, (conn_id, decline 0 size) ∷ [])
    | some a ↦ ok (
      (update_pair m' a source).0,
      some a,
      (conn_id, register_local v_addr size) ∷ (conn_id, accept a size) ∷ [],
    )
  ]

-- `Transfer`, and `transfer`, which does the same.
unfoldable pub transfer_segment : Manager → ℕ → ℕ → ℕ → Result (Manager × Calls)
unfolding segment_at connection
transfer_segment m v_addr size destination = do
  (p, memory) ← segment_at m v_addr
  conn_id ← connection m.node destination
  ok (
    store m p (record memory { owner = destination; state = shared }),
    (conn_id, transfer v_addr size) ∷ [],
  )

-- `Pull`; an unknown server gives -1, `none`.
unfoldable pub pull_segment : Manager → ℕ → ℕ → ℕ → Result (Option Calls)
unfolding connection
pull_segment m v_addr size source = elim (lookup source m.node.connections) [
  | none ↦ ok none
  | some _ ↦ do conn_id ← connection m.node source; ok (some ((conn_id, read v_addr size) ∷ []))
]

-- `Push`
unfoldable pub push_segment : Manager → ℕ → ℕ → ℕ → Result Calls
unfolding connection
push_segment m v_addr size destination = do
  conn_id ← connection m.node destination
  ok ((conn_id, write v_addr size) ∷ [])

-- `pull(v_addr, source)` and `push(v_addr, destination)`: the whole segment.
unfoldable pub pull_whole_from : Manager → ℕ → ℕ → Result Calls
unfolding segment_at connection
pull_whole_from m v_addr source = do
  conn_id ← connection m.node source
  (_, memory) ← segment_at m v_addr
  ok ((conn_id, read v_addr memory.size) ∷ [])

unfoldable pub push_whole_to : Manager → ℕ → ℕ → Result Calls
unfolding segment_at connection
push_whole_to m v_addr destination = do
  conn_id ← connection m.node destination
  (_, memory) ← segment_at m v_addr
  ok ((conn_id, write v_addr memory.size) ∷ [])

-- `pull(v_addr, size)` and `push(v_addr, size)`: with the segment's pair.
unfoldable pub pull_part : Manager → ℕ → ℕ → Result Calls
unfolding segment_at connection
pull_part m v_addr size = do
  (_, memory) ← segment_at m v_addr
  pair ← or_fault memory.pair bad_pointer
  conn_id ← connection m.node pair
  ok ((conn_id, read v_addr size) ∷ [])

unfoldable pub push_part : Manager → ℕ → ℕ → Result Calls
unfolding segment_at connection
push_part m v_addr size = do
  (_, memory) ← segment_at m v_addr
  pair ← or_fault memory.pair bad_pointer
  conn_id ← connection m.node pair
  ok ((conn_id, write v_addr size) ∷ [])

-- `pull(v_addr)` and `push(v_addr)`: the whole segment, with its pair.
unfoldable pub pull_whole : Manager → ℕ → Result Calls
unfolding segment_at connection
pull_whole m v_addr = do
  (_, memory) ← segment_at m v_addr
  pair ← or_fault memory.pair bad_pointer
  conn_id ← connection m.node pair
  ok ((conn_id, read v_addr memory.size) ∷ [])

unfoldable pub push_whole : Manager → ℕ → Result Calls
unfolding segment_at connection
push_whole m v_addr = do
  (_, memory) ← segment_at m v_addr
  pair ← or_fault memory.pair bad_pointer
  conn_id ← connection m.node pair
  ok ((conn_id, write v_addr memory.size) ∷ [])

-- `on_transfer`: with PAGING the segment is protected and its pages come later; without, it is
-- read at once, and the result of the read is not looked at.
unfoldable pub on_transfer : Bool → Manager → ℕ → ℕ → ℕ → Bool → Result (Manager × Calls)
unfolding update_state pull_segment
on_transfer true m v_addr size source protected =
    if protected then ok ((update_state m v_addr shared).0, []) else err exits
on_transfer false m v_addr size source protected = do
  pulled ← pull_segment m v_addr size source
  ok ((update_state m v_addr clean).0, elim pulled [ none ↦ [] | some calls ↦ calls ])

-- `close`
unfoldable pub close_segment : Bool → Manager → ℕ → ℕ → ℕ → Bool → Result (Manager × Calls)
unfolding update_state deregister_at connection
close_segment paging m v_addr size source protected =
    if paging && not protected then err exits else (do
      let (m', _) = update_state m v_addr clean
      conn_id ← connection m.node source
      calls ← deregister_at m' v_addr source
      ok (m', (conn_id, done_transfer v_addr size) ∷ calls))

-- `on_close`
unfoldable pub on_close : Manager → ℕ → ℕ → Result (Manager × Calls)
unfolding segment_at deregister_at
on_close m addr pair = do
  calls ← deregister_at m addr pair
  (p, _) ← segment_at m addr
  ok (record m { incoming_dones = m.incoming_dones ++ (p ∷ []) }, calls)
