-- ===== src/Containers.antt =====
-- src/c++-containers/rdma_container_base.tpp and src/distributed-allocator/mempool.tpp, built with
-- FAULT_TOLERANT off: a container in a segment of its own, and the pool that its elements come from.
-- The container's address, which the derived class knows, and the kernel's answers are arguments.
pub mod Blocks
pub mod Queues
mod Examples
use rdma_migration_system.Prelude.{ℕ, ◌+◌, Option, some, none, Bool, true, false, List, [], ◌∷◌}
use rdma_migration_system.Prelude.Tests.{◌==◌, if◌then◌else◌}
use rdma_migration_system.Prelude.Word.{add64, sub64}
use rdma_migration_system.Prelude.Results.{Result, ok, err, bad_pointer, or_fault, ◌>>=◌}
use rdma_migration_system.Prelude.Maps.{lookup, nat_key}
use rdma_migration_system.Paging.{set_page_size}
use rdma_migration_system.Manager.{Manager, Segment, Calls}
use rdma_migration_system.Manager.Segments.{store}
use rdma_migration_system.Manager.Allocate.{allocate, deallocate}
use rdma_migration_system.Manager.Migrate.{
  prepare_segment, transfer_segment, close_segment, pull_segment, push_segment,
}
use rdma_migration_system.Manager.Poller.{
  poll_for_accept, poll_for_transfer, poll_for_close, peek_accept, peek_close,
}

-- `MemoryPool`
pub record MemoryPool : Type 0 where
  pub pool_addr : ℕ
  pub pool_size : ℕ
  pub unused_past : ℕ
  pub addr : ℕ
  pub size : ℕ

-- `MemoryPool::allocate`. That the end of the pool is passed is only logged.
unfoldable pub pool_allocate : MemoryPool → ℕ → MemoryPool × ℕ
pool_allocate pool bytes =
    (record pool { unused_past = add64 pool.unused_past bytes }, pool.unused_past)

-- `RDMAContainerBase`, with what the segment holds of it: the pool, which `mempool` points to, and
-- the container's address behind it.
pub record Container : Type 0 where
  pub rdma_memory : Option ℕ
  pub mempool : Option MemoryPool
  pub packed_address : ℕ
  pub default_pool_size : ℕ

-- `sizeof(MemoryPool**) + sizeof(MemoryPool) + sizeof(void*)`
abbrev pub header_size : ℕ
header_size = 8 + 40 + 8

-- `set_up_allocator`. A segment that could not be allocated is a null pointer that is written to.
unfoldable pub set_up_allocator :
    Manager → Container → Option ℕ → Option ℕ → Result (Manager × Container)
set_up_allocator m c remapped mapped = do
  (m', allocated) ← allocate m c.default_pool_size remapped mapped
  memory ← or_fault allocated bad_pointer
  ok (
    m',
    record c {
      mempool = some (record {
        pool_addr = add64 memory header_size;
        pool_size = sub64 c.default_pool_size header_size;
        unused_past = add64 memory header_size;
        addr = memory;
        size = c.default_pool_size;
      });
    },
  )

-- `Prepare`: the container's address goes into the segment first. It returns true.
unfoldable pub prepare_container :
    Manager → Container → ℕ → ℕ → Result (Manager × Container × Calls)
prepare_container m c container_address destination = do
  pool ← or_fault c.mempool bad_pointer
  (m', calls) ← prepare_segment m pool.addr pool.size destination
  ok (m', record c { packed_address = container_address }, calls)

-- The object that `rdma_memory` points to.
unfoldable pub own_segment : Manager → Container → Result (ℕ × Segment)
own_segment m c = do
  p ← or_fault c.rdma_memory bad_pointer
  s ← or_fault (lookup p m.heap) bad_pointer
  ok (p, s)

-- `PollForAccept`: the first accepted segment, whoever's it is, is remembered; only the container's
-- own is taken from the queue.
unfoldable pub container_poll_for_accept : Manager → Container → Result (Manager × Container × Bool)
unfolding own_segment peek_accept poll_for_accept
container_poll_for_accept m c = elim (peek_accept m) [
  | none ↦ ok (m, record c { rdma_memory = none }, false)
  | some p ↦ do
    (_, s) ← own_segment m (record c { rdma_memory = some p })
    pool ← or_fault c.mempool bad_pointer
    if s.vaddr == pool.addr
        then (let (m', taken) = poll_for_accept m in
            ok (m', record c { rdma_memory = taken }, true))
        else ok (m, record c { rdma_memory = some p }, true)
]

-- `Transfer`; the pair of the segment is where it goes.
unfoldable pub transfer_container : Manager → Container → Result (Manager × Calls)
unfolding own_segment transfer_segment
transfer_container m c = do
  (_, s) ← own_segment m c
  pair ← or_fault s.pair bad_pointer
  transfer_segment m s.vaddr s.size pair

-- `PollForTransfer`
unfoldable pub container_poll_for_transfer : Manager → Container → Manager × Container × Bool
container_poll_for_transfer m c = elim (poll_for_transfer m).1 [
  | none ↦ ((poll_for_transfer m).0, c, false)
  | some p ↦ ((poll_for_transfer m).0, record c { rdma_memory = some p }, true)
]

-- `PollForClose`: the segment of a container that has gone is deallocated.
unfoldable pub container_poll_for_close : Manager → Container → Result (Manager × Container × Bool)
unfolding own_segment peek_close poll_for_close
container_poll_for_close m c = elim (peek_close m) [
  | none ↦ ok (m, c, false)
  | some p ↦ do
    (_, s) ← own_segment m (record c { rdma_memory = some p })
    pool ← or_fault c.mempool bad_pointer
    if s.vaddr == pool.addr
        then (do
          m' ← deallocate (poll_for_close m).0 s.vaddr
          ok (m', record c { rdma_memory = some p }, true))
        else ok (m, c, false)
]

-- `Close`
unfoldable pub close_container : Bool → Manager → Container → Bool → Result (Manager × Calls)
unfolding own_segment
close_container paging m c protected = do
  (_, s) ← own_segment m c
  pair ← or_fault s.pair bad_pointer
  close_segment paging m s.vaddr s.size pair protected

-- What `Pull` and `Push` move: from the start of the segment to the end of what is used.
unfoldable pub used_size : Manager → Container → Result (ℕ × ℕ × ℕ)
unfolding own_segment
used_size m c = do
  (_, s) ← own_segment m c
  pool ← or_fault c.mempool bad_pointer
  pair ← or_fault s.pair bad_pointer
  ok (s.vaddr, sub64 pool.unused_past s.vaddr, pair)

-- `Pull`, `Push`
unfoldable pub pull_container : Manager → Container → Result (Option Calls)
unfolding used_size
pull_container m c = do (addr, size, pair) ← used_size m c; pull_segment m addr size pair

unfoldable pub push_container : Manager → Container → Result Calls
unfolding used_size
push_container m c = do (addr, size, pair) ← used_size m c; push_segment m addr size pair

-- `SetContainerSize`, before the pool is there.
unfoldable pub set_container_size : Container → ℕ → Container
set_container_size c size = elim c.mempool [
  | none ↦ record c { default_pool_size = size }
  | some _ ↦ c
]

-- `SetPageSize`
unfoldable pub container_set_page_size : Manager → Container → ℕ → Result Manager
unfolding own_segment set_page_size
container_set_page_size m c size = elim c.rdma_memory [
  | none ↦ ok m
  | some _ ↦ do
    (p, s) ← own_segment m c
    ok (store m p (record s { pages = set_page_size s.pages size }))
]
