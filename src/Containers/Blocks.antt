-- ===== src/Containers/Blocks.antt =====
-- `set_up_allocator` of src/c++-containers/rdma_container_base.tpp and `allocate` of
-- src/distributed-allocator/mempool.tpp: where the elements of a container lie.
use rdma_migration_system.Prelude.{ℕ, ◌+◌, ◌≤◌, ◌<◌, ◌≡◌, refl, arith, Option, some, List, [], ◌∷◌}
use rdma_migration_system.Prelude.Word.{word_mod, add64, sub64}
use rdma_migration_system.Prelude.Results.{ok}
use rdma_migration_system.Manager.{Manager}
use rdma_migration_system.Manager.Allocate.{allocate}
use rdma_migration_system.Containers.{
  MemoryPool, Container, pool_allocate, header_size, set_up_allocator,
}

-- One allocation after another: the pool at the end, and the blocks as addresses and sizes.
unfoldable pub allocate_all : MemoryPool → List ℕ → MemoryPool × List (ℕ × ℕ)
unfolding pool_allocate
allocate_all pool [] = (pool, [])
allocate_all pool (n ∷ sizes) =
    let (pool', addr) = pool_allocate pool n in
    let (last, blocks) = allocate_all pool' sizes in (last, (addr, n) ∷ blocks)

abbrev pub total : List ℕ → ℕ
total [] = 0
total (n ∷ sizes) = n + total sizes

-- Each block starts where the one before ends, from `low` up to `top`.
abbrev pub Laid : ℕ → List (ℕ × ℕ) → ℕ → Type 0
Laid low [] top = low ≡ top
Laid low ((addr, n) ∷ blocks) top = (addr ≡ low) × Laid (low + n) blocks top

allocate_all-Laid :
    (sizes : List ℕ) (pool : MemoryPool) (low : ℕ)
    → pool.unused_past ≡ low
    → low + total sizes < word_mod
    → Laid low (allocate_all pool sizes).1 (allocate_all pool sizes).0.unused_past
      × ((allocate_all pool sizes).0.unused_past ≡ low + total sizes)
unfolding allocate_all pool_allocate
allocate_all-Laid [] pool low e room = (omega arith, omega arith)
allocate_all-Laid (n ∷ sizes) pool low e room =
    let (laid, ends) =
      allocate_all-Laid sizes (pool_allocate pool n).0 (low + n) (omega (arith, e, room))
        (omega (arith, room)) in
    ((e, laid), omega (arith, ends))

-- The pool in a segment of this size at this address.
abbrev pub pool_at : ℕ → ℕ → MemoryPool
pool_at memory size = record {
  pool_addr = add64 memory header_size;
  pool_size = sub64 size header_size;
  unused_past = add64 memory header_size;
  addr = memory;
  size = size;
}

-- Where the manager gives a segment whose end does not wrap, `set_up_allocator` puts a pool into it,
-- and the blocks that are then taken from the pool, as long as they fit the segment behind its
-- header, lie one behind the other from the header on; the last ends inside the segment, at the
-- place up to which the container is pulled.
pub set_up_allocator-Laid :
    (m d : Manager) (c : Container) (remapped mapped : Option ℕ) (memory : ℕ) (sizes : List ℕ)
    → allocate m c.default_pool_size remapped mapped ≡ ok (d, some memory)
    → memory + c.default_pool_size < word_mod
    → header_size + total sizes ≤ c.default_pool_size
    → let pool = pool_at memory c.default_pool_size in
      let (last, blocks) = allocate_all pool sizes in
      (set_up_allocator m c remapped mapped ≡ ok (d, record c { mempool = some pool }))
      × Laid (memory + header_size) blocks last.unused_past
      × (last.unused_past ≤ memory + c.default_pool_size)
unfolding set_up_allocator
set_up_allocator-Laid m d c remapped mapped memory sizes given room fits =
    let pool = pool_at memory c.default_pool_size in
    let (laid, ends) =
      allocate_all-Laid sizes pool (memory + header_size) (omega (arith, room, fits))
        (omega (arith, room, fits)) in
    (rw given refl, laid, omega (arith, ends, fits))
