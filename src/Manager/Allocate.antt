-- ===== src/Manager/Allocate.antt =====
-- src/distributed-allocator/RDMAMemory.tpp: the server's share of the address space, and the
-- allocation of segments in it. What `mmap` answers is an argument: an address, or `none` for
-- MAP_FAILED; a null pointer that is returned is `none` too. A failed `munmap` is only logged.
use rdma_migration_system.Prelude.{ℕ, ◌+◌, ◌/◌, ◌^◌, Option, some, none, List, [], ◌∷◌, ◌++◌}
use rdma_migration_system.Prelude.Tests.{ltb, ◌==◌, if◌then◌else◌}
use rdma_migration_system.Prelude.Word.{add64, sub64, mul64}
use rdma_migration_system.Prelude.Results.{
  Result, ok, err, out_of_range, exits, bad_pointer, or_fault, ◌>>=◌,
}
use rdma_migration_system.Prelude.Maps.{Map, lookup, insert, erase, nat_key}
use rdma_migration_system.Manager.{Manager}
use rdma_migration_system.Manager.Links.{Node}
use rdma_migration_system.Manager.Segments.{new_segment, segment_at}

-- The quotient of a `ptrdiff_t`, in two's complement, by a positive number: it is cut towards 0.
abbrev pub signed_div : ℕ → ℕ → ℕ
signed_div diff n = if ltb diff (2 ^ 63) then diff / n else sub64 0 (sub64 0 diff / n)

-- The constructor of `RDMAMemoryManager`. The quotient by no servers at all is a trap of the
-- processor.
unfoldable pub new_manager : Node → ℕ → ℕ → Result Manager
new_manager node start_address end_address =
    if node.num_servers == 0
    then err exits
    else (let per_server = signed_div (sub64 end_address start_address) node.num_servers in
        let start = add64 start_address (mul64 node.server_id per_server) in
        ok (record {
          node = node;
          message_check = 0;
          start_address = start;
          end_address = add64 start per_server;
          alloc_address = start;
          heap = [];
          next = 0;
          memory_map = [];
          free_map = [];
          incoming_transfers = [];
          incoming_accepts = [];
          incoming_dones = [];
        }))

-- `new RDMAMemory(…)`, and its entry in `memory_map`.
abbrev pub record_segment : Manager → ℕ → ℕ → Manager
record_segment m res size = record m {
  heap = insert m.next (new_segment m.node.server_id res size) m.heap;
  next = m.next + 1;
  memory_map = insert res m.next m.memory_map;
}

-- The part of `allocate(size)` behind the label `alloc`.
unfoldable pub allocate_shared : Manager → ℕ → Option ℕ → Manager × Option ℕ
unfolding new_segment
allocate_shared m size mapped =
    if ltb m.end_address (add64 m.alloc_address size) then (m, none) else elim mapped [
      | none ↦ (m, none)
      | some res ↦ (
        record_segment (record m { alloc_address = add64 m.alloc_address size }) res size,
        some res,
      )
    ]

-- The free list of a size after its first object is taken.
abbrev pub keep_free : ℕ → List ℕ → Map ℕ (List ℕ) → Map ℕ (List ℕ)
keep_free size [] free = erase size free
keep_free size (p ∷ ps) free = insert size (p ∷ ps) free

-- The part of `allocate(size)` on a size that `free_map` has.
unfoldable pub allocate_free :
    Manager → ℕ → List ℕ → Option ℕ → Option ℕ → Result (Manager × Option ℕ)
unfolding allocate_shared
allocate_free m size [] remapped mapped = err out_of_range
allocate_free m size (p ∷ ps) remapped mapped = do
  memory ← or_fault (lookup p m.heap) bad_pointer
  elim remapped [
    | none ↦ ok (allocate_shared m size mapped)
    | some _ ↦ ok (
      record m {
        free_map = keep_free size ps m.free_map;
        memory_map = insert memory.vaddr p m.memory_map;
      },
      some memory.vaddr,
    )
  ]

-- `allocate(size)`. `remapped` is the answer for a free segment's address, `mapped` the one for the
-- next address of the share.
unfoldable pub allocate : Manager → ℕ → Option ℕ → Option ℕ → Result (Manager × Option ℕ)
unfolding allocate_free allocate_shared
allocate m size remapped mapped = elim (lookup size m.free_map) [
  | some vec ↦ allocate_free m size vec remapped mapped
  | none ↦ ok (allocate_shared m size mapped)
]

-- `deallocate(v_addr)`. The entry of `memory_map` stays.
unfoldable pub deallocate : Manager → ℕ → Result Manager
unfolding segment_at
deallocate m v_addr = do
  (p, memory) ← segment_at m v_addr
  let vec : List ℕ = elim (lookup memory.size m.free_map) [
    | none ↦ p ∷ []
    | some vec ↦ vec ++ (p ∷ [])
  ]
  ok (record m { free_map = insert memory.size vec m.free_map })

-- `allocate(v_addr, size)`
unfoldable pub allocate_at : Manager → ℕ → ℕ → Option ℕ → Manager × Option ℕ
unfolding new_segment
allocate_at m v_addr size none = (m, none)
allocate_at m v_addr size (some res) = (record_segment m res size, some res)
