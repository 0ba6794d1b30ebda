-- ===== src/Tolerant/Allocate.antt =====
-- src/distributed-allocator/RDMAMemory.tpp, built with FAULT_TOLERANT: allocation at an address that
-- the servers agree on, and deallocation by the id of the application. What `mmap` answers is an
-- argument: an address, or `none` for MAP_FAILED. A failed `munmap` is only logged.
use rdma_migration_system.Prelude.{ℕ, Option, some, none, Bool, true, false, List, [], ◌∷◌}
use rdma_migration_system.Prelude.Tests.{if◌then◌else◌}
use rdma_migration_system.Prelude.Integers.{ℤ, negsuc}
use rdma_migration_system.Prelude.Results.{Result, ok, err, bad_pointer, or_fault, ◌>>=◌}
use rdma_migration_system.Prelude.Maps.{Map, lookup, insert, erase, nat_key}
use rdma_migration_system.Records.Order.{Text, text_key}
use rdma_migration_system.Records.Decimal.{stoul, stoull}
use rdma_migration_system.Registry.{ZooKeeper, read_allocator, write_allocator}
use rdma_migration_system.Registry.Segments.{
  address_key, size_key, create_memory_segment_node, delete_memory_segment, get_memory_segment,
}
use rdma_migration_system.Registry.Processes.{add_to_process_list, remove_from_process_list}
use rdma_migration_system.Manager.Allocate.{record_segment}
use rdma_migration_system.Tolerant.{Tolerant, own_id}

-- `map[key]`, an empty text where there is none.
abbrev pub text_at : Text → Map Text Text → Text
text_at key m = elim (lookup key m) [ none ↦ [] | some text ↦ text ]

module _ {Z : Type 0} (zk : ZooKeeper Z) where
  -- `getAllocationAddress`. Each entry of the list is a round, and says what the other servers do
  -- to the service between the read and the write; `none` is a call that still tries.
  unfoldable pub get_allocation_address : List (Z → Z) → Z → ℕ → Option (Result (Z × ℕ))
  get_allocation_address [] z size = none
  get_allocation_address (others ∷ rounds) z size = elim (read_allocator zk z) [
    | err e ↦ some (err e)
    | ok (res, version) ↦
        let (z', done) =
          write_allocator zk (others z) (record { addr = res; version = version; size = size }) in
        elim done [ true ↦ some (ok (z', res)) | false ↦ get_allocation_address rounds z' size ]
  ]

  -- `new RDMAMemory(…)`, and its entry in `local_segments`.
  abbrev pub record_local : Tolerant Z → ℕ → ℕ → ℤ → Tolerant Z
  record_local t res size id = record t {
    manager = record_segment t.manager res size;
    application_ids = insert t.manager.next id t.application_ids;
  }

  -- `allocate(size, application_id)` from the address that it was given.
  unfoldable pub allocate_fresh : Tolerant Z → ℕ → ℕ → ℤ → Option ℕ → Tolerant Z × Option ℕ
  allocate_fresh t address size application_id none = (t, none)
  allocate_fresh t address size application_id (some res) =
      let (z, created) =
        create_memory_segment_node zk t.zoo address size (own_id t) (negsuc 0) application_id in
      let (z', added) = add_to_process_list zk (own_id t) z application_id in
      if created
      then (if added
          then (record_local (record t { zoo = z' }) res size application_id, some res)
          else (record t { zoo = z' }, none))
      else (record t { zoo = z }, none)

  -- `allocate(size, application_id)`
  unfoldable pub allocate :
      List (Z → Z) → Tolerant Z → ℕ → ℤ → Option ℕ → Option (Result (Tolerant Z × Option ℕ))
  allocate rounds t size application_id mapped = elim (get_allocation_address rounds t.zoo size) [
    | none ↦ none
    | some (err e) ↦ some (err e)
    | some (ok (z, address)) ↦
        some (ok (allocate_fresh (record t { zoo = z }) address size application_id mapped))
  ]

  -- `allocate(v_addr, size, application_id)`
  unfoldable pub allocate_at : Tolerant Z → ℕ → ℕ → ℤ → Option ℕ → Tolerant Z × Option ℕ
  allocate_at t v_addr size application_id none = (t, none)
  allocate_at t v_addr size application_id (some res) =
      (record_local t res size application_id, some res)

  -- The part of `deallocate` for a segment of this server.
  unfoldable pub release_local : Tolerant Z → ℕ → Result (Tolerant Z)
  release_local t v_addr = elim (lookup v_addr t.manager.memory_map) [
    | none ↦ ok t
    | some p ↦ do
      id ← or_fault (lookup p t.application_ids) bad_pointer
      (z, _) ← remove_from_process_list zk (own_id t) t.zoo id
      ok (record t {
        zoo = z;
        manager = record t.manager { memory_map = erase v_addr t.manager.memory_map };
      })
  ]

  -- `deallocate`; `true` is 0, and `false` -1. The size is only used to unmap.
  unfoldable pub deallocate : Tolerant Z → ℤ → Result (Tolerant Z × Bool)
  unfolding release_local
  deallocate t application_id = do
    map ← get_memory_segment zk t.zoo application_id
    v_addr ← stoul (text_at address_key map)
    size ← stoull (text_at size_key map)
    t' ← release_local t v_addr
    (z, done) ← delete_memory_segment zk t'.zoo application_id (own_id t')
    ok (record t' { zoo = z }, done)
