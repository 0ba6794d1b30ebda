-- ===== src/Manager/Stages.antt =====
-- src/distributed-allocator/RDMAMemory.tpp: what each stage of a migration does to a manager that
-- holds the segment.
use rdma_migration_system.Prelude.{ℕ, ◌≡◌, refl, ◌∙◌, arith, some, Bool, true, false, [], ◌∷◌, ◌++◌}
use rdma_migration_system.Prelude.Tests.{==_iff}
use rdma_migration_system.Prelude.Results.{ok}
use rdma_migration_system.Prelude.Maps.{Map, lookup, insert, lookup-insert, nat_key}
use rdma_migration_system.Manager.{
  Manager, Segment, State, shared, clean, register, register_local, deregister, prepare, accept,
  transfer, done_transfer,
}
use rdma_migration_system.Manager.Links.{connection}
use rdma_migration_system.Manager.Segments.{
  new_segment, segment_at, store, update_state, update_pair,
}
use rdma_migration_system.Manager.Allocate.{allocate_at, record_segment}
use rdma_migration_system.Manager.Migrate.{
  register_at, deregister_at, prepare_segment, accept_segment, transfer_segment, on_transfer,
  close_segment, on_close,
}
use rdma_migration_system.Manager.Poller.{Kind, Kernel, dispatch}

pub same_key : {V : Type 0} (k : ℕ) (v : V) (m : Map ℕ V) → lookup k (insert k v m) ≡ some v
same_key k v m = lookup-insert k k v m ∙ rw ((==_iff k k).1 refl) refl

-- The manager has this object at this address.
abbrev pub Holds : Manager → ℕ → ℕ → Segment → Type 0
Holds m addr p s = segment_at m addr ≡ ok (p, s)

pub store-Holds :
    (m : Manager) (addr p : ℕ) (s t : Segment) → Holds m addr p s → Holds (store m p t) addr p t
unfolding segment_at
store-Holds m addr p s t h = ground (arith, same_key p t m.heap)

pub record_segment-Holds :
    (m : Manager) (addr size : ℕ)
    → Holds (record_segment m addr size) addr m.next (new_segment m.node.server_id addr size)
unfolding segment_at new_segment
record_segment-Holds m addr size =
    rw
      (
        same_key addr m.next m.memory_map,
        same_key m.next (new_segment m.node.server_id addr size) m.heap,
      )
      refl

module _ (m : Manager) (addr p : ℕ) (s : Segment) (holds : Holds m addr p s) where
  pub update_pair-store :
      (id : ℕ) → update_pair m addr id ≡ (store m p (record s { pair = some id }), true)
  unfolding update_pair segment_at
  update_pair-store id = ground arith

  pub update_state-store :
      (t : State) → update_state m addr t ≡ (store m p (record s { state = t }), true)
  unfolding update_state segment_at
  update_state-store t = ground arith

  module _ (other conn : ℕ) (linked : connection m.node other ≡ ok conn) where
    pub prepare_segment-run :
        (size : ℕ)
        → prepare_segment m addr size other
          ≡ ok (
            store m p (record s { pair = some other }),
            (conn, register addr size) ∷ (conn, prepare addr size) ∷ [],
          )
    unfolding prepare_segment register_at
    prepare_segment-run size = rw (holds, update_pair-store other, linked, prepare_segment) refl

    pub transfer_segment-run :
        (size : ℕ)
        → transfer_segment m addr size other
          ≡ ok (
            store m p (record s { owner = other; state = shared }),
            (conn, transfer addr size) ∷ [],
          )
    unfolding transfer_segment
    transfer_segment-run size = rw (holds, linked, transfer_segment) refl

    pub close_segment-run :
        (paging : Bool) (size : ℕ)
        → close_segment paging m addr size other true
          ≡ ok (
            store m p (record s { state = clean }),
            (conn, done_transfer addr size) ∷ (conn, deregister addr) ∷ [],
          )
    unfolding close_segment deregister_at
    close_segment-run true size = rw (update_state-store clean, linked, close_segment) refl
    close_segment-run false size = rw (update_state-store clean, linked, close_segment) refl

    pub dispatch-done :
        (paging : Bool) (k : Kernel) (size : ℕ)
        → dispatch paging k m addr size other Kind.done
          ≡ ok (
            record m { incoming_dones = m.incoming_dones ++ (p ∷ []) },
            (conn, deregister addr) ∷ [],
          )
    unfolding dispatch on_close deregister_at
    dispatch-done paging k size = rw (linked, holds, dispatch) refl

  pub dispatch-accept :
      (paging : Bool) (k : Kernel) (size other : ℕ)
      → dispatch paging k m addr size other Kind.accept
        ≡ ok (record m { incoming_accepts = m.incoming_accepts ++ (p ∷ []) }, [])
  unfolding dispatch
  dispatch-accept paging k size other = rw (holds, dispatch) refl

  pub dispatch-transfer :
      (k : Kernel) (size other : ℕ)
      → k.protected ≡ true
      → dispatch true k m addr size other Kind.transfer
        ≡ ok (
          record (store m p (record s { state = shared })) {
            incoming_transfers = m.incoming_transfers ++ (p ∷ []);
          },
          [],
        )
  unfolding dispatch on_transfer
  dispatch-transfer k size other can =
      rw
        (
          can,
          update_state-store shared,
          store-Holds m addr p s (record s { state = shared }) holds,
          dispatch,
        )
        refl

-- `mmap` gives the address that it is asked for, and `mprotect` succeeds.
abbrev pub grants : ℕ → Kernel
grants addr = record { mapped = some addr; protected = true }

pub dispatch-prepare :
    (m : Manager) (addr size other conn : ℕ) (paging : Bool)
    → connection m.node other ≡ ok conn
    → dispatch paging (grants addr) m addr size other Kind.prepare
      ≡ ok (
        store
            (record_segment m addr size)
            m.next
            (record (new_segment m.node.server_id addr size) { pair = some other }),
        (conn, register_local addr size) ∷ (conn, accept addr size) ∷ [],
      )
unfolding dispatch accept_segment allocate_at
dispatch-prepare m addr size other conn paging linked =
    rw (linked, dispatch)
      (rw
        (update_pair-store (record_segment m addr size) addr m.next
          (new_segment m.node.server_id addr size) (record_segment-Holds m addr size) other)
        refl)
