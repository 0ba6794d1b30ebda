-- ===== src/Tolerant/Stages.antt =====
-- src/distributed-allocator/RDMAMemory.tpp, built with FAULT_TOLERANT: what each stage of a migration
-- does to a server that holds the segment, and to the records.
use rdma_migration_system.Prelude.{ℕ, ◌≡◌, refl, ap, ◌∙◌, some, Bool, true, [], ◌∷◌, ◌++◌}
use rdma_migration_system.Prelude.Results.{ok}
use rdma_migration_system.Prelude.Integers.{ℤ, IsLong}
use rdma_migration_system.Prelude.Maps.{lookup, insert, nat_key}
use rdma_migration_system.Records.{c_str}
use rdma_migration_system.Records.Signed.{int_to_string, atol, atol-int_to_string}
use rdma_migration_system.Records.Fields.{c_str-Plain}
use rdma_migration_system.Records.Digits.{int_to_string-Plain}
use rdma_migration_system.Registry.{ZooKeeper}
use rdma_migration_system.Registry.Segments.{update_segment_destination, clean_memory_segment}
use rdma_migration_system.Registry.Processes.{add_to_process_list}
use rdma_migration_system.Manager.{
  Segment, shared, clean, register, register_local, deregister, accept, transfer, done_transfer,
}
use rdma_migration_system.Manager.Links.{connection}
use rdma_migration_system.Manager.Segments.{new_segment, store}
use rdma_migration_system.Manager.Allocate.{record_segment}
use rdma_migration_system.Manager.Poller.{Kind, Kernel}
use rdma_migration_system.Manager.Migrate.{deregister_at, register_at, on_transfer, on_close}
use rdma_migration_system.Manager.Stages.{
  Holds, grants, store-Holds, record_segment-Holds, update_pair-store, update_state-store,
  transfer_segment-run,
}
use rdma_migration_system.Tolerant.{Tolerant, plain, prepare_client, own_id, application_at}
use rdma_migration_system.Tolerant.Allocate.{allocate_at}
use rdma_migration_system.Tolerant.Migrate.{
  prepare_segment, accept_segment, close_segment, dispatch, pair_id, with_manager,
  transfer as transfer_to,
}

read_id : (id : ℤ) → IsLong id → atol (c_str (int_to_string id)) ≡ id
read_id id long =
    ap atol (c_str-Plain (int_to_string id) (int_to_string-Plain id)) ∙ atol-int_to_string id long

module _ {Z : Type 0} (zk : ZooKeeper Z) where
  -- A new segment that was offered by another server.
  pub dispatch-prepare :
      (t : Tolerant Z) (addr size other conn : ℕ) (id : ℤ) (z : Z)
      → connection t.manager.node other ≡ ok conn
      → IsLong id
      → add_to_process_list zk (own_id t) t.zoo id ≡ (z, true)
      → dispatch zk true (grants addr) true t addr size (int_to_string id) other Kind.prepare
        ≡ ok (
          record t {
            zoo = z;
            manager =
                store
                  (record_segment t.manager addr size)
                  t.manager.next
                  (record (new_segment t.manager.node.server_id addr size) { pair = some other });
            application_ids = insert t.manager.next id t.application_ids;
          },
          (conn, plain (register_local addr size)) ∷ (conn, plain (accept addr size)) ∷ [],
        )
  unfolding dispatch accept_segment allocate_at
  dispatch-prepare t addr size other conn id z linked long added =
      rw (read_id id long, added, linked, dispatch, accept_segment)
        (rw
          (update_pair-store (record_segment t.manager addr size) addr t.manager.next
            (new_segment t.manager.node.server_id addr size)
            (record_segment-Holds t.manager addr size) other)
          refl)

  module _ (t : Tolerant Z) (addr p : ℕ) (s : Segment) (id : ℤ) (holds : Holds t.manager addr p s)
      (known : lookup p t.application_ids ≡ some id) where
    application_at-known : application_at t addr ≡ ok (p, s, id)
    unfolding application_at
    application_at-known = rw (holds, known, application_at) refl

    pub dispatch-accept :
        (k : Kernel) (posted : Bool) (size other : ℕ) (z : Z)
        → update_segment_destination zk t.zoo id (pair_id s.pair) ≡ ok (z, true)
        → dispatch zk true k posted t addr size [] other Kind.accept
          ≡ ok (
            record t {
              zoo = z;
              manager = record t.manager {
                incoming_accepts = t.manager.incoming_accepts ++ (p ∷ []);
              };
            },
            [],
          )
    unfolding dispatch
    dispatch-accept k posted size other z written =
        rw (application_at-known, written, dispatch) refl

    -- The segment goes on under its object, with its id.
    pub prepare_segment-run :
        (size other conn : ℕ)
        → connection t.manager.node other ≡ ok conn
        → prepare_segment t addr size other
          ≡ ok (
            with_manager t (store t.manager p (record s { pair = some other })),
            (conn, plain (register addr size))
                ∷ (conn, prepare_client addr size (int_to_string id))
                ∷ [],
          )
    unfolding prepare_segment register_at application_at
    prepare_segment-run size other conn linked =
        rw
          (
            update_pair-store t.manager addr p s holds other,
            linked,
            store-Holds t.manager addr p s (record s { pair = some other }) holds,
            known,
            prepare_segment,
            application_at,
          )
          refl

    pub transfer-run :
        (size other conn : ℕ)
        → connection t.manager.node other ≡ ok conn
        → transfer_to t addr size other
          ≡ ok (
            with_manager t (store t.manager p (record s { owner = other; state = shared })),
            (conn, plain (transfer addr size)) ∷ [],
          )
    unfolding transfer_to
    transfer-run size other conn linked =
        rw (transfer_segment-run t.manager addr p s holds other conn linked size, transfer_to) refl

    pub dispatch-transfer :
        (posted : Bool) (size other : ℕ)
        → dispatch zk true (grants addr) posted t addr size [] other Kind.transfer
          ≡ ok (
            with_manager t (record (store t.manager p (record s { state = shared })) {
              incoming_transfers = t.manager.incoming_transfers ++ (p ∷ []);
            }),
            [],
          )
    unfolding dispatch on_transfer
    dispatch-transfer posted size other =
        rw
          (
            update_state-store t.manager addr p s holds shared,
            store-Holds t.manager addr p s (record s { state = shared }) holds,
            dispatch,
          )
          refl

    pub close_segment-run :
        (size other conn : ℕ) (z : Z)
        → connection t.manager.node other ≡ ok conn
        → clean_memory_segment zk (own_id t) t.zoo id ≡ ok (z, true)
        → close_segment zk true t addr size other true
          ≡ ok (
            record t { zoo = z; manager = store t.manager p (record s { state = clean }) },
            (conn, plain (done_transfer addr size)) ∷ (conn, plain (deregister addr)) ∷ [],
          )
    unfolding close_segment deregister_at
    close_segment-run size other conn z linked written =
        rw
          (
            application_at-known,
            written,
            update_state-store t.manager addr p s holds clean,
            linked,
            close_segment,
          )
          refl

    pub dispatch-done :
        (k : Kernel) (posted : Bool) (size other conn : ℕ)
        → connection t.manager.node other ≡ ok conn
        → dispatch zk true k posted t addr size [] other Kind.done
          ≡ ok (
            with_manager t
                (record t.manager { incoming_dones = t.manager.incoming_dones ++ (p ∷ []) }),
            (conn, plain (deregister addr)) ∷ [],
          )
    unfolding dispatch on_close deregister_at
    dispatch-done k posted size other conn linked = rw (linked, holds, dispatch) refl
