-- ===== src/Tolerant/Migrate.antt =====
-- src/distributed-allocator/RDMAMemory.tpp, built with FAULT_TOLERANT: the two sides of a migration,
-- and the branches of the poller on a message.
use rdma_migration_system.Prelude.{
  ℕ, suc, Option, some, none, Bool, true, false, not, ◌&&◌, List, [], ◌∷◌, ◌++◌,
}
use rdma_migration_system.Prelude.Tests.{if◌then◌else◌}
use rdma_migration_system.Prelude.Integers.{ℤ, pos, negsuc}
use rdma_migration_system.Prelude.Results.{Result, ok, err, exits, bad_pointer, or_fault, ◌>>=◌}
use rdma_migration_system.Prelude.Maps.{Map, lookup, nat_key}
use rdma_migration_system.Records.{comma, c_str}
use rdma_migration_system.Records.Order.{Text}
use rdma_migration_system.Records.Signed.{int_to_string, atol}
use rdma_migration_system.Registry.{ZooKeeper}
use rdma_migration_system.Registry.Segments.{update_segment_destination, clean_memory_segment}
use rdma_migration_system.Registry.Processes.{add_to_process_list}
use rdma_migration_system.Manager.{
  Manager, State, clean, Calls, register_local, accept, decline, done_transfer,
}
use rdma_migration_system.Manager.Links.{connection}
use rdma_migration_system.Manager.Segments.{segment_at, update_state, update_pair}
use rdma_migration_system.Manager.Migrate.{
  register_at, deregister_at, transfer_segment, on_transfer, on_close,
}
use rdma_migration_system.Manager.Poller.{Kernel, Kind}
use rdma_migration_system.Tolerant.{
  Tolerant, Requests, plain, prepare_client, send_partitions, own_id, application_at,
}
use rdma_migration_system.Tolerant.Allocate.{allocate_at, deallocate}

abbrev pub plainly : Calls → Requests
plainly [] = []
plainly ((conn_id, call) ∷ calls) = (conn_id, plain call) ∷ plainly calls

-- A pair as a number.
abbrev pub pair_id : Option ℕ → ℤ
pair_id none = negsuc 0
pair_id (some server_id) = pos server_id

abbrev pub is_clean : State → Bool
is_clean clean = true
is_clean _ = false

module _ {Z : Type 0} where
  abbrev pub with_manager : Tolerant Z → Manager → Tolerant Z
  with_manager t m = record t { manager = m }

  -- `Prepare`
  unfoldable pub prepare_segment : Tolerant Z → ℕ → ℕ → ℕ → Result (Tolerant Z × Requests)
  unfolding update_pair register_at connection application_at
  prepare_segment t v_addr size destination = do
    let t' = with_manager t (update_pair t.manager v_addr destination).0
    conn_id ← connection t.manager.node destination
    calls ← register_at t'.manager v_addr size destination
    (_, _, id) ← application_at t' v_addr
    ok (t', plainly calls ++ ((conn_id, prepare_client v_addr size (int_to_string id)) ∷ []))

  -- `Transfer`
  unfoldable pub transfer : Tolerant Z → ℕ → ℕ → ℕ → Result (Tolerant Z × Requests)
  unfolding transfer_segment
  transfer t v_addr size destination = do
    (m, calls) ← transfer_segment t.manager v_addr size destination
    ok (with_manager t m, plainly calls)

  -- The loop of `getLocalSegmentsList` over `local_segments`.
  unfoldable pub clean_ids : Tolerant Z → Map ℕ ℕ → Result (List ℤ)
  clean_ids t [] = ok []
  clean_ids t ((v_addr, p) ∷ rest) = do
    s ← or_fault (lookup p t.manager.heap) bad_pointer
    id ← or_fault (lookup p t.application_ids) bad_pointer
    vec ← clean_ids t rest
    ok (if is_clean s.state then id ∷ vec else vec)

  -- `getLocalSegmentsList`
  unfoldable pub get_local_segments_list : Tolerant Z → Result (List ℤ)
  unfolding clean_ids
  get_local_segments_list t = clean_ids t t.manager.memory_map

  -- The loop of the poller that writes the answer to GETPARTITIONS.
  unfoldable pub clean_text : Tolerant Z → Map ℕ ℕ → Result Text
  clean_text t [] = ok []
  clean_text t ((v_addr, p) ∷ rest) = do
    s ← or_fault (lookup p t.manager.heap) bad_pointer
    id ← or_fault (lookup p t.application_ids) bad_pointer
    str ← clean_text t rest
    ok (if is_clean s.state then int_to_string id ++ (comma ∷ str) else str)

module _ {Z : Type 0} (zk : ZooKeeper Z) where
  -- `accept`. The id goes on the list of this server whether the segment could be mapped or not;
  -- `posted` is whether `send_accept` returns 0.
  unfoldable pub accept_segment :
      Tolerant Z → ℕ → ℕ → ℕ → ℤ → Option ℕ → Bool → Result (Tolerant Z × Option ℕ × Requests)
  unfolding allocate_at update_pair connection
  accept_segment t v_addr size source client_id mapped posted = do
    let (t', mem) = allocate_at zk t v_addr size client_id mapped
    let (z, _) = add_to_process_list zk (own_id t) t'.zoo client_id
    conn_id ← connection t.manager.node source
    elim mem [
      | none ↦ ok (record t' { zoo = z }, none, (conn_id, plain (decline 0 size)) ∷ [])
      | some a ↦ do
        let m = (update_pair t'.manager a source).0
        let t'' = record t' { zoo = z; manager = m }
        let calls =
            (conn_id, plain (register_local v_addr size)) ∷ (conn_id, plain (accept a size)) ∷ []
        elim posted [
          | true ↦ ok (t'', some a, calls)
          | false ↦ do (t3, _) ← deallocate zk t'' client_id; ok (t3, none, calls)
        ]
    ]

  -- `close`
  unfoldable pub close_segment :
      Bool → Tolerant Z → ℕ → ℕ → ℕ → Bool → Result (Tolerant Z × Requests)
  unfolding update_state deregister_at connection application_at
  close_segment paging t v_addr size source protected =
      if paging && not protected then err exits else (do
        (_, _, app_id) ← application_at t v_addr
        (z, _) ← clean_memory_segment zk (own_id t) t.zoo app_id
        let m = (update_state t.manager v_addr clean).0
        conn_id ← connection m.node source
        calls ← deregister_at m v_addr source
        ok (
          record t { zoo = z; manager = m },
          (conn_id, plain (done_transfer v_addr size)) ∷ plainly calls,
        ))

  -- The branches of `poller_thread_method` on a message, whose array has the characters `content`
  -- and zeros behind them.
  unfoldable pub dispatch :
      Bool → Kernel → Bool → Tolerant Z → ℕ → ℕ → Text → ℕ → Kind → Result (Tolerant Z × Requests)
  unfolding accept_segment application_at deregister_at on_transfer on_close clean_text connection
      segment_at
  dispatch paging k posted t addr size content source Kind.prepare = do
    (t', _, calls) ← accept_segment t addr size source (atol (c_str content)) k.mapped posted
    ok (t', calls)
  dispatch paging k posted t addr size content source Kind.accept = do
    (p, s, client_id) ← application_at t addr
    (z, _) ← update_segment_destination zk t.zoo client_id (pair_id s.pair)
    ok (
      record t {
        zoo = z;
        manager = record t.manager { incoming_accepts = t.manager.incoming_accepts ++ (p ∷ []) };
      },
      [],
    )
  dispatch paging k posted t addr size content source Kind.decline = do
    calls ← deregister_at t.manager addr source
    ok (t, plainly calls)
  dispatch paging k posted t addr size content source Kind.transfer = do
    (m, calls) ← on_transfer paging t.manager addr size source k.protected
    (p, _) ← segment_at m addr
    ok (
      with_manager t (record m { incoming_transfers = m.incoming_transfers ++ (p ∷ []) }),
      plainly calls,
    )
  dispatch paging k posted t addr size content source Kind.done = do
    (m, calls) ← on_close t.manager addr source
    ok (with_manager t m, plainly calls)
  dispatch paging k posted t addr size content source Kind.get_partitions = do
    str ← clean_text t t.manager.memory_map
    conn_id ← connection t.manager.node source
    ok (t, (conn_id, send_partitions str) ∷ [])
  dispatch paging k posted t addr size content source Kind.sent_partitions =
      ok (record t { partition_list = c_str content; answers = suc t.answers }, [])
  dispatch paging k posted t addr size content source Kind.user = ok (t, [])
