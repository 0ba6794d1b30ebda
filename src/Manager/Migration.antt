-- ===== src/Manager/Migration.antt =====
-- A whole migration between two managers: `Prepare`, `accept`, `Transfer`, `close`, and what the
-- pollers do in between, built with PAGING.
use rdma_migration_system.Prelude.{ℕ, ◌≡◌, refl, some, true, [], ◌∷◌, ◌++◌}
use rdma_migration_system.Prelude.Results.{ok}
use rdma_migration_system.Manager.{
  Manager, Segment, shared, register, register_local, deregister, prepare, accept, transfer,
  done_transfer,
}
use rdma_migration_system.Manager.Links.{connection}
use rdma_migration_system.Manager.Segments.{new_segment, segment_at, store}
use rdma_migration_system.Manager.Allocate.{record_segment}
use rdma_migration_system.Manager.Migrate.{prepare_segment, transfer_segment, close_segment}
use rdma_migration_system.Manager.Poller.{Kind, dispatch}
use rdma_migration_system.Manager.Stages.{
  Holds, grants, store-Holds, record_segment-Holds, prepare_segment-run, transfer_segment-run,
  close_segment-run, dispatch-done, dispatch-accept, dispatch-transfer, dispatch-prepare,
}

-- The stages of the migration of a segment of `a`, at `addr`, to `b`, and the state at its end.
-- `a` speaks to `b` over the connection `ca`, and `b` to `a` over `cb`.
pub record Migrates (a b : Manager) (addr size p : ℕ) (s : Segment) (ca cb : ℕ) : Type 0 where
  pub a_prepared : Manager
  pub a_accepted : Manager
  pub a_shared : Manager
  pub a_closed : Manager
  pub b_allocated : Manager
  pub b_transferred : Manager
  pub b_closed : Manager
  pub prepares :
      prepare_segment a addr size b.node.server_id
      ≡ ok (a_prepared, (ca, register addr size) ∷ (ca, prepare addr size) ∷ [])
  pub allocates :
      dispatch true (grants addr) b addr size a.node.server_id Kind.prepare
      ≡ ok (b_allocated, (cb, register_local addr size) ∷ (cb, accept addr size) ∷ [])
  pub accepts :
      dispatch true (grants addr) a_prepared addr size b.node.server_id Kind.accept
      ≡ ok (a_accepted, [])
  pub transfers :
      transfer_segment a_accepted addr size b.node.server_id
      ≡ ok (a_shared, (ca, transfer addr size) ∷ [])
  pub takes :
      dispatch true (grants addr) b_allocated addr size a.node.server_id Kind.transfer
      ≡ ok (b_transferred, [])
  pub closes :
      close_segment true b_transferred addr size a.node.server_id true
      ≡ ok (b_closed, (cb, done_transfer addr size) ∷ (cb, deregister addr) ∷ [])
  pub releases :
      dispatch true (grants addr) a_shared addr size b.node.server_id Kind.done
      ≡ ok (a_closed, (ca, deregister addr) ∷ [])
  pub left :
      Holds a_closed addr p
        (record s { owner = b.node.server_id; state = shared; pair = some b.node.server_id })
  pub arrived :
      Holds b_closed addr b.next
        (record (new_segment b.node.server_id addr size) { pair = some a.node.server_id })
  pub told_accept : a_closed.incoming_accepts ≡ a.incoming_accepts ++ (p ∷ [])
  pub told_done : a_closed.incoming_dones ≡ a.incoming_dones ++ (p ∷ [])
  pub told_transfer : b_closed.incoming_transfers ≡ b.incoming_transfers ++ (b.next ∷ [])

-- A segment that a server holds goes to another one, in seven stages that all return, where the
-- servers know each other, `mmap` gives the address that it is asked for and `mprotect` succeeds:
-- each side makes just the calls that the other side's next stage waits for and deregisters what it
-- registered; in the end the segment belongs to the new server at the same address, clean, the old
-- server holds it as shared, and each queue of the application got the segment once.
pub migration :
    (a b : Manager) (addr size p : ℕ) (s : Segment) (ca cb : ℕ)
    → Holds a addr p s
    → connection a.node b.node.server_id ≡ ok ca
    → connection b.node a.node.server_id ≡ ok cb
    → Migrates a b addr size p s ca cb
unfolding segment_at new_segment
migration a b addr size p s ca cb holds to_b to_a =
    let sb = b.node.server_id in
    let prepared : Segment = record s { pair = some sb } in
    let a1 = store a p prepared in
    let h1 : Holds a1 addr p prepared = store-Holds a addr p s prepared holds in
    let a2 = record a1 { incoming_accepts = a.incoming_accepts ++ (p ∷ []) } in
    let gone : Segment = record prepared { owner = sb; state = shared } in
    let a3 = store a2 p gone in
    let h3 : Holds a3 addr p gone = store-Holds a2 addr p prepared gone h1 in
    let b0 = record_segment b addr size in
    let new = new_segment sb addr size in
    let paired : Segment = record new { pair = some a.node.server_id } in
    let b1 = store b0 b.next paired in
    let k1 : Holds b1 addr b.next paired =
      store-Holds b0 addr b.next new paired (record_segment-Holds b addr size) in
    let waiting : Segment = record paired { state = shared } in
    let b2 = record (store b1 b.next waiting) {
      incoming_transfers = b.incoming_transfers ++ (b.next ∷ []);
    } in
    let k2 : Holds b2 addr b.next waiting = store-Holds b1 addr b.next paired waiting k1 in
    record {
      a_prepared = a1;
      a_accepted = a2;
      a_shared = a3;
      a_closed = record a3 { incoming_dones = a.incoming_dones ++ (p ∷ []) };
      b_allocated = b1;
      b_transferred = b2;
      b_closed = store b2 b.next paired;
      prepares = prepare_segment-run a addr p s holds sb ca to_b size;
      allocates = dispatch-prepare b addr size a.node.server_id cb true to_a;
      accepts = dispatch-accept a1 addr p prepared h1 true (grants addr) size sb;
      transfers = transfer_segment-run a2 addr p prepared h1 sb ca to_b size;
      takes = dispatch-transfer b1 addr b.next paired k1 (grants addr) size a.node.server_id refl;
      closes = close_segment-run b2 addr b.next waiting k2 a.node.server_id cb to_a true size;
      releases = dispatch-done a3 addr p gone h3 sb ca to_b true (grants addr) size;
      left = h3;
      arrived = store-Holds b2 addr b.next waiting paired k2;
      told_accept = refl;
      told_done = refl;
      told_transfer = refl;
    }
