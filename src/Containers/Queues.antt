-- ===== src/Containers/Queues.antt =====
-- `PollForAccept` and `Transfer` of src/c++-containers/rdma_container_base.tpp: the queues of the
-- manager are shared by all the containers of a server.
use rdma_migration_system.Prelude.{ℕ, ◌≡◌, ◌≢◌, refl, ◌∙◌, arith, some, true, false, List, [], ◌∷◌}
use rdma_migration_system.Prelude.Tests.{◌==◌, ==_iff}
use rdma_migration_system.Prelude.Results.{ok}
use rdma_migration_system.Prelude.Maps.{lookup, nat_key}
use rdma_migration_system.Manager.{Manager, Segment, shared, transfer}
use rdma_migration_system.Manager.Links.{connection}
use rdma_migration_system.Manager.Segments.{store}
use rdma_migration_system.Manager.Poller.{peek_accept}
use rdma_migration_system.Manager.Stages.{Holds, transfer_segment-run}
use rdma_migration_system.Manager.Migrate.{transfer_segment}
use rdma_migration_system.Containers.{
  MemoryPool, Container, own_segment, container_poll_for_accept, transfer_container,
}

transfer_container-pair :
    (m : Manager) (c : Container) (p pair : ℕ) (s : Segment)
    → c.rdma_memory ≡ some p
    → lookup p m.heap ≡ some s
    → s.pair ≡ some pair
    → transfer_container m c ≡ transfer_segment m s.vaddr s.size pair
unfolding transfer_container own_segment
transfer_container-pair m c p pair s mine here paired =
    rw (mine, here, paired, transfer_container) refl

-- Where the first accepted segment belongs to another container, `PollForAccept` of this one returns
-- true all the same, and its `Transfer` then hands the other container's segment over.
pub transfer_foreign :
    (m : Manager) (c : Container) (pool : MemoryPool) (p pair conn : ℕ) (ps : List ℕ) (s : Segment)
    → c.mempool ≡ some pool
    → m.incoming_accepts ≡ p ∷ ps
    → lookup p m.heap ≡ some s
    → Holds m s.vaddr p s
    → s.vaddr ≢ pool.addr
    → s.pair ≡ some pair
    → connection m.node pair ≡ ok conn
    → let d = record c { rdma_memory = some p } in
      (container_poll_for_accept m c ≡ ok (m, d, true))
      × (transfer_container m d
          ≡ ok (
            store m p (record s { owner = pair; state = shared }),
            (conn, transfer s.vaddr s.size) ∷ [],
          ))
unfolding container_poll_for_accept own_segment peek_accept
transfer_foreign m c pool p pair conn ps s has accepts here holds apart paired linked =
    let other : (s.vaddr == pool.addr) ≡ false = ground (arith, ==_iff s.vaddr pool.addr) in
    (
      rw (accepts, here, has, other) refl,
      transfer_container-pair m (record c { rdma_memory = some p }) p pair s refl here paired
          ∙ transfer_segment-run m s.vaddr p s holds pair conn linked s.size,
    )
