-- ===== src/Tolerant/Books.antt =====
-- The records of segments and the lists of servers in one service: a write of the one kind leaves the
-- other.
use rdma_migration_system.Prelude.{ℕ, ◌≢◌, ap, ◌∙◌, sym, arith, List, ◌∷◌}
use rdma_migration_system.Prelude.Integers.{ℤ}
use rdma_migration_system.Records.Order.{Text}
use rdma_migration_system.Registry.{ZooKeeper, Elsewhere}
use rdma_migration_system.Registry.Segments.{segment_path}
use rdma_migration_system.Registry.Spec.{Registered, Represents}
use rdma_migration_system.Registry.Processes.{process_path}
use rdma_migration_system.Registry.Partitions.{Lists}
use rdma_migration_system.Registry.Refinement.{Held-same}

second : Text → ℕ
second (_ ∷ c ∷ s) = c
second _ = 0

pub segment_process_apart : (id server_id : ℤ) → segment_path id ≢ process_path server_id
unfolding second
segment_process_apart id server_id e = ground (arith, ap second e)

module _ {Z : Type 0} (zk : ZooKeeper Z) where
  pub Represents-list :
      (z z' : Z) (r : Registered) (server_id : ℤ)
      → Elsewhere zk.get (process_path server_id) z z'
      → Represents zk z r
      → Represents zk z' r
  Represents-list z z' r server_id others rep id long =
      Held-same zk z z' (segment_path id) (r id)
        (others (segment_path id) (segment_process_apart id server_id)) (rep id long)

  pub Lists-segment :
      (z z' : Z) (server_id id : ℤ) (ids : List ℤ)
      → Elsewhere zk.get (segment_path id) z z'
      → Lists zk z server_id ids
      → Lists zk z' server_id ids
  Lists-segment z z' server_id id ids others (long, room, (v, stored)) = (
    long,
    room,
    (v, others (process_path server_id) (λ e. segment_process_apart id server_id (sym e)) ∙ stored),
  )
