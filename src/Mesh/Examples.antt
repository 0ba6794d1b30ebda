-- ===== src/Mesh/Examples.antt =====
-- The second of three servers joins.
use rdma_migration_system.Prelude.{ℕ, ◌≤◌, ◌<◌, ◌≡◌, arith, some, [], ◌∷◌}
use rdma_migration_system.Prelude.Lists.{length}
use rdma_migration_system.Prelude.Results.{ok}
use rdma_migration_system.Prelude.Maps.{Map, nat_key}
use rdma_migration_system.Manager.Links.{Node}
use rdma_migration_system.Manager.Polling.{Linked}
use rdma_migration_system.Mesh.{RNode, Dial, Sent, connect_mesh}
use rdma_migration_system.Mesh.Linked.{Answers, Served}
use rdma_migration_system.Mesh.Arrivals.{alone, connect_mesh-Linked}

abbrev host : ℕ → RNode
host id = record { id = id; ip = []; port = 5000 }

abbrev hosts : Map ℕ RNode
hosts = (0, host 0) ∷ (1, host 1) ∷ (2, host 2) ∷ []

abbrev dials : Dial
dials id node = (7, 100)

hosts-Answers : Answers hosts dials 1
hosts-Answers k low = (host k, ground arith, λ e. ground arith)

connect_mesh-Linked_example :
    (d : Node) × (sent : Sent) × (connect_mesh hosts dials (alone 1 3) ((2, 102) ∷ [])
      ≡ ok (some (d, sent)))
    × Linked d
    × ((k : ℕ) → k < 1 → Served d k)
    × (2 ≤ length d.connections)
connect_mesh-Linked_example =
    connect_mesh-Linked hosts dials 1 3 ((2, 102) ∷ []) hosts-Answers (tt, tt) (omega arith, tt)
      (omega arith)
