-- ===== src/Mesh.antt =====
-- src/distributed-allocator/RDMAMemNode.tpp: how the servers get to know each other. The servers of
-- the configuration (include/utils/miscutils.hpp) are a map from ids to nodes; what connecting to
-- a node answers, and who connects to this server in which order, are arguments.
pub mod Linked
pub mod Arrivals
mod Examples
use rdma_migration_system.Prelude.{
  ℕ, zero, suc, ◌+◌, ◌-◌, Option, some, none, Bool, true, false, List, [], ◌∷◌, ◌++◌,
}
use rdma_migration_system.Prelude.Tests.{ltb, ◌==◌, if◌then◌else◌}
use rdma_migration_system.Prelude.Lists.{length}
use rdma_migration_system.Prelude.Results.{Result, ok, err, out_of_range, blocks, or_fault, ◌>>=◌}
use rdma_migration_system.Prelude.Maps.{Map, lookup, insert, nat_key}
use rdma_migration_system.Records.Order.{Text}
use rdma_migration_system.Manager.Links.{Node}

-- `RNode`
pub record RNode : Type 0 where
  pub id : ℕ
  pub ip : Text
  pub port : ℕ

-- `insert` of `std::unordered_map`: an entry that is there stays.
abbrev pub insert_new : ℕ → ℕ → Map ℕ ℕ → Map ℕ ℕ
insert_new k v m = elim (lookup k m) [ none ↦ insert k v m | some _ ↦ m ]

-- What a new client object answers for a node: its own address, and the connection or 0.
abbrev pub Dial : Type 0
Dial = ℕ → RNode → ℕ × ℕ

-- The servers to which this one has sent its id, by connection.
abbrev pub Sent : Type 0
Sent = List ℕ

-- The round of the first loop on the server `id`; `none` is the return value -1.
unfoldable pub dial_server : Map ℕ RNode → Dial → Node → ℕ → Result (Option (Node × Sent))
dial_server map dial n id = if id == n.server_id then ok (some (n, [])) else (do
  node ← or_fault (lookup id map) out_of_range
  let (client, connection) = dial id node
  if connection == 0
      then ok none
      else ok (
          some (
            record n {
              clients = insert_new connection client n.clients;
              connections = insert_new id connection n.connections;
            },
            connection ∷ [],
          )))

-- What is sent later comes after what is sent first.
abbrev pub after_sent : Sent → Option (Node × Sent) → Option (Node × Sent)
after_sent sent none = none
after_sent sent (some (n, others)) = some (n, sent ++ others)

-- The first loop, on the servers below `count`, the highest first.
unfoldable pub dial_lower : Map ℕ RNode → Dial → Node → ℕ → Result (Option (Node × Sent))
unfolding dial_server
dial_lower map dial n zero = ok (some (n, []))
dial_lower map dial n (suc id) = do
  dialled ← dial_server map dial n id
  elim dialled [
    | none ↦ ok none
    | some (n', sent) ↦ do others ← dial_lower map dial n' id; ok (after_sent sent others)
  ]

-- The second loop, while connections are missing. `arrivals` are the ids that other servers send
-- over the connections that they open, in order; when there are no more, the call waits.
unfoldable pub accept_others : Node → ℕ → List (ℕ × ℕ) → Result Node
accept_others n total [] = if ltb (length n.connections) total then err blocks else ok n
accept_others n total ((id, conn) ∷ arrivals) =
    let rest =
      accept_others (record n { connections = insert_new id conn n.connections }) total arrivals in
    if ltb (length n.connections) total then rest else ok n

-- `connect_mesh`
unfoldable pub connect_mesh :
    Map ℕ RNode → Dial → Node → List (ℕ × ℕ) → Result (Option (Node × Sent))
unfolding dial_lower accept_others
connect_mesh map dial n arrivals = do
  dialled ← dial_lower map dial n n.server_id
  elim dialled [
    | none ↦ ok none
    | some (n', sent) ↦ do
      n'' ← accept_others n' (n.num_servers - 1) arrivals
      ok (some (n'', sent))
  ]
