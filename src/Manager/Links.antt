-- ===== src/Manager/Links.antt =====
-- include/distributed-allocator/RDMAMemNode.hpp: how a server finds the object that speaks over a
-- connection.
use rdma_migration_system.Prelude.{ℕ}
use rdma_migration_system.Prelude.Tests.{ltb, if◌then◌else◌}
use rdma_migration_system.Prelude.Results.{Result, ok, bad_pointer, or_fault, ◌>>=◌}
use rdma_migration_system.Prelude.Maps.{Map, lookup, nat_key}

-- `connections` maps a server to a connection, and `clients` a connection to a client object; a
-- connection that a higher server opened belongs to the one server object.
pub record Node : Type 0 where
  pub server_id : ℕ
  pub num_servers : ℕ
  pub connections : Map ℕ ℕ
  pub clients : Map ℕ ℕ

-- The object that `getServer` returns.
pub data Endpoint : Type 0 where
  client : ℕ → Endpoint
  server : Endpoint

-- `getServer`; a client that is missing from the map is a null pointer.
unfoldable pub get_server : Node → ℕ → ℕ → Result Endpoint
get_server n id conn_id =
    if ltb id n.server_id
    then (do c ← or_fault (lookup conn_id n.clients) bad_pointer; ok (client c))
    else ok server

-- `connections[id]`, then `getServer(id, conn_id)->…`. A missing connection reads as 0, which both
-- kinds of object take for a null pointer.
unfoldable pub connection : Node → ℕ → Result ℕ
unfolding get_server
connection n id = do
  conn_id ← or_fault (lookup id n.connections) bad_pointer
  _ ← get_server n id conn_id
  ok conn_id
