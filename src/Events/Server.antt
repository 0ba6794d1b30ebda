-- ===== src/Events/Server.antt =====
-- src/rdma-network/rdma_server.cpp: the listening side. The event thread gives each connection to a
-- user's thread that waits in `accept`.
use rdma_migration_system.Prelude.{ℕ, zero, suc, ◌+◌, Option, some, none, List, [], ◌∷◌, ◌++◌}
use rdma_migration_system.Prelude.Tests.{◌==◌, if◌then◌else◌}
use rdma_migration_system.Prelude.Results.{Result, ok, err, runtime_error, blocks, ◌>>=◌}
use rdma_migration_system.Prelude.Maps.{Map, insert, nat_key}
use rdma_migration_system.Net.{Connection}
use rdma_migration_system.Net.Posts.{post_rdma_receive}
use rdma_migration_system.Events.{Fresh, Act, posts, answers, asserted, build_connection_object}

-- `RDMAServer`. `resources` is the device that they were built for, `conn_queue_sem` the value of
-- the semaphore.
pub record Server : Type 0 where
  pub resources : Option ℕ
  pub contexts : Map ℕ ℕ
  pub connections : Map ℕ Connection
  pub conn_queue_sem : ℕ
  pub conn_queue : List ℕ

-- The device's resources, built once; another device ends the event thread by an exception.
unfoldable pub use_device : Fresh → Server → ℕ → Result Server
use_device f s device = elim s.resources [
  | none ↦ do _ ← asserted f.works; ok (record s { resources = some device })
  | some known ↦ if known == device then ok s else err runtime_error
]

-- `RDMAServer::on_connect_request`, up to the call of `rdma_accept`, which is asserted.
unfoldable pub on_connect_request : Fresh → Server → ℕ → ℕ → Result (Server × List Act)
unfolding use_device
on_connect_request f s socket device = do
  s' ← use_device f s device
  _ ← asserted f.works
  conn ← build_connection_object f
  armed ← post_rdma_receive (answers f none) conn
  ok (
    record s' {
      contexts = insert socket f.object s'.contexts;
      connections = insert f.object conn s'.connections;
    },
    posts armed ∷ [],
  )

-- `RDMAServer::on_connection`, its wait for an accepter.
unfoldable pub on_connection_waits : Server → Result Server
on_connection_waits s = elim s.conn_queue_sem [
  | zero ↦ err blocks
  | suc n ↦ ok (record s { conn_queue_sem = n })
]

-- Then the socket goes to the queue.
unfoldable pub on_connection_enqueues : Server → ℕ → Server
on_connection_enqueues s socket = record s { conn_queue = s.conn_queue ++ (socket ∷ []) }

-- `RDMAServer::accept`, up to the wait for the queue.
unfoldable pub accept_begins : Server → Server
accept_begins s = record s { conn_queue_sem = s.conn_queue_sem + 1 }

-- The end of `accept`: the socket that it takes from the queue; its context is returned.
unfoldable pub accept_takes : Server → Result (Server × ℕ)
accept_takes s = elim s.conn_queue [
  | [] ↦ err blocks
  | socket ∷ sockets ↦ ok (record s { conn_queue = sockets }, socket)
]
