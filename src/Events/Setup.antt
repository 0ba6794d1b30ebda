-- ===== src/Events/Setup.antt =====
-- The event loop of src/rdma-network/rdma_client.cpp on the events of a new connection.
use rdma_migration_system.Prelude.{ℕ, ◌≡◌, ◌≢◌, refl, ◌∙◌, arith, some, none, true, false, [], ◌∷◌}
use rdma_migration_system.Prelude.Tests.{==_iff}
use rdma_migration_system.Prelude.Results.{ok}
use rdma_migration_system.Prelude.Maps.{lookup, insert, lookup-insert, nat_key}
use rdma_migration_system.Net.{Registration, Connection, posts_receive}
use rdma_migration_system.Net.Posts.{register_memory_with_conn, post_rdma_receive}
use rdma_migration_system.Net.Meminfo.{HasBuffers}
use rdma_migration_system.Events.{
  addr_resolved, route_resolved, established, posts, resolves_route, connects, wakes_connect,
  Client, Fresh, message_size, build_connection_object, build_client, on_addr_resolved,
  on_route_resolved, on_connection, on_event, event_loop,
}

abbrev buffer : ℕ × ℕ → Registration
buffer keys = record { length = message_size; lkey = keys.0; rkey = keys.1 }

module _ (f : Fresh) (send recv : ℕ × ℕ) where
  abbrev built : Connection
  built = record {
    registrations = insert f.recv_buffer (buffer recv) (insert f.send_buffer (buffer send) []);
    send_buffer = f.send_buffer;
    recv_buffer = f.recv_buffer;
    remote_registrations = [];
    recv_queue = [];
    sent_done = false;
    recv_done = false;
    register_memory_sem = false;
    disconnection_sem = false;
  }

  build_connection_object-built :
      f.send_keys ≡ some send → f.recv_keys ≡ some recv → build_connection_object f ≡ ok built
  unfolding build_connection_object register_memory_with_conn
  build_connection_object-built es er = rw (es, er) refl

  recv_found : lookup f.recv_buffer built.registrations ≡ some (buffer recv)
  recv_found =
      lookup-insert f.recv_buffer f.recv_buffer (buffer recv)
        (insert f.send_buffer (buffer send) [])
      ∙ rw ((==_iff f.recv_buffer f.recv_buffer).1 refl) refl

  built-HasBuffers : f.send_buffer ≢ f.recv_buffer → HasBuffers built
  built-HasBuffers apart = record {
    sending = buffer send;
    receiving = buffer recv;
    send_found = ground (
      arith,
      lookup-insert f.recv_buffer f.send_buffer (buffer recv)
          (insert f.send_buffer (buffer send) []),
      ==_iff f.recv_buffer f.send_buffer,
      ==_iff f.send_buffer f.send_buffer,
    );
    recv_found = recv_found;
  }

-- The client before `connect`; a run where `error` happens to start as false.
abbrev pub unconnected : Client
unconnected = record {
  resources = false;
  connection = none;
  contexts = [];
  connections = [];
  error = false;
  stop_after_last_conn = true;
}

abbrev connected : Fresh → ℕ × ℕ → ℕ × ℕ → ℕ → Client
connected f send recv socket = record unconnected {
  resources = true;
  connection = some f.object;
  contexts = insert socket f.object [];
  connections = insert f.object (built f send recv) [];
}

only : {V : Type 0} (k : ℕ) (v : V) → lookup k (insert k v []) ≡ some v
only k v = lookup-insert k k v [] ∙ rw ((==_iff k k).1 refl) refl

-- The connection object of the socket has its two buffers registered, and neither side has sent or
-- received DONE on it.
abbrev pub Connected : Client → ℕ → ℕ → Type 0
Connected d socket object =
    (conn : Connection) × (lookup socket d.contexts ≡ some object)
    × (lookup object d.connections ≡ some conn)
    × HasBuffers conn
    × (conn.sent_done ≡ false)
    × (conn.recv_done ≡ false)

-- The three events of a connection that comes up, where every call succeeds, the buffers are
-- different memory and `error` starts as false: the client registers both buffers, arms the receipt
-- of a message before it connects, and wakes the caller of `connect`, last, when the connection
-- object is in place.
pub event_loop-Connected :
    (f g h : Fresh) (socket : ℕ) (send recv : ℕ × ℕ)
    → f.send_keys ≡ some send
    → f.recv_keys ≡ some recv
    → f.post_recv ≡ true
    → f.works ≡ true
    → g.works ≡ true
    → f.send_buffer ≢ f.recv_buffer
    → (d : Client) × (lkey : ℕ) × (event_loop unconnected socket
          ((f, addr_resolved) ∷ (g, route_resolved) ∷ (h, established) ∷ [])
        ≡ ok (d, posts (posts_receive lkey) ∷ resolves_route ∷ connects ∷ wakes_connect ∷ []))
      × Connected d socket f.object
unfolding event_loop on_event on_addr_resolved build_client on_route_resolved on_connection
    post_rdma_receive
event_loop-Connected f g h socket send recv es er pr fw gw apart = (
  connected f send recv socket,
  recv.0,
  ground
      (arith, fw, gw, pr, build_connection_object-built f send recv es er, recv_found f send recv),
  (
    built f send recv,
    only socket f.object,
    only f.object (built f send recv),
    built-HasBuffers f send recv apart,
    refl,
    refl,
  ),
)
