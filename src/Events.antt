-- ===== src/Events.antt =====
-- The event thread of src/rdma-network/rdma_client.cpp and rdma_server_prototype.cpp: how a client's
-- connection comes up and goes down. A socket and a connection object are addresses. Addresses of
-- new objects and what the verbs library answers are arguments.
pub mod Connects
pub mod Setup
pub mod Server
pub mod Accepting
mod Examples
use rdma_migration_system.Prelude.{
  ℕ, Option, some, none, Bool, true, false, ◌&&◌, List, [], ◌∷◌, ◌++◌, map,
}
use rdma_migration_system.Prelude.Tests.{if◌then◌else◌}
use rdma_migration_system.Prelude.Results.{
  Result, ok, err, exits, logic_error, exception, bad_pointer, or_fault, ◌>>=◌,
}
use rdma_migration_system.Prelude.Maps.{Map, lookup, insert, erase, nat_key}
use rdma_migration_system.Net.{Registration, Connection, Verbs, Effect}
use rdma_migration_system.Net.Posts.{register_memory_with_conn, post_rdma_receive}

-- The events of the connection manager that `on_event` tells apart, and all the others.
pub data Event : Type 0 where
  addr_resolved route_resolved connect_request established disconnected other : Event

-- What a handler does to the outside.
pub data Act : Type 0 where
  posts : Effect → Act
  resolves_route connects wakes_connect wakes_done : Act
  deregisters : Registration → Act
  destroys_queue_pair destroys_socket : Act

-- `RDMAClient`. `contexts` are the connection objects of sockets. `error` has no initial value.
pub record Client : Type 0 where
  pub resources : Bool
  pub connection : Option ℕ
  pub contexts : Map ℕ ℕ
  pub connections : Map ℕ Connection
  pub error : Bool
  pub stop_after_last_conn : Bool

-- The addresses of a new connection object and of its buffers, the keys of each buffer's
-- registration, and whether the other calls, which are asserted, succeed.
pub record Fresh : Type 0 where
  pub object : ℕ
  pub send_buffer : ℕ
  pub recv_buffer : ℕ
  pub send_keys : Option (ℕ × ℕ)
  pub recv_keys : Option (ℕ × ℕ)
  pub post_recv : Bool
  pub works : Bool

-- `sizeof(struct rdma_message)`: a type of 4 bytes, padded, a region of 24, the data, the size.
abbrev pub message_size : ℕ
message_size = 2088

abbrev pub answers : Fresh → Option (ℕ × ℕ) → Verbs
answers f keys = record { post_recv = f.post_recv; post_send = true; reg_mr = keys }

-- `build_connection_object`
unfoldable pub build_connection_object : Fresh → Result Connection
build_connection_object f = do
  let conn : Connection = record {
    registrations = [];
    send_buffer = f.send_buffer;
    recv_buffer = f.recv_buffer;
    remote_registrations = [];
    recv_queue = [];
    sent_done = false;
    recv_done = false;
    register_memory_sem = false;
    disconnection_sem = false;
  }
  (one, _) ← register_memory_with_conn (answers f f.send_keys) conn f.send_buffer message_size
  (two, _) ← register_memory_with_conn (answers f f.recv_keys) one f.recv_buffer message_size
  ok two

abbrev pub asserted : Bool → Result Bool
asserted true = ok true
asserted false = err exits

-- The part of `on_addr_resolved` that builds the connection. `build_resources_for_device` and
-- `build_queue_pair` are asserted calls.
unfoldable pub build_client : Fresh → Client → ℕ → Result (Client × List Act)
unfolding build_connection_object
build_client f c socket = if c.resources then err logic_error else (do
  _ ← asserted f.works
  elim c.connection [
    | some _ ↦ err logic_error
    | none ↦ do
      conn ← build_connection_object f
      armed ← post_rdma_receive (answers f none) conn
      ok (
        record c {
          resources = true;
          connection = some f.object;
          contexts = insert socket f.object c.contexts;
          connections = insert f.object conn c.connections;
        },
        posts armed ∷ [],
      )
  ])

-- `RDMAClient::on_addr_resolved`
unfoldable pub on_addr_resolved : Fresh → Client → ℕ → Result (Client × List Act)
unfolding build_client
on_addr_resolved f c socket = do
  (c', acts) ← if c.error then ok (c, []) else build_client f c socket
  _ ← asserted f.works
  ok (c', acts ++ (resolves_route ∷ []))

-- `RDMAClient::on_route_resolved`
unfoldable pub on_route_resolved : Fresh → Client → Result (Client × List Act)
on_route_resolved f c = do _ ← asserted f.works; ok (c, connects ∷ [])

-- `RDMAClient::on_connection`
unfoldable pub on_connection : Client → Client × List Act
on_connection c = (record c { error = false }, wakes_connect ∷ [])

-- `on_disconnect`. Nothing sets the semaphore before `done`.
unfoldable pub on_disconnect : Client → ℕ → Result (Client × List Act)
on_disconnect c socket = do
  object ← or_fault (lookup socket c.contexts) bad_pointer
  conn ← or_fault (lookup object c.connections) bad_pointer
  if conn.disconnection_sem
      then ok (
        record c { connections = erase object c.connections },
        wakes_done
            ∷ destroys_queue_pair
            ∷ (map (λ r. deregisters r.1) conn.registrations ++ (destroys_socket ∷ [])),
      )
      else err bad_pointer

abbrev pub none_left : Map ℕ Connection → Bool
none_left [] = true
none_left (_ ∷ _) = false

-- `RDMAClient::on_event`, and whether the loop goes on. The base class throws on a request.
unfoldable pub on_event : Fresh → Client → ℕ → Event → Result (Bool × Client × List Act)
unfolding on_addr_resolved on_route_resolved on_connection on_disconnect
on_event f c socket addr_resolved = do (c', acts) ← on_addr_resolved f c socket; ok (true, c', acts)
on_event f c socket route_resolved = do (c', acts) ← on_route_resolved f c; ok (true, c', acts)
on_event f c socket connect_request = err exception
on_event f c socket established = ok (true, (on_connection c).0, (on_connection c).1)
on_event f c socket disconnected = do
  (c', acts) ← on_disconnect c socket
  if c'.stop_after_last_conn && none_left c'.connections
      then ok (false, c', acts)
      else ok (true, c', acts)
on_event f c socket other = ok (false, c, [])

-- `RDMAClient::event_loop` on the events of one socket, up to the end of the loop or of the events.
unfoldable pub event_loop : Client → ℕ → List (Fresh × Event) → Result (Client × List Act)
unfolding on_event
event_loop c socket [] = ok (c, [])
event_loop c socket ((f, e) ∷ es) = do
  (goes_on, c', acts) ← on_event f c socket e
  let rest = event_loop c' socket es
  if goes_on then (do (d, others) ← rest; ok (d, acts ++ others)) else ok (c', acts)
