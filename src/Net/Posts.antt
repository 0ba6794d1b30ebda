-- ===== src/Net/Posts.antt =====
-- src/rdma-network/rdma_server_prototype.cpp: the requests that are posted to a queue pair, and
-- registrations.
use rdma_migration_system.Prelude.{ℕ, Bool, true, false, List, [], ◌∷◌}
use rdma_migration_system.Prelude.Tests.{if◌then◌else◌}
use rdma_migration_system.Prelude.Results.{Result, ok, err, exits, bad_pointer, or_fault, ◌>>=◌}
use rdma_migration_system.Prelude.Word.{as_int}
use rdma_migration_system.Prelude.Maps.{lookup, insert, nat_key}
use rdma_migration_system.Net.{
  RemoteRegion, Message, MessageType, Registration, Connection, Notify, semaphore, callback, Effect,
  posts_receive, posts_send, posts_read, posts_write, Verbs,
}

abbrev pub no_region : RemoteRegion
no_region = record { addr = 0; length = 0; rkey = 0 }

-- `memset` to zero, and the type.
abbrev pub plain : MessageType → Message
plain t = record { message_type = t; region_info = no_region; content = []; data_size = 0 }

-- `post_rdma_receive`: the key of the receive buffer's registration is read through a pointer.
unfoldable pub post_rdma_receive : Verbs → Connection → Result Effect
post_rdma_receive v c = do
  buffer ← or_fault (lookup c.recv_buffer c.registrations) bad_pointer
  if v.post_recv then ok (posts_receive buffer.lkey) else err exits

-- `post_rdma_send` returns what `ibv_post_send` does; nothing is sent if that is not 0. The effect has the
-- content of the send buffer, which no earlier send is still to read.
unfoldable pub post_rdma_send : Verbs → Connection → Message → Notify → Result (Bool × List Effect)
post_rdma_send v c msg n = do
  _ ← or_fault (lookup c.send_buffer c.registrations) bad_pointer
  ok (if v.post_send then (true, posts_send msg n ∷ []) else (false, []))

-- `post_rdma_read` with a semaphore
unfoldable pub post_rdma_read : Verbs → ℕ → ℕ → ℕ → ℕ → ℕ → Result Effect
post_rdma_read v local_addr lkey remote_addr rkey length =
    if v.post_send
    then ok (
        posts_read (record {
          local_addr = local_addr;
          lkey = lkey;
          remote_addr = remote_addr;
          rkey = rkey;
          length = length;
          notify = semaphore;
        }))
    else err exits

-- `post_rdma_read` with a callback. A failure to post is only logged.
unfoldable pub post_rdma_read_async : Verbs → ℕ → ℕ → ℕ → ℕ → ℕ → ℕ → List Effect
post_rdma_read_async v local_addr lkey remote_addr rkey length context =
    if v.post_send
    then posts_read (record {
      local_addr = local_addr;
      lkey = lkey;
      remote_addr = remote_addr;
      rkey = rkey;
      length = length;
      notify = callback context;
    })
      ∷ []
    else []

-- `post_rdma_write`: the source address of the request is the remote address.
unfoldable pub post_rdma_write : Verbs → ℕ → ℕ → ℕ → ℕ → ℕ → Result Effect
post_rdma_write v local_addr lkey remote_addr rkey length =
    if v.post_send
    then ok (
        posts_write (record {
          local_addr = remote_addr;
          lkey = lkey;
          remote_addr = remote_addr;
          rkey = rkey;
          length = length;
          notify = semaphore;
        }))
    else err exits

-- `register_memory_with_conn` takes the size as an `int`. The library registers that many bytes.
unfoldable pub register_memory_with_conn :
    Verbs → Connection → ℕ → ℕ → Result (Connection × Registration)
register_memory_with_conn v c addr size = do
  (lkey, rkey) ← or_fault v.reg_mr exits
  let registration : Registration = record { length = as_int size; lkey = lkey; rkey = rkey }
  ok (record c { registrations = insert addr registration c.registrations }, registration)
