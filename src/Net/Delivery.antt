-- ===== src/Net/Delivery.antt =====
-- The completion handlers of src/rdma-network/rdma_server_prototype.cpp: what a received message does
-- to a connection, and what reaches the user.
use mathlib.Core.List.{append-nil}
use rdma_migration_system.Prelude.{
  ℕ, ◌≤◌, ◌≡◌, refl, ap, arith, some, Bool, true, false, List, [], ◌∷◌, ◌++◌,
}
use rdma_migration_system.Prelude.Tests.{if◌then◌else◌, le→ltb}
use rdma_migration_system.Prelude.Lists.{length}
use rdma_migration_system.Prelude.Results.{ok}
use rdma_migration_system.Prelude.Maps.{lookup, insert, nat_key}
use rdma_migration_system.Net.{
  Message, MessageType, msg_user, msg_meminfo, msg_ack_meminfo, msg_done, msg_transfer,
  max_data_size, Registration, Received, bytes, whole, Connection, semaphore, Effect, posts_receive,
  posts_send, sem_waits, completion_sem, Verbs,
}
use rdma_migration_system.Net.Posts.{plain, post_rdma_receive, post_rdma_send}
use rdma_migration_system.Net.Sends.{send}
use rdma_migration_system.Net.Completion.{
  data_bytes, enqueue, recv_finish, on_recv_finish, on_recv_finish_rearmed,
}

-- What the user gets from a message.
abbrev pub for_user : Message → MessageType → List Received
for_user msg msg_user = bytes (data_bytes msg.data_size msg.content) ∷ []
for_user msg msg_meminfo = []
for_user msg msg_ack_meminfo = []
for_user msg msg_done = []
for_user msg _ = whole msg ∷ []

-- Does the message tell of memory of the other side?
abbrev pub tells_region : MessageType → Bool
tells_region msg_meminfo = true
tells_region msg_transfer = true
tells_region _ = false

-- `d` is `c` after the receipt of `msg`.
pub record Delivered (c d : Connection) (msg : Message) : Type 0 where
  pub queue : d.recv_queue ≡ c.recv_queue ++ for_user msg msg.message_type
  pub regions : d.remote_registrations ≡ (
      if tells_region msg.message_type
      then insert msg.region_info.addr msg.region_info c.remote_registrations
      else c.remote_registrations)
  pub own : d.registrations ≡ c.registrations
  pub sent : d.sent_done ≡ c.sent_done

recv_finish-Delivered :
    (v : Verbs) (c d : Connection) (msg : Message) (t : MessageType) (effects : List Effect)
    → msg.message_type ≡ t
    → recv_finish v c msg t ≡ ok (d, effects)
    → Delivered c d msg
unfolding recv_finish post_rdma_receive post_rdma_send
recv_finish-Delivered v c d msg msg_user effects et e = ground arith
recv_finish-Delivered v c d msg _ effects et e = ground (arith, append-nil c.recv_queue)

-- A received message goes to the end of the user's queue, as bytes or whole, or not at all, by its
-- type; its region is recorded where it tells of one; the own registrations stay.
pub on_recv_finish-Delivered :
    (v : Verbs) (c d : Connection) (msg : Message) (effects : List Effect)
    → on_recv_finish v c msg ≡ ok (d, effects)
    → Delivered c d msg
unfolding on_recv_finish on_recv_finish_rearmed
on_recv_finish-Delivered v c d msg effects e =
    recv_finish-Delivered v c d msg msg.message_type effects refl e

data_bytes-all : (xs : List ℕ) → data_bytes (length xs) xs ≡ xs
data_bytes-all [] = refl
data_bytes-all (x ∷ xs) = ap (◌∷◌ x) (data_bytes-all xs)

abbrev pub user_message : List ℕ → Message
user_message xs = record (plain msg_user) { content = xs; data_size = length xs }

-- A user message of at most 2048 bytes is posted, where the send buffer is registered and posting
-- succeeds. On receipt, where the receive buffer is registered, the handler rearms it, and what it then
-- holds goes to the end of the receiver's queue: the bytes that were sent, if no other message has come
-- into the buffer, and else those of the other message.
pub send-recv :
    (v w : Verbs) (c d : Connection) (xs : List ℕ) (later : Message) (own other : Registration)
    → length xs ≤ max_data_size
    → lookup c.send_buffer c.registrations ≡ some own
    → lookup d.recv_buffer d.registrations ≡ some other
    → v.post_send ≡ true
    → w.post_recv ≡ true
    → (send v c xs ≡ ok (c, posts_send (user_message xs) semaphore ∷ sem_waits completion_sem ∷ []))
      × (on_recv_finish_rearmed w d (user_message xs) (user_message xs)
          ≡ ok (enqueue d (bytes xs), posts_receive other.lkey ∷ []))
      × (on_recv_finish_rearmed w d (user_message xs) later
          ≡ ok (
            enqueue d (bytes (data_bytes later.data_size later.content)),
            posts_receive other.lkey ∷ [],
          ))
unfolding send on_recv_finish_rearmed recv_finish post_rdma_receive post_rdma_send
send-recv v w c d xs later own other short ec ed posts rearms = (
  rw (le→ltb max_data_size (length xs) short, ec, posts) refl,
  rw (ed, rearms, data_bytes-all xs) refl,
  rw (ed, rearms) refl,
)
