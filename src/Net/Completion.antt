-- ===== src/Net/Completion.antt =====
-- src/rdma-network/rdma_server_prototype.cpp: the completion thread. A completion carries the
-- message that lies in the connection's buffer.
use rdma_migration_system.Prelude.{ℕ, zero, suc, Bool, true, false, List, [], ◌∷◌, ◌++◌}
use rdma_migration_system.Prelude.Tests.{if◌then◌else◌}
use rdma_migration_system.Prelude.Results.{
  Result, ok, err, runtime_error, logic_error, bad_pointer, ◌>>=◌,
}
use rdma_migration_system.Prelude.Maps.{insert, nat_key}
use rdma_migration_system.Net.{
  Message, MessageType, msg_get_partitions, msg_sent_partitions, msg_user, msg_meminfo,
  msg_ack_meminfo, msg_done, msg_prepare, msg_accept, msg_decline, msg_transfer, msg_done_transfer,
  Received, bytes, whole, Connection, Notify, silent, semaphore, callback, Effect, sem_posts,
  register_sem, completion_sem, disconnects, calls_back, Verbs, Handled,
}
use rdma_migration_system.Net.Posts.{plain, post_rdma_receive, post_rdma_send}

abbrev pub enqueue : Connection → Received → Connection
enqueue c x = record c { recv_queue = c.recv_queue ++ (x ∷ []) }

-- The first `n` bytes of the array `data`, which is zero behind what was copied into it.
abbrev pub data_bytes : ℕ → List ℕ → List ℕ
data_bytes zero xs = []
data_bytes (suc n) [] = 0 ∷ data_bytes n []
data_bytes (suc n) (x ∷ xs) = x ∷ data_bytes n xs

-- Rearm the receive queue, then pass the whole message to the user.
pass_up : Verbs → Connection → Message → Result Handled
pass_up v c msg = do rearmed ← post_rdma_receive v c; ok (enqueue c (whole msg), rearmed ∷ [])

-- `on_recv_finish`, by the type of the message that is in the receive buffer as the handler begins. The
-- handlers rearm the queue with the same buffer before they read it: `later` is what the buffer holds
-- then.
unfoldable pub recv_finish : Verbs → Connection → Message → MessageType → Result Handled
unfolding pass_up
recv_finish v c later msg_user = do
  rearmed ← post_rdma_receive v c
  ok (enqueue c (bytes (data_bytes later.data_size later.content)), rearmed ∷ [])
recv_finish v c later msg_meminfo = do
  rearmed ← post_rdma_receive v c
  let c' = record c {
    remote_registrations = insert later.region_info.addr later.region_info c.remote_registrations;
  }
  (_, sent) ← post_rdma_send v c' (plain msg_ack_meminfo) silent
  ok (c', rearmed ∷ sent)
recv_finish v c later msg_ack_meminfo = do
  rearmed ← post_rdma_receive v c
  if c.register_memory_sem then ok (c, rearmed ∷ sem_posts register_sem ∷ []) else err bad_pointer
recv_finish v c later msg_done =
    ok (record c { recv_done = true }, if c.sent_done then disconnects ∷ [] else [])
recv_finish v c later msg_transfer = do
  rearmed ← post_rdma_receive v c
  ok (
    enqueue
        (record c {
          remote_registrations =
              insert later.region_info.addr later.region_info c.remote_registrations;
        })
        (whole later),
    rearmed ∷ [],
  )
recv_finish v c later msg_prepare = pass_up v c later
recv_finish v c later msg_accept = pass_up v c later
recv_finish v c later msg_done_transfer = pass_up v c later
recv_finish v c later msg_decline = pass_up v c later
recv_finish v c later msg_get_partitions = pass_up v c later
recv_finish v c later msg_sent_partitions = pass_up v c later

unfoldable pub on_recv_finish_rearmed : Verbs → Connection → Message → Message → Result Handled
unfolding recv_finish
on_recv_finish_rearmed v c msg later = recv_finish v c later msg.message_type

-- The same where no other message comes into the buffer before the handler has read it.
unfoldable pub on_recv_finish : Verbs → Connection → Message → Result Handled
unfolding on_recv_finish_rearmed recv_finish
on_recv_finish v c msg = on_recv_finish_rearmed v c msg msg

-- `on_send_finish`, by the type of the message in the send buffer. A declined segment's message
-- has no branch.
unfoldable pub send_finish : Connection → MessageType → Result Handled
send_finish c msg_done =
    ok (record c { sent_done = true }, if c.recv_done then disconnects ∷ [] else [])
send_finish c msg_decline = err runtime_error
send_finish c _ = ok (c, [])

unfoldable pub on_send_finish : Connection → Message → Result Handled
unfolding send_finish
on_send_finish c msg = send_finish c msg.message_type

-- The opcodes of a work completion that the code tells apart.
pub data Opcode : Type 0 where
  recv send rdma_read rdma_write comp_swap fetch_add bind_mw recv_rdma_with_imm : Opcode

-- A completion, with the message in its buffer; `later` is what a receive buffer holds once it is
-- posted again.
pub record WorkCompletion : Type 0 where
  pub success : Bool
  pub opcode : Opcode
  pub message : Message
  pub later : Message
  pub notify : Notify

unfoldable pub finish : Verbs → Connection → WorkCompletion → Opcode → Result Handled
finish v c wc recv = on_recv_finish_rearmed v c wc.message wc.later
finish v c wc send = on_send_finish c wc.message
finish v c wc rdma_read = ok (c, [])
finish v c wc _ = err logic_error

abbrev pub notified : Notify → List Effect
notified silent = []
notified semaphore = sem_posts completion_sem ∷ []
notified (callback context) = calls_back context ∷ []

-- `on_completion`, with the flag `run` after it.
unfoldable pub on_completion : Verbs → Connection → WorkCompletion → Result (Bool × Handled)
unfolding finish
on_completion v c wc =
    if wc.success
    then (do
      (c', effects) ← finish v c wc wc.opcode
      ok (true, (c', effects ++ notified wc.notify)))
    else ok (false, (c, []))
