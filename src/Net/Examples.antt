-- ===== src/Net/Examples.antt =====
-- Connections with two registered buffers, and what goes over them.
use rdma_migration_system.Prelude.{ℕ, ◌≡◌, refl, arith, some, true, false, List, [], ◌∷◌}
use rdma_migration_system.Prelude.Results.{Fault, ok, err}
use rdma_migration_system.Net.{
  msg_user, msg_done, msg_ack_meminfo, msg_prepare, whole, bytes, Registration, Connection, silent,
  semaphore, posts_receive, posts_send, sem_waits, sem_posts, completion_sem, register_sem,
  disconnects, Verbs,
}
use rdma_migration_system.Net.Posts.{plain, post_rdma_receive}
use rdma_migration_system.Net.Sends.{send, register_memory}
use rdma_migration_system.Net.Reads.{find_rkey, rdma_read}
use rdma_migration_system.Net.Regions.{Reads, rdma_read-Reads}
use rdma_migration_system.Net.Completion.{
  enqueue, recv_finish, on_recv_finish, on_recv_finish_rearmed, on_send_finish, send_finish,
  WorkCompletion, Opcode, recv, rdma_write, finish, on_completion,
}
use rdma_migration_system.Net.Disconnect.{has_disconnect, run_completions, run_disconnects_iff}
use rdma_migration_system.Net.Delivery.{user_message, send-recv}
use rdma_migration_system.Net.Writes.{run_completions_stops}
use rdma_migration_system.Net.Meminfo.{
  meminfo, registered, informed, HasBuffers, register_memory_handshake,
}

abbrev working : Verbs
working = record { post_recv = true; post_send = true; reg_mr = some (5, 6) }

abbrev send_buffer : Registration
send_buffer = record { length = 4096; lkey = 1; rkey = 2 }

abbrev recv_buffer : Registration
recv_buffer = record { length = 4096; lkey = 3; rkey = 4 }

abbrev idle : Connection
idle = record {
  registrations = (10, send_buffer) ∷ (20, recv_buffer) ∷ [];
  send_buffer = 10;
  recv_buffer = 20;
  remote_registrations = (100, record { addr = 100; length = 50; rkey = 9 }) ∷ [];
  recv_queue = [];
  sent_done = false;
  recv_done = false;
  register_memory_sem = false;
  disconnection_sem = false;
}

idle-HasBuffers : HasBuffers idle
idle-HasBuffers = record {
  sending = send_buffer;
  receiving = recv_buffer;
  send_found = refl;
  recv_found = refl;
}

rdma_read-Reads_example : Reads idle 12 110 40 (rdma_read working idle 12 110 40)
rdma_read-Reads_example =
    rdma_read-Reads working idle 12 110 40 refl (omega arith, (omega arith, tt)) (omega arith, tt)
      (omega arith) (omega arith)

abbrev done_sent : WorkCompletion
done_sent = record {
  success = true;
  opcode = Opcode.send;
  message = plain msg_done;
  later = plain msg_done;
  notify = silent;
}

abbrev done_received : WorkCompletion
done_received = record {
  success = true;
  opcode = recv;
  message = plain msg_done;
  later = plain msg_user;
  notify = silent;
}

abbrev finished : Connection
finished = record idle { sent_done = true; recv_done = true }

run-done :
    run_completions idle ((working, done_sent) ∷ (working, done_received) ∷ [])
    ≡ ok (finished, disconnects ∷ [])
unfolding run_completions on_completion finish on_recv_finish on_recv_finish_rearmed recv_finish
    on_send_finish send_finish
run-done = refl

run_disconnects_iff_example : has_disconnect (disconnects ∷ []) ≡ true
run_disconnects_iff_example =
    run_disconnects_iff ((working, done_sent) ∷ (working, done_received) ∷ []) idle finished
      (disconnects ∷ []) refl run-done

recv-prepare :
    on_recv_finish working idle (plain msg_prepare)
    ≡ ok (enqueue idle (whole (plain msg_prepare)), posts_receive 3 ∷ [])
unfolding on_recv_finish on_recv_finish_rearmed recv_finish post_rdma_receive
recv-prepare = refl

abbrev text : List ℕ
text = 104 ∷ 105 ∷ []

send-recv_example :
    (send working idle text
      ≡ ok (idle, posts_send (user_message text) semaphore ∷ sem_waits completion_sem ∷ []))
    × (on_recv_finish_rearmed working idle (user_message text) (user_message text)
        ≡ ok (enqueue idle (bytes text), posts_receive 3 ∷ []))
    × (on_recv_finish_rearmed working idle (user_message text) (user_message (7 ∷ []))
        ≡ ok (enqueue idle (bytes (7 ∷ [])), posts_receive 3 ∷ []))
send-recv_example =
    send-recv working working idle idle text (user_message (7 ∷ [])) send_buffer recv_buffer
      (omega arith) refl refl refl refl

abbrev written : WorkCompletion
written = record {
  success = true;
  opcode = rdma_write;
  message = plain msg_user;
  later = plain msg_user;
  notify = semaphore;
}

run_completions_stops_example :
    (e : Fault) × (run_completions idle
        ((working, done_sent) ∷ (working, written) ∷ (working, done_sent) ∷ [])
      ≡ err e)
run_completions_stops_example =
    run_completions_stops ((working, done_sent) ∷ []) ((working, done_sent) ∷ []) idle working
      written refl refl

register_memory_handshake_example :
    (register_memory working idle 4096 8192 true
      ≡ ok (
        registered 4096 8192 5 6 idle,
        posts_send (meminfo 4096 8192 5 6) silent ∷ sem_waits register_sem ∷ [],
      ))
    × ((k : ℕ) × (on_recv_finish working idle (meminfo 4096 8192 5 6)
          ≡ ok (
            informed 4096 8192 5 6 idle,
            posts_receive k ∷ posts_send (plain msg_ack_meminfo) silent ∷ [],
          )))
    × ((k : ℕ) × (on_recv_finish working (registered 4096 8192 5 6 idle) (plain msg_ack_meminfo)
          ≡ ok (registered 4096 8192 5 6 idle, posts_receive k ∷ sem_posts register_sem ∷ [])))
    × ((key : ℕ) × (find_rkey (informed 4096 8192 5 6 idle).remote_registrations 5096 100
          ≡ some key))
register_memory_handshake_example =
    register_memory_handshake working working idle idle 4096 8192 5 6 1000 100 refl (refl, refl)
      (refl, refl) idle-HasBuffers idle-HasBuffers (omega arith) (omega arith) (omega arith)
