-- ===== src/Net/Sends.antt =====
-- src/rdma-network/rdma_server_prototype.cpp: the calls of the user's threads that send a message
-- or change the registrations. A wait on a semaphore is the last effect of such a call.
use rdma_migration_system.Prelude.{ℕ, Bool, true, false, List, [], ◌∷◌, ◌++◌}
use rdma_migration_system.Prelude.Tests.{ltb, if◌then◌else◌}
use rdma_migration_system.Prelude.Lists.{length}
use rdma_migration_system.Prelude.Results.{
  Result, ok, err, logic_error, bad_pointer, overrun, blocks, or_fault, ◌>>=◌,
}
use rdma_migration_system.Prelude.Maps.{lookup, erase, nat_key}
use rdma_migration_system.Net.{
  RemoteRegion, Message, MessageType, msg_get_partitions, msg_sent_partitions, msg_user,
  msg_meminfo, msg_done, msg_prepare, msg_accept, msg_decline, msg_transfer, msg_done_transfer,
  max_data_size, Registration, Received, Connection, silent, semaphore, sem_waits, completion_sem,
  register_sem, done_sem, deregisters, Verbs, Handled,
}
use rdma_migration_system.Net.Posts.{plain, post_rdma_send, register_memory_with_conn}

-- `send_meminfo`, up to the wait for the acknowledgement. The semaphore pointer is set for as long
-- as the wait lasts.
unfoldable pub send_meminfo : Verbs → Connection → ℕ → Registration → Result Handled
send_meminfo v c addr meminfo = do
  let region : RemoteRegion = record { addr = addr; length = meminfo.length; rkey = meminfo.rkey }
  (_, sent) ← post_rdma_send v c (record (plain msg_meminfo) { region_info = region }) silent
  ok (record c { register_memory_sem = true }, sent ++ (sem_waits register_sem ∷ []))

-- `register_memory(conn_id, addr, len, remote_access)`
unfoldable pub register_memory : Verbs → Connection → ℕ → ℕ → Bool → Result Handled
unfolding send_meminfo register_memory_with_conn
register_memory v c addr len remote_access = do
  (c', meminfo) ← register_memory_with_conn v c addr len
  if remote_access then send_meminfo v c' addr meminfo else ok (c', [])

-- `register_memory(conn_id, addr, len)`
unfoldable pub register_memory_quietly : Verbs → Connection → ℕ → ℕ → Result Handled
unfolding register_memory_with_conn
register_memory_quietly v c addr len = do
  (c', _) ← register_memory_with_conn v c addr len
  ok (c', [])

-- `deregister_memory`. For an address with no registration the map gives a null pointer, which
-- `ibv_dereg_mr` reads.
unfoldable pub deregister_memory : Connection → ℕ → Result Handled
deregister_memory c addr = do
  registration ← or_fault (lookup addr c.registrations) bad_pointer
  ok (record c { registrations = erase addr c.registrations }, deregisters registration ∷ [])

-- `send`
unfoldable pub send : Verbs → Connection → List ℕ → Result Handled
send v c msg_buffer = if ltb max_data_size (length msg_buffer) then err logic_error else (do
  (_, sent) ←
      post_rdma_send v c
        (record (plain msg_user) { content = msg_buffer; data_size = length msg_buffer }) semaphore
  ok (c, sent ++ (sem_waits completion_sem ∷ [])))

-- A message about a segment of this node; its key is read through the map.
abbrev pub keyed : Connection → MessageType → ℕ → ℕ → Result Message
keyed c t start_addr len = do
  registration ← or_fault (lookup start_addr c.registrations) bad_pointer
  ok (record (plain t) {
    region_info = record { addr = start_addr; length = len; rkey = registration.rkey };
  })

-- A message about a segment, with no key.
abbrev pub unkeyed : MessageType → ℕ → ℕ → Message
unkeyed t start_addr len = record (plain t) {
  region_info = record { addr = start_addr; length = len; rkey = 0 };
}

-- `send_prepare`
unfoldable pub send_prepare : Verbs → Connection → ℕ → ℕ → Result Handled
send_prepare v c start_addr len = do
  msg ← keyed c msg_prepare start_addr len
  (_, sent) ← post_rdma_send v c msg silent
  ok (c, sent)

-- `send_prepare` with the client's id, which is copied into the array whatever its length.
unfoldable pub send_prepare_client : Verbs → Connection → ℕ → ℕ → List ℕ → Result (Bool × Handled)
send_prepare_client v c start_addr len client_id = do
  msg ← keyed c msg_prepare start_addr len
  if ltb max_data_size (length client_id) then err overrun else (do
    (posted, sent) ←
        post_rdma_send v c (record msg { content = client_id; data_size = length client_id }) silent
    ok (posted, (c, sent)))

-- `getPartitionList`
unfoldable pub get_partition_list : Verbs → Connection → Result Handled
get_partition_list v c = do
  (_, sent) ← post_rdma_send v c (plain msg_get_partitions) silent
  ok (c, sent)

-- `sendPartitionList`. The test of the size only logs, and a zero is written after the text.
unfoldable pub send_partition_list : Verbs → Connection → List ℕ → Result Handled
send_partition_list v c str =
    if ltb (length str) max_data_size
    then (do
      (_, sent) ←
          post_rdma_send v c
            (record (plain msg_sent_partitions) { content = str; data_size = length str }) silent
      ok (c, sent))
    else err overrun

-- `send_decline`
unfoldable pub send_decline : Verbs → Connection → ℕ → ℕ → Result Handled
send_decline v c start_addr len = do
  (_, sent) ← post_rdma_send v c (unkeyed msg_decline start_addr len) silent
  ok (c, sent)

-- `send_accept` returns what `post_rdma_send` does.
unfoldable pub send_accept : Verbs → Connection → ℕ → ℕ → Result (Bool × Handled)
send_accept v c start_addr len = do
  (posted, sent) ← post_rdma_send v c (unkeyed msg_accept start_addr len) silent
  ok (posted, (c, sent))

-- `send_transfer`
unfoldable pub send_transfer : Verbs → Connection → ℕ → ℕ → Result Handled
send_transfer v c start_addr len = do
  msg ← keyed c msg_transfer start_addr len
  (_, sent) ← post_rdma_send v c msg silent
  ok (c, sent)

-- `send_close`
unfoldable pub send_close : Verbs → Connection → ℕ → ℕ → Result Handled
send_close v c addr len = do
  (_, sent) ← post_rdma_send v c (unkeyed msg_done_transfer addr len) silent
  ok (c, sent)

-- `receive`: the oldest message, or a wait for one.
unfoldable pub receive : Connection → Result (Connection × Received)
receive c = elim c.recv_queue [ [] ↦ err blocks | x ∷ xs ↦ ok (record c { recv_queue = xs }, x) ]

-- `checkForMessage`
unfoldable pub check_for_message : Connection → Bool
check_for_message c = elim c.recv_queue [ [] ↦ false | x ∷ xs ↦ true ]

-- `done`, up to the wait for the disconnection.
unfoldable pub done : Verbs → Connection → Result Handled
done v c = do
  let c' = record c { disconnection_sem = true }
  (_, sent) ← post_rdma_send v c' (plain msg_done) silent
  ok (c', sent ++ (sem_waits done_sem ∷ []))
