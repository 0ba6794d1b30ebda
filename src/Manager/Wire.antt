-- ===== src/Manager/Wire.antt =====
-- How the manager's calls reach src/rdma-network/rdma_server_prototype.cpp, and how the other
-- side's poller reads what they post.
use rdma_migration_system.Prelude.{Option, some, none, false, []}
use rdma_migration_system.Prelude.Results.{Result, ok, ◌>>=◌}
use rdma_migration_system.Prelude.Maps.{nat_key}
use rdma_migration_system.Net.{Message, Connection, Verbs, Handled}
use rdma_migration_system.Net.Sends.{
  register_memory, register_memory_quietly, deregister_memory, send_prepare, send_accept,
  send_decline, send_transfer, send_close,
}
use rdma_migration_system.Net.Reads.{rdma_read, rdma_write}
use rdma_migration_system.Manager.{
  Call, register, register_local, deregister, prepare, accept, decline, transfer, done_transfer,
  read, write,
}
use rdma_migration_system.Manager.Poller.{Kind, RdmaMessage, get_message_type}

-- A call on the connection's object. The results that the manager does not look at are dropped.
unfoldable pub call : Verbs → Connection → Call → Result Handled
unfolding register_memory register_memory_quietly deregister_memory send_prepare send_accept
    send_decline send_transfer send_close rdma_read rdma_write
call v c (register addr len) = register_memory_quietly v c addr len
call v c (register_local addr len) = register_memory v c addr len false
call v c (deregister addr) = deregister_memory c addr
call v c (prepare addr len) = send_prepare v c addr len
call v c (accept addr len) = do (_, handled) ← send_accept v c addr len; ok handled
call v c (decline addr len) = send_decline v c addr len
call v c (transfer addr len) = send_transfer v c addr len
call v c (done_transfer addr len) = send_close v c addr len
call v c (read addr len) = do
  effects ← rdma_read v c addr addr len
  ok (c, elim effects [ none ↦ [] | some es ↦ es ])
call v c (write addr len) = rdma_write v c addr addr len

-- What the poller should make of a call, if the call sends a message.
abbrev pub announces : Call → Option RdmaMessage
announces (prepare a n) = some (record { addr = a; size = n; kind = Kind.prepare })
announces (accept a n) = some (record { addr = a; size = n; kind = Kind.accept })
announces (decline a n) = some (record { addr = a; size = n; kind = Kind.decline })
announces (transfer a n) = some (record { addr = a; size = n; kind = Kind.transfer })
announces (done_transfer a n) = some (record { addr = a; size = n; kind = Kind.done })
announces _ = none

-- The part of `GetMessage` that reads the object.
abbrev pub read_message : Message → RdmaMessage
read_message msg = record {
  addr = msg.region_info.addr;
  size = msg.region_info.length;
  kind = get_message_type msg.message_type;
}
