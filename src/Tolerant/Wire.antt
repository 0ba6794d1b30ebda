-- ===== src/Tolerant/Wire.antt =====
-- How the requests of the fault-tolerant build reach src/rdma-network/rdma_server_prototype.cpp.
use rdma_migration_system.Prelude.{◌≡◌, refl, ◌<◌, some, true, [], ◌∷◌}
use rdma_migration_system.Prelude.Tests.{lt→ltb}
use rdma_migration_system.Prelude.Lists.{length}
use rdma_migration_system.Prelude.Results.{Result, ok, ◌>>=◌}
use rdma_migration_system.Prelude.Maps.{lookup, nat_key}
use rdma_migration_system.Records.Order.{Text}
use rdma_migration_system.Net.{
  Message, msg_sent_partitions, max_data_size, Registration, Connection, silent, posts_send, Verbs,
  Handled,
}
use rdma_migration_system.Net.Posts.{post_rdma_send, plain as plain_message}
use rdma_migration_system.Net.Sends.{send_prepare_client, get_partition_list, send_partition_list}
use rdma_migration_system.Manager.Wire.{call}
use rdma_migration_system.Tolerant.{Request, plain, prepare_client, get_partitions, send_partitions}

-- A request on the connection's object. The results that the manager does not look at are dropped.
unfoldable pub request : Verbs → Connection → Request → Result Handled
unfolding call send_prepare_client get_partition_list send_partition_list
request v c (plain made) = call v c made
request v c (prepare_client addr len client_id) = do
  (_, handled) ← send_prepare_client v c addr len client_id
  ok handled
request v c get_partitions = get_partition_list v c
request v c (send_partitions str) = send_partition_list v c str

-- The message that carries a list.
abbrev pub list_message : Text → Message
list_message str = record (plain_message msg_sent_partitions) {
  content = str;
  data_size = length str;
}

-- A list that is shorter than the array is posted whole.
pub request-send_partitions :
    (v : Verbs) (c : Connection) (str : Text) (buffer : Registration)
    → length str < max_data_size
    → v.post_send ≡ true
    → lookup c.send_buffer c.registrations ≡ some buffer
    → request v c (send_partitions str) ≡ ok (c, posts_send (list_message str) silent ∷ [])
unfolding request send_partition_list post_rdma_send
request-send_partitions v c str buffer room posts registered =
    rw
      (
        lt→ltb (length str) max_data_size room,
        registered,
        posts,
        request,
        send_partition_list,
        post_rdma_send,
      )
      refl
