-- ===== src/Tolerant/Examples.antt =====
-- Servers 2 and 3 with a service in memory, and a segment that server 2 hands over to server 3.
use rdma_migration_system.Prelude.{◌≡◌, refl, arith, none, true, false, [], ◌∷◌}
use rdma_migration_system.Prelude.Results.{ok}
use rdma_migration_system.Prelude.Integers.{pos}
use rdma_migration_system.Prelude.Maps.{nat_key}
use rdma_migration_system.Records.{process_list_to_zs}
use rdma_migration_system.Records.Decimal.{write_digits, to_string}
use rdma_migration_system.Records.Signed.{int_to_string}
use rdma_migration_system.Registry.Samples.{
  segment, recorded, one_segment, recorded-Represents, newcomer-Lists,
}
use rdma_migration_system.Registry.Partitions.{Lists}
use rdma_migration_system.Net.{Message, Connection, Verbs, posts_send, silent}
use rdma_migration_system.Manager.{Manager, decline}
use rdma_migration_system.Manager.Poller.{Kind, Kernel, get_message_type}
use rdma_migration_system.Tolerant.Declined.{declined_listed}
use rdma_migration_system.Tolerant.Migrate.{
  accept_segment, dispatch, get_local_segments_list, clean_ids,
}
use rdma_migration_system.Tolerant.Live.{get_live_partitions}
use rdma_migration_system.Tolerant.Wire.{request}
use rdma_migration_system.Tolerant.Answers.{get_live_partitions-answers}
use rdma_migration_system.Manager.Links.{Node, connection, get_server}
use rdma_migration_system.Manager.Segments.{new_segment, segment_at}
use rdma_migration_system.Manager.Stages.{Holds}
use rdma_migration_system.Zoo.Service.{Memory, memory_client, memory_takes}
use rdma_migration_system.Tolerant.{Tolerant, plain, send_partitions}
use rdma_migration_system.Tolerant.Reliable.{Reliable}
use rdma_migration_system.Tolerant.Handover.{HandsOver, hand_over}

abbrev manager_of : Node → Manager
manager_of node = record {
  node = node;
  message_check = 0;
  start_address = 0;
  end_address = 0;
  alloc_address = 0;
  heap = [];
  next = 0;
  memory_map = [];
  free_map = [];
  incoming_transfers = [];
  incoming_accepts = [];
  incoming_dones = [];
}

abbrev second_node : Node
second_node = record { server_id = 2; num_servers = 4; connections = (3, 203) ∷ []; clients = [] }

abbrev third_node : Node
third_node = record {
  server_id = 3;
  num_servers = 4;
  connections = (2, 302) ∷ [];
  clients = (302, 7) ∷ [];
}

abbrev server_of : Memory → Node → Tolerant Memory
server_of zoo node = record {
  zoo = zoo;
  manager = manager_of node;
  application_ids = [];
  partition_list = [];
  answers = 0;
}

-- Server 2 with segment 7.
abbrev holder : Tolerant Memory
holder = record (server_of recorded second_node) {
  manager = record (manager_of second_node) {
    heap = (0, new_segment 2 4096 512) ∷ [];
    next = 1;
    memory_map = (4096, 0) ∷ [];
  };
  application_ids = (0, pos 7) ∷ [];
}

abbrev newcomer : Tolerant Memory
newcomer = server_of recorded third_node

memory-Reliable : Reliable memory_client
memory-Reliable z path old text version stored = memory_takes z path old text version stored

holder-Holds : Holds holder.manager 4096 0 (new_segment 2 4096 512)
unfolding segment_at
holder-Holds = refl

holder-linked : connection second_node 3 ≡ ok 203
unfolding connection get_server
holder-linked = refl

newcomer-linked : connection third_node 2 ≡ ok 302
unfolding connection get_server
newcomer-linked = refl

hand_over_example :
    HandsOver memory_client recorded holder newcomer 4096 512 0
      (new_segment 2 4096 512)
      (pos 7)
      segment
      one_segment
      []
      203
      302
unfolding process_list_to_zs int_to_string to_string write_digits
hand_over_example =
    hand_over memory_client recorded holder newcomer 4096 512 0 (new_segment 2 4096 512) (pos 7)
      segment one_segment [] 203 302 memory-Reliable (omega arith) (omega arith) holder-Holds refl
      holder-linked newcomer-linked recorded-Represents refl newcomer-Lists (omega arith)

declined_listed_example :
    (z : Memory) × (accept_segment memory_client newcomer 4096 512 2 (pos 7) none true
      ≡ ok (record newcomer { zoo = z }, none, (302, plain (decline 0 512)) ∷ []))
    × Lists memory_client z (pos 3) (pos 7 ∷ [])
unfolding process_list_to_zs int_to_string to_string write_digits
declined_listed_example =
    declined_listed memory_client newcomer 4096 512 2 302 (pos 7) [] true memory-Reliable
      (omega arith) newcomer-linked (omega arith) newcomer-Lists

holder-list : get_local_segments_list holder ≡ ok (pos 7 ∷ [])
unfolding get_local_segments_list clean_ids new_segment
holder-list = refl

-- A connection with its send buffer registered.
abbrev wire : Connection
wire = record {
  registrations = (900, record { length = 4096; lkey = 1; rkey = 2 }) ∷ [];
  send_buffer = 900;
  recv_buffer = 901;
  remote_registrations = [];
  recv_queue = [];
  sent_done = false;
  recv_done = false;
  register_memory_sem = false;
  disconnection_sem = false;
}

abbrev posting : Verbs
posting = record { post_recv = true; post_send = true; reg_mr = none }

abbrev kernel : Kernel
kernel = record { mapped = none; protected = true }

get_live_partitions-answers_example :
    (msg : Message) × (got : Tolerant Memory → Tolerant Memory) × (dispatch memory_client true
        kernel true holder 0 0 [] 3 Kind.get_partitions
      ≡ ok (holder, (203, send_partitions msg.content) ∷ []))
    × (request posting wire (send_partitions msg.content) ≡ ok (wire, posts_send msg silent ∷ []))
    × ((t : Tolerant Memory)
        → dispatch memory_client true kernel true t msg.region_info.addr msg.region_info.length
            msg.content 2
            (get_message_type msg.message_type)
          ≡ ok (got t, []))
    × (get_live_partitions (λ t requests. got t) newcomer 2 ≡ get_local_segments_list holder)
unfolding process_list_to_zs int_to_string to_string write_digits
get_live_partitions-answers_example =
    get_live_partitions-answers memory_client true true kernel newcomer holder 3 2 203 302
      (pos 7 ∷ []) posting wire (record { length = 4096; lkey = 1; rkey = 2 }) holder-list
      (omega arith, tt) (omega arith) (λ e. absurd (omega (arith, e))) newcomer-linked holder-linked
      refl refl
