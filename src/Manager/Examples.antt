-- ===== src/Manager/Examples.antt =====
-- The manager at three servers, and at a migration from the first to the second.
use rdma_migration_system.Prelude.{
  ℕ, ◌≡◌, ◌≤◌, refl, arith, inr, some, none, true, false, List, [], ◌∷◌,
}
use rdma_migration_system.Prelude.Results.{ok, err, bad_pointer, runtime_error}
use rdma_migration_system.Prelude.Maps.{nat_key}
use rdma_migration_system.Net.{
  msg_decline, msg_accept, Received, whole, Connection, silent, posts_send, Verbs,
}
use rdma_migration_system.Net.Posts.{plain}
use rdma_migration_system.Net.Sends.{check_for_message, unkeyed}
use rdma_migration_system.Net.Completion.{on_send_finish}
use rdma_migration_system.Manager.{Manager, Segment, decline, deregister}
use rdma_migration_system.Manager.Links.{Node, connection, get_server}
use rdma_migration_system.Manager.Segments.{new_segment, segment_at, get_rdma_memory}
use rdma_migration_system.Manager.Lookup.{AllStart, Finds, get_rdma_memory-Finds}
use rdma_migration_system.Manager.Allocate.{new_manager, allocate, deallocate}
use rdma_migration_system.Manager.Shares.{new_manager-Apart}
use rdma_migration_system.Manager.Fresh.{LaidOut, bumped, bumped-LaidOut}
use rdma_migration_system.Manager.Reuse.{Given, Allocates, allocate-Allocates}
use rdma_migration_system.Manager.Again.{deallocate_twice}
use rdma_migration_system.Manager.Poller.{Network, Kind, Kernel, has_message_from, dispatch}
use rdma_migration_system.Manager.Polling.{Linked}
use rdma_migration_system.Manager.Turns.{Served, Waits, has_message-Served}
use rdma_migration_system.Manager.Migrate.{accept_segment}
use rdma_migration_system.Manager.Wire.{call}
use rdma_migration_system.Manager.Declining.{decline_fails}
use rdma_migration_system.Manager.Migration.{Migrates, migration}
use rdma_migration_system.Manager.Stages.{Holds}

abbrev first_node : Node
first_node = record {
  server_id = 0;
  num_servers = 3;
  connections = (1, 201) ∷ (2, 202) ∷ [];
  clients = [];
}

abbrev second_node : Node
second_node = record {
  server_id = 1;
  num_servers = 3;
  connections = (0, 100) ∷ (2, 102) ∷ [];
  clients = (100, 7) ∷ [];
}

-- The manager of a node, with the range from 0x10000 on.
abbrev started : Node → ℕ → ℕ → Manager
started node start end = record {
  node = node;
  message_check = 0;
  start_address = start;
  end_address = end;
  alloc_address = start;
  heap = [];
  next = 0;
  memory_map = [];
  free_map = [];
  incoming_transfers = [];
  incoming_accepts = [];
  incoming_dones = [];
}

abbrev first : Manager
first = started first_node 0x10000 0x20000

abbrev second : Manager
second = started second_node 0x20000 0x30000

first-new : new_manager first_node 0x10000 0x40000 ≡ ok first
unfolding new_manager
first-new = refl

second-new : new_manager second_node 0x10000 0x40000 ≡ ok second
unfolding new_manager
second-new = refl

new_manager-Apart_example :
    (0x10000 ≤ first.start_address)
    × (first.end_address ≤ second.start_address)
    × (second.end_address ≤ 0x40000)
new_manager-Apart_example =
    new_manager-Apart first_node second_node 0x10000 0x40000 first second refl (omega arith)
      (omega arith) (omega arith) (omega arith) (omega arith) first-new second-new

first-LaidOut : LaidOut first
first-LaidOut = record {
  low = omega arith;
  high = omega arith;
  young = λ p s e. ground arith;
  placed = λ p s e. ground arith;
  apart = λ p q s t ne es et os ot. ground arith;
  free = λ size ps e. ground arith;
  filled = λ size e. ground arith;
}

-- Two pages are given out.
abbrev holding : Manager
holding = bumped first 8192

holding-LaidOut : LaidOut holding
holding-LaidOut = bumped-LaidOut first 8192 first-LaidOut (omega arith) (omega arith)

abbrev two_pages : Segment
two_pages = new_segment 0 0x10000 8192

two_pages-Given : Given holding 0x10000 8192
unfolding new_segment
two_pages-Given = (0, two_pages, refl, refl, refl, refl)

allocate-Allocates_example : Allocates 4096 (allocate holding 4096 none (some 0x12000))
allocate-Allocates_example =
    allocate-Allocates holding 4096 none (some 0x12000) holding-LaidOut (omega arith) (inr refl)

deallocate_twice_example :
    (d e f g : Manager) × (deallocate holding 0x10000 ≡ ok d)
    × (deallocate d 0x10000 ≡ ok e)
    × (allocate e 8192 (some 0x10000) none ≡ ok (f, some 0x10000))
    × (allocate f 8192 (some 0x10000) none ≡ ok (g, some 0x10000))
deallocate_twice_example =
    deallocate_twice holding 0x10000 8192 0x10000 0x10000 none two_pages-Given refl

abbrev connected : List Received → Connection
connected queue = record {
  registrations =
      (10, record { length = 4096; lkey = 1; rkey = 2 })
      ∷ (20, record { length = 4096; lkey = 3; rkey = 4 })
      ∷ [];
  send_buffer = 10;
  recv_buffer = 20;
  remote_registrations = [];
  recv_queue = queue;
  sent_done = false;
  recv_done = false;
  register_memory_sem = false;
  disconnection_sem = false;
}

-- Every connection has a message.
abbrev busy : Network
busy _ = connected (whole (plain msg_accept) ∷ [])

second-Linked : Linked second_node
unfolding connection get_server
second-Linked k c e = ground arith

second-Waits : Waits (λ _. busy) second_node 2
unfolding has_message_from connection get_server check_for_message
second-Waits t m e = rw e refl

has_message-Served_example : Served (λ _. busy) 2 4 0 second
has_message-Served_example =
    has_message-Served (λ _. busy) second 2 second-Linked (λ e. ground arith) (omega arith)
      (omega arith) second-Waits

abbrev working : Verbs
working = record { post_recv = true; post_send = true; reg_mr = some (5, 6) }

first-linked : connection first_node 1 ≡ ok 201
unfolding connection get_server
first-linked = refl

second-linked : connection second_node 0 ≡ ok 100
unfolding connection get_server
second-linked = refl

abbrev refusing : Kernel
refusing = record { mapped = none; protected = true }

decline_fails_example :
    (accept_segment second 0x10000 8192 0 none ≡ ok (second, none, (100, decline 0 8192) ∷ []))
    × (call working (connected []) (decline 0 8192)
        ≡ ok (connected [], posts_send (unkeyed msg_decline 0 8192) silent ∷ []))
    × (on_send_finish (connected []) (unkeyed msg_decline 0 8192) ≡ err runtime_error)
    × (dispatch true refusing holding 0 8192 1 Kind.decline
        ≡ ok (holding, (201, deregister 0) ∷ []))
    × (call working (connected []) (deregister 0) ≡ err bad_pointer)
decline_fails_example =
    decline_fails working working refusing true second holding (connected []) (connected []) 0x10000
      8192 0 1 100 201 (record { length = 4096; lkey = 1; rkey = 2 }) second-linked first-linked
      refl refl refl

holding-Holds : Holds holding 0x10000 0 two_pages
unfolding segment_at
holding-Holds = refl

holding-AllStart : AllStart holding holding.memory_map
unfolding new_segment
holding-AllStart = ((two_pages, refl, refl, omega arith), tt)

get_rdma_memory-Finds_example :
    Finds holding 0x10100 holding.memory_map (get_rdma_memory holding 0x10100)
get_rdma_memory-Finds_example = get_rdma_memory-Finds holding 0x10100 holding-AllStart

migration_example : Migrates holding second 0x10000 8192 0 two_pages 201 100
migration_example =
    migration holding second 0x10000 8192 0 two_pages 201 100 holding-Holds first-linked
      second-linked
