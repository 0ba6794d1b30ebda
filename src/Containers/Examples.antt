-- ===== src/Containers/Examples.antt =====
-- Two containers of one server.
use rdma_migration_system.Prelude.{◌+◌, ◌≤◌, ◌≡◌, refl, arith, some, none, true, [], ◌∷◌}
use rdma_migration_system.Prelude.Results.{ok}
use rdma_migration_system.Paging.{new_pages}
use rdma_migration_system.Manager.{Manager, Segment, clean, shared, transfer}
use rdma_migration_system.Manager.Links.{Node, connection, get_server}
use rdma_migration_system.Manager.Segments.{segment_at, store}
use rdma_migration_system.Manager.Allocate.{allocate, allocate_shared, record_segment}
use rdma_migration_system.Manager.Stages.{Holds}
use rdma_migration_system.Containers.{
  Container, set_up_allocator, container_poll_for_accept, transfer_container,
}
use rdma_migration_system.Containers.Blocks.{allocate_all, Laid, pool_at, set_up_allocator-Laid}
use rdma_migration_system.Containers.Queues.{transfer_foreign}

abbrev two_servers : Node
two_servers = record { server_id = 0; num_servers = 2; connections = (1, 201) ∷ []; clients = [] }

abbrev empty : Manager
empty = record {
  node = two_servers;
  message_check = 0;
  start_address = 0x10000;
  end_address = 0x20000;
  alloc_address = 0x10000;
  heap = [];
  next = 0;
  memory_map = [];
  free_map = [];
  incoming_transfers = [];
  incoming_accepts = [];
  incoming_dones = [];
}

abbrev small : Container
small = record { rdma_memory = none; mempool = none; packed_address = 0; default_pool_size = 4096 }

abbrev filled : Manager
filled = record_segment (record empty { alloc_address = 0x11000 }) 0x10000 4096

small-given : allocate empty 4096 none (some 0x10000) ≡ ok (filled, some 0x10000)
unfolding allocate allocate_shared
small-given = refl

set_up_allocator-Laid_example :
    let pool = pool_at 0x10000 4096 in
    let (last, blocks) = allocate_all pool (100 ∷ 60 ∷ []) in
    (set_up_allocator empty small none (some 0x10000)
      ≡ ok (filled, record small { mempool = some pool }))
    × Laid (0x10000 + 56) blocks last.unused_past
    × (last.unused_past ≤ 0x10000 + 4096)
set_up_allocator-Laid_example =
    set_up_allocator-Laid empty filled small none (some 0x10000) 0x10000 (100 ∷ 60 ∷ []) small-given
      (omega arith) (omega arith)

-- The segment of another container has been prepared and accepted.
abbrev theirs : Segment
theirs = record {
  vaddr = 0x10000;
  size = 4096;
  owner = 0;
  state = clean;
  pair = some 1;
  pages = new_pages 0x10000 4096 4096;
}

abbrev waiting : Manager
waiting = record empty {
  heap = (0, theirs) ∷ [];
  next = 1;
  memory_map = (0x10000, 0) ∷ [];
  incoming_accepts = 0 ∷ [];
}

abbrev ours : Container
ours = record small { mempool = some (pool_at 0x11000 4096) }

waiting-Holds : Holds waiting 0x10000 0 theirs
unfolding segment_at
waiting-Holds = refl

waiting-linked : connection two_servers 1 ≡ ok 201
unfolding connection get_server
waiting-linked = refl

transfer_foreign_example :
    (container_poll_for_accept waiting ours
      ≡ ok (waiting, record ours { rdma_memory = some 0 }, true))
    × (transfer_container waiting (record ours { rdma_memory = some 0 })
        ≡ ok (
          store waiting 0 (record theirs { owner = 1; state = shared }),
          (201, transfer 0x10000 4096) ∷ [],
        ))
transfer_foreign_example =
    transfer_foreign waiting ours (pool_at 0x11000 4096) 0 1 201 [] theirs refl refl refl
      waiting-Holds (λ e. ground arith) refl waiting-linked
