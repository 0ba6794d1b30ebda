-- ===== src/Lib.antt =====
-- The rdma-migration-system moves segments of memory between servers over RDMA. A segment keeps its
-- virtual address: each server allocates in a share of one address space, a segment is offered
-- (Prepare), accepted, handed over (Transfer), its pages are then read by the new owner, one by one
-- on page faults or all in turn, and it is closed.
--
-- Parts, and the files that model them:
--   include/paging/paging.hpp, src/paging/paging.tpp: `Paging` (the class Pages, one function for
--     each method), with children on where pages lie and on the counter of local pages.
--   src/distributed-allocator/RDMAMemory.tpp, from MarkPageLocal on, and the fault handler
--     sigsegv_advance of include/distributed-allocator/RDMAMemory.hpp: `Pulling`, with
--     `Pulling.Async` for PullAllPagesWithoutCloseAsync and MarkPageLocalCB and `Pulling.Batch` for
--     PullPagesAsync.
--   include and src/rdma-network/rdma_server_prototype.*: `Net` (the data), `Net.Posts` (requests to
--     a queue pair), `Net.Sends` (user calls that send), `Net.Reads` (one-sided reads and writes),
--     `Net.Completion` (the completion thread).
--   src/distributed-allocator/RDMAMemory.tpp, up to SetPageSize: `Manager` (the state of
--     RDMAMemoryManager), `Manager.Segments` (objects and maps), `Manager.Allocate` (allocate,
--     deallocate), `Manager.Migrate` (Prepare, accept, Transfer, on_transfer, close, on_close, Pull,
--     Push), `Manager.Poller` (HasMessage, GetMessage, poller_thread_method, the queues),
--     `Manager.Wire` (which call of the connection object a call of the manager is).
--   include/distributed-allocator/RDMAMemNode.hpp: `Manager.Links` (getServer).
--   src/rdma-network/rdma_client.cpp, and on_disconnect and build_connection_object of
--     rdma_server_prototype.cpp: `Events` (a client's event thread); src/rdma-network/rdma_server.cpp:
--     `Events.Server` (the listening side).
--   src/distributed-allocator/RDMAMemNode.tpp: `Mesh` (connect_mesh), `Registry` (the allocator that
--     the servers share in ZooKeeper, over an interface of the ZooKeeper client), with
--     `Registry.Segments` (the records of segments), `Registry.Processes` (the lists of the servers)
--     and `Registry.Spec` (the map of segments that the records stand for).
--   src/zookeeper/zookeeper.tpp: `Zoo` (the calls that the servers make, over the C client), whose
--     laws in `Zoo.Laws` fill the interface of `Registry`; `Zoo.Service` is a service in memory.
--   src/distributed-allocator/RDMAMemory.tpp, built with FAULT_TOLERANT: `Tolerant` (the state),
--     `Tolerant.Allocate` (allocate, deallocate), `Tolerant.Migrate` (Prepare, accept, Transfer, close,
--     poller_thread_method, getLocalSegmentsList), `Tolerant.Live` (GetLivePartitionsForProcess of
--     RDMAMemNode.tpp), `Tolerant.Wire` (its messages on a connection).
--   include/utils/miscutils.hpp: `Records` (MAPtoZS, ZStoMAP, ZStoProcessList, ProcessListtoZS), with
--     `Records.Decimal`, `Records.Unsigned` and `Records.Signed` for the numbers that the C++ library
--     writes and reads.
--   include/utils/miscutils.hpp: `Config` (RNode and ConfigParser), with `Config.Numbers` for
--     `std::stoi` and `Config.Lines` for `std::getline`.
--   src/c++-containers/rdma_container_base.tpp, src/distributed-allocator/mempool.tpp: `Containers`
--     (the operations of RDMAContainerBase on the manager, and the pool in a container's segment).
--   `Prelude` holds the shared tests, lists, results, words of 64 bits and maps.
--
-- The parts meet as in the code: the manager's operations give the calls that they make on a
-- connection's object, `Manager.Wire` runs such a call on a `Net.Connection`, whose handlers pass
-- received messages to the queue that the manager's poller reads. The pages of a segment are a
-- `Paging.Pages`.
--
-- Conventions: an operation is a function from a state to a result; a thrown exception, a null
-- pointer that is read, `exit` and a wait that nobody has ended are faults. What `mmap`, `mprotect`
-- and the verbs library answer is an argument. An atomic access, or a handler under its mutex, is
-- one step. Pointers and sizes are numbers below 2 ^ 64 whose sums wrap; a `size_t` that is stored
-- in an `int` keeps its low 32 bits. Objects of RDMAMemory lie on a heap, since the maps and queues
-- share them. The loops of `PullAllPages`, `PullPagesSync` and `ZStoMAP` take fuel, a number of
-- rounds; the one of `ZStoMAP` is the length of the text, which is enough. Of `getAllocationAddress`,
-- which several servers call at once, each read and each write is a step of a relation.
--
-- A read of ZooKeeper that fails leaves `stat.version` without a value; to use it is a fault of its
-- own. A call that reads a record and writes it back is one step of the service here, except for
-- `getAllocationAddress`; a write that is not confirmed may have been done all the same. The rate
-- limiter of the asynchronous loops is counted from whatever `malloc` left in it; in these loops what a
-- thread does between two accesses that another one can see is one step.
--
-- A message that is sent is the content of the send buffer when its request is posted, and the next
-- one waits until the buffer is free, which the code does not see to. A receipt has two messages, that
-- which the buffer holds as the handler begins, and that which it holds once it is posted again.
--
-- Not modelled: the constructor and destructor of RDMAMemNode, the build with PREFETCHING, the vector
-- and the map over a container, the timers, and the copy of the ZooKeeper client's headers.
pub mod Prelude
pub mod Paging
pub mod Pulling
pub mod Net
pub mod Events
pub mod Manager
pub mod Records
pub mod Registry
pub mod Zoo
pub mod Tolerant
pub mod Config
pub mod Mesh
pub mod Containers
