-- ===== src/Manager.antt =====
-- src/distributed-allocator/RDMAMemory.tpp, built with FAULT_TOLERANT and PREFETCHING off: the
-- state of a server's memory manager. `RDMAMemory` objects lie on a heap of their own, since the
-- maps and the queues hold pointers to them. A tag of the build, PAGING, is an argument.
pub mod Links
pub mod Segments
pub mod Allocate
pub mod Migrate
pub mod Poller
pub mod Shares
pub mod Fresh
pub mod Reuse
pub mod Again
pub mod Lookup
pub mod Polling
pub mod Turns
pub mod Wire
pub mod Declining
pub mod Stages
pub mod Migration
mod Examples
use rdma_migration_system.Prelude.{ℕ, Option, Bool, List}
use rdma_migration_system.Prelude.Maps.{Map}
use rdma_migration_system.Paging.{Pages}
use Links.{Node}

-- `RDMAMemory::State`
pub data State : Type 0 where
  dirty invalid shared clean owned : State

-- `RDMAMemory`; the pair -1 is `none`.
pub record Segment : Type 0 where
  pub vaddr : ℕ
  pub size : ℕ
  pub owner : ℕ
  pub state : State
  pub pair : Option ℕ
  pub pages : Pages

-- `RDMAMemoryManager`, with the heap of its segments. `next` is the address of the next object.
pub record Manager : Type 0 where
  pub node : Node
  pub message_check : ℕ
  pub start_address : ℕ
  pub end_address : ℕ
  pub alloc_address : ℕ
  pub heap : Map ℕ Segment
  pub next : ℕ
  pub memory_map : Map ℕ ℕ
  pub free_map : Map ℕ (List ℕ)
  pub incoming_transfers : List ℕ
  pub incoming_accepts : List ℕ
  pub incoming_dones : List ℕ

-- A call of a method of the server or client object that a connection belongs to.
pub data Call : Type 0 where
  register : ℕ → ℕ → Call
  register_local : ℕ → ℕ → Call
  deregister : ℕ → Call
  prepare accept decline transfer done_transfer : ℕ → ℕ → Call
  read write : ℕ → ℕ → Call

-- The calls go to a connection of this number, in order.
abbrev pub Calls : Type 0
Calls = List (ℕ × Call)
