-- ===== src/Manager/Poller.antt =====
-- src/distributed-allocator/RDMAMemory.tpp: the poller thread, which takes the messages of the
-- other servers in turn, and the queues from which the application takes segments. `network` gives
-- the connection object of a connection id.
use rdma_migration_system.Prelude.{
  ℕ, zero, suc, ◌+◌, ◌-◌, Option, some, none, Bool, false, List, [], ◌∷◌, ◌++◌,
}
use rdma_migration_system.Prelude.Tests.{ltb, ◌==◌, if◌then◌else◌}
use rdma_migration_system.Prelude.Results.{Result, ok, ◌>>=◌}
use rdma_migration_system.Prelude.Maps.{lookup, nat_key}
use rdma_migration_system.Net.{
  Message, MessageType, msg_get_partitions, msg_sent_partitions, msg_user, msg_prepare, msg_accept,
  msg_decline, msg_transfer, Received, bytes, whole, Connection,
}
use rdma_migration_system.Net.Sends.{check_for_message, receive}
use rdma_migration_system.Manager.{Manager, Calls}
use rdma_migration_system.Manager.Links.{connection}
use rdma_migration_system.Manager.Segments.{segment_at}
use rdma_migration_system.Manager.Migrate.{accept_segment, deregister_at, on_transfer, on_close}

abbrev pub Network : Type 0
Network = ℕ → Connection

-- `HasMessage(source)`
unfoldable pub has_message_from : Network → Manager → ℕ → Result Bool
unfolding connection check_for_message
has_message_from network m source = elim (lookup source m.node.connections) [
  | none ↦ ok false
  | some _ ↦ do conn_id ← connection m.node source; ok (check_for_message (network conn_id))
]

-- The loop of `HasMessage()` over `n` servers from `i` on; `none` is the answer -1.
unfoldable pub scan : Network → Manager → ℕ → ℕ → Result (Manager × Option ℕ)
unfolding has_message_from
scan network m i zero = ok (record m { message_check = 0 }, none)
scan network m i (suc n) =
    let rest = scan network m (i + 1) n in
    if i == m.node.server_id then rest else (do
      found ← has_message_from network m i
      if found
          then ok (
            record m { message_check = if ltb (i + 1) m.node.num_servers then i + 1 else 0 },
            some i,
          )
          else rest)

-- `HasMessage()`
unfoldable pub has_message : Network → Manager → Result (Manager × Option ℕ)
unfolding scan
has_message network m = scan network m m.message_check (m.node.num_servers - m.message_check)

-- `RDMAMessage::Type`
pub data Kind : Type 0 where
  prepare accept decline transfer done get_partitions sent_partitions user : Kind

pub record RdmaMessage : Type 0 where
  pub addr : ℕ
  pub size : ℕ
  pub kind : Kind

-- `getMessageType`
unfoldable pub get_message_type : MessageType → Kind
get_message_type msg_prepare = prepare
get_message_type msg_accept = accept
get_message_type msg_decline = decline
get_message_type msg_transfer = transfer
get_message_type msg_user = user
get_message_type msg_get_partitions = get_partitions
get_message_type msg_sent_partitions = sent_partitions
get_message_type _ = done

-- The object that a received pointer is read as. The bytes of a user message are read as a whole
-- message too: `cast` says what they make up.
abbrev pub as_message : (List ℕ → Message) → Received → Message
as_message cast (bytes xs) = cast xs
as_message cast (whole msg) = msg

-- `GetMessage`, with the connection id and the connection after it.
unfoldable pub get_message :
    (List ℕ → Message) → Network → Manager → ℕ → Result (ℕ × Connection × RdmaMessage)
unfolding connection receive get_message_type
get_message cast network m source = do
  conn_id ← connection m.node source
  (c, received) ← receive (network conn_id)
  let msg = as_message cast received
  ok (
    conn_id,
    c,
    record {
      addr = msg.region_info.addr;
      size = msg.region_info.length;
      kind = get_message_type msg.message_type;
    },
  )

-- What the kernel answers in a step: `mmap`, and whether `mprotect` succeeds.
pub record Kernel : Type 0 where
  pub mapped : Option ℕ
  pub protected : Bool

-- The branches of `poller_thread_method` on a message.
unfoldable pub dispatch : Bool → Kernel → Manager → ℕ → ℕ → ℕ → Kind → Result (Manager × Calls)
unfolding accept_segment segment_at deregister_at on_transfer on_close
dispatch paging k m addr size source prepare = do
  (m', _, calls) ← accept_segment m addr size source k.mapped
  ok (m', calls)
dispatch paging k m addr size source accept = do
  (p, _) ← segment_at m addr
  ok (record m { incoming_accepts = m.incoming_accepts ++ (p ∷ []) }, [])
dispatch paging k m addr size source decline = do calls ← deregister_at m addr source; ok (m, calls)
dispatch paging k m addr size source transfer = do
  (m', calls) ← on_transfer paging m addr size source k.protected
  (p, _) ← segment_at m' addr
  ok (record m' { incoming_transfers = m'.incoming_transfers ++ (p ∷ []) }, calls)
dispatch paging k m addr size source done = on_close m addr source
dispatch paging k m addr size source _ = ok (m, [])

-- What a round of the poller leaves: the manager, the connection that a message was taken from, and
-- the calls that it made.
pub record Round : Type 0 where
  pub manager : Manager
  pub taken : Option (ℕ × Connection)
  pub calls : Calls

-- One round of the loop of `poller_thread_method`.
unfoldable pub poll_step : Bool → Kernel → (List ℕ → Message) → Network → Manager → Result Round
unfolding has_message get_message dispatch
poll_step paging k cast network m = do
  (m', found) ← has_message network m
  elim found [
    | none ↦ ok (record { manager = m'; taken = none; calls = [] })
    | some source ↦ do
      (conn_id, c, msg) ← get_message cast network m' source
      (m'', calls) ← dispatch paging k m' msg.addr msg.size source msg.kind
      ok (record { manager = m''; taken = some (conn_id, c); calls = calls })
  ]

-- `PollForAccept`, `PollForTransfer` and `PollForClose`: the oldest segment, or a null pointer.
unfoldable pub poll_for_accept : Manager → Manager × Option ℕ
poll_for_accept m = elim m.incoming_accepts [
  | [] ↦ (m, none)
  | p ∷ ps ↦ (record m { incoming_accepts = ps }, some p)
]

unfoldable pub poll_for_transfer : Manager → Manager × Option ℕ
poll_for_transfer m = elim m.incoming_transfers [
  | [] ↦ (m, none)
  | p ∷ ps ↦ (record m { incoming_transfers = ps }, some p)
]

unfoldable pub poll_for_close : Manager → Manager × Option ℕ
poll_for_close m = elim m.incoming_dones [
  | [] ↦ (m, none)
  | p ∷ ps ↦ (record m { incoming_dones = ps }, some p)
]

-- `PeekAccept` and `PeekClose`
unfoldable pub peek_accept : Manager → Option ℕ
peek_accept m = elim m.incoming_accepts [ [] ↦ none | p ∷ ps ↦ some p ]

unfoldable pub peek_close : Manager → Option ℕ
peek_close m = elim m.incoming_dones [ [] ↦ none | p ∷ ps ↦ some p ]
