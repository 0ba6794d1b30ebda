-- ===== src/Net.antt =====
-- The data of include/rdma-network/rdma_server_prototype.hpp: messages, connections, and what a
-- handler does to the outside. Pointers and addresses are numbers; a connection is the object that
-- a connection id points to. Handlers run under `user_mutex` or on the one completion thread, so
-- each is a function of the connection; its calls of the verbs library, of semaphores and of
-- callbacks are a list, in order.
pub mod Posts
pub mod Sends
pub mod Reads
pub mod Completion
pub mod Regions
pub mod Delivery
pub mod Writes
pub mod Disconnect
pub mod Meminfo
mod Examples
use rdma_migration_system.Prelude.{ℕ, Option, Bool, List}
use rdma_migration_system.Prelude.Maps.{Map}

pub data MessageType : Type 0 where
  msg_get_partitions msg_sent_partitions msg_user msg_meminfo msg_ack_meminfo : MessageType
  msg_done msg_prepare msg_accept msg_decline msg_transfer msg_done_transfer : MessageType

pub record RemoteRegion : Type 0 where
  pub addr : ℕ
  pub length : ℕ
  pub rkey : ℕ

-- `content` is what is copied into the array `data`; the array is zero after it.
pub record Message : Type 0 where
  pub message_type : MessageType
  pub region_info : RemoteRegion
  pub content : List ℕ
  pub data_size : ℕ

abbrev pub max_data_size : ℕ
max_data_size = 2048

-- An `ibv_mr`, as far as the code reads it.
pub record Registration : Type 0 where
  pub length : ℕ
  pub lkey : ℕ
  pub rkey : ℕ

-- What `recv_queue` holds: the bytes of a user message, or a whole message.
pub data Received : Type 0 where
  bytes : List ℕ → Received
  whole : Message → Received

-- A semaphore pointer is only null or not.
pub record Connection : Type 0 where
  pub registrations : Map ℕ Registration
  pub send_buffer : ℕ
  pub recv_buffer : ℕ
  pub remote_registrations : Map ℕ RemoteRegion
  pub recv_queue : List Received
  pub sent_done : Bool
  pub recv_done : Bool
  pub register_memory_sem : Bool
  pub disconnection_sem : Bool

pub data Sem : Type 0 where
  completion_sem register_sem done_sem : Sem

-- Who is told when a posted request completes: nobody, a waiting thread, or a callback on data.
pub data Notify : Type 0 where
  silent : Notify
  semaphore : Notify
  callback : ℕ → Notify

pub record Request : Type 0 where
  pub local_addr : ℕ
  pub lkey : ℕ
  pub remote_addr : ℕ
  pub rkey : ℕ
  pub length : ℕ
  pub notify : Notify

pub data Effect : Type 0 where
  posts_receive : ℕ → Effect
  posts_send : Message → Notify → Effect
  posts_read posts_write : Request → Effect
  sem_posts sem_waits : Sem → Effect
  deregisters : Registration → Effect
  disconnects : Effect
  calls_back : ℕ → Effect

-- What the verbs library answers: whether `ibv_post_recv` and `ibv_post_send` return 0, and the
-- two keys of a new registration, if one is made.
pub record Verbs : Type 0 where
  pub post_recv : Bool
  pub post_send : Bool
  pub reg_mr : Option (ℕ × ℕ)

abbrev pub Handled : Type 0
Handled = Connection × List Effect
