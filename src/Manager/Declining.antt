-- ===== src/Manager/Declining.antt =====
-- `accept` of src/distributed-allocator/RDMAMemory.tpp, where no memory can be had.
use rdma_migration_system.Prelude.{ℕ, ◌≡◌, refl, some, none, Bool, true, [], ◌∷◌}
use rdma_migration_system.Prelude.Results.{ok, err, bad_pointer, runtime_error}
use rdma_migration_system.Prelude.Maps.{lookup, nat_key}
use rdma_migration_system.Net.{msg_decline, Registration, Connection, silent, posts_send, Verbs}
use rdma_migration_system.Net.Posts.{post_rdma_send}
use rdma_migration_system.Net.Sends.{unkeyed, send_decline, deregister_memory}
use rdma_migration_system.Net.Completion.{on_send_finish, send_finish}
use rdma_migration_system.Manager.{Manager, deregister, decline}
use rdma_migration_system.Manager.Links.{connection}
use rdma_migration_system.Manager.Poller.{Kind, Kernel, dispatch}
use rdma_migration_system.Manager.Migrate.{accept_segment, deregister_at}
use rdma_migration_system.Manager.Allocate.{allocate_at}
use rdma_migration_system.Manager.Wire.{call}

-- Where `mmap` fails for a segment that is to be taken over, the server declines the null address:
-- the completion of that message ends its own completion thread by an exception, and on the other
-- side the poller deregisters the null address and not the segment, which reads a null pointer
-- where no memory is registered there.
pub decline_fails :
    (v w : Verbs) (k : Kernel) (paging : Bool) (b a : Manager) (c d : Connection)
    (addr size source destination conn back : ℕ) (own : Registration)
    → connection b.node source ≡ ok conn
    → connection a.node destination ≡ ok back
    → v.post_send ≡ true
    → lookup c.send_buffer c.registrations ≡ some own
    → lookup 0 d.registrations ≡ none
    → (accept_segment b addr size source none ≡ ok (b, none, (conn, decline 0 size) ∷ []))
      × (call v c (decline 0 size) ≡ ok (c, posts_send (unkeyed msg_decline 0 size) silent ∷ []))
      × (on_send_finish c (unkeyed msg_decline 0 size) ≡ err runtime_error)
      × (dispatch paging k a 0 size destination Kind.decline ≡ ok (a, (back, deregister 0) ∷ []))
      × (call w d (deregister 0) ≡ err bad_pointer)
unfolding accept_segment allocate_at call send_decline deregister_memory post_rdma_send
    on_send_finish send_finish dispatch deregister_at
decline_fails v w k paging b a c d addr size source destination conn back own ec ed posts buffer
      absent =
    (
      rw (ec, accept_segment) refl,
      rw (buffer, posts, call) refl,
      refl,
      rw (ed, dispatch) refl,
      rw (absent, call) refl,
    )
