-- ===== src/Net/Meminfo.antt =====
-- `register_memory` of src/rdma-network/rdma_server_prototype.cpp, and the other side's reads.
use rdma_migration_system.Prelude.{ℕ, ◌+◌, ◌≤◌, ◌<◌, ◌≡◌, refl, ◌∙◌, arith, some, true, [], ◌∷◌}
use rdma_migration_system.Prelude.Tests.{==_iff}
use rdma_migration_system.Prelude.Results.{ok}
use rdma_migration_system.Prelude.Word.{as_int_small, int_max, word_mod}
use rdma_migration_system.Prelude.Maps.{lookup, insert, lookup-insert, nat_key}
use rdma_migration_system.Net.{
  RemoteRegion, Message, msg_meminfo, msg_ack_meminfo, Registration, Connection, silent,
  posts_receive, posts_send, sem_waits, sem_posts, register_sem, Verbs,
}
use rdma_migration_system.Net.Posts.{plain, post_rdma_receive, post_rdma_send}
use rdma_migration_system.Net.Sends.{register_memory}
use rdma_migration_system.Net.Reads.{find_rkey}
use rdma_migration_system.Net.Regions.{find_key-entry}
use rdma_migration_system.Net.Completion.{recv_finish, on_recv_finish}

module _ (addr len lkey rkey : ℕ) where
  abbrev pub region : RemoteRegion
  region = record { addr = addr; length = len; rkey = rkey }

  abbrev pub meminfo : Message
  meminfo = record (plain msg_meminfo) { region_info = region }

  abbrev pub registered : Connection → Connection
  registered c = record c {
    registrations = insert addr (record { length = len; lkey = lkey; rkey = rkey }) c.registrations;
    register_memory_sem = true;
  }

  abbrev pub informed : Connection → Connection
  informed d = record d { remote_registrations = insert addr region d.remote_registrations }

buffer_kept :
    (buffer addr : ℕ) (r : Registration) (c : Connection) (own : Registration)
    → lookup buffer c.registrations ≡ some own
    → (s : Registration) × (lookup buffer (insert addr r c.registrations) ≡ some s)
buffer_kept buffer addr r c own e = ground (arith, lookup-insert addr buffer r c.registrations)

module _ (v : Verbs) (c : Connection) (addr len lkey rkey : ℕ) where
  register_memory-registered :
      (own : Registration)
      → v.reg_mr ≡ some (lkey, rkey)
      → v.post_send ≡ true
      → len < int_max
      → lookup c.send_buffer c.registrations ≡ some own
      → register_memory v c addr len true
        ≡ ok (
          registered addr len lkey rkey c,
          posts_send (meminfo addr len lkey rkey) silent ∷ sem_waits register_sem ∷ [],
        )
  unfolding register_memory post_rdma_send
  register_memory-registered own keys posts short e =
      let (s, kept) =
        buffer_kept c.send_buffer addr (record { length = len; lkey = lkey; rkey = rkey }) c own
          e in
      rw (keys, as_int_small len short, kept, posts) refl

  -- The acknowledgement wakes the thread that waits in `register_memory`.
  ack_wakes :
      (own : Registration)
      → v.post_recv ≡ true
      → lookup c.recv_buffer c.registrations ≡ some own
      → (k : ℕ) × (on_recv_finish v (registered addr len lkey rkey c) (plain msg_ack_meminfo)
          ≡ ok (registered addr len lkey rkey c, posts_receive k ∷ sem_posts register_sem ∷ []))
  unfolding on_recv_finish recv_finish post_rdma_receive
  ack_wakes own rearms e =
      let (s, kept) =
        buffer_kept c.recv_buffer addr (record { length = len; lkey = lkey; rkey = rkey }) c own
          e in
      (s.lkey, rw (kept, rearms) refl)

  meminfo_informs :
      (own other : Registration)
      → v.post_send ≡ true
      → v.post_recv ≡ true
      → lookup c.send_buffer c.registrations ≡ some own
      → lookup c.recv_buffer c.registrations ≡ some other
      → on_recv_finish v c (meminfo addr len lkey rkey)
        ≡ ok (
          informed addr len lkey rkey c,
          posts_receive other.lkey ∷ posts_send (plain msg_ack_meminfo) silent ∷ [],
        )
  unfolding on_recv_finish recv_finish post_rdma_receive post_rdma_send
  meminfo_informs own other posts rearms es er = rw (es, er, posts, rearms) refl

informed_reaches :
    (d : Connection) (addr len lkey rkey off n : ℕ)
    → addr + len < word_mod
    → off + n ≤ len
    → (key : ℕ) × (find_rkey (informed addr len lkey rkey d).remote_registrations (addr + off) n
        ≡ some key)
unfolding find_rkey
informed_reaches d addr len lkey rkey off n room within =
    find_key-entry (λ r. r.length) (λ r. r.rkey) _ addr (region addr len lkey rkey) (addr + off) n
      (lookup-insert addr addr _ d.remote_registrations ∙ rw ((==_iff addr addr).1 refl) refl)
      (ground arith)

-- The two buffers of a connection are registered.
pub record HasBuffers (c : Connection) : Type 0 where
  pub sending : Registration
  pub receiving : Registration
  pub send_found : lookup c.send_buffer c.registrations ≡ some sending
  pub recv_found : lookup c.recv_buffer c.registrations ≡ some receiving

abbrev pub Works : Verbs → Type 0
Works v = (v.post_send ≡ true) × (v.post_recv ≡ true)

-- `register_memory` with remote access on one side: it registers the memory, posts its address,
-- length and key, and waits; the other side records the region and acknowledges; the
-- acknowledgement ends the wait; and the other side then finds a key for any range inside the
-- region. The region is shorter than 2 GiB.
pub register_memory_handshake :
    (v w : Verbs) (c d : Connection) (addr len lkey rkey off n : ℕ)
    → v.reg_mr ≡ some (lkey, rkey)
    → Works v
    → Works w
    → HasBuffers c
    → HasBuffers d
    → len < int_max
    → addr + len < word_mod
    → off + n ≤ len
    → let c' = registered addr len lkey rkey c in
      let d' = informed addr len lkey rkey d in
      (register_memory v c addr len true
        ≡ ok (c', posts_send (meminfo addr len lkey rkey) silent ∷ sem_waits register_sem ∷ []))
      × ((k : ℕ) × (on_recv_finish w d (meminfo addr len lkey rkey)
            ≡ ok (d', posts_receive k ∷ posts_send (plain msg_ack_meminfo) silent ∷ [])))
      × ((k : ℕ) × (on_recv_finish v c' (plain msg_ack_meminfo)
            ≡ ok (c', posts_receive k ∷ sem_posts register_sem ∷ [])))
      × ((key : ℕ) × (find_rkey d'.remote_registrations (addr + off) n ≡ some key))
register_memory_handshake v w c d addr len lkey rkey off n keys (vs, vr) (ws, wr) bc bd short room
      within =
    (
      register_memory-registered v c addr len lkey rkey bc.sending keys vs short bc.send_found,
      (
        bd.receiving.lkey,
        meminfo_informs w d addr len lkey rkey bd.sending bd.receiving ws wr bd.send_found
            bd.recv_found,
      ),
      ack_wakes v c addr len lkey rkey bc.receiving vr bc.recv_found,
      informed_reaches d addr len lkey rkey off n room within,
    )
