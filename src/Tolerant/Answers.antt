-- ===== src/Tolerant/Answers.antt =====
-- The list of a server's segments as another server gets it: `GetLivePartitionsForProcess` of
-- src/distributed-allocator/RDMAMemNode.tpp and the poller of RDMAMemory.tpp that answers it.
use rdma_migration_system.Prelude.{
  ℕ, suc, ◌≡◌, ◌≢◌, ◌<◌, refl, inl, inr, arith, some, Bool, true, false, List, [], ◌∷◌,
}
use rdma_migration_system.Prelude.Tests.{◌==◌, Bool-cases, Option-cases}
use rdma_migration_system.Prelude.Lists.{length}
use rdma_migration_system.Prelude.Results.{ok, Result-cases}
use rdma_migration_system.Prelude.Integers.{ℤ}
use rdma_migration_system.Prelude.Maps.{Map, lookup, nat_key}
use rdma_migration_system.Records.{c_str, process_list_to_zs}
use rdma_migration_system.Records.Order.{Text}
use rdma_migration_system.Records.Ids.{AllLong, zs_to_process_list-process_list_to_zs}
use rdma_migration_system.Registry.{ZooKeeper}
use rdma_migration_system.Registry.Texts.{c_str-NoZero, process_list_to_zs-NoZero}
use rdma_migration_system.Net.{
  Message, Connection, Verbs, Registration, max_data_size, posts_send, silent,
}
use rdma_migration_system.Manager.Links.{connection}
use rdma_migration_system.Manager.Poller.{Kernel, Kind, get_message_type}
use rdma_migration_system.Tolerant.{Tolerant, send_partitions}
use rdma_migration_system.Tolerant.Migrate.{
  is_clean, clean_ids, clean_text, get_local_segments_list, dispatch,
}
use rdma_migration_system.Tolerant.Live.{ask_partitions, take_partitions, get_live_partitions}
use rdma_migration_system.Tolerant.Wire.{request, list_message, request-send_partitions}

module _ {Z : Type 0} (zk : ZooKeeper Z) where
  -- The text that the poller writes is the one of the list.
  clean_text-ids :
      (t : Tolerant Z) (m : Map ℕ ℕ) (ids : List ℤ)
      → clean_ids t m ≡ ok ids
      → clean_text t m ≡ ok (process_list_to_zs ids)
  unfolding clean_ids clean_text process_list_to_zs
  clean_text-ids t [] ids e = ground (arith, e)
  clean_text-ids t ((v_addr, p) ∷ m) ids e = elim (Option-cases (lookup p t.manager.heap)) [
    | inl gone ↦ absurd (ground (arith, e, gone))
    | inr (s, there) ↦ elim (Option-cases (lookup p t.application_ids)) [
      | inl unknown ↦ absurd (ground (arith, e, there, unknown))
      | inr (id, known) ↦ elim (Result-cases (clean_ids t m)) [
        | inr (fault, ended) ↦ absurd (ground (arith, e, there, known, ended))
        | inl (vec, ran) ↦
            let rest = clean_text-ids t m vec ran in
            elim (Bool-cases (is_clean s.state)) [
              | inl kept ↦ ground (arith, e, there, known, ran, rest, kept)
              | inr skipped ↦ ground (arith, e, there, known, ran, rest, skipped)
            ]
      ]
    ]
  ]

  -- The node of the server that asked, after the answer.
  abbrev answered : Text → Tolerant Z → Tolerant Z
  answered content t = record t { partition_list = c_str content; answers = suc t.answers }

  -- `GetLivePartitionsForProcess` of another server gives what `getLocalSegmentsList` gives there:
  -- the poller of that server answers with one message, which is posted whole, and which the poller
  -- of the asking server takes for the answer. The ids fit into 64 bits, their text is shorter than
  -- 2048 characters, the servers know each other, and posting succeeds.
  pub get_live_partitions-answers :
      (paging posted : Bool) (k : Kernel) (a b : Tolerant Z) (source process_id : ℕ)
      (conn_id asked : ℕ) (ids : List ℤ) (v : Verbs) (c : Connection) (buffer : Registration)
      → get_local_segments_list b ≡ ok ids
      → AllLong ids
      → length (process_list_to_zs ids) < max_data_size
      → process_id ≢ a.manager.node.server_id
      → connection a.manager.node process_id ≡ ok asked
      → connection b.manager.node source ≡ ok conn_id
      → v.post_send ≡ true
      → lookup c.send_buffer c.registrations ≡ some buffer
      → (msg : Message) × (got : Tolerant Z → Tolerant Z) × (dispatch zk paging k posted b 0 0 []
            source Kind.get_partitions
          ≡ ok (b, (conn_id, send_partitions msg.content) ∷ []))
        × (request v c (send_partitions msg.content) ≡ ok (c, posts_send msg silent ∷ []))
        × ((t : Tolerant Z)
            → dispatch zk paging k posted t msg.region_info.addr msg.region_info.length msg.content
                process_id
                (get_message_type msg.message_type)
              ≡ ok (got t, []))
        × (get_live_partitions (λ t requests. got t) a process_id ≡ get_local_segments_list b)
  unfolding dispatch get_local_segments_list get_message_type take_partitions get_live_partitions
      ask_partitions
  get_live_partitions-answers paging posted k a b source process_id conn_id asked ids v c buffer
        local long room other knows known posts registered =
      let str = process_list_to_zs ids in
      let whole : c_str str ≡ str = c_str-NoZero str (process_list_to_zs-NoZero ids) in
      let apart : (process_id == a.manager.node.server_id) ≡ false = ground (arith, other) in
      (
        list_message str,
        answered str,
        rw (clean_text-ids b b.manager.memory_map ids local, known, dispatch) refl,
        request-send_partitions v c str buffer room posts registered,
        λ t. refl,
        rw
            (
              apart,
              knows,
              get_live_partitions,
              ask_partitions,
              take_partitions,
              whole,
              zs_to_process_list-process_list_to_zs ids long,
              local,
            )
            refl,
      )
