-- ===== src/Tolerant/Reliable.antt =====
-- A service that takes every write with the version that a node has, and the calls on it.
use rdma_migration_system.Prelude.{
  ℕ, ◌≤◌, ◌≡◌, refl, ap, sym, ◌∙◌, inl, inr, arith, some, none, true, false, List, [], ◌∷◌, ◌++◌,
}
use rdma_migration_system.Prelude.Lists.{length}
use rdma_migration_system.Prelude.Results.{ok, ok-injective}
use rdma_migration_system.Prelude.Integers.{ℤ, IsLong}
use rdma_migration_system.Records.{map_to_zs, process_list_to_zs}
use rdma_migration_system.Records.Order.{Text, text_key}
use rdma_migration_system.Registry.{ZooKeeper, Elsewhere, buflen}
use rdma_migration_system.Registry.Segments.{
  segment_path, read_node-stored, update_segment_destination, clean_memory_segment,
}
use rdma_migration_system.Registry.Spec.{
  SegmentInfo, Registered, assign, Op, update, clean, change, target, run, Represents, entries_of,
}
use rdma_migration_system.Registry.Entries.{zs_to_map-entries_of}
use rdma_migration_system.Registry.Refinement.{Outcome, run-Outcome, held}
use rdma_migration_system.Registry.Processes.{process_path, add_to_process_list}
use rdma_migration_system.Registry.Partitions.{Lists, add_to_process_list-Lists, added_text}

module _ {Z : Type 0} (zk : ZooKeeper Z) where
  abbrev pub Reliable : Type 0
  Reliable =
      (z : Z) (path old text : Text) (version : ℕ)
      → zk.get z path ≡ some (old, version)
      → (zk.set z path text version).1 ≡ true

  -- The segment `s` after a call on its record.
  abbrev pub Becomes : Op → ℤ → Z → Registered → SegmentInfo → Type 0
  Becomes op server_id z r s =
      (z' : Z) × (run zk server_id op z ≡ ok (z', true))
      × Represents zk z' (assign (target op) (some s) r)
      × Elsewhere zk.get (segment_path (target op)) z z'

  -- A call that writes with the version that it read, on a service that takes the write.
  taken :
      (op : Op) (server_id : ℤ) (z : Z) (r : Registered) (s : SegmentInfo) (old text : Text) (v : ℕ)
      → Reliable
      → Outcome zk server_id op z r
      → zk.get z (segment_path (target op)) ≡ some (old, v)
      → run zk server_id op z ≡ ok (zk.set z (segment_path (target op)) text v)
      → change server_id op (r (target op)) ≡ some (some s)
      → Becomes op server_id z r s
  taken op server_id z r s old text v reliable (inl (z', done, (o, changed, rep, others))) stored
        ran becomes =
      let same : o ≡ some s = ground (arith, changed, becomes) in
      (z', done, rw (← same) rep, others)
  taken op server_id z r s old text v reliable (inr (inl (z', failed, _, _))) stored ran becomes =
      let w = zk.set z (segment_path (target op)) text v in
      let e : w ≡ (z', false) = ok-injective w (z', false) (sym ran ∙ failed) in
      absurd
        (ground (arith, ap (λ x. x.1) e, reliable z (segment_path (target op)) old text v stored))
  taken op server_id z r s old text v reliable (inr (inr (_, nothing))) stored ran becomes =
      absurd (ground (arith, nothing, becomes))

  pub update-Becomes :
      (server_id : ℤ) (z : Z) (r : Registered) (id destination : ℤ) (s : SegmentInfo)
      → Reliable
      → IsLong server_id
      → IsLong id
      → IsLong destination
      → Represents zk z r
      → r id ≡ some s
      → Becomes (update id destination) server_id z r (record s { destination = some destination })
  unfolding update_segment_destination
  update-Becomes server_id z r id destination s reliable own long fits rep there =
      let (valid, _, (v, stored)) = held zk z r id (some s) long rep there in
      taken (update id destination) server_id z r (record s { destination = some destination })
        (map_to_zs (entries_of s))
        (map_to_zs (entries_of (record s { destination = some destination }))) v reliable
        (run-Outcome zk server_id (update id destination) z r own (long, fits) rep) stored
        (rw
          (
            read_node-stored zk z (segment_path id) (map_to_zs (entries_of s)) v stored,
            zs_to_map-entries_of s,
            update_segment_destination,
          )
          refl)
        (rw there refl)

  pub clean-Becomes :
      (server_id : ℤ) (z : Z) (r : Registered) (id : ℤ) (s : SegmentInfo)
      → Reliable
      → IsLong server_id
      → IsLong id
      → Represents zk z r
      → r id ≡ some s
      → Becomes (clean id) server_id z r (record s { source = server_id; destination = none })
  unfolding clean_memory_segment
  clean-Becomes server_id z r id s reliable own long rep there =
      let (valid, _, (v, stored)) = held zk z r id (some s) long rep there in
      taken (clean id) server_id z r (record s { source = server_id; destination = none })
        (map_to_zs (entries_of s))
        (map_to_zs (entries_of (record s { source = server_id; destination = none }))) v reliable
        (run-Outcome zk server_id (clean id) z r own long rep) stored
        (rw
          (
            read_node-stored zk z (segment_path id) (map_to_zs (entries_of s)) v stored,
            zs_to_map-entries_of s,
            clean_memory_segment,
          )
          refl)
        (rw there refl)

  pub add_to_process_list-grows :
      (z : Z) (server_id id : ℤ) (ids : List ℤ)
      → Reliable
      → IsLong id
      → length (process_list_to_zs (ids ++ (id ∷ []))) ≤ buflen
      → Lists zk z server_id ids
      → (z' : Z) × (add_to_process_list zk server_id z id ≡ (z', true))
        × Lists zk z' server_id (ids ++ (id ∷ []))
        × Elsewhere zk.get (process_path server_id) z z'
  unfolding add_to_process_list
  add_to_process_list-grows z server_id id ids reliable long room (all, fits, (v, stored)) =
      elim (add_to_process_list-Lists zk z server_id id ids long room (all, fits, (v, stored))) [
        | inl (z', done, (longer, others)) ↦ (z', done, longer, others)
        | inr (z', failed, _, _) ↦
            let path = process_path server_id in
            let text = process_list_to_zs (ids ++ (id ∷ [])) in
            let ran : add_to_process_list zk server_id z id ≡ zk.set z path text v =
              rw (stored, add_to_process_list)
                (ap (λ t. zk.set z path t v) (added_text zk ids id)) in
            absurd (
              ground (
                arith,
                ap (λ x. x.1) (sym ran ∙ failed),
                reliable z path (process_list_to_zs ids) text v stored,
              ))
      ]
