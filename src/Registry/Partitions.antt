-- ===== src/Registry/Partitions.antt =====
-- The lists of the servers in src/distributed-allocator/RDMAMemNode.tpp, against lists of ids.
use rdma_migration_system.Prelude.{
  ℕ, ◌≤◌, ◌≡◌, refl, sym, ap, ◌∙◌, inl, inr, ◌⊎◌, arith, Option, some, none, Bool, true, false,
  List, [], ◌∷◌, ◌++◌, map,
}
use rdma_migration_system.Prelude.Tests.{Bool-cases, Option-cases}
use rdma_migration_system.Prelude.Lists.{length, length-append, append_one, append_none}
use rdma_migration_system.Prelude.Results.{ok}
use rdma_migration_system.Prelude.Integers.{ℤ, IsLong, int_beq}
use rdma_migration_system.Prelude.Maps.{Map}
use rdma_migration_system.Records.{comma, map_to_zs, process_list_to_zs}
use rdma_migration_system.Records.Order.{Text}
use rdma_migration_system.Records.Signed.{int_to_string}
use rdma_migration_system.Records.Ids.{
  AllLong, zs_to_process_list-process_list_to_zs, process_list_to_zs-append,
}
use rdma_migration_system.Registry.{ZooKeeper, Elsewhere, Wrote, buflen}
use rdma_migration_system.Registry.Texts.{process_list_to_zs-NoZero}
use rdma_migration_system.Registry.Segments.{
  segment_path, read_node-missing, read_node-stored, get_memory_segment,
}
use rdma_migration_system.Registry.Spec.{SegmentInfo, entries_of, Registered, Represents, SetFails}
use rdma_migration_system.Registry.Entries.{zs_to_map-entries_of}
use rdma_migration_system.Registry.Refinement.{read_empty, pair_flag, held}
use rdma_migration_system.Registry.Processes.{
  process_path, without, add_to_process_list, remove_from_process_list, read_segments,
  get_partitions_for_process,
}

without-AllLong : (id : ℤ) (ids : List ℤ) → AllLong ids → AllLong (without id ids)
without-AllLong id [] l = tt
without-AllLong id (x ∷ xs) (lx, l) = elim (Bool-cases (int_beq x id)) [
  | inl same ↦ rw same (without-AllLong id xs l)
  | inr differs ↦ rw differs (lx, without-AllLong id xs l)
]

without-shorter :
    (id : ℤ) (ids : List ℤ)
    → length (process_list_to_zs (without id ids)) ≤ length (process_list_to_zs ids)
unfolding process_list_to_zs
without-shorter id [] = omega arith
without-shorter id (x ∷ xs) =
    let own = length-append (int_to_string x) (comma ∷ process_list_to_zs xs) in
    let left = length-append (int_to_string x) (comma ∷ process_list_to_zs (without id xs)) in
    elim (Bool-cases (int_beq x id)) [
      | inl same ↦ rw same (omega (arith, own, without-shorter id xs))
      | inr differs ↦ rw differs (omega (arith, own, left, without-shorter id xs))
    ]

AllLong-append : (xs : List ℤ) (y : ℤ) → AllLong xs → IsLong y → AllLong (xs ++ (y ∷ []))
AllLong-append [] y l ly = (ly, tt)
AllLong-append (x ∷ xs) y (lx, l) ly = (lx, AllLong-append xs y l ly)

-- The record of a segment, or no entries where there is no segment.
abbrev pub entries_if_any : Option SegmentInfo → Map Text Text
entries_if_any none = []
entries_if_any (some s) = entries_of s

module _ {Z : Type 0} (zk : ZooKeeper Z) where
  -- The node of a server holds the text of a list of ids.
  abbrev pub Lists : Z → ℤ → List ℤ → Type 0
  Lists z server_id ids =
      AllLong ids
      × (length (process_list_to_zs ids) ≤ buflen)
      × ((v : ℕ) × (zk.get z (process_path server_id) ≡ some (process_list_to_zs ids, v)))

  -- The service does not confirm the write of this list.
  abbrev pub ListFails : Z → ℤ → List ℤ → Type 0
  ListFails z server_id ids = SetFails zk z (process_path server_id) (process_list_to_zs ids)

  -- The list is written, and no other node changes.
  abbrev pub Relisted : Z → Z → ℤ → List ℤ → Type 0
  Relisted z z' server_id ids =
      Lists z' server_id ids × Elsewhere zk.get (process_path server_id) z z'

  Wrote-Relisted :
      (z z' : Z) (server_id : ℤ) (ids : List ℤ) (v : ℕ)
      → AllLong ids
      → length (process_list_to_zs ids) ≤ buflen
      → Wrote zk.get (process_path server_id) (process_list_to_zs ids) v z z'
      → Relisted z z' server_id ids
  Wrote-Relisted z z' server_id ids v long room (_, (u, _, stored), others) =
      ((long, room, (u, stored (room, process_list_to_zs-NoZero ids))), others)

  -- A write of a list: it is done, or it is not confirmed, and then nothing is done or all of it.
  set_list :
      (z : Z) (server_id : ℤ) (ids : List ℤ) (old : Text) (v : ℕ) (w : Z × Bool)
      → AllLong ids
      → length (process_list_to_zs ids) ≤ buflen
      → zk.get z (process_path server_id) ≡ some (old, v)
      → zk.set z (process_path server_id) (process_list_to_zs ids) v ≡ w
      → ((w.1 ≡ true) × Relisted z w.0 server_id ids)
        ⊎ ((w.1 ≡ false) × ListFails z server_id ids × ((w.0 ≡ z) ⊎ Relisted z w.0 server_id ids))
  set_list z server_id ids old v w long room stored ran =
      let path = process_path server_id in
      let text = process_list_to_zs ids in
      rw (← ran) (elim (Bool-cases (zk.set z path text v).1) [
        | inl done ↦
            inl
              (done, Wrote-Relisted z _ server_id ids v long room (zk.set_taken z path text v done))
        | inr failed ↦ inr (
          failed,
          (old, v, stored, failed),
          elim (zk.set_failed z path text v failed) [
            | inl same ↦ inl same
            | inr wrote ↦ inr (Wrote-Relisted z _ server_id ids v long room wrote)
          ],
        )
      ])

  pub added_text :
      (ids : List ℤ) (id : ℤ)
      → process_list_to_zs ids ++ (int_to_string id ++ (comma ∷ []))
        ≡ process_list_to_zs (ids ++ (id ∷ []))
  unfolding process_list_to_zs
  added_text ids id = sym (process_list_to_zs-append ids (id ∷ []))

  -- `addToProcessList` puts the id at the end of the server's list, changes no other node and
  -- returns 0; or the service does not confirm the write of that list, it returns -1, and the list is
  -- as it was or longer. The longer list fits into the client's buffer.
  pub add_to_process_list-Lists :
      (z : Z) (server_id id : ℤ) (ids : List ℤ)
      → IsLong id
      → length (process_list_to_zs (ids ++ (id ∷ []))) ≤ buflen
      → Lists z server_id ids
      → ((z' : Z) × (add_to_process_list zk server_id z id ≡ (z', true))
          × Relisted z z' server_id (ids ++ (id ∷ [])))
        ⊎ ((z' : Z) × (add_to_process_list zk server_id z id ≡ (z', false))
            × ListFails z server_id (ids ++ (id ∷ []))
            × ((z' ≡ z) ⊎ Relisted z z' server_id (ids ++ (id ∷ []))))
  unfolding add_to_process_list
  add_to_process_list-Lists z server_id id ids fits room (long, _, (v, stored)) =
      let path = process_path server_id in
      let more = ids ++ (id ∷ []) in
      let w = zk.set z path (process_list_to_zs more) v in
      let ran : add_to_process_list zk server_id z id ≡ w =
        rw (stored, add_to_process_list) (ap (λ t. zk.set z path t v) (added_text ids id)) in
      elim (set_list z server_id more (process_list_to_zs ids) v w (AllLong-append ids id long fits)
        room stored refl) [
          | inl (done, relisted) ↦ inl (w.0, ran ∙ pair_flag w true done, relisted)
          | inr (failed, why, left) ↦ inr (w.0, ran ∙ pair_flag w false failed, why, left)
        ]

  -- `removeFromProcessList` returns 0 on a list that it could read: either all occurrences of the id
  -- are off the server's list, and no other node has changed, or the service did not confirm the
  -- write of the list without the id, and nothing has changed.
  pub remove_from_process_list-Lists :
      (z : Z) (server_id id : ℤ) (ids : List ℤ)
      → Lists z server_id ids
      → (z' : Z) × (remove_from_process_list zk server_id z id ≡ ok (z', true))
        × (Relisted z z' server_id (without id ids)
            ⊎ (ListFails z server_id (without id ids) × (z' ≡ z)))
  unfolding remove_from_process_list
  remove_from_process_list-Lists z server_id id ids (long, room, (v, stored)) =
      let path = process_path server_id in
      let less = without id ids in
      let w = zk.set z path (process_list_to_zs less) v in
      (
        w.0,
        rw
            (
              read_node-stored zk z path (process_list_to_zs ids) v stored,
              zs_to_process_list-process_list_to_zs ids long,
              remove_from_process_list,
            )
            refl,
        elim (set_list z server_id less (process_list_to_zs ids) v w (without-AllLong id ids long)
            (omega (arith, room, without-shorter id ids)) stored refl) [
              | inl (_, relisted) ↦ inl relisted
              | inr (_, why, inl same) ↦ inr (why, same)
              | inr (_, why, inr relisted) ↦ inl relisted
            ],
      )

  pub get_memory_segment-Represents :
      (z : Z) (r : Registered) (id : ℤ)
      → IsLong id
      → Represents zk z r
      → get_memory_segment zk z id ≡ ok (entries_if_any (r id))
  unfolding get_memory_segment
  get_memory_segment-Represents z r id long rep = elim (Option-cases (r id)) [
    | inl gone ↦
        let missing = held zk z r id none long rep gone in
        rw (read_node-missing zk z (segment_path id) missing, get_memory_segment, gone) read_empty
    | inr (s, there) ↦
        let (_, _, (v, stored)) = held zk z r id (some s) long rep there in
        rw
          (
            read_node-stored zk z (segment_path id) (map_to_zs (entries_of s)) v stored,
            get_memory_segment,
            zs_to_map-entries_of s,
            there,
          )
          refl
  ]

  read_segments-Represents :
      (z : Z) (r : Registered) (ids : List ℤ) (ms : List (Map Text Text))
      → AllLong ids
      → Represents zk z r
      → read_segments zk z ids ms ≡ ok (ms ++ map (λ id. entries_if_any (r id)) ids)
  unfolding read_segments
  read_segments-Represents z r [] ms long rep = ap ok (sym (append_none ms))
  read_segments-Represents z r (id ∷ ids) ms (l, long) rep =
      rw (get_memory_segment-Represents z r id l rep, read_segments)
        (read_segments-Represents z r ids (ms ++ (entries_if_any (r id) ∷ [])) long rep
          ∙ ap ok (append_one ms (map (λ j. entries_if_any (r j)) ids) (entries_if_any (r id))))

  -- `GetPartitionsForProcess` gives the records of the segments on the list of a server, in the
  -- order of the list, with no entries for an id that has no segment.
  pub get_partitions_for_process-Lists :
      (z : Z) (r : Registered) (process_id : ℤ) (ids : List ℤ)
      → Lists z process_id ids
      → Represents zk z r
      → get_partitions_for_process zk z process_id ≡ ok (map (λ id. entries_if_any (r id)) ids)
  unfolding get_partitions_for_process
  get_partitions_for_process-Lists z r process_id ids (long, room, (v, stored)) rep =
      rw
        (
          read_node-stored zk z (process_path process_id) (process_list_to_zs ids) v stored,
          zs_to_process_list-process_list_to_zs ids long,
          get_partitions_for_process,
        )
        (read_segments-Represents z r ids [] long rep)
