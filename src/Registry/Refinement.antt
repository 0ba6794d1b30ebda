-- ===== src/Registry/Refinement.antt =====
-- The calls of src/distributed-allocator/RDMAMemNode.tpp on a segment's record, against the map from
-- ids to segments that the nodes stand for.
use rdma_migration_system.Prelude.{
  ℕ, ◌≡◌, ◌≢◌, refl, sym, ap, ◌∙◌, inl, inr, ◌⊎◌, arith, Option, some, none, Bool, true, false, [],
  ◌∷◌,
}
use rdma_migration_system.Prelude.Tests.{Bool-cases, Option-cases}
use rdma_migration_system.Prelude.Results.{ok, err, uninitialised}
use rdma_migration_system.Prelude.Integers.{ℤ, IsLong, int_beq, int_beq_iff}
use rdma_migration_system.Records.{map_to_zs, zs_to_map, read_map}
use rdma_migration_system.Records.Order.{Text}
use rdma_migration_system.Records.Signed.{atol, atol-int_to_string}
use rdma_migration_system.Registry.{ZooKeeper, Elsewhere, Wrote, Created, Removed}
use rdma_migration_system.Registry.Segments.{
  segment_path, finished, read_node-missing, read_node-stored, create_memory_segment_node,
  update_segment_destination, clean_memory_segment, delete_memory_segment,
}
use rdma_migration_system.Registry.Spec.{
  SegmentInfo, IsValid, FitsIfAny, entries_of, Registered, assign, Op, create, update, clean,
  delete, FitsOp, created, change, target, run, Held, Represents, Unconfirmed,
}
use rdma_migration_system.Registry.Entries.{zs_to_map-entries_of, entries_of-Storable}

behind_prefix : Text → Text
behind_prefix (_ ∷ _ ∷ _ ∷ _ ∷ _ ∷ _ ∷ _ ∷ _ ∷ _ ∷ _ ∷ _ ∷ _ ∷ _ ∷ _ ∷ _ ∷ _ ∷ _ ∷ s) = s
behind_prefix _ = []

segment_path-injective : (a b : ℤ) → IsLong a → IsLong b → segment_path a ≡ segment_path b → a ≡ b
unfolding behind_prefix
segment_path-injective a b la lb e =
    sym (atol-int_to_string a la) ∙ (ap (λ p. atol (behind_prefix p)) e ∙ atol-int_to_string b lb)

pub read_empty : finished (zs_to_map []) ≡ ok []
unfolding zs_to_map read_map
read_empty = refl

pub pair_flag : {Z : Type 0} (w : Z × Bool) (b : Bool) → w.1 ≡ b → w ≡ (w.0, b)
pair_flag (z, c) b e = ap (λ d. (z, d)) e

module _ {Z : Type 0} (zk : ZooKeeper Z) where
  pub held :
      (z : Z) (r : Registered) (id : ℤ) (o : Option SegmentInfo)
      → IsLong id
      → Represents zk z r
      → r id ≡ o
      → Held zk z (segment_path id) o
  held z r id o long rep e = rw (← e) (rep id long)

  pub Held-same :
      (z z' : Z) (path : Text) (o : Option SegmentInfo)
      → zk.get z' path ≡ zk.get z path
      → Held zk z path o
      → Held zk z' path o
  Held-same z z' path none e h = e ∙ h
  Held-same z z' path (some s) e (valid, fits, (v, there)) = (valid, fits, (v, e ∙ there))

  -- A write at one segment's path changes that segment only.
  pub Represents-assign :
      (z z' : Z) (r : Registered) (id : ℤ) (o : Option SegmentInfo)
      → IsLong id
      → Represents zk z r
      → Held zk z' (segment_path id) o
      → Elsewhere zk.get (segment_path id) z z'
      → Represents zk z' (assign id o r)
  Represents-assign z z' r id o long rep held others j long' = elim (Bool-cases (int_beq id j)) [
    | inl same ↦ rw same (rw (← (int_beq_iff id j).0 same) held)
    | inr differs ↦
        let apart : segment_path j ≢ segment_path id = λ e. absurd (
          ground (
            arith,
            differs,
            (int_beq_iff id j).1 (sym (segment_path-injective j id long' long e)),
          )) in
        rw differs
          (Held-same z z' (segment_path j) (r j) (others (segment_path j) apart) (rep j long'))
  ]

module _ {Z : Type 0} (zk : ZooKeeper Z) (server_id : ℤ) where
  -- The segment of the call changes as it should, and no other node does.
  abbrev pub Applied : Op → Z → Z → Registered → Type 0
  Applied op z z' r =
      (o : Option SegmentInfo) × (change server_id op (r (target op)) ≡ some o)
      × Represents zk z' (assign (target op) o r)
      × Elsewhere zk.get (segment_path (target op)) z z'

  -- How a call can end: its write is confirmed, and the segments change as they should; or the
  -- write is not confirmed, and the service is as it was, or has changed as it should; or there was
  -- nothing to read, and the version that the call needs is not set.
  abbrev pub Outcome : Op → Z → Registered → Type 0
  Outcome op z r =
      ((z' : Z) × (run zk server_id op z ≡ ok (z', true)) × Applied op z z' r)
      ⊎ (((z' : Z) × (run zk server_id op z ≡ ok (z', false))
            × Unconfirmed zk server_id op z r
            × ((z' ≡ z) ⊎ Applied op z z' r))
          ⊎ ((run zk server_id op z ≡ err uninitialised)
              × (change server_id op (r (target op)) ≡ none)))

  -- A call whose result is that of its write.
  write-Outcome :
      (op : Op) (z : Z) (r : Registered) (w : Z × Bool)
      → run zk server_id op z ≡ ok w
      → (w.1 ≡ true → Applied op z w.0 r)
      → (w.1 ≡ false → Unconfirmed zk server_id op z r × ((w.0 ≡ z) ⊎ Applied op z w.0 r))
      → Outcome op z r
  write-Outcome op z r w ran done failed = elim (Bool-cases w.1) [
    | inl yes_done ↦ inl (w.0, ran ∙ ap ok (pair_flag w true yes_done), done yes_done)
    | inr not_done ↦
        let (why, left) = failed not_done in
        inr (inl (w.0, ran ∙ ap ok (pair_flag w false not_done), why, left))
  ]

  -- A record that is replaced.
  Wrote-Applied :
      (op : Op) (z z' : Z) (r : Registered) (s : SegmentInfo) (v : ℕ)
      → IsLong (target op)
      → Represents zk z r
      → IsValid s
      → FitsIfAny s.destination
      → change server_id op (r (target op)) ≡ some (some s)
      → Wrote zk.get (segment_path (target op)) (map_to_zs (entries_of s)) v z z'
      → Applied op z z' r
  Wrote-Applied op z z' r s v long rep valid fits changed (_, (u, _, stored), others) = (
    some s,
    changed,
    Represents-assign zk z z' r (target op) (some s) long rep
        (valid, fits, (u, stored (entries_of-Storable s valid fits))) others,
    others,
  )

  set-Outcome :
      (op : Op) (z : Z) (r : Registered) (s : SegmentInfo) (v : ℕ)
      → IsLong (target op)
      → Represents zk z r
      → IsValid s
      → FitsIfAny s.destination
      → run zk server_id op z
        ≡ ok (zk.set z (segment_path (target op)) (map_to_zs (entries_of s)) v)
      → change server_id op (r (target op)) ≡ some (some s)
      → ((zk.set z (segment_path (target op)) (map_to_zs (entries_of s)) v).1 ≡ false
          → Unconfirmed zk server_id op z r)
      → Outcome op z r
  set-Outcome op z r s v long rep valid fits ran changed why =
      let path = segment_path (target op) in
      let text = map_to_zs (entries_of s) in
      let w = zk.set z path text v in
      write-Outcome op z r w ran
        (λ done.
          Wrote-Applied op z w.0 r s v long rep valid fits changed
            (zk.set_taken z path text v done))
        (λ failed. (
          why failed,
          elim (zk.set_failed z path text v failed) [
            | inl same ↦ inl same
            | inr wrote ↦ inr (Wrote-Applied op z w.0 r s v long rep valid fits changed wrote)
          ],
        ))

  Created-Applied :
      (z z' : Z) (r : Registered) (address size : ℕ) (source destination id : ℤ)
      → FitsOp (create address size source destination id)
      → Represents zk z r
      → Created zk.get
          (segment_path id)
          (map_to_zs (entries_of (created address size source destination id)))
          z
          z'
      → Applied (create address size source destination id) z z' r
  Created-Applied z z' r address size source destination id (fa, fs, fsrc, fd, long) rep
        (free, (u, stored), others) =
      let s = created address size source destination id in
      let valid : IsValid s = record {
        address_fits = fa;
        size_fits = fs;
        source_fits = fsrc;
        client_fits = long;
      } in
      elim (Option-cases (r id)) [
        | inr (t, there) ↦
            let (_, _, (v, taken)) = held zk z r id (some t) long rep there in
            absurd (ground (arith, free, taken))
        | inl fresh ↦ (
          some s,
          rw fresh refl,
          Represents-assign zk z z' r id (some s) long rep
              (valid, fd, (u, stored (entries_of-Storable s valid fd))) others,
          others,
        )
      ]

  create-Outcome :
      (z : Z) (r : Registered) (address size : ℕ) (source destination id : ℤ)
      → FitsOp (create address size source destination id)
      → Represents zk z r
      → Outcome (create address size source destination id) z r
  unfolding create_memory_segment_node
  create-Outcome z r address size source destination id fits rep =
      let path = segment_path id in
      let text = map_to_zs (entries_of (created address size source destination id)) in
      let w = zk.create z path text in
      write-Outcome (create address size source destination id) z r w refl
        (λ done.
          Created-Applied z w.0 r address size source destination id fits rep
            (zk.create_taken z path text done))
        (λ failed. (
          failed,
          elim (zk.create_failed z path text failed) [
            | inl same ↦ inl same
            | inr made ↦
                inr (Created-Applied z w.0 r address size source destination id fits rep made)
          ],
        ))

  update-Outcome :
      (z : Z) (r : Registered) (id destination : ℤ)
      → FitsOp (update id destination)
      → Represents zk z r
      → Outcome (update id destination) z r
  unfolding update_segment_destination
  update-Outcome z r id destination (long, fits) rep = elim (Option-cases (r id)) [
    | inl gone ↦
        let missing : zk.get z (segment_path id) ≡ none = held zk z r id none long rep gone in
        inr (
          inr (
            rw
                (
                  read_node-missing zk z (segment_path id) missing,
                  read_empty,
                  update_segment_destination,
                )
                refl,
            rw gone refl,
          ))
    | inr (s, there) ↦
        let (valid, _, (v, stored)) = held zk z r id (some s) long rep there in
        set-Outcome (update id destination) z r (record s { destination = some destination }) v long
          rep
          (record {
            address_fits = valid.address_fits;
            size_fits = valid.size_fits;
            source_fits = valid.source_fits;
            client_fits = valid.client_fits;
          })
          fits
          (rw
            (
              read_node-stored zk z (segment_path id) (map_to_zs (entries_of s)) v stored,
              zs_to_map-entries_of s,
              update_segment_destination,
            )
            refl)
          (rw there refl) (λ failed. (s, there, (map_to_zs (entries_of s), v, stored, failed)))
  ]

  clean-Outcome :
      (z : Z) (r : Registered) (id : ℤ)
      → IsLong server_id
      → FitsOp (clean id)
      → Represents zk z r
      → Outcome (clean id) z r
  unfolding clean_memory_segment
  clean-Outcome z r id own long rep = elim (Option-cases (r id)) [
    | inl gone ↦
        let missing : zk.get z (segment_path id) ≡ none = held zk z r id none long rep gone in
        inr (
          inr (
            rw (read_node-missing zk z (segment_path id) missing, read_empty, clean_memory_segment)
                refl,
            rw gone refl,
          ))
    | inr (s, there) ↦
        let (valid, _, (v, stored)) = held zk z r id (some s) long rep there in
        set-Outcome (clean id) z r (record s { source = server_id; destination = none }) v long rep
          (record {
            address_fits = valid.address_fits;
            size_fits = valid.size_fits;
            source_fits = own;
            client_fits = valid.client_fits;
          })
          tt
          (rw
            (
              read_node-stored zk z (segment_path id) (map_to_zs (entries_of s)) v stored,
              zs_to_map-entries_of s,
              clean_memory_segment,
            )
            refl)
          (rw there refl) (λ failed. (s, there, (map_to_zs (entries_of s), v, stored, failed)))
  ]

  Removed-Applied :
      (z z' : Z) (r : Registered) (id source : ℤ) (s : SegmentInfo) (v : ℕ)
      → IsLong id
      → Represents zk z r
      → r id ≡ some s
      → Removed zk.get (segment_path id) v z z'
      → Applied (delete id source) z z' r
  Removed-Applied z z' r id source s v long rep there (_, free, others) =
      (none, rw there refl, Represents-assign zk z z' r id none long rep free others, others)

  delete-Outcome :
      (z : Z) (r : Registered) (id source : ℤ)
      → FitsOp (delete id source)
      → Represents zk z r
      → Outcome (delete id source) z r
  unfolding delete_memory_segment
  delete-Outcome z r id source long rep = elim (Option-cases (r id)) [
    | inl gone ↦
        let missing : zk.get z (segment_path id) ≡ none = held zk z r id none long rep gone in
        inr (
          inr (
            rw (read_node-missing zk z (segment_path id) missing, read_empty, delete_memory_segment)
                refl,
            rw gone refl,
          ))
    | inr (s, there) ↦
        let (valid, _, (v, stored)) = held zk z r id (some s) long rep there in
        let path = segment_path id in
        let w = zk.remove z path v in
        let ran : run zk server_id (delete id source) z ≡ ok w =
          rw
            (
              read_node-stored zk z (segment_path id) (map_to_zs (entries_of s)) v stored,
              zs_to_map-entries_of s,
              delete_memory_segment,
            )
            refl in
        write-Outcome (delete id source) z r w ran
          (λ done.
            Removed-Applied z w.0 r id source s v long rep there (zk.remove_taken z path v done))
          (λ failed. (
            (map_to_zs (entries_of s), v, stored, failed),
            elim (zk.remove_failed z path v failed) [
              | inl same ↦ inl same
              | inr gone ↦ inr (Removed-Applied z w.0 r id source s v long rep there gone)
            ],
          ))
  ]

  pub run-Outcome :
      (op : Op) (z : Z) (r : Registered)
      → IsLong server_id
      → FitsOp op
      → Represents zk z r
      → Outcome op z r
  run-Outcome (create address size source destination id) z r own fits rep =
      create-Outcome z r address size source destination id fits rep
  run-Outcome (update id destination) z r own fits rep = update-Outcome z r id destination fits rep
  run-Outcome (clean id) z r own fits rep = clean-Outcome z r id own fits rep
  run-Outcome (delete id source) z r own fits rep = delete-Outcome z r id source fits rep
