-- ===== src/Tolerant/Handover.antt =====
-- A whole migration between two servers of the build with FAULT_TOLERANT and PAGING, and the records
-- in the service that they share.
use mathlib.Core.Path.{subst}
use rdma_migration_system.Prelude.{
  ℕ, ◌≤◌, ◌≡◌, refl, inl, inr, some, none, Option, true, List, [], ◌∷◌, ◌++◌,
}
use rdma_migration_system.Prelude.Tests.{Bool-cases}
use rdma_migration_system.Prelude.Lists.{length}
use rdma_migration_system.Prelude.Results.{ok}
use rdma_migration_system.Prelude.Integers.{ℤ, IsLong, long_max, int_beq, int_beq_iff}
use rdma_migration_system.Prelude.Maps.{lookup, insert, nat_key}
use rdma_migration_system.Records.{process_list_to_zs}
use rdma_migration_system.Records.Signed.{int_to_string}
use rdma_migration_system.Registry.{ZooKeeper, buflen}
use rdma_migration_system.Registry.Segments.{segment_path}
use rdma_migration_system.Registry.Spec.{SegmentInfo, Registered, assign, Held, Represents}
use rdma_migration_system.Registry.Partitions.{Lists}
use rdma_migration_system.Manager.{
  Segment, shared, register, register_local, deregister, accept, transfer, done_transfer,
}
use rdma_migration_system.Manager.Links.{connection}
use rdma_migration_system.Manager.Segments.{new_segment, segment_at, store}
use rdma_migration_system.Manager.Allocate.{record_segment}
use rdma_migration_system.Manager.Poller.{Kind}
use rdma_migration_system.Manager.Stages.{
  Holds, grants, store-Holds, record_segment-Holds, same_key,
}
use rdma_migration_system.Tolerant.{Tolerant, plain, prepare_client, own_id}
use rdma_migration_system.Tolerant.Migrate.{
  prepare_segment, close_segment, dispatch, transfer as transfer_to,
}
use rdma_migration_system.Tolerant.Stages.{
  dispatch-prepare, prepare_segment-run, dispatch-accept, transfer-run, dispatch-transfer,
  close_segment-run, dispatch-done,
}
use rdma_migration_system.Tolerant.Books.{Represents-list, Lists-segment}
use rdma_migration_system.Tolerant.Reliable.{
  Reliable, update-Becomes, clean-Becomes, add_to_process_list-grows,
}

assign_same : (r : Registered) (id : ℤ) (o : Option SegmentInfo) → assign id o r id ≡ o
assign_same r id o = rw ((int_beq_iff id id).1 refl) refl

assign_twice :
    (r : Registered) (id j : ℤ) (o o' : Option SegmentInfo)
    → assign id o' (assign id o r) j ≡ assign id o' r j
assign_twice r id j o o' = elim (Bool-cases (int_beq id j)) [
  | inl same ↦ rw same refl
  | inr differs ↦ rw differs refl
]

module _ {Z : Type 0} (zk : ZooKeeper Z) where
  -- The server with the service as the others left it.
  abbrev pub seen : Z → Tolerant Z → Tolerant Z
  seen z t = record t { zoo = z }

  Represents-twice :
      (z : Z) (r : Registered) (id : ℤ) (o o' : Option SegmentInfo)
      → Represents zk z (assign id o' (assign id o r))
      → Represents zk z (assign id o' r)
  Represents-twice z r id o o' rep j long =
      subst (λ x. Held zk z (segment_path j) x) (assign_twice r id j o o') (rep j long)

  -- The stages of the migration of a segment of `a`, at `addr`, to `b`, which share a service `z`,
  -- and the records at its end.
  pub record HandsOver (z : Z) (a b : Tolerant Z) (addr size p : ℕ) (s : Segment) (id : ℤ)
      (info : SegmentInfo) (r : Registered) (ids : List ℤ) (ca cb : ℕ) : Type 0 where
    pub a_prepared : Tolerant Z
    pub b_allocated : Tolerant Z
    pub a_accepted : Tolerant Z
    pub a_shared : Tolerant Z
    pub b_transferred : Tolerant Z
    pub b_closed : Tolerant Z
    pub a_closed : Tolerant Z
    pub prepares :
        prepare_segment (seen z a) addr size b.manager.node.server_id
        ≡ ok (
          a_prepared,
          (ca, plain (register addr size)) ∷ (ca, prepare_client addr size (int_to_string id)) ∷ [],
        )
    pub allocates :
        dispatch zk true
          (grants addr)
          true
          (seen z b)
          addr
          size
          (int_to_string id)
          a.manager.node.server_id
          Kind.prepare
        ≡ ok (
          b_allocated,
          (cb, plain (register_local addr size)) ∷ (cb, plain (accept addr size)) ∷ [],
        )
    pub accepts :
        dispatch zk true
          (grants addr)
          true
          (seen b_allocated.zoo a_prepared)
          addr
          size
          []
          b.manager.node.server_id
          Kind.accept
        ≡ ok (a_accepted, [])
    pub transfers :
        transfer_to a_accepted addr size b.manager.node.server_id
        ≡ ok (a_shared, (ca, plain (transfer addr size)) ∷ [])
    pub takes :
        dispatch zk true
          (grants addr)
          true
          (seen a_shared.zoo b_allocated)
          addr
          size
          []
          a.manager.node.server_id
          Kind.transfer
        ≡ ok (b_transferred, [])
    pub closes :
        close_segment zk true b_transferred addr size a.manager.node.server_id true
        ≡ ok (b_closed, (cb, plain (done_transfer addr size)) ∷ (cb, plain (deregister addr)) ∷ [])
    pub releases :
        dispatch zk true
          (grants addr)
          true
          (seen b_closed.zoo a_shared)
          addr
          size
          []
          b.manager.node.server_id
          Kind.done
        ≡ ok (a_closed, (ca, plain (deregister addr)) ∷ [])
    pub offered :
        Represents zk a_accepted.zoo
          (assign id (some (record info { destination = some (own_id b) })) r)
    pub recorded :
        Represents zk b_closed.zoo
          (assign id (some (record info { source = own_id b; destination = none })) r)
    pub listed : Lists zk b_closed.zoo (own_id b) (ids ++ (id ∷ []))
    pub arrived :
        Holds b_closed.manager addr b.manager.next
          (record (new_segment b.manager.node.server_id addr size) {
            pair = some a.manager.node.server_id;
          })
    pub left : Holds a_closed.manager addr p (record s {
      owner = b.manager.node.server_id;
      state = shared;
      pair = some b.manager.node.server_id;
    })

  -- In the fault-tolerant build a segment goes to another server in seven stages that all return,
  -- where the servers know each other, the service takes every write with the current version,
  -- `mmap` gives the address that it is asked for and `mprotect` succeeds. After the acceptance its
  -- record names the new server as destination; in the end the record names it as source, with no
  -- destination, the id is at the end of the new server's list, and no other segment's record has
  -- changed. The list of the new server, with the id, has at most 4096 characters, what the client
  -- reads of a node.
  pub hand_over :
      (z : Z) (a b : Tolerant Z) (addr size p : ℕ) (s : Segment) (id : ℤ) (info : SegmentInfo)
      (r : Registered) (ids : List ℤ) (ca cb : ℕ)
      → Reliable zk
      → IsLong id
      → b.manager.node.server_id ≤ long_max
      → Holds a.manager addr p s
      → lookup p a.application_ids ≡ some id
      → connection a.manager.node b.manager.node.server_id ≡ ok ca
      → connection b.manager.node a.manager.node.server_id ≡ ok cb
      → Represents zk z r
      → r id ≡ some info
      → Lists zk z (own_id b) ids
      → length (process_list_to_zs (ids ++ (id ∷ []))) ≤ buflen
      → HandsOver z a b addr size p s id info r ids ca cb
  unfolding segment_at new_segment
  hand_over z a b addr size p s id info r ids ca cb reliable long own holds known to_b to_a rep
        there lists room =
      let sa = a.manager.node.server_id in
      let sb = b.manager.node.server_id in
      let prepared : Segment = record s { pair = some sb } in
      let a1 : Tolerant Z = record (seen z a) { manager = store a.manager p prepared } in
      let h1 : Holds a1.manager addr p prepared = store-Holds a.manager addr p s prepared holds in
      let (z1, added, longer, others1) =
        add_to_process_list-grows zk z (own_id b) id ids reliable long room lists in
      let new = new_segment sb addr size in
      let paired : Segment = record new { pair = some sa } in
      let b0 = record_segment b.manager addr size in
      let b1 : Tolerant Z = record b {
        zoo = z1;
        manager = store b0 b.manager.next paired;
        application_ids = insert b.manager.next id b.application_ids;
      } in
      let k1 : Holds b1.manager addr b.manager.next paired =
        store-Holds b0 addr b.manager.next new paired (record_segment-Holds b.manager addr size) in
      let of_new : lookup b.manager.next b1.application_ids ≡ some id =
        same_key b.manager.next id b.application_ids in
      let rep1 = Represents-list zk z z1 r (own_id b) others1 rep in
      let towards : SegmentInfo = record info { destination = some (own_id b) } in
      let (z2, updated, rep2, others2) =
        update-Becomes zk (own_id b) z1 r id (own_id b) info reliable own long own rep1 there in
      let a2 : Tolerant Z = record a {
        zoo = z2;
        manager = record a1.manager { incoming_accepts = a.manager.incoming_accepts ++ (p ∷ []) };
      } in
      let gone : Segment = record prepared { owner = sb; state = shared } in
      let a3 : Tolerant Z = record a2 { manager = store a2.manager p gone } in
      let h3 : Holds a3.manager addr p gone = store-Holds a2.manager addr p prepared gone h1 in
      let waiting : Segment = record paired { state = shared } in
      let b2 : Tolerant Z = record b1 {
        zoo = z2;
        manager = record (store b1.manager b.manager.next waiting) {
          incoming_transfers = b.manager.incoming_transfers ++ (b.manager.next ∷ []);
        };
      } in
      let k2 : Holds b2.manager addr b.manager.next waiting =
        store-Holds b1.manager addr b.manager.next paired waiting k1 in
      let (z3, cleaned, rep3, others3) =
        clean-Becomes zk (own_id b) z2 (assign id (some towards) r) id towards reliable own long
          rep2 (assign_same r id (some towards)) in
      record {
        a_prepared = a1;
        b_allocated = b1;
        a_accepted = a2;
        a_shared = a3;
        b_transferred = b2;
        b_closed = record b2 { zoo = z3; manager = store b2.manager b.manager.next paired };
        a_closed = record a3 {
          zoo = z3;
          manager = record a3.manager { incoming_dones = a.manager.incoming_dones ++ (p ∷ []) };
        };
        prepares = prepare_segment-run zk (seen z a) addr p s id holds known size sb ca to_b;
        allocates = dispatch-prepare zk (seen z b) addr size sa cb id z1 to_a long added;
        accepts =
            dispatch-accept zk (seen z1 a1) addr p prepared id h1 known (grants addr) true size sb
              z2 updated;
        transfers = transfer-run zk a2 addr p prepared id h1 known size sb ca to_b;
        takes =
            dispatch-transfer zk (seen z2 b1) addr b.manager.next paired id k1 of_new true size sa;
        closes =
            close_segment-run zk b2 addr b.manager.next waiting id k2 of_new size sa cb z3 to_a
              cleaned;
        releases =
            dispatch-done zk (seen z3 a3) addr p gone id h3 known (grants addr) true size sb ca
              to_b;
        offered = rep2;
        recorded =
            Represents-twice z3 r id (some towards)
              (some (record towards { source = own_id b; destination = none })) rep3;
        listed =
            Lists-segment zk z2 z3 (own_id b) id (ids ++ (id ∷ [])) others3
              (Lists-segment zk z1 z2 (own_id b) id (ids ++ (id ∷ [])) others2 longer);
        arrived = store-Holds b2.manager addr b.manager.next waiting paired k2;
        left = h3;
      }
