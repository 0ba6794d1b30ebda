-- ===== src/Tolerant/Kept.antt =====
-- `allocate` of src/distributed-allocator/RDMAMemory.tpp, built with FAULT_TOLERANT, and the records
-- that it leaves in the service.
use rdma_migration_system.Prelude.{ℕ, ◌≡◌, ◌⊎◌, Option, some, none, true, List, [], ◌∷◌, ◌++◌}
use rdma_migration_system.Prelude.Integers.{ℤ, negsuc}
use rdma_migration_system.Prelude.Maps.{lookup, nat_key}
use rdma_migration_system.Registry.{ZooKeeper}
use rdma_migration_system.Registry.Segments.{create_memory_segment_node}
use rdma_migration_system.Registry.Spec.{
  SegmentInfo, Registered, assign, create, Represents, Unconfirmed,
}
use rdma_migration_system.Registry.Partitions.{Lists, ListFails}
use rdma_migration_system.Tolerant.{Tolerant, own_id}
use rdma_migration_system.Tolerant.Allocate.{allocate_fresh}

-- The segment that a server allocates.
abbrev pub allocated : ℕ → ℕ → ℤ → ℤ → SegmentInfo
allocated address size server_id id = record {
  address = address;
  size = size;
  source = server_id;
  destination = some (negsuc 0);
  client = id;
}

module _ {Z : Type 0} (zk : ZooKeeper Z) where
  -- The segment has a record and is on the list of its server, and the server knows it.
  abbrev pub Allocates : Tolerant Z → Registered → List ℤ → ℕ → ℕ → ℤ → Option ℕ → Type 0
  Allocates t r ids address size id mapped =
      (t' : Tolerant Z) × (res : ℕ) × (mapped ≡ some res)
      × (allocate_fresh zk t address size id mapped ≡ (t', some res))
      × (lookup res t'.manager.memory_map ≡ some t.manager.next)
      × (lookup t.manager.next t'.application_ids ≡ some id)
      × Represents zk t'.zoo (assign id (some (allocated address size (own_id t) id)) r)
      × Lists zk t'.zoo (own_id t) (ids ++ (id ∷ []))

  -- A null pointer, and the server is as it was. There was no memory; or the service did not confirm
  -- the record, and has it or not; or it did not confirm the longer list, and has the record, and the
  -- longer list or the old one.
  abbrev pub Fails : Tolerant Z → Registered → List ℤ → ℕ → ℕ → ℤ → Option ℕ → Type 0
  Fails t r ids address size id mapped =
      let info = allocated address size (own_id t) id in
      let op = create address size (own_id t) (negsuc 0) id in
      let fails_with : Z → Type 0 =
        λ z. allocate_fresh zk t address size id mapped ≡ (record t { zoo = z }, none) in
      ((mapped ≡ none) × fails_with t.zoo)
      ⊎ (((z : Z) × fails_with z
            × Unconfirmed zk (own_id t) op t.zoo r
            × ((z ≡ t.zoo) ⊎ Represents zk z (assign id (some info) r))
            × Lists zk z (own_id t) ids)
          ⊎ ((z : Z) × (z' : Z) × (create_memory_segment_node zk t.zoo address size (own_id t)
                  (negsuc 0) id
                ≡ (z, true))
              × fails_with z'
              × ListFails zk z (own_id t) (ids ++ (id ∷ []))
              × Represents zk z' (assign id (some info) r)
              × (Lists zk z' (own_id t) ids ⊎ Lists zk z' (own_id t) (ids ++ (id ∷ [])))))
