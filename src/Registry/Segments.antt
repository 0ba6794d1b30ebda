-- ===== src/Registry/Segments.antt =====
-- src/distributed-allocator/RDMAMemNode.tpp, built with FAULT_TOLERANT: the record of a segment.
use rdma_migration_system.Prelude.{ℕ, ◌≡◌, refl, Option, some, none, Bool, [], ◌∷◌, ◌++◌}
use rdma_migration_system.Prelude.Results.{Result, ok, err, blocks, uninitialised, or_fault, ◌>>=◌}
use rdma_migration_system.Prelude.Integers.{ℤ}
use rdma_migration_system.Prelude.Maps.{Map, insert}
use rdma_migration_system.Records.{map_to_zs, zs_to_map}
use rdma_migration_system.Records.Order.{Text, text_key}
use rdma_migration_system.Records.Decimal.{to_string}
use rdma_migration_system.Records.Signed.{int_to_string}
use rdma_migration_system.Registry.{ZooKeeper}

-- "address"
abbrev pub address_key : Text
address_key = 97 ∷ 100 ∷ 100 ∷ 114 ∷ 101 ∷ 115 ∷ 115 ∷ []

-- "clientID"
abbrev pub client_key : Text
client_key = 99 ∷ 108 ∷ 105 ∷ 101 ∷ 110 ∷ 116 ∷ 73 ∷ 68 ∷ []

-- "destination"
abbrev pub destination_key : Text
destination_key = 100 ∷ 101 ∷ 115 ∷ 116 ∷ 105 ∷ 110 ∷ 97 ∷ 116 ∷ 105 ∷ 111 ∷ 110 ∷ []

-- "size"
abbrev pub size_key : Text
size_key = 115 ∷ 105 ∷ 122 ∷ 101 ∷ []

-- "source"
abbrev pub source_key : Text
source_key = 115 ∷ 111 ∷ 117 ∷ 114 ∷ 99 ∷ 101 ∷ []

-- "/memory_segments/", the node of the segments and the `"/"` behind it.
abbrev pub segment_prefix : Text
segment_prefix =
    47 ∷ 109 ∷ 101 ∷ 109 ∷ 111 ∷ 114 ∷ 121 ∷ 95 ∷ 115 ∷ 101 ∷ 103 ∷ 109 ∷ 101 ∷ 110 ∷ 116 ∷ 115 ∷ 47
    ∷ []

abbrev pub segment_path : ℤ → Text
segment_path id = segment_prefix ++ int_to_string id

-- A loop that ends, or else never returns.
abbrev pub finished {ℓ} : {A : Type ℓ} → Option (Result A) → Result A
finished none = err blocks
finished (some r) = r

module _ {Z : Type 0} (zk : ZooKeeper Z) where
  -- `get` with the string and the `Stat` of its caller: a read that fails leaves an empty string,
  -- and the version as it was declared, without a value.
  unfoldable pub read_node : Z → Text → Text × Option ℕ
  read_node z path = elim (zk.get z path) [ none ↦ ([], none) | some (text, v) ↦ (text, some v) ]

  pub read_node-missing :
      (z : Z) (path : Text) → zk.get z path ≡ none → read_node z path ≡ ([], none)
  unfolding read_node
  read_node-missing z path e = rw (e, read_node) refl

  pub read_node-stored :
      (z : Z) (path text : Text) (v : ℕ)
      → zk.get z path ≡ some (text, v)
      → read_node z path ≡ (text, some v)
  unfolding read_node
  read_node-stored z path text v e = rw (e, read_node) refl

  -- `createMemorySegmentNode`; `true` is 0, and `false` -1.
  unfoldable pub create_memory_segment_node : Z → ℕ → ℕ → ℤ → ℤ → ℤ → Z × Bool
  create_memory_segment_node z address size source destination id =
      let m = insert address_key (to_string address) [] in
      let m = insert size_key (to_string size) m in
      let m = insert source_key (int_to_string source) m in
      let m = insert destination_key (int_to_string destination) m in
      let m = insert client_key (int_to_string id) m in zk.create z (segment_path id) (map_to_zs m)

  -- `updateSegmentDestination`
  unfoldable pub update_segment_destination : Z → ℤ → ℤ → Result (Z × Bool)
  update_segment_destination z app_id destination =
      let (result, stat) = read_node z (segment_path app_id) in
      do
        segment_map ← finished (zs_to_map result)
        version ← or_fault stat uninitialised
        ok (
            zk.set z (segment_path app_id)
              (map_to_zs (insert destination_key (int_to_string destination) segment_map)) version)

  -- `cleanMemorySegment`
  unfoldable pub clean_memory_segment : ℤ → Z → ℤ → Result (Z × Bool)
  clean_memory_segment server_id z app_id =
      let (result, stat) = read_node z (segment_path app_id) in
      do
        segment_map ← finished (zs_to_map result)
        version ← or_fault stat uninitialised
        ok (
            zk.set z (segment_path app_id)
              (map_to_zs (
                insert destination_key []
                  (insert source_key (int_to_string server_id) segment_map)))
              version)

  -- `deleteMemorySegment`. Whether the caller is the source only goes to the log.
  unfoldable pub delete_memory_segment : Z → ℤ → ℤ → Result (Z × Bool)
  delete_memory_segment z app_id source =
      let (result, stat) = read_node z (segment_path app_id) in
      do
        _ ← finished (zs_to_map result)
        version ← or_fault stat uninitialised
        ok (zk.remove z (segment_path app_id) version)

  -- `getMemorySegment`
  unfoldable pub get_memory_segment : Z → ℤ → Result (Map Text Text)
  get_memory_segment z app_id = finished (zs_to_map (read_node z (segment_path app_id)).0)
