-- ===== src/Registry.antt =====
-- src/distributed-allocator/RDMAMemNode.tpp, built with FAULT_TOLERANT: the records that the
-- servers share in ZooKeeper.
pub mod Texts
pub mod Segments
pub mod Spec
pub mod Entries
pub mod Refinement
pub mod Processes
pub mod Partitions
pub mod Grants
mod Examples
pub mod Samples
use rdma_migration_system.Prelude.{
  ℕ, zero, suc, ◌+◌, ◌≡◌, ◌≢◌, ◌<◌, ◌≤◌, ◌⊎◌, Option, some, none, Bool, true, false, List, [], ◌∷◌,
  ◌++◌,
}
use rdma_migration_system.Prelude.Tests.{if◌then◌else◌}
use rdma_migration_system.Prelude.Results.{
  Result, ok, err, logic_error, out_of_range, or_fault, ◌>>=◌,
}
use rdma_migration_system.Prelude.Lists.{length}
use rdma_migration_system.Prelude.Word.{add64}
use rdma_migration_system.Prelude.Maps.{Map, lookup, insert}
use rdma_migration_system.Records.{map_to_zs, zs_to_map}
use rdma_migration_system.Records.Order.{Text, text_key}
use rdma_migration_system.Records.Decimal.{to_string, stoul}

-- A text that a node gives back as it was stored: no zero, and at most `BUFLEN` characters.
abbrev pub buflen : ℕ
buflen = 4096

abbrev pub NoZero : Text → Type 0
NoZero [] = Unit {0}
NoZero (c ∷ cs) = (c ≢ 0) × NoZero cs

abbrev pub Storable : Text → Type 0
Storable text = (length text ≤ buflen) × NoZero text

-- Two states of a service that differ at one path at most.
abbrev pub Elsewhere {ℓ κ} : {Z : Type ℓ} {A : Type κ} → (Z → Text → A) → Text → Z → Z → Type κ
Elsewhere read path z z' = (other : Text) → other ≢ path → read z' other ≡ read z other

abbrev pub version_of : Option (Text × ℕ) → Option ℕ
version_of none = none
version_of (some (text, v)) = some v

-- What a write did: `set` and `remove` with the version that the node had, `create` where there was
-- no node.
abbrev pub Wrote : {Z : Type 0} → (Z → Text → Option (Text × ℕ)) → Text → Text → ℕ → Z → Z → Type 0
Wrote get path text version z z' =
    ((old : Text) × (get z path ≡ some (old, version)))
    × ((w : ℕ) × (version < w) × (Storable text → get z' path ≡ some (text, w)))
    × Elsewhere get path z z'

abbrev pub Created : {Z : Type 0} → (Z → Text → Option (Text × ℕ)) → Text → Text → Z → Z → Type 0
Created get path text z z' =
    (get z path ≡ none)
    × ((w : ℕ) × (Storable text → get z' path ≡ some (text, w)))
    × Elsewhere get path z z'

abbrev pub Removed : {Z : Type 0} → (Z → Text → Option (Text × ℕ)) → Text → ℕ → Z → Z → Type 0
Removed get path version z z' =
    ((old : Text) × (get z path ≡ some (old, version)))
    × (get z' path ≡ none)
    × Elsewhere get path z z'

-- The client of a ZooKeeper service, whose state is `Z`. `get` gives the text of a node and its
-- version, or fails; a write says whether it is known to have succeeded. After a write that is not,
-- the service is as it was (a bad version, no node, a node that is there), or the write was done and
-- its answer lost (a lost connection, a timeout).
pub record ZooKeeper (Z : Type 0) : Type 0 where
  pub get : Z → Text → Option (Text × ℕ)
  pub set : Z → Text → Text → ℕ → Z × Bool
  pub create : Z → Text → Text → Z × Bool
  pub remove : Z → Text → ℕ → Z × Bool
  pub exists : Z → Text → Option ℕ
  pub exists_get : (z : Z) (path : Text) → exists z path ≡ version_of (get z path)
  pub set_taken :
      (z : Z) (path text : Text) (version : ℕ)
      → (set z path text version).1 ≡ true
      → Wrote get path text version z (set z path text version).0
  pub set_failed :
      (z : Z) (path text : Text) (version : ℕ)
      → (set z path text version).1 ≡ false
      → ((set z path text version).0 ≡ z)
        ⊎ Wrote get path text version z (set z path text version).0
  pub create_taken :
      (z : Z) (path text : Text)
      → (create z path text).1 ≡ true
      → Created get path text z (create z path text).0
  pub create_failed :
      (z : Z) (path text : Text)
      → (create z path text).1 ≡ false
      → ((create z path text).0 ≡ z) ⊎ Created get path text z (create z path text).0
  pub remove_taken :
      (z : Z) (path : Text) (version : ℕ)
      → (remove z path version).1 ≡ true
      → Removed get path version z (remove z path version).0
  pub remove_failed :
      (z : Z) (path : Text) (version : ℕ)
      → (remove z path version).1 ≡ false
      → ((remove z path version).0 ≡ z) ⊎ Removed get path version z (remove z path version).0

-- What a server has read and not yet written: the address, the version, and the size it wants.
pub record Pending : Type 0 where
  pub addr : ℕ
  pub version : ℕ
  pub size : ℕ

-- "/allocator"
abbrev pub allocator_node : Text
allocator_node = 47 ∷ 97 ∷ 108 ∷ 108 ∷ 111 ∷ 99 ∷ 97 ∷ 116 ∷ 111 ∷ 114 ∷ []

module _ {Z : Type 0} (zk : ZooKeeper Z) where
  -- `getAllocationAddress`, up to the write. After a failed read the text is empty, and `stoul`
  -- throws.
  unfoldable pub read_allocator : Z → Result (ℕ × ℕ)
  read_allocator z = do
    (result, version) ← or_fault (zk.get z allocator_node) logic_error
    res ← stoul result
    ok (res, version)

  -- Its write, and whether it succeeds; if not, the call starts again.
  unfoldable pub write_allocator : Z → Pending → Z × Bool
  write_allocator z p = zk.set z allocator_node (to_string (add64 p.addr p.size)) p.version
