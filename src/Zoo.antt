-- ===== src/Zoo.antt =====
-- src/zookeeper/zookeeper.tpp: the wrapper of ZooKeeper's C client. The handle is the service that
-- it is connected to.
pub mod Laws
pub mod Service
use rdma_migration_system.Prelude.{
  ℕ, zero, suc, ◌≡◌, ◌≢◌, ◌<◌, ◌⊎◌, Option, some, none, Bool, true, false, List, [], ◌∷◌,
}
use rdma_migration_system.Prelude.Lists.{replicate}
use rdma_migration_system.Records.{c_str}
use rdma_migration_system.Records.Order.{Text}
use rdma_migration_system.Registry.{buflen, Elsewhere}

-- At most `n` characters.
abbrev pub take : ℕ → Text → Text
take n [] = []
take zero (c ∷ cs) = []
take (suc n) (c ∷ cs) = c ∷ take n cs

-- What a node holds: its bytes, which can be NULL, and its version.
abbrev pub Node : Type 0
Node = Option Text × ℕ

-- What `zoo_get` leaves in a buffer of `n` characters.
abbrev pub cut : ℕ → Option Node → Option Node
cut n none = none
cut n (some (none, v)) = some (none, v)
cut n (some (some bytes, v)) = some (some (take n bytes), v)

abbrev pub node_version : Option Node → Option ℕ
node_version none = none
node_version (some (bytes, v)) = some v

-- What a write did.
abbrev pub NodeWrote : {Z : Type 0} → (Z → Text → Option Node) → Text → Text → ℕ → Z → Z → Type 0
NodeWrote node path bytes version z z' =
    ((old : Option Text) × (node z path ≡ some (old, version)))
    × ((w : ℕ) × (version < w) × (node z' path ≡ some (some bytes, w)))
    × Elsewhere node path z z'

abbrev pub NodeCreated : {Z : Type 0} → (Z → Text → Option Node) → Text → Text → Z → Z → Type 0
NodeCreated node path bytes z z' =
    (node z path ≡ none)
    × ((w : ℕ) × (node z' path ≡ some (some bytes, w)))
    × Elsewhere node path z z'

abbrev pub NodeRemoved : {Z : Type 0} → (Z → Text → Option Node) → Text → ℕ → Z → Z → Type 0
NodeRemoved node path version z z' =
    ((old : Option Text) × (node z path ≡ some (old, version)))
    × (node z' path ≡ none)
    × Elsewhere node path z z'

-- The C client. `none` and `false` are for every code but `ZOK`: after it, a write was not done, or
-- it was done and the connection was lost, or timed out, before the answer.
pub record ZooClient (Z : Type 0) : Type 0 where
  pub node : Z → Text → Option Node
  pub zoo_get : Z → Text → ℕ → Option Node
  pub zoo_get_node : (z : Z) (path : Text) (n : ℕ) → zoo_get z path n ≡ cut n (node z path)
  pub zoo_exists : Z → Text → Option ℕ
  pub zoo_exists_node : (z : Z) (path : Text) → zoo_exists z path ≡ node_version (node z path)
  pub zoo_set : Z → Text → Text → ℕ → Z × Bool
  pub zoo_create : Z → Text → Text → Z × Option Text
  pub zoo_delete : Z → Text → ℕ → Z × Bool
  pub zoo_set_ok :
      (z : Z) (path bytes : Text) (version : ℕ)
      → (zoo_set z path bytes version).1 ≡ true
      → NodeWrote node path bytes version z (zoo_set z path bytes version).0
  pub zoo_set_fails :
      (z : Z) (path bytes : Text) (version : ℕ)
      → (zoo_set z path bytes version).1 ≡ false
      → ((zoo_set z path bytes version).0 ≡ z)
        ⊎ NodeWrote node path bytes version z (zoo_set z path bytes version).0
  pub zoo_create_ok :
      (z : Z) (path bytes name : Text)
      → (zoo_create z path bytes).1 ≡ some name
      → NodeCreated node path bytes z (zoo_create z path bytes).0
  pub zoo_create_fails :
      (z : Z) (path bytes : Text)
      → (zoo_create z path bytes).1 ≡ none
      → ((zoo_create z path bytes).0 ≡ z)
        ⊎ NodeCreated node path bytes z (zoo_create z path bytes).0
  pub zoo_delete_ok :
      (z : Z) (path : Text) (version : ℕ)
      → (zoo_delete z path version).1 ≡ true
      → NodeRemoved node path version z (zoo_delete z path version).0
  pub zoo_delete_fails :
      (z : Z) (path : Text) (version : ℕ)
      → (zoo_delete z path version).1 ≡ false
      → ((zoo_delete z path version).0 ≡ z)
        ⊎ NodeRemoved node path version z (zoo_delete z path version).0

-- The string behind the buffer: cut to `strlen`, or left at its full length for NULL.
unfoldable pub filled : Option Text → Text
filled none = replicate buflen 0
filled (some bytes) = c_str bytes

module _ {Z : Type 0} (zh : ZooClient Z) where
  -- `ZooKeeper::get`, with the string and the version of its `Stat`.
  unfoldable pub get : Z → Text → Option (Text × ℕ)
  get z path = elim (zh.zoo_get z path buflen) [
    | none ↦ none
    | some (bytes, version) ↦ some (filled bytes, version)
  ]

  -- `ZooKeeper::set`
  unfoldable pub set : Z → Text → Text → ℕ → Z × Bool
  set z path bytes version = zh.zoo_set z path bytes version

  -- `ZooKeeper::create`, with its result string.
  unfoldable pub create : Z → Text → Text → Z × Option Text
  create z path bytes =
      let (z', name) = zh.zoo_create z path bytes in
      (z', elim name [ none ↦ none | some n ↦ some (c_str (take buflen n)) ])

  -- `ZooKeeper::remove`
  unfoldable pub remove : Z → Text → ℕ → Z × Bool
  remove z path version = zh.zoo_delete z path version

  -- `ZooKeeper::exists`
  unfoldable pub exists : Z → Text → Option ℕ
  exists z path = zh.zoo_exists z path
