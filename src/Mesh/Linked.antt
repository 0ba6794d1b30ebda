-- ===== src/Mesh/Linked.antt =====
-- `connect_mesh` of src/distributed-allocator/RDMAMemNode.tpp: the loop that dials lower servers.
use rdma_migration_system.Prelude.{
  ℕ, zero, suc, ◌+◌, ◌≤◌, ◌<◌, ◌≡◌, ◌≢◌, refl, ap, ◌∙◌, inl, inr, arith, some, none, false, [], ◌∷◌,
}
use rdma_migration_system.Prelude.Tests.{◌==◌, Bool-cases, Option-cases, ==_iff}
use rdma_migration_system.Prelude.Lists.{length}
use rdma_migration_system.Prelude.Results.{ok}
use rdma_migration_system.Prelude.Maps.{Map, lookup, insert, lookup-insert, nat_key}
use rdma_migration_system.Manager.Links.{Node}
use rdma_migration_system.Mesh.{RNode, insert_new, Dial, Sent, dial_server, dial_lower}

abbrev pub Has : ℕ → Map ℕ ℕ → Type 0
Has k m = (v : ℕ) × (lookup k m ≡ some v)

pub length-insert :
    (k v : ℕ) (m : Map ℕ ℕ) → lookup k m ≡ none → length (insert k v m) ≡ suc (length m)
length-insert k v [] e = refl
length-insert k v ((j, w) ∷ m) e = ground (arith, length-insert k v m)

pub insert_new-insert :
    (k v : ℕ) (m : Map ℕ ℕ) → lookup k m ≡ none → insert_new k v m ≡ insert k v m
insert_new-insert k v m missing = ground arith

insert_new-same : (k v w : ℕ) (m : Map ℕ ℕ) → lookup k m ≡ some w → insert_new k v m ≡ m
insert_new-same k v w m found = ground arith

insert-found : (k v : ℕ) (m : Map ℕ ℕ) → lookup k (insert k v m) ≡ some v
insert-found k v m = lookup-insert k k v m ∙ rw ((==_iff k k).1 refl) refl

insert_new-Has : (k v : ℕ) (m : Map ℕ ℕ) → Has k (insert_new k v m)
insert_new-Has k v m = elim (Option-cases (lookup k m)) [
  | inl missing ↦ (v, ap (lookup k) (insert_new-insert k v m missing) ∙ insert-found k v m)
  | inr (w, found) ↦ (w, ap (lookup k) (insert_new-same k v w m found) ∙ found)
]

pub insert_new-other : (k j v : ℕ) (m : Map ℕ ℕ) → k ≢ j → lookup j (insert_new k v m) ≡ lookup j m
insert_new-other k j v m ne = elim (Option-cases (lookup k m)) [
  | inl missing ↦
      ap (lookup j) (insert_new-insert k v m missing)
      ∙ ground (arith, lookup-insert k j v m, ==_iff k j)
  | inr (w, found) ↦ ap (lookup j) (insert_new-same k v w m found)
]

insert_new-kept : (k j v : ℕ) (m : Map ℕ ℕ) → Has j m → Has j (insert_new k v m)
insert_new-kept k j v m has = elim (Bool-cases (k == j)) [
  | inl same ↦ rw (← (==_iff k j).0 same) (insert_new-Has k v m)
  | inr differs ↦ (has.0, insert_new-other k j v m (λ e. ground (arith, ==_iff k j)) ∙ has.1)
]

-- The server `k` has a connection, and the connection a client object.
abbrev pub Served : Node → ℕ → Type 0
Served n k = (c : ℕ) × (lookup k n.connections ≡ some c) × Has c n.clients

-- The servers below `count` have been dialled from `n`.
pub record Dialled (n d : Node) (count : ℕ) : Type 0 where
  pub own : d.server_id ≡ n.server_id
  pub number : d.num_servers ≡ n.num_servers
  pub lower : (k : ℕ) → k < count → Served d k
  pub others : (k : ℕ) → count ≤ k → lookup k d.connections ≡ lookup k n.connections
  pub clients : (c : ℕ) → Has c n.clients → Has c d.clients
  pub size : length d.connections ≡ length n.connections + count

-- Every server below `count` is in the configuration and answers.
abbrev pub Answers : Map ℕ RNode → Dial → ℕ → Type 0
Answers map dial count =
    (k : ℕ) → k < count → (r : RNode) × (lookup k map ≡ some r) × ((dial k r).1 ≢ 0)

abbrev dialled : Dial → Node → ℕ → RNode → Node
dialled dial n id r = record n {
  clients = insert_new (dial id r).1 (dial id r).0 n.clients;
  connections = insert_new id (dial id r).1 n.connections;
}

dial_server-run :
    (map : Map ℕ RNode) (dial : Dial) (n : Node) (id : ℕ) (r : RNode)
    → id ≢ n.server_id
    → lookup id map ≡ some r
    → (dial id r).1 ≢ 0
    → dial_server map dial n id ≡ ok (some (dialled dial n id r, (dial id r).1 ∷ []))
unfolding dial_server
dial_server-run map dial n id r other found answers =
    let own : (id == n.server_id) ≡ false = ground (arith, ==_iff id n.server_id) in
    let up : ((dial id r).1 == 0) ≡ false = ground (arith, ==_iff (dial id r).1 0) in
    rw (own, found, up) refl

pub dial_lower-Dialled :
    (map : Map ℕ RNode) (dial : Dial) (n : Node) (count : ℕ)
    → Answers map dial count
    → count ≤ n.server_id
    → ((k : ℕ) → k < count → lookup k n.connections ≡ none)
    → (d : Node) × (sent : Sent) × (dial_lower map dial n count ≡ ok (some (d, sent)))
      × Dialled n d count
unfolding dial_lower
dial_lower-Dialled map dial n zero answers below fresh = (
  n,
  [],
  refl,
  record {
    own = refl;
    number = refl;
    lower = λ k h. elim h [ ];
    others = λ k h. refl;
    clients = λ c h. h;
    size = omega arith;
  },
)
dial_lower-Dialled map dial n (suc id) answers below fresh =
    let (r, found, up) = answers id (omega arith) in
    let n' = dialled dial n id r in
    let (d, sent, ran, h) =
      dial_lower-Dialled map dial n' id (λ k low. answers k (omega arith)) (omega arith)
        (λ k low.
          insert_new-other id k _ n.connections (λ e. omega arith) ∙ fresh k (omega arith)) in
    let new = insert_new-insert id (dial id r).1 n.connections (fresh id (omega arith)) in
    let here : lookup id n'.connections ≡ some (dial id r).1 =
      ap (lookup id) new ∙ insert-found id (dial id r).1 n.connections in
    let longer : length n'.connections ≡ suc (length n.connections) =
      ap length new ∙ length-insert id (dial id r).1 n.connections (fresh id (omega arith)) in
    (
      d,
      (dial id r).1 ∷ sent,
      rw (dial_server-run map dial n id r (λ e. omega arith) found up, ran, dial_lower) refl,
      record {
        own = h.own;
        number = h.number;
        lower = λ k low. elim (Bool-cases (k == id)) [
          | inl same ↦ rw ((==_iff k id).0 same) (
            (dial id r).1,
            h.others id (omega arith) ∙ here,
            h.clients (dial id r).1 (insert_new-Has (dial id r).1 (dial id r).0 n.clients),
          )
          | inr differs ↦ h.lower k (ground (arith, ==_iff k id))
        ];
        others = λ k high.
            h.others k (omega arith) ∙ insert_new-other id k _ n.connections (λ e. omega arith);
        clients = λ c has. h.clients c (insert_new-kept _ c _ n.clients has);
        size = omega (arith, h.size, longer);
      },
    )
