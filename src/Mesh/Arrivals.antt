-- ===== src/Mesh/Arrivals.antt =====
-- `connect_mesh` of src/distributed-allocator/RDMAMemNode.tpp: the loop that accepts connections,
-- and the whole call.
use rdma_migration_system.Prelude.{
  ℕ, ◌+◌, ◌-◌, ◌≤◌, ◌<◌, ◌≡◌, ◌≢◌, refl, ap, ◌∙◌, inl, inr, arith, some, none, false, List, [], ◌∷◌,
}
use rdma_migration_system.Prelude.Tests.{ltb, ltb→le, ltb→lt, le→ltb, Bool-cases}
use rdma_migration_system.Prelude.Lists.{length}
use rdma_migration_system.Prelude.Results.{ok}
use rdma_migration_system.Prelude.Maps.{Map, lookup, nat_key}
use rdma_migration_system.Manager.Links.{Node, get_server, connection}
use rdma_migration_system.Manager.Polling.{Linked}
use rdma_migration_system.Mesh.{
  RNode, insert_new, Dial, Sent, accept_others, dial_lower, connect_mesh,
}
use rdma_migration_system.Mesh.Linked.{
  Answers, Served, dial_lower-Dialled, insert_new-insert, insert_new-other, length-insert,
}

-- The arrivals are other servers than `id`; they are all different.
abbrev pub Others : ℕ → List (ℕ × ℕ) → Type 0
Others id [] = Unit {0}
Others id ((j, _) ∷ arrivals) = (id ≢ j) × Others id arrivals

abbrev pub Different : List (ℕ × ℕ) → Type 0
Different [] = Unit {0}
Different ((id, _) ∷ arrivals) = Others id arrivals × Different arrivals

-- No arrival is known.
abbrev Unknown : Map ℕ ℕ → List (ℕ × ℕ) → Type 0
Unknown m [] = Unit {0}
Unknown m ((id, _) ∷ arrivals) = (lookup id m ≡ none) × Unknown m arrivals

-- The arrivals come from servers above `id`.
abbrev pub Above : ℕ → List (ℕ × ℕ) → Type 0
Above id [] = Unit {0}
Above id ((j, _) ∷ arrivals) = (id < j) × Above id arrivals

Unknown-insert_new :
    (id conn : ℕ) (m : Map ℕ ℕ) (arrivals : List (ℕ × ℕ))
    → Others id arrivals
    → Unknown m arrivals
    → Unknown (insert_new id conn m) arrivals
Unknown-insert_new id conn m [] others unknown = tt
Unknown-insert_new id conn m ((j, c) ∷ arrivals) (ne, others) (new, unknown) =
    (insert_new-other id j conn m ne ∙ new, Unknown-insert_new id conn m arrivals others unknown)

record Accepted (n d : Node) (total : ℕ) : Type 0 where
  own : d.server_id ≡ n.server_id
  clients : d.clients ≡ n.clients
  kept : (k c : ℕ) → lookup k n.connections ≡ some c → lookup k d.connections ≡ some c
  full : total ≤ length d.connections

full-Accepted :
    (n : Node) (total : ℕ) → ltb (length n.connections) total ≡ false → Accepted n n total
full-Accepted n total full = record {
  own = refl;
  clients = refl;
  kept = λ k c e. e;
  full = ltb→le (length n.connections) total full;
}

accept_others-Accepted :
    (n : Node) (total : ℕ) (arrivals : List (ℕ × ℕ))
    → Different arrivals
    → Unknown n.connections arrivals
    → total ≤ length n.connections + length arrivals
    → (d : Node) × (accept_others n total arrivals ≡ ok d) × Accepted n d total
unfolding accept_others
accept_others-Accepted n total [] different unknown enough =
    let full = le→ltb (length n.connections) total (omega (arith, enough)) in
    (n, rw full refl, full-Accepted n total full)
accept_others-Accepted n total ((id, conn) ∷ arrivals) (others, different) (new, unknown) enough =
    elim (Bool-cases (ltb (length n.connections) total)) [
      | inr full ↦ (n, rw full refl, full-Accepted n total full)
      | inl missing ↦
          let n' : Node = record n { connections = insert_new id conn n.connections } in
          let more =
            ap length (insert_new-insert id conn n.connections new)
            ∙ length-insert id conn n.connections new in
          let (d, ran, h) =
            accept_others-Accepted n' total arrivals different
              (Unknown-insert_new id conn n.connections arrivals others unknown)
              (omega (arith, enough, more)) in
          (
            d,
            rw missing ran,
            record {
              own = h.own;
              clients = h.clients;
              kept = λ k c e. h.kept k c (
                  insert_new-other id k conn n.connections
                    (λ same. clash k id c n.connections e new same)
                  ∙ e);
              full = h.full;
            },
          )
    ]
  where
    clash : (k j c : ℕ) (m : Map ℕ ℕ) → lookup k m ≡ some c → lookup j m ≡ none → j ≡ k → ⊥
    clash k j c m found absent same = ground (arith, ap (λ i. lookup i m) same)

-- A server that knows nobody yet.
abbrev pub alone : ℕ → ℕ → Node
alone server_id num_servers = record {
  server_id = server_id;
  num_servers = num_servers;
  connections = [];
  clients = [];
}

Unknown-Above :
    (m : Map ℕ ℕ) (id : ℕ) (arrivals : List (ℕ × ℕ))
    → ((k : ℕ) → id ≤ k → lookup k m ≡ none)
    → Above id arrivals
    → Unknown m arrivals
Unknown-Above m id [] free above = tt
Unknown-Above m id ((j, c) ∷ arrivals) free (high, above) =
    (free j (omega arith), Unknown-Above m id arrivals free above)

connect_mesh-run :
    (map : Map ℕ RNode) (dial : Dial) (n d e : Node) (arrivals : List (ℕ × ℕ)) (sent : Sent)
    → dial_lower map dial n n.server_id ≡ ok (some (d, sent))
    → accept_others d (n.num_servers - 1) arrivals ≡ ok e
    → connect_mesh map dial n arrivals ≡ ok (some (e, sent))
unfolding connect_mesh
connect_mesh-run map dial n d e arrivals sent ran accepted = rw (ran, accepted, connect_mesh) refl

Served-Linked : (n : Node) → ((k : ℕ) → k < n.server_id → Served n k) → Linked n
unfolding connection get_server
Served-Linked n lower k c found = elim (Bool-cases (ltb k n.server_id)) [
  | inr high ↦ ground (arith, found, high)
  | inl low ↦
      let (d, there, (client, has)) = lower k (ltb→lt k n.server_id low) in
      ground (arith, found, there, has, low)
]

-- `connect_mesh` returns 0, where the servers below this one are in the configuration and answer,
-- and the others connect, each once and in any order: the server then knows at least as many
-- servers as there are others, each of the lower ones among them, and every connection that it
-- knows belongs to an object.
pub connect_mesh-Linked :
    (map : Map ℕ RNode) (dial : Dial) (server_id num_servers : ℕ) (arrivals : List (ℕ × ℕ))
    → Answers map dial server_id
    → Different arrivals
    → Above server_id arrivals
    → num_servers - 1 ≤ server_id + length arrivals
    → (d : Node) × (sent : Sent) × (connect_mesh map dial (alone server_id num_servers) arrivals
        ≡ ok (some (d, sent)))
      × Linked d
      × ((k : ℕ) → k < server_id → Served d k)
      × (num_servers - 1 ≤ length d.connections)
connect_mesh-Linked map dial server_id num_servers arrivals answers different above enough =
    let n = alone server_id num_servers in
    let (d, sent, ran, h) =
      dial_lower-Dialled map dial n server_id answers (omega arith) (λ k low. refl) in
    let (e, accepted, g) =
      accept_others-Accepted d (num_servers - 1) arrivals different
        (Unknown-Above d.connections server_id arrivals (λ k high. h.others k high) above)
        (omega (arith, enough, h.size)) in
    let lower : (k : ℕ) → k < server_id → Served e k = λ k low. (
      (h.lower k low).0,
      g.kept k (h.lower k low).0 (h.lower k low).1,
      rw g.clients (h.lower k low).2,
    ) in
    let own : e.server_id ≡ server_id = g.own ∙ h.own in
    (
      e,
      sent,
      connect_mesh-run map dial n d e arrivals sent ran accepted,
      Served-Linked e (λ k low. lower k (omega (arith, own, low))),
      lower,
      g.full,
    )
