-- ===== src/Manager/Turns.antt =====
-- `HasMessage` of src/distributed-allocator/RDMAMemory.tpp over many calls.
use mathlib.Core.Bool.{false≢true}
use rdma_migration_system.Prelude.{
  sym, ap, ◌∙◌, ℕ, zero, suc, ◌+◌, ◌-◌, ◌≤◌, ◌<◌, ◌≡◌, ◌≢◌, inl, inr, refl, arith, Option, some,
  none, true, false,
}
use rdma_migration_system.Prelude.Tests.{ltb, ◌==◌, leb, if◌then◌else◌, Bool-cases, ==_iff, leb→le}
use rdma_migration_system.Prelude.Results.{Result, ok}
use rdma_migration_system.Manager.{Manager}
use rdma_migration_system.Manager.Links.{Node}
use rdma_migration_system.Manager.Poller.{Network, has_message_from, has_message}
use rdma_migration_system.Manager.Polling.{Linked, Found, has_message-Found}

-- One of at most `n` calls, from the `t`-th on, gives the server `j`. In the `t`-th call the
-- connections are those of `networks t`.
pub data Served (networks : ℕ → Network) (j : ℕ) : ℕ → ℕ → Manager → Type 0 where
  now :
      (n t : ℕ) (m d : Manager)
      → has_message (networks t) m ≡ ok (d, some j)
      → Served networks j (suc n) t m
  later :
      (n t : ℕ) (m d : Manager) (o : Option ℕ)
      → has_message (networks t) m ≡ ok (d, o)
      → Served networks j n (t + 1) d
      → Served networks j (suc n) t m

-- The calls that may come before the one that gives `j`.
abbrev turns : ℕ → ℕ → ℕ → ℕ
turns num check j = if leb check j then j - check else num - check + 1 + j

-- `j` has a message at each call.
abbrev pub Waits : (ℕ → Network) → Node → ℕ → Type 0
Waits networks node j =
    (t : ℕ) (m : Manager) → m.node ≡ node → has_message_from (networks t) m j ≡ ok true

refuse : Result.ok true ≡ ok false → ⊥
refuse e = ground arith

module _ (networks : ℕ → Network) (node : Node) (j : ℕ) (linked : Linked node)
    (other : j ≢ node.server_id) (known : j < node.num_servers)
    (waits : Waits networks node j) where
  step :
      (t n : ℕ) (m d : Manager) (o : Option ℕ)
      → m.node ≡ node
      → m.message_check ≤ node.num_servers
      → turns node.num_servers m.message_check j < suc n
      → has_message (networks t) m ≡ ok (d, o)
      → Found (networks t) m m.message_check node.num_servers d o
      → ((d' : Manager)
          → d'.node ≡ node
          → d'.message_check ≤ node.num_servers
          → turns node.num_servers d'.message_check j < n
          → Served networks j n (t + 1) d')
      → Served networks j (suc n) t m
  step t n m d none em inside few ran (ed, quiet) rest =
      let apart : j ≢ m.node.server_id = λ e. other (e ∙ ap (λ x. x.server_id) em) in
      let first : d.message_check ≡ 0 = ap (λ x. x.message_check) ed in
      elim (Bool-cases (leb m.message_check j)) [
        | inl low ↦ absurd (refuse (sym (waits t m em) ∙ quiet j (leb→le _ _ low) known apart))
        | inr high ↦ later n t m d none ran (
            rest d (ap (λ x. x.node) ed ∙ em) (omega (arith, first))
              (ground (arith, first, few, inside, known, high)))
      ]
  step t n m d (some i) em inside few ran (ed, low, high, ne, has, quiet) rest =
      let next : d.message_check ≡ (if ltb (i + 1) node.num_servers then i + 1 else 0) =
        rw (← em) (ap (λ x. x.message_check) ed) in
      let apart : j ≢ m.node.server_id = λ e. other (e ∙ ap (λ x. x.server_id) em) in
      let skipped : m.message_check ≤ j → j < i → false ≡ true =
        λ from to. absurd (refuse (sym (waits t m em) ∙ quiet j from to apart)) in
      elim (Bool-cases (i == j)) [
        | inl same ↦ now n t m d (rw (← (==_iff i j).0 same) ran)
        | inr differs ↦ later n t m d (some i) ran (
            rest d (ap (λ x. x.node) ed ∙ em) (ground (arith, next, high))
              (ground (arith, next, few, inside, known, high, low, differs, skipped, false≢true)))
      ]

  serve :
      (n t : ℕ) (m : Manager)
      → m.node ≡ node
      → m.message_check ≤ node.num_servers
      → turns node.num_servers m.message_check j < n
      → Served networks j n t m
  serve zero t m em inside few = elim few [ ]
  serve (suc n) t m em inside few =
      let (d, o, ran, found) = has_message-Found (networks t) m (rw em linked) (rw em inside) in
      step t n m d o em inside few ran (rw (← em) found)
        (λ d' ed' inside' few'. serve n (t + 1) d' ed' inside' few')

-- A server that has a message at every call of `HasMessage` is the answer of one of at most
-- `num_servers + 1` calls, whatever messages the other servers have at each call, where every
-- connection belongs to an object.
pub has_message-Served :
    (networks : ℕ → Network) (m : Manager) (j : ℕ)
    → Linked m.node
    → j ≢ m.node.server_id
    → j < m.node.num_servers
    → m.message_check ≤ m.node.num_servers
    → Waits networks m.node j
    → Served networks j (m.node.num_servers + 1) 0 m
has_message-Served networks m j linked other known inside waits =
    serve networks m.node j linked other known waits (m.node.num_servers + 1) 0 m refl inside
      (ground arith)
