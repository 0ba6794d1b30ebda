-- ===== src/Manager/Polling.antt =====
-- `HasMessage` of src/distributed-allocator/RDMAMemory.tpp: the order in which servers are asked.
use rdma_migration_system.Prelude.{
  ℕ, zero, suc, ◌+◌, ◌-◌, ◌≤◌, ◌<◌, ◌≡◌, ◌≢◌, refl, inl, inr, arith, Option, some, none, Bool, true,
  false,
}
use rdma_migration_system.Prelude.Tests.{ltb, ◌==◌, if◌then◌else◌, Bool-cases, Option-cases, ==_iff}
use rdma_migration_system.Prelude.Results.{Result, ok, Result-cases}
use rdma_migration_system.Prelude.Maps.{lookup, nat_key}
use rdma_migration_system.Manager.{Manager}
use rdma_migration_system.Net.Sends.{check_for_message}
use rdma_migration_system.Manager.Links.{Node, connection}
use rdma_migration_system.Manager.Poller.{Network, has_message_from, scan, has_message}

-- Every connection belongs to an object.
abbrev pub Linked : Node → Type 0
Linked n = (k : ℕ) → (c : ℕ) → lookup k n.connections ≡ some c → connection n k ≡ ok c

module _ (network : Network) where
  -- No server from `i` up to `j`, other than this one, has a message.
  abbrev pub Quiet : Manager → ℕ → ℕ → Type 0
  Quiet m i j =
      (k : ℕ) → i ≤ k → k < j → k ≢ m.node.server_id → has_message_from network m k ≡ ok false

  -- The server that comes after `i` in turn.
  abbrev pub after : Manager → ℕ → ℕ
  after m i = if ltb (i + 1) m.node.num_servers then i + 1 else 0

  -- What one call finds: the first server in turn with a message, or none up to the last server.
  abbrev pub Found : Manager → ℕ → ℕ → Manager → Option ℕ → Type 0
  Found m from until d none = (d ≡ record m { message_check = 0 }) × Quiet m from until
  Found m from until d (some i) =
      (d ≡ record m { message_check = after m i })
      × (from ≤ i)
      × (i < until)
      × (i ≢ m.node.server_id)
      × (has_message_from network m i ≡ ok true)
      × Quiet m from i

  Quiet-extend :
      (m : Manager) (i j : ℕ)
      → (i ≢ m.node.server_id → has_message_from network m i ≡ ok false)
      → Quiet m (i + 1) j
      → Quiet m i j
  Quiet-extend m i j here rest k low high other = elim (Bool-cases (i == k)) [
    | inl same ↦ rw (← (==_iff i k).0 same) (here (λ e. other (rw (← (==_iff i k).0 same) e)))
    | inr differs ↦ rest k (ground (arith)) high other
  ]

  Found-extend :
      (m : Manager) (i n : ℕ) (d : Manager) (o : Option ℕ)
      → (i ≢ m.node.server_id → has_message_from network m i ≡ ok false)
      → Found m (i + 1) (i + 1 + n) d o
      → Found m i (i + suc n) d o
  Found-extend m i n d none here (e, quiet) =
      (e, Quiet-extend m i (i + suc n) here (λ k low high other. quiet k low (omega arith) other))
  Found-extend m i n d (some k) here (e, low, high, other, has, quiet) =
      (e, omega arith, omega arith, other, has, Quiet-extend m i k here quiet)

  abbrev answer : Manager → ℕ → Result (Manager × Option ℕ)
  answer m i = ok (record m { message_check = after m i }, some i)

  Found-here :
      (m : Manager) (n i : ℕ) (d : Manager) (o : Option ℕ)
      → i ≢ m.node.server_id
      → has_message_from network m i ≡ ok true
      → answer m i ≡ ok (d, o)
      → Found m i (i + suc n) d o
  Found-here m n i d none other has e = absurd (ground arith)
  Found-here m n i d (some k) other has e =
      let same : i ≡ k = ground arith in
      (
        rw (← same) (ground arith),
        omega (arith, same),
        omega (arith, same),
        rw (← same) other,
        rw (← same) has,
        λ j low high _. absurd (omega (arith, same)),
      )

  scan-Found :
      (m : Manager) (n i : ℕ) (d : Manager) (o : Option ℕ)
      → scan network m i n ≡ ok (d, o)
      → Found m i (i + n) d o
  unfolding scan
  scan-Found m zero i d o e = ground arith
  scan-Found m (suc n) i d o e = elim (Bool-cases (i == m.node.server_id)) [
    | inl own ↦
        Found-extend m i n d o (λ other. absurd (other ((==_iff i m.node.server_id).0 own)))
          (scan-Found m n (i + 1) d o (rw (← e, own, scan)))
    | inr other ↦ elim (Result-cases (has_message_from network m i)) [
      | inr (fault, asked) ↦ absurd (ground arith)
      | inl (false, asked) ↦
          Found-extend m i n d o (λ _. asked)
            (scan-Found m n (i + 1) d o (rw (← e, other, asked, scan)))
      | inl (true, asked) ↦
          Found-here m n i d o (λ own. ground (arith, ==_iff i m.node.server_id)) asked
            (rw (← e, other, asked, scan))
    ]
  ]

  has_message_from-ok :
      (m : Manager) (i : ℕ) → Linked m.node → (b : Bool) × (has_message_from network m i ≡ ok b)
  unfolding has_message_from
  has_message_from-ok m i linked = elim (Option-cases (lookup i m.node.connections)) [
    | inl missing ↦ (false, rw (missing, has_message_from) refl)
    | inr (c, found) ↦
        (check_for_message (network c), rw (found, linked i c found, has_message_from) refl)
  ]

  scan-ok :
      (m : Manager) (n i : ℕ)
      → Linked m.node
      → (d : Manager) × (o : Option ℕ) × (scan network m i n ≡ ok (d, o))
  unfolding scan
  scan-ok m zero i linked = (_, none, refl)
  scan-ok m (suc n) i linked =
      let (d, o, rest) = scan-ok m n (i + 1) linked in
      elim (Bool-cases (i == m.node.server_id)) [
        | inl own ↦ (d, o, rw (own, scan) rest)
        | inr other ↦
            let (b, asked) = has_message_from-ok m i linked in
            elim (Bool-cases b) [
              | inl has ↦ (
                record m { message_check = after m i },
                some i,
                rw (other, asked, has, scan) refl,
              )
              | inr lacks ↦ (d, o, rw (other, asked, lacks, scan) rest)
            ]
      ]

  scan-Found_until :
      (m : Manager) (n i until : ℕ) (d : Manager) (o : Option ℕ)
      → i + n ≡ until
      → scan network m i n ≡ ok (d, o)
      → Found m i until d o
  scan-Found_until m n i until d o e ran = rw (← e) (scan-Found m n i d o ran)

-- One call of `HasMessage`, where every connection belongs to an object, gives the first server
-- from `message_check` on that has a message, and sets `message_check` behind it, or to 0 behind
-- the last server; or it gives -1, no server from `message_check` on has one, and `message_check`
-- is 0.
pub has_message-Found :
    (network : Network) (m : Manager)
    → Linked m.node
    → m.message_check ≤ m.node.num_servers
    → (d : Manager) × (o : Option ℕ) × (has_message network m ≡ ok (d, o))
      × Found network m m.message_check m.node.num_servers d o
unfolding has_message
has_message-Found network m linked inside =
    let n = m.node.num_servers - m.message_check in
    let (d, o, ran) = scan-ok network m n m.message_check linked in
    (
      d,
      o,
      ran,
      scan-Found_until network m n m.message_check m.node.num_servers d o (omega arith) ran,
    )
