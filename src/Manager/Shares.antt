-- ===== src/Manager/Shares.antt =====
-- The constructor of `RDMAMemoryManager`, src/distributed-allocator/RDMAMemory.tpp: the shares of
-- the servers.
use rdma_migration_system.Prelude.{ℕ, ◌+◌, ◌-◌, ◌*◌, ◌/◌, ◌^◌, ◌≤◌, ◌<◌, ◌≡◌, refl, arith}
use rdma_migration_system.Prelude.Tests.{lt→ltb}
use rdma_migration_system.Prelude.Results.{ok}
use rdma_migration_system.Prelude.Word.{word_mod, add64, sub64, mul64}
use rdma_migration_system.Manager.{Manager}
use rdma_migration_system.Manager.Links.{Node}
use rdma_migration_system.Manager.Allocate.{signed_div, new_manager}
use native.Mathlib.Nat.{div-add-mod, mod-eq_of_lt}

share_within : (i n d : ℕ) → i < n → i * (d / n) + d / n ≤ d
share_within i n d h = grind (arith, div-add-mod d n)

shares_apart : (i j p : ℕ) → i < j → i * p + p ≤ j * p
shares_apart i j p h = grind arith

-- The share of a server, as numbers that do not wrap.
record Share (node : Node) (low high : ℕ) (m : Manager) : Type 0 where
  start : m.start_address ≡ low + node.server_id * ((high - low) / node.num_servers)
  ending : m.end_address ≡ m.start_address + (high - low) / node.num_servers
  below : m.end_address ≤ high
  kept : m.node ≡ node

signed_div_small :
    (low high n : ℕ)
    → low ≤ high
    → high < word_mod
    → high - low < 2 ^ 63
    → signed_div (sub64 high low) n ≡ (high - low) / n
signed_div_small low high n order room near =
    let diff : sub64 high low ≡ high - low = omega (arith, order, room) in
    rw (diff, lt→ltb (high - low) (2 ^ 63) near) refl

new_manager-Share :
    (node : Node) (low high : ℕ) (m : Manager)
    → node.server_id < node.num_servers
    → low ≤ high
    → high < word_mod
    → high - low < 2 ^ 63
    → new_manager node low high ≡ ok m
    → Share node low high m
unfolding new_manager
new_manager-Share node low high m here order room near e =
    let p = (high - low) / node.num_servers in
    let inside : node.server_id * p + p ≤ high - low =
      share_within node.server_id node.num_servers (high - low) here in
    let step : mul64 node.server_id p ≡ node.server_id * p = mod-eq_of_lt (omega arith) in
    let first : add64 low (mul64 node.server_id p) ≡ low + node.server_id * p =
      rw step (mod-eq_of_lt (omega arith)) in
    let last : add64 (low + node.server_id * p) p ≡ low + node.server_id * p + p =
      mod-eq_of_lt (omega arith) in
    let quotient : signed_div (sub64 high low) node.num_servers ≡ p =
      signed_div_small low high node.num_servers order room near in
    record {
      start = ground (arith, first, quotient);
      ending = ground (arith, first, last, quotient);
      below = ground (arith, first, last, inside, quotient);
      kept = ground arith;
    }

-- Two servers that are given the same range, which ends below 2 ^ 64 and is shorter than 2 ^ 63, and
-- the same number of servers, above the ids of both, have shares inside the range, and the share of
-- the lower server ends before the one of the higher server starts.
pub new_manager-Apart :
    (a b : Node) (low high : ℕ) (m n : Manager)
    → a.num_servers ≡ b.num_servers
    → a.server_id < b.server_id
    → b.server_id < b.num_servers
    → low ≤ high
    → high < word_mod
    → high - low < 2 ^ 63
    → new_manager a low high ≡ ok m
    → new_manager b low high ≡ ok n
    → (low ≤ m.start_address) × (m.end_address ≤ n.start_address) × (n.end_address ≤ high)
new_manager-Apart a b low high m n same apart here order room near em en =
    let sm = new_manager-Share a low high m (omega arith) order room near em in
    let sn = new_manager-Share b low high n here order room near en in
    let between = shares_apart a.server_id b.server_id ((high - low) / b.num_servers) apart in
    let first : m.start_address ≡ low + a.server_id * ((high - low) / b.num_servers) =
      rw (← same) sm.start in
    let length : m.end_address ≡ m.start_address + (high - low) / b.num_servers =
      rw (← same) sm.ending in
    (omega (arith, first), omega (arith, first, length, between, sn.start), sn.below)
