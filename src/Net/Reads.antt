-- ===== src/Net/Reads.antt =====
-- src/rdma-network/rdma_server_prototype.cpp: one-sided reads and writes, and the search for the
-- keys of the memory that they touch.
use rdma_migration_system.Prelude.{ℕ, Option, some, none, Bool, List, [], ◌∷◌, ◌&&◌}
use rdma_migration_system.Prelude.Tests.{leb, if◌then◌else◌}
use rdma_migration_system.Prelude.Word.{add64}
use rdma_migration_system.Prelude.Results.{Result, ok, logic_error, bad_pointer, or_fault, ◌>>=◌}
use rdma_migration_system.Prelude.Maps.{Map, lookup, insert, nat_key}
use rdma_migration_system.Net.{
  RemoteRegion, Registration, Connection, Effect, sem_waits, completion_sem, Verbs, Handled,
}
use rdma_migration_system.Net.Posts.{
  no_region, post_rdma_read, post_rdma_read_async, post_rdma_write,
}

-- The test of both loops: `[local_addr, local_addr + len)` lies in `[addr, addr + length)`.
abbrev pub covers : ℕ → ℕ → ℕ → ℕ → Bool
covers addr length from len = leb addr from && leb (add64 from len) (add64 addr length)

-- The loop over the entries of a map, in the order of the map: the key of the first that covers
-- the range.
module _ {V : Type 0} (length_of key_of : V → ℕ) where
  unfoldable pub find_key : Map ℕ V → ℕ → ℕ → Option ℕ
  find_key [] from len = none
  find_key ((addr, r) ∷ rs) from len =
      if covers addr (length_of r) from len then some (key_of r) else find_key rs from len

unfoldable pub find_lkey : Map ℕ Registration → ℕ → ℕ → Option ℕ
find_lkey = find_key (λ r. r.length) (λ r. r.lkey)

unfoldable pub find_rkey : Map ℕ RemoteRegion → ℕ → ℕ → Option ℕ
find_rkey = find_key (λ r. r.length) (λ r. r.rkey)

-- `rdma_read`, up to the wait for the read; `none` is the return value -1.
unfoldable pub rdma_read : Verbs → Connection → ℕ → ℕ → ℕ → Result (Option (List Effect))
rdma_read v c local_addr remote_addr len = elim (find_lkey c.registrations local_addr len) [
  | none ↦ ok none
  | some lkey ↦ elim (find_rkey c.remote_registrations remote_addr len) [
    | none ↦ ok none
    | some rkey ↦ do
      posted ← post_rdma_read v local_addr lkey remote_addr rkey len
      ok (some (posted ∷ sem_waits completion_sem ∷ []))
  ]
]

-- `rdma_read_async`
unfoldable pub rdma_read_async : Verbs → Connection → ℕ → ℕ → ℕ → ℕ → Result (List Effect)
rdma_read_async v c local_addr remote_addr len context = do
  lkey ← or_fault (find_lkey c.registrations local_addr len) logic_error
  rkey ← or_fault (find_rkey c.remote_registrations remote_addr len) logic_error
  ok (post_rdma_read_async v local_addr lkey remote_addr rkey len context)

-- `conn->remote_registrations[remote_addr]`, with the map after it.
abbrev pub remote_entry : Map ℕ RemoteRegion → ℕ → RemoteRegion × Map ℕ RemoteRegion
remote_entry m remote_addr = elim (lookup remote_addr m) [
  | some r ↦ (r, m)
  | none ↦ (no_region, insert remote_addr no_region m)
]

-- `rdma_write`, up to the wait. The keys are those of the exact addresses; for an address with no
-- remote registration the map makes an entry of zeros.
unfoldable pub rdma_write : Verbs → Connection → ℕ → ℕ → ℕ → Result Handled
rdma_write v c local_addr remote_addr len = do
  mr_local ← or_fault (lookup local_addr c.registrations) bad_pointer
  let (mr_remote, remotes) = remote_entry c.remote_registrations remote_addr
  posted ← post_rdma_write v local_addr mr_local.lkey remote_addr mr_remote.rkey len
  ok (record c { remote_registrations = remotes }, posted ∷ sem_waits completion_sem ∷ [])
