-- ===== src/Manager/Lookup.antt =====
-- `getRDMAMemory` of src/distributed-allocator/RDMAMemory.tpp, which the fault handler calls.
use rdma_migration_system.Prelude.{
  ℕ, ◌+◌, ◌≤◌, ◌<◌, ◌≡◌, refl, ◌⊎◌, inl, inr, arith, Option, some, none, ◌&&◌, [], ◌∷◌,
}
use rdma_migration_system.Prelude.Tests.{ltb, leb, Bool-cases}
use rdma_migration_system.Prelude.Word.{word_mod, add64}
use rdma_migration_system.Prelude.Results.{Result, ok}
use rdma_migration_system.Prelude.Maps.{Map, lookup, nat_key}
use rdma_migration_system.Manager.{Manager, Segment}
use rdma_migration_system.Manager.Segments.{find_segment, get_rdma_memory}

-- The object `p` is a segment that starts at `addr`, and whose end does not wrap.
abbrev pub Starts : Manager → ℕ → ℕ → Type 0
Starts m addr p =
    (s : Segment) × (lookup p m.heap ≡ some s) × (s.vaddr ≡ addr) × (s.vaddr + s.size < word_mod)

abbrev pub AllStart : Manager → Map ℕ ℕ → Type 0
AllStart m [] = Unit {0}
AllStart m ((addr, p) ∷ entries) = Starts m addr p × AllStart m entries

-- The object `p` is a segment with the address in it; no object of the entries is.
abbrev pub Contains : Manager → ℕ → ℕ → Type 0
Contains m address p =
    (s : Segment) × (lookup p m.heap ≡ some s) × (s.vaddr ≤ address) × (address < s.vaddr + s.size)

abbrev pub NoneContains : Manager → ℕ → Map ℕ ℕ → Type 0
NoneContains m address [] = Unit {0}
NoneContains m address ((addr, p) ∷ entries) =
    ((s : Segment) × (lookup p m.heap ≡ some s)
      × ((address < s.vaddr) ⊎ (s.vaddr + s.size ≤ address)))
    × NoneContains m address entries

abbrev pub Finds : Manager → ℕ → Map ℕ ℕ → Result (Option ℕ) → Type 0
Finds m address entries r =
    ((p : ℕ) × (r ≡ ok (some p)) × Contains m address p)
    ⊎ ((r ≡ ok none) × NoneContains m address entries)

find_segment-Finds :
    (m : Manager) (entries : Map ℕ ℕ) (address : ℕ)
    → AllStart m entries
    → Finds m address entries (find_segment m entries address)
unfolding find_segment
find_segment-Finds m [] address all = inr (refl, tt)
find_segment-Finds m ((addr, p) ∷ entries) address ((s, here, start, room), all) =
    elim (Bool-cases (leb addr address && ltb address (add64 s.vaddr s.size))) [
      | inl inside ↦
          inl (p, rw (here, inside, find_segment) refl, (s, here, ground arith, ground arith))
      | inr outside ↦
          let apart : (address < s.vaddr) ⊎ (s.vaddr + s.size ≤ address) = ground arith in
          elim (find_segment-Finds m entries address all) [
            | inl (q, ran, contains) ↦ inl (q, rw (here, outside, find_segment) ran, contains)
            | inr (ran, miss) ↦ inr (rw (here, outside, find_segment) ran, ((s, here, apart), miss))
          ]
    ]

-- Where every entry of `memory_map` leads to a segment that starts at its key and whose end does
-- not wrap, `getRDMAMemory` returns a segment that the address lies in, or null, and then the
-- address lies in no segment of the map.
pub get_rdma_memory-Finds :
    (m : Manager) (address : ℕ)
    → AllStart m m.memory_map
    → Finds m address m.memory_map (get_rdma_memory m address)
unfolding get_rdma_memory
get_rdma_memory-Finds m address all = find_segment-Finds m m.memory_map address all
