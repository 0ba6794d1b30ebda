-- ===== src/Manager/Again.antt =====
-- `deallocate` and `allocate` of src/distributed-allocator/RDMAMemory.tpp, one after the other.
use rdma_migration_system.Prelude.{ℕ, ◌≡◌, refl, ◌∙◌, arith, Option, some, none, List, [], ◌∷◌}
use rdma_migration_system.Prelude.Tests.{==_iff}
use rdma_migration_system.Prelude.Results.{ok}
use rdma_migration_system.Prelude.Maps.{Map, lookup, insert, lookup-insert, lookup-erase, nat_key}
use rdma_migration_system.Manager.{Manager, Segment}
use rdma_migration_system.Manager.Allocate.{allocate_free, allocate, deallocate, keep_free}
use rdma_migration_system.Manager.Reuse.{Given, grown, deallocate-run}

same_key : {V : Type 0} (k : ℕ) (v : V) (m : Map ℕ V) → lookup k (insert k v m) ≡ some v
same_key k v m = lookup-insert k k v m ∙ rw ((==_iff k k).1 refl) refl

module _ (m : Manager) (a p : ℕ) (s : Segment) (here : lookup p m.heap ≡ some s)
    (ea : s.vaddr ≡ a) where
  abbrev reused : ℕ → List ℕ → Manager
  reused size ps = record m {
    free_map = keep_free size ps m.free_map;
    memory_map = insert a p m.memory_map;
  }

  allocate-reused :
      (size b : ℕ) (ps : List ℕ) (mapped : Option ℕ)
      → lookup size m.free_map ≡ some (p ∷ ps)
      → allocate m size (some b) mapped ≡ ok (reused size ps, some a)
  unfolding allocate allocate_free
  allocate-reused size b ps mapped listed = rw (listed, here, ea, allocate) refl

  deallocate-grown :
      (size : ℕ) (list : Option (List ℕ))
      → lookup a m.memory_map ≡ some p
      → s.size ≡ size
      → lookup size m.free_map ≡ list
      → deallocate m a ≡ ok (record m { free_map = insert size (grown list p) m.free_map })
  deallocate-grown size list known es listed =
      rw (← es, ← listed) (rw (← es) (deallocate-run m a p s known here))

-- A segment that is deallocated, where its size has no free list, is the one that the next
-- allocation of its size gives, whatever the rest of the share; the free lists are then as before.
pub deallocate-allocate :
    (m : Manager) (a size b : ℕ) (mapped : Option ℕ)
    → Given m a size
    → lookup size m.free_map ≡ none
    → (d e : Manager) × (deallocate m a ≡ ok d)
      × (allocate d size (some b) mapped ≡ ok (e, some a))
      × Given e a size
      × ((n : ℕ) → lookup n e.free_map ≡ lookup n m.free_map)
deallocate-allocate m a size b mapped (p, s, known, here, ea, es) empty =
    let d = record m { free_map = insert size (p ∷ []) m.free_map } in
    (
      d,
      _,
      deallocate-grown m a p s here ea size none known es empty,
      allocate-reused d a p s here ea size b [] mapped (same_key size (p ∷ []) m.free_map),
      (p, s, same_key a p m.memory_map, here, ea, es),
      λ n. ground (
        arith,
        lookup-erase size n (insert size (p ∷ []) m.free_map),
        lookup-insert size n (p ∷ []) m.free_map,
        ==_iff size n,
        empty,
      ),
    )

-- A segment that is deallocated twice is given out twice: two allocations of its size in a row, where
-- its size had no free list, give the same address.
pub deallocate_twice :
    (m : Manager) (a size b c : ℕ) (mapped : Option ℕ)
    → Given m a size
    → lookup size m.free_map ≡ none
    → (d e f g : Manager) × (deallocate m a ≡ ok d)
      × (deallocate d a ≡ ok e)
      × (allocate e size (some b) mapped ≡ ok (f, some a))
      × (allocate f size (some c) mapped ≡ ok (g, some a))
deallocate_twice m a size b c mapped (p, s, known, here, ea, es) empty =
    let one = p ∷ [] in
    let d = record m { free_map = insert size one m.free_map } in
    let e = record d { free_map = insert size (p ∷ one) d.free_map } in
    let f = record e {
      free_map = insert size one e.free_map;
      memory_map = insert a p e.memory_map;
    } in
    (
      d,
      e,
      f,
      _,
      deallocate-grown m a p s here ea size none known es empty,
      deallocate-grown d a p s here ea size (some one) known es (same_key size one m.free_map),
      allocate-reused e a p s here ea size b one mapped (same_key size (p ∷ one) d.free_map),
      allocate-reused f a p s here ea size c [] mapped (same_key size one e.free_map),
    )
