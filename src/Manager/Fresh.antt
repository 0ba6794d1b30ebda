-- ===== src/Manager/Fresh.antt =====
-- `allocate` of src/distributed-allocator/RDMAMemory.tpp: where segments lie, and new ones.
use rdma_migration_system.Prelude.{
  ℕ, ◌+◌, ◌≤◌, ◌<◌, ◌≡◌, ◌≢◌, sym, ◌∙◌, ◌⊎◌, inl, inr, arith, some, List, [], ◌∷◌, ◌++◌,
}
use rdma_migration_system.Prelude.Tests.{◌==◌, Bool-cases, ==_iff}
use rdma_migration_system.Prelude.Word.{word_mod, add64}
use rdma_migration_system.Prelude.Maps.{Map, lookup, insert, lookup-insert, nat_key}
use rdma_migration_system.Manager.{Manager, Segment}
use rdma_migration_system.Manager.Segments.{new_segment}
use rdma_migration_system.Manager.Allocate.{record_segment}

-- In the part of the share that has been given out; outside the share; with no common address.
abbrev pub Own : Manager → Segment → Type 0
Own m s = (m.start_address ≤ s.vaddr) × (s.vaddr + s.size ≤ m.alloc_address)

abbrev pub Foreign : Manager → Segment → Type 0
Foreign m s = (s.vaddr + s.size ≤ m.start_address) ⊎ (m.end_address ≤ s.vaddr)

abbrev pub Disjoint : Segment → Segment → Type 0
Disjoint s t = (s.vaddr + s.size ≤ t.vaddr) ⊎ (t.vaddr + t.size ≤ s.vaddr)

abbrev pub Sized : Map ℕ Segment → ℕ → ℕ → Type 0
Sized heap size p = (s : Segment) × (lookup p heap ≡ some s) × (s.size ≡ size)

abbrev pub AllSized : Map ℕ Segment → ℕ → List ℕ → Type 0
AllSized heap size [] = Unit {0}
AllSized heap size (p ∷ ps) = Sized heap size p × AllSized heap size ps

pub record LaidOut (m : Manager) : Type 0 where
  pub low : m.start_address ≤ m.alloc_address
  pub high : m.alloc_address ≤ m.end_address
  pub young : (p : ℕ) (s : Segment) → lookup p m.heap ≡ some s → p < m.next
  pub placed : (p : ℕ) (s : Segment) → lookup p m.heap ≡ some s → Own m s ⊎ Foreign m s
  pub apart :
      (p q : ℕ) (s t : Segment)
      → p ≢ q
      → lookup p m.heap ≡ some s
      → lookup q m.heap ≡ some t
      → Own m s
      → Own m t
      → Disjoint s t
  pub free : (size : ℕ) (ps : List ℕ) → lookup size m.free_map ≡ some ps → AllSized m.heap size ps
  pub filled : (size : ℕ) → lookup size m.free_map ≢ some []

AllSized-grow :
    (h k : Map ℕ Segment) (size : ℕ) (ps : List ℕ)
    → ((p : ℕ) (s : Segment) → lookup p h ≡ some s → lookup p k ≡ some s)
    → AllSized h size ps
    → AllSized k size ps
AllSized-grow h k size [] grows all = tt
AllSized-grow h k size (p ∷ ps) grows ((s, found, e), all) =
    ((s, grows p s found, e), AllSized-grow h k size ps grows all)

pub AllSized-append :
    (h : Map ℕ Segment) (size : ℕ) (ps : List ℕ) (p : ℕ)
    → AllSized h size ps
    → Sized h size p
    → AllSized h size (ps ++ (p ∷ []))
AllSized-append h size [] p all one = (one, tt)
AllSized-append h size (q ∷ ps) p (first, all) one = (first, AllSized-append h size ps p all one)

-- A lookup behind an insertion is the new value at the new key, or an old one at another.
pub insert_cases :
    {V : Type 0} (k p : ℕ) (v w : V) (h : Map ℕ V)
    → lookup p (insert k v h) ≡ some w
    → ((k ≡ p) × (v ≡ w)) ⊎ ((k ≢ p) × (lookup p h ≡ some w))
insert_cases k p v w h e = elim (Bool-cases (k == p)) [
  | inl same ↦ inl ((==_iff k p).0 same, ground (arith, lookup-insert k p v h))
  | inr differs ↦ inr (λ s. ground (arith, ==_iff k p), ground (arith, lookup-insert k p v h))
]

insert_old :
    {V : Type 0} (k p : ℕ) (v w : V) (h : Map ℕ V)
    → k ≢ p
    → lookup p h ≡ some w
    → lookup p (insert k v h) ≡ some w
insert_old k p v w h ne e = ground (arith, lookup-insert k p v h, ==_iff k p)

swap : {a b : Type 0} → a ⊎ b → b ⊎ a
swap (inl x) = inr x
swap (inr x) = inl x

Foreign-apart :
    (m : Manager) (s t : Segment)
    → Foreign m s
    → m.start_address ≤ t.vaddr
    → t.vaddr + t.size ≤ m.end_address
    → Disjoint s t
Foreign-apart m s t (inl below) low high = inl (omega arith)
Foreign-apart m s t (inr above) low high = inr (omega arith)

-- An old segment and one at the next address.
next_apart :
    (m : Manager) (t : Segment) (size : ℕ)
    → m.start_address ≤ m.alloc_address
    → m.alloc_address + size ≤ m.end_address
    → Own m t ⊎ Foreign m t
    → (m.alloc_address + size ≤ t.vaddr) ⊎ (t.vaddr + t.size ≤ m.alloc_address)
next_apart m t size low fits (inl (_, own)) = inr own
next_apart m t size low fits (inr (inl below)) = inr (omega arith)
next_apart m t size low fits (inr (inr above)) = inl (omega arith)

-- The manager after the next `size` bytes of the share are given out.
abbrev pub bumped : Manager → ℕ → Manager
bumped m size =
    record_segment (record m { alloc_address = add64 m.alloc_address size }) m.alloc_address size

pub bumped-LaidOut :
    (m : Manager) (size : ℕ)
    → LaidOut m
    → m.alloc_address + size ≤ m.end_address
    → m.end_address < word_mod
    → LaidOut (bumped m size)
unfolding new_segment
bumped-LaidOut m size w fits room =
    let new = new_segment m.node.server_id m.alloc_address size in
    let bump : add64 m.alloc_address size ≡ m.alloc_address + size = omega arith in
    let split : (p : ℕ) (s : Segment)
        → lookup p (insert m.next new m.heap) ≡ some s
        → ((m.next ≡ p) × (new ≡ s)) ⊎ ((m.next ≢ p) × (lookup p m.heap ≡ some s)) =
      λ p s. insert_cases m.next p new s m.heap in
    record {
      low = omega (arith, w.low, bump);
      high = omega (arith, bump);
      young = λ p s e. elim (split p s e) [
        | inl (same, _) ↦ omega arith
        | inr (_, old) ↦ omega (arith, w.young p s old)
      ];
      placed = λ p s e. elim (split p s e) [
        | inl (_, same) ↦ inl (rw (← same) (omega (arith, w.low), omega (arith, bump)))
        | inr (_, old) ↦ elim (w.placed p s old) [
          | inl (a, b) ↦ inl (a, omega (arith, bump))
          | inr f ↦ inr f
        ]
      ];
      apart = λ p q s t ne es et (os, ps) (ot, pt). elim (split p s es) [
        | inl (ep, new_s) ↦ elim (split q t et) [
          | inl (eq, new_t) ↦ absurd (ne (sym ep ∙ eq))
          | inr (_, old_t) ↦ rw (← new_s) (next_apart m t size w.low fits (w.placed q t old_t))
        ]
        | inr (_, old_s) ↦ elim (split q t et) [
          | inl (eq, new_t) ↦
              rw (← new_t) (swap (next_apart m s size w.low fits (w.placed p s old_s)))
          | inr (_, old_t) ↦ elim (w.placed p s old_s) [
            | inr f ↦ Foreign-apart m s t f ot (omega (arith, bump))
            | inl own_s ↦ elim (w.placed q t old_t) [
              | inr f ↦ swap (Foreign-apart m t s f os (omega (arith, bump)))
              | inl own_t ↦ w.apart p q s t ne old_s old_t own_s own_t
            ]
          ]
        ]
      ];
      free = λ n ps e.
          AllSized-grow m.heap _ n ps
            (λ p s old.
              insert_old m.next p new s m.heap (λ same. omega (arith, w.young p s old)) old)
            (w.free n ps e);
      filled = w.filled;
    }
