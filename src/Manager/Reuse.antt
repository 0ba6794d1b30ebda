-- ===== src/Manager/Reuse.antt =====
-- `allocate` and `deallocate` of src/distributed-allocator/RDMAMemory.tpp: the layout of segments.
use rdma_migration_system.Prelude.{
  ℕ, ◌+◌, ◌≤◌, ◌<◌, ◌≡◌, ◌≢◌, refl, ◌∙◌, ◌⊎◌, inl, inr, arith, Option, some, none, List, [], ◌∷◌,
  ◌++◌,
}
use rdma_migration_system.Prelude.Tests.{ltb, ltb→le, Bool-cases, Option-cases, ==_iff}
use rdma_migration_system.Prelude.Results.{Result, ok}
use rdma_migration_system.Prelude.Word.{word_mod, add64}
use rdma_migration_system.Prelude.Maps.{Map, lookup, insert, lookup-insert, lookup-erase, nat_key}
use rdma_migration_system.Manager.{Manager, Segment}
use rdma_migration_system.Manager.Segments.{new_segment, segment_at}
use rdma_migration_system.Manager.Allocate.{
  allocate_shared, allocate_free, allocate, deallocate, keep_free,
}
use rdma_migration_system.Manager.Fresh.{
  AllSized, AllSized-append, LaidOut, bumped-LaidOut, insert_cases,
}

-- The layout does not read the map of addresses, nor the free lists past their objects.
refree :
    (m : Manager) (free : Map ℕ (List ℕ)) (addresses : Map ℕ ℕ)
    → LaidOut m
    → ((size : ℕ) (ps : List ℕ) → lookup size free ≡ some ps → AllSized m.heap size ps)
    → ((size : ℕ) → lookup size free ≢ some [])
    → LaidOut (record m { free_map = free; memory_map = addresses })
refree m free addresses w sized filled = record {
  low = w.low;
  high = w.high;
  young = w.young;
  placed = w.placed;
  apart = w.apart;
  free = sized;
  filled = filled;
}

-- A segment that has been given out at this address with this size.
abbrev pub Given : Manager → ℕ → ℕ → Type 0
Given m a size =
    (p : ℕ) × (s : Segment) × (lookup a m.memory_map ≡ some p)
    × (lookup p m.heap ≡ some s)
    × (s.vaddr ≡ a)
    × (s.size ≡ size)

-- What an allocation returns is given out.
abbrev pub Answered : Manager → ℕ → Option ℕ → Type 0
Answered m size none = Unit {0}
Answered m size (some a) = Given m a size

abbrev Outcome : ℕ → Manager × Option ℕ → Type 0
Outcome size r = LaidOut r.0 × Answered r.0 size r.1

allocate_shared-Outcome :
    (m : Manager) (size : ℕ) (mapped : Option ℕ)
    → LaidOut m
    → m.end_address + size < word_mod
    → (mapped ≡ none) ⊎ (mapped ≡ some m.alloc_address)
    → Outcome size (allocate_shared m size mapped)
unfolding allocate_shared new_segment
allocate_shared-Outcome m size mapped w room honest =
    elim (Bool-cases (ltb m.end_address (add64 m.alloc_address size))) [
      | inl full ↦ rw full (w, tt)
      | inr fits ↦ elim honest [
        | inl failed ↦ rw (fits, failed) (w, tt)
        | inr mapped_there ↦
            let below : m.alloc_address + size ≤ m.end_address =
              ground
                (arith, w.high, room, ltb→le m.end_address (add64 m.alloc_address size) fits) in
            rw (fits, mapped_there)
              (
                bumped-LaidOut m size w below (omega (arith)),
                (
                  m.next,
                  new_segment m.node.server_id m.alloc_address size,
                  lookup-insert m.alloc_address m.alloc_address m.next m.memory_map
                      ∙ rw ((==_iff m.alloc_address m.alloc_address).1 refl) refl,
                  lookup-insert m.next m.next _ m.heap ∙ rw ((==_iff m.next m.next).1 refl) refl,
                  refl,
                  refl,
                ),
              )
      ]
    ]

keep_free-sized :
    (m : Manager) (size p : ℕ) (ps : List ℕ)
    → LaidOut m
    → lookup size m.free_map ≡ some (p ∷ ps)
    → (n : ℕ) (qs : List ℕ) → lookup n (keep_free size ps m.free_map) ≡ some qs
    → AllSized m.heap n qs
keep_free-sized m size p [] w found n qs e =
    w.free n qs (ground (arith, lookup-erase size n m.free_map))
keep_free-sized m size p (q ∷ ps) w found n qs e =
    elim (insert_cases size n (q ∷ ps) qs m.free_map e) [
      | inl (same, list) ↦ rw (← same, ← list) (w.free size (p ∷ q ∷ ps) found).1
      | inr (_, old) ↦ w.free n qs old
    ]

keep_free-filled :
    (m : Manager) (size : ℕ) (ps : List ℕ)
    → LaidOut m
    → (n : ℕ) → lookup n (keep_free size ps m.free_map) ≢ some []
keep_free-filled m size [] w n e = w.filled n (ground (arith, lookup-erase size n m.free_map))
keep_free-filled m size (q ∷ ps) w n e = elim (insert_cases size n (q ∷ ps) [] m.free_map e) [
  | inl (_, list) ↦ ground (arith, list)
  | inr (_, old) ↦ w.filled n old
]

-- The call returns, with a layout and an answer that are as they should be.
abbrev pub Allocates : ℕ → Result (Manager × Option ℕ) → Type 0
Allocates size r = (d : Manager) × (o : Option ℕ) × (r ≡ ok (d, o)) × LaidOut d × Answered d size o

allocate_free-Allocates :
    (m : Manager) (size : ℕ) (ps : List ℕ) (remapped mapped : Option ℕ)
    → LaidOut m
    → m.end_address + size < word_mod
    → (mapped ≡ none) ⊎ (mapped ≡ some m.alloc_address)
    → lookup size m.free_map ≡ some ps
    → Allocates size (allocate_free m size ps remapped mapped)
unfolding allocate_free
allocate_free-Allocates m size [] remapped mapped w room honest found = absurd (w.filled size found)
allocate_free-Allocates m size (p ∷ ps) none mapped w room honest found =
    let ((s, here, _), _) = w.free size (p ∷ ps) found in
    let (laid, given) = allocate_shared-Outcome m size mapped w room honest in
    (_, _, rw here refl, laid, given)
allocate_free-Allocates m size (p ∷ ps) (some a) mapped w room honest found =
    let ((s, here, sized), _) = w.free size (p ∷ ps) found in
    (
      _,
      some s.vaddr,
      rw here refl,
      refree m (keep_free size ps m.free_map) (insert s.vaddr p m.memory_map) w
          (keep_free-sized m size p ps w found) (keep_free-filled m size ps w),
      (
        p,
        s,
        lookup-insert s.vaddr s.vaddr p m.memory_map ∙ rw ((==_iff s.vaddr s.vaddr).1 refl) refl,
        here,
        refl,
        sized,
      ),
    )

-- Where `mmap` answers the address that it is asked for, or fails, and no sum wraps, `allocate`
-- returns, keeps the segments of this server apart from each other and inside its share, and an
-- address that it gives belongs to a segment of the size that is asked for.
pub allocate-Allocates :
    (m : Manager) (size : ℕ) (remapped mapped : Option ℕ)
    → LaidOut m
    → m.end_address + size < word_mod
    → (mapped ≡ none) ⊎ (mapped ≡ some m.alloc_address)
    → Allocates size (allocate m size remapped mapped)
unfolding allocate
allocate-Allocates m size remapped mapped w room honest =
    elim (Option-cases (lookup size m.free_map)) [
      | inl missing ↦
          let (laid, given) = allocate_shared-Outcome m size mapped w room honest in
          (_, _, rw (missing, allocate) refl, laid, given)
      | inr (list, found) ↦
          rw (found, allocate)
            (allocate_free-Allocates m size list remapped mapped w room honest found)
    ]

-- The list that `deallocate` leaves for the size of the object.
abbrev pub grown : Option (List ℕ) → ℕ → List ℕ
grown none p = p ∷ []
grown (some ps) p = ps ++ (p ∷ [])

pub deallocate-run :
    (m : Manager) (a p : ℕ) (s : Segment)
    → lookup a m.memory_map ≡ some p
    → lookup p m.heap ≡ some s
    → deallocate m a
      ≡ ok (record m { free_map = insert s.size (grown (lookup s.size m.free_map) p) m.free_map })
unfolding deallocate segment_at
deallocate-run m a p s known here = ground arith

grown-AllSized :
    (m : Manager) (p : ℕ) (s : Segment) (list : Option (List ℕ))
    → LaidOut m
    → lookup p m.heap ≡ some s
    → lookup s.size m.free_map ≡ list
    → AllSized m.heap s.size (grown list p)
grown-AllSized m p s none w here e = ((s, here, refl), tt)
grown-AllSized m p s (some ps) w here e =
    AllSized-append m.heap s.size ps p (w.free s.size ps e) (s, here, refl)

grown-filled : (list : Option (List ℕ)) (p : ℕ) → grown list p ≢ []
grown-filled none p e = ground arith
grown-filled (some []) p e = ground arith
grown-filled (some (q ∷ ps)) p e = ground arith

-- `deallocate` of an address that is known keeps the layout.
pub deallocate-LaidOut :
    (m : Manager) (a size : ℕ)
    → LaidOut m
    → Given m a size
    → (d : Manager) × (deallocate m a ≡ ok d) × LaidOut d
deallocate-LaidOut m a size w (p, s, known, here, _, _) =
    let list = grown (lookup s.size m.free_map) p in
    (
      _,
      deallocate-run m a p s known here,
      refree m (insert s.size list m.free_map) m.memory_map w
          (λ n qs e. elim (insert_cases s.size n list qs m.free_map e) [
            | inl (same, e') ↦
                rw (← same, ← e') (grown-AllSized m p s (lookup s.size m.free_map) w here refl)
            | inr (_, old) ↦ w.free n qs old
          ])
          (λ n e. elim (insert_cases s.size n list [] m.free_map e) [
            | inl (_, e') ↦ absurd (grown-filled (lookup s.size m.free_map) p e')
            | inr (_, old) ↦ w.filled n old
          ]),
    )
