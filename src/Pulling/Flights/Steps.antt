-- ===== src/Pulling/Flights/Steps.antt =====
-- The steps of the loop, the callbacks and the handlers of page faults on pages in flight, all of
-- src/distributed-allocator/RDMAMemory.tpp and include/distributed-allocator/RDMAMemory.hpp.
use rdma_migration_system.Prelude.{
  ℕ, ◌+◌, ◌-◌, ◌≡◌, ◌⊎◌, refl, ap, arith, inl, inr, some, Bool, true, false, List, [], ◌∷◌, ◌++◌,
}
use rdma_migration_system.Prelude.Tests.{if◌then◌else◌, Bool-cases}
use rdma_migration_system.Prelude.Lists.{length, length-append, get_elem?}
use rdma_migration_system.Prelude.Results.{Result, ok, Result-cases}
use rdma_migration_system.Paging.{
  remote, in_flight, local, Pages, store, page_of, get_page_address, get_page_size, set_page_state,
  set_page_state_cas,
}
use rdma_migration_system.Pulling.{Read, Answers}
use rdma_migration_system.Pulling.Async.{
  AsyncPull, exchange, post_read, callback_counts, callback_sets, fault_begins, fault_ends,
  FlightStep, counts, sets, faults, mends,
}
use rdma_migration_system.Pulling.Flights.{
  cas_cases, set_cases, Owned, Owned-claims, Owned-faults, Owned-posts, Owned-counts, Owned-sets,
  Owned-mends,
}

pub exchange_cases :
    (a : Answers) (s t : AsyncPull) (addr size : ℕ) (swapped : Bool)
    → exchange a s addr size ≡ ok (t, swapped)
    → ((swapped ≡ true)
        × (get_elem? s.table.pages (page_of s.table addr) ≡ some remote)
        × (t ≡ record s {
          table = store s.table (page_of s.table addr) in_flight;
          claimed = record { addr = addr; size = size } ∷ s.claimed;
          added = s.added + 1;
        }))
      ⊎ ((swapped ≡ false) × (t ≡ record s { added = s.added + 1 }))
unfolding exchange
exchange_cases a s t addr size swapped e =
    elim (Result-cases (set_page_state_cas s.table addr remote in_flight a.spurious)) [
      | inr (fault, ran) ↦ absurd (ground (arith, e, ran))
      | inl ((q, done), ran) ↦ elim (cas_cases s.table q addr a.spurious done ran) [
        | inl (swaps, there, same) ↦
            inl (ground (arith, e, ran, swaps), there, ground (arith, e, ran, swaps, same))
        | inr (fails, same) ↦
            inr (ground (arith, e, ran, fails), ground (arith, e, ran, fails, same))
      ]
    ]

pub exchange-Owned :
    (p : Pages) (a : Answers) (s t : AsyncPull) (addr size : ℕ) (swapped : Bool)
    → exchange a s addr size ≡ ok (t, swapped)
    → Owned p s
    → Owned p t
exchange-Owned p a s t addr size swapped e h = elim (exchange_cases a s t addr size swapped e) [
  | inl (_, there, same) ↦
      rw same (Owned-claims p s (record { addr = addr; size = size }) (s.added + 1) there h)
  | inr (_, same) ↦ rw same (record { same = h.same; once = λ j. h.once j })
]

pub posts_cases :
    (posted : Result (Unit {0})) (s t : AsyncPull) (r : Read)
    → post_read posted s r ≡ ok t
    → t ≡ record s { claimed = []; pending = s.pending ++ (r ∷ []) }
unfolding post_read
posts_cases posted s t r e = elim (Result-cases posted) [
  | inl (u, ran) ↦ ground (arith, e, ran)
  | inr (fault, ran) ↦ absurd (ground (arith, e, ran))
]

pub post_read-Owned :
    (p : Pages) (posted : Result (Unit {0})) (s t : AsyncPull) (r : Read)
    → s.claimed ≡ r ∷ []
    → post_read posted s r ≡ ok t
    → Owned p s
    → Owned p t
post_read-Owned p posted s t r e ran h = rw (posts_cases posted s t r ran) (Owned-posts p s r e h)

-- What a step of a callback or a handler leaves.
counts_cases :
    (a : Answers) (s t : AsyncPull) (r : Read) (pending : List Read)
    → callback_counts a s r pending ≡ ok t
    → t ≡ record s { pending = pending; landing = r ∷ s.landing; added = s.added - 1 }
unfolding callback_counts
counts_cases a s t r pending e = elim (Bool-cases a.protected) [
  | inl can ↦ ground (arith, e, can)
  | inr cannot ↦ absurd (ground (arith, e, cannot))
]

sets_cases :
    (s t : AsyncPull) (r : Read) (landing : List Read)
    → callback_sets s r landing ≡ ok t
    → t ≡ record s { table = store s.table (page_of s.table r.addr) local; landing = landing }
unfolding callback_sets
sets_cases s t r landing e = elim (Result-cases (set_page_state s.table r.addr local)) [
  | inl (q, ran) ↦ ground (arith, e, ran, set_cases s.table q r.addr ran)
  | inr (fault, ran) ↦ absurd (ground (arith, e, ran))
]

mends_cases :
    (a : Answers) (s t : AsyncPull) (r : Read) (faulting : List Read)
    → fault_ends a s r faulting ≡ ok t
    → t ≡ record s { table = store s.table (page_of s.table r.addr) local; faulting = faulting }
unfolding fault_ends
mends_cases a s t r faulting e = elim (Bool-cases a.pulled) [
  | inr refused ↦ absurd (ground (arith, e, refused))
  | inl pulled ↦ elim (Result-cases (set_page_state s.table r.addr local)) [
    | inr (fault, ran) ↦ absurd (ground (arith, e, pulled, ran))
    | inl (q, ran) ↦ elim (Bool-cases a.protected) [
      | inl can ↦ ground (arith, e, pulled, ran, can, set_cases s.table q r.addr ran)
      | inr cannot ↦ absurd (ground (arith, e, pulled, ran, cannot))
    ]
  ]
]

faults_cases :
    (a : Answers) (s t : AsyncPull) (fault_address : ℕ)
    → fault_begins a s fault_address ≡ ok t
    → ((r : Read) × (get_elem? s.table.pages (page_of s.table r.addr) ≡ some remote)
        × (t ≡ record s {
          table = store s.table (page_of s.table r.addr) in_flight;
          faulting = r ∷ s.faulting;
        }))
      ⊎ (t ≡ s)
unfolding fault_begins
faults_cases a s t fault_address e =
    let addr = get_page_address s.table fault_address in
    let r : Read = record { addr = addr; size = get_page_size s.table addr } in
    elim (Result-cases (set_page_state_cas s.table addr remote in_flight a.spurious)) [
      | inr (fault, ran) ↦ absurd (ground (arith, e, ran))
      | inl ((q, done), ran) ↦ elim (cas_cases s.table q addr a.spurious done ran) [
        | inl (swaps, there, same) ↦ inl (r, there, ground (arith, e, ran, swaps, same))
        | inr (fails, same) ↦ inr (ground (arith, e, ran, fails, same))
      ]
    ]

pub FlightStep-Owned : (p : Pages) (s t : AsyncPull) → FlightStep s t → Owned p s → Owned p t
FlightStep-Owned p _ _ (counts a s t r before after e ran) h =
    rw (counts_cases a s t r (before ++ after) ran)
      (Owned-counts p s r before after (s.added - 1) e h)
FlightStep-Owned p _ _ (sets s t r before after e ran) h =
    rw (sets_cases s t r (before ++ after) ran) (Owned-sets p s r before after e h)
FlightStep-Owned p _ _ (faults a s t fault_address ran) h =
    elim (faults_cases a s t fault_address ran) [
      | inl (r, there, same) ↦ rw same (Owned-faults p s r there h)
      | inr same ↦ rw same h
    ]
FlightStep-Owned p _ _ (mends a s t r before after e ran) h =
    rw (mends_cases a s t r (before ++ after) ran) (Owned-mends p s r before after e h)

-- The limiter counts the reads of the loop that are not back, and `n` exchanges that failed.
abbrev pub Counts : ℕ → AsyncPull → Type 0
Counts n s = s.added ≡ (length s.claimed + length s.pending) + n

pub FlightStep-Counts : (n : ℕ) (s t : AsyncPull) → FlightStep s t → Counts n s → Counts n t
FlightStep-Counts n _ _ (counts a s t r before after e ran) h =
    rw (counts_cases a s t r (before ++ after) ran)
      (omega (arith, h, ap length e, length-append before (r ∷ after), length-append before after))
FlightStep-Counts n _ _ (sets s t r before after e ran) h =
    rw (sets_cases s t r (before ++ after) ran) h
FlightStep-Counts n _ _ (faults a s t fault_address ran) h =
    elim (faults_cases a s t fault_address ran) [
      | inl (r, there, same) ↦ rw same h
      | inr same ↦ rw same h
    ]
FlightStep-Counts n _ _ (mends a s t r before after e ran) h =
    rw (mends_cases a s t r (before ++ after) ran) h

pub exchange-Counts :
    (n : ℕ) (a : Answers) (s t : AsyncPull) (addr size : ℕ) (swapped : Bool)
    → exchange a s addr size ≡ ok (t, swapped)
    → Counts n s
    → Counts (n + (if swapped then 0 else 1)) t
exchange-Counts n a s t addr size swapped e h = elim (exchange_cases a s t addr size swapped e) [
  | inl (swaps, _, same) ↦ rw (same, swaps) (omega (arith, h))
  | inr (fails, same) ↦ rw (same, fails) (omega (arith, h))
]

pub post_read-Counts :
    (n : ℕ) (posted : Result (Unit {0})) (s t : AsyncPull) (r : Read)
    → s.claimed ≡ r ∷ []
    → post_read posted s r ≡ ok t
    → Counts n s
    → Counts n t
post_read-Counts n posted s t r e ran h =
    rw (posts_cases posted s t r ran)
      (omega (arith, h, ap length e, length-append s.pending (r ∷ [])))

-- The loop's own place, and the reads that are not back.
pub FlightStep-loop :
    (s t : AsyncPull)
    → FlightStep s t
    → (t.rest ≡ s.rest)
      × (t.id ≡ s.id)
      × (t.claimed ≡ s.claimed)
      × ((t.pending ≡ s.pending)
          ⊎ ((before : List Read) × (r : Read) × (after : List Read) × (s.pending
                ≡ before ++ (r ∷ after))
              × (t.pending ≡ before ++ after)))
FlightStep-loop _ _ (counts a s t r before after e ran) =
    rw (counts_cases a s t r (before ++ after) ran)
      (refl, refl, refl, inr (before, r, after, e, refl))
FlightStep-loop _ _ (sets s t r before after e ran) =
    rw (sets_cases s t r (before ++ after) ran) (refl, refl, refl, inl refl)
FlightStep-loop _ _ (faults a s t fault_address ran) = elim (faults_cases a s t fault_address ran) [
  | inl (r, there, same) ↦ rw same (refl, refl, refl, inl refl)
  | inr same ↦ rw same (refl, refl, refl, inl refl)
]
FlightStep-loop _ _ (mends a s t r before after e ran) =
    rw (mends_cases a s t r (before ++ after) ran) (refl, refl, refl, inl refl)
