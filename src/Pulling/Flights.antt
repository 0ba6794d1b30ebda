-- ===== src/Pulling/Flights.antt =====
-- Pages in flight, by the threads that hold them: the loop, the reads that are posted, the callbacks and
-- the handlers of page faults, all of src/distributed-allocator/RDMAMemory.tpp and
-- include/distributed-allocator/RDMAMemory.hpp.
pub mod Steps
use rdma_migration_system.Prelude.{
  ℕ, zero, suc, ◌+◌, ◌-◌, ◌≡◌, ◌⊎◌, refl, ap, sym, ◌∙◌, arith, inl, inr, Option, some, none, Bool,
  true, false, not, ◌&&◌, List, [], ◌∷◌, ◌++◌,
}
use rdma_migration_system.Prelude.Tests.{◌==◌, ==_iff, if◌then◌else◌, Bool-cases, Option-cases}
use rdma_migration_system.Prelude.Lists.{length, length-append, get_elem?, set}
use rdma_migration_system.Prelude.Results.{Result, ok, ok-injective, Result-cases}
use rdma_migration_system.Paging.{
  PageState, remote, in_flight, local, same_state, Pages, store, page_of, get_page_address,
  get_page_address_id, get_page_size, get_page_size_id, set_page_state, set_page_state_cas,
}
use rdma_migration_system.Paging.Counting.{Counted, count_local-set}
use rdma_migration_system.Pulling.{Read, Answers}
use rdma_migration_system.Pulling.Pass.{AtRest, page_read}
use rdma_migration_system.Pulling.Async.{
  AsyncPull, exchange, post_read, callback_counts, callback_sets, fault_begins, fault_ends,
  FlightStep, counts, sets, faults, mends,
}

-- 1 for a page in flight.
abbrev pub flying : Option PageState → ℕ
flying (some in_flight) = 1
flying _ = 0

-- 1 for page `j`.
abbrev pub at : ℕ → ℕ → ℕ
at j i = if i == j then 1 else 0

-- How many of the reads are of page `j`.
abbrev pub holds : Pages → ℕ → List Read → ℕ
holds p j [] = 0
holds p j (r ∷ reads) = (if page_of p r.addr == j then 1 else 0) + holds p j reads

pub holds-append :
    (p : Pages) (j : ℕ) (xs ys : List Read) → holds p j (xs ++ ys) ≡ holds p j xs + holds p j ys
holds-append p j [] ys = omega arith
holds-append p j (x ∷ xs) ys = omega (arith, holds-append p j xs ys)

flying_start :
    (ss : List PageState) (i j : ℕ)
    → get_elem? ss i ≡ some remote
    → flying (get_elem? (set ss i in_flight) j)
      ≡ (if i == j then 1 else 0) + flying (get_elem? ss j)
flying_start [] i j e = absurd (ground (arith, e))
flying_start (st ∷ ss) zero zero e = ground (arith, e)
flying_start (st ∷ ss) zero (suc j) e = ground arith
flying_start (st ∷ ss) (suc i) zero e = ground arith
flying_start (st ∷ ss) (suc i) (suc j) e = ground (arith, flying_start ss i j e)

flying_land :
    (ss : List PageState) (i j : ℕ)
    → get_elem? ss i ≡ some in_flight
    → flying (get_elem? ss j) ≡ (if i == j then 1 else 0) + flying (get_elem? (set ss i local) j)
flying_land [] i j e = absurd (ground (arith, e))
flying_land (st ∷ ss) zero zero e = ground (arith, e)
flying_land (st ∷ ss) zero (suc j) e = ground arith
flying_land (st ∷ ss) (suc i) zero e = ground arith
flying_land (st ∷ ss) (suc i) (suc j) e = ground (arith, flying_land ss i j e)

flies : (o : Option PageState) (n : ℕ) → suc n ≡ flying o → o ≡ some in_flight
flies none n e = absurd (ground (arith, e))
flies (some remote) n e = absurd (ground (arith, e))
flies (some in_flight) n e = refl
flies (some local) n e = absurd (ground (arith, e))

-- What the operations on the table leave where they succeed.
pub cas_cases :
    (p q : Pages) (addr : ℕ) (spurious swapped : Bool)
    → set_page_state_cas p addr remote in_flight spurious ≡ ok (q, swapped)
    → ((swapped ≡ true)
        × (get_elem? p.pages (page_of p addr) ≡ some remote)
        × (q ≡ store p (page_of p addr) in_flight))
      ⊎ ((swapped ≡ false) × (q ≡ p))
unfolding set_page_state_cas
cas_cases p q addr spurious swapped e = elim (Option-cases (get_elem? p.pages (page_of p addr))) [
  | inl missing ↦ absurd (ground (arith, e, missing))
  | inr (current, there) ↦ elim (Bool-cases (same_state current remote && not spurious)) [
    | inl taken ↦
        let is_remote : current ≡ remote = ground (arith, taken) in
        inl (
          ground (arith, e, there, taken),
          there ∙ ap (λ x. some x) is_remote,
          ground (arith, e, there, taken),
        )
    | inr lost ↦ inr (ground (arith, e, there, lost))
  ]
]

pub set_cases :
    (p q : Pages) (addr : ℕ)
    → set_page_state p addr local ≡ ok q
    → q ≡ store p (page_of p addr) local
unfolding set_page_state
set_cases p q addr e = elim (Option-cases (get_elem? p.pages (page_of p addr))) [
  | inl missing ↦ absurd (ground (arith, e, missing))
  | inr (current, there) ↦ ground (arith, e, there)
]

-- A table with the pages of `p` where they lay, and an exact counter.
pub record Same (p q : Pages) : Type 0 where
  pub places : (x : ℕ) → page_of q x ≡ page_of p x
  pub reads : (i : ℕ) → page_read q i ≡ page_read p i
  pub counted : Counted q

Same-store :
    (p q : Pages) (i : ℕ) (old new : PageState)
    → get_elem? q.pages i ≡ some old
    → same_state old local ≡ false
    → Same p q
    → Same p (store q i new)
unfolding page_of get_page_address_id get_page_size_id
Same-store p q i old new there live h = record {
  places = λ x. h.places x;
  reads = λ j. h.reads j;
  counted = record {
    exact = ground (arith, h.counted.exact, count_local-set q.pages i old new there);
  };
}

-- Each page in flight is held once, and no other page is.
abbrev pub held_by : Pages → AsyncPull → ℕ → ℕ
held_by p s j =
    holds p j s.claimed + (holds p j s.pending + (holds p j s.landing + holds p j s.faulting))

pub record Owned (p : Pages) (s : AsyncPull) : Type 0 where
  pub same : Same p s.table
  pub once : (j : ℕ) → held_by p s j ≡ flying (get_elem? s.table.pages j)

holds-part :
    (p : Pages) (j : ℕ) (reads before after : List Read) (r : Read)
    → reads ≡ before ++ (r ∷ after)
    → holds p j reads ≡ (if page_of p r.addr == j then 1 else 0) + holds p j (before ++ after)
holds-part p j reads before after r e =
    ap (holds p j) e
    ∙ omega (arith, holds-append p j before (r ∷ after), holds-append p j before after)

-- A page that a read holds is in flight.
held-flies :
    (p : Pages) (s : AsyncPull) (r : Read) (n : ℕ)
    → Owned p s
    → held_by p s (page_of p r.addr) ≡ (if page_of p r.addr == page_of p r.addr then 1 else 0) + n
    → get_elem? s.table.pages (page_of s.table r.addr) ≡ some in_flight
held-flies p s r n h e = rw (h.same.places r.addr) (
    flies (get_elem? s.table.pages (page_of p r.addr)) n (
      ground (
        arith,
        (==_iff (page_of p r.addr) (page_of p r.addr)).1 refl,
        e,
        h.once (page_of p r.addr),
      )))

-- The exchange of the loop or of a handler, as it succeeds.
pub Owned-claims :
    (p : Pages) (s : AsyncPull) (r : Read) (added : ℕ)
    → get_elem? s.table.pages (page_of s.table r.addr) ≡ some remote
    → Owned p s
    → Owned p (record s {
      table = store s.table (page_of s.table r.addr) in_flight;
      claimed = r ∷ s.claimed;
      added = added;
    })
Owned-claims p s r added there h = record {
  same = Same-store p s.table (page_of s.table r.addr) remote in_flight there refl h.same;
  once = λ j. omega (
    arith,
    h.once j,
    flying_start s.table.pages (page_of s.table r.addr) j there,
    ap (at j) (h.same.places r.addr),
  );
}

pub Owned-faults :
    (p : Pages) (s : AsyncPull) (r : Read)
    → get_elem? s.table.pages (page_of s.table r.addr) ≡ some remote
    → Owned p s
    → Owned p (record s {
      table = store s.table (page_of s.table r.addr) in_flight;
      faulting = r ∷ s.faulting;
    })
Owned-faults p s r there h = record {
  same = Same-store p s.table (page_of s.table r.addr) remote in_flight there refl h.same;
  once = λ j. omega (
    arith,
    h.once j,
    flying_start s.table.pages (page_of s.table r.addr) j there,
    ap (at j) (h.same.places r.addr),
  );
}

pub Owned-posts :
    (p : Pages) (s : AsyncPull) (r : Read)
    → s.claimed ≡ r ∷ []
    → Owned p s
    → Owned p (record s { claimed = []; pending = s.pending ++ (r ∷ []) })
Owned-posts p s r e h = record {
  same = h.same;
  once = λ j. omega (arith, h.once j, holds-append p j s.pending (r ∷ []), ap (λ x. holds p j x) e);
}

pub Owned-counts :
    (p : Pages) (s : AsyncPull) (r : Read) (before after : List Read) (added : ℕ)
    → s.pending ≡ before ++ (r ∷ after)
    → Owned p s
    → Owned p (record s { pending = before ++ after; landing = r ∷ s.landing; added = added })
Owned-counts p s r before after added e h = record {
  same = h.same;
  once = λ j. omega (arith, h.once j, holds-part p j s.pending before after r e);
}

-- A page that is set by the callback or the handler that holds it.
pub Owned-sets :
    (p : Pages) (s : AsyncPull) (r : Read) (before after : List Read)
    → s.landing ≡ before ++ (r ∷ after)
    → Owned p s
    → Owned p (record s {
      table = store s.table (page_of s.table r.addr) local;
      landing = before ++ after;
    })
Owned-sets p s r before after e h =
    let i = page_of p r.addr in
    let part : (j : ℕ)
        → holds p j s.landing ≡ (if i == j then 1 else 0) + holds p j (before ++ after) =
      λ j. holds-part p j s.landing before after r e in
    let there =
      held-flies p s r
        (holds p i s.claimed
          + (holds p i s.pending + (holds p i (before ++ after) + holds p i s.faulting)))
        h (omega (arith, part i)) in
    record {
      same = Same-store p s.table (page_of s.table r.addr) in_flight local there refl h.same;
      once = λ j. omega (
        arith,
        h.once j,
        part j,
        flying_land s.table.pages (page_of s.table r.addr) j there,
        ap (at j) (h.same.places r.addr),
      );
    }

pub Owned-mends :
    (p : Pages) (s : AsyncPull) (r : Read) (before after : List Read)
    → s.faulting ≡ before ++ (r ∷ after)
    → Owned p s
    → Owned p (record s {
      table = store s.table (page_of s.table r.addr) local;
      faulting = before ++ after;
    })
Owned-mends p s r before after e h =
    let i = page_of p r.addr in
    let part : (j : ℕ)
        → holds p j s.faulting ≡ (if i == j then 1 else 0) + holds p j (before ++ after) =
      λ j. holds-part p j s.faulting before after r e in
    let there =
      held-flies p s r
        (holds p i s.claimed
          + (holds p i s.pending + (holds p i s.landing + holds p i (before ++ after))))
        h (omega (arith, part i)) in
    record {
      same = Same-store p s.table (page_of s.table r.addr) in_flight local there refl h.same;
      once = λ j. omega (
        arith,
        h.once j,
        part j,
        flying_land s.table.pages (page_of s.table r.addr) j there,
        ap (at j) (h.same.places r.addr),
      );
    }

AtRest-lands : (ss : List PageState) (j : ℕ) → AtRest ss → 0 ≡ flying (get_elem? ss j)
AtRest-lands [] j r = refl
AtRest-lands (remote ∷ ss) zero r = refl
AtRest-lands (remote ∷ ss) (suc j) r = AtRest-lands ss j r
AtRest-lands (in_flight ∷ ss) j r = absurd r
AtRest-lands (local ∷ ss) zero r = refl
AtRest-lands (local ∷ ss) (suc j) r = AtRest-lands ss j r

-- A loop as it begins, at any place, on a segment with no page in flight.
pub idle-Owned :
    (p : Pages) (rest : List PageState) (id : ℕ)
    → Counted p
    → AtRest p.pages
    → Owned p (record {
      table = p;
      rest = rest;
      id = id;
      claimed = [];
      pending = [];
      landing = [];
      faulting = [];
      added = 0;
    })
idle-Owned p rest id counted quiet = record {
  same = record { places = λ x. refl; reads = λ i. refl; counted = counted };
  once = λ j. AtRest-lands p.pages j quiet;
}
