-- ===== src/Pulling/Repeat.antt =====
-- `PullAllPages` of src/distributed-allocator/RDMAMemory.tpp: the repeated passes.
use mathlib.Core.Option
use rdma_migration_system.Prelude.{
  ℕ, zero, suc, ◌+◌, ◌≤◌, ◌<◌, ◌≡◌, refl, ◌∙◌, ap, arith, inl, inr, Option, some, List, [], ◌∷◌,
  ◌++◌, true, false,
}
use rdma_migration_system.Prelude.Tests.{Bool-cases, ltb}
use rdma_migration_system.Prelude.Lists.{length, replicate, get_elem?}
use rdma_migration_system.Prelude.Results.{Result, ok}
use rdma_migration_system.Prelude.Word.{as_int}
use rdma_migration_system.Paging.{page_count, PageState, remote, in_flight, local, Pages, new_pages}
use rdma_migration_system.Paging.Geometry.{Tiled, Fits, new_pages-Tiled}
use rdma_migration_system.Paging.Steps.{Tiled-with_states}
use rdma_migration_system.Paging.Counting.{Counted, new_pages-Counted, count_local, count_local-le}
use rdma_migration_system.Pulling.{Read, Answers, after_reads, pull_all_pages}
use rdma_migration_system.Pulling.Pass.{
  AtRest, Granted, passed, won, won_reads, pull_all_pages_without_close-result,
}

-- No exchange of the pass fails for no reason.
abbrev pub Strong : (ℕ → Answers) → Type 0
Strong a = (i : ℕ) → (a i).spurious ≡ false

module _ (a : ℕ → Answers) where
  AtRest-passed : (id : ℕ) (ss : List PageState) → AtRest ss → AtRest (passed a id ss)
  AtRest-passed id [] r = tt
  AtRest-passed id (remote ∷ ss) r = ground (arith, AtRest-passed (suc id) ss r)
  AtRest-passed id (in_flight ∷ ss) r = absurd r
  AtRest-passed id (local ∷ ss) r = AtRest-passed (suc id) ss r

  length-passed : (id : ℕ) (ss : List PageState) → length (passed a id ss) ≡ length ss
  length-passed id [] = refl
  length-passed id (remote ∷ ss) = ap suc (length-passed (suc id) ss)
  length-passed id (in_flight ∷ ss) = ap suc (length-passed (suc id) ss)
  length-passed id (local ∷ ss) = ap suc (length-passed (suc id) ss)

  count_local-passed :
      (id : ℕ) (ss : List PageState) → count_local (passed a id ss) ≡ count_local ss + won a id ss
  unfolding count_local
  count_local-passed id [] = refl
  count_local-passed id (remote ∷ ss) = ground (arith, count_local-passed (suc id) ss)
  count_local-passed id (in_flight ∷ ss) = omega (arith, count_local-passed (suc id) ss)
  count_local-passed id (local ∷ ss) = omega (arith, count_local-passed (suc id) ss)

  -- A pass in which no exchange fails leaves no page behind.
  won-Strong :
      Strong a
      → (id : ℕ) (ss : List PageState) → AtRest ss
      → count_local ss + won a id ss ≡ length ss
  unfolding count_local
  won-Strong g id [] r = refl
  won-Strong g id (remote ∷ ss) r = ground (arith, g id, won-Strong g (suc id) ss r)
  won-Strong g id (in_flight ∷ ss) r = absurd r
  won-Strong g id (local ∷ ss) r = omega (arith, won-Strong g (suc id) ss r)

all_counted :
    (ss : List PageState) (i : ℕ)
    → count_local ss ≡ length ss
    → i < length ss
    → get_elem? ss i ≡ some local
unfolding count_local
all_counted [] i e h = elim h [ ]
all_counted (remote ∷ ss) i e h = absurd (omega (arith, count_local-le ss))
all_counted (in_flight ∷ ss) i e h = absurd (omega (arith, count_local-le ss))
all_counted (local ∷ ss) zero e h = refl
all_counted (local ∷ ss) (suc i) e h = all_counted ss i (omega arith) (omega arith)

-- A table between two passes.
pub record Ready (p : Pages) : Type 0 where
  pub tiled : Tiled p
  pub rest : AtRest p.pages
  pub counted : Counted p

abbrev after_pass : (ℕ → Answers) → Pages → Pages
after_pass a p = record p {
  pages = passed a 0 p.pages;
  local_pages = p.local_pages + won a 0 p.pages;
}

after_pass-Ready : (a : ℕ → Answers) (p : Pages) → Ready p → Ready (after_pass a p)
after_pass-Ready a p v = record {
  tiled = Tiled-with_states p _ _ (length-passed a 0 p.pages ∙ v.tiled.table) v.tiled;
  rest = AtRest-passed a 0 p.pages v.rest;
  counted = record { exact = omega (arith, count_local-passed a 0 p.pages, v.counted.exact) };
}

-- Every page is local, the counter says so, and nothing else has changed.
pub record Complete (p q : Pages) : Type 0 where
  pub everywhere : (id : ℕ) → id < p.num_pages → get_elem? q.pages id ≡ some local
  pub counter : q.local_pages ≡ p.num_pages
  pub others : q ≡ record p { pages = q.pages; local_pages = q.local_pages }

abbrev pub Completes : Pages → Option (Result (Pages × List Read)) → Type 0
Completes p o = (q : Pages) × (reads : List Read) × (o ≡ some (ok (q, reads))) × Complete p q

Complete-of_counter :
    (p q : Pages)
    → Ready q
    → q ≡ record p { pages = q.pages; local_pages = q.local_pages }
    → q.num_pages ≡ p.num_pages
    → p.num_pages ≤ q.local_pages
    → Complete p q
Complete-of_counter p q v e n h =
    let all : count_local q.pages ≡ length q.pages =
      omega (arith, v.counted.exact, v.tiled.table, count_local-le q.pages) in
    record {
      everywhere = λ id lt. all_counted q.pages id all (omega (arith, v.tiled.table));
      counter = omega (arith, v.counted.exact, v.tiled.table);
      others = e;
    }

Completes-after_reads :
    (p q : Pages) (reads : List Read) (o : Option (Result (Pages × List Read)))
    → q ≡ record p { pages = q.pages; local_pages = q.local_pages }
    → q.num_pages ≡ p.num_pages
    → Completes q o
    → Completes p (Option.map (after_reads reads) o)
Completes-after_reads p q reads o e n (r, others, eo, c) = (
  r,
  reads ++ others,
  rw eo refl,
  record {
    everywhere = λ id lt. c.everywhere id (omega arith);
    counter = omega (arith, c.counter);
    others =
        c.others ∙ ap (λ (t : Pages). record t { pages = r.pages; local_pages = r.local_pages }) e;
  },
)

-- On a segment with no page in flight and an exact counter, where every `mprotect` succeeds, the
-- loop ends within `fuel` passes if in one of these passes no exchange fails; every page is local
-- then, and the counter is the number of pages. The pages tile the segment, as the constructor
-- leaves them and `SetPageSize` to another size does not: the page size is positive; the number of
-- pages is the quotient of the size by it, rounded up, and the length of the table, and fits an
-- `int`; the end is the start plus the size, and no address up to a page behind it wraps.
pub pull_all_pages-Completes :
    (fuel pass j : ℕ) (a : ℕ → ℕ → Answers) (p : Pages)
    → Ready p
    → ((k i : ℕ) → Granted (a k i))
    → pass ≤ j
    → j < pass + fuel
    → Strong (a j)
    → Completes p (pull_all_pages fuel pass a p)
unfolding pull_all_pages
pull_all_pages-Completes zero pass j a p v g lo hi s = absurd (omega arith)
pull_all_pages-Completes (suc fuel) pass j a p v g lo hi s =
    rw (pull_all_pages_without_close-result (a pass) p (g pass) v.tiled v.rest, pull_all_pages)
      (elim (Bool-cases (ltb q.local_pages p.num_pages)) [
        | inl more ↦ rw more (
            Completes-after_reads p q (won_reads (a pass) p 0 p.pages) _ refl refl
              (pull_all_pages-Completes fuel (suc pass) j a q ready g (later more) (omega arith) s))
        | inr done ↦ rw done (
          q,
          won_reads (a pass) p 0 p.pages,
          refl,
          Complete-of_counter p q ready refl refl (ground arith),
        )
      ])
  where
    q : Pages
    q = after_pass (a pass) p

    ready : Ready q
    ready = after_pass-Ready (a pass) p v

    strong : pass ≡ j → q.local_pages ≡ p.num_pages
    strong e =
        omega (arith, won-Strong (a pass) (rw e s) 0 p.pages v.rest, v.counted.exact, v.tiled.table)

    later : ltb q.local_pages p.num_pages ≡ true → suc pass ≤ j
    later more = ground (arith, strong)

AtRest-replicate : (n : ℕ) → AtRest (replicate n remote)
AtRest-replicate zero = tt
AtRest-replicate (suc n) = AtRest-replicate n

pub new_pages-Ready : (start m s : ℕ) → Fits start m s → Ready (new_pages start m s)
unfolding new_pages
new_pages-Ready start m s f = record {
  tiled = new_pages-Tiled start m s f;
  rest = AtRest-replicate (as_int (page_count m s));
  counted = new_pages-Counted start m s;
}
