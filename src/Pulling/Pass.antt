-- ===== src/Pulling/Pass.antt =====
-- One pass of `PullAllPagesWithoutClose` over a segment with no page in flight.
use mathlib.Core.List.{append_assoc}
use rdma_migration_system.Prelude.{
  ℕ, suc, ◌+◌, ◌<◌, ◌≡◌, refl, sym, ◌∙◌, ap, inl, inr, arith, some, List, [], ◌∷◌, ◌++◌, true,
  false,
}
use rdma_migration_system.Prelude.Tests.{if◌then◌else◌, Bool-cases}
use rdma_migration_system.Prelude.Lists.{
  length, length-append, length-set, get_elem?, get_elem?-set_self, set, get_elem?-append_length,
  set-append_length,
}
use rdma_migration_system.Prelude.Results.{Result, ok}
use rdma_migration_system.Paging.{
  PageState, remote, in_flight, local, Pages, page_of, store, get_page_address_id, get_page_size_id,
}
use rdma_migration_system.Paging.Geometry.{Tiled, page_of_start}
use rdma_migration_system.Paging.Steps.{
  set_page_state_cas-at, set_page_state-at, page_of-with_states, Tiled-with_states,
}
use rdma_migration_system.Pulling.{
  Read, Answers, mark_page_local, pull_page, after_reads, pull_from, pull_all_pages_without_close,
}

-- No page is in flight.
abbrev pub AtRest : List PageState → Type 0
AtRest [] = Unit {0}
AtRest (in_flight ∷ ss) = ⊥
AtRest (_ ∷ ss) = AtRest ss

-- `mprotect` succeeds.
abbrev pub Granted : Answers → Type 0
Granted a = a.protected ≡ true

module _ (a : ℕ → Answers) where
  -- The states after a pass from page `id` on: a remote page is local unless its exchange failed.
  abbrev pub passed : ℕ → List PageState → List PageState
  passed id [] = []
  passed id (remote ∷ ss) = (if (a id).spurious then remote else local) ∷ passed (suc id) ss
  passed id (s ∷ ss) = s ∷ passed (suc id) ss

  -- The number of pages that the pass makes local.
  abbrev pub won : ℕ → List PageState → ℕ
  won id [] = 0
  won id (remote ∷ ss) = if (a id).spurious then won (suc id) ss else suc (won (suc id) ss)
  won id (s ∷ ss) = won (suc id) ss

abbrev pub page_read : Pages → ℕ → Read
page_read p id = record { addr = get_page_address_id p id; size = get_page_size_id p id }

-- What the pass reads: each page that it makes local, at its own address and length.
abbrev pub won_reads : (ℕ → Answers) → Pages → ℕ → List PageState → List Read
won_reads a p id [] = []
won_reads a p id (remote ∷ ss) =
    if (a id).spurious
    then won_reads a p (suc id) ss
    else page_read p id ∷ won_reads a p (suc id) ss
won_reads a p id (s ∷ ss) = won_reads a p (suc id) ss

-- A remote page is read once, at its own address and length, and is local afterwards.
pub pull_page-remote :
    (a : Answers) (p : Pages) (id : ℕ)
    → Tiled p
    → id < p.num_pages
    → a.spurious ≡ false
    → Granted a
    → get_elem? p.pages id ≡ some remote
    → pull_page a p id
      ≡ ok (
        record p {
          pages = set (set p.pages id in_flight) id local;
          local_pages = p.local_pages + 1;
        },
        page_read p id ∷ [],
      )
unfolding pull_page mark_page_local
pull_page-remote a p id t h strong granted e =
    let here = page_of_start p t id h in
    rw
      (
        set_page_state_cas-at p (get_page_address_id p id) id remote remote in_flight a.spurious
            here e,
        strong,
        granted,
        set_page_state-at q (get_page_address_id p id) id in_flight local again there,
      )
      refl
  where
    q : Pages
    q = store p id in_flight

    again : page_of q (get_page_address_id p id) ≡ id
    again = page_of-with_states p _ _ (get_page_address_id p id) ∙ page_of_start p t id h

    there : get_elem? (set p.pages id in_flight) id ≡ some in_flight
    there = get_elem?-set_self p.pages id in_flight (omega (arith, t.table))

pull_page-lost :
    (a : Answers) (p : Pages) (id : ℕ)
    → Tiled p
    → id < p.num_pages
    → a.spurious ≡ true
    → get_elem? p.pages id ≡ some remote
    → pull_page a p id ≡ ok (p, [])
unfolding pull_page
pull_page-lost a p id t h weak e =
    rw
      (
        set_page_state_cas-at p (get_page_address_id p id) id remote remote in_flight a.spurious
            (page_of_start p t id h) e,
        weak,
      )
      refl

won_reads-with_states :
    (a : ℕ → Answers) (p : Pages) (qs : List PageState) (k id : ℕ) (ss : List PageState)
    → won_reads a (record p { pages = qs; local_pages = k }) id ss ≡ won_reads a p id ss
unfolding get_page_address_id get_page_size_id
won_reads-with_states a p qs k id [] = refl
won_reads-with_states a p qs k id (remote ∷ ss) = rw (won_reads-with_states a p qs k (suc id) ss)
won_reads-with_states a p qs k id (in_flight ∷ ss) = won_reads-with_states a p qs k (suc id) ss
won_reads-with_states a p qs k id (local ∷ ss) = won_reads-with_states a p qs k (suc id) ss

-- The outcome of a pass from page `id` on, where `before` are the states of the pages below.
abbrev pub pass_result :
    (ℕ → Answers) → Pages → List PageState → ℕ → List PageState → Result (Pages × List Read)
pass_result a p before id ss = ok (
  record p { pages = before ++ passed a id ss; local_pages = p.local_pages + won a id ss },
  won_reads a p id ss,
)

module _ (a : ℕ → Answers) (p : Pages) (before : List PageState) (id : ℕ)
    (ss : List PageState) where
  regroup_kept :
      (s : PageState)
      → pass_result a p (before ++ (s ∷ [])) (suc id) ss
        ≡ ok (
          record p {
            pages = before ++ (s ∷ passed a (suc id) ss);
            local_pages = p.local_pages + won a (suc id) ss;
          },
          won_reads a p (suc id) ss,
        )
  regroup_kept s = ground (arith, append_assoc before (s ∷ []) (passed a (suc id) ss))

  regroup_won :
      (qs : List PageState)
      → (a id).spurious ≡ false
      → after_reads (page_read p id ∷ []) (
          pass_result a
            (record p { pages = qs; local_pages = p.local_pages + 1 })
            (before ++ (local ∷ []))
            (suc id)
            ss)
        ≡ pass_result a p before id (remote ∷ ss)
  regroup_won qs strong = ground (
    arith,
    append_assoc before (local ∷ []) (passed a (suc id) ss),
    won_reads-with_states a p qs (p.local_pages + 1) (suc id) ss,
  )

  regroup_lost :
      (a id).spurious ≡ true
      → after_reads [] (pass_result a p (before ++ (remote ∷ [])) (suc id) ss)
        ≡ pass_result a p before id (remote ∷ ss)
  regroup_lost weak = ground (arith, append_assoc before (remote ∷ []) (passed a (suc id) ss))

pull_from-result :
    (a : ℕ → Answers)
    → ((i : ℕ) → Granted (a i))
    → (ss before : List PageState) (p : Pages) (id : ℕ) → Tiled p
    → p.pages ≡ before ++ ss
    → id ≡ length before
    → AtRest ss
    → pull_from a p id ss ≡ pass_result a p before id ss
unfolding pull_from
pull_from-result a g [] before p id t e ei r = ground arith
pull_from-result a g (local ∷ ss) before p id t e ei r =
    pull_from-result a g ss (before ++ (local ∷ [])) p (suc id) t
      (e ∙ sym (append_assoc before (local ∷ []) ss))
      (omega (arith, length-append before (local ∷ []))) r
    ∙ regroup_kept a p before id ss local
pull_from-result a g (in_flight ∷ ss) before p id t e ei r = absurd r
pull_from-result a g (remote ∷ ss) before p id t e ei r = elim (Bool-cases (a id).spurious) [
  | inl weak ↦ rw (pull_page-lost (a id) p id t inside weak found) (
      ap (after_reads []) (
        pull_from-result a g ss (before ++ (remote ∷ [])) p (suc id) t
          (e ∙ sym (append_assoc before (remote ∷ []) ss))
          (omega (arith, length-append before (remote ∷ []))) r)
      ∙ regroup_lost a p before id ss weak)
  | inr strong ↦ rw (pull_page-remote (a id) p id t inside strong (g id) found) (
      ap (after_reads (page_read p id ∷ [])) (
        pull_from-result a g ss (before ++ (local ∷ [])) q (suc id)
          (Tiled-with_states p q.pages q.local_pages sizes t) done
          (omega (arith, length-append before (local ∷ []))) r)
      ∙ regroup_won a p before id ss q.pages strong)
]
  where
    q : Pages
    q = record p {
      pages = set (set p.pages id in_flight) id local;
      local_pages = p.local_pages + 1;
    }

    done : q.pages ≡ (before ++ (local ∷ [])) ++ ss
    done =
        rw
          (
            e,
            ei,
            set-append_length before remote in_flight ss,
            set-append_length before in_flight local ss,
          )
          (sym (append_assoc before (local ∷ []) ss))

    sizes : length q.pages ≡ p.num_pages
    sizes = omega (
      arith,
      t.table,
      length-set p.pages id in_flight,
      length-set (set p.pages id in_flight) id local,
    )

    inside : id < p.num_pages
    inside = omega (arith, t.table, ap length e, length-append before (remote ∷ ss))

    found : get_elem? p.pages id ≡ some remote
    found = rw (e, ei) (get_elem?-append_length before remote ss)

-- Where no page is in flight and every `mprotect` succeeds, a pass returns normally, makes local
-- just the remote pages whose exchange does not fail, counts each of them once, and reads just
-- those, each at its own address and length, in the order of the pages. The pages tile the segment,
-- as the constructor leaves them and `SetPageSize` to another size does not: the page size is
-- positive; the number of pages is the quotient of the size by it, rounded up, and the length of
-- the table, and fits an `int`; the end is the start plus the size, and no address up to a page
-- behind it wraps.
pub pull_all_pages_without_close-result :
    (a : ℕ → Answers) (p : Pages)
    → ((i : ℕ) → Granted (a i))
    → Tiled p
    → AtRest p.pages
    → pull_all_pages_without_close a p
      ≡ ok (
        record p { pages = passed a 0 p.pages; local_pages = p.local_pages + won a 0 p.pages },
        won_reads a p 0 p.pages,
      )
unfolding pull_all_pages_without_close
pull_all_pages_without_close-result a p g t r = pull_from-result a g p.pages [] p 0 t refl refl r
