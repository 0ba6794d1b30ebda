-- ===== src/Paging/Counting.antt =====
-- `local_pages` against the number of pages that are local.
use rdma_migration_system.Prelude.{
  ◌⊎◌, ℕ, zero, suc, ◌+◌, ◌≤◌, ◌≡◌, refl, arith, List, [], ◌∷◌, some, Bool, true, false, sym, inl,
  inr,
}
use rdma_migration_system.Prelude.Tests.{if◌then◌else◌, Option-cases}
use rdma_migration_system.Prelude.Results.{ok}
use rdma_migration_system.Prelude.Lists.{get_elem?, set, length, replicate}
use rdma_migration_system.Paging.{
  PageState, remote, local, same_state, Pages, store, page_of, new_pages, set_page_state,
  set_page_state_cas,
}

abbrev pub is_local : PageState → ℕ
is_local s = if same_state s local then 1 else 0

unfoldable pub count_local : List PageState → ℕ
count_local [] = 0
count_local (s ∷ ss) = is_local s + count_local ss

pub count_local-set :
    (ss : List PageState) (i : ℕ) (old new : PageState)
    → get_elem? ss i ≡ some old
    → count_local (set ss i new) + is_local old ≡ count_local ss + is_local new
unfolding count_local
count_local-set [] i old new h = ground arith
count_local-set (s ∷ ss) zero old new h = ground arith
count_local-set (s ∷ ss) (suc i) old new h = ground (arith, count_local-set ss i old new h)

pub count_local-replicate : (n : ℕ) → count_local (replicate n remote) ≡ 0
unfolding count_local
count_local-replicate zero = refl
count_local-replicate (suc n) = omega (arith, count_local-replicate n)

pub count_local-le : (ss : List PageState) → count_local ss ≤ length ss
unfolding count_local
count_local-le [] = omega arith
count_local-le (s ∷ ss) = ground (arith, count_local-le ss)

-- As many local pages as the counter says.
pub record Counted (p : Pages) : Type 0 where
  pub exact : p.local_pages ≡ count_local p.pages

pub new_pages-Counted : (start m s : ℕ) → Counted (new_pages start m s)
unfolding new_pages
new_pages-Counted start m s = record { exact = sym (count_local-replicate _) }

store-Counted :
    (p : Pages) (i : ℕ) (old new : PageState)
    → get_elem? p.pages i ≡ some old
    → same_state old local ≡ false
    → Counted p
    → Counted (store p i new)
store-Counted p i old new e h c = ground (arith, count_local-set p.pages i old new)

same_state_eq : (a b : PageState) → same_state a b ≡ true → a ≡ b
same_state_eq a b h = ground arith

-- An exchange that expects a state other than `local` keeps the counter exact, whether it
-- succeeds or fails. It succeeds only on a page in the expected state, and else changes nothing.
set_page_state_cas-Counted :
    (p q : Pages) (address : ℕ) (old new : PageState) (spurious swapped : Bool)
    → Counted p
    → same_state old local ≡ false
    → set_page_state_cas p address old new spurious ≡ ok (q, swapped)
    → Counted q
      × (((swapped ≡ true) × (get_elem? p.pages (page_of p address) ≡ some old))
          ⊎ ((swapped ≡ false) × (q ≡ p)))
unfolding set_page_state_cas
set_page_state_cas-Counted p q address old new spurious swapped c h e =
    elim (Option-cases (get_elem? p.pages i)) [
      | inl missing ↦ ground arith
      | inr (current, found) ↦
          ground (arith, same_state_eq current old, count_local-set p.pages i current new)
    ]
  where
    i : ℕ
    i = page_of p address

-- Setting a page that is not yet local keeps the counter exact.
pub set_page_state-Counted :
    (p q : Pages) (address : ℕ) (old new : PageState)
    → Counted p
    → get_elem? p.pages (page_of p address) ≡ some old
    → same_state old local ≡ false
    → set_page_state p address new ≡ ok q
    → Counted q
unfolding set_page_state
set_page_state-Counted p q address old new c found h e =
    ground (arith, count_local-set p.pages (page_of p address) old new)

-- Setting a local page to `local` once more counts it twice.
pub set_page_state_overcounts :
    (p q : Pages) (address : ℕ)
    → Counted p
    → get_elem? p.pages (page_of p address) ≡ some local
    → set_page_state p address local ≡ ok q
    → q.local_pages ≡ count_local q.pages + 1
unfolding set_page_state
set_page_state_overcounts p q address c found e =
    ground (arith, count_local-set p.pages (page_of p address) local local)
