-- ===== src/Paging/Steps.antt =====
-- The operations on addresses, at an address whose page is known.
use rdma_migration_system.Prelude.{ℕ, ◌≡◌, refl, List, some, Bool, true, false, ◌&&◌, not}
use rdma_migration_system.Prelude.Tests.{if◌then◌else◌}
use rdma_migration_system.Prelude.Lists.{length, get_elem?}
use rdma_migration_system.Prelude.Results.{ok}
use rdma_migration_system.Paging.{
  PageState, same_state, Pages, store, page_of, set_page_state, set_page_state_cas,
  get_page_address_id, get_page_size_id,
}
use rdma_migration_system.Paging.Geometry.{Tiled}

pub set_page_state_cas-at :
    (p : Pages) (address id : ℕ) (current old new : PageState) (spurious : Bool)
    → page_of p address ≡ id
    → get_elem? p.pages id ≡ some current
    → set_page_state_cas p address old new spurious ≡ (
        if same_state current old && not spurious then ok (store p id new, true) else ok (p, false))
unfolding set_page_state_cas
set_page_state_cas-at p address id current old new spurious here e =
    rw (here, e, set_page_state_cas)

pub set_page_state-at :
    (p : Pages) (address id : ℕ) (current new : PageState)
    → page_of p address ≡ id
    → get_elem? p.pages id ≡ some current
    → set_page_state p address new ≡ ok (store p id new)
unfolding set_page_state
set_page_state-at p address id current new here e = rw (here, e, set_page_state)

-- The states and the counter do not move the pages.
module _ (p : Pages) (ss : List PageState) (k : ℕ) where
  abbrev pub with_states : Pages
  with_states = record p { pages = ss; local_pages = k }

  pub page_of-with_states : (address : ℕ) → page_of with_states address ≡ page_of p address
  unfolding page_of
  page_of-with_states address = refl

  pub get_page_address_id-with_states :
      (id : ℕ) → get_page_address_id with_states id ≡ get_page_address_id p id
  unfolding get_page_address_id
  get_page_address_id-with_states id = refl

  pub get_page_size_id-with_states :
      (id : ℕ) → get_page_size_id with_states id ≡ get_page_size_id p id
  unfolding get_page_size_id
  get_page_size_id-with_states id = refl

  pub Tiled-with_states : length ss ≡ p.num_pages → Tiled p → Tiled with_states
  Tiled-with_states e t = record {
    some_page = t.some_page;
    no_wrap = t.no_wrap;
    few = t.few;
    reaches = t.reaches;
    table = e;
    ending = t.ending;
  }
