-- ===== src/Pulling/Fault.antt =====
-- The page-fault handler: which page a fault address is in, and what the handler pulls.
use Prim.Native.Nat.{bit_and}
use native.Mathlib.Nat.{mul-add-div, div-eq_of_lt}
use rdma_migration_system.Prelude.{
  ◌≢◌, ◌⊎◌, ℕ, ◌+◌, ◌-◌, ◌*◌, ◌/◌, ◌^◌, ◌≤◌, ◌<◌, ◌≡◌, refl, ◌∙◌, ap, arith, some, [], ◌∷◌, true,
  false,
}
use rdma_migration_system.Prelude.Word.{sub64, not64}
use rdma_migration_system.Prelude.Lists.{get_elem?, get_elem?-set_self, set}
use rdma_migration_system.Prelude.Results.{ok}
use rdma_migration_system.Paging.{
  PageState, remote, in_flight, local, Pages, store, page_of, get_page_address, get_page_address_id,
  get_page_size_id, get_page_size,
}
use rdma_migration_system.Paging.Mask.{bit_and-page}
use rdma_migration_system.Paging.Geometry.{
  Tiled, pages_tile, page_start, page_of_start, size_bounds,
}
use rdma_migration_system.Paging.Steps.{
  set_page_state_cas-at, set_page_state-at, page_of-with_states,
}
use rdma_migration_system.Pulling.{Answers, sigsegv_advance}
use rdma_migration_system.Pulling.Pass.{page_read}

-- Pages of `2 ^ k` bytes, in a segment that starts at a multiple of them.
pub record Aligned (k : ℕ) (p : Pages) : Type 0 where
  pub power : p.page_size ≡ 2 ^ k
  pub narrow : k ≤ 63
  pub first : ℕ
  pub start : p.start_address ≡ 2 ^ k * first

-- The mask of `getPageAddress(void*)` takes every address in page `id` to the start of the page,
-- where the page size is a power of two and the segment starts at a multiple of it. The pages tile
-- the segment, as the constructor leaves them and `SetPageSize` to another size does not: the page
-- size is positive; the number of pages is the quotient of the size by it, rounded up, and the
-- length of the table, and fits an `int`; the end is the start plus the size, and no address up to
-- a page behind it wraps.
pub get_page_address-inside :
    (p : Pages) (k id off : ℕ)
    → Tiled p
    → Aligned k p
    → id < p.num_pages
    → off < get_page_size_id p id
    → get_page_address p (get_page_address_id p id + off) ≡ get_page_address_id p id
unfolding get_page_address
get_page_address-inside p k id off t a h ho =
    ap (bit_and x) mask ∙ bit_and-page k x a.narrow small ∙ ap (λ (c : ℕ). c * d) quotient ∙ there
  where
    d : ℕ
    d = 2 ^ k

    x : ℕ
    x = get_page_address_id p id + off

    sized : p.page_size * id ≡ d * id
    sized = ap (λ (c : ℕ). c * id) a.power

    where_is : x ≡ d * (a.first + id) + off
    where_is = omega (arith, page_start p t id h, a.start, sized)

    within : (off < d) × (x < p.start_address + p.memory_size)
    within = omega (arith, size_bounds p t id h, a.power, page_start p t id h)

    small : x < 2 ^ 64
    small = omega (arith, within, t.no_wrap)

    mask : not64 (sub64 p.page_size 1) ≡ 2 ^ 64 - d
    mask = omega (arith, a.power, t.some_page, t.no_wrap)

    quotient : x / d ≡ a.first + id
    quotient =
        ap (λ (c : ℕ). c / d) where_is
        ∙ mul-add-div (omega (arith, a.power, t.some_page)) (a.first + id) off
        ∙ omega (arith, div-eq_of_lt {n = off} {m = d} within.0)

    there : (a.first + id) * d ≡ get_page_address_id p id
    there = omega (arith, page_start p t id h, a.start, sized)

-- The length that the handler computes is the page's own where the page is whole.
get_page_size-whole :
    (p : Pages) (id : ℕ)
    → Tiled p
    → id < p.num_pages
    → get_page_size_id p id ≡ p.page_size
    → get_page_size p (get_page_address_id p id) ≡ p.page_size
unfolding get_page_size
get_page_size-whole p id t h e =
    ground (arith, page_start p t id h, size_bounds p t id h, t.ending, t.no_wrap)

-- On a last page that is not whole, `getPageSize(void*)` gives what the page lacks and not what it
-- holds: with the length of the page it makes up a page size. The pages tile the segment, as the
-- constructor leaves them and `SetPageSize` to another size does not: the page size is positive;
-- the number of pages is the quotient of the size by it, rounded up, and the length of the table,
-- and fits an `int`; the end is the start plus the size, and no address up to a page behind it
-- wraps.
pub get_page_size-partial :
    (p : Pages) (id : ℕ)
    → Tiled p
    → id + 1 ≡ p.num_pages
    → get_page_size_id p id < p.page_size
    → get_page_size p (get_page_address_id p id) + get_page_size_id p id ≡ p.page_size
unfolding get_page_size
get_page_size-partial p id t h e =
    ground (arith, page_start p t id, pages_tile p t id, size_bounds p t id, t.ending, t.no_wrap)

-- A fault at any address of a whole remote page, where the exchange, the read and `mprotect`
-- succeed, reads that page, once, at its own address and length, and makes it and no other page
-- local. The page size is a power of two and the segment starts at a multiple of it. The pages tile
-- the segment, as the constructor leaves them and `SetPageSize` to another size does not: the page
-- size is positive; the number of pages is the quotient of the size by it, rounded up, and the
-- length of the table, and fits an `int`; the end is the start plus the size, and no address up to
-- a page behind it wraps.
pub sigsegv_advance-remote :
    (a : Answers) (p : Pages) (k id off : ℕ)
    → Tiled p
    → Aligned k p
    → id < p.num_pages
    → off < get_page_size_id p id
    → get_page_size_id p id ≡ p.page_size
    → get_elem? p.pages id ≡ some remote
    → a.spurious ≡ false
    → a.protected ≡ true
    → a.pulled ≡ true
    → sigsegv_advance a p (get_page_address_id p id + off)
      ≡ ok (
        record p {
          pages = set (set p.pages id in_flight) id local;
          local_pages = p.local_pages + 1;
        },
        page_read p id ∷ [],
      )
unfolding sigsegv_advance
sigsegv_advance-remote a p k id off t al h ho whole e strong granted pulled =
    rw
      (
        get_page_address-inside p k id off t al h ho,
        get_page_size-whole p id t h whole,
        set_page_state_cas-at p (get_page_address_id p id) id remote remote in_flight a.spurious
            here e,
        strong,
        granted,
        pulled,
        set_page_state-at q (get_page_address_id p id) id in_flight local again there,
        whole,
      )
      refl
  where
    here : page_of p (get_page_address_id p id) ≡ id
    here = page_of_start p t id h

    q : Pages
    q = store p id in_flight

    again : page_of q (get_page_address_id p id) ≡ id
    again = page_of-with_states p _ _ (get_page_address_id p id) ∙ here

    there : get_elem? (set p.pages id in_flight) id ≡ some in_flight
    there = get_elem?-set_self p.pages id in_flight (omega (arith, t.table))

-- A fault at a page that is in flight or local already, or whose exchange fails, reads nothing and
-- changes nothing.
pub sigsegv_advance-other :
    (a : Answers) (p : Pages) (k id off : ℕ) (current : PageState)
    → Tiled p
    → Aligned k p
    → id < p.num_pages
    → off < get_page_size_id p id
    → get_elem? p.pages id ≡ some current
    → (current ≢ remote) ⊎ (a.spurious ≡ true)
    → sigsegv_advance a p (get_page_address_id p id + off) ≡ ok (p, [])
unfolding sigsegv_advance
sigsegv_advance-other a p k id off current t al h ho e why =
    rw
      (
        get_page_address-inside p k id off t al h ho,
        set_page_state_cas-at p (get_page_address_id p id) id current remote in_flight a.spurious
            (page_of_start p t id h) e,
      )
      (ground arith)
