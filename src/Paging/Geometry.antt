-- ===== src/Paging/Geometry.antt =====
-- src/paging/paging.tpp: where the pages of a segment lie, and the page
-- number of an address.
use native.Mathlib.Nat.{mod-lt, div-add-mod, div-eq_of_lt, mul-add-div}
use mathlib.Core.Bool.{false≢true}
use native.Mathlib.Decide.{dec_lt}
use rdma_migration_system.Prelude.{
  sym, ◌∙◌, ◌≢◌, ℕ, ◌+◌, ◌-◌, ◌*◌, ◌/◌, ◌%◌, ◌≤◌, ◌<◌, ◌≡◌, ap, arith, inl, inr,
}
use rdma_migration_system.Prelude.Tests.{ltb, ◌==◌, if◌then◌else◌, Bool-cases, ==_iff}
use rdma_migration_system.Prelude.Word.{
  word_mod, int_max, sub64, mul64, as_int, as_int_small, mul64_small,
}
use rdma_migration_system.Prelude.Lists.{length, length-replicate}
use rdma_migration_system.Paging.{
  Pages, page_count, new_pages, get_page_address_id, get_page_size_id, page_of,
}

-- A segment that fits the address space, cut into fewer than 2 ^ 31 pages.
pub record Fits (start_address memory_size page_size : ℕ) : Type 0 where
  pub some_page : 0 < page_size
  pub some_memory : 0 < memory_size
  pub no_wrap : start_address + memory_size + page_size < word_mod
  pub few : page_count memory_size page_size < int_max

abbrev pub Reaches : ℕ → ℕ → ℕ → Type 0
Reaches m s n = (0 < n) × (s * (n - 1) < m) × (m ≤ s * n) × (s * n < m + s)

-- That many pages reach just as far as the memory does.
pub page_count-Reaches : (m s : ℕ) → 0 < s → 0 < m → Reaches m s (page_count m s)
page_count-Reaches m s hs hm = elim (Bool-cases (m % s == 0)) [
  | inl e ↦ rw e (exact ((==_iff _ _).0 e))
  | inr e ↦ rw e (above (λ z. false≢true (sym e ∙ (==_iff _ _).1 z)))
]
  where
    exact : m % s ≡ 0 → Reaches m s (m / s)
    exact z = grind (arith, div-add-mod m s)

    above : m % s ≢ 0 → Reaches m s (m / s + 1)
    above z = grind (arith, div-add-mod m s, mod-lt m hs)

-- A page table whose fields agree.
pub record Tiled (p : Pages) : Type 0 where
  pub some_page : 0 < p.page_size
  pub no_wrap : p.start_address + p.memory_size + p.page_size < word_mod
  pub few : p.num_pages < int_max
  pub reaches : Reaches p.memory_size p.page_size p.num_pages
  pub table : length p.pages ≡ p.num_pages
  pub ending : p.end_address ≡ p.start_address + p.memory_size

pub new_pages-Tiled : (start m s : ℕ) → Fits start m s → Tiled (new_pages start m s)
unfolding new_pages
new_pages-Tiled start m s f =
    let small = as_int_small (page_count m s) f.few in
    record {
      some_page = f.some_page;
      no_wrap = f.no_wrap;
      few = rw small f.few;
      reaches = rw small (page_count-Reaches m s f.some_page f.some_memory);
      table = length-replicate _ _;
      ending = omega (arith, f.no_wrap);
    }

multiple_above : (s q n m : ℕ) → s * q ≡ m → s * (n - 1) < m → m ≤ s * n → m ≡ s * n
multiple_above s q n m e lo hi = elim (dec_lt q n) [
  | yes below ↦ grind arith
  | no above ↦ grind arith
]

-- The last page holds what the others leave.
pub last_page_size :
    (p : Pages)
    → Tiled p
    → (id : ℕ) → id + 1 ≡ p.num_pages
    → get_page_size_id p id ≡ p.memory_size - p.page_size * id
unfolding get_page_size_id
last_page_size p t id e = ground (
  arith,
  ap (λ (k : ℕ). mul64 s k) one_less,
  mul64_small s id (omega (arith, bound, t.no_wrap)),
  bound,
  whole,
)
  where
    open p use {page_size as s, memory_size as m, num_pages as n}

    one_less : sub64 n 1 ≡ id
    one_less = omega (arith, t.few)

    back : n - 1 ≡ id
    back = omega arith

    bound : s * id < m
    bound = rw (← back) t.reaches.1

    whole : m % s ≡ 0 → s ≡ m - s * id
    whole z = omega (
      arith,
      multiple_above s (m / s) n m (omega (arith, div-add-mod m s)) t.reaches.1 t.reaches.2,
      ap (λ (k : ℕ). s * k) e,
    )

starts_inside :
    (p : Pages) → Tiled p → (id : ℕ) → id < p.num_pages → p.page_size * id < p.memory_size
starts_inside p t id h = grind (arith, t.reaches.1)

pub page_start :
    (p : Pages)
    → Tiled p
    → (id : ℕ) → id < p.num_pages
    → get_page_address_id p id ≡ p.start_address + p.page_size * id
unfolding get_page_address_id
page_start p t id h = omega (arith, starts_inside p t id h, t.no_wrap)

inner_page_size : (p : Pages) (id : ℕ) → id + 1 < p.num_pages → get_page_size_id p id ≡ p.page_size
unfolding get_page_size_id
inner_page_size p id h = ground arith

-- The length of a page in one formula.
page_size_cases :
    (p : Pages)
    → Tiled p
    → (id : ℕ) → id < p.num_pages
    → (get_page_size_id p id
        ≡ (if ltb (id + 1) p.num_pages then p.page_size else p.memory_size - p.page_size * id))
page_size_cases p t id h = ground (arith, inner_page_size p id, last_page_size p t id)

-- Page `id` starts `id` page sizes after the segment, is not empty, and ends where the next page
-- starts, the last one where the segment ends. The pages tile the segment, as the constructor
-- leaves them and `SetPageSize` to another size does not: the page size is positive; the number of
-- pages is the quotient of the size by it, rounded up, and the length of the table, and fits an
-- `int`; the end is the start plus the size, and no address up to a page behind it wraps.
pub pages_tile :
    (p : Pages)
    → Tiled p
    → (id : ℕ) → id < p.num_pages
    → (get_page_address_id p id ≡ p.start_address + p.page_size * id)
      × (0 < get_page_size_id p id)
      × (get_page_address_id p id + get_page_size_id p id
          ≡ (if ltb (id + 1) p.num_pages then get_page_address_id p (id + 1) else p.end_address))
pages_tile p t id h = ground (
  arith,
  page_start p t id h,
  page_start p t (id + 1),
  page_size_cases p t id h,
  starts_inside p t id h,
  t.some_page,
  t.ending,
)

-- No page is longer than a page size, or reaches past the segment.
pub size_bounds :
    (p : Pages)
    → Tiled p
    → (id : ℕ) → id < p.num_pages
    → (get_page_size_id p id ≤ p.page_size)
      × (p.page_size * id + get_page_size_id p id ≤ p.memory_size)
size_bounds p t id h = elim (dec_lt (id + 1) p.num_pages) [
  | yes inner ↦ ground (arith, page_size_cases p t id h, starts_inside p t (id + 1) inner)
  | no last ↦ ground (
    arith,
    page_size_cases p t id h,
    starts_inside p t id h,
    t.reaches.2,
    ap (λ (k : ℕ). p.page_size * k) (ends last),
  )
]
  where
    ends : ¬ (id + 1 < p.num_pages) → p.num_pages ≡ id + 1
    ends last = omega arith

-- The page number of every address in page `id` is `id`. The pages tile the segment, as the
-- constructor leaves them and `SetPageSize` to another size does not: the page size is positive;
-- the number of pages is the quotient of the size by it, rounded up, and the length of the table,
-- and fits an `int`; the end is the start plus the size, and no address up to a page behind it
-- wraps.
pub page_of_inside :
    (p : Pages)
    → Tiled p
    → (id off : ℕ) → id < p.num_pages
    → off < get_page_size_id p id
    → page_of p (get_page_address_id p id + off) ≡ id
unfolding page_of
page_of_inside p t id off h ho = ap as_int quotient ∙ as_int_small id (omega (arith, t.few))
  where
    open p use {page_size as s, start_address as start}

    offset : sub64 (get_page_address_id p id + off) start ≡ s * id + off
    offset = omega (arith, page_start p t id h, size_bounds p t id h, t.no_wrap)

    quotient : sub64 (get_page_address_id p id + off) start / s ≡ id
    quotient =
        ap (λ (k : ℕ). k / s) offset
        ∙ mul-add-div t.some_page id off
        ∙ omega (arith, div-eq_of_lt {n = off} {m = s} (omega (arith, size_bounds p t id h)))

pub page_of_start :
    (p : Pages) → Tiled p → (id : ℕ) → id < p.num_pages → page_of p (get_page_address_id p id) ≡ id
page_of_start p t id h =
    ap (page_of p) (omega arith) ∙ page_of_inside p t id 0 h (pages_tile p t id h).1
