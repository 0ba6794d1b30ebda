-- ===== src/Paging/Examples.antt =====
-- The page table at a segment of 10000 bytes in pages of 4096: three pages, the last of 1808 bytes.
use rdma_migration_system.Prelude.{◌+◌, ◌≡◌, refl, arith, [], ◌∷◌, ◌<◌}
use rdma_migration_system.Paging.{
  remote, local, Pages, new_pages, get_page_address_id, get_page_size_id, page_of, set_page_state,
}
use rdma_migration_system.Paging.Geometry.{Tiled, new_pages-Tiled, pages_tile, page_of_inside}
use rdma_migration_system.Paging.Counting.{Counted, count_local, set_page_state-Counted}

abbrev three_pages : Pages
three_pages = record {
  pages = remote ∷ remote ∷ local ∷ [];
  local_pages = 1;
  num_pages = 3;
  start_address = 0x1000;
  end_address = 14096;
  memory_size = 10000;
  page_size = 4096;
}

new_pages_runs :
    new_pages 0x1000 10000 4096
    ≡ record three_pages { pages = remote ∷ remote ∷ remote ∷ []; local_pages = 0 }
unfolding new_pages
new_pages_runs = refl

three_pages-Tiled : Tiled three_pages
three_pages-Tiled = omega arith

three_pages-Counted : Counted three_pages
unfolding count_local
three_pages-Counted = record { exact = refl }

new_pages-Tiled_example : Tiled (new_pages 0x1000 10000 4096)
new_pages-Tiled_example = new_pages-Tiled 0x1000 10000 4096 (omega arith)

pages_tile_example :
    (get_page_address_id three_pages 2 ≡ 0x1000 + 8192)
    × (0 < get_page_size_id three_pages 2)
    × (get_page_address_id three_pages 2 + get_page_size_id three_pages 2 ≡ 14096)
pages_tile_example = pages_tile three_pages three_pages-Tiled 2 (omega arith)

page_of_inside_example : page_of three_pages (get_page_address_id three_pages 2 + 1807) ≡ 2
unfolding get_page_size_id
page_of_inside_example =
    page_of_inside three_pages three_pages-Tiled 2 1807 (omega arith) (omega arith)

set_page_state-Counted_example :
    Counted (record three_pages { pages = remote ∷ local ∷ local ∷ []; local_pages = 2 })
unfolding set_page_state page_of
set_page_state-Counted_example =
    set_page_state-Counted three_pages _ 0x2000 remote local three_pages-Counted refl refl refl
