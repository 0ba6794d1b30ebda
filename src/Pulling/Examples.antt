-- ===== src/Pulling/Examples.antt =====
-- The pulling loops at a segment of three pages.
use rdma_migration_system.Prelude.{◌+◌, ◌≡◌, refl, arith, true, false, [], ◌∷◌}
use rdma_migration_system.Prelude.Results.{ok}
use rdma_migration_system.Paging.{
  remote, local, Pages, new_pages, get_page_address_id, get_page_size_id, get_page_size,
  get_page_address,
}
use rdma_migration_system.Paging.Geometry.{Tiled}
use rdma_migration_system.Pulling.{
  Answers, pull_all_pages_without_close, pull_all_pages, sigsegv_advance,
}
use rdma_migration_system.Pulling.Pass.{page_read, pull_all_pages_without_close-result}
use rdma_migration_system.Pulling.Repeat.{Completes, pull_all_pages-Completes, new_pages-Ready}
use rdma_migration_system.Pulling.Fault.{
  Aligned, get_page_address-inside, get_page_size-partial, sigsegv_advance-remote,
}

abbrev smooth : Answers
smooth = record { spurious = false; protected = true; pulled = true }

abbrev three_pages : Pages
three_pages = record {
  pages = remote ∷ remote ∷ local ∷ [];
  local_pages = 1;
  num_pages = 3;
  start_address = 0x1000;
  end_address = 14096;
  memory_size = 10000;
  page_size = 4096;
}

three_pages-Tiled : Tiled three_pages
three_pages-Tiled = omega arith

three_pages-Aligned : Aligned 12 three_pages
three_pages-Aligned = record { power = refl; narrow = omega arith; first = 1; start = refl }

pull_all_pages_without_close-result_example :
    pull_all_pages_without_close (λ _. smooth) three_pages
    ≡ ok (
      record three_pages { pages = local ∷ local ∷ local ∷ []; local_pages = 3 },
      page_read three_pages 0 ∷ page_read three_pages 1 ∷ [],
    )
pull_all_pages_without_close-result_example =
    pull_all_pages_without_close-result (λ _. smooth) three_pages (λ _. refl) three_pages-Tiled tt

pull_all_pages-Completes_example :
    Completes
      (new_pages 0x1000 10000 4096)
      (pull_all_pages 5 0 (λ _ _. smooth) (new_pages 0x1000 10000 4096))
pull_all_pages-Completes_example =
    pull_all_pages-Completes 5 0 2 (λ _ _. smooth) (new_pages 0x1000 10000 4096)
      (new_pages-Ready 0x1000 10000 4096 (omega arith)) (λ _ _. refl) (omega arith) (omega arith)
      (λ _. refl)

get_page_address-inside_example :
    get_page_address three_pages (get_page_address_id three_pages 1 + 77)
    ≡ get_page_address_id three_pages 1
unfolding get_page_size_id
get_page_address-inside_example =
    get_page_address-inside three_pages 12 1 77 three_pages-Tiled three_pages-Aligned (omega arith)
      (omega arith)

get_page_size-partial_example :
    get_page_size three_pages (get_page_address_id three_pages 2) + get_page_size_id three_pages 2
    ≡ 4096
unfolding get_page_size_id
get_page_size-partial_example =
    get_page_size-partial three_pages 2 three_pages-Tiled refl (omega arith)

sigsegv_advance-remote_example :
    sigsegv_advance smooth three_pages (get_page_address_id three_pages 1 + 77)
    ≡ ok (
      record three_pages { pages = remote ∷ local ∷ local ∷ []; local_pages = 2 },
      page_read three_pages 1 ∷ [],
    )
unfolding get_page_size_id
sigsegv_advance-remote_example =
    sigsegv_advance-remote smooth three_pages 12 1 77 three_pages-Tiled three_pages-Aligned
      (omega arith) (omega arith) refl refl refl refl refl

-- The second segment of 4 MiB of the first server.
