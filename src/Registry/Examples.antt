-- ===== src/Registry/Examples.antt =====
-- Two servers that allocate at once.
use rdma_migration_system.Prelude.{ℕ, ◌≡◌, refl, arith, some, [], ◌∷◌}
use rdma_migration_system.Prelude.Results.{ok}
use rdma_migration_system.Records.Decimal.{to_string, stoul, read_digits, write_digits}
use rdma_migration_system.Registry.{Pending, read_allocator, write_allocator, allocator_node}
use rdma_migration_system.Zoo.{get, set, filled}
use rdma_migration_system.Zoo.Service.{Memory, memory_client}
use rdma_migration_system.Registry.Grants.{
  System, Steps, stay, then_step, reads, takes, retries, Stacked, Steps-Stacked,
}

-- "100"
abbrev hundred : Memory
hundred = (allocator_node, (some (49 ∷ 48 ∷ 48 ∷ []), 5)) ∷ []

abbrev hundred_fifty : Memory
hundred_fifty = (allocator_node, (some (to_string 150), 6)) ∷ []

abbrev first_call : Pending
first_call = record { addr = 100; version = 5; size = 8 }

abbrev second_call : Pending
second_call = record { addr = 100; version = 5; size = 50 }

abbrev begun : System memory_client
begun = record { zoo = hundred; pending = []; granted = []; tried = 0 }

abbrev one_granted : System memory_client
one_granted = record {
  zoo = hundred_fifty;
  pending = first_call ∷ [];
  granted = (100, 50) ∷ [];
  tried = 50;
}

-- Both read; the second one writes first, and the first one's write is refused.
race : Steps memory_client begun (record one_granted { pending = []; tried = 58 })
unfolding read_allocator write_allocator stoul read_digits get set filled to_string write_digits
race =
    then_step begun one_granted _
      (then_step begun (record begun { pending = second_call ∷ first_call ∷ [] }) one_granted
        (then_step begun (record begun { pending = first_call ∷ [] }) _
          (then_step begun begun _ (stay begun) (reads begun 100 5 8 refl))
          (reads (record begun { pending = first_call ∷ [] }) 100 5 50 refl))
        (takes (record begun { pending = second_call ∷ first_call ∷ [] }) [] (first_call ∷ [])
          second_call refl refl))
      (retries one_granted [] [] first_call refl refl)

begun-read : read_allocator memory_client hundred ≡ ok (100, 5)
unfolding read_allocator stoul read_digits get filled
begun-read = refl

Steps-Stacked_example :
    (top w : ℕ) × (read_allocator memory_client hundred_fifty ≡ ok (top, w))
    × Stacked memory_client 100 top ((100, 50) ∷ [])
Steps-Stacked_example =
    Steps-Stacked memory_client hundred (record one_granted { pending = []; tried = 58 }) 100 5
      begun-read race (omega arith)
