-- ===== src/Net/Writes.antt =====
-- `on_rdma_write_finish` of src/rdma-network/rdma_server_prototype.cpp in a run of completions.
use rdma_migration_system.Prelude.{◌≡◌, refl, inl, inr, true, List, [], ◌∷◌, ◌++◌}
use rdma_migration_system.Prelude.Results.{err, Fault, logic_error, Result-cases}
use rdma_migration_system.Net.{Connection, Verbs}
use rdma_migration_system.Net.Completion.{WorkCompletion, rdma_write, finish, on_completion}
use rdma_migration_system.Net.Disconnect.{run_completions}

write-throws :
    (v : Verbs) (c : Connection) (wc : WorkCompletion)
    → wc.success ≡ true
    → wc.opcode ≡ rdma_write
    → on_completion v c wc ≡ err logic_error
unfolding on_completion finish
write-throws v c wc s o = rw (s, o) refl

-- A run of completions that has a successful write in it, at any place, on any connection, ends by
-- an exception: the completion thread does not outlive the first write.
pub run_completions_stops :
    (before after : List (Verbs × WorkCompletion)) (c : Connection) (v : Verbs)
    (wc : WorkCompletion)
    → wc.success ≡ true
    → wc.opcode ≡ rdma_write
    → (e : Fault) × (run_completions c (before ++ ((v, wc) ∷ after)) ≡ err e)
unfolding run_completions
run_completions_stops [] after c v wc s o = (logic_error, rw (write-throws v c wc s o) refl)
run_completions_stops ((w, first) ∷ before) after c v wc s o =
    elim (Result-cases (on_completion w c first)) [
      | inr (fault, ran) ↦ (fault, rw (ran, run_completions) refl)
      | inl ((more, (d, own)), ran) ↦
          let (fault, rest) = run_completions_stops before after d v wc s o in
          (fault, rw (ran, rest, run_completions) refl)
    ]
