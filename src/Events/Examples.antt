-- ===== src/Events/Examples.antt =====
-- A client whose connection comes up, and one that is refused.
use rdma_migration_system.Prelude.{ℕ, ◌≡◌, refl, arith, some, true, false, [], ◌∷◌}
use rdma_migration_system.Prelude.Results.{ok}
use rdma_migration_system.Net.{posts_receive}
use rdma_migration_system.Events.{
  addr_resolved, route_resolved, established, other, posts, resolves_route, connects, wakes_connect,
  Client, Fresh, on_event, on_route_resolved, event_loop,
}
use rdma_migration_system.Events.Connects.{wakes, event_loop-unwoken}
use rdma_migration_system.Events.Server.{
  Server, on_connection_waits, on_connection_enqueues, accept_begins, accept_takes,
}
use rdma_migration_system.Events.Accepting.{
  Listening, free, waiting, queueing, Step, Steps, stay, then_step, begins, comes_up, enqueues,
  takes, idle, InOrder, Steps-InOrder_start,
}
use rdma_migration_system.Events.Setup.{unconnected, Connected, event_loop-Connected}

abbrev smooth : Fresh
smooth = record {
  object = 500;
  send_buffer = 1000;
  recv_buffer = 4000;
  send_keys = some (1, 2);
  recv_keys = some (3, 4);
  post_recv = true;
  works = true;
}

event_loop-Connected_example :
    (d : Client) × (lkey : ℕ) × (event_loop unconnected 9
        ((smooth, addr_resolved) ∷ (smooth, route_resolved) ∷ (smooth, established) ∷ [])
      ≡ ok (d, posts (posts_receive lkey) ∷ resolves_route ∷ connects ∷ wakes_connect ∷ []))
    × Connected d 9 500
event_loop-Connected_example =
    event_loop-Connected smooth smooth smooth 9 (1, 2) (3, 4) refl refl refl refl refl
      (λ e. ground arith)

-- The route is found, and the server rejects the connection.
rejected :
    event_loop unconnected 9
      ((smooth, route_resolved) ∷ (smooth, other) ∷ (smooth, established) ∷ [])
    ≡ ok (unconnected, connects ∷ [])
unfolding event_loop on_event on_route_resolved
rejected = refl

event_loop-unwoken_example : wakes (connects ∷ []) ≡ false
event_loop-unwoken_example =
    event_loop-unwoken ((smooth, route_resolved) ∷ []) ((smooth, established) ∷ []) unconnected
      unconnected 9 smooth (connects ∷ []) refl rejected

-- A thread waits in `accept`, a connection comes up, and the thread gets it.
abbrev one_waits : Server
one_waits = record idle.server { conn_queue_sem = 1 }

abbrev one_queued : Server
one_queued = record idle.server { conn_queue = 9 ∷ [] }

abbrev one_accepted : Listening
one_accepted = record idle { connected = 9 ∷ []; accepted = 9 ∷ [] }

accept_one : Steps idle one_accepted
unfolding on_connection_waits on_connection_enqueues accept_begins accept_takes
accept_one =
    let up = record idle { handler = waiting 9; connected = 9 ∷ [] } in
    let both = record up { server = one_waits; inside = 1 } in
    let awake = record both { server = idle.server; handler = queueing 9 } in
    let queued = record awake { server = one_queued; handler = free } in
    then_step idle queued one_accepted
      (then_step idle awake queued
        (then_step idle both awake
          (then_step idle up both (then_step idle idle up (stay idle) (comes_up idle 9 refl))
            (begins up))
          (Step.wakes both idle.server 9 refl refl))
        (enqueues awake 9 refl))
      (takes queued idle.server 9 0 refl refl)

Steps-InOrder_start_example : InOrder one_accepted
Steps-InOrder_start_example = Steps-InOrder_start one_accepted accept_one
