-- ===== src/Events/Accepting.antt =====
-- `accept` and `on_connection` of src/rdma-network/rdma_server.cpp: the event thread and any number
-- of accepting threads.
use mathlib.Core.List.{append_assoc}
use rdma_migration_system.Prelude.{
  none, ℕ, suc, ◌+◌, ◌≡◌, refl, sym, ap, ◌∙◌, arith, List, [], ◌∷◌, ◌++◌,
}
use rdma_migration_system.Prelude.Lists.{length, length-append, append_none}
use rdma_migration_system.Prelude.Results.{ok}
use rdma_migration_system.Events.Server.{
  Server, on_connection_waits, on_connection_enqueues, accept_begins, accept_takes,
}

-- What the event thread does: nothing for a connection, or it waits in `on_connection`, or it is
-- behind the wait and has not put the socket into the queue.
pub data Handler : Type 0 where
  free : Handler
  waiting queueing : (socket : ℕ) → Handler

-- The server, the event thread, the number of calls of `accept` that have begun and not returned, the
-- sockets whose handler has begun, in order, and the sockets that calls of `accept` took, in order.
pub record Listening : Type 0 where
  pub server : Server
  pub handler : Handler
  pub inside : ℕ
  pub connected : List ℕ
  pub accepted : List ℕ

pub data Step : Listening → Listening → Type 0 where
  begins :
      (l : Listening) → Step l (record l { server = accept_begins l.server; inside = l.inside + 1 })
  comes_up :
      (l : Listening) (socket : ℕ)
      → l.handler ≡ free
      → Step l (record l { handler = waiting socket; connected = l.connected ++ (socket ∷ []) })
  wakes :
      (l : Listening) (s : Server) (socket : ℕ)
      → l.handler ≡ waiting socket
      → on_connection_waits l.server ≡ ok s
      → Step l (record l { server = s; handler = queueing socket })
  enqueues :
      (l : Listening) (socket : ℕ)
      → l.handler ≡ queueing socket
      → Step l (record l { server = on_connection_enqueues l.server socket; handler = free })
  takes :
      (l : Listening) (s : Server) (socket n : ℕ)
      → accept_takes l.server ≡ ok (s, socket)
      → l.inside ≡ suc n
      → Step l (record l { server = s; inside = n; accepted = l.accepted ++ (socket ∷ []) })

pub data Steps : Listening → Listening → Type 0 where
  stay : (l : Listening) → Steps l l
  then_step : (k l m : Listening) → Steps k l → Step l m → Steps k m

-- The socket in the hands of the event thread, and the unit that it took off the semaphore for it.
abbrev pub handled : Handler → List ℕ
handled free = []
handled (waiting socket) = socket ∷ []
handled (queueing socket) = socket ∷ []

abbrev pub owed : Handler → ℕ
owed (queueing socket) = 1
owed _ = 0

-- The sockets are taken in the order in which they were connected, those in the queue come next, and
-- then the one that the event thread has; each call that is inside has its place in the queue, in the
-- semaphore, or with the event thread.
pub record InOrder (l : Listening) : Type 0 where
  pub order : l.connected ≡ l.accepted ++ (l.server.conn_queue ++ handled l.handler)
  pub places : l.server.conn_queue_sem + (length l.server.conn_queue + owed l.handler) ≡ l.inside

wakes-queue :
    (v s : Server)
    → on_connection_waits v ≡ ok s
    → (s.conn_queue ≡ v.conn_queue) × (suc s.conn_queue_sem ≡ v.conn_queue_sem)
unfolding on_connection_waits
wakes-queue v s ran = ground arith

takes-queue :
    (v s : Server) (socket : ℕ)
    → accept_takes v ≡ ok (s, socket)
    → (v.conn_queue ≡ socket ∷ s.conn_queue) × (s.conn_queue_sem ≡ v.conn_queue_sem)
unfolding accept_takes
takes-queue v s socket ran = ground arith

Step-InOrder : (k l : Listening) → Step k l → InOrder k → InOrder l
unfolding accept_begins on_connection_enqueues
Step-InOrder _ _ (begins l) h = record { order = h.order; places = omega (arith, h.places) }
Step-InOrder _ _ (comes_up l socket e) h =
    let queue = l.server.conn_queue in
    let none_held : handled l.handler ≡ [] = ap (λ x. handled x) e in
    record {
      order =
          ap (λ x. x ++ (socket ∷ []))
            (h.order
              ∙ ap (λ x. l.accepted ++ x) (ap (λ x. queue ++ x) none_held ∙ append_none queue))
          ∙ append_assoc l.accepted queue (socket ∷ []);
      places = omega (arith, h.places, ap (λ x. owed x) e);
    }
Step-InOrder _ _ (wakes l s socket e ran) h =
    let (queue, sem) = wakes-queue l.server s ran in
    record {
      order =
          h.order
          ∙ (ap (λ x. l.accepted ++ (l.server.conn_queue ++ handled x)) e
              ∙ ap (λ q. l.accepted ++ (q ++ (socket ∷ []))) (sym queue));
      places = omega (arith, h.places, sem, ap length queue, ap (λ x. owed x) e);
    }
Step-InOrder _ _ (enqueues l socket e) h =
    let queue = l.server.conn_queue in
    record {
      order =
          h.order
          ∙ (ap (λ x. l.accepted ++ (queue ++ handled x)) e
              ∙ ap (λ x. l.accepted ++ x) (sym (append_none (queue ++ (socket ∷ [])))));
      places = omega (arith, h.places, ap (λ x. owed x) e, length-append queue (socket ∷ []));
    }
Step-InOrder _ _ (takes l s socket n ran e) h =
    let (queue, sem) = takes-queue l.server s socket ran in
    record {
      order =
          h.order
          ∙ (ap (λ q. l.accepted ++ (q ++ handled l.handler)) queue
              ∙ sym (append_assoc l.accepted (socket ∷ []) (s.conn_queue ++ handled l.handler)));
      places = omega (arith, h.places, sem, e, ap length queue);
    }

Steps-InOrder : (k l : Listening) → Steps k l → InOrder k → InOrder l
Steps-InOrder _ _ (stay l) h = h
Steps-InOrder _ _ (then_step k l m before last) h =
    Step-InOrder l m last (Steps-InOrder k l before h)

-- The listening side at its start.
abbrev pub idle : Listening
idle = record {
  server = record {
    resources = none;
    contexts = [];
    connections = [];
    conn_queue_sem = 0;
    conn_queue = [];
  };
  handler = free;
  inside = 0;
  connected = [];
  accepted = [];
}

-- However the event thread and any number of accepting threads interleave, the wait and the
-- enqueueing of `on_connection` being two steps, connections are accepted in the order in which their
-- handlers began, each once; those in the queue come next, in order, and last the one that the event
-- thread has in hand, if any; and each thread inside `accept` has either its place in the queue, or a
-- unit of the semaphore, or the unit that the event thread took before it puts its socket into the
-- queue.
pub Steps-InOrder_start : (l : Listening) → Steps idle l → InOrder l
Steps-InOrder_start l steps =
    Steps-InOrder idle l steps (record { order = refl; places = omega arith })
