-- ===== src/Events/Connects.antt =====
-- The event loop of src/rdma-network/rdma_client.cpp: what wakes the caller of `connect`.
use rdma_migration_system.Prelude.{
  ℕ, ◌≡◌, refl, ◌⊎◌, inl, inr, arith, Bool, true, false, ◌||◌, List, [], ◌∷◌, ◌++◌, map,
}
use rdma_migration_system.Prelude.Tests.{Bool-cases}
use rdma_migration_system.Prelude.Results.{ok, err, Result-cases, or_fault, bad_pointer, Fault}
use rdma_migration_system.Prelude.Maps.{Map, lookup, nat_key}
use rdma_migration_system.Net.{Registration}
use rdma_migration_system.Events.{
  Event, addr_resolved, route_resolved, connect_request, established, disconnected, other, Act,
  posts, resolves_route, connects, wakes_connect, wakes_done, deregisters, destroys_queue_pair,
  destroys_socket, Client, Fresh, build_connection_object, build_client, on_addr_resolved,
  on_route_resolved, on_connection, on_disconnect, on_event, event_loop,
}

abbrev pub wakes : List Act → Bool
wakes [] = false
wakes (wakes_connect ∷ acts) = true
wakes (_ ∷ acts) = wakes acts

abbrev pub establishes : List (Fresh × Event) → Bool
establishes [] = false
establishes ((f, established) ∷ es) = true
establishes ((f, _) ∷ es) = establishes es

wakes-append : (xs ys : List Act) → wakes (xs ++ ys) ≡ (wakes xs || wakes ys)
wakes-append [] ys = refl
wakes-append (wakes_connect ∷ xs) ys = refl
wakes-append (posts e ∷ xs) ys = wakes-append xs ys
wakes-append (resolves_route ∷ xs) ys = wakes-append xs ys
wakes-append (connects ∷ xs) ys = wakes-append xs ys
wakes-append (wakes_done ∷ xs) ys = wakes-append xs ys
wakes-append (deregisters r ∷ xs) ys = wakes-append xs ys
wakes-append (destroys_queue_pair ∷ xs) ys = wakes-append xs ys
wakes-append (destroys_socket ∷ xs) ys = wakes-append xs ys

wakes-deregisters :
    (m : Map ℕ Registration) (acts : List Act)
    → wakes (map (λ r. deregisters r.1) m ++ acts) ≡ wakes acts
wakes-deregisters [] acts = refl
wakes-deregisters (r ∷ m) acts = wakes-deregisters m acts

build_client-quiet :
    (f : Fresh) (c d : Client) (socket : ℕ) (acts : List Act)
    → build_client f c socket ≡ ok (d, acts)
    → wakes acts ≡ false
unfolding build_client
build_client-quiet f c d socket acts ran = elim (Result-cases (build_connection_object f)) [
  | inr (fault, built) ↦ ground arith
  | inl (conn, built) ↦ ground arith
]

on_addr_resolved-quiet :
    (f : Fresh) (c d : Client) (socket : ℕ) (acts : List Act)
    → on_addr_resolved f c socket ≡ ok (d, acts)
    → wakes acts ≡ false
unfolding on_addr_resolved
on_addr_resolved-quiet f c d socket acts ran = elim (Result-cases (build_client f c socket)) [
  | inr (fault, built) ↦ ground arith
  | inl ((c', own), built) ↦
      ground
        (arith, build_client-quiet f c c' socket own built, wakes-append own (resolves_route ∷ []))
]

on_disconnect-quiet :
    (c d : Client) (socket : ℕ) (acts : List Act)
    → on_disconnect c socket ≡ ok (d, acts)
    → wakes acts ≡ false
unfolding on_disconnect
on_disconnect-quiet c d socket acts ran =
    elim (Result-cases (or_fault (lookup socket c.contexts) bad_pointer)) [
      | inr (fault, found) ↦ ground arith
      | inl (object, found) ↦
          elim (Result-cases (or_fault (lookup object c.connections) bad_pointer)) [
            | inr (fault, here) ↦ ground arith
            | inl (conn, here) ↦
                ground (arith, wakes-deregisters conn.registrations (destroys_socket ∷ []))
          ]
    ]

-- Only `on_connection` wakes the caller of `connect`.
on_event-wakes :
    (f : Fresh) (c d : Client) (socket : ℕ) (e : Event) (more : Bool) (acts : List Act)
    → on_event f c socket e ≡ ok (more, d, acts)
    → wakes acts ≡ establishes ((f, e) ∷ [])
unfolding on_event on_route_resolved on_connection
on_event-wakes f c d socket addr_resolved more acts ran =
    elim (Result-cases (on_addr_resolved f c socket)) [
      | inr (fault, built) ↦ ground arith
      | inl ((c', own), built) ↦ ground (arith, on_addr_resolved-quiet f c c' socket own built)
    ]
on_event-wakes f c d socket route_resolved more acts ran = ground arith
on_event-wakes f c d socket connect_request more acts ran = ground arith
on_event-wakes f c d socket established more acts ran = ground arith
on_event-wakes f c d socket disconnected more acts ran =
    elim (Result-cases (on_disconnect c socket)) [
      | inr (fault, built) ↦ ground arith
      | inl ((c', own), built) ↦ ground (arith, on_disconnect-quiet c c' socket own built)
    ]
on_event-wakes f c d socket other more acts ran = ground arith

establishes-cons :
    (f : Fresh) (e : Event) (es : List (Fresh × Event))
    → establishes ((f, e) ∷ es) ≡ (establishes ((f, e) ∷ []) || establishes es)
establishes-cons f e es = ground arith

-- A run that begins with the event `e`.
event_loop-cons :
    (f : Fresh) (e : Event) (es : List (Fresh × Event)) (c c' d : Client) (socket : ℕ) (more : Bool)
    (own acts : List Act)
    → on_event f c socket e ≡ ok (more, c', own)
    → event_loop c socket ((f, e) ∷ es) ≡ ok (d, acts)
    → (acts ≡ own)
      ⊎ ((others : List Act) × (event_loop c' socket es ≡ ok (d, others)) × (acts ≡ own ++ others))
unfolding event_loop
event_loop-cons f e es c c' d socket more own acts step ran =
    elim (Result-cases (event_loop c' socket es)) [
      | inr (fault, rest) ↦ inl (ground arith)
      | inl ((d', others), rest) ↦ elim (Bool-cases more) [
        | inl goes_on ↦ inr (others, ground arith, ground arith)
        | inr stops ↦ inl (ground arith)
      ]
    ]

event_loop-fault :
    (f : Fresh) (e : Event) (es : List (Fresh × Event)) (c : Client) (socket : ℕ) (fault : Fault)
    → on_event f c socket e ≡ err fault
    → event_loop c socket ((f, e) ∷ es) ≡ err fault
unfolding event_loop
event_loop-fault f e es c socket fault step = rw step refl

-- Where an event that the loop does not know, such as a rejection or an unreachable host, comes before
-- the connection is established, a run of the client's event loop that no handler ends by an
-- exception never wakes the caller of `connect`, whatever events came first and whatever was to come.
pub event_loop-unwoken :
    (before after : List (Fresh × Event)) (c d : Client) (socket : ℕ) (f : Fresh) (acts : List Act)
    → establishes before ≡ false
    → event_loop c socket (before ++ ((f, other) ∷ after)) ≡ ok (d, acts)
    → wakes acts ≡ false
unfolding event_loop on_event
event_loop-unwoken [] after c d socket f acts quiet ran = ground arith
event_loop-unwoken ((g, e) ∷ before) after c d socket f acts quiet ran =
    elim (Result-cases (on_event g c socket e)) [
      | inr (fault, step) ↦
          let ends = event_loop-fault g e (before ++ ((f, other) ∷ after)) c socket fault step in
          absurd (ground (arith, ends, ran))
      | inl ((more, c', own), step) ↦
          let silent = on_event-wakes g c c' socket e more own step in
          let parts = establishes-cons g e before in
          elim (event_loop-cons g e (before ++ ((f, other) ∷ after)) c c' d socket more own acts
            step ran) [
              | inl same ↦ ground (arith, same, silent, parts, quiet)
              | inr (others, rest, joined) ↦ ground (
                arith,
                joined,
                wakes-append own others,
                silent,
                parts,
                quiet,
                event_loop-unwoken before after c' d socket f others (ground (arith, parts, quiet))
                    rest,
              )
            ]
    ]
