-- ===== src/Net/Disconnect.antt =====
-- The completion handlers of src/rdma-network/rdma_server_prototype.cpp: when `rdma_disconnect` is
-- called.
use rdma_migration_system.Prelude.{
  ◌≡◌, refl, arith, Bool, true, false, ◌&&◌, ◌||◌, List, [], ◌∷◌, ◌++◌, inl, inr,
}
use rdma_migration_system.Prelude.Results.{Result, ok, ◌>>=◌, Result-cases}
use rdma_migration_system.Net.{
  Message, MessageType, msg_user, msg_done, Connection, Effect, posts_receive, posts_send,
  posts_read, posts_write, sem_posts, sem_waits, deregisters, calls_back, disconnects, Notify,
  Verbs, Handled,
}
use rdma_migration_system.Net.Posts.{post_rdma_receive, post_rdma_send}
use rdma_migration_system.Net.Completion.{
  WorkCompletion, on_completion, Opcode, recv, send, finish, recv_finish, send_finish,
  on_recv_finish_rearmed, on_send_finish, notified,
}

abbrev pub has_disconnect : List Effect → Bool
has_disconnect [] = false
has_disconnect (disconnects ∷ es) = true
has_disconnect (e ∷ es) = has_disconnect es

abbrev pub is_done : MessageType → Bool
is_done msg_done = true
is_done _ = false

abbrev pub is_send : Opcode → Bool
is_send send = true
is_send _ = false

abbrev pub is_recv : Opcode → Bool
is_recv recv = true
is_recv _ = false

-- A completion that DONE was sent, or received.
abbrev pub sends_done : WorkCompletion → Bool
sends_done wc = wc.success && (is_send wc.opcode && is_done wc.message.message_type)

abbrev pub receives_done : WorkCompletion → Bool
receives_done wc = wc.success && (is_recv wc.opcode && is_done wc.message.message_type)

abbrev pub any : (WorkCompletion → Bool) → List (Verbs × WorkCompletion) → Bool
any test [] = false
any test ((v, wc) ∷ wcs) = test wc || any test wcs

-- The inner loop of `poll_cq` on a list of completions, each with the verbs' answers.
unfoldable pub run_completions : Connection → List (Verbs × WorkCompletion) → Result Handled
run_completions c [] = ok (c, [])
run_completions c ((v, wc) ∷ wcs) = do
  (_, (c', effects)) ← on_completion v c wc
  (d, others) ← run_completions c' wcs
  ok (d, effects ++ others)

-- What completions do to the flags, where `sent` and `received` say whether DONE is among them.
record Steps (c d : Connection) (sent received : Bool) (effects : List Effect) : Type 0 where
  sends : d.sent_done ≡ (c.sent_done || sent)
  receives : d.recv_done ≡ (c.recv_done || received)
  fires :
      (c.sent_done && c.recv_done) ≡ false → has_disconnect effects ≡ (d.sent_done && d.recv_done)

recv_finish-Steps :
    (v : Verbs) (c d : Connection) (msg : Message) (t : MessageType) (effects : List Effect)
    → recv_finish v c msg t ≡ ok (d, effects)
    → Steps c d false (is_done t) effects
unfolding recv_finish post_rdma_receive post_rdma_send
recv_finish-Steps v c d msg msg_user effects e = ground arith
recv_finish-Steps v c d msg _ effects e = ground arith

send_finish-Steps :
    (c d : Connection) (t : MessageType) (effects : List Effect)
    → send_finish c t ≡ ok (d, effects)
    → Steps c d (is_done t) false effects
unfolding send_finish
send_finish-Steps c d msg_user effects e = ground arith
send_finish-Steps c d _ effects e = ground arith

finish-Steps :
    (v : Verbs) (c d : Connection) (wc : WorkCompletion) (o : Opcode) (effects : List Effect)
    → finish v c wc o ≡ ok (d, effects)
    → Steps c d
        (is_send o && is_done wc.message.message_type)
        (is_recv o && is_done wc.message.message_type)
        effects
unfolding finish on_recv_finish_rearmed on_send_finish
finish-Steps v c d wc recv effects e =
    recv_finish-Steps v c d wc.later wc.message.message_type effects e
finish-Steps v c d wc send effects e = send_finish-Steps c d wc.message.message_type effects e
finish-Steps v c d wc _ effects e = ground arith

has_disconnect-append :
    (xs ys : List Effect) → has_disconnect (xs ++ ys) ≡ (has_disconnect xs || has_disconnect ys)
has_disconnect-append [] ys = refl
has_disconnect-append (disconnects ∷ xs) ys = refl
has_disconnect-append (posts_receive k ∷ xs) ys = has_disconnect-append xs ys
has_disconnect-append (posts_send m n ∷ xs) ys = has_disconnect-append xs ys
has_disconnect-append (posts_read r ∷ xs) ys = has_disconnect-append xs ys
has_disconnect-append (posts_write r ∷ xs) ys = has_disconnect-append xs ys
has_disconnect-append (sem_posts s ∷ xs) ys = has_disconnect-append xs ys
has_disconnect-append (sem_waits s ∷ xs) ys = has_disconnect-append xs ys
has_disconnect-append (deregisters r ∷ xs) ys = has_disconnect-append xs ys
has_disconnect-append (calls_back k ∷ xs) ys = has_disconnect-append xs ys

notified-quiet : (n : Notify) → has_disconnect (notified n) ≡ false
notified-quiet n = ground arith

on_completion-Steps :
    (v : Verbs) (c d : Connection) (wc : WorkCompletion) (more : Bool) (effects : List Effect)
    → on_completion v c wc ≡ ok (more, (d, effects))
    → Steps c d (sends_done wc) (receives_done wc) effects
unfolding on_completion
on_completion-Steps v c d wc more effects e = elim (Result-cases (finish v c wc wc.opcode)) [
  | inl ((c', own), ran) ↦ ground (
    arith,
    finish-Steps v c c' wc wc.opcode own ran,
    has_disconnect-append own (notified wc.notify),
    notified-quiet wc.notify,
  )
  | inr (fault, ran) ↦ ground arith
]

run-Steps :
    (wcs : List (Verbs × WorkCompletion)) (c d : Connection) (effects : List Effect)
    → run_completions c wcs ≡ ok (d, effects)
    → Steps c d (any sends_done wcs) (any receives_done wcs) effects
unfolding run_completions
run-Steps [] c d effects e = ground arith
run-Steps ((v, wc) ∷ wcs) c d effects e = elim (Result-cases (on_completion v c wc)) [
  | inr (fault, ran) ↦ ground arith
  | inl ((more, (c', own)), ran) ↦ elim (Result-cases (run_completions c' wcs)) [
    | inr (fault, rest) ↦ ground arith
    | inl ((d', others), rest) ↦ ground (
      arith,
      on_completion-Steps v c c' wc more own ran,
      run-Steps wcs c' d' others rest,
      has_disconnect-append own others,
    )
  ]
]

-- In any run of completions that no handler ends by an exception, over a connection on which DONE
-- has not yet gone both ways, `rdma_disconnect` is called if and only if at the end DONE has gone
-- both ways: it was sent before or a send of it completes successfully in the run, and it was
-- received before or a receipt of it does. No other message counts.
pub run_disconnects_iff :
    (wcs : List (Verbs × WorkCompletion)) (c d : Connection) (effects : List Effect)
    → (c.sent_done && c.recv_done) ≡ false
    → run_completions c wcs ≡ ok (d, effects)
    → has_disconnect effects
      ≡ ((c.sent_done || any sends_done wcs) && (c.recv_done || any receives_done wcs))
run_disconnects_iff wcs c d effects open_yet e =
    let steps = run-Steps wcs c d effects e in
    rw (← steps.sends, ← steps.receives) (steps.fires open_yet)
