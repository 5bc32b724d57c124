-- ===== src/Router/Delivery.antt =====
-- Every message that waits in a queue is handed out, in order, as consumers come.
use ai_coding_training.Base.{ℕ, ◌≡◌, refl, ap, ◌∙◌, some, List, [], ◌∷◌, map}
use ai_coding_training.Base.Int.{ℤ}
use ai_coding_training.Base.Action.{ok, pure, ◌>>=◌, bind-ok, bind-pure}
use ai_coding_training.Text.{Text}
use ai_coding_training.Dict.{Dict, lookup}
use ai_coding_training.Queues.{Queue, put}
use ai_coding_training.Queues.Fifo.{waiting, found-put, waiting-found}
use ai_coding_training.Acks.{Ref, update}
use ai_coding_training.Router.{
  Router, RouterAction, Poll, message, Round, delivered, consume_from_queue,
}
use ai_coding_training.Router.Polling.{consume-head}

-- Consumers that come one after the other, each with its timeout and its first turn.
pub record Visit : Type 0 where
  pub consumer : Text
  pub timeout : ℤ
  pub start : ℕ
  pub round : Round

unfoldable pub consume_each : Text → List Visit → RouterAction (List Poll)
consume_each queue [] = pure []
consume_each queue (v ∷ vs) = do
  p ← consume_from_queue queue v.consumer v.timeout v.start (v.round ∷ [])
  ps ← consume_each queue vs
  pure (p ∷ ps)

-- The messages of a queue, by their objects in the registry, and as many consumers.
pub data Served (d : Dict Ref) : List (Text × Text) → List Ref → List Visit → Type 0 where
  nobody : Served d [] [] []
  somebody :
      {id body : Text} {items : List (Text × Text)} {r : Ref} {rs : List Ref} {v : Visit}
      {vs : List Visit}
      → lookup id d ≡ some r
      → Served d items rs vs
      → Served d ((id, body) ∷ items) (r ∷ rs) (v ∷ vs)

abbrev queue_of : List (Text × Text) → ℕ → Queue
queue_of items size = record { items = items; max_size = size }

consume_each-items :
    (queue : Text) (size : ℕ) (d : Dict Ref) {items : List (Text × Text)} {rs : List Ref}
    {vs : List Visit}
    → Served d items rs vs
    → (s : Router) → s.messages ≡ d
    → lookup queue s.queues.queues ≡ some (queue_of items size)
    → let p = consume_each queue vs s in
      (p.0 ≡ ok (map message rs)) × (lookup queue p.1.queues.queues ≡ some (queue_of [] size))
unfolding consume_each
consume_each-items queue size d nobody s e h = (refl, h)
consume_each-items queue size d (somebody {id} {body} {items} {r} {rs} {v} {vs} found served) s e
      h =
    let s' = record s {
      queues = put queue (queue_of items size) s.queues;
      heap = update r (delivered v.consumer v.round.now (s.heap r)) s.heap;
    } in
    let first =
      consume-head queue v.consumer id body v.timeout v.start v.round [] (queue_of _ size) items r s
        h refl (ap (lookup id) e ∙ found) in
    let (polls, empty) =
      consume_each-items queue size d served s' e
        (found-put queue (queue_of items size) s.queues) in
    let both =
      bind-ok (consume_from_queue queue v.consumer v.timeout v.start (v.round ∷ []))
        (λ p. do ps ← consume_each queue vs; pure (p ∷ ps)) s first
      ∙ bind-pure (consume_each queue vs) (λ ps. message r ∷ ps) s' in
    rw (both, polls) (refl, empty)

-- When as many consumers come, one after the other, as messages wait in a queue, and every id that
-- waits is registered, each gets the next message at once, in the order in which they were sent,
-- however long it would wait; then nothing waits in the queue.
pub consume_each-delivers :
    (queue : Text) (q : Queue) (rs : List Ref) (vs : List Visit) (s : Router)
    → lookup queue s.queues.queues ≡ some q
    → Served s.messages q.items rs vs
    → let p = consume_each queue vs s in
      (p.0 ≡ ok (map message rs)) × (waiting queue p.1.queues ≡ [])
consume_each-delivers queue q rs vs s found served =
    let (polls, empty) = consume_each-items queue q.max_size s.messages served s refl found in
    (polls, waiting-found queue (queue_of [] q.max_size) _ empty)
