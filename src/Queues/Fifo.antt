-- ===== src/Queues/Fifo.antt =====
-- A queue is first in, first out, and queues do not touch one another.
use mathlib.Core.Path.{Σ_path}
use ai_coding_training.Base.{
  ℕ, zero, suc, ◌+◌, ◌≤◌, ◌≡◌, refl, sym, ap, ◌∙◌, Option, none, some, List, [], ◌∷◌, ◌++◌, map,
  arith, length, append_assoc, append-nil, Option-cases, inl, inr,
}
use ai_coding_training.Base.Action.{Outcome, ok, raised, pure, ◌>>=◌, ◌>>◌, Outcome-cases, bind-ok}
use ai_coding_training.Text.{Text, text_eq_iff}
use ai_coding_training.Dict.{lookup, lookup-insert}
use ai_coding_training.Queues.{Queue, QueueManager, QueueAction, QueueError, put, enqueue, dequeue}

-- The messages of a queue, oldest first; a queue that is not there has none.
unfoldable pub waiting : Text → QueueManager → List (Text × Text)
waiting name m = elim (lookup name m.queues) [ none ↦ [] | some q ↦ q.items ]

-- Sending messages one after the other.
unfoldable pub enqueue_all : Text → List (Text × Text) → QueueAction Unit
enqueue_all queue [] = pure tt
enqueue_all queue ((id, body) ∷ ms) = do enqueue queue id body; enqueue_all queue ms

-- Taking messages one after the other, so many times.
unfoldable pub dequeue_times : ℕ → Text → QueueAction (List (Option (Text × Text)))
dequeue_times zero queue = pure []
dequeue_times (suc n) queue = do x ← dequeue queue; xs ← dequeue_times n queue; pure (x ∷ xs)

some-eq : {A : Type 0} {a b : A} → some a ≡ some b → a ≡ b
some-eq h = cc

-- What a call of `enqueue` that returns has done.
pub enqueue-ok :
    (queue id body : Text) (m : QueueManager)
    → (enqueue queue id body m).0 ≡ ok tt
    → (q : Queue) × (lookup queue m.queues ≡ some q)
      × (length q.items + 1 ≤ q.max_size)
      × ((enqueue queue id body m).1
          ≡ put queue (record q { items = q.items ++ (id, body) ∷ [] }) m)
unfolding enqueue
enqueue-ok queue id body m h = elim (Option-cases (lookup queue m.queues)) [
  | inl gone ↦ absurd (ground arith)
  | inr (q, found) ↦ (q, found, ground arith, ground arith)
]

-- A call of `enqueue` that raises has changed nothing.
pub enqueue-raised :
    (queue id body : Text) (m : QueueManager) (e : QueueError)
    → (enqueue queue id body m).0 ≡ raised e
    → enqueue queue id body m ≡ (raised e, m)
enqueue-raised queue id body m e h =
    let same : (enqueue queue id body m).1 ≡ m = unfold enqueue in ground arith in
    ap (λ o. (o, (enqueue queue id body m).1)) h ∙ ap (λ n. (raised e, n)) same

abbrev queue_of : List (Text × Text) → ℕ → Queue
queue_of items size = record { items = items; max_size = size }

pub found-put :
    (name : Text) (q : Queue) (m : QueueManager) → lookup name (put name q m).queues ≡ some q
unfolding put
found-put name q m = ground (arith, lookup-insert name name q m.queues, text_eq_iff name name)

pub waiting-found :
    (name : Text) (q : Queue) (m : QueueManager)
    → lookup name m.queues ≡ some q
    → waiting name m ≡ q.items
unfolding waiting
waiting-found name q m h = rw (h, waiting)

abbrev fst_of : {A : Type 0} → Outcome QueueError A × QueueManager → Outcome QueueError A
fst_of p = p.0

-- Taking every message of a queue.
dequeue_times-items :
    (name : Text) (items : List (Text × Text)) (size : ℕ) (m : QueueManager)
    → lookup name m.queues ≡ some (queue_of items size)
    → (dequeue_times (length items) name m).0 ≡ ok (map some items)
unfolding dequeue_times
dequeue_times-items name [] size m h = refl
dequeue_times-items name (x ∷ items) size m h =
    let m' = put name (queue_of items size) m in
    let first : dequeue name m ≡ (ok (some x), m') = unfold dequeue in rw h in
    ap fst_of (
      bind-ok (dequeue name) (λ o. do xs ← dequeue_times (length items) name; pure (o ∷ xs)) m
        first)
    ∙ ground
        (arith, dequeue_times-items name items size m' (found-put name (queue_of items size) m))

-- The messages that were sent stand behind those that waited.
enqueue_all-waiting :
    (name : Text) (ms : List (Text × Text)) (m : QueueManager) (q : Queue)
    → lookup name m.queues ≡ some q
    → (enqueue_all name ms m).0 ≡ ok tt
    → lookup name (enqueue_all name ms m).1.queues ≡ some (queue_of (q.items ++ ms) q.max_size)
unfolding enqueue_all
enqueue_all-waiting name [] m q found h = rw (append-nil q.items, found)
enqueue_all-waiting name ((id, body) ∷ ms) m q found h =
    elim (Outcome-cases (enqueue name id body m).0) [
      | inr (e, bad) ↦ absurd (ground arith)
      | inl (u, good) ↦
          let (q', found', room, after) = enqueue-ok name id body m good in
          let q'' = record q { items = q.items ++ (id, body) ∷ [] } in
          let same : q' ≡ q = some-eq (sym found' ∙ found) in
          let next : enqueue name id body m ≡ (ok tt, put name q'' m) = Σ_path good (
            after
            ∙ ap (λ (r : Queue). put name (record r { items = r.items ++ (id, body) ∷ [] }) m)
                same) in
          let joined = bind-ok (enqueue name id body) (λ _. enqueue_all name ms) m next in
          ap (λ (p : Outcome QueueError Unit × QueueManager). lookup name p.1.queues) joined
          ∙ enqueue_all-waiting name ms (put name q'' m) q'' (found-put name q'' m)
              (ap fst_of (sym joined) ∙ h)
          ∙ ap (λ (l : List (Text × Text)). some (queue_of l q.max_size))
              (append_assoc q.items ((id, body) ∷ []) ms)
    ]

-- From a queue that is there, to which messages are sent one after the other, the next takes
-- return first what waited and then what was sent, in order.
pub fifo :
    (name : Text) (ms : List (Text × Text)) (m : QueueManager) (q : Queue)
    → lookup name m.queues ≡ some q
    → (enqueue_all name ms m).0 ≡ ok tt
    → let m' = (enqueue_all name ms m).1 in
      (waiting name m' ≡ q.items ++ ms)
      × ((dequeue_times (length (q.items ++ ms)) name m').0 ≡ ok (map some (q.items ++ ms)))
fifo name ms m q found h =
    let m' = (enqueue_all name ms m).1 in
    let there = enqueue_all-waiting name ms m q found h in
    (
      waiting-found name (queue_of (q.items ++ ms) q.max_size) m' there,
      dequeue_times-items name (q.items ++ ms) q.max_size m' there,
    )
