-- ===== src/Queues/Steps.antt =====
-- The calls that change a `QueueManager`, as values: what one call does, and a run of several.
use mathlib.Core.List.{Perm}
use ai_coding_training.Base.{
  ℕ, ◌≡◌, ◌≢◌, refl, Option, List, [], ◌∷◌, ◌++◌, arith, Option-cases, inl, inr,
}
use ai_coding_training.Base.Int.{ℤ}
use ai_coding_training.Base.Action.{Outcome, ok, raised}
use ai_coding_training.Text.{Text, text_eq_iff}
use ai_coding_training.Text.Order.{sorted, IsSortedBy, sort_by-IsSortedBy, sort_by-perm}
use ai_coding_training.Dict.{lookup, keys, lookup-insert, lookup-erase}
use ai_coding_training.Queues.{
  QueueManager, QueueError, capacity, create_queue, delete_queue, enqueue, dequeue, pop_left,
  list_queues,
}

pub data Call : Type 0 where
  create : Text → Option ℤ → Call
  delete : Text → Call
  send : Text → Text → Text → Call
  take : Text → Call

-- The exception of a call, or that there was none.
pub data Ended : Type 0 where
  returned : Ended
  failed : QueueError → Ended

abbrev pub ended : {A : Type 0} → Outcome QueueError A → Ended
ended (ok a) = returned
ended (raised e) = failed e

unfoldable pub call : Call → QueueManager → Ended × QueueManager
call (create n size) m = let (r, m') = create_queue n size m in (ended r, m')
call (delete n) m = let (r, m') = delete_queue n m in (ended r, m')
call (send n id body) m = let (r, m') = enqueue n id body m in (ended r, m')
call (take n) m = let (r, m') = dequeue n m in (ended r, m')

unfoldable pub run_queues : List Call → QueueManager → QueueManager
run_queues [] m = m
run_queues (c ∷ cs) m = run_queues cs (call c m).1

pop_left-others :
    (name other : Text) (items : List (Text × Text)) (size : ℕ) (m : QueueManager)
    → name ≢ other
    → lookup other (pop_left name (record { items = items; max_size = size }) m).1.queues
      ≡ lookup other m.queues
unfolding pop_left
pop_left-others name other [] size m ne = refl
pop_left-others name other (x ∷ rest) size m ne = ground (
  arith,
  lookup-insert name other (record { items = rest; max_size = size }) m.queues,
  text_eq_iff name other,
)

-- A call of the queue manager that raises has changed nothing in it.
pub queue_call_failed :
    (c : Call) (m : QueueManager) (e : QueueError) → (call c m).0 ≡ failed e → (call c m).1 ≡ m
unfolding call create_queue delete_queue enqueue dequeue
queue_call_failed (create n size) m e h = ground arith
queue_call_failed (delete n) m e h = ground arith
queue_call_failed (send n id body) m e h = ground arith
queue_call_failed (take n) m e h = ground arith

-- The queue that a call is about.
abbrev pub subject : Call → Text
subject (create n size) = n
subject (delete n) = n
subject (send n id body) = n
subject (take n) = n

-- A call of the queue manager changes no other queue than the one it names.
pub call-others :
    (c : Call) (other : Text) (m : QueueManager)
    → subject c ≢ other
    → lookup other (call c m).1.queues ≡ lookup other m.queues
unfolding call create_queue delete_queue enqueue dequeue
call-others (create n size) other m ne = ground (
  arith,
  lookup-insert n other (record { items = []; max_size = capacity m.default_max_size size })
      m.queues,
  text_eq_iff n other,
)
call-others (delete n) other m ne =
    ground (arith, lookup-erase n other m.queues, text_eq_iff n other)
call-others (send n id body) other m ne = elim (Option-cases (lookup n m.queues)) [
  | inl gone ↦ ground arith
  | inr (q, found) ↦ ground (
    arith,
    lookup-insert n other (record q { items = q.items ++ (id, body) ∷ [] }) m.queues,
    text_eq_iff n other,
  )
]
call-others (take n) other m ne = elim (Option-cases (lookup n m.queues)) [
  | inl gone ↦ ground arith
  | inr (q, found) ↦ rw found (pop_left-others n other q.items q.max_size m ne)
]

-- `list_queues` returns the names in order, each name of a queue and no other.
pub list_queues_lem :
    (m : QueueManager)
    → IsSortedBy (λ (s : Text). s) (list_queues m) × Perm (list_queues m) (keys m.queues)
unfolding list_queues sorted
list_queues_lem m =
    (sort_by-IsSortedBy (λ s. s) (keys m.queues), sort_by-perm (λ s. s) (keys m.queues))
