-- ===== src/Queues.antt =====
-- src/queue_manager.py: `QueueManager`, method by method. Each method runs under the manager's
-- lock, so it is one step.
pub mod Steps
pub mod Invariant
pub mod Fifo
pub mod Spec
pub mod Refine
use ai_coding_training.Base.{
  ℕ, zero, suc, ◌+◌, ◌≡◌, Bool, true, false, not, Option, none, some, List, [], ◌∷◌, ◌++◌, leb, ltb,
  if◌then◌else◌, length,
}
use ai_coding_training.Base.Int.{ℤ, pos, negsuc}
use ai_coding_training.Base.Action.{
  Outcome, ok, raised, Action, pure, raise, gets, or_raise, modify, raise_if, ◌>>=◌, ◌>>◌,
}
use ai_coding_training.Text.{Text, codes, is_empty}
use ai_coding_training.Text.Decimal.{decimal}
use ai_coding_training.Text.Names.{name_matches}
use ai_coding_training.Text.Order.{sorted}
use ai_coding_training.Text.Utf8.{encode}
use ai_coding_training.Dict.{Dict, lookup, contains, insert, erase, keys}

pub data QueueError : Type 0 where
  queue_exists : Text → QueueError
  queue_not_found : Text → QueueError
  queue_not_empty : Text → ℕ → QueueError
  queue_full : Text → ℕ → ℕ → QueueError
  invalid_queue_name : Text → QueueError
  message_too_large : ℕ → QueueError
  empty_message : QueueError

-- `str(e)`
unfoldable pub describe : QueueError → Text
unfolding decimal
describe (queue_exists n) = codes "Queue '" ++ n ++ codes "' already exists"
describe (queue_not_found n) = codes "Queue '" ++ n ++ codes "' not found"
describe (queue_not_empty n k) =
    codes "Queue '" ++ n ++ codes "' has " ++ decimal k ++ codes " pending message(s)"
describe (queue_full n k m) =
    codes "Queue '" ++ n ++ codes "' is full (" ++ decimal k ++ codes "/" ++ decimal m ++ codes ")"
describe (invalid_queue_name t) = t
describe (message_too_large m) = codes "Message body exceeds " ++ decimal m ++ codes " bytes"
describe empty_message = codes "Message body must not be empty"

-- `(deque of (msg_id, body), max_size)`
pub record Queue : Type 0 where
  pub items : List (Text × Text)
  pub max_size : ℕ

pub record QueueManager : Type 0 where
  pub default_max_size : ℕ
  pub max_message_bytes : ℕ
  pub queues : Dict Queue

abbrev pub init : QueueManager
init = record { default_max_size = 10000; max_message_bytes = 1048576; queues = [] }

abbrev pub QueueAction : Type 0 → Type 0
QueueAction = Action QueueManager QueueError

unfoldable pub validate_name : Text → QueueAction Unit
validate_name name = do
  raise_if (is_empty name) (invalid_queue_name (codes "Queue name must not be empty"))
  raise_if (not (name_matches name))
      (invalid_queue_name (codes "Queue name must match [a-zA-Z0-9_-]+, length 1-256"))

unfoldable pub validate_message : Text → QueueAction Unit
validate_message body = do
  raise_if (is_empty body) empty_message
  limit ← gets (λ m. m.max_message_bytes)
  raise_if (ltb limit (length (encode body))) (message_too_large limit)

-- The capacity that `create_queue` settles on: `None` and what is not positive take the default.
unfoldable pub capacity : ℕ → Option ℤ → ℕ
capacity default none = default
capacity default (some (pos zero)) = default
capacity default (some (pos (suc n))) = suc n
capacity default (some (negsuc n)) = default

unfoldable pub put : Text → Queue → QueueManager → QueueManager
put name q m = record m { queues = insert name q m.queues }

unfoldable pub create_queue : Text → Option ℤ → QueueAction Unit
unfolding validate_name capacity put
create_queue name max_size = do
  validate_name name
  raise_if (← gets (λ m. contains name m.queues)) (queue_exists name)
  default ← gets (λ m. m.default_max_size)
  modify (put name (record { items = []; max_size = capacity default max_size }))

abbrev pub is_nil {ℓ} : {A : Type ℓ} → List A → Bool
is_nil [] = true
is_nil (x ∷ xs) = false

unfoldable pub delete_queue : Text → QueueAction Unit
delete_queue name = do
  found ← gets (λ m. lookup name m.queues)
  q ← or_raise found (queue_not_found name)
  raise_if (not (is_nil q.items)) (queue_not_empty name (length q.items))
  modify (λ m. record m { queues = erase name m.queues })

unfoldable pub list_queues : QueueManager → List Text
list_queues m = sorted (keys m.queues)

unfoldable pub queue_exists? : Text → QueueManager → Bool
queue_exists? name m = contains name m.queues

unfoldable pub enqueue : Text → Text → Text → QueueAction Unit
unfolding validate_message put
enqueue queue msg_id body = do
  validate_message body
  found ← gets (λ m. lookup queue m.queues)
  q ← or_raise found (queue_not_found queue)
  raise_if (leb q.max_size (length q.items)) (queue_full queue (length q.items) q.max_size)
  modify (put queue (record q { items = q.items ++ (msg_id, body) ∷ [] }))

-- `q.popleft()`, or `None` from an empty deque.
unfoldable pub pop_left : Text → Queue → QueueAction (Option (Text × Text))
unfolding put
pop_left queue q m = elim q.items [
  | [] ↦ (ok none, m)
  | x ∷ rest ↦ (ok (some x), put queue (record q { items = rest }) m)
]

unfoldable pub dequeue : Text → QueueAction (Option (Text × Text))
unfolding pop_left
dequeue queue = do
  found ← gets (λ m. lookup queue m.queues)
  q ← or_raise found (queue_not_found queue)
  pop_left queue q

unfoldable pub get_queue_depth : Text → QueueManager → ℕ
get_queue_depth queue m = elim (lookup queue m.queues) [ none ↦ 0 | some q ↦ length q.items ]
