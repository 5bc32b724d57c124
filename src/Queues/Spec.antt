-- ===== src/Queues/Spec.antt =====
-- What a queue manager promises: a board of bounded first-in-first-out channels, by name. It says
-- nothing of the order in which the queues were made, and it has no dictionary.
use ai_coding_training.Base.{
  ℕ, suc, Bool, true, false, Option, none, some, List, [], ◌∷◌, ◌++◌, ltb, leb, if◌then◌else◌,
  length,
}
use ai_coding_training.Base.Int.{ℤ, pos}
use ai_coding_training.Text.{Text, codes, text_eq, is_empty}
use ai_coding_training.Text.Names.{name_matches}
use ai_coding_training.Text.Utf8.{encode}
use ai_coding_training.Queues.{
  QueueError, queue_exists, queue_not_found, queue_not_empty, queue_full, invalid_queue_name,
  message_too_large, empty_message,
}

-- What a caller asks for, and what it is told.
pub data Request : Type 0 where
  create : Text → Option ℤ → Request
  delete : Text → Request
  send : Text → Text → Text → Request
  take : Text → Request
  depth : Text → Request
  exists : Text → Request

pub data Reply : Type 0 where
  done : Reply
  refused : QueueError → Reply
  taken : Option (Text × Text) → Reply
  count : ℕ → Reply
  answer : Bool → Reply

-- A channel: how many messages it may hold, and those that it holds, oldest first.
pub data Channel : Type 0 where
  channel : ℕ → List (Text × Text) → Channel

abbrev pub Board : Type 0
Board = Text → Option Channel

-- The board with one name changed.
unfoldable pub post : Text → Option Channel → Board → Board
post name o b n = if text_eq name n then o else b n

abbrev pub size_of : ℕ → Option ℤ → ℕ
size_of default (some (pos (suc n))) = suc n
size_of default _ = default

module _ (default limit : ℕ) where
  abbrev pub create_on : Text → Option ℤ → Board → Option Channel → Reply × Board
  create_on name size b (some c) = (refused (queue_exists name), b)
  create_on name size b none = (done, post name (some (channel (size_of default size) [])) b)

  abbrev pub delete_on : Text → Board → Option Channel → Reply × Board
  delete_on name b none = (refused (queue_not_found name), b)
  delete_on name b (some (channel n [])) = (done, post name none b)
  delete_on name b (some (channel n (x ∷ xs))) =
      (refused (queue_not_empty name (length (x ∷ xs))), b)

  -- A channel takes a message while it holds fewer than it may.
  abbrev pub send_on : Text → Text × Text → Board → Option Channel → Reply × Board
  send_on name x b none = (refused (queue_not_found name), b)
  send_on name x b (some (channel n xs)) =
      if ltb (length xs) n
      then (done, post name (some (channel n (xs ++ x ∷ []))) b)
      else (refused (queue_full name (length xs) n), b)

  abbrev pub take_on : Text → Board → Option Channel → Reply × Board
  take_on name b none = (refused (queue_not_found name), b)
  take_on name b (some (channel n [])) = (taken none, b)
  take_on name b (some (channel n (x ∷ xs))) = (taken (some x), post name (some (channel n xs)) b)

  abbrev pub depth_of : Option Channel → ℕ
  depth_of none = 0
  depth_of (some (channel n xs)) = length xs

  abbrev pub is_there : Option Channel → Bool
  is_there none = false
  is_there (some c) = true

  unfoldable pub reply_to : Request → Board → Reply × Board
  reply_to (create name size) b =
      if is_empty name
      then (refused (invalid_queue_name (codes "Queue name must not be empty")), b)
      else if name_matches name
      then create_on name size b (b name)
      else (
        refused (invalid_queue_name (codes "Queue name must match [a-zA-Z0-9_-]+, length 1-256")),
        b,
      )
  reply_to (delete name) b = delete_on name b (b name)
  reply_to (send name id body) b =
      if is_empty body
      then (refused empty_message, b)
      else if leb (length (encode body)) limit
      then send_on name (id, body) b (b name)
      else (refused (message_too_large limit), b)
  reply_to (take name) b = take_on name b (b name)
  reply_to (depth name) b = (count (depth_of (b name)), b)
  reply_to (exists name) b = (answer (is_there (b name)), b)

  -- The replies to some requests, one after the other.
  unfoldable pub replies : List Request → Board → List Reply
  replies [] b = []
  replies (r ∷ rs) b = let (a, b') = reply_to r b in a ∷ replies rs b'
