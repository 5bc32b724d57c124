-- ===== src/Server/Messages.antt =====
-- The handlers of src/server.py that take messages, hand them out and settle them.
use ai_coding_training.Base.{
  ℕ, suc, ◌*◌, ◌-◌, Option, none, some, List, [], ◌∷◌, ◌++◌, Bool, true, false, not, length,
  if◌then◌else◌,
}
use ai_coding_training.Base.Int.{ℤ, pos, negsuc}
use ai_coding_training.Base.Action.{ok, raised, pure, raise, gets, or_raise, ◌>>=◌, ◌>>◌}
use ai_coding_training.Text.{Text, codes, text_eq}
use ai_coding_training.Text.Decimal.{decimal, int}
use ai_coding_training.Text.Words.{join, upper}
use ai_coding_training.Models.{millisecond}
use ai_coding_training.Protocol.{ok_response, err_response, null_response, message_response}
use ai_coding_training.Topics.{topic_not_found}
use ai_coding_training.Groups.{group_exists?, create_group, join_group, next_consumer}
use ai_coding_training.Members.{add}
use ai_coding_training.Queues.{
  queue_not_found, queue_full, empty_message, message_too_large, queue_exists?,
}
use ai_coding_training.Acks.{Ref, ack, nack, not_delivered, not_owner, nack_not_delivered}
use ai_coding_training.Router.{
  route_to_topic, route_to_queue, get_message, set_offset, negative_offset, Poll, message, nothing,
  polling, Round, consume_from_queue,
}
use ai_coding_training.Persistence.Log.{append}
use ai_coding_training.Server.{
  ServerError, ServerAction, in_topics, in_queues, in_acks, in_router, bad_int, unfinished,
  set_consumer, name_error, on_groups, on_router, on_acks, on_log, catch, arg, code,
}

-- `msg = self.router.get_message(msg_id)`, and the log entry for it.
unfoldable pub keep : ℕ → ℕ → Option Ref → ServerAction Unit
keep now free none = pure tt
keep now free (some r) = do msg ← gets (λ s. s.router.heap r); on_log (append now free msg); pure tt

unfoldable pub publish_answer : ServerError → Option Text
publish_answer (in_topics (topic_not_found n)) = code (codes "ERR_TOPIC_NOT_FOUND")
publish_answer (in_queues empty_message) = code (codes "ERR_EMPTY_MESSAGE")
publish_answer (in_queues (message_too_large n)) = code (codes "ERR_MESSAGE_TOO_LARGE")
publish_answer e = none

-- `free` is the free space of the disk.
unfoldable pub cmd_publish : ℕ → ℕ → List Text → ServerAction Text
cmd_publish now free args = do
  topic ← arg args 0
  body ← arg args 1
  catch publish_answer (do
    id ← on_router (route_to_topic now now topic body (pos 0))
    found ← gets (λ s. get_message id s.router)
    keep now free found
    pure (ok_response id))

unfoldable pub send_answer : ServerError → Option Text
send_answer (in_queues (queue_not_found n)) = code (codes "ERR_QUEUE_NOT_FOUND")
send_answer (in_queues (queue_full n k m)) = code (codes "ERR_QUEUE_FULL")
send_answer (in_queues empty_message) = code (codes "ERR_EMPTY_MESSAGE")
send_answer (in_queues (message_too_large n)) = code (codes "ERR_MESSAGE_TOO_LARGE")
send_answer e = none

unfoldable pub cmd_send : ℕ → ℕ → List Text → ServerAction Text
cmd_send now free args = do
  queue ← arg args 0
  body ← arg args 1
  catch send_answer (do
    id ← on_router (route_to_queue now now queue body (pos 0))
    found ← gets (λ s. get_message id s.router)
    keep now free found
    pure (ok_response id))

-- What is done with the object of a message, or the answer that there is none.
unfoldable pub use_found : (Ref → ServerAction Text) → Option Ref → ServerAction Text
use_found use_it none = pure (err_response (codes "ERR_MESSAGE_NOT_FOUND") [])
use_found use_it (some r) = use_it r

unfoldable pub with_message : Text → (Ref → ServerAction Text) → ServerAction Text
unfolding use_found
with_message id use_it = do found ← gets (λ s. get_message id s.router); use_found use_it found

-- Every `ValueError` of the manager has an answer; one whose text says that the message is not in
-- the state DELIVERED counts as done.
unfoldable pub ack_answer : ServerError → Option Text
ack_answer (in_acks (not_delivered id status)) = some (ok_response [])
ack_answer (in_acks (not_owner id c)) = some (
    err_response (codes "ERR_NOT_YOUR_MESSAGE")
      (codes "Message '" ++ id ++ codes "' is not delivered to '" ++ c ++ codes "'"))
ack_answer e = none

unfoldable pub cmd_ack : Text → List Text → ServerAction Text
cmd_ack consumer_id args = do
  id ← arg args 0
  with_message id (λ r. catch ack_answer (do on_acks (ack r consumer_id); pure (ok_response [])))

-- Whether one message of a batch has failed: it is not there, or `ack` raises a `ValueError`.
unfoldable pub ack_fails : Text → Option Ref → ServerAction Bool
ack_fails consumer_id none s = (ok true, s)
ack_fails consumer_id (some r) s =
    let (o, s') = on_acks (ack r consumer_id) s in
    elim o [ ok u ↦ (ok false, s') | raised e ↦ (ok true, s') ]

unfoldable pub ack_each : Text → List Text → ServerAction (List Text)
ack_each consumer_id [] = pure []
ack_each consumer_id (id ∷ ids) = do
  found ← gets (λ s. get_message id s.router)
  fails ← ack_fails consumer_id found
  rest ← ack_each consumer_id ids
  pure (if fails then id ∷ rest else rest)

abbrev batch_answer : ℕ → List Text → Text
batch_answer n [] = ok_response (codes "ACKed " ++ decimal n ++ codes " messages")
batch_answer n (id ∷ ids) =
    err_response (codes "ERR_PARTIAL_ACK") (codes "Failed: " ++ join (codes ", ") (id ∷ ids))

unfoldable pub cmd_ack_batch : Text → List Text → ServerAction Text
cmd_ack_batch consumer_id ids = do
  failed ← ack_each consumer_id ids
  pure (batch_answer (length ids) failed)

unfoldable pub nack_answer : ServerError → Option Text
nack_answer (in_acks nack_not_delivered) = code (codes "ERR_NOT_YOUR_MESSAGE")
nack_answer (in_acks (not_owner id c)) = code (codes "ERR_NOT_YOUR_MESSAGE")
nack_answer e = none

-- After the manager's `nack`, the condition names `MessageStatus`, which the file does not import.
unfoldable pub cmd_nack : Text → List Text → ServerAction Text
cmd_nack consumer_id args = do
  id ← arg args 0
  with_message id (λ r. catch nack_answer (do on_acks (nack r consumer_id); raise name_error))

unfoldable pub set_offset_answer : (Text → Text) → Text → ServerError → Option Text
set_offset_answer int_error t (in_router negative_offset) =
    some (err_response (codes "ERR_INVALID_OFFSET") (codes "Offset must not be negative"))
set_offset_answer int_error t bad_int =
    some (err_response (codes "ERR_INVALID_OFFSET") (int_error t))
set_offset_answer int_error t e = none

-- `str(n)` of a whole number.
abbrev decimal_ℤ : ℤ → Text
decimal_ℤ (pos n) = decimal n
decimal_ℤ (negsuc n) = b'-' ∷ decimal (suc n)

-- `int_error` is the text of the `ValueError` of `int`.
unfoldable pub cmd_set_offset : (Text → Text) → Text → List Text → ServerAction Text
cmd_set_offset int_error consumer_id args = do
  topic ← arg args 0
  t ← arg args 1
  catch (set_offset_answer int_error t) (do
    offset ← or_raise (int t) bad_int
    on_router (set_offset topic consumer_id offset)
    pure (ok_response (codes "Offset set to " ++ decimal_ℤ offset)))

-- Microseconds for milliseconds.
abbrev micros : ℤ → ℤ
micros (pos n) = pos (n * millisecond)
micros (negsuc n) = negsuc (suc n * millisecond - 1)

-- `TIMEOUT <ms>`, in microseconds; `none` stands for the `ValueError` of `int`.
unfoldable pub timeout_arg : List Text → Option ℤ
timeout_arg (queue ∷ word ∷ ms ∷ more) =
    if text_eq (upper word) (codes "TIMEOUT")
    then (elim (int ms) [ none ↦ none | some z ↦ some (micros z) ])
    else some (pos 0)
timeout_arg args = some (pos 0)

unfoldable pub consume_answer : ServerError → Option Text
consume_answer (in_queues (queue_not_found n)) = code (codes "ERR_QUEUE_NOT_FOUND")
consume_answer e = none

-- The answer for what the router found.
unfoldable pub deliver_answer : Poll → ServerAction Text
deliver_answer (message r) =
    gets (λ s. message_response (s.router.heap r).msg_id (s.router.heap r).body)
deliver_answer nothing = pure null_response
deliver_answer polling = raise unfinished

unfoldable pub cmd_consume : ℕ → List Round → Text → List Text → ServerAction Text
cmd_consume start rounds consumer_id args = do
  queue ← arg args 0
  (elim (timeout_arg args) [
    | none ↦ pure (
        err_response (codes "ERR_INVALID_TIMEOUT")
          (codes "Timeout must be an integer in milliseconds"))
    | some timeout ↦ catch consume_answer (do
      found ← on_router (consume_from_queue queue consumer_id timeout start rounds)
      deliver_answer found)
  ])

-- A group that is not there is made, if the queue is there.
unfoldable pub ensure_group : Text → Text → ServerAction Bool
ensure_group queue group = do
  there ← gets (λ s. group_exists? group s.group_mgr)
  known ← gets (λ s. queue_exists? queue s.router.queues)
  if there
      then pure true
      else (if known then (do on_groups (create_group queue group); pure true) else pure false)

abbrev pub is_chosen : Text → Option Text → Bool
is_chosen consumer_id none = false
is_chosen consumer_id (some c) = text_eq c consumer_id

-- After the group is there: the consumer joins it, and takes a message if the round robin has
-- chosen it.
unfoldable pub take_turn : ℕ → List Round → Text → Text → Text → ServerAction Text
take_turn now rounds consumer_id queue group = do
  on_groups (join_group now group consumer_id)
  set_consumer consumer_id (λ c. record c { groups = add group c.groups })
  selected ← on_groups (λ m. let (c, m') = next_consumer group m in (ok c, m'))
  if not (is_chosen consumer_id selected) then pure null_response else (do
    found ← on_router (consume_from_queue queue consumer_id (pos 0) now rounds)
    deliver_answer found)

unfoldable pub cmd_consume_group : ℕ → List Round → Text → List Text → ServerAction Text
cmd_consume_group now rounds consumer_id args = do
  queue ← arg args 0
  group ← arg args 1
  catch consume_answer (do
    there ← ensure_group queue group
    if there
        then take_turn now rounds consumer_id queue group
        else pure (err_response (codes "ERR_QUEUE_NOT_FOUND") []))
