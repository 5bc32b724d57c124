-- ===== src/Server/Upkeep.antt =====
-- What src/server.py does at its start, when a consumer goes, in the checker thread, and with the DLQ.
use ai_coding_training.Base.{
  ℕ, ◌+◌, ◌||◌, Option, none, some, List, [], ◌∷◌, ◌++◌, Bool, true, false, length, if◌then◌else◌,
}
use ai_coding_training.Base.Action.{ok, pure, raise, gets, modify, ◌>>=◌, ◌>>◌}
use ai_coding_training.Text.{Text, codes, text_eq}
use ai_coding_training.Text.Decimal.{decimal}
use ai_coding_training.Models.{Message}
use ai_coding_training.Protocol.{ok_response, err_response}
use ai_coding_training.Dict.{Dict, contains, erase}
use ai_coding_training.Topics.{remove_consumer_from_all}
use ai_coding_training.Groups
use ai_coding_training.Groups.{remove_consumer_from_all_groups}
use ai_coding_training.Queues.{enqueue, queue_exists?}
use ai_coding_training.Acks.{
  Ref, update, check_timeouts, check_ttl, replay_from_dlq, replay_all_from_dlq,
}
use ai_coding_training.Router.{Router, restore_message}
use ai_coding_training.Persistence.Log.{recover, close}
use ai_coding_training.Server.{
  ServerAction, in_codec, raise_as, name_error, on_topics, on_groups, on_queues, on_router, on_acks,
  arg,
}

-- `self.queue_mgr.enqueue(msg.target, msg.msg_id, msg.body)`, where the target is a queue.
unfoldable pub enqueue_again : Ref → ServerAction Unit
enqueue_again r = do
  msg ← gets (λ s. s.router.heap r)
  there ← gets (λ s. queue_exists? msg.target s.router.queues)
  if there then on_queues (enqueue msg.target msg.msg_id msg.body) else pure tt

unfoldable pub put_back : Ref → ServerAction Unit
put_back r = do on_router (restore_message r); enqueue_again r

-- What `REPLAY` does with the message of the DLQ, if there was one.
unfoldable pub replayed : Text → Option Ref → ServerAction Text
replayed id none = pure (err_response (codes "ERR_MESSAGE_NOT_FOUND") [])
replayed id (some r) = do
  put_back r
  pure (ok_response (codes "Message " ++ id ++ codes " replayed"))

unfoldable pub cmd_replay : List Text → ServerAction Text
unfolding replayed
cmd_replay args = do
  marker ← arg args 0
  id ← arg args 1
  found ← on_acks (replay_from_dlq id)
  replayed id found

unfoldable pub put_back_all : List Ref → ServerAction Unit
put_back_all [] = pure tt
put_back_all (r ∷ rs) = do put_back r; put_back_all rs

unfoldable pub replayed_all : Text → List Ref → ServerAction Text
replayed_all target found = do
  put_back_all found
  pure (
      ok_response (
        codes "Replayed "
        ++ decimal (length found)
        ++ codes " messages to '"
        ++ target
        ++ codes "'"))

unfoldable pub cmd_replay_all : List Text → ServerAction Text
unfolding replayed_all
cmd_replay_all args = do
  marker ← arg args 0
  target ← arg args 1
  found ← on_acks (replay_all_from_dlq target)
  replayed_all target found

-- A message object that is not there yet.
unfoldable pub new_object : Message → ServerAction Ref
new_object m s =
    let r = s.router.next_ref in
    (
      ok r,
      record s { router = record s.router { heap = update r m s.router.heap; next_ref = r + 1 } },
    )

unfoldable pub restore_all : List Message → ServerAction Unit
unfolding new_object
restore_all [] = pure tt
restore_all (m ∷ ms) = do r ← new_object m; on_router (restore_message r); restore_all ms

-- `self.persistence.recover()`
unfoldable pub recover_log : ServerAction (List Message)
recover_log s =
    let (o, l) = recover s.persistence in (raise_as in_codec o, record s { persistence = l })

-- `start`, up to the threads: each recovered message is restored.
unfoldable pub start : ServerAction Unit
start = do ms ← recover_log; restore_all ms

unfoldable pub any_with : (Message → Bool) → Router → Dict Ref → Bool
any_with p s [] = false
any_with p s ((id, r) ∷ d) = p (s.heap r) || any_with p s d

-- `stop`, once the threads of the clients have ended: the log is closed.
unfoldable pub stop : ℕ → ServerAction Unit
stop now = modify (λ s. record s { persistence = close now s.persistence })

-- `_redeliver_pending_messages`: the first message that was handed to the consumer makes the
-- condition name `MessageStatus`, before anything is changed.
unfoldable pub redeliver : Text → ServerAction Unit
redeliver consumer_id = do
  hit ← gets (λ s. any_with (λ m. text_eq m.delivered_to consumer_id) s.router s.router.messages)
  if hit then raise name_error else pure tt

abbrev pub has_any : List Text → Bool
has_any [] = false
has_any (x ∷ s) = true

unfoldable pub unregister_consumer : Text → ServerAction Unit
unregister_consumer id = do
  on_topics (λ m. (ok tt, remove_consumer_from_all id m))
  groups ← on_groups (λ m. let (gs, m') = remove_consumer_from_all_groups id m in (ok gs, m'))
  modify (λ s. record s { consumers = erase id s.consumers })
  if has_any groups then redeliver id else pure tt

unfoldable pub redeliver_each : List Text → ServerAction Unit
redeliver_each [] = pure tt
redeliver_each (id ∷ ids) = do redeliver id; redeliver_each ids

-- `if msg and msg.status == ...`, for the ids that `check_timeouts` returned: the first one that has
-- a message makes the condition name `MessageStatus`.
unfoldable pub requeue_each : List Text → ServerAction Unit
requeue_each [] = pure tt
requeue_each (id ∷ ids) = do
  known ← gets (λ s. contains id s.router.messages)
  if known then raise name_error else requeue_each ids

-- One round of `_checker_loop`, which logs every exception and goes on. A wait for the lock that
-- does not end is no exception: it stays `deadlock`.
unfoldable pub checker_round : ℕ → ServerAction Unit
checker_round now = do
  messages ← gets (λ s. s.router.messages)
  late ← on_acks (check_timeouts now messages)
  requeue_each late
  on_acks (check_ttl now messages)
  offline ← on_groups (λ m. let (ids, m') = Groups.check_timeouts now m in (ok ids, m'))
  redeliver_each offline
