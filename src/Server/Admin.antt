-- ===== src/Server/Admin.antt =====
-- The handlers of src/server.py that manage topics, queues, subscriptions and groups.
use ai_coding_training.Base.{Option, none, some, List, [], ◌∷◌, ◌++◌, get_elem?}
use ai_coding_training.Base.Int.{ℤ}
use ai_coding_training.Base.Action.{pure, gets, or_raise, ◌>>=◌, ◌>>◌}
use ai_coding_training.Text.{Text, codes}
use ai_coding_training.Text.Decimal.{int}
use ai_coding_training.Text.Words.{join}
use ai_coding_training.Members.{add, discard}
use ai_coding_training.Protocol.{ok_response, err_response, data_response}
use ai_coding_training.Topics.{
  invalid_topic_name, topic_exists, max_topics_reached, topic_not_found, topic_has_subscribers,
  create_topic, delete_topic, list_topics, subscribe, unsubscribe,
}
use ai_coding_training.Queues.{
  invalid_queue_name, queue_exists, queue_not_found, queue_not_empty, create_queue, delete_queue,
  list_queues,
}
use ai_coding_training.Groups.{
  group_exists, group_not_found, group_has_consumers, create_group, delete_group, leave_group,
}
use ai_coding_training.Server.{
  ServerError, ServerAction, in_topics, in_queues, in_groups, bad_int, on_topics, on_queues,
  on_groups, catch, arg, code, set_consumer,
}

-- `f"{before}'{name}'{after}"`
abbrev quoted : Text → Text → Text → Text
quoted before name after = before ++ b'\'' ∷ name ++ b'\'' ∷ after

unfoldable pub create_topic_answer : Text → ServerError → Option Text
create_topic_answer name (in_topics (invalid_topic_name t)) =
    some (err_response (codes "ERR_INVALID_NAME") t)
create_topic_answer name (in_topics (topic_exists n)) = some (
    err_response (codes "ERR_TOPIC_EXISTS")
      (quoted (codes "Topic ") name (codes " already exists")))
create_topic_answer name (in_topics (max_topics_reached n)) = code (codes "ERR_MAX_TOPICS_REACHED")
create_topic_answer name e = none

unfoldable pub cmd_create_topic : List Text → ServerAction Text
cmd_create_topic args = do
  name ← arg args 0
  catch (create_topic_answer name) (do
    on_topics (create_topic name)
    pure (ok_response (quoted (codes "Topic ") name (codes " created"))))

unfoldable pub delete_topic_answer : ServerError → Option Text
delete_topic_answer (in_topics (topic_not_found n)) = code (codes "ERR_TOPIC_NOT_FOUND")
delete_topic_answer (in_topics (topic_has_subscribers n k)) =
    code (codes "ERR_TOPIC_HAS_SUBSCRIBERS")
delete_topic_answer e = none

unfoldable pub cmd_delete_topic : List Text → ServerAction Text
cmd_delete_topic args = do
  name ← arg args 0
  catch delete_topic_answer (do
    on_topics (delete_topic name)
    pure (ok_response (quoted (codes "Topic ") name (codes " deleted"))))

-- `"\n".join(names) if names else "(empty)"`
abbrev listing : List Text → Text
listing [] = codes "(empty)"
listing (n ∷ ns) = join (b'\n' ∷ []) (n ∷ ns)

unfoldable pub cmd_list_topics : ServerAction Text
cmd_list_topics = gets (λ s. data_response (listing (list_topics s.router.topics)))

unfoldable pub create_queue_answer : ServerError → Option Text
create_queue_answer (in_queues (invalid_queue_name t)) =
    some (err_response (codes "ERR_INVALID_NAME") t)
create_queue_answer (in_queues (queue_exists n)) = code (codes "ERR_QUEUE_EXISTS")
create_queue_answer e = none

-- `int(cmd.args[1]) if len(cmd.args) > 1 else None`
unfoldable pub size_arg : Option Text → ServerAction (Option ℤ)
size_arg none = pure none
size_arg (some t) = do n ← or_raise (int t) bad_int; pure (some n)

unfoldable pub cmd_create_queue : List Text → ServerAction Text
cmd_create_queue args = do
  name ← arg args 0
  catch create_queue_answer (do
    max_size ← size_arg (get_elem? args 1)
    on_queues (create_queue name max_size)
    pure (ok_response (quoted (codes "Queue ") name (codes " created"))))

unfoldable pub delete_queue_answer : ServerError → Option Text
delete_queue_answer (in_queues (queue_not_found n)) = code (codes "ERR_QUEUE_NOT_FOUND")
delete_queue_answer (in_queues (queue_not_empty n k)) = code (codes "ERR_QUEUE_NOT_EMPTY")
delete_queue_answer e = none

unfoldable pub cmd_delete_queue : List Text → ServerAction Text
cmd_delete_queue args = do
  name ← arg args 0
  catch delete_queue_answer (do
    on_queues (delete_queue name)
    pure (ok_response (quoted (codes "Queue ") name (codes " deleted"))))

unfoldable pub cmd_list_queues : ServerAction Text
cmd_list_queues = gets (λ s. data_response (listing (list_queues s.router.queues)))

unfoldable pub topic_answer : ServerError → Option Text
topic_answer (in_topics (topic_not_found n)) = code (codes "ERR_TOPIC_NOT_FOUND")
topic_answer e = none

unfoldable pub cmd_subscribe : Text → List Text → ServerAction Text
cmd_subscribe id args = do
  topic ← arg args 0
  catch topic_answer (do
    on_topics (subscribe topic id)
    set_consumer id (λ c. record c { subscriptions = add topic c.subscriptions })
    pure (ok_response (quoted (codes "Subscribed to ") topic [])))

unfoldable pub cmd_unsubscribe : Text → List Text → ServerAction Text
cmd_unsubscribe id args = do
  topic ← arg args 0
  catch topic_answer (do
    on_topics (unsubscribe topic id)
    set_consumer id (λ c. record c { subscriptions = discard topic c.subscriptions })
    pure (ok_response (quoted (codes "Unsubscribed from ") topic [])))

unfoldable pub create_group_answer : ServerError → Option Text
create_group_answer (in_groups (group_exists n)) = code (codes "ERR_GROUP_EXISTS")
create_group_answer e = none

unfoldable pub cmd_create_group : List Text → ServerAction Text
cmd_create_group args = do
  target ← arg args 0
  group ← arg args 1
  catch create_group_answer (do
    on_groups (create_group target group)
    pure (
        ok_response
          (quoted (codes "Group ") group (codes " created (target='") ++ target ++ codes "')")))

unfoldable pub delete_group_answer : ServerError → Option Text
delete_group_answer (in_groups (group_not_found n)) = code (codes "ERR_GROUP_NOT_FOUND")
delete_group_answer (in_groups (group_has_consumers n k)) = code (codes "ERR_GROUP_HAS_CONSUMERS")
delete_group_answer e = none

unfoldable pub cmd_delete_group : List Text → ServerAction Text
cmd_delete_group args = do
  group ← arg args 0
  catch delete_group_answer (do
    on_groups (delete_group group)
    pure (ok_response (quoted (codes "Group ") group (codes " deleted"))))

unfoldable pub leave_group_answer : ServerError → Option Text
leave_group_answer (in_groups (group_not_found n)) = code (codes "ERR_GROUP_NOT_FOUND")
leave_group_answer e = none

unfoldable pub cmd_leave_group : Text → List Text → ServerAction Text
cmd_leave_group id args = do
  group ← arg args 0
  catch leave_group_answer (do
    on_groups (leave_group group id)
    set_consumer id (λ c. record c { groups = discard group c.groups })
    pure (ok_response (quoted (codes "Left group ") group [])))
