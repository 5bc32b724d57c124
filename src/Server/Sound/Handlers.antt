-- ===== src/Server/Sound/Handlers.antt =====
-- The handlers of the server keep it sound.
use ai_coding_training.Base.{ℕ, Option, none, some, List, get_elem?}
use ai_coding_training.Base.Int.{pos}
use ai_coding_training.Base.Keeps.{
  Keeps, bind-Keeps, then-Keeps, pure-Keeps, gets-Keeps, or_raise-Keeps,
}
use ai_coding_training.Text.{Text}
use ai_coding_training.Text.Decimal.{int}
use ai_coding_training.Protocol.{ok_response}
use ai_coding_training.Acks.{Ref}
use ai_coding_training.Topics.{create_topic, delete_topic, subscribe, unsubscribe}
use ai_coding_training.Topics.Invariant.{
  create_topic-IsValid, delete_topic-IsValid, subscribe-IsValid, unsubscribe-IsValid,
}
use ai_coding_training.Queues.{create_queue, delete_queue}
use ai_coding_training.Queues.Invariant.{create_queue-IsValid, delete_queue-IsValid}
use ai_coding_training.Groups.{create_group, delete_group, leave_group}
use ai_coding_training.Groups.Invariant.{
  create_group-IsValid, delete_group-IsValid, leave_group-IsValid,
}
use ai_coding_training.Router.{get_message, route_to_topic, route_to_queue, set_offset}
use ai_coding_training.Router.Sound.{route_to_topic-Sound, route_to_queue-Sound, set_offset-Sound}
use ai_coding_training.Persistence.Log.{append}
use ai_coding_training.Server.{bad_int, cmd_ping}
use ai_coding_training.Server.Admin.{
  cmd_create_topic, cmd_delete_topic, cmd_create_queue, cmd_delete_queue, cmd_subscribe,
  cmd_unsubscribe, cmd_create_group, cmd_delete_group, cmd_leave_group, create_topic_answer,
  delete_topic_answer, create_queue_answer, size_arg, delete_queue_answer, topic_answer,
  create_group_answer, delete_group_answer, leave_group_answer,
}
use ai_coding_training.Server.Messages.{
  keep, cmd_publish, publish_answer, cmd_send, send_answer, cmd_set_offset, set_offset_answer,
}
use ai_coding_training.Server.Sound.{
  Sound, on_topics-Sound, on_queues-Sound, on_groups-Sound, on_log-Sound, on_router-Sound,
  catch-Sound, arg-Sound, set_consumer-Sound,
}

module _ (k : ℕ) where
  pub cmd_create_topic-Sound : (args : List Text) → Keeps (Sound k) (cmd_create_topic args)
  unfolding cmd_create_topic
  cmd_create_topic-Sound args = bind-Keeps (arg-Sound k args 0) (λ name.
      catch-Sound k (create_topic_answer name) (
        then-Keeps (on_topics-Sound k (create_topic name) (create_topic-IsValid name))
          (pure-Keeps _)))

  pub cmd_delete_topic-Sound : (args : List Text) → Keeps (Sound k) (cmd_delete_topic args)
  unfolding cmd_delete_topic
  cmd_delete_topic-Sound args = bind-Keeps (arg-Sound k args 0) (λ name.
      catch-Sound k delete_topic_answer (
        then-Keeps (on_topics-Sound k (delete_topic name) (delete_topic-IsValid name))
          (pure-Keeps _)))

  size_arg-Sound : (o : Option Text) → Keeps (Sound k) (size_arg o)
  unfolding size_arg
  size_arg-Sound none = pure-Keeps none
  size_arg-Sound (some t) = bind-Keeps (or_raise-Keeps (int t) bad_int) (λ n. pure-Keeps (some n))

  pub cmd_create_queue-Sound : (args : List Text) → Keeps (Sound k) (cmd_create_queue args)
  unfolding cmd_create_queue
  cmd_create_queue-Sound args = bind-Keeps (arg-Sound k args 0) (λ name.
      catch-Sound k create_queue_answer (
        bind-Keeps (size_arg-Sound (get_elem? args 1)) (λ size.
          then-Keeps (on_queues-Sound k (create_queue name size) (create_queue-IsValid name size))
            (pure-Keeps _))))

  pub cmd_delete_queue-Sound : (args : List Text) → Keeps (Sound k) (cmd_delete_queue args)
  unfolding cmd_delete_queue
  cmd_delete_queue-Sound args = bind-Keeps (arg-Sound k args 0) (λ name.
      catch-Sound k delete_queue_answer (
        then-Keeps (on_queues-Sound k (delete_queue name) (delete_queue-IsValid name))
          (pure-Keeps _)))

  pub cmd_subscribe-Sound : (id : Text) (args : List Text) → Keeps (Sound k) (cmd_subscribe id args)
  unfolding cmd_subscribe
  cmd_subscribe-Sound id args = bind-Keeps (arg-Sound k args 0) (λ topic.
      catch-Sound k topic_answer (
        then-Keeps (on_topics-Sound k (subscribe topic id) (subscribe-IsValid topic id))
          (then-Keeps (set_consumer-Sound k id _) (pure-Keeps _))))

  pub cmd_unsubscribe-Sound :
      (id : Text) (args : List Text) → Keeps (Sound k) (cmd_unsubscribe id args)
  unfolding cmd_unsubscribe
  cmd_unsubscribe-Sound id args = bind-Keeps (arg-Sound k args 0) (λ topic.
      catch-Sound k topic_answer (
        then-Keeps (on_topics-Sound k (unsubscribe topic id) (unsubscribe-IsValid topic id))
          (then-Keeps (set_consumer-Sound k id _) (pure-Keeps _))))

  pub cmd_create_group-Sound : (args : List Text) → Keeps (Sound k) (cmd_create_group args)
  unfolding cmd_create_group
  cmd_create_group-Sound args = bind-Keeps (arg-Sound k args 0) (λ target.
      bind-Keeps (arg-Sound k args 1) (λ group. catch-Sound k create_group_answer (
        then-Keeps
          (on_groups-Sound k (create_group target group) (create_group-IsValid target group))
          (pure-Keeps _))))

  pub cmd_delete_group-Sound : (args : List Text) → Keeps (Sound k) (cmd_delete_group args)
  unfolding cmd_delete_group
  cmd_delete_group-Sound args = bind-Keeps (arg-Sound k args 0) (λ group.
      catch-Sound k delete_group_answer (
        then-Keeps (on_groups-Sound k (delete_group group) (delete_group-IsValid group))
          (pure-Keeps _)))

  pub cmd_leave_group-Sound :
      (id : Text) (args : List Text) → Keeps (Sound k) (cmd_leave_group id args)
  unfolding cmd_leave_group
  cmd_leave_group-Sound id args = bind-Keeps (arg-Sound k args 0) (λ group.
      catch-Sound k leave_group_answer (
        then-Keeps (on_groups-Sound k (leave_group group id) (leave_group-IsValid group id))
          (then-Keeps (set_consumer-Sound k id _) (pure-Keeps _))))

  keep-Sound : (now free : ℕ) (o : Option Ref) → Keeps (Sound k) (keep now free o)
  unfolding keep
  keep-Sound now free none = pure-Keeps tt
  keep-Sound now free (some r) =
      bind-Keeps (gets-Keeps (λ s. s.router.heap r))
        (λ msg. then-Keeps (on_log-Sound k (append now free msg)) (pure-Keeps tt))

  pub cmd_publish-Sound :
      (now free : ℕ) (args : List Text) → Keeps (Sound k) (cmd_publish now free args)
  unfolding cmd_publish
  cmd_publish-Sound now free args = bind-Keeps (arg-Sound k args 0) (λ topic.
      bind-Keeps (arg-Sound k args 1) (λ body. catch-Sound k publish_answer (
        bind-Keeps
          (on_router-Sound k (route_to_topic now now topic body (pos 0))
            (λ dlq. route_to_topic-Sound k dlq now now topic body (pos 0)))
          (λ id.
            bind-Keeps (gets-Keeps (λ s. get_message id s.router))
              (λ found. then-Keeps (keep-Sound now free found) (pure-Keeps (ok_response id)))))))

  pub cmd_send-Sound : (now free : ℕ) (args : List Text) → Keeps (Sound k) (cmd_send now free args)
  unfolding cmd_send
  cmd_send-Sound now free args = bind-Keeps (arg-Sound k args 0) (λ queue.
      bind-Keeps (arg-Sound k args 1) (λ body. catch-Sound k send_answer (
        bind-Keeps
          (on_router-Sound k (route_to_queue now now queue body (pos 0))
            (λ dlq. route_to_queue-Sound k dlq now now queue body (pos 0)))
          (λ id.
            bind-Keeps (gets-Keeps (λ s. get_message id s.router))
              (λ found. then-Keeps (keep-Sound now free found) (pure-Keeps (ok_response id)))))))

  pub cmd_ping-Sound : (now : ℕ) (id : Text) → Keeps (Sound k) (cmd_ping now id)
  unfolding cmd_ping
  cmd_ping-Sound now id = then-Keeps (set_consumer-Sound k id _) (pure-Keeps _)

  pub cmd_set_offset-Sound :
      (int_error : Text → Text) (id : Text) (args : List Text)
      → Keeps (Sound k) (cmd_set_offset int_error id args)
  unfolding cmd_set_offset
  cmd_set_offset-Sound int_error id args = bind-Keeps (arg-Sound k args 0) (λ topic.
      bind-Keeps (arg-Sound k args 1) (λ t. catch-Sound k (set_offset_answer int_error t) (
        bind-Keeps (or_raise-Keeps (int t) bad_int) (λ offset.
          then-Keeps
            (on_router-Sound k (set_offset topic id offset)
              (λ dlq. set_offset-Sound k dlq topic id offset))
            (pure-Keeps _)))))
