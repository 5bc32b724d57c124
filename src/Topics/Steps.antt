-- ===== src/Topics/Steps.antt =====
-- The calls that change a `TopicManager`, as values.
use ai_coding_training.Base.{◌≡◌, List, [], ◌∷◌, arith}
use ai_coding_training.Base.Action.{Outcome, ok, raised}
use ai_coding_training.Text.{Text}
use ai_coding_training.Topics.{
  TopicManager, TopicError, create_topic, delete_topic, subscribe, unsubscribe,
  remove_consumer_from_all,
}

pub data Call : Type 0 where
  create : Text → Call
  delete : Text → Call
  join : Text → Text → Call
  part : Text → Text → Call
  disconnect : Text → Call

unfoldable pub call : Call → TopicManager → Outcome TopicError Unit × TopicManager
call (create n) m = create_topic n m
call (delete n) m = delete_topic n m
call (join n c) m = subscribe n c m
call (part n c) m = unsubscribe n c m
call (disconnect c) m = (ok tt, remove_consumer_from_all c m)

unfoldable pub run_topics : List Call → TopicManager → TopicManager
run_topics [] m = m
run_topics (c ∷ cs) m = run_topics cs (call c m).1

-- A call of the topic manager that raises has changed nothing in it.
pub topic_call_failed :
    (c : Call) (m : TopicManager) (e : TopicError) → (call c m).0 ≡ raised e → (call c m).1 ≡ m
unfolding call create_topic delete_topic subscribe unsubscribe
topic_call_failed (create n) m e h = ground arith
topic_call_failed (delete n) m e h = ground arith
topic_call_failed (join n c) m e h = ground arith
topic_call_failed (part n c) m e h = ground arith
topic_call_failed (disconnect c) m e h = cc
