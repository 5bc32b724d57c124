-- ===== src/Topics/Invariant.antt =====
-- The number of topics stays within its limit, and no subscriber is listed twice.
use ai_coding_training.Base.{
  ◌≤◌, ◌≡◌, refl, true, some, List, [], ◌∷◌, arith, length, Option-cases, inl, inr,
}
use ai_coding_training.Text.{Text}
use ai_coding_training.Text.Names.{name_matches}
use ai_coding_training.Members.{add, discard, Distinct, add-Distinct, discard-Distinct}
use ai_coding_training.Dict.{
  Dict, lookup, contains, keys, map_values, keys-map_values, length-insert, length-erase-le,
  insert-Distinct, erase-Distinct,
}
use ai_coding_training.Dict.Each.{Each, Each-nil, Each-insert, Each-erase, Each-map_values}
use ai_coding_training.Topics.{
  TopicManager, set_subscribers, create_topic, delete_topic, subscribe, unsubscribe, leave,
  remove_consumer_from_all, init,
}
use ai_coding_training.Topics.Steps.{Call, create, delete, join, part, disconnect, call, run_topics}

pub record IsTopic (name : Text) (subscribers : List Text) : Type 0 where
  pub named : name_matches name ≡ true
  pub distinct : Distinct subscribers

-- There are at most `max_topics` topics, each under one name, which the pattern accepts, and each
-- with every subscriber once.
pub record IsValid (m : TopicManager) : Type 0 where
  pub within : length m.topics ≤ m.max_topics
  pub distinct : Distinct (keys m.topics)
  pub each : Each IsTopic m.topics

pub create_topic-IsValid :
    (name : Text) (m : TopicManager) → IsValid m → IsValid (create_topic name m).1
unfolding create_topic
create_topic-IsValid name m v = ground (
  arith,
  length-insert name [] m.topics,
  insert-Distinct name [] m.topics v.distinct,
  λ (ok_name : name_matches name ≡ true).
      Each-insert IsTopic name [] m.topics v.each (record { named = ok_name; distinct = tt }),
)

pub delete_topic-IsValid :
    (name : Text) (m : TopicManager) → IsValid m → IsValid (delete_topic name m).1
unfolding delete_topic
delete_topic-IsValid name m v = ground (
  arith,
  length-erase-le name m.topics,
  Each-erase IsTopic name m.topics v.each,
  erase-Distinct name m.topics v.distinct,
)

-- Giving a topic that is there other subscribers.
set_subscribers-IsValid :
    (name : Text) (old new : List Text) (m : TopicManager)
    → IsValid m
    → lookup name m.topics ≡ some old
    → Distinct new
    → IsValid (set_subscribers name new m)
unfolding set_subscribers contains
set_subscribers-IsValid name old new m v found d = record {
  within = ground (arith, length-insert name new m.topics, v.within);
  distinct = insert-Distinct name new m.topics v.distinct;
  each =
      Each-insert IsTopic name new m.topics v.each
        (record { named = (v.each.at name old found).named; distinct = d });
}

pub subscribe-IsValid :
    (topic c : Text) (m : TopicManager) → IsValid m → IsValid (subscribe topic c m).1
unfolding subscribe
subscribe-IsValid topic c m v = elim (Option-cases (lookup topic m.topics)) [
  | inl gone ↦ ground arith
  | inr (s, found) ↦ rw found (
      set_subscribers-IsValid topic s (add c s) m v found
        (add-Distinct c s (v.each.at topic s found).distinct))
]

pub unsubscribe-IsValid :
    (topic c : Text) (m : TopicManager) → IsValid m → IsValid (unsubscribe topic c m).1
unfolding unsubscribe
unsubscribe-IsValid topic c m v = elim (Option-cases (lookup topic m.topics)) [
  | inl gone ↦ ground arith
  | inr (s, found) ↦ rw found (
      set_subscribers-IsValid topic s (discard c s) m v found
        (discard-Distinct c s (v.each.at topic s found).distinct))
]

length-map_values :
    (f : List Text → List Text) (d : Dict (List Text)) → length (map_values f d) ≡ length d
unfolding map_values
length-map_values f [] = refl
length-map_values f (e ∷ d) = ground (arith, length-map_values f d)

pub remove_consumer-IsValid :
    (c : Text) (m : TopicManager) → IsValid m → IsValid (remove_consumer_from_all c m)
unfolding remove_consumer_from_all
remove_consumer-IsValid c m v = record {
  within = omega (arith, length-map_values (leave c) m.topics, v.within);
  distinct = rw (keys-map_values (leave c) m.topics) v.distinct;
  each = Each-map_values IsTopic (leave c) m.topics v.each λ k s t. record {
    named = t.named;
    distinct = ground (arith, discard-Distinct c s t.distinct);
  };
}

call-IsValid : (c : Call) (m : TopicManager) → IsValid m → IsValid (call c m).1
unfolding call
call-IsValid (create n) m v = create_topic-IsValid n m v
call-IsValid (delete n) m v = delete_topic-IsValid n m v
call-IsValid (join n c) m v = subscribe-IsValid n c m v
call-IsValid (part n c) m v = unsubscribe-IsValid n c m v
call-IsValid (disconnect c) m v = remove_consumer-IsValid c m v

-- After any calls on a valid manager, whether they raise or not, there are at most `max_topics`
-- topics, no name is there twice, and each topic has a name that the pattern accepts and every
-- subscriber once.
pub run_topics-IsValid : (cs : List Call) (m : TopicManager) → IsValid m → IsValid (run_topics cs m)
unfolding run_topics
run_topics-IsValid [] m v = v
run_topics-IsValid (c ∷ cs) m v = run_topics-IsValid cs (call c m).1 (call-IsValid c m v)

pub init-IsValid : IsValid init
init-IsValid = record {
  within = omega arith;
  distinct = unfold keys in tt;
  each = Each-nil IsTopic;
}
