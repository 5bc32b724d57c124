-- ===== src/Topics.antt =====
-- src/topic_manager.py: `TopicManager`, method by method. Each method runs under the manager's
-- lock, so it is one step.
pub mod Steps
pub mod Invariant
pub mod Subscribers
use ai_coding_training.Base.{
  ℕ, Bool, true, false, not, Option, none, some, List, [], ◌∷◌, ◌++◌, leb, if◌then◌else◌, length,
}
use ai_coding_training.Base.Action.{
  Outcome, ok, raised, Action, gets, or_raise, modify, raise_if, ◌>>=◌, ◌>>◌,
}
use ai_coding_training.Text.{Text, codes, is_empty}
use ai_coding_training.Text.Decimal.{decimal}
use ai_coding_training.Text.Names.{name_matches}
use ai_coding_training.Text.Order.{sorted}
use ai_coding_training.Members.{mem, add, discard}
use ai_coding_training.Dict.{Dict, lookup, contains, insert, erase, keys, map_values}

pub data TopicError : Type 0 where
  topic_exists : Text → TopicError
  topic_not_found : Text → TopicError
  topic_has_subscribers : Text → ℕ → TopicError
  max_topics_reached : ℕ → TopicError
  invalid_topic_name : Text → TopicError

-- `str(e)`
unfoldable pub describe : TopicError → Text
unfolding decimal
describe (topic_exists n) = codes "Topic '" ++ n ++ codes "' already exists"
describe (topic_not_found n) = codes "Topic '" ++ n ++ codes "' not found"
describe (topic_has_subscribers n k) =
    codes "Topic '" ++ n ++ codes "' has " ++ decimal k ++ codes " active subscriber(s)"
describe (max_topics_reached k) = codes "Max topics (" ++ decimal k ++ codes ") reached"
describe (invalid_topic_name t) = t

pub record TopicManager : Type 0 where
  pub max_topics : ℕ
  pub topics : Dict (List Text)

abbrev pub init : TopicManager
init = record { max_topics = 1000; topics = [] }

abbrev pub TopicAction : Type 0 → Type 0
TopicAction = Action TopicManager TopicError

unfoldable pub validate_name : Text → TopicAction Unit
validate_name name = do
  raise_if (is_empty name) (invalid_topic_name (codes "Topic name must not be empty"))
  raise_if (not (name_matches name))
      (invalid_topic_name (codes "Topic name must match [a-zA-Z0-9_-]+, length 1-256"))

unfoldable pub set_subscribers : Text → List Text → TopicManager → TopicManager
set_subscribers name s m = record m { topics = insert name s m.topics }

unfoldable pub create_topic : Text → TopicAction Unit
unfolding validate_name set_subscribers
create_topic name = do
  validate_name name
  raise_if (← gets (λ m. contains name m.topics)) (topic_exists name)
  limit ← gets (λ m. m.max_topics)
  raise_if (← gets (λ m. leb limit (length m.topics))) (max_topics_reached limit)
  modify (set_subscribers name [])

abbrev pub has_any : List Text → Bool
has_any [] = false
has_any (x ∷ s) = true

unfoldable pub delete_topic : Text → TopicAction Unit
delete_topic name = do
  found ← gets (λ m. lookup name m.topics)
  subscribers ← or_raise found (topic_not_found name)
  raise_if (has_any subscribers) (topic_has_subscribers name (length subscribers))
  modify (λ m. record m { topics = erase name m.topics })

unfoldable pub list_topics : TopicManager → List Text
list_topics m = sorted (keys m.topics)

unfoldable pub topic_exists? : Text → TopicManager → Bool
topic_exists? name m = contains name m.topics

unfoldable pub subscribe : Text → Text → TopicAction Unit
unfolding set_subscribers
subscribe topic consumer_id = do
  found ← gets (λ m. lookup topic m.topics)
  subscribers ← or_raise found (topic_not_found topic)
  modify (set_subscribers topic (add consumer_id subscribers))

unfoldable pub unsubscribe : Text → Text → TopicAction Unit
unfolding set_subscribers
unsubscribe topic consumer_id = do
  found ← gets (λ m. lookup topic m.topics)
  subscribers ← or_raise found (topic_not_found topic)
  modify (set_subscribers topic (discard consumer_id subscribers))

unfoldable pub get_subscribers : Text → TopicManager → List Text
get_subscribers topic m = elim (lookup topic m.topics) [ none ↦ [] | some s ↦ s ]

-- `if consumer_id in subscribers: subscribers.discard(consumer_id)`
abbrev pub leave : Text → List Text → List Text
leave consumer_id s = if mem consumer_id s then discard consumer_id s else s

unfoldable pub remove_consumer_from_all : Text → TopicManager → TopicManager
remove_consumer_from_all consumer_id m = record m {
  topics = map_values (leave consumer_id) m.topics;
}

unfoldable pub topic_count : TopicManager → ℕ
topic_count m = length m.topics
