-- ===== src/Topics/Subscribers.antt =====
-- Who is subscribed to a topic after each operation.
use ai_coding_training.Base.{
  ◌≡◌, ap, ◌∙◌, Bool, true, false, ◌&&◌, Option, none, some, List, [], arith, if◌then◌else◌,
  Option-cases, inl, inr,
}
use ai_coding_training.Base.Action.{ok}
use ai_coding_training.Text.{Text, text_eq, text_eq_iff}
use ai_coding_training.Members.{mem, add, discard, mem-add, mem-discard}
use ai_coding_training.Dict.{lookup, map_option, lookup-insert, lookup-map_values}
use ai_coding_training.Topics.{
  TopicManager, subscribe, unsubscribe, get_subscribers, leave, remove_consumer_from_all,
}

-- `consumer_id in self._topics[topic]`, for a topic that is there.
unfoldable pub is_subscribed : Text → Text → TopicManager → Bool
is_subscribed topic c m = mem c (get_subscribers topic m)

-- A successful `subscribe` adds one consumer to one topic, and nobody else to any topic.
pub is_subscribed-subscribe :
    (topic c t d : Text) (m : TopicManager)
    → (subscribe topic c m).0 ≡ ok tt
    → is_subscribed t d (subscribe topic c m).1
      ≡ (if text_eq topic t && text_eq c d then true else is_subscribed t d m)
unfolding subscribe is_subscribed get_subscribers
is_subscribed-subscribe topic c t d m h = elim (Option-cases (lookup topic m.topics)) [
  | inl gone ↦ absurd (ground arith)
  | inr (s, found) ↦ ground (
    arith,
    lookup-insert topic t (add c s) m.topics,
    mem-add d c s,
    text_eq_iff topic t,
    text_eq_iff c d,
  )
]

-- A successful `unsubscribe` takes one consumer from one topic, and nobody else from any.
pub is_subscribed-unsubscribe :
    (topic c t d : Text) (m : TopicManager)
    → (unsubscribe topic c m).0 ≡ ok tt
    → is_subscribed t d (unsubscribe topic c m).1
      ≡ (if text_eq topic t && text_eq c d then false else is_subscribed t d m)
unfolding unsubscribe is_subscribed get_subscribers
is_subscribed-unsubscribe topic c t d m h = elim (Option-cases (lookup topic m.topics)) [
  | inl gone ↦ absurd (ground arith)
  | inr (s, found) ↦ ground (
    arith,
    lookup-insert topic t (discard c s) m.topics,
    mem-discard d c s,
    text_eq_iff topic t,
    text_eq_iff c d,
  )
]

mem-leave :
    (d c : Text) (s : List Text) → mem d (leave c s) ≡ (if text_eq c d then false else mem d s)
mem-leave d c s = ground (arith, mem-discard d c s, text_eq_iff c d)

-- A disconnect takes the consumer from every topic, and no other consumer from any.
pub is_subscribed-remove_consumer :
    (c t d : Text) (m : TopicManager)
    → is_subscribed t d (remove_consumer_from_all c m)
      ≡ (if text_eq c d then false else is_subscribed t d m)
unfolding remove_consumer_from_all is_subscribed get_subscribers mem
is_subscribed-remove_consumer c t d m =
    ap (mem d) (ap members (lookup-map_values (leave c) t m.topics)) ∙ by_cases (lookup t m.topics)
  where
    members : Option (List Text) → List Text
    members o = elim o [ none ↦ [] | some s ↦ s ]

    by_cases :
        (o : Option (List Text))
        → mem d (members (map_option (leave c) o))
          ≡ (if text_eq c d then false else mem d (members o))
    by_cases none = ground arith
    by_cases (some s) = mem-leave d c s
