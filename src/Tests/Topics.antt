-- ===== src/Tests/Topics.antt =====
-- `TopicManager` on one topic with one subscriber.
use ai_coding_training.Base.{◌≡◌, refl, List, [], ◌∷◌}
use ai_coding_training.Base.Action.{ok, raised}
use ai_coding_training.Text.{Text, codes, text_eq}
use ai_coding_training.Dict.{lookup}
use ai_coding_training.Topics.{TopicManager, init, subscribe, unsubscribe, topic_not_found}
use ai_coding_training.Topics.Steps.{Call, create, join, part, disconnect, call, run_topics}
use ai_coding_training.Topics.Invariant.{IsValid, run_topics-IsValid, init-IsValid}

abbrev news : Text
news = codes "news"

abbrev ann : Text
ann = codes "ann"

abbrev bob : Text
bob = codes "bob"

abbrev one_topic : TopicManager
one_topic = record init { topics = (news, ann ∷ []) ∷ [] }

abbrev calls : List Call
calls = create news ∷ join news ann ∷ join news ann ∷ part news bob ∷ disconnect ann ∷ []

run_topics-IsValid_example : IsValid (run_topics calls init)
run_topics-IsValid_example = run_topics-IsValid calls init init-IsValid

no_topic : (call (join news ann) init).0 ≡ raised (topic_not_found news)
unfolding call subscribe lookup
no_topic = refl

subscribed : (subscribe news bob one_topic).0 ≡ ok tt
unfolding subscribe lookup text_eq
subscribed = refl

unsubscribed : (unsubscribe news ann one_topic).0 ≡ ok tt
unfolding unsubscribe lookup text_eq
unsubscribed = refl
