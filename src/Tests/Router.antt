-- ===== src/Tests/Router.antt =====
-- `MessageRouter` over one queue, and over one topic with two messages.
use mathlib.Core.List.{Perm}
use ai_coding_training.Base.{
  zero, suc, ◌+◌, ◌*◌, ◌≤◌, ◌<◌, ◌≡◌, ◌≢◌, refl, true, ◌&&◌, none, some, [], ◌∷◌, map, arith,
  length, take, drop, if◌then◌else◌,
}
use ai_coding_training.Base.Int.{pos}
use ai_coding_training.Base.Action.{ok, raised}
use ai_coding_training.Text.{Text, codes, text_eq}
use ai_coding_training.Text.Utf8.{encode, encode_char}
use ai_coding_training.Text.Words.{free_of}
use ai_coding_training.Text.Order.{sort_by, insert_by, text_leb}
use ai_coding_training.Models.{Message, second, new_message}
use ai_coding_training.Dict.{lookup}
use ai_coding_training.Queues.{
  QueueManager, QueueError, queue_not_found, enqueue, validate_message, put, get_queue_depth,
}
use ai_coding_training.Queues.Fifo.{waiting}
use ai_coding_training.Router.{
  Router, Round, message, polling, queue_error, get_offset, set_offset, topic_messages, select,
  route_to_queue, consume_from_queue,
}
use ai_coding_training.Router.Offsets.{get_offset-set_offset}
use ai_coding_training.Router.TopicReads.{InIdOrder, addressed, consume_times, consume_times_lem}
use ai_coding_training.Router.Polling.{consume_from_queue-returns}
use ai_coding_training.Router.Sends.{
  next_id, next_message, is_full, handed, route_to_queue-refused, consume-route_to_queue,
}
use ai_coding_training.Router.Delivery.{
  Visit, consume_each, nobody, somebody, consume_each-delivers,
}
use ai_coding_training.Queues as Queues
use ai_coding_training.Topics as Topics

abbrev jobs : Text
jobs = codes "jobs"

abbrev news : Text
news = codes "news"

abbrev ann : Text
ann = codes "ann"

abbrev item : Text × Text
item = (codes "M1", codes "hello")

abbrev pub about : Text → Text → Message
about id target = new_message id target (codes "hello") (5 * second) (pos 0)

-- One message waits in the queue, and two in the topic.
abbrev pub router : Router
router = record {
  topics = Topics.init;
  queues = record Queues.init {
    queues =
        (jobs, record { items = item ∷ []; max_size = 2 })
        ∷ (codes "idle", record { items = []; max_size = 2 })
        ∷ [];
  };
  messages = (codes "M1", 1) ∷ (codes "M3", 3) ∷ (codes "M2", 2) ∷ [];
  topic_offsets = [];
  heap = λ r. elim r [
    | zero ↦ about (codes "M0") jobs
    | suc zero ↦ about (codes "M1") jobs
    | suc (suc zero) ↦ about (codes "M2") news
    | suc (suc (suc n)) ↦ about (codes "M3") news
  ];
  next_ref = 4;
  counter = 3;
}

abbrev round : Round
round = record { now = 7 * second; others = λ s. s }

abbrev visit : Visit
visit = record { consumer = ann; timeout = pos 0; start = 6 * second; round = round }

two_offsets : free_of b':' news ≡ true
unfolding free_of
two_offsets = refl

get_offset-set_offset_example :
    get_offset news ann (set_offset news ann (pos 1) router).1
    ≡ (if text_eq news news && text_eq ann ann then 1 else get_offset news ann router)
get_offset-set_offset_example =
    get_offset-set_offset news news ann ann 1 router two_offsets two_offsets

no_offset : get_offset news ann router ≡ 0
unfolding get_offset lookup
no_offset = refl

news_messages : topic_messages news router ≡ 2 ∷ 3 ∷ []
unfolding topic_messages select sort_by insert_by text_leb text_eq new_message
news_messages = refl

two_messages : 0 + 2 ≤ length (topic_messages news router)
two_messages = rw news_messages (omega arith)

consume_times_lem_example :
    let p = consume_times 2 news ann router in
    let msgs = topic_messages news router in
    InIdOrder router msgs
    × Perm msgs (addressed news router)
    × (p.0 ≡ ok (map some (take 2 (drop 0 msgs))))
    × (get_offset news ann p.1 ≡ 0 + 2)
consume_times_lem_example = consume_times_lem news ann 2 0 router no_offset two_messages

jobs_there : lookup jobs router.queues.queues ≡ some (record { items = item ∷ []; max_size = 2 })
unfolding lookup text_eq
jobs_there = refl

known : lookup (codes "M1") router.messages ≡ some 1
unfolding lookup text_eq
known = refl

depth_one : get_queue_depth jobs router.queues < 2
unfolding get_queue_depth lookup text_eq
depth_one = omega arith

consume_from_queue-returns_example :
    (consume_from_queue jobs ann (pos 0) (6 * second) (round ∷ round ∷ []) router).0 ≢ ok polling
consume_from_queue-returns_example =
    consume_from_queue-returns jobs ann (pos 0) (6 * second) (round ∷ round ∷ []) router refl
      ((λ s. refl), ((λ s. refl), tt)) depth_one

abbrev lost : Text
lost = codes "lost"

no_queue :
    (enqueue lost
      (next_id (6 * second) (6 * second) lost (codes "hi") (pos 0) router)
      (codes "hi")
      router.queues).0
    ≡ raised (queue_not_found lost)
unfolding enqueue validate_message encode encode_char lookup text_eq
no_queue = refl

route_to_queue-refused_example :
    let p = route_to_queue (6 * second) (6 * second) lost (codes "hi") (pos 0) router in
    (p.0 ≡ raised (queue_error (queue_not_found lost)))
    × (p.1.queues ≡ router.queues)
    × (lookup (next_id (6 * second) (6 * second) lost (codes "hi") (pos 0) router) p.1.messages
        ≡ (if is_full (queue_not_found lost) then none else some 4))
route_to_queue-refused_example =
    route_to_queue-refused (6 * second) (6 * second) lost (codes "hi") (pos 0) router _ no_queue

abbrev idle : Text
idle = codes "idle"

idle_empty : waiting idle router.queues ≡ []
unfolding waiting lookup text_eq
idle_empty = refl

idle_takes :
    (enqueue idle
      (next_id (6 * second) (6 * second) idle (codes "hi") (pos 0) router)
      (codes "hi")
      router.queues).0
    ≡ ok tt
unfolding enqueue validate_message encode encode_char lookup text_eq
idle_takes = refl

consume-route_to_queue_example :
    let s = (route_to_queue (6 * second) (6 * second) idle (codes "hi") (pos 0) router).1 in
    let p = consume_from_queue idle ann (pos 9) (6 * second) (round ∷ []) s in
    (p.0 ≡ ok (message 4))
    × (p.1.heap 4
        ≡ handed ann
            (7 * second)
            (next_message (6 * second) (6 * second) idle (codes "hi") (pos 0) router))
    × ((p.1.heap 4).target ≡ idle)
    × ((p.1.heap 4).body ≡ codes "hi")
    × (waiting idle p.1.queues ≡ [])
consume-route_to_queue_example =
    consume-route_to_queue (6 * second) (6 * second) idle (codes "hi") (pos 0) router ann (pos 9)
      (6 * second) round [] idle_empty idle_takes

consume_each-delivers_example :
    let p = consume_each jobs (visit ∷ []) router in
    (p.0 ≡ ok (message 1 ∷ [])) × (waiting jobs p.1.queues ≡ [])
consume_each-delivers_example =
    consume_each-delivers jobs (record { items = item ∷ []; max_size = 2 }) (1 ∷ []) (visit ∷ [])
      router jobs_there (somebody known nobody)
