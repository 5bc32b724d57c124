-- ===== src/Server.antt =====
-- src/server.py: the handlers of `MQServer` that manage topics, queues and subscriptions, that take
-- messages and that settle them, over the parts that the server puts together. A handler returns the
-- answer, or raises what it does not catch. The clock readings are arguments, in microseconds.
pub mod Admin
pub mod Messages
pub mod Upkeep
pub mod Pings
pub mod Nacks
pub mod Restart
pub mod Dispatch
pub mod Connection
pub mod Sound
use ai_coding_training.Base.{
  ℕ, zero, suc, ◌+◌, ◌*◌, Bool, true, false, not, ◌&&◌, Option, none, some, List, [], ◌∷◌, ◌++◌,
  if◌then◌else◌, length, get_elem?,
}
use ai_coding_training.Base.Int.{ℤ, pos, negsuc}
use ai_coding_training.Base.Action.{
  Outcome, ok, raised, Action, pure, raise, gets, or_raise, modify, raise_if, ◌>>=◌, ◌>>◌,
}
use ai_coding_training.Text.{Text, codes, text_eq}
use ai_coding_training.Text.Decimal.{decimal, int}
use ai_coding_training.Text.Words.{join}
use ai_coding_training.Members.{add, discard}
use ai_coding_training.Models.{Message, Status, status_eq}
use ai_coding_training.Dict.{Dict, lookup, insert, erase}
use ai_coding_training.Protocol.{ok_response, err_response, data_response}
use ai_coding_training.Topics as Topics
use ai_coding_training.Queues as Queues
use ai_coding_training.Groups as Groups
use ai_coding_training.Topics.{
  TopicAction, TopicError, invalid_topic_name, topic_exists, max_topics_reached, topic_not_found,
  topic_has_subscribers,
}
use ai_coding_training.Queues.{
  QueueAction, QueueError, invalid_queue_name, queue_exists, queue_not_found, queue_not_empty,
  queue_full, empty_message, message_too_large,
}
use ai_coding_training.Groups.{GroupManager, GroupAction, GroupError}
use ai_coding_training.Acks.{
  Ref, Heap, start, Acks, AckAction, AckError, not_delivered, not_owner, nack_not_delivered,
  deadlock,
}
use ai_coding_training.Router.{Router, RouterAction, RouteError, topic_error, queue_error}
use ai_coding_training.Persistence.Struct.{CodecError}
use ai_coding_training.Persistence.Segments.{PersistError}
use ai_coding_training.Persistence.Log.{Layer, LayerAction}

-- The dataclass `Consumer` of src/models.py: the session of one connection.
pub record Consumer : Type 0 where
  pub consumer_id : Text
  pub subscriptions : List Text
  pub groups : List Text
  pub last_heartbeat : ℕ

-- The managers of topics and queues are those of the router, and the message objects of the ack
-- manager are those of the router: `acks.heap` is overwritten before each call.
pub record Server : Type 0 where
  pub router : Router
  pub persistence : Layer
  pub group_mgr : GroupManager
  pub ack_mgr : Acks
  pub consumers : Dict Consumer
  pub next_consumer_id : ℕ

-- `MQServer()` over a data directory, before `start`. The class counter of `Message` is at zero, and no
-- message object is there, so what the heap says is of no matter.
unfoldable pub open_server : Heap → Layer → Server
open_server heap layer = record {
  router = record {
    topics = Topics.init;
    queues = Queues.init;
    messages = [];
    topic_offsets = [];
    heap = heap;
    next_ref = 0;
    counter = 0;
  };
  persistence = layer;
  group_mgr = Groups.init;
  ack_mgr = start heap;
  consumers = [];
  next_consumer_id = 0;
}

-- The exceptions that a handler meets: those of the parts, the `ValueError` of `int`, the
-- `IndexError` of an argument that is not there, and the `NameError` of a name that the file does
-- not import; `unfinished` is the call that is still polling when the turns that are given end.
pub data ServerError : Type 0 where
  in_topics : TopicError → ServerError
  in_queues : QueueError → ServerError
  in_router : RouteError → ServerError
  in_acks : AckError → ServerError
  in_log : PersistError → ServerError
  in_groups : GroupError → ServerError
  in_codec : CodecError → ServerError
  bad_int : ServerError
  unfinished : ServerError
  no_argument : ServerError
  name_error : ServerError

abbrev pub ServerAction : Type 0 → Type 0
ServerAction = Action Server ServerError

abbrev pub raise_as : {E A : Type 0} → (E → ServerError) → Outcome E A → Outcome ServerError A
raise_as f (ok a) = ok a
raise_as f (raised e) = raised (f e)

abbrev pub on_topics : {A : Type 0} → TopicAction A → ServerAction A
on_topics call s =
    let (o, m) = call s.router.topics in
    (raise_as in_topics o, record s { router = record s.router { topics = m } })

abbrev pub on_queues : {A : Type 0} → QueueAction A → ServerAction A
on_queues call s =
    let (o, m) = call s.router.queues in
    (raise_as in_queues o, record s { router = record s.router { queues = m } })

-- What the router passes on from its managers is an exception of theirs.
abbrev pub through_router : RouteError → ServerError
through_router (topic_error e) = in_topics e
through_router (queue_error e) = in_queues e
through_router e = in_router e

abbrev pub on_router : {A : Type 0} → RouterAction A → ServerAction A
on_router call s =
    let (o, r) = call s.router in (raise_as through_router o, record s { router = r })

-- The ack manager works on the message objects of the router.
abbrev pub on_acks : {A : Type 0} → AckAction A → ServerAction A
on_acks call s =
    let (o, m) = call (record s.ack_mgr { heap = s.router.heap }) in
    (raise_as in_acks o, record s { ack_mgr = m; router = record s.router { heap = m.heap } })

abbrev pub on_groups : {A : Type 0} → GroupAction A → ServerAction A
on_groups call s =
    let (o, m) = call s.group_mgr in (raise_as in_groups o, record s { group_mgr = m })

abbrev pub on_log : {A : Type 0} → LayerAction A → ServerAction A
on_log call s = let (o, l) = call s.persistence in (raise_as in_log o, record s { persistence = l })

-- `try: ... except`: an exception with an answer is answered, with what was written kept.
abbrev pub caught :
    (ServerError → Option Text)
    → Outcome ServerError Text × Server
    → Outcome ServerError Text × Server
caught answer (ok t, s) = (ok t, s)
caught answer (raised e, s) = elim (answer e) [ none ↦ (raised e, s) | some t ↦ (ok t, s) ]

abbrev pub catch : (ServerError → Option Text) → ServerAction Text → ServerAction Text
catch answer body s = caught answer (body s)

-- `cmd.args[i]`
abbrev pub arg : List Text → ℕ → ServerAction Text
arg args i = or_raise (get_elem? args i) no_argument

-- An answer that is an error code alone.
abbrev pub code : Text → Option Text
code t = some (err_response t [])

unfoldable pub register_consumer : Server → Text × Server
register_consumer s =
    let n = s.next_consumer_id + 1 in
    let id = b'C' ∷ decimal n in
    let c : Consumer = record {
      consumer_id = id;
      subscriptions = [];
      groups = [];
      last_heartbeat = 0;
    } in
    (id, record s { consumers = insert id c s.consumers; next_consumer_id = n })

-- An assignment to the session of a consumer.
unfoldable pub set_consumer : Text → (Consumer → Consumer) → ServerAction Unit
set_consumer id f s = elim (lookup id s.consumers) [
  | none ↦ (ok tt, s)
  | some c ↦ (ok tt, record s { consumers = insert id (f c) s.consumers })
]

-- `PING` notes the time in the session, and tells the group manager nothing.
unfoldable pub cmd_ping : ℕ → Text → ServerAction Text
cmd_ping now id = do
  set_consumer id (λ c. record c { last_heartbeat = now })
  pure (ok_response (codes "PONG"))
