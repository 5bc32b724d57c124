-- ===== src/Router.antt =====
-- src/message_router.py: `MessageRouter`, method by method, with the topic manager and the queue
-- manager that it calls, the message objects that exist, and the counter of `Message.generate_id`.
-- A parameter `now` is what `time.time()` says, in microseconds.

pub mod Sound
pub mod Offsets
pub mod TopicReads
pub mod Polling
pub mod Sends
pub mod Delivery
use ai_coding_training.Base.{
  ℕ, zero, suc, ◌+◌, ◌*◌, Bool, true, false, not, Option, none, some, List, [], ◌∷◌, ◌++◌, ltb, leb,
  ◌==◌, if◌then◌else◌, length, get_elem?,
}
use ai_coding_training.Base.Int.{ℤ, pos, negsuc, pos_part}
use ai_coding_training.Base.Action.{
  Outcome, ok, raised, Action, pure, raise, gets, or_raise, modify, raise_if, ◌>>=◌, ◌>>◌,
}
use ai_coding_training.Text.{Text, text_eq}
use ai_coding_training.Text.Order.{sort_by}
use ai_coding_training.Models.{Message, Status, status_eq, generate_id, new_message}
use ai_coding_training.Dict.{Dict, lookup, contains, insert, erase}
use ai_coding_training.Queues.{QueueManager, QueueAction, QueueError, queue_full, enqueue, dequeue}
use ai_coding_training.Topics.{TopicManager, TopicError, topic_not_found, topic_exists?}
use ai_coding_training.Acks.{Ref, Heap, update}

pub record Router : Type 0 where
  pub topics : TopicManager
  pub queues : QueueManager
  pub messages : Dict Ref
  pub topic_offsets : Dict ℕ
  pub heap : Heap
  pub next_ref : Ref
  pub counter : ℕ

pub data RouteError : Type 0 where
  topic_error : TopicError → RouteError
  queue_error : QueueError → RouteError
  message_not_found : Text → RouteError
  not_delivered_to : Text → Text → RouteError
  negative_offset : RouteError

abbrev pub RouterAction : Type 0 → Type 0
RouterAction = Action Router RouteError

-- What a call of the queue manager gave, taken over; what it raised goes through `handle` on its
-- way out.
abbrev pub resume :
    {A : Type 0}
    → (QueueError → Router → Router)
    → Router
    → Outcome QueueError A × QueueManager
    → Outcome RouteError A × Router
resume handle s (ok a, queues) = (ok a, record s { queues = queues })
resume handle s (raised e, queues) =
    (raised (queue_error e), handle e (record s { queues = queues }))

unfoldable pub on_queues :
    {A : Type 0} → QueueAction A → (QueueError → Router → Router) → RouterAction A
on_queues call handle s = resume handle s (call s.queues)

abbrev pub no_handler : QueueError → Router → Router
no_handler e s = s

-- `_create_message`: a new object, with an id that no message of this process had.
unfoldable pub create_message : ℕ → ℕ → Text → Text → ℤ → RouterAction Ref
create_message id_now now target body ttl s =
    let (id, counter) = generate_id id_now s.counter in
    let m = new_message id target body now ttl in
    (
      ok s.next_ref,
      record s { heap = update s.next_ref m s.heap; next_ref = s.next_ref + 1; counter = counter },
    )

-- `self._messages[msg.msg_id] = msg`
unfoldable pub register : Ref → RouterAction Text
register r s = let id = (s.heap r).msg_id in (ok id, record s { messages = insert id r s.messages })

unfoldable pub route_to_topic : ℕ → ℕ → Text → Text → ℤ → RouterAction Text
route_to_topic id_now now topic body ttl = do
  there ← gets (λ s. topic_exists? topic s.topics)
  raise_if (not there) (topic_error (topic_not_found topic))
  r ← create_message id_now now topic body ttl
  register r

-- What `route_to_queue` undoes when the queue manager raises: only a full queue.
unfoldable pub forget_if_full : Text → QueueError → Router → Router
forget_if_full id (queue_full q n limit) s = record s { messages = erase id s.messages }
forget_if_full id e s = s

unfoldable pub route_to_queue : ℕ → ℕ → Text → Text → ℤ → RouterAction Text
route_to_queue id_now now queue body ttl = do
  r ← create_message id_now now queue body ttl
  id ← register r
  on_queues (enqueue queue id body) (forget_if_full id)
  pure id

-- A message that is handed to a consumer.
unfoldable pub delivered : Text → ℕ → Message → Message
delivered consumer_id now m = record m {
  status = Status.delivered;
  delivered_to = consumer_id;
  deliver_time = now;
}

unfoldable pub set_message : Ref → (Message → Message) → RouterAction Unit
set_message r f s = (ok tt, record s { heap = update r (f (s.heap r)) s.heap })

-- What a consumer is told; `polling` when the rounds that are given are over before it is told.
pub data Poll : Type 0 where
  message : Ref → Poll
  nothing : Poll
  polling : Poll

-- One turn of the polling loop: the clock as the turn reads it, and what other threads do
-- before the next one.
pub record Round : Type 0 where
  pub now : ℕ
  pub others : Router → Router

-- The object of an id that was in the queue, marked as delivered, or none for an unknown id.
unfoldable pub hand_over : Text → ℕ → Option Ref → RouterAction (Option Ref)
hand_over consumer_id now none = pure none
hand_over consumer_id now (some r) = do set_message r (delivered consumer_id now); pure (some r)

-- What a turn does with an id that was in the queue: the message, or none to go on at once.
unfoldable pub deliver : Text → ℕ → Text → RouterAction (Option Ref)
unfolding hand_over
deliver consumer_id now id = do
  found ← gets (λ s. lookup id s.messages)
  hand_over consumer_id now found

-- A turn that had an id: its message ends the loop; for an unknown id the loop goes on at once.
abbrev pub answer : RouterAction Poll → Option Ref → RouterAction Poll
answer again (some r) = pure (message r)
answer again none = again

-- A turn after `dequeue`; without a message it ends the loop unless there is time left to wait.
abbrev pub turn : Text → ℤ → ℕ → ℕ → RouterAction Poll → Option (Text × Text) → RouterAction Poll
turn consumer_id timeout deadline now again (some (id, body)) = do
  found ← deliver consumer_id now id
  answer again found
turn consumer_id timeout deadline now again none =
    if not (ltb 0 (pos_part timeout))
    then pure nothing
    else if leb deadline now
    then pure nothing
    else again

-- The loop of `consume_from_queue`; `timeout` is in microseconds.
unfoldable pub poll : Text → Text → ℤ → ℕ → List Round → RouterAction Poll
poll queue consumer_id timeout deadline [] = pure polling
poll queue consumer_id timeout deadline (round ∷ rounds) =
    let rest = poll queue consumer_id timeout deadline rounds in
    do
      result ← on_queues (dequeue queue) no_handler
      turn consumer_id timeout deadline round.now (do modify round.others; rest) result

unfoldable pub consume_from_queue : Text → Text → ℤ → ℕ → List Round → RouterAction Poll
consume_from_queue queue consumer_id timeout start rounds =
    let deadline = if ltb 0 (pos_part timeout) then start + pos_part timeout else 0 in
    poll queue consumer_id timeout deadline rounds

-- `f"{topic}:{consumer_id}"`
unfoldable pub offset_key : Text → Text → Text
offset_key topic consumer_id = topic ++ b':' ∷ consumer_id

-- `d.get(k, 0)`
abbrev pub or_zero : Option ℕ → ℕ
or_zero none = 0
or_zero (some n) = n

unfoldable pub get_offset : Text → Text → Router → ℕ
get_offset topic consumer_id s = or_zero (lookup (offset_key topic consumer_id) s.topic_offsets)

unfoldable pub put_offset : Text → Text → ℕ → Router → Router
put_offset topic consumer_id n s = record s {
  topic_offsets = insert (offset_key topic consumer_id) n s.topic_offsets;
}

unfoldable pub set_offset : Text → Text → ℤ → RouterAction Unit
set_offset topic consumer_id (pos n) = modify (put_offset topic consumer_id n)
set_offset topic consumer_id (negsuc n) = raise negative_offset

-- The messages whose object satisfies a test, in the order of the registry.
unfoldable pub select : (Message → Bool) → Heap → Dict Ref → List Ref
select p h [] = []
select p h ((id, r) ∷ d) = let rest = select p h d in if p (h r) then r ∷ rest else rest

-- The messages whose target is the topic, by their ids.
unfoldable pub topic_messages : Text → Router → List Ref
topic_messages topic s =
    sort_by (λ r. (s.heap r).msg_id) (select (λ m. text_eq m.target topic) s.heap s.messages)

-- The message at the offset, if there is one, and the next offset.
unfoldable pub advance : Text → Text → ℕ → Option Ref → RouterAction (Option Ref)
advance topic consumer_id offset none = pure none
advance topic consumer_id offset (some r) = do
  modify (put_offset topic consumer_id (offset + 1))
  pure (some r)

unfoldable pub consume_from_topic : Text → Text → RouterAction (Option Ref)
unfolding advance
consume_from_topic topic consumer_id = do
  offset ← gets (get_offset topic consumer_id)
  found ← gets (λ s. get_elem? (topic_messages topic s) offset)
  advance topic consumer_id offset found

unfoldable pub acked : Message → Message
acked m = record m { status = Status.acked }

unfoldable pub ack_message : Text → Text → RouterAction Unit
ack_message msg_id consumer_id = do
  found ← gets (λ s. lookup msg_id s.messages)
  r ← or_raise found (message_not_found msg_id)
  msg ← gets (λ s. s.heap r)
  raise_if (not (text_eq msg.delivered_to consumer_id)) (not_delivered_to msg_id consumer_id)
  set_message r acked

unfoldable pub get_message : Text → Router → Option Ref
get_message msg_id s = lookup msg_id s.messages

unfoldable pub restored : Message → Message
restored m = if status_eq m.status Status.acked then m else record m { status = Status.pending }

-- `if msg.msg_id not in self._messages`, by whether it is.
unfoldable pub restore_unless : Bool → Ref → RouterAction Unit
restore_unless true r = pure tt
restore_unless false r = do register r; set_message r restored

unfoldable pub restore_message : Ref → RouterAction Unit
unfolding restore_unless
restore_message r = do
  known ← gets (λ s. contains (s.heap r).msg_id s.messages)
  restore_unless known r

unfoldable pub get_pending_messages : Router → List Ref
get_pending_messages s = select (λ m. status_eq m.status Status.pending) s.heap s.messages
