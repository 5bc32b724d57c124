-- ===== src/Router/Sends.antt =====
-- Sending to a queue, and what a consumer gets then: `route_to_queue` and `consume_from_queue`.
use ai_coding_training.Base.{
  ℕ, ◌+◌, ◌≡◌, refl, sym, ap, ◌∙◌, Bool, true, false, none, some, List, [], ◌∷◌, ◌++◌, arith,
  if◌then◌else◌,
}
use ai_coding_training.Base.Int.{ℤ}
use ai_coding_training.Base.Action.{ok, raised, pure, ◌>>=◌, bind-ok, bind-raised}
use ai_coding_training.Text.{Text, text_eq_refl}
use ai_coding_training.Models.{Message, Status, new_message, id_text, generate_id}
use ai_coding_training.Dict.{lookup, insert, lookup-insert, lookup-erase}
use ai_coding_training.Queues.{
  QueueManager, QueueError, queue_exists, queue_not_empty, invalid_queue_name, message_too_large,
  empty_message, queue_not_found, queue_full, put, enqueue,
}
use ai_coding_training.Queues.Fifo.{waiting, found-put, waiting-found, enqueue-ok, enqueue-raised}
use ai_coding_training.Acks.{Ref, Heap, update}
use ai_coding_training.Router.{
  Router, queue_error, message, Round, on_queues, resume, delivered, consume_from_queue,
  route_to_queue, create_message, register, forget_if_full,
}
use ai_coding_training.Router.Polling.{consume-head}

-- A message that has been handed to a consumer, field by field.
abbrev pub handed : Text → ℕ → Message → Message
handed consumer_id now m = record m {
  status = Status.delivered;
  delivered_to = consumer_id;
  deliver_time = now;
}

update-same : (r : Ref) (m : Message) (h : Heap) → update r m h r ≡ m
unfolding update
update-same r m h = ground arith

-- The error that makes `route_to_queue` forget the message.
unfoldable pub is_full : QueueError → Bool
is_full (queue_full q n limit) = true
is_full e = false

module _ (id_now now : ℕ) (queue body : Text) (ttl : ℤ) (s : Router) where
  -- The id and the object that the next message gets.
  abbrev pub next_id : Text
  next_id = id_text id_now (s.counter + 1)

  abbrev pub next_message : Message
  next_message = new_message next_id queue body now ttl

  -- The router after the message has been created and registered.
  abbrev registered : Router
  registered = record s {
    messages = insert next_id s.next_ref s.messages;
    heap = update s.next_ref next_message s.heap;
    next_ref = s.next_ref + 1;
    counter = s.counter + 1;
  }

  update_same : update s.next_ref next_message s.heap s.next_ref ≡ next_message
  update_same = update-same s.next_ref next_message s.heap

  route_eq :
      route_to_queue id_now now queue body ttl s
      ≡ (on_queues (enqueue queue next_id body) (forget_if_full next_id) >>= λ _. pure next_id)
          registered
  unfolding route_to_queue create_message register generate_id new_message
  route_eq =
      ap
        (λ m.
          (on_queues (enqueue queue m.msg_id body) (forget_if_full m.msg_id) >>= λ _. pure m.msg_id)
            (record registered { messages = insert m.msg_id s.next_ref s.messages }))
        update_same

  -- When the queue manager takes the message.
  route-taken :
      (queues : QueueManager)
      → enqueue queue next_id body s.queues ≡ (ok tt, queues)
      → route_to_queue id_now now queue body ttl s
        ≡ (ok next_id, record registered { queues = queues })
  unfolding on_queues
  route-taken queues h =
      let send = on_queues (enqueue queue next_id body) (forget_if_full next_id) in
      route_eq
      ∙ bind-ok send (λ _. pure next_id) registered
          (ap (resume (forget_if_full next_id) registered) h)

  -- When it does not.
  route-refused :
      (e : QueueError)
      → (enqueue queue next_id body s.queues).0 ≡ raised e
      → route_to_queue id_now now queue body ttl s
        ≡ (raised (queue_error e), forget_if_full next_id e registered)
  unfolding on_queues
  route-refused e h =
      let send = on_queues (enqueue queue next_id body) (forget_if_full next_id) in
      let same = enqueue-raised queue next_id body s.queues e h in
      route_eq
      ∙ bind-raised send (λ _. pure next_id) registered
          (ap (resume (forget_if_full next_id) registered) same)

  known_next : lookup next_id registered.messages ≡ some s.next_ref
  known_next = lookup-insert next_id next_id s.next_ref s.messages ∙ rw (text_eq_refl next_id) refl

  forgotten :
      (e : QueueError)
      → ((forget_if_full next_id e registered).queues ≡ s.queues)
        × (lookup next_id (forget_if_full next_id e registered).messages
            ≡ (if is_full e then none else some s.next_ref))
  unfolding forget_if_full is_full
  forgotten (queue_full q n limit) =
      let m = registered.messages in
      (refl, lookup-erase next_id next_id m ∙ rw (text_eq_refl next_id) refl)
  forgotten (queue_exists q) = (refl, known_next)
  forgotten (queue_not_found q) = (refl, known_next)
  forgotten (queue_not_empty q n) = (refl, known_next)
  forgotten (invalid_queue_name t) = (refl, known_next)
  forgotten (message_too_large n) = (refl, known_next)
  forgotten empty_message = (refl, known_next)

  -- When the queue manager raises on a new message, `route_to_queue` raises the same, the queues
  -- stay as they were, and the registry keeps an entry for the id of the message unless the error
  -- is that the queue is full.
  pub route_to_queue-refused :
      (e : QueueError)
      → (enqueue queue next_id body s.queues).0 ≡ raised e
      → let p = route_to_queue id_now now queue body ttl s in
        (p.0 ≡ raised (queue_error e))
        × (p.1.queues ≡ s.queues)
        × (lookup next_id p.1.messages ≡ (if is_full e then none else some s.next_ref))
  route_to_queue-refused e h = rw (route-refused e h) (refl, (forgotten e).0, (forgotten e).1)

  -- A message that is sent to a queue in which nothing waits, and which takes it, is what the
  -- next consumer gets, whether it would wait or not: the new message object, with the queue for its
  -- target and with the body, marked as delivered, to that consumer and at that time; then nothing
  -- waits in the queue.
  pub consume-route_to_queue :
      (c : Text) (timeout : ℤ) (start : ℕ) (round : Round) (rounds : List Round)
      → waiting queue s.queues ≡ []
      → (enqueue queue next_id body s.queues).0 ≡ ok tt
      → let s' = (route_to_queue id_now now queue body ttl s).1 in
        let p = consume_from_queue queue c timeout start (round ∷ rounds) s' in
        (p.0 ≡ ok (message s.next_ref))
        × (p.1.heap s.next_ref ≡ handed c round.now next_message)
        × ((p.1.heap s.next_ref).target ≡ queue)
        × ((p.1.heap s.next_ref).body ≡ body)
        × (waiting queue p.1.queues ≡ [])
  consume-route_to_queue c timeout start round rounds nobody sent =
      let (q, there, room, after) = enqueue-ok queue next_id body s.queues sent in
      let last = record q { items = q.items ++ (next_id, body) ∷ [] } in
      let none_before : q.items ≡ [] = sym (waiting-found queue q s.queues there) ∙ nobody in
      let only : last.items ≡ (next_id, body) ∷ [] =
        ap (λ items. items ++ (next_id, body) ∷ []) none_before in
      let queues = put queue last s.queues in
      let taken : enqueue queue next_id body s.queues ≡ (ok tt, queues) =
        ap (λ o. (o, (enqueue queue next_id body s.queues).1)) sent ∙ ap (λ m. (ok tt, m)) after in
      let s' = record registered { queues = queues } in
      let route = route-taken queues taken in
      let head =
        consume-head queue c next_id body timeout start round rounds last [] s.next_ref s'
          (found-put queue last s.queues) only known_next in
      let got : update s.next_ref (delivered c round.now (s'.heap s.next_ref)) s'.heap s.next_ref
          ≡ handed c round.now next_message =
        update-same s.next_ref _ _
        ∙ ap (delivered c round.now) update_same
        ∙ unfold delivered in refl in
      rw (route, head)
        (
          refl,
          got,
          ap (λ (m : Message). m.target) got ∙ unfold new_message in refl,
          ap (λ (m : Message). m.body) got ∙ unfold new_message in refl,
          waiting-found queue _ _ (found-put queue (record last { items = [] }) queues),
        )
