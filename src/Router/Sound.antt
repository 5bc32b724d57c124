-- ===== src/Router/Sound.antt =====
-- The router under every method: its registry, and the managers that it calls, stay valid.
pub mod Consuming
use ai_coding_training.Base.{
  ℕ, ◌<◌, ◌≤◌, ◌≡◌, refl, Bool, true, false, not, Option, none, some, List, [], ◌∷◌, arith, All,
  ltb, leb,
}
use ai_coding_training.Base.Int.{ℤ, pos, negsuc, pos_part}
use ai_coding_training.Base.Action.{Outcome, ok, raised, ◌>>=◌}
use ai_coding_training.Base.Keeps.{
  Keeps, if-Keeps, bind-Keeps, bind-after, pure-Keeps, raise-Keeps, gets-Keeps, raise_if-Keeps,
  modify-Keeps, then-Keeps,
}
use ai_coding_training.Text.{Text}
use ai_coding_training.Dict.{Dict, contains}
use ai_coding_training.Models.{Message, new_message, generate_id}
use ai_coding_training.Acks.{Ref}
use ai_coding_training.Queues.{
  QueueManager, QueueAction, QueueError, queue_exists, queue_not_empty, invalid_queue_name,
  message_too_large, empty_message, queue_not_found, queue_full, enqueue, dequeue,
}
use ai_coding_training.Queues.Invariant as Queues
use ai_coding_training.Queues.Invariant.{enqueue-IsValid, dequeue-IsValid}
use ai_coding_training.Topics.{topic_exists?, topic_not_found}
use ai_coding_training.Topics.Invariant as Topics
use ai_coding_training.Router.{
  Router, RouterAction, topic_error, resume, on_queues, no_handler, create_message, register,
  route_to_topic, forget_if_full, route_to_queue, delivered, set_message, Round, hand_over, deliver,
  answer, turn, poll, Poll, message, nothing, polling, negative_offset, consume_from_queue,
  put_offset, set_offset, restored, restore_unless, restore_message,
}
use ai_coding_training.Acks.Registry.{
  IsRegistry, insert-IsRegistry, erase-IsRegistry, update-IsRegistry, new-IsRegistry,
}

-- `dlq` is another dict of message objects, which the router does not know; `k` is a number of
-- objects that were there before.
pub record IsSound (k : ℕ) (dlq : Dict Ref) (s : Router) : Type 0 where
  pub low : k ≤ s.next_ref
  pub topics : Topics.IsValid s.topics
  pub queues : Queues.IsValid s.queues
  pub messages : IsRegistry s.heap s.next_ref s.messages
  pub dead : IsRegistry s.heap s.next_ref dlq

module _ (k : ℕ) (dlq : Dict Ref) where
  abbrev pub Sound : Router → Type 0
  Sound = IsSound k dlq

  resume-Sound :
      {A : Type 0} (handle : QueueError → Router → Router) (s : Router)
      (p : Outcome QueueError A × QueueManager)
      → ((e : QueueError) (r : Router) → Sound r → Sound (handle e r))
      → Sound s
      → Queues.IsValid p.1
      → Sound (resume handle s p).1
  resume-Sound handle s (ok a, m) keep v w = record {
    low = v.low;
    topics = v.topics;
    queues = w;
    messages = v.messages;
    dead = v.dead;
  }
  resume-Sound handle s (raised e, m) keep v w =
      keep e (record s { queues = m })
        (record {
          low = v.low;
          topics = v.topics;
          queues = w;
          messages = v.messages;
          dead = v.dead;
        })

  pub on_queues-Sound :
      {A : Type 0} (call : QueueAction A) (handle : QueueError → Router → Router)
      → ((m : QueueManager) → Queues.IsValid m → Queues.IsValid (call m).1)
      → ((e : QueueError) (r : Router) → Sound r → Sound (handle e r))
      → Keeps Sound (on_queues call handle)
  unfolding on_queues
  on_queues-Sound call handle valid keep = record {
    after = λ s v. resume-Sound handle s (call s.queues) keep v (valid s.queues v.queues);
  }

  create_message-Sound :
      (id_now now : ℕ) (target body : Text) (ttl : ℤ)
      → (s : Router) → Sound s
      → Sound (create_message id_now now target body ttl s).1
  unfolding create_message
  create_message-Sound id_now now target body ttl s v =
      let (id, counter) = generate_id id_now s.counter in
      let m = new_message id target body now ttl in
      record {
        low = omega (arith, v.low);
        topics = v.topics;
        queues = v.queues;
        messages = new-IsRegistry s.heap s.next_ref s.messages v.messages m;
        dead = new-IsRegistry s.heap s.next_ref dlq v.dead m;
      }

  pub register-Sound : (r : Ref) (s : Router) → r < s.next_ref → Sound s → Sound (register r s).1
  unfolding register
  register-Sound r s below v = record {
    low = v.low;
    topics = v.topics;
    queues = v.queues;
    messages =
        insert-IsRegistry s.heap s.next_ref s.messages v.messages (s.heap r).msg_id r (below, refl);
    dead = v.dead;
  }

  created_below :
      (id_now now : ℕ) (target body : Text) (ttl : ℤ) (s : Router) (r : Ref)
      → (create_message id_now now target body ttl s).0 ≡ ok r
      → r < (create_message id_now now target body ttl s).1.next_ref
  unfolding create_message
  created_below id_now now target body ttl s r e =
      let same : s.next_ref ≡ r = cc in omega (arith, same)

  -- The new object is registered, and the rest goes on from there.
  new_message-Sound :
      {A : Type 0} (id_now now : ℕ) (target body : Text) (ttl : ℤ) (f : Text → RouterAction A)
      → ((id : Text) → Keeps Sound (f id))
      → Keeps Sound (create_message id_now now target body ttl >>= λ r. register r >>= f)
  new_message-Sound id_now now target body ttl f keep = record {
    after = λ s v.
        let w = create_message-Sound id_now now target body ttl s v in
        bind-after Sound (create_message id_now now target body ttl) (λ r. register r >>= f) s w
          (λ r e.
            let w' = register-Sound r _ (created_below id_now now target body ttl s r e) w in
            bind-after Sound (register r) f _ w' (λ id e'. (keep id).after _ w'));
  }

  new_only-Sound :
      (id_now now : ℕ) (target body : Text) (ttl : ℤ)
      → Keeps Sound (create_message id_now now target body ttl >>= register)
  new_only-Sound id_now now target body ttl = record {
    after = λ s v.
        let w = create_message-Sound id_now now target body ttl s v in
        bind-after Sound (create_message id_now now target body ttl) register s w
          (λ r e. register-Sound r _ (created_below id_now now target body ttl s r e) w);
  }

  pub route_to_topic-Sound :
      (id_now now : ℕ) (topic body : Text) (ttl : ℤ)
      → Keeps Sound (route_to_topic id_now now topic body ttl)
  unfolding route_to_topic
  route_to_topic-Sound id_now now topic body ttl =
      bind-Keeps (gets-Keeps (λ s. topic_exists? topic s.topics)) (λ there.
        then-Keeps (raise_if-Keeps (not there) (topic_error (topic_not_found topic)))
          (new_only-Sound id_now now topic body ttl))

  forget_if_full-Sound :
      (id : Text) (e : QueueError) (r : Router) → Sound r → Sound (forget_if_full id e r)
  unfolding forget_if_full
  forget_if_full-Sound id (queue_full q n limit) r v = record {
    low = v.low;
    topics = v.topics;
    queues = v.queues;
    messages = erase-IsRegistry r.heap r.next_ref r.messages v.messages id;
    dead = v.dead;
  }
  forget_if_full-Sound id (queue_exists q) r v = v
  forget_if_full-Sound id (queue_not_found q) r v = v
  forget_if_full-Sound id (queue_not_empty q n) r v = v
  forget_if_full-Sound id (invalid_queue_name t) r v = v
  forget_if_full-Sound id (message_too_large n) r v = v
  forget_if_full-Sound id empty_message r v = v

  pub route_to_queue-Sound :
      (id_now now : ℕ) (queue body : Text) (ttl : ℤ)
      → Keeps Sound (route_to_queue id_now now queue body ttl)
  unfolding route_to_queue
  route_to_queue-Sound id_now now queue body ttl =
      new_message-Sound id_now now queue body ttl _ (λ id.
        bind-Keeps
          (on_queues-Sound (enqueue queue id body) (forget_if_full id)
            (enqueue-IsValid queue id body) (forget_if_full-Sound id))
          (λ u. pure-Keeps id))

  -- A write to an object that leaves its id alone.
  pub set_message-Sound :
      (r : Ref) (f : Message → Message)
      → ((m : Message) → (f m).msg_id ≡ m.msg_id)
      → Keeps Sound (set_message r f)
  unfolding set_message
  set_message-Sound r f same = record {
    after = λ s v. record {
      low = v.low;
      topics = v.topics;
      queues = v.queues;
      messages =
          update-IsRegistry s.heap s.next_ref s.messages v.messages r (f (s.heap r))
            (same (s.heap r));
      dead = update-IsRegistry s.heap s.next_ref dlq v.dead r (f (s.heap r)) (same (s.heap r));
    };
  }

  put_offset-Sound :
      (topic c : Text) (n : ℕ) (s : Router) → Sound s → Sound (put_offset topic c n s)
  unfolding put_offset
  put_offset-Sound topic c n s v = record {
    low = v.low;
    topics = v.topics;
    queues = v.queues;
    messages = v.messages;
    dead = v.dead;
  }

  pub set_offset-Sound : (topic c : Text) (z : ℤ) → Keeps Sound (set_offset topic c z)
  unfolding set_offset
  set_offset-Sound topic c (pos n) = modify-Keeps _ (put_offset-Sound topic c n)
  set_offset-Sound topic c (negsuc n) = raise-Keeps negative_offset

  msg_id-restored : (m : Message) → (restored m).msg_id ≡ m.msg_id
  unfolding restored
  msg_id-restored m = ground arith

  restore_unless-Sound :
      (b : Bool) (r : Ref) (s : Router) → r < s.next_ref → Sound s → Sound (restore_unless b r s).1
  unfolding restore_unless
  restore_unless-Sound true r s below v = v
  restore_unless-Sound false r s below v =
      let w = register-Sound r s below v in
      bind-after Sound (register r) (λ _. set_message r restored) s w
        (λ id e. (set_message-Sound r restored msg_id-restored).after _ w)

  pub restore_message-Sound :
      (r : Ref) (s : Router) → r < s.next_ref → Sound s → Sound (restore_message r s).1
  unfolding restore_message
  restore_message-Sound r s below v =
      restore_unless-Sound (contains (s.heap r).msg_id s.messages) r s below v
