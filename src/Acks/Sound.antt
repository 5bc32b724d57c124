-- ===== src/Acks/Sound.antt =====
-- The ack manager under every method: the messages of the router and the DLQ stay registries.
use ai_coding_training.Base.{
  ℕ, ◌<◌, ◌≡◌, refl, true, false, not, Option, none, some, List, [], ◌∷◌, arith, ltb, All,
  if◌then◌else◌,
}
use ai_coding_training.Base.Keeps.{
  Keeps, if-Keeps, bind-Keeps, then-Keeps, pure-Keeps, raise-Keeps, gets-Keeps, raise_if-Keeps,
  Gives, pure-Gives, bind-Gives, then-Gives, ok-eq,
}
use ai_coding_training.Text.{Text, text_eq}
use ai_coding_training.Dict.{Dict, lookup}
use ai_coding_training.Models.{Message, Status, status_eq}
use ai_coding_training.Acks.{
  Ref, Acks, not_delivered, not_owner, nack_not_delivered, acquire, release, set_message, dead,
  insert_dlq, move_to_dlq, acked, ack, count_retry, requeued, retry, nack, is_overdue, check_each,
  check_timeouts, is_expired, outlived, expire, check_ttl, revived, pop_dlq, revive,
  replay_from_dlq, bound_for, cons_found, replay_each, replay_all_from_dlq,
}
use ai_coding_training.Acks.Registry.{
  IsRegistry, insert-IsRegistry, erase-IsRegistry, update-IsRegistry,
}

-- Over `n` objects and the messages `d` of the router.
pub record IsSound (n : ℕ) (d : Dict Ref) (s : Acks) : Type 0 where
  pub messages : IsRegistry s.heap n d
  pub dead : IsRegistry s.heap n s.dlq

-- A message that was found is one of the objects.
abbrev pub IsOne : ℕ → Option Ref → Type 0
IsOne n none = Unit
IsOne n (some r) = r < n

module _ (n : ℕ) (d : Dict Ref) where
  abbrev pub Sound : Acks → Type 0
  Sound = IsSound n d

  acquire-Sound : Keeps Sound acquire
  unfolding acquire
  acquire-Sound = record { after = λ s v. ground (arith, v) }

  release-Sound : Keeps Sound release
  unfolding release
  release-Sound = record { after = λ s v. record { messages = v.messages; dead = v.dead } }

  set_message-Sound :
      (r : Ref) (f : Message → Message)
      → ((m : Message) → (f m).msg_id ≡ m.msg_id)
      → Keeps Sound (set_message r f)
  unfolding set_message
  set_message-Sound r f same = record {
    after = λ s v. record {
      messages = update-IsRegistry s.heap n d v.messages r (f (s.heap r)) (same (s.heap r));
      dead = update-IsRegistry s.heap n s.dlq v.dead r (f (s.heap r)) (same (s.heap r));
    };
  }

  insert_dlq-Sound : (r : Ref) → r < n → Keeps Sound (insert_dlq r)
  unfolding insert_dlq
  insert_dlq-Sound r below = record {
    after = λ s v. record {
      messages = v.messages;
      dead = insert-IsRegistry s.heap n s.dlq v.dead (s.heap r).msg_id r (below, refl);
    };
  }

  move_to_dlq-Sound : (r : Ref) → r < n → Keeps Sound (move_to_dlq r)
  unfolding move_to_dlq dead
  move_to_dlq-Sound r below =
      then-Keeps (set_message-Sound r dead (λ m. refl))
        (then-Keeps acquire-Sound (then-Keeps (insert_dlq-Sound r below) release-Sound))

  retry-Sound : (r : Ref) → r < n → Keeps Sound (retry r)
  unfolding retry count_retry requeued
  retry-Sound r below = then-Keeps (set_message-Sound r count_retry (λ m. refl)) (
      bind-Keeps (gets-Keeps (λ s. s.heap r)) (λ msg.
        bind-Keeps (gets-Keeps (λ s. s.max_retries)) (λ limit.
          if-Keeps (ltb limit msg.retry_count)
            (then-Keeps (move_to_dlq-Sound r below) (pure-Keeps false))
            (then-Keeps (set_message-Sound r requeued (λ m. refl)) (pure-Keeps true)))))

  pub ack-Sound : (r : Ref) (c : Text) → Keeps Sound (ack r c)
  unfolding ack acked
  ack-Sound r c = bind-Keeps (gets-Keeps (λ s. s.heap r)) (λ msg.
      if-Keeps (not (status_eq msg.status Status.delivered))
        (if-Keeps (status_eq msg.status Status.acked) (pure-Keeps tt)
          (raise-Keeps (not_delivered msg.msg_id msg.status)))
        (then-Keeps (raise_if-Keeps (not (text_eq msg.delivered_to c)) (not_owner msg.msg_id c))
          (set_message-Sound r acked (λ m. refl))))

  pub nack-Sound : (r : Ref) (c : Text) → r < n → Keeps Sound (nack r c)
  unfolding nack
  nack-Sound r c below = bind-Keeps (gets-Keeps (λ s. s.heap r)) (λ msg.
      then-Keeps (raise_if-Keeps (not (status_eq msg.status Status.delivered)) nack_not_delivered) (
        then-Keeps (raise_if-Keeps (not (text_eq msg.delivered_to c)) (not_owner msg.msg_id c))
          (then-Keeps (retry-Sound r below) (pure-Keeps tt))))

  -- Entries that refer to objects that are there.
  abbrev pub Below : Dict Ref → Type 0
  Below = All (λ e. e.1 < n)

  check_each-Sound : (now : ℕ) (e : Dict Ref) → Below e → Keeps Sound (check_each now e)
  unfolding check_each
  check_each-Sound now [] below = pure-Keeps []
  check_each-Sound now ((id, r) ∷ e) below =
      bind-Keeps (gets-Keeps (λ s. is_overdue now s.default_ack_timeout (s.heap r))) (λ late.
        bind-Keeps (if-Keeps late (retry-Sound r below.0) (pure-Keeps false)) (λ waits.
          bind-Keeps (check_each-Sound now e below.1)
            (λ rest. pure-Keeps (if waits then id ∷ rest else rest))))

  pub check_timeouts-Sound : (now : ℕ) (e : Dict Ref) → Below e → Keeps Sound (check_timeouts now e)
  unfolding check_timeouts
  check_timeouts-Sound now e below = then-Keeps acquire-Sound (
      bind-Keeps (check_each-Sound now e below)
        (λ expired. then-Keeps release-Sound (pure-Keeps expired)))

  pub check_ttl-Sound : (now : ℕ) (e : Dict Ref) → Below e → Keeps Sound (check_ttl now e)
  unfolding check_ttl expire outlived
  check_ttl-Sound now [] below = pure-Keeps []
  check_ttl-Sound now ((id, r) ∷ e) below =
      bind-Keeps (gets-Keeps (λ s. is_expired now s.default_ttl (s.heap r))) (λ old.
        bind-Keeps
          (if-Keeps old
            (then-Keeps (set_message-Sound r outlived (λ m. refl)) (move_to_dlq-Sound r below.0))
            (pure-Keeps tt))
          (λ u.
            bind-Keeps (check_ttl-Sound now e below.1)
              (λ rest. pure-Keeps (if old then id ∷ rest else rest))))

  pop_dlq-Sound : (id : Text) → Keeps Sound (pop_dlq id)
  unfolding pop_dlq
  pop_dlq-Sound id = record {
    after =
        λ s v. record { messages = v.messages; dead = erase-IsRegistry s.heap n s.dlq v.dead id };
  }

  revive-Sound : (o : Option Ref) → Keeps Sound (revive o)
  unfolding revive revived
  revive-Sound none = pure-Keeps none
  revive-Sound (some r) = then-Keeps (set_message-Sound r revived (λ m. refl)) (pure-Keeps (some r))

  pub replay_from_dlq-Sound : (id : Text) → Keeps Sound (replay_from_dlq id)
  unfolding replay_from_dlq
  replay_from_dlq-Sound id =
      then-Keeps acquire-Sound
        (bind-Keeps (pop_dlq-Sound id) (λ found. then-Keeps release-Sound (revive-Sound found)))

  replay_each-Sound : (ids : List Text) → Keeps Sound (replay_each ids)
  unfolding replay_each
  replay_each-Sound [] = pure-Keeps []
  replay_each-Sound (id ∷ ids) =
      bind-Keeps (replay_from_dlq-Sound id)
        (λ found. bind-Keeps (replay_each-Sound ids) (λ rest. pure-Keeps (cons_found found rest)))

  pub replay_all_from_dlq-Sound : (target : Text) → Keeps Sound (replay_all_from_dlq target)
  unfolding replay_all_from_dlq
  replay_all_from_dlq-Sound target = then-Keeps acquire-Sound (
      bind-Keeps (gets-Keeps (λ s. bound_for target s.heap s.dlq))
        (λ ids. then-Keeps release-Sound (replay_each-Sound ids)))

  lookup-IsOne : (id : Text) (s : Acks) (o : Option Ref) → Sound s → lookup id s.dlq ≡ o → IsOne n o
  lookup-IsOne id s none v h = tt
  lookup-IsOne id s (some r) v h = (v.dead.each.at id r h).0

  pop_dlq-Gives : (id : Text) → Gives Sound (IsOne n) (pop_dlq id)
  unfolding pop_dlq
  pop_dlq-Gives id = record { given = λ s v o e. lookup-IsOne id s o v (ok-eq e) }

  revive-Gives : (o : Option Ref) → IsOne n o → Gives Sound (IsOne n) (revive o)
  unfolding revive
  revive-Gives none one = pure-Gives none tt
  revive-Gives (some r) one =
      then-Gives (set_message-Sound r revived (unfold revived in λ m. refl))
        (pure-Gives (some r) one)

  pub replay_from_dlq-Gives : (id : Text) → Gives Sound (IsOne n) (replay_from_dlq id)
  unfolding replay_from_dlq
  replay_from_dlq-Gives id = then-Gives acquire-Sound (
      bind-Gives (pop_dlq-Sound id) (pop_dlq-Gives id)
        (λ o one. then-Gives release-Sound (revive-Gives o one)))

  cons_found-Below :
      (o : Option Ref) (rs : List Ref)
      → IsOne n o
      → All (λ r. r < n) rs
      → All (λ r. r < n) (cons_found o rs)
  cons_found-Below none rs one below = below
  cons_found-Below (some r) rs one below = (one, below)

  replay_each-Gives : (ids : List Text) → Gives Sound (All (λ r. r < n)) (replay_each ids)
  unfolding replay_each
  replay_each-Gives [] = pure-Gives [] tt
  replay_each-Gives (id ∷ ids) =
      bind-Gives (replay_from_dlq-Sound id) (replay_from_dlq-Gives id) (λ o one.
        bind-Gives (replay_each-Sound ids) (replay_each-Gives ids)
          (λ rest below. pure-Gives (cons_found o rest) (cons_found-Below o rest one below)))

  pub replay_all_from_dlq-Gives :
      (target : Text) → Gives Sound (All (λ r. r < n)) (replay_all_from_dlq target)
  unfolding replay_all_from_dlq
  replay_all_from_dlq-Gives target = then-Gives acquire-Sound (
      bind-Gives {Q = λ ids. Unit} (gets-Keeps (λ s. bound_for target s.heap s.dlq))
        (record { given = λ s v a e. tt })
        (λ ids q. then-Gives release-Sound (replay_each-Gives ids)))
