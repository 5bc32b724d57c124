-- ===== src/Server/Sound/Messages.antt =====
-- The handlers of the server that hand messages out and settle them keep it sound.
use ai_coding_training.Base.{
  ℕ, ◌<◌, ◌≡◌, refl, Bool, true, false, not, Option, none, some, List, [], ◌∷◌, arith,
  if◌then◌else◌, All,
}
use ai_coding_training.Base.Int.{ℤ, pos}
use ai_coding_training.Base.Action.{Outcome, ok, raised, ◌>>=◌}
use ai_coding_training.Base.Keeps.{
  Keeps, if-Keeps, bind-Keeps, then-Keeps, pure-Keeps, raise-Keeps, gets-Keeps, option-Keeps,
}
use ai_coding_training.Text.{Text, codes}
use ai_coding_training.Dict.{Dict, lookup}
use ai_coding_training.Protocol.{ok_response, err_response, null_response}
use ai_coding_training.Acks.{Ref, ack, nack}
use ai_coding_training.Acks.Sound.{ack-Sound, nack-Sound}
use ai_coding_training.Queues.{queue_exists?}
use ai_coding_training.Groups.{GroupAction, create_group, join_group, next_consumer, group_exists?}
use ai_coding_training.Groups.Invariant.{
  create_group-IsValid, join_group-IsValid, next_consumer-IsValid,
}
use ai_coding_training.Router.{
  get_message, Poll, message, nothing, polling, Round, consume_from_queue,
}
use ai_coding_training.Router.Sound.Consuming.{Kept, consume_from_queue-Sound}
use ai_coding_training.Server.{
  Server, ServerAction, ServerError, on_router, on_acks, unfinished, name_error,
}
use ai_coding_training.Server.Messages.{
  keep, use_found, with_message, cmd_ack, ack_answer, ack_fails, ack_each, cmd_ack_batch, cmd_nack,
  nack_answer, timeout_arg, is_chosen, deliver_answer, consume_answer, cmd_consume, ensure_group,
  take_turn, cmd_consume_group,
}
use ai_coding_training.Server.Sound.{
  IsSound, Sound, IsSound-now, IsSound-fewer, on_groups-Sound, on_router-Sound, on_acks-Sound,
  catch-Sound, arg-Sound, set_consumer-Sound,
}

-- What holds for the objects that there are holds for fewer.
pub Sound-now :
    (k : ℕ) (s : Server) (p : Server)
    → IsSound k s
    → (IsSound s.router.next_ref s → IsSound s.router.next_ref p)
    → IsSound k p
Sound-now k s p v keep = IsSound-fewer k s.router.next_ref p v.router.low (keep (IsSound-now k s v))

-- `next_consumer`, which raises nothing.
abbrev choose_next : Text → GroupAction (Option Text)
choose_next group m = let (c, m') = next_consumer group m in (ok c, m')

module _ (k : ℕ) where
  -- What is done with a message that was found, which is one of the objects.
  pub with_message-Sound :
      (id : Text) (use_it : Ref → ServerAction Text)
      → ((n : ℕ) (r : Ref) → r < n → Keeps (Sound n) (use_it r))
      → Keeps (Sound k) (with_message id use_it)
  unfolding with_message use_found get_message
  with_message-Sound id use_it each = record {
    after = λ s v. by_found s v (lookup id s.router.messages) refl;
  }
    where
      by_found :
          (s : Server)
          → IsSound k s
          → (o : Option Ref) → lookup id s.router.messages ≡ o
          → IsSound k (use_found use_it o s).1
      by_found s v none e = v
      by_found s v (some r) e =
          Sound-now k s _ v
            ((each s.router.next_ref r (v.router.messages.each.at id r e).0).after s)

  pub cmd_ack-Sound : (c : Text) (args : List Text) → Keeps (Sound k) (cmd_ack c args)
  unfolding cmd_ack
  cmd_ack-Sound c args = bind-Keeps (arg-Sound k args 0) (λ id.
      with_message-Sound id _ (λ n r below. catch-Sound n ack_answer (
        then-Keeps (on_acks-Sound n (ack r c) (λ m d le. ack-Sound m d r c))
          (pure-Keeps (ok_response [])))))

  ack_fails-Sound : (c : Text) (o : Option Ref) → Keeps (Sound k) (ack_fails c o)
  unfolding ack_fails
  ack_fails-Sound c none = pure-Keeps true
  ack_fails-Sound c (some r) = record {
    after = λ s v.
        by_outcome (on_acks (ack r c) s)
          ((on_acks-Sound k (ack r c) (λ m d le. ack-Sound m d r c)).after s v);
  }
    where
      by_outcome :
          (p : Outcome ServerError Unit × Server)
          → IsSound k p.1
          → IsSound k
              (elim p.0 as (λ _. Outcome ServerError Bool × Server) [
                | ok u ↦ (ok false, p.1)
                | raised e ↦ (ok true, p.1)
              ]).1
      by_outcome (ok u, s) v = v
      by_outcome (raised e, s) v = v

  ack_each-Sound : (c : Text) (ids : List Text) → Keeps (Sound k) (ack_each c ids)
  unfolding ack_each
  ack_each-Sound c [] = pure-Keeps []
  ack_each-Sound c (id ∷ ids) = bind-Keeps (gets-Keeps (λ s. get_message id s.router)) (λ found.
      bind-Keeps (ack_fails-Sound c found) (λ fails.
        bind-Keeps (ack_each-Sound c ids) (λ rest. pure-Keeps (if fails then id ∷ rest else rest))))

  pub cmd_ack_batch-Sound : (c : Text) (ids : List Text) → Keeps (Sound k) (cmd_ack_batch c ids)
  unfolding cmd_ack_batch
  cmd_ack_batch-Sound c ids = bind-Keeps (ack_each-Sound c ids) (λ failed. pure-Keeps _)

  pub cmd_nack-Sound : (c : Text) (args : List Text) → Keeps (Sound k) (cmd_nack c args)
  unfolding cmd_nack
  cmd_nack-Sound c args = bind-Keeps (arg-Sound k args 0) (λ id.
      with_message-Sound id _ (λ n r below. catch-Sound n nack_answer (
        then-Keeps
          (on_acks-Sound n (nack r c) (λ m d le. nack-Sound m d r c (omega (arith, le, below))))
          (raise-Keeps name_error))))

  deliver_answer-Sound : (p : Poll) → Keeps (Sound k) (deliver_answer p)
  unfolding deliver_answer
  deliver_answer-Sound (message r) = gets-Keeps _
  deliver_answer-Sound nothing = pure-Keeps null_response
  deliver_answer-Sound polling = raise-Keeps unfinished

  -- Turns in which other threads keep the router sound, whatever the DLQ.
  abbrev pub KeptRounds : List Round → Type 0
  KeptRounds rounds = (dlq : Dict Ref) → All (Kept k dlq) rounds

  consume_and_answer-Sound :
      (queue c : Text) (timeout : ℤ) (start : ℕ) (rounds : List Round)
      → KeptRounds rounds
      → Keeps
          (Sound k)
          (on_router (consume_from_queue queue c timeout start rounds) >>= deliver_answer)
  consume_and_answer-Sound queue c timeout start rounds kept =
      bind-Keeps
        (on_router-Sound k (consume_from_queue queue c timeout start rounds)
          (λ dlq. consume_from_queue-Sound k dlq queue c timeout start rounds (kept dlq)))
        deliver_answer-Sound

  pub cmd_consume-Sound :
      (start : ℕ) (rounds : List Round) (c : Text) (args : List Text)
      → KeptRounds rounds
      → Keeps (Sound k) (cmd_consume start rounds c args)
  unfolding cmd_consume
  cmd_consume-Sound start rounds c args kept = bind-Keeps (arg-Sound k args 0) (λ queue.
      option-Keeps (timeout_arg args) (pure-Keeps _) (λ timeout.
        catch-Sound k consume_answer (consume_and_answer-Sound queue c timeout start rounds kept)))

  ensure_group-Sound : (queue group : Text) → Keeps (Sound k) (ensure_group queue group)
  unfolding ensure_group
  ensure_group-Sound queue group =
      bind-Keeps (gets-Keeps (λ s. group_exists? group s.group_mgr)) (λ there.
        bind-Keeps (gets-Keeps (λ s. queue_exists? queue s.router.queues)) (λ known.
          if-Keeps there (pure-Keeps true) (
            if-Keeps known
              (then-Keeps
                (on_groups-Sound k (create_group queue group) (create_group-IsValid queue group))
                (pure-Keeps true))
              (pure-Keeps false))))

  take_turn-Sound :
      (now : ℕ) (rounds : List Round) (c queue group : Text)
      → KeptRounds rounds
      → Keeps (Sound k) (take_turn now rounds c queue group)
  unfolding take_turn
  take_turn-Sound now rounds c queue group kept =
      then-Keeps (on_groups-Sound k (join_group now group c) (join_group-IsValid now group c)) (
        then-Keeps (set_consumer-Sound k c _) (
          bind-Keeps (on_groups-Sound k (choose_next group) (next_consumer-IsValid group))
            (λ selected.
              if-Keeps (not (is_chosen c selected)) (pure-Keeps null_response)
                (consume_and_answer-Sound queue c (pos 0) now rounds kept))))

  pub cmd_consume_group-Sound :
      (now : ℕ) (rounds : List Round) (c : Text) (args : List Text)
      → KeptRounds rounds
      → Keeps (Sound k) (cmd_consume_group now rounds c args)
  unfolding cmd_consume_group
  cmd_consume_group-Sound now rounds c args kept = bind-Keeps (arg-Sound k args 0) (λ queue.
      bind-Keeps (arg-Sound k args 1) (λ group. catch-Sound k consume_answer (
        bind-Keeps (ensure_group-Sound queue group) (λ there.
          if-Keeps there (take_turn-Sound now rounds c queue group kept)
            (pure-Keeps (err_response (codes "ERR_QUEUE_NOT_FOUND") []))))))
