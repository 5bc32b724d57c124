-- ===== src/Server/Sound/Upkeep.antt =====
-- The replays, the start, the end of a connection and the checker keep the server sound.
use ai_coding_training.Base.{ℕ, ◌<◌, ◌≤◌, ◌≡◌, Option, none, some, List, [], ◌∷◌, arith, All}
use ai_coding_training.Base.Action.{Outcome, ok, raised, ◌>>=◌, ◌>>◌}
use ai_coding_training.Base.Keeps.{
  Keeps, if-Keeps, bind-Keeps, then-Keeps, bind-after, pure-Keeps, raise-Keeps, gets-Keeps,
  modify-Keeps,
}
use ai_coding_training.Text.{Text, text_eq}
use ai_coding_training.Dict.{Dict, contains, erase}
use ai_coding_training.Models.{Message}
use ai_coding_training.Acks.{
  Ref, AckAction, check_timeouts, check_ttl, replay_from_dlq, replay_all_from_dlq,
}
use ai_coding_training.Acks.Registry.{new-IsRegistry, IsRegistry-Below}
use ai_coding_training.Acks.Sound as Acks
use ai_coding_training.Acks.Sound.{
  check_timeouts-Sound, check_ttl-Sound, replay_from_dlq-Sound, replay_all_from_dlq-Sound,
  replay_from_dlq-Gives, replay_all_from_dlq-Gives,
}
use ai_coding_training.Base.Keeps.{Gives}
use ai_coding_training.Topics.{TopicAction, remove_consumer_from_all}
use ai_coding_training.Topics.Invariant.{remove_consumer-IsValid}
use ai_coding_training.Groups.{GroupAction}
use ai_coding_training.Groups as Groups
use ai_coding_training.Groups.Invariant.{expel-IsValid, check_each-IsValid}
use ai_coding_training.Queues.{enqueue, queue_exists?}
use ai_coding_training.Queues.Invariant.{enqueue-IsValid}
use ai_coding_training.Router.{restore_message}
use ai_coding_training.Router.Sound.{restore_message-Sound}
use ai_coding_training.Server.{
  Server, ServerAction, ServerError, on_router, on_acks, on_groups, name_error, raise_as, in_acks,
  register_consumer,
}
use ai_coding_training.Server.Upkeep.{
  enqueue_again, put_back, cmd_replay, replayed, replayed_all, put_back_all, cmd_replay_all,
  new_object, restore_all, recover_log, start, any_with, redeliver, unregister_consumer, has_any,
  redeliver_each, requeue_each, checker_round,
}
use ai_coding_training.Server.Sound.{
  IsSound, Sound, IsSound-now, on_topics-Sound, on_queues-Sound, on_groups-Sound, on_router-after,
  on_acks-Sound, arg-Sound,
}
use ai_coding_training.Server.Sound.Messages.{Sound-now}

-- What a call of the ack manager returned, as the manager gave it.
raise_as-ok :
    {E A : Type 0} (f : E → ServerError) (o : Outcome E A) (a : A) → raise_as f o ≡ ok a → o ≡ ok a
raise_as-ok f (ok b) a h = cc
raise_as-ok f (raised e) a h = absurd cc

on_acks-given :
    {A : Type 0} {Q : A → Type 0} (call : AckAction A) (k : ℕ) (s : Server)
    → Gives (Acks.Sound s.router.next_ref s.router.messages) Q call
    → IsSound k s
    → (a : A) → (on_acks call s).0 ≡ ok a
    → Q a
on_acks-given call k s give v a e =
    give.given (record s.ack_mgr { heap = s.router.heap })
      (record { messages = v.router.messages; dead = v.router.dead }) a
      (raise_as-ok in_acks (call (record s.ack_mgr { heap = s.router.heap })).0 a e)

abbrev check_all : ℕ → GroupAction (List Text)
check_all now m = let (ids, m') = Groups.check_timeouts now m in (ok ids, m')

abbrev leave_topics : Text → TopicAction Unit
leave_topics id m = (ok tt, remove_consumer_from_all id m)

abbrev forget_session : Text → Server → Server
forget_session id s = record s { consumers = erase id s.consumers }

Below-more : (k n : ℕ) (d : Dict Ref) → k ≤ n → All (λ e. e.1 < k) d → All (λ e. e.1 < n) d
Below-more k n [] le below = tt
Below-more k n (e ∷ d) le below = (omega (arith, le, below.0), Below-more k n d le below.1)

abbrev part_all : Text → GroupAction (List Text)
part_all id m = let (gs, m') = Groups.remove_consumer_from_all_groups id m in (ok gs, m')

module _ (k : ℕ) where
  enqueue_again-Sound : (r : Ref) → Keeps (Sound k) (enqueue_again r)
  unfolding enqueue_again
  enqueue_again-Sound r = bind-Keeps (gets-Keeps (λ s. s.router.heap r)) (λ msg.
      bind-Keeps (gets-Keeps (λ s. queue_exists? msg.target s.router.queues)) (λ there.
        if-Keeps there
          (on_queues-Sound k (enqueue msg.target msg.msg_id msg.body)
            (enqueue-IsValid msg.target msg.msg_id msg.body))
          (pure-Keeps tt)))

  restore-Sound : (r : Ref) → r < k → Keeps (Sound k) (on_router (restore_message r))
  restore-Sound r below = record {
    after = λ s v.
        on_router-after k (restore_message r) s
          (λ w. restore_message-Sound k s.ack_mgr.dlq r s.router (omega (arith, below, w.low)) w) v;
  }

  put_back-Sound : (r : Ref) → r < k → Keeps (Sound k) (put_back r)
  unfolding put_back
  put_back-Sound r below = then-Keeps (restore-Sound r below) (enqueue_again-Sound r)

  put_back_all-Sound : (rs : List Ref) → All (λ r. r < k) rs → Keeps (Sound k) (put_back_all rs)
  unfolding put_back_all
  put_back_all-Sound [] below = pure-Keeps tt
  put_back_all-Sound (r ∷ rs) below =
      then-Keeps (put_back-Sound r below.0) (put_back_all-Sound rs below.1)

  replayed-Sound : (id : Text) (o : Option Ref) → Acks.IsOne k o → Keeps (Sound k) (replayed id o)
  unfolding replayed
  replayed-Sound id none one = pure-Keeps _
  replayed-Sound id (some r) one = then-Keeps (put_back-Sound r one) (pure-Keeps _)

  replayed_all-Sound :
      (target : Text) (rs : List Ref)
      → All (λ r. r < k) rs
      → Keeps (Sound k) (replayed_all target rs)
  unfolding replayed_all
  replayed_all-Sound target rs below = then-Keeps (put_back_all-Sound rs below) (pure-Keeps _)

module _ (k : ℕ) where
  -- The rest of a handler after a call of the ack manager, whose value is known to satisfy `Q`.
  after_acks :
      {A : Type 0} {Q : ℕ → A → Type 0} (call : AckAction A) (f : A → ServerAction Text)
      → ((n : ℕ) (d : Dict Ref) → Keeps (Acks.Sound n d) call)
      → ((n : ℕ) (d : Dict Ref) → Gives (Acks.Sound n d) (Q n) call)
      → ((n : ℕ) (a : A) → Q n a → Keeps (Sound n) (f a))
      → Keeps (Sound k) (on_acks call >>= f)
  after_acks {Q = Q} call f keep give next = record {
    after = λ s v.
        let n = s.router.next_ref in
        let now = IsSound-now k s v in
        let later = (on_acks-Sound n call (λ m d le. keep m d)).after s now in
        Sound-now k s _ v (λ _. bind-after (Sound n) (on_acks call) f s later (λ a e.
          (next n a (on_acks-given {Q = Q n} call n s (give n s.router.messages) now a e)).after _
            later));
  }

  pub cmd_replay-Sound : (args : List Text) → Keeps (Sound k) (cmd_replay args)
  unfolding cmd_replay
  cmd_replay-Sound args = bind-Keeps (arg-Sound k args 0) (λ marker.
      bind-Keeps (arg-Sound k args 1) (λ id.
        after_acks {Q = Acks.IsOne} (replay_from_dlq id) (replayed id)
          (λ n d. replay_from_dlq-Sound n d id) (λ n d. replay_from_dlq-Gives n d id)
          (λ n o one. replayed-Sound n id o one)))

  pub cmd_replay_all-Sound : (args : List Text) → Keeps (Sound k) (cmd_replay_all args)
  unfolding cmd_replay_all
  cmd_replay_all-Sound args = bind-Keeps (arg-Sound k args 0) (λ marker.
      bind-Keeps (arg-Sound k args 1) (λ target.
        after_acks {Q = λ n. All (λ r. r < n)} (replay_all_from_dlq target) (replayed_all target)
          (λ n d. replay_all_from_dlq-Sound n d target)
          (λ n d. replay_all_from_dlq-Gives n d target)
          (λ n rs below. replayed_all-Sound n target rs below)))

  new_object-Sound : (m : Message) (s : Server) → IsSound k s → IsSound k (new_object m s).1
  unfolding new_object
  new_object-Sound m s v = record {
    router = record {
      low = omega (arith, v.router.low);
      topics = v.router.topics;
      queues = v.router.queues;
      messages =
          new-IsRegistry s.router.heap s.router.next_ref s.router.messages v.router.messages m;
      dead = new-IsRegistry s.router.heap s.router.next_ref s.ack_mgr.dlq v.router.dead m;
    };
    groups = v.groups;
  }

  new_object-below :
      (m : Message) (s : Server) (r : Ref)
      → (new_object m s).0 ≡ ok r
      → r < (new_object m s).1.router.next_ref
  unfolding new_object
  new_object-below m s r e = let same : s.router.next_ref ≡ r = cc in omega (arith, same)

  restored-Sound :
      (r : Ref) (s : Server)
      → r < s.router.next_ref
      → IsSound k s
      → IsSound k (on_router (restore_message r) s).1
  restored-Sound r s below v =
      on_router-after k (restore_message r) s
        (restore_message-Sound k s.ack_mgr.dlq r s.router below) v

  restore_all-Sound : (ms : List Message) → Keeps (Sound k) (restore_all ms)
  unfolding restore_all
  restore_all-Sound [] = pure-Keeps tt
  restore_all-Sound (m ∷ ms) = record {
    after = λ s v.
        let w = new_object-Sound m s v in
        bind-after (Sound k) (new_object m) (λ r. on_router (restore_message r) >> restore_all ms) s
          w
          (λ r e.
            let w' = restored-Sound r _ (new_object-below m s r e) w in
            bind-after (Sound k) (on_router (restore_message r)) (λ _. restore_all ms) _ w'
              (λ u e'. (restore_all-Sound ms).after _ w'));
  }

  recover_log-Sound : Keeps (Sound k) recover_log
  unfolding recover_log
  recover_log-Sound = record { after = λ s v. record { router = v.router; groups = v.groups } }

  pub start-Sound : Keeps (Sound k) start
  unfolding start
  start-Sound = bind-Keeps recover_log-Sound restore_all-Sound

  redeliver-Sound : (id : Text) → Keeps (Sound k) (redeliver id)
  unfolding redeliver
  redeliver-Sound id =
      bind-Keeps
        (gets-Keeps (λ s. any_with (λ m. text_eq m.delivered_to id) s.router s.router.messages))
        (λ hit. if-Keeps hit (raise-Keeps name_error) (pure-Keeps tt))

  redeliver_each-Sound : (ids : List Text) → Keeps (Sound k) (redeliver_each ids)
  unfolding redeliver_each
  redeliver_each-Sound [] = pure-Keeps tt
  redeliver_each-Sound (id ∷ ids) = then-Keeps (redeliver-Sound id) (redeliver_each-Sound ids)

  requeue_each-Sound : (ids : List Text) → Keeps (Sound k) (requeue_each ids)
  unfolding requeue_each
  requeue_each-Sound [] = pure-Keeps tt
  requeue_each-Sound (id ∷ ids) =
      bind-Keeps (gets-Keeps (λ s. contains id s.router.messages))
        (λ known. if-Keeps known (raise-Keeps name_error) (requeue_each-Sound ids))

  pub unregister_consumer-Sound : (id : Text) → Keeps (Sound k) (unregister_consumer id)
  unfolding unregister_consumer Groups.remove_consumer_from_all_groups Groups.expel
  unregister_consumer-Sound id =
      then-Keeps (on_topics-Sound k (leave_topics id) (remove_consumer-IsValid id)) (
        bind-Keeps (on_groups-Sound k (part_all id) (expel-IsValid id)) (λ groups.
          then-Keeps
            (modify-Keeps (forget_session id)
              (λ s v. record { router = v.router; groups = v.groups }))
            (if-Keeps (has_any groups) (redeliver-Sound id) (pure-Keeps tt))))

  pub register_consumer-Sound : (s : Server) → IsSound k s → IsSound k (register_consumer s).1
  unfolding register_consumer
  register_consumer-Sound s v = record { router = v.router; groups = v.groups }

  -- The checker after it has read the registry.
  checked-Sound :
      (now : ℕ) (d : Dict Ref)
      → All (λ e. e.1 < k) d
      → Keeps (Sound k) (
          on_acks (check_timeouts now d) >>= λ late.
          requeue_each late
          >> (on_acks (check_ttl now d) >> (on_groups (check_all now) >>= redeliver_each)))
  unfolding Groups.check_timeouts
  checked-Sound now d below =
      bind-Keeps
        (on_acks-Sound k (check_timeouts now d)
          (λ n e le. check_timeouts-Sound n e now d (Below-more k n d le below)))
        (λ late. then-Keeps (requeue_each-Sound late) (
          then-Keeps
            (on_acks-Sound k (check_ttl now d)
              (λ n e le. check_ttl-Sound n e now d (Below-more k n d le below)))
            (bind-Keeps
              (on_groups-Sound k (check_all now) (λ m. check_each-IsValid now m.heartbeats m))
              redeliver_each-Sound)))

pub checker_round-Sound : (k now : ℕ) → Keeps (Sound k) (checker_round now)
unfolding checker_round
checker_round-Sound k now = record {
  after = λ s v. Sound-now k s _ v (
      (checked-Sound s.router.next_ref now s.router.messages (
          IsRegistry-Below s.router.heap s.router.next_ref s.router.messages
            v.router.messages)).after
        s);
}
