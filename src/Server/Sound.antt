-- ===== src/Server/Sound.antt =====
-- The server under every handler: the frames of the calls of its parts.
pub mod Handlers
pub mod Messages
pub mod Upkeep
pub mod Reach
use ai_coding_training.Base.{
  ℕ, ◌+◌, ◌≤◌, ◌≡◌, refl, Option, none, some, List, [], ◌∷◌, arith, get_elem?,
}
use ai_coding_training.Base.Action.{Outcome, ok, raised, Action}
use ai_coding_training.Base.Keeps.{Keeps, or_raise-Keeps}
use ai_coding_training.Text.{Text}
use ai_coding_training.Dict.{Dict, lookup, insert}
use ai_coding_training.Acks.{Ref, Acks, AckAction}
use ai_coding_training.Acks.Registry.{IsRegistry, grown-IsRegistry}
use ai_coding_training.Acks.Sound as Acks
use ai_coding_training.Topics.{TopicManager, TopicAction}
use ai_coding_training.Topics.Invariant as Topics
use ai_coding_training.Queues.{QueueManager, QueueAction}
use ai_coding_training.Queues.Invariant as Queues
use ai_coding_training.Groups.{GroupManager, GroupAction}
use ai_coding_training.Groups.Invariant as Groups
use ai_coding_training.Router.{Router, RouterAction}
use ai_coding_training.Router.Sound as Router
use ai_coding_training.Persistence.Log.{LayerAction}
use ai_coding_training.Server.{
  Server, ServerError, ServerAction, Consumer, on_topics, on_queues, on_router, on_acks, on_groups,
  on_log, caught, catch, arg, no_argument, set_consumer,
}

-- At least `k` message objects; valid topics, queues and groups; and in the registry of the router
-- and in the DLQ every entry refers to an object that is there and whose id is its key, and no key is
-- there twice.
pub record IsSound (k : ℕ) (s : Server) : Type 0 where
  pub router : Router.IsSound k s.ack_mgr.dlq s.router
  pub groups : Groups.IsValid s.group_mgr

-- A state that is sound for the objects that it has is so for fewer.
pub IsSound-fewer : (k n : ℕ) (s : Server) → k ≤ n → IsSound n s → IsSound k s
IsSound-fewer k n s le v = record {
  router = record {
    low = omega (arith, v.router.low);
    topics = v.router.topics;
    queues = v.router.queues;
    messages = v.router.messages;
    dead = v.router.dead;
  };
  groups = v.groups;
}

pub IsSound-now : (k : ℕ) (s : Server) → IsSound k s → IsSound s.router.next_ref s
IsSound-now k s v = record {
  router = record {
    low = omega arith;
    topics = v.router.topics;
    queues = v.router.queues;
    messages = v.router.messages;
    dead = v.router.dead;
  };
  groups = v.groups;
}

module _ (k : ℕ) where
  abbrev pub Sound : Server → Type 0
  Sound = IsSound k

  pub on_topics-Sound :
      {A : Type 0} (call : TopicAction A)
      → ((m : TopicManager) → Topics.IsValid m → Topics.IsValid (call m).1)
      → Keeps Sound (on_topics call)
  on_topics-Sound call valid = record {
    after = λ s v. record {
      router = record {
        low = v.router.low;
        topics = valid s.router.topics v.router.topics;
        queues = v.router.queues;
        messages = v.router.messages;
        dead = v.router.dead;
      };
      groups = v.groups;
    };
  }

  pub on_queues-Sound :
      {A : Type 0} (call : QueueAction A)
      → ((m : QueueManager) → Queues.IsValid m → Queues.IsValid (call m).1)
      → Keeps Sound (on_queues call)
  on_queues-Sound call valid = record {
    after = λ s v. record {
      router = record {
        low = v.router.low;
        topics = v.router.topics;
        queues = valid s.router.queues v.router.queues;
        messages = v.router.messages;
        dead = v.router.dead;
      };
      groups = v.groups;
    };
  }

  pub on_groups-Sound :
      {A : Type 0} (call : GroupAction A)
      → ((m : GroupManager) → Groups.IsValid m → Groups.IsValid (call m).1)
      → Keeps Sound (on_groups call)
  on_groups-Sound call valid = record {
    after = λ s v. record { router = v.router; groups = valid s.group_mgr v.groups };
  }

  pub on_log-Sound : {A : Type 0} (call : LayerAction A) → Keeps Sound (on_log call)
  on_log-Sound call = record { after = λ s v. record { router = v.router; groups = v.groups } }

  pub on_router-after :
      {A : Type 0} (call : RouterAction A) (s : Server)
      → (Router.IsSound k s.ack_mgr.dlq s.router → Router.IsSound k s.ack_mgr.dlq (call s.router).1)
      → Sound s
      → Sound (on_router call s).1
  on_router-after call s keep v = record { router = keep v.router; groups = v.groups }

  pub on_router-Sound :
      {A : Type 0} (call : RouterAction A)
      → ((dlq : Dict Ref) → Keeps (Router.IsSound k dlq) call)
      → Keeps Sound (on_router call)
  on_router-Sound call keep = record {
    after = λ s v. on_router-after call s ((keep s.ack_mgr.dlq).after s.router) v;
  }

  -- The ack manager allocates nothing and knows the objects of the router.
  pub on_acks-Sound :
      {A : Type 0} (call : AckAction A)
      → ((n : ℕ) (d : Dict Ref) → k ≤ n → Keeps (Acks.IsSound n d) call)
      → Keeps Sound (on_acks call)
  on_acks-Sound call keep = record {
    after = λ s v.
        let w =
          (keep s.router.next_ref s.router.messages v.router.low).after
            (record s.ack_mgr { heap = s.router.heap })
            (record { messages = v.router.messages; dead = v.router.dead }) in
        record {
          router = record {
            low = v.router.low;
            topics = v.router.topics;
            queues = v.router.queues;
            messages = w.messages;
            dead = w.dead;
          };
          groups = v.groups;
        };
  }

  caught-Sound :
      (answer : ServerError → Option Text) (p : Outcome ServerError Text × Server)
      → Sound p.1
      → Sound (caught answer p).1
  caught-Sound answer (ok t, s) v = v
  caught-Sound answer (raised e, s) v = by_answer (answer e)
    where
      by_answer :
          (o : Option Text)
          → Sound
              (elim o as (λ _. Outcome ServerError Text × Server) [
                | none ↦ (raised e, s)
                | some t ↦ (ok t, s)
              ]).1
      by_answer none = v
      by_answer (some t) = v

  pub catch-Sound :
      (answer : ServerError → Option Text) {body : ServerAction Text}
      → Keeps Sound body
      → Keeps Sound (catch answer body)
  catch-Sound answer {body} keep = record {
    after = λ s v. caught-Sound answer (body s) (keep.after s v);
  }

  pub arg-Sound : (args : List Text) (i : ℕ) → Keeps Sound (arg args i)
  arg-Sound args i = or_raise-Keeps (get_elem? args i) no_argument

  pub set_consumer-Sound : (id : Text) (f : Consumer → Consumer) → Keeps Sound (set_consumer id f)
  unfolding set_consumer
  set_consumer-Sound id f = record { after = λ s v. kept s v (lookup id s.consumers) }
    where
      kept :
          (s : Server)
          → Sound s
          → (o : Option Consumer)
          → Sound
              (elim o as (λ _. Outcome ServerError Unit × Server) [
                | none ↦ (ok tt, s)
                | some c ↦ (ok tt, record s { consumers = insert id (f c) s.consumers })
              ]).1
      kept s v none = v
      kept s v (some c) = record { router = v.router; groups = v.groups }
