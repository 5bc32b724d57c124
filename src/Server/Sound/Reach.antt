-- ===== src/Server/Sound/Reach.antt =====
-- Every state that the server comes to, whatever its connections send and in whatever order its
-- threads take their turns.
use mathlib.Core.Path.{subst}
use ai_coding_training.Base.{
  ℕ, ◌≡◌, refl, sym, false, Option, none, some, List, [], ◌∷◌, arith, All, Bool-cases, inl, inr,
}
use ai_coding_training.Base.Action.{Outcome, ok, raised}
use ai_coding_training.Base.Keeps.{Keeps, pure-Keeps, gets-Keeps}
use ai_coding_training.Text.{Text, text_eq}
use ai_coding_training.Dict.{Dict, lookup}
use ai_coding_training.Protocol.{Command, ParseError, parse_command}
use ai_coding_training.Acks.{Heap, check_timeouts}
use ai_coding_training.Acks.Registry.{nil-IsRegistry, IsRegistry-DistinctRefs}
use ai_coding_training.Acks.Timeouts.{expected, any_exhausted, check_timeouts-expected}
use ai_coding_training.Topics.Invariant as Topics
use ai_coding_training.Queues.Invariant as Queues
use ai_coding_training.Groups.Invariant as Groups
use ai_coding_training.Persistence.Log.{Layer}
use ai_coding_training.Server.{Server, ServerError, ServerAction, register_consumer, open_server}
use ai_coding_training.Server.Admin.{cmd_list_topics, cmd_list_queues}
use ai_coding_training.Server.Dispatch.{
  World, handlers, cmd_quit, internal, run_handler, run_parsed, dispatch,
}
use ai_coding_training.Server.Upkeep.{start, unregister_consumer, checker_round}
use ai_coding_training.Server.Nacks.{acks_of}
use ai_coding_training.Server.Sound.{IsSound, Sound}
use ai_coding_training.Server.Sound.Handlers.{
  cmd_create_topic-Sound, cmd_delete_topic-Sound, cmd_create_queue-Sound, cmd_delete_queue-Sound,
  cmd_subscribe-Sound, cmd_unsubscribe-Sound, cmd_create_group-Sound, cmd_delete_group-Sound,
  cmd_leave_group-Sound, cmd_publish-Sound, cmd_send-Sound, cmd_ping-Sound, cmd_set_offset-Sound,
}
use ai_coding_training.Server.Sound.Messages.{
  KeptRounds, cmd_ack-Sound, cmd_ack_batch-Sound, cmd_nack-Sound, cmd_consume-Sound,
  cmd_consume_group-Sound,
}
use ai_coding_training.Server.Sound.Upkeep.{
  cmd_replay-Sound, cmd_replay_all-Sound, start-Sound, unregister_consumer-Sound,
  register_consumer-Sound, checker_round-Sound,
}

some-eq : {A : Type 0} {a b : A} → some a ≡ some b → a ≡ b
some-eq h = cc

lookup-All :
    {V : Type 0} (P : V → Type 0) (k : Text) (d : Dict V) (v : V)
    → All (λ e. P e.1) d
    → lookup k d ≡ some v
    → P v
unfolding lookup
lookup-All P k [] v h e = absurd cc
lookup-All P k ((j, w) ∷ d) v h e = elim (Bool-cases (text_eq j k)) [
  | inl here ↦ subst P (some-eq (rw here at e)) h.0
  | inr later ↦ lookup-All P k d v h.1 (rw later at e)
]

-- The first of a list of proofs, and the rest.
infixr 4 ◌⊗◌
◌⊗◌ : {A B : Type 0} → A → B → A × B
a ⊗ b = (a, b)

internal-state : (w : World) (p : Outcome ServerError Text × Server) → (internal w p).1 ≡ p.1
unfolding internal
internal-state w (ok t, s) = refl
internal-state w (raised e, s) = refl

module _ (k : ℕ) (w : World) (id : Text) (kept : KeptRounds k w.rounds) where
  -- Every handler, whatever its arguments.
  handlers-Sound : All (λ e. (args : List Text) → Keeps (Sound k) (e.1 args)) (handlers w id)
  unfolding cmd_list_topics cmd_list_queues cmd_quit
  handlers-Sound =
      cmd_create_topic-Sound k
      ⊗ cmd_delete_topic-Sound k
      ⊗ (λ args. gets-Keeps _)
      ⊗ cmd_create_queue-Sound k
      ⊗ cmd_delete_queue-Sound k
      ⊗ (λ args. gets-Keeps _)
      ⊗ cmd_publish-Sound k w.now w.free
      ⊗ cmd_send-Sound k w.now w.free
      ⊗ (λ args. cmd_consume-Sound k w.now w.rounds id args kept)
      ⊗ cmd_subscribe-Sound k id
      ⊗ cmd_unsubscribe-Sound k id
      ⊗ (λ args. cmd_consume_group-Sound k w.now w.rounds id args kept)
      ⊗ cmd_set_offset-Sound k w.int_error id
      ⊗ cmd_ack-Sound k id
      ⊗ cmd_nack-Sound k id
      ⊗ cmd_ack_batch-Sound k id
      ⊗ cmd_create_group-Sound k
      ⊗ cmd_delete_group-Sound k
      ⊗ cmd_leave_group-Sound k id
      ⊗ (λ args. cmd_ping-Sound k w.now id)
      ⊗ cmd_replay-Sound k
      ⊗ cmd_replay_all-Sound k
      ⊗ (λ args. pure-Keeps _)
      ⊗ tt

  run_handler-Sound :
      (cmd : Command) (o : Option (List Text → ServerAction Text))
      → lookup cmd.name (handlers w id) ≡ o
      → Keeps (Sound k) (run_handler w cmd o)
  unfolding run_handler
  run_handler-Sound cmd none e = record { after = λ s v. v }
  run_handler-Sound cmd (some handler) e = record {
    after = λ s v.
        let keep =
          lookup-All (λ h. (args : List Text) → Keeps (Sound k) (h args)) cmd.name (handlers w id)
            handler handlers-Sound e in
        subst (IsSound k) (sym (internal-state w (handler cmd.args s))) ((keep cmd.args).after s v);
  }

  run_parsed-Sound : (p : Outcome ParseError Command) → Keeps (Sound k) (run_parsed w id p)
  unfolding run_parsed
  run_parsed-Sound (raised e) = record { after = λ s v. v }
  run_parsed-Sound (ok cmd) = record {
    after = (run_handler-Sound cmd (lookup cmd.name (handlers w id)) refl).after;
  }

  dispatch-Sound : (raw : Text) → Keeps (Sound k) (dispatch w id raw)
  unfolding dispatch
  dispatch-Sound raw = run_parsed-Sound (parse_command raw)

open_server-IsSound : (heap : Heap) (layer : Layer) → IsSound 0 (open_server heap layer)
unfolding open_server
open_server-IsSound heap layer = record {
  router = record {
    low = omega arith;
    topics = Topics.init-IsValid;
    queues = Queues.init-IsValid;
    messages = nil-IsRegistry heap 0;
    dead = nil-IsRegistry heap 0;
  };
  groups = Groups.init-IsValid;
}

-- One step of some thread: a connection begins, has a line dispatched or ends, or the checker takes a
-- round. A call that waits for ever has taken the step up to there.
pub data Step : Server → Server → Type 0 where
  connect : {s : Server} → Step s (register_consumer s).1
  line :
      {s : Server} (w : World) (id raw : Text)
      → KeptRounds 0 w.rounds
      → Step s (dispatch w id raw s).1
  check : {s : Server} (now : ℕ) → Step s (checker_round now s).1
  leave : {s : Server} (id : Text) → Step s (unregister_consumer id s).1

pub data Reach (s : Server) : Server → Type 0 where
  here : Reach s s
  next : {t u : Server} → Reach s t → Step t u → Reach s u

step-IsSound : {s t : Server} → Step s t → IsSound 0 s → IsSound 0 t
step-IsSound {s} connect v = register_consumer-Sound 0 s v
step-IsSound {s} (line w id raw kept) v = (dispatch-Sound 0 w id kept raw).after s v
step-IsSound {s} (check now) v = (checker_round-Sound 0 now).after s v
step-IsSound {s} (leave id) v = (unregister_consumer-Sound 0 id).after s v

-- The server as `start` leaves it before it listens.
abbrev pub started : Heap → Layer → Server
started heap layer = (start (open_server heap layer)).1

-- In every state that a server comes to after its start, whatever the log held, whatever lines its
-- connections send, and in whatever order lines, rounds of the checker, and beginnings and ends of
-- connections come: each queue has room for what it holds, topics are within their number, exactly the
-- groups have a target and an index, and each entry of the registry and of the DLQ refers to a message
-- object that is there and has the key for its id. The turns of a polling consumer are those in which
-- the other threads leave the router so.
pub reach-IsSound :
    (heap : Heap) (layer : Layer) {s : Server} → Reach (started heap layer) s → IsSound 0 s
reach-IsSound heap layer here =
    (start-Sound 0).after (open_server heap layer) (open_server-IsSound heap layer)
reach-IsSound heap layer (next r step) = step-IsSound step (reach-IsSound heap layer r)

-- In every state that a server comes to after its start with the lock of the ack manager free, the
-- checker's `check_timeouts` over the registry waits for ever when some overdue message has had every
-- retry, and otherwise returns the ids of the overdue messages in order; the lock stays taken in the
-- first case only.
pub check_timeouts-Reach :
    (heap : Heap) (layer : Layer) (now : ℕ) {s : Server}
    → Reach (started heap layer) s
    → s.ack_mgr.locked ≡ false
    → let p = check_timeouts now s.router.messages (acks_of s) in
      (p.0 ≡ expected now (acks_of s) s.router.messages)
      × (p.1.locked ≡ any_exhausted now (acks_of s) s.router.messages)
check_timeouts-Reach heap layer now {s} r free =
    check_timeouts-expected now s.router.messages (acks_of s) free (
      IsRegistry-DistinctRefs s.router.heap s.router.next_ref s.router.messages
        (reach-IsSound heap layer r).router.messages)
