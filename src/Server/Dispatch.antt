-- ===== src/Server/Dispatch.antt =====
-- `_dispatch` of src/server.py: from a line to the handler of its command, and what becomes of the
-- exceptions that the handler does not catch.
use ai_coding_training.Base.{
  ℕ, ◌≡◌, refl, sym, ap, ◌∙◌, Bool, true, false, Option, none, some, List, [], ◌∷◌, ◌++◌,
  Bool-cases, inl, inr, if◌then◌else◌,
}
use ai_coding_training.Base.Action.{Outcome, ok, raised, pure}
use ai_coding_training.Text.{Text, codes}
use ai_coding_training.Text.Words.{strip, strip_idem}
use ai_coding_training.Members.{mem}
use ai_coding_training.Dict.{Dict, lookup, contains, keys, mem-keys}
use ai_coding_training.Protocol.{
  Command, ParseError, valid_commands, parse_command, parse_error_text, err_response, ok_response,
}
use ai_coding_training.Protocol.Parse.{parse_command-WellFormed}
use ai_coding_training.Acks.{deadlock}
use ai_coding_training.Router.{Round}
use ai_coding_training.Server.{Server, ServerError, ServerAction, in_acks, unfinished, cmd_ping}
use ai_coding_training.Server.Admin.{
  cmd_create_topic, cmd_delete_topic, cmd_list_topics, cmd_create_queue, cmd_delete_queue,
  cmd_list_queues, cmd_subscribe, cmd_unsubscribe, cmd_create_group, cmd_delete_group,
  cmd_leave_group,
}
use ai_coding_training.Server.Messages.{
  cmd_publish, cmd_send, cmd_consume, cmd_consume_group, cmd_set_offset, cmd_ack, cmd_nack,
  cmd_ack_batch,
}
use ai_coding_training.Server.Upkeep.{cmd_replay, cmd_replay_all}

-- What a call meets outside the server: the clock, the free space of the disk, the turns of a polling
-- consumer, and Python's texts for a failed `int` and for an exception.
pub record World : Type 0 where
  pub now : ℕ
  pub free : ℕ
  pub rounds : List Round
  pub int_error : Text → Text
  pub error_text : ServerError → Text

unfoldable pub cmd_quit : ServerAction Text
cmd_quit = pure (ok_response (codes "BYE"))

-- `getattr(self, f"_cmd_{name}")`, by the names of the commands.
abbrev pub handlers : World → Text → Dict (List Text → ServerAction Text)
handlers w id =
    (codes "CREATE_TOPIC", cmd_create_topic)
    ∷ (codes "DELETE_TOPIC", cmd_delete_topic)
    ∷ (codes "LIST_TOPICS", (λ args. cmd_list_topics))
    ∷ (codes "CREATE_QUEUE", cmd_create_queue)
    ∷ (codes "DELETE_QUEUE", cmd_delete_queue)
    ∷ (codes "LIST_QUEUES", (λ args. cmd_list_queues))
    ∷ (codes "PUBLISH", cmd_publish w.now w.free)
    ∷ (codes "SEND", cmd_send w.now w.free)
    ∷ (codes "CONSUME", cmd_consume w.now w.rounds id)
    ∷ (codes "SUBSCRIBE", cmd_subscribe id)
    ∷ (codes "UNSUBSCRIBE", cmd_unsubscribe id)
    ∷ (codes "CONSUME_GROUP", cmd_consume_group w.now w.rounds id)
    ∷ (codes "SET_OFFSET", cmd_set_offset w.int_error id)
    ∷ (codes "ACK", cmd_ack id)
    ∷ (codes "NACK", cmd_nack id)
    ∷ (codes "ACK_BATCH", cmd_ack_batch id)
    ∷ (codes "CREATE_GROUP", cmd_create_group)
    ∷ (codes "DELETE_GROUP", cmd_delete_group)
    ∷ (codes "LEAVE_GROUP", cmd_leave_group id)
    ∷ (codes "PING", (λ args. cmd_ping w.now id))
    ∷ (codes "REPLAY", cmd_replay)
    ∷ (codes "REPLAY_ALL", cmd_replay_all)
    ∷ (codes "QUIT", (λ args. cmd_quit))
    ∷ []

-- A wait that does not end is no exception.
unfoldable pub hangs : ServerError → Bool
hangs (in_acks deadlock) = true
hangs unfinished = true
hangs e = false

-- `except Exception`
unfoldable pub internal :
    World → Outcome ServerError Text × Server → Outcome ServerError Text × Server
unfolding hangs
internal w (ok t, s) = (ok t, s)
internal w (raised e, s) =
    (if hangs e then raised e else ok (err_response (codes "ERR_INTERNAL") (w.error_text e)), s)

unfoldable pub run_handler :
    World → Command → Option (List Text → ServerAction Text) → ServerAction Text
unfolding internal
run_handler w cmd none s = (
  ok (
      err_response (codes "ERR_NOT_IMPLEMENTED")
        (codes "Command " ++ cmd.name ++ codes " not implemented yet")),
  s,
)
run_handler w cmd (some handler) s = internal w (handler cmd.args s)

unfoldable pub run_parsed : World → Text → Outcome ParseError Command → ServerAction Text
unfolding run_handler
run_parsed w id (raised e) s =
    (ok (err_response (codes "ERR_INVALID_COMMAND") (parse_error_text e)), s)
run_parsed w id (ok cmd) s = run_handler w cmd (lookup cmd.name (handlers w id)) s

unfoldable pub dispatch : World → Text → Text → ServerAction Text
unfolding run_parsed
dispatch w id raw = run_parsed w id (parse_command raw)

keys-handlers : (w : World) (id : Text) → keys (handlers w id) ≡ valid_commands
unfolding keys
keys-handlers w id = refl

-- The command of every line that the parser accepts has a handler.
pub lookup-handlers :
    (w : World) (id raw : Text) (cmd : Command)
    → parse_command raw ≡ ok cmd
    → contains cmd.name (handlers w id) ≡ true
lookup-handlers w id raw cmd h =
    sym (mem-keys cmd.name (handlers w id))
    ∙ ap (mem cmd.name) (keys-handlers w id)
    ∙ (parse_command-WellFormed raw cmd h).0

internal-hangs :
    (w : World) (p : Outcome ServerError Text × Server) (e : ServerError)
    → (internal w p).0 ≡ raised e
    → hangs e ≡ true
unfolding internal
internal-hangs w (ok t, s) e h = cc
internal-hangs w (raised e', s) e h = elim (Bool-cases (hangs e')) [
  | inl waits ↦
      let same : (internal w (raised e', s)).0 ≡ raised e' = rw waits refl in
      let same_error : e' ≡ e = cc in rw (← same_error) waits
  | inr caught ↦
      let answered : (internal w (raised e', s)).0
          ≡ ok (err_response (codes "ERR_INTERNAL") (w.error_text e')) =
        rw caught refl in
      cc
]

run_handler-hangs :
    (w : World) (cmd : Command) (o : Option (List Text → ServerAction Text)) (s : Server)
    (e : ServerError)
    → (run_handler w cmd o s).0 ≡ raised e
    → hangs e ≡ true
unfolding run_handler
run_handler-hangs w cmd none s e h = cc
run_handler-hangs w cmd (some handler) s e h = internal-hangs w (handler cmd.args s) e h

run_parsed-hangs :
    (w : World) (id : Text) (p : Outcome ParseError Command) (s : Server) (e : ServerError)
    → (run_parsed w id p s).0 ≡ raised e
    → hangs e ≡ true
unfolding run_parsed
run_parsed-hangs w id (raised x) s e h = cc
run_parsed-hangs w id (ok cmd) s e h =
    run_handler-hangs w cmd (lookup cmd.name (handlers w id)) s e h

-- Whatever the line, and whatever its handler raises, the consumer gets an answer, unless the
-- call waits for ever for the lock of the ack manager or is still polling.
pub dispatch-hangs :
    (w : World) (id raw : Text) (s : Server) (e : ServerError)
    → (dispatch w id raw s).0 ≡ raised e
    → hangs e ≡ true
unfolding dispatch
dispatch-hangs w id raw s e h = run_parsed-hangs w id (parse_command raw) s e h

-- The connection takes the white space off a line before it dispatches it, and the parser does so
-- again: the second time changes nothing.
pub dispatch-strip : (w : World) (id raw : Text) → dispatch w id (strip raw) ≡ dispatch w id raw
unfolding dispatch parse_command
dispatch-strip w id raw = rw (strip_idem raw) refl
