-- ===== src/Protocol.antt =====
-- src/protocol.py: commands, their parser and the encoding of the answers.
pub mod Parse
use ai_coding_training.Base.{
  ℕ, zero, suc, ◌+◌, Bool, true, false, not, ◌||◌, Option, none, some, List, [], ◌∷◌, ◌++◌, leb,
  ltb, if◌then◌else◌, length,
}
use ai_coding_training.Base.Action.{Outcome, ok, raised}
use ai_coding_training.Text.{Text, codes, text_eq, is_empty}
use ai_coding_training.Text.Decimal.{decimal}
use ai_coding_training.Text.Words.{strip, split, join, upper}
use ai_coding_training.Dict.{Dict, lookup}
use ai_coding_training.Members.{mem}

-- The dataclass `Command`.
pub record Command : Type 0 where
  pub name : Text
  pub args : List Text

abbrev pub valid_commands : List Text
valid_commands =
    codes "CREATE_TOPIC"
    ∷ codes "DELETE_TOPIC"
    ∷ codes "LIST_TOPICS"
    ∷ codes "CREATE_QUEUE"
    ∷ codes "DELETE_QUEUE"
    ∷ codes "LIST_QUEUES"
    ∷ codes "PUBLISH"
    ∷ codes "SEND"
    ∷ codes "CONSUME"
    ∷ codes "SUBSCRIBE"
    ∷ codes "UNSUBSCRIBE"
    ∷ codes "CONSUME_GROUP"
    ∷ codes "SET_OFFSET"
    ∷ codes "ACK"
    ∷ codes "NACK"
    ∷ codes "ACK_BATCH"
    ∷ codes "CREATE_GROUP"
    ∷ codes "DELETE_GROUP"
    ∷ codes "LEAVE_GROUP"
    ∷ codes "PING"
    ∷ codes "REPLAY"
    ∷ codes "REPLAY_ALL"
    ∷ codes "QUIT"
    ∷ []

abbrev pub command_min_args : Dict ℕ
command_min_args =
    (codes "CREATE_TOPIC", 1)
    ∷ (codes "DELETE_TOPIC", 1)
    ∷ (codes "LIST_TOPICS", 0)
    ∷ (codes "CREATE_QUEUE", 1)
    ∷ (codes "DELETE_QUEUE", 1)
    ∷ (codes "LIST_QUEUES", 0)
    ∷ (codes "PUBLISH", 2)
    ∷ (codes "SEND", 2)
    ∷ (codes "CONSUME", 1)
    ∷ (codes "SUBSCRIBE", 1)
    ∷ (codes "UNSUBSCRIBE", 1)
    ∷ (codes "CONSUME_GROUP", 2)
    ∷ (codes "SET_OFFSET", 2)
    ∷ (codes "ACK", 1)
    ∷ (codes "NACK", 1)
    ∷ (codes "ACK_BATCH", 1)
    ∷ (codes "CREATE_GROUP", 2)
    ∷ (codes "DELETE_GROUP", 1)
    ∷ (codes "LEAVE_GROUP", 1)
    ∷ (codes "PING", 0)
    ∷ (codes "REPLAY", 2)
    ∷ (codes "REPLAY_ALL", 2)
    ∷ (codes "QUIT", 0)
    ∷ []

-- `COMMAND_MIN_ARGS.get(name, 0)`
unfoldable pub min_args_of : Text → ℕ
min_args_of name = elim (lookup name command_min_args) [ none ↦ 0 | some n ↦ n ]

-- The `ValueError`s of the parser.
pub data ParseError : Type 0 where
  empty_command : ParseError
  unknown_command : Text → ParseError
  requires_target_and_body : Text → ParseError
  requires_args : Text → ℕ → ℕ → ParseError

-- `str(e)`
unfoldable pub parse_error_text : ParseError → Text
parse_error_text empty_command = codes "Empty command"
parse_error_text (unknown_command name) = codes "Unknown command: " ++ name
parse_error_text (requires_target_and_body name) = name ++ codes " requires <target> and <body>"
parse_error_text (requires_args name min n) =
    name ++ codes " requires at least " ++ decimal min ++ codes " arg(s), got " ++ decimal n

-- A body may have spaces: what follows the target is put together again.
unfoldable pub with_body : Text → List Text → Outcome ParseError Command
with_body name (target ∷ word ∷ words) =
    ok (record { name = name; args = target ∷ join (b' ' ∷ []) (word ∷ words) ∷ [] })
with_body name _ = raised (requires_target_and_body name)

-- The parser after the name has been split off.
unfoldable pub parse_args : Text → List Text → Outcome ParseError Command
unfolding with_body
parse_args name args =
    if not (mem name valid_commands)
    then raised (unknown_command name)
    else if text_eq name (codes "PUBLISH") || text_eq name (codes "SEND")
    then with_body name args
    else if ltb (length args) (min_args_of name)
    then raised (requires_args name (min_args_of name) (length args))
    else ok (record { name = name; args = args })

-- `parts[0].upper()` and `parts[1:]`; `split` always gives a word.
unfoldable pub parse_parts : List Text → Outcome ParseError Command
unfolding parse_args
parse_parts [] = raised empty_command
parse_parts (part ∷ args) = parse_args (upper part) args

unfoldable pub parse_command : Text → Outcome ParseError Command
unfolding parse_parts
parse_command raw =
    let raw = strip raw in
    if is_empty raw then raised empty_command else parse_parts (split b' ' raw)

abbrev crlf : Text
crlf = b'\r' ∷ b'\n' ∷ []

unfoldable pub ok_response : Text → Text
ok_response payload =
    if is_empty payload then codes "+OK" ++ crlf else codes "+OK " ++ payload ++ crlf

unfoldable pub err_response : Text → Text → Text
err_response code msg =
    if is_empty msg then b'-' ∷ code ++ crlf else b'-' ∷ code ++ b' ' ∷ msg ++ crlf

abbrev pub null_response : Text
null_response = codes "$-1" ++ crlf

unfoldable pub data_response : Text → Text
unfolding decimal
data_response payload = b'$' ∷ decimal (length payload) ++ crlf ++ payload ++ crlf

unfoldable pub message_response : Text → Text → Text
unfolding decimal
message_response msg_id body =
    let payload = msg_id ++ b' ' ∷ body in
    b'$' ∷ decimal (length payload) ++ crlf ++ payload ++ crlf
