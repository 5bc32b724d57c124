-- ===== src/Tests/Client.antt =====
-- A command of the client, its way to the server and its answer, in two chunks.
use ai_coding_training.Base.{
  ℕ, All, ◌<◌, ◌≡◌, refl, true, false, none, List, [], ◌∷◌, ◌++◌, arith, all, ltb, map, inl,
}
use ai_coding_training.Base.Action.{ok, raised}
use ai_coding_training.Text.{Text, codes, is_empty, text_eq}
use ai_coding_training.Text.Lines.{crlf, cut_line}
use ai_coding_training.Text.Utf8.{encode, encode_char, IsText}
use ai_coding_training.Text.Words.{strip, lstrip, rstrip, is_space, split, upper, upper_char}
use ai_coding_training.Dict.{lookup}
use ai_coding_training.Members.{mem}
use ai_coding_training.Protocol.{parse_command, parse_parts, parse_args, min_args_of, ok_response}
use ai_coding_training.Client.{init, Network, refused, bytes, send}
use ai_coding_training.Client.Answers.{IsLine, awaiting, send_two, send-send}
use ai_coding_training.Client.Exchange.{exchange}
use ai_coding_training.Server.{Server, cmd_ping, set_consumer}
use ai_coding_training.Server.Dispatch.{dispatch, run_parsed, run_handler, internal}
use ai_coding_training.Server.Connection.{Wire}
use ai_coding_training.Server.Connection.Chunks.{concat, feed_all}
use ai_coding_training.Tests.Server.{world, kim, server}

pub ascii-IsText : (t : Text) → all (λ c. ltb c 128) t ≡ true → IsText t
ascii-IsText [] h = tt
ascii-IsText (c ∷ t) h =
    let a : c < 128 = ground arith in
    ((omega arith, inl (omega arith)), ascii-IsText t (ground arith))

abbrev pong : Text
pong = codes "+OK PONG" ++ crlf

pong-IsLine : IsLine pong
unfolding cut_line
pong-IsLine = record {
  line = codes "+OK PONG";
  ends = refl;
  single = refl;
  scalar = ascii-IsText pong refl;
}

abbrev nowhere : Network
nowhere host port = raised refused

abbrev pub wire : Wire Server
wire = record { sent = []; inner = server }

abbrev answered : Server
answered = (dispatch world kim (codes "ping") server).1

served : dispatch world kim (codes "ping") server ≡ (ok pong, answered)
unfolding dispatch run_parsed run_handler internal parse_command parse_parts parse_args strip lstrip
    rstrip is_space split upper upper_char mem text_eq min_args_of lookup cmd_ping set_consumer
    ok_response
served = refl

line_single : cut_line (strip (codes " ping ")) ≡ none
unfolding cut_line strip lstrip rstrip is_space
line_single = refl

line_some : is_empty (strip (codes " ping ")) ≡ false
unfolding strip lstrip rstrip is_space
line_some = refl

served_stripped : dispatch world kim (strip (codes " ping ")) server ≡ (ok pong, answered)
unfolding strip lstrip rstrip is_space
served_stripped = served

-- The answer comes in two chunks.
abbrev chunks : List (List ℕ)
chunks = codes "+OK" ∷ (codes " PONG" ++ crlf) ∷ []

chunks-pong : concat chunks ≡ encode pong
unfolding concat encode encode_char
chunks-pong = refl

-- So does the command.
abbrev pieces : List Text
pieces = codes "pi" ∷ (codes "ng" ++ crlf) ∷ []

pieces-IsText : All IsText pieces
pieces-IsText = (ascii-IsText (codes "pi") refl, (ascii-IsText (codes "ng" ++ crlf) refl, tt))

concat-pieces : concat pieces ≡ strip (codes " ping ") ++ crlf
unfolding concat strip lstrip rstrip is_space
concat-pieces = refl

exchange_example :
    (feed_all (dispatch world kim) [] (map encode pieces) wire
      ≡ (ok [], record { sent = [] ++ encode pong; inner = answered }))
    × (send nowhere (codes " ping ") (awaiting (map bytes chunks ++ []) init)
        ≡ (ok (strip pong), awaiting [] (record init { sent = [] ++ concat (map encode pieces) })))
exchange_example =
    exchange (dispatch world kim) nowhere (codes " ping ") pong pieces chunks [] init answered wire
      pieces-IsText concat-pieces line_single line_some served_stripped pong-IsLine
      ((λ e. cc), ((λ e. cc), tt)) chunks-pong

-- The two lines of the answer to a command that takes a message.
abbrev first_line : Text
first_line = codes "$8" ++ crlf

abbrev second_line : Text
second_line = codes "M1 hello" ++ crlf

first-IsLine : IsLine first_line
unfolding cut_line
first-IsLine = record {
  line = codes "$8";
  ends = refl;
  single = refl;
  scalar = ascii-IsText first_line refl;
}

second-IsLine : IsLine second_line
unfolding cut_line
second-IsLine = record {
  line = codes "M1 hello";
  ends = refl;
  single = refl;
  scalar = ascii-IsText second_line refl;
}

send-send_example :
    (send_two nowhere
      (codes "consume jobs")
      (codes "ping")
      (awaiting (bytes (encode first_line) ∷ bytes (encode second_line) ∷ []) init)).0
    ≡ ok (strip first_line, strip second_line)
send-send_example =
    send-send nowhere (codes "consume jobs") (codes "ping") first_line second_line [] init
      first-IsLine second-IsLine
