-- ===== src/Tests/Connection.antt =====
-- A connection whose commands come in pieces.
use ai_coding_training.Base.{ℕ, ◌≡◌, refl, sym, ◌∙◌, false, none, List, [], ◌∷◌, ◌++◌, map, All}
use ai_coding_training.Base.Action.{Outcome, ok, raised, pure, ◌>>◌}
use ai_coding_training.Text.{Text, codes, text_eq}
use ai_coding_training.Text.Decimal.{decimal, digits_from}
use ai_coding_training.Text.Lines.{crlf, cut_line}
use ai_coding_training.Text.Replace.{decode_replace, replace_from}
use ai_coding_training.Text.Utf8.{encode, step, first_byte, next_byte}
use ai_coding_training.Text.Words.{strip, lstrip, rstrip, is_space, split, upper, upper_char}
use ai_coding_training.Members.{mem, discard}
use ai_coding_training.Dict.{lookup, insert, erase, map_values}
use ai_coding_training.Protocol.{parse_command, parse_parts, parse_args, min_args_of}
use ai_coding_training.Topics.{remove_consumer_from_all}
use ai_coding_training.Groups.{remove_consumer_from_all_groups, groups_of}
use ai_coding_training.Server.{ServerError, cmd_ping, set_consumer, register_consumer}
use ai_coding_training.Server.Dispatch.{dispatch, run_parsed, run_handler, internal, hangs}
use ai_coding_training.Server.Upkeep.{unregister_consumer, redeliver, any_with}
use ai_coding_training.Server.Connection.{
  Received, bytes, Moment, listen, feed, settle, drain, answer_line, handle_client, serve_line,
  leave,
}
use ai_coding_training.Server.Connection.Chunks.{
  concat, lined, feed_all, answer_each, feed_all-lined,
}
use ai_coding_training.Server.Connection.Leaving.{IsGone, handle_client-IsGone}
use ai_coding_training.Tests.Server.{world, kim, server}
use ai_coding_training.Tests.Client.{ascii-IsText, wire}

abbrev pieces : List Text
pieces = codes "pi" ∷ (codes "ng" ++ crlf ++ codes "PI") ∷ (codes "NG" ++ crlf ++ codes "x") ∷ []

abbrev lines : List Text
lines = codes "ping" ∷ codes "PING" ∷ []

pieces-lines : concat pieces ≡ lined lines (codes "x")
unfolding concat lined
pieces-lines = refl

lines_single : All (λ line. cut_line line ≡ none) lines
unfolding cut_line
lines_single = (refl, (refl, tt))

rest_single : cut_line (codes "x") ≡ none
unfolding cut_line
rest_single = refl

feed_all-lined_example :
    feed_all (dispatch world kim) [] (map encode pieces) wire
    ≡ (answer_each (dispatch world kim) lines >> pure (codes "x")) wire
feed_all-lined_example =
    feed_all-lined (dispatch world kim) pieces lines (codes "x") wire
      (
        ascii-IsText (codes "pi") refl,
        (
          ascii-IsText (codes "ng" ++ crlf ++ codes "PI") refl,
          (ascii-IsText (codes "NG" ++ crlf ++ codes "x") refl, tt),
        ),
      )
      pieces-lines lines_single rest_single

-- Two bytes of one character, in two chunks, are read as two errors.
torn :
    (feed_all (dispatch world kim) [] ((0xc3 ∷ []) ∷ (0xbc ∷ []) ∷ []) wire).0
    ≡ ok (0xfffd ∷ 0xfffd ∷ [])
unfolding feed_all feed settle drain cut_line decode_replace replace_from step first_byte
torn = refl

whole : (feed_all (dispatch world kim) [] ((0xc3 ∷ 0xbc ∷ []) ∷ []) wire).0 ≡ ok (0xfc ∷ [])
unfolding feed_all feed settle drain cut_line decode_replace replace_from step first_byte next_byte
whole = refl

abbrev moments : ℕ → Moment
moments n = record { others = λ s. s; world = world }

-- A command, half of another one, and the end of the stream.
abbrev stream : List Received
stream = bytes (codes "PING" ++ crlf ++ codes "PI") ∷ bytes [] ∷ []

ended : (handle_client moments stream server).0 ≡ ok tt
unfolding handle_client leave serve_line listen feed settle drain answer_line cut_line
    decode_replace replace_from step first_byte strip lstrip rstrip is_space dispatch run_parsed
    run_handler internal parse_command parse_parts parse_args split upper upper_char mem text_eq
    min_args_of lookup insert erase cmd_ping set_consumer register_consumer unregister_consumer
    remove_consumer_from_all remove_consumer_from_all_groups groups_of map_values discard redeliver
    any_with decimal digits_from
ended = refl

ok_raised :
    (e : ServerError) → ◌≡◌ {A = Outcome ServerError Unit} (ok tt) (raised e) → hangs e ≡ false
ok_raised e h = absurd cc

no_error : (e : ServerError) → (handle_client moments stream server).0 ≡ raised e → hangs e ≡ false
no_error e h = ok_raised e (sym ended ∙ h)

handle_client-IsGone_example :
    IsGone (register_consumer server).0 (handle_client moments stream server).1.1
handle_client-IsGone_example = handle_client-IsGone moments stream server no_error
