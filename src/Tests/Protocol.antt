-- ===== src/Tests/Protocol.antt =====
-- The parser on one line.
use ai_coding_training.Base.{◌≡◌, refl, true, [], ◌∷◌, ◌++◌}
use ai_coding_training.Base.Action.{ok, raised}
use ai_coding_training.Text.{Text, codes, text_eq}
use ai_coding_training.Text.Words.{
  strip, lstrip, rstrip, is_space, split, join, upper, upper_char, free_of,
}
use ai_coding_training.Members.{mem}
use ai_coding_training.Protocol.{
  Command, parse_command, parse_parts, parse_args, with_body, unknown_command,
}
use ai_coding_training.Protocol.Parse.{
  WellFormed, has_body, parse_command-WellFormed, parse_command-body,
}

abbrev line : Text
line = codes " send jobs two  words\n"

abbrev parsed : Command
parsed = record { name = codes "SEND"; args = codes "jobs" ∷ codes "two  words" ∷ [] }

stripped : strip line ≡ codes "send" ++ b' ' ∷ (codes "jobs" ++ b' ' ∷ codes "two  words")
unfolding strip lstrip rstrip is_space
stripped = refl

send_free : free_of b' ' (codes "send") ≡ true
unfolding free_of
send_free = refl

jobs_free : free_of b' ' (codes "jobs") ≡ true
unfolding free_of
jobs_free = refl

send_has_body : has_body (upper (codes "send")) ≡ true
unfolding has_body text_eq upper upper_char
send_has_body = refl

parse_command-body_example :
    parse_command line
    ≡ ok (record { name = upper (codes "send"); args = codes "jobs" ∷ codes "two  words" ∷ [] })
parse_command-body_example =
    parse_command-body line (codes "send") (codes "jobs") (codes "two  words") stripped send_free
      jobs_free send_has_body

accepted : parse_command line ≡ ok parsed
unfolding parse_command parse_parts parse_args with_body strip lstrip rstrip is_space split join
    upper upper_char mem text_eq
accepted = refl

parse_command-WellFormed_example : WellFormed parsed
parse_command-WellFormed_example = parse_command-WellFormed line parsed accepted

unknown_line : parse_command (codes "shout hello") ≡ raised (unknown_command (codes "SHOUT"))
unfolding parse_command parse_parts parse_args strip lstrip rstrip is_space split upper upper_char
    mem text_eq
unknown_line = refl
