-- ===== src/Persistence/Codec.antt =====
-- `serialize` and `deserialize`: one message of the log.
pub mod RoundTrip
use ai_coding_training.Base.{ℕ, ◌+◌, Option, none, some, List, [], ◌∷◌, ◌++◌, length, if◌then◌else◌}
use ai_coding_training.Base.Int.{pos}
use ai_coding_training.Base.Action.{Outcome, ok, raised, pure, or_raise, ◌>>=◌}
use ai_coding_training.Text.{Text}
use ai_coding_training.Text.Utf8.{encode}
use ai_coding_training.Models.{Message, Status}
use ai_coding_training.Persistence.Struct.{
  Bytes, CodecError, Reader, pack_unsigned, pack_signed, read_unsigned, read_signed, read_text,
}

-- Two packed parts, one behind the other.
infixr 60 ◌<>◌
abbrev pub ◌<>◌ : Option Bytes → Option Bytes → Option Bytes
none <> q = none
some a <> none = none
some a <> some b = some (a ++ b)

abbrev pub raw : Bytes → Option Bytes
raw bs = some bs

-- The length that the header states: all that follows the header.
unfoldable pub total_length : Message → ℕ
total_length m =
    2
    + length (encode m.msg_id)
    + (2 + length (encode m.target))
    + (4 + length (encode m.body))
    + (8 + 4 + 4)

-- `none` stands for `struct.error`, which `struct.pack` raises if a number does not fit its field.
unfoldable pub serialize : Message → Option Bytes
unfolding pack_unsigned pack_signed
serialize m =
    let id_bytes = encode m.msg_id in
    let target_bytes = encode m.target in
    let body_bytes = encode m.body in
    pack_unsigned 4 (total_length m)
    <> pack_unsigned 2 (length id_bytes)
    <> raw id_bytes
    <> pack_unsigned 2 (length target_bytes)
    <> raw target_bytes
    <> pack_unsigned 4 (length body_bytes)
    <> raw body_bytes
    <> pack_signed 8 m.timestamp
    <> pack_signed 4 m.ttl
    <> pack_signed 4 m.ack_timeout

-- The timestamp, the TTL and the ack timeout, which end the record.
unfoldable pub read_numbers : Text → Text → Text → Reader Message
read_numbers msg_id target body = do
  timestamp ← read_signed 8
  ttl ← read_signed 4
  ack_timeout ← read_signed 4
  pure (record {
    msg_id = msg_id;
    target = target;
    body = body;
    timestamp = timestamp;
    ttl = ttl;
    ack_timeout = ack_timeout;
    status = Status.pending;
    retry_count = 0;
    delivered_to = [];
    deliver_time = 0;
    original_target = [];
  })

-- A length of so many bytes, and a text of that length.
unfoldable pub read_string : ℕ → Reader Text
read_string w = do n ← read_unsigned w; read_text n

-- The fields in the order of the format, read at a rising offset. The total length is read and
-- not used.
unfoldable pub read_message : Reader Message
unfolding read_string read_numbers
read_message = do
  total_len ← read_unsigned 4
  msg_id ← read_string 2
  target ← read_string 2
  body ← read_string 4
  read_numbers msg_id target body

unfoldable pub deserialize : Bytes → Outcome CodecError Message
unfolding read_message read_unsigned read_text read_signed
deserialize bs = (read_message bs).0
