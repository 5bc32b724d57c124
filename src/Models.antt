-- ===== src/Models.antt =====
-- src/models.py: the message, its states, and the generator of message ids.
pub mod Ids
use ai_coding_training.Base.{ℕ, ◌+◌, ◌/◌, Bool, true, false, [], ◌∷◌, ◌++◌}
use ai_coding_training.Base.Int.{ℤ, pos}
use ai_coding_training.Text.{Text}
use ai_coding_training.Text.Decimal.{decimal, padded}

-- `MessageStatus`
pub data Status : Type 0 where
  pending delivered acked dlq expired : Status

-- `status == other`
unfoldable pub status_eq : Status → Status → Bool
status_eq Status.pending Status.pending = true
status_eq Status.delivered Status.delivered = true
status_eq Status.acked Status.acked = true
status_eq Status.dlq Status.dlq = true
status_eq Status.expired Status.expired = true
status_eq _ _ = false

-- Times are whole microseconds; `timestamp`, `ttl` and `ack_timeout` are seconds.
pub record Message : Type 0 where
  pub msg_id : Text
  pub target : Text
  pub body : Text
  pub timestamp : ℤ
  pub ttl : ℤ
  pub ack_timeout : ℤ
  pub status : Status
  pub retry_count : ℕ
  pub delivered_to : Text
  pub deliver_time : ℕ
  pub original_target : Text

abbrev pub second : ℕ
second = 1000000

abbrev pub millisecond : ℕ
millisecond = 1000

-- The text that `generate_id` makes from the clock and the counter.
unfoldable pub id_text : ℕ → ℕ → Text
unfolding decimal padded
id_text now counter = b'M' ∷ decimal (now / millisecond) ++ padded 6 counter

-- `Message.generate_id` raises the counter first; the new counter stands beside the id.
unfoldable pub generate_id : ℕ → ℕ → Text × ℕ
generate_id now counter = (id_text now (counter + 1), counter + 1)

-- A message that is created with the defaults of the dataclass.
unfoldable pub new_message : Text → Text → Text → ℕ → ℤ → Message
new_message id target body now ttl = record {
  msg_id = id;
  target = target;
  body = body;
  timestamp = pos (now / second);
  ttl = ttl;
  ack_timeout = pos 0;
  status = Status.pending;
  retry_count = 0;
  delivered_to = [];
  deliver_time = 0;
  original_target = [];
}
