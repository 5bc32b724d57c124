-- ===== src/Acks.antt =====
-- src/ack_manager.py: `AckManager`, method by method, over the heap of message objects that it
-- shares with the router. The lock is a `threading.Lock`: a thread that asks for it while it holds
-- it waits for ever, which is the outcome `deadlock`.
pub mod Nack
pub mod Rules
pub mod Timeouts
pub mod Ttl
pub mod Replay
pub mod Registry
pub mod Sound
use ai_coding_training.Base.{
  ℕ, zero, suc, ◌+◌, ◌*◌, Bool, true, false, not, ◌&&◌, ◌||◌, Option, none, some, List, [], ◌∷◌,
  ◌++◌, ltb, leb, ◌==◌, if◌then◌else◌,
}
use ai_coding_training.Base.Int.{ℤ, pos, negsuc, pos_part, neg_part}
use ai_coding_training.Base.Action.{
  Outcome, ok, raised, Action, pure, raise, gets, modify, raise_if, ◌>>=◌, ◌>>◌,
}
use ai_coding_training.Text.{Text, codes, text_eq}
use ai_coding_training.Models.{Message, Status, status_eq, second}
use ai_coding_training.Dict.{Dict, lookup, insert, erase}

-- A reference to a message object, and what each refers to.
abbrev pub Ref : Type 0
Ref = ℕ

abbrev pub Heap : Type 0
Heap = Ref → Message

unfoldable pub update : Ref → Message → Heap → Heap
update r m h q = if q == r then m else h q

pub record Acks : Type 0 where
  pub heap : Heap
  pub default_ack_timeout : ℕ
  pub max_retries : ℕ
  pub default_ttl : ℤ
  pub dlq : Dict Ref
  pub locked : Bool

-- `AckManager()` over a heap.
abbrev pub start : Heap → Acks
start h = record {
  heap = h;
  default_ack_timeout = 30;
  max_retries = 5;
  default_ttl = pos 86400;
  dlq = [];
  locked = false;
}

-- The `ValueError`s, and the wait that does not end.
pub data AckError : Type 0 where
  not_delivered : Text → Status → AckError
  not_owner : Text → Text → AckError
  nack_not_delivered : AckError
  deadlock : AckError

abbrev pub AckAction : Type 0 → Type 0
AckAction = Action Acks AckError

abbrev pub dlq_name : Text
dlq_name = codes "DLQ"

unfoldable pub acquire : AckAction Unit
acquire s = if s.locked then (raised deadlock, s) else (ok tt, record s { locked = true })

unfoldable pub release : AckAction Unit
release s = (ok tt, record s { locked = false })

-- Assignments to the fields of a message object.
unfoldable pub set_message : Ref → (Message → Message) → AckAction Unit
unfolding update
set_message r f s = (ok tt, record s { heap = update r (f (s.heap r)) s.heap })

-- What `_move_to_dlq` writes to the message before it takes the lock.
unfoldable pub dead : Message → Message
dead m = record m { original_target = m.target; target = dlq_name; status = Status.dlq }

unfoldable pub insert_dlq : Ref → AckAction Unit
insert_dlq r s = (ok tt, record s { dlq = insert (s.heap r).msg_id r s.dlq })

unfoldable pub move_to_dlq : Ref → AckAction Unit
move_to_dlq r = do set_message r dead; acquire; insert_dlq r; release

unfoldable pub acked : Message → Message
acked m = record m { status = Status.acked }

unfoldable pub ack : Ref → Text → AckAction Unit
unfolding acked set_message
ack r consumer_id = do
  msg ← gets (λ s. s.heap r)
  if not (status_eq msg.status Status.delivered)
      then (if status_eq msg.status Status.acked
          then pure tt
          else raise (not_delivered msg.msg_id msg.status))
      else (do
        raise_if (not (text_eq msg.delivered_to consumer_id)) (not_owner msg.msg_id consumer_id)
        set_message r acked)

unfoldable pub count_retry : Message → Message
count_retry m = record m { retry_count = m.retry_count + 1 }

-- Back to waiting for delivery.
unfoldable pub requeued : Message → Message
requeued m = record m { status = Status.pending; delivered_to = []; deliver_time = 0 }

-- One more retry; past the limit the message goes to the DLQ. Tells whether it waits again.
unfoldable pub retry : Ref → AckAction Bool
retry r = do
  set_message r count_retry
  msg ← gets (λ s. s.heap r)
  limit ← gets (λ s. s.max_retries)
  if ltb limit msg.retry_count
      then (do move_to_dlq r; pure false)
      else (do set_message r requeued; pure true)

unfoldable pub nack : Ref → Text → AckAction Unit
nack r consumer_id = do
  msg ← gets (λ s. s.heap r)
  raise_if (not (status_eq msg.status Status.delivered)) nack_not_delivered
  raise_if (not (text_eq msg.delivered_to consumer_id)) (not_owner msg.msg_id consumer_id)
  retry r
  pure tt

-- `msg.ack_timeout if msg.ack_timeout > 0 else self.default_ack_timeout`
unfoldable pub ack_timeout_of : ℕ → Message → ℕ
ack_timeout_of default m =
    if ltb 0 (pos_part m.ack_timeout) then pos_part m.ack_timeout else default

-- Delivered, and not acknowledged in time.
unfoldable pub is_overdue : ℕ → ℕ → Message → Bool
unfolding ack_timeout_of
is_overdue now default m =
    status_eq m.status Status.delivered
    && ltb 0 m.deliver_time
    && ltb (m.deliver_time + ack_timeout_of default m * second) now

-- The loop of `check_timeouts`, which runs with the lock held.
unfoldable pub check_each : ℕ → Dict Ref → AckAction (List Text)
check_each now [] = pure []
check_each now ((id, r) ∷ d) = do
  late ← gets (λ s. is_overdue now s.default_ack_timeout (s.heap r))
  waits ← (if late then retry r else pure false)
  rest ← check_each now d
  pure (if waits then id ∷ rest else rest)

unfoldable pub check_timeouts : ℕ → Dict Ref → AckAction (List Text)
check_timeouts now messages = do acquire; expired ← check_each now messages; release; pure expired

-- `msg.ttl if msg.ttl > 0 else self.default_ttl`
unfoldable pub ttl_of : ℤ → Message → ℤ
ttl_of default m = if ltb 0 (pos_part m.ttl) then m.ttl else default

-- `now - msg.timestamp > ttl`, in microseconds.
unfoldable pub is_older : ℕ → ℕ → ℤ → Bool
is_older now ttl timestamp =
    ltb ((pos_part timestamp + ttl) * second) (now + neg_part timestamp * second)

-- Pending or delivered, and past a TTL that is not negative.
unfoldable pub is_expired : ℕ → ℤ → Message → Bool
unfolding ttl_of is_older
is_expired now default m =
    (status_eq m.status Status.pending || status_eq m.status Status.delivered)
    && (elim (ttl_of default m) [ pos n ↦ is_older now n m.timestamp | negsuc n ↦ false ])

unfoldable pub outlived : Message → Message
outlived m = record m { status = Status.expired }

unfoldable pub expire : Ref → AckAction Unit
expire r = do set_message r outlived; move_to_dlq r

unfoldable pub check_ttl : ℕ → Dict Ref → AckAction (List Text)
check_ttl now [] = pure []
check_ttl now ((id, r) ∷ d) = do
  old ← gets (λ s. is_expired now s.default_ttl (s.heap r))
  (if old then expire r else pure tt)
  rest ← check_ttl now d
  pure (if old then id ∷ rest else rest)

-- What `replay_from_dlq` writes to the message.
unfoldable pub revived : Message → Message
revived m = record m {
  target = m.original_target;
  original_target = [];
  status = Status.pending;
  retry_count = 0;
  delivered_to = [];
  deliver_time = 0;
}

unfoldable pub pop_dlq : Text → AckAction (Option Ref)
pop_dlq id s = (ok (lookup id s.dlq), record s { dlq = erase id s.dlq })

unfoldable pub revive : Option Ref → AckAction (Option Ref)
unfolding revived set_message
revive none = pure none
revive (some r) = do set_message r revived; pure (some r)

unfoldable pub replay_from_dlq : Text → AckAction (Option Ref)
replay_from_dlq id = do acquire; found ← pop_dlq id; release; revive found

-- The ids of the DLQ whose message came from a target.
unfoldable pub bound_for : Text → Heap → Dict Ref → List Text
bound_for target h [] = []
bound_for target h ((id, r) ∷ d) =
    let rest = bound_for target h d in
    if text_eq (h r).original_target target then id ∷ rest else rest

abbrev pub cons_found : Option Ref → List Ref → List Ref
cons_found none rs = rs
cons_found (some r) rs = r ∷ rs

unfoldable pub replay_each : List Text → AckAction (List Ref)
replay_each [] = pure []
replay_each (id ∷ ids) = do
  found ← replay_from_dlq id
  rest ← replay_each ids
  pure (cons_found found rest)

unfoldable pub replay_all_from_dlq : Text → AckAction (List Ref)
replay_all_from_dlq target = do
  acquire
  ids ← gets (λ s. bound_for target s.heap s.dlq)
  release
  replay_each ids

unfoldable pub get_dlq_message : Text → Acks → Option Ref
get_dlq_message id s = lookup id s.dlq

unfoldable pub get_dlq_messages : Acks → List Ref
get_dlq_messages s = refs s.dlq
  where
    refs : Dict Ref → List Ref
    refs [] = []
    refs ((id, r) ∷ d) = r ∷ refs d

abbrev pub max_ttl : ℕ
max_ttl = 604800

-- The texts of the `ValueError`s of `validate_ttl`; `none` stands for none.
unfoldable pub validate_ttl : ℤ → Option Text
validate_ttl (pos zero) = some (codes "TTL must be greater than 0, or use -1 for no expiry")
validate_ttl (pos (suc n)) =
    if ltb max_ttl (suc n) then some (codes "TTL exceeds maximum (604800s)") else none
validate_ttl (negsuc n) = none
