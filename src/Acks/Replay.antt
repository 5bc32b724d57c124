-- ===== src/Acks/Replay.antt =====
-- A message that goes to the DLQ and is replayed from it.
use ai_coding_training.Base.{◌≡◌, refl, ap, ◌∙◌, false, none, some, [], arith}
use ai_coding_training.Base.Action.{ok, ◌>>=◌, ◌>>◌, bind-ok}
use ai_coding_training.Text.{Text, text_eq_iff}
use ai_coding_training.Models.{Status}
use ai_coding_training.Dict.{Dict, lookup, erase, lookup-insert, lookup-erase}
use ai_coding_training.Acks.{
  Ref, Acks, update, dead, revived, move_to_dlq, replay_from_dlq, acquire, release, pop_dlq, revive,
  set_message,
}
use ai_coding_training.Acks.Nack.{buried, written, move_to_dlq_free, acquire_free}

-- What a replay leaves of the manager when the id stands for a message of the DLQ.
abbrev replayed : Text → Ref → Acks → Acks
replayed id r s = written r (revived (s.heap r)) (record s { dlq = erase id s.dlq; locked = false })

replay_found :
    (id : Text) (r : Ref) (s : Acks)
    → s.locked ≡ false
    → lookup id s.dlq ≡ some r
    → replay_from_dlq id s ≡ (ok (some r), replayed id r s)
unfolding replay_from_dlq pop_dlq release revive set_message
replay_found id r s free h =
    bind-ok acquire (λ _. do found ← pop_dlq id; release; revive found) s (acquire_free s free)
    ∙ ap (λ o. revive o (record s { dlq = erase id s.dlq; locked = false })) h

buried-found : (r : Ref) (s : Acks) → lookup (s.heap r).msg_id (buried r s).dlq ≡ some r
unfolding update dead
buried-found r s =
    let id = (s.heap r).msg_id in ground (arith, lookup-insert id id r s.dlq, text_eq_iff id id)

revived-dead :
    (r : Ref) (s : Acks)
    → (replayed (s.heap r).msg_id r (buried r s)).heap r ≡ (record (s.heap r) {
      status = Status.pending;
      retry_count = 0;
      delivered_to = [];
      deliver_time = 0;
      original_target = [];
    })
unfolding update dead revived
revived-dead r s = ground arith

erased : (id : Text) (d : Dict Ref) → lookup id (erase id d) ≡ none
erased id d = ground (arith, lookup-erase id id d, text_eq_iff id id)

-- With the lock free, a message that goes to the DLQ is found there under its id, and replaying
-- it gives the message back with the target that it had, waiting for delivery with no retry
-- counted, and out of the DLQ; the lock is free again.
pub replay-move_to_dlq :
    (r : Ref) (s : Acks)
    → s.locked ≡ false
    → let m = s.heap r in
      let p = replay_from_dlq m.msg_id (move_to_dlq r s).1 in
      (p.0 ≡ ok (some r))
      × (p.1.heap r ≡ (record m {
        status = Status.pending;
        retry_count = 0;
        delivered_to = [];
        deliver_time = 0;
        original_target = [];
      }))
      × (lookup m.msg_id p.1.dlq ≡ none)
      × (p.1.locked ≡ false)
replay-move_to_dlq r s free =
    let id = (s.heap r).msg_id in
    let e =
      ap (λ p. replay_from_dlq id p.1) (move_to_dlq_free r s free)
      ∙ replay_found id r (buried r s) refl (buried-found r s) in
    rw e (refl, revived-dead r s, erased id (buried r s).dlq, refl)
