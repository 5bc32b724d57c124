-- ===== src/Tests/Acks.antt =====
-- `AckManager` over one message that has been delivered.
use ai_coding_training.Base.{
  true, ◌↔◌, ◌+◌, ◌*◌, false, none, some, ◌≡◌, refl, [], ◌∷◌, ltb, if◌then◌else◌,
}
use ai_coding_training.Base.Int.{pos}
use ai_coding_training.Base.Action.{ok, raised}
use ai_coding_training.Text.{codes}
use ai_coding_training.Models.{Message, Status, status_eq, second, new_message}
use ai_coding_training.Dict.{Dict, lookup}
use ai_coding_training.Acks.{
  Ref, Acks, start, nack, check_timeouts, check_ttl, move_to_dlq, replay_from_dlq, deadlock,
  is_overdue, ack_timeout_of,
}
use ai_coding_training.Acks.Rules.{Overdue, Expired}
use ai_coding_training.Acks.Nack.{MayNack, nack_lem}
use ai_coding_training.Acks.Nack.{retried, waiting_again, in_dlq}
use ai_coding_training.Acks.Timeouts.{expected, is_late, any_exhausted, check_timeouts_lem}
use ai_coding_training.Acks.Ttl.{is_old, old_ids, is_hit, settled, check_ttl_lem}
use ai_coding_training.Acks.Replay.{replay-move_to_dlq}

-- A message that `eve` has had for ten seconds, and that has had every retry.
abbrev worn : Message
worn = record (new_message (codes "M1") (codes "jobs") (codes "hello") (5 * second) (pos 60)) {
  status = Status.delivered;
  delivered_to = codes "eve";
  deliver_time = 10 * second;
  retry_count = 5;
}

abbrev manager : Acks
manager = start (λ r. worn)

abbrev registry : Dict Ref
registry = (codes "M1", 0) ∷ []

may : MayNack 0 manager (codes "eve")
unfolding new_message
may = (refl, refl)

nack_lem_example :
    let s = (nack 0 (codes "eve") manager).1 in
    ((nack 0 (codes "eve") manager).0 ≡ ok tt)
    × (if ltb 5 (worn.retry_count + 1)
        then ((s.heap 0 ≡ in_dlq (retried worn)) × (lookup worn.msg_id s.dlq ≡ some 0))
        else ((s.heap 0 ≡ waiting_again (retried worn)) × (s.dlq ≡ [])))
    × (s.locked ≡ false)
nack_lem_example = nack_lem 0 manager (codes "eve") refl may

check_timeouts_lem_example :
    let p = check_timeouts (100 * second) registry manager in
    (p.0 ≡ expected (100 * second) manager registry)
    × (p.1.locked ≡ any_exhausted (100 * second) manager registry)
    × ((q : Ref) → (is_late (100 * second) manager q ≡ true) ↔ Overdue (100 * second) 30 worn)
check_timeouts_lem_example = check_timeouts_lem (100 * second) registry manager refl (tt, tt)

-- On that message `check_timeouts` never returns.
stuck : (check_timeouts (100 * second) registry manager).0 ≡ raised deadlock
unfolding any_exhausted is_late is_overdue ack_timeout_of status_eq new_message
stuck = (check_timeouts_lem (100 * second) registry manager refl (tt, tt)).0

check_ttl_lem_example :
    let p = check_ttl (100 * second) registry manager in
    (p.0 ≡ ok (old_ids (100 * second) manager registry))
    × ((q : Ref) → p.1.heap q ≡ settled (is_hit (100 * second) manager q registry) worn)
    × (p.1.locked ≡ false)
    × ((q : Ref)
        → (is_old (100 * second) manager q ≡ true) ↔ Expired (100 * second) (pos 86400) worn)
check_ttl_lem_example = check_ttl_lem (100 * second) registry manager refl (tt, tt)

replay-move_to_dlq_example :
    let p = replay_from_dlq worn.msg_id (move_to_dlq 0 manager).1 in
    (p.0 ≡ ok (some 0))
    × (p.1.heap 0 ≡ (record worn {
      status = Status.pending;
      retry_count = 0;
      delivered_to = [];
      deliver_time = 0;
      original_target = [];
    }))
    × (lookup worn.msg_id p.1.dlq ≡ none)
    × (p.1.locked ≡ false)
replay-move_to_dlq_example = replay-move_to_dlq 0 manager refl
