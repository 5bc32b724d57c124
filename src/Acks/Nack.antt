-- ===== src/Acks/Nack.antt =====
-- `ack` and `nack` of one message.
use ai_coding_training.Base.{
  ◌+◌, ◌≤◌, ◌<◌, ◌≡◌, refl, ◌∙◌, Bool, true, false, some, [], arith, ltb, ltb→lt, if◌then◌else◌,
  Bool-cases, inl, inr,
}
use ai_coding_training.Base.Action.{ok, raised, pure, ◌>>=◌, ◌>>◌, bind-ok, bind-raised}
use ai_coding_training.Text.{Text, codes, text_eq_refl, text_eq_iff}
use ai_coding_training.Models.{Message, Status, status_eq}
use ai_coding_training.Dict.{lookup, insert, lookup-insert}
use ai_coding_training.Acks.{
  Ref, Acks, deadlock, update, nack, retry, dead, requeued, count_retry, move_to_dlq, acquire,
  release, set_message, insert_dlq,
}

-- The manager after a message object has been written, and one after it went to the DLQ.
abbrev pub written : Ref → Message → Acks → Acks
written r m s = record s { heap = update r m s.heap }

abbrev pub buried : Ref → Acks → Acks
buried r s = record s {
  heap = update r (dead (s.heap r)) s.heap;
  dlq = insert (update r (dead (s.heap r)) s.heap r).msg_id r s.dlq;
  locked = false;
}

pub acquire_free : (s : Acks) → s.locked ≡ false → acquire s ≡ (ok tt, record s { locked = true })
unfolding acquire
acquire_free s h = ground arith

pub acquire_held : (s : Acks) → s.locked ≡ true → acquire s ≡ (raised deadlock, s)
unfolding acquire
acquire_held s h = ground arith

pub move_to_dlq_free :
    (r : Ref) (s : Acks) → s.locked ≡ false → move_to_dlq r s ≡ (ok tt, buried r s)
unfolding move_to_dlq set_message insert_dlq release
move_to_dlq_free r s h =
    let s' = written r (dead (s.heap r)) s in
    bind-ok acquire (λ _. do insert_dlq r; release) s' (acquire_free s' h)

-- While the lock is held, moving a message to the DLQ waits for ever, with the message written.
pub move_to_dlq_held :
    (r : Ref) (s : Acks)
    → s.locked ≡ true
    → move_to_dlq r s ≡ (raised deadlock, written r (dead (s.heap r)) s)
unfolding move_to_dlq set_message
move_to_dlq_held r s h =
    let s' = written r (dead (s.heap r)) s in
    bind-raised acquire (λ _. do insert_dlq r; release) s' (acquire_held s' h)

pub retry_eq :
    (r : Ref) (s : Acks)
    → retry r s ≡ (
        let s' = written r (count_retry (s.heap r)) s in
        if ltb s.max_retries (s'.heap r).retry_count
        then (move_to_dlq r >>= λ _. pure false) s'
        else (ok true, written r (requeued (s'.heap r)) s'))
unfolding retry set_message
retry_eq r s = ground arith

-- A message object, field by field, with one more retry, one that waits for delivery again, and one
-- that is in the DLQ.
abbrev pub retried : Message → Message
retried m = record m { retry_count = m.retry_count + 1 }

abbrev pub waiting_again : Message → Message
waiting_again m = record m { status = Status.pending; delivered_to = []; deliver_time = 0 }

abbrev pub in_dlq : Message → Message
in_dlq m = record m { status = Status.dlq; original_target = m.target; target = codes "DLQ" }

module _ (r : Ref) (s : Acks) where
  -- The manager after the retry has been counted.
  abbrev pub counted : Acks
  counted = written r (count_retry (s.heap r)) s

  retry_branch :
      (b : Bool)
      → ltb s.max_retries (counted.heap r).retry_count ≡ b
      → retry r s ≡ (
          if b
          then (move_to_dlq r >>= λ _. pure false) counted
          else (ok true, written r (requeued (counted.heap r)) counted))
  retry_branch b h = rw (← h) (retry_eq r s)

  count_over :
      s.max_retries < (s.heap r).retry_count + 1
      → ltb s.max_retries (counted.heap r).retry_count ≡ true
  unfolding count_retry update
  count_over over = ground arith

  -- One more retry than allowed, with the lock free: the message goes to the DLQ.
  pub retry_over :
      s.locked ≡ false
      → s.max_retries < (s.heap r).retry_count + 1
      → retry r s ≡ (ok false, buried r counted)
  retry_over free over =
      retry_branch true (count_over over)
      ∙ bind-ok (move_to_dlq r) (λ _. pure false) counted (move_to_dlq_free r counted free)

  -- The same while the lock is held.
  pub retry_blocked :
      s.locked ≡ true
      → s.max_retries < (s.heap r).retry_count + 1
      → retry r s ≡ (raised deadlock, written r (dead (counted.heap r)) counted)
  retry_blocked held over =
      retry_branch true (count_over over)
      ∙ bind-raised (move_to_dlq r) (λ _. pure false) counted (move_to_dlq_held r counted held)

  -- Within the limit the message waits again, whether the lock is free or not.
  pub retry_within :
      (s.heap r).retry_count + 1 ≤ s.max_retries
      → retry r s ≡ (ok true, written r (requeued (counted.heap r)) counted)
  retry_within room =
      let test : ltb s.max_retries (counted.heap r).retry_count ≡ false =
        unfold count_retry update in ground arith in
      retry_branch false test

  -- Who may send a NACK: the consumer to whom the message has been delivered.
  abbrev pub MayNack : Text → Type 0
  MayNack c = ((s.heap r).status ≡ Status.delivered) × ((s.heap r).delivered_to ≡ c)

  buried-lookup : lookup (s.heap r).msg_id (buried r counted).dlq ≡ some r
  unfolding update dead count_retry
  buried-lookup =
      let id = (s.heap r).msg_id in ground (arith, lookup-insert id id r s.dlq, text_eq_iff id id)

  nack_eq : (c : Text) → MayNack c → nack r c s ≡ (retry r >>= λ _. pure tt) s
  unfolding nack status_eq
  nack_eq c (d, o) = rw (d, o, text_eq_refl c)

  -- After a NACK by the consumer to whom the message has been delivered, with the lock free: past
  -- the limit of retries the message is in the DLQ, under its id and with its target kept; within
  -- it, the message waits for delivery again, with one more retry and no consumer; the lock is
  -- free again.
  pub nack_lem :
      (c : Text)
      → s.locked ≡ false
      → MayNack c
      → let m = s.heap r in
        let s' = (nack r c s).1 in
        ((nack r c s).0 ≡ ok tt)
        × (if ltb s.max_retries (m.retry_count + 1)
            then ((s'.heap r ≡ in_dlq (retried m)) × (lookup m.msg_id s'.dlq ≡ some r))
            else ((s'.heap r ≡ waiting_again (retried m)) × (s'.dlq ≡ s.dlq)))
        × (s'.locked ≡ false)
  nack_lem c free may = elim (Bool-cases (ltb s.max_retries ((s.heap r).retry_count + 1))) [
    | inl over ↦
        let e : nack r c s ≡ (ok tt, buried r counted) =
          nack_eq c may
          ∙ bind-ok (retry r) (λ _. pure tt) s (retry_over free (ltb→lt s.max_retries _ over)) in
        rw (e, over) (refl, buried_lem, refl)
    | inr room ↦
        let e : nack r c s ≡ (ok tt, written r (requeued (counted.heap r)) counted) =
          nack_eq c may ∙ bind-ok (retry r) (λ _. pure tt) s (retry_within (ground arith)) in
        rw (e, room) (refl, (kept, refl), free)
  ]
    where
      buried_lem :
          ((buried r counted).heap r ≡ in_dlq (retried (s.heap r)))
          × (lookup (s.heap r).msg_id (buried r counted).dlq ≡ some r)
      buried_lem = (unfold update dead count_retry in ground arith, buried-lookup)

      kept :
          (written r (requeued (counted.heap r)) counted).heap r
          ≡ waiting_again (retried (s.heap r))
      kept = unfold update requeued count_retry in ground arith
