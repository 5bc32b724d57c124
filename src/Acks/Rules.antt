-- ===== src/Acks/Rules.antt =====
-- The two rules of `AckManager` about time, said of a message: when it has outlived its TTL, and when
-- its acknowledgement is overdue. Times are microseconds, and the limits are seconds.
use mathlib.Core.Path.{subst}
use ai_coding_training.Base.{
  ℕ, ◌+◌, ◌*◌, ◌<◌, ◌≡◌, refl, ◌↔◌, ◌⊎◌, inl, inr, Bool, true, false, ◌&&◌, ◌||◌, arith, ltb,
  ltb→lt, lt→ltb, ap, sym, ◌∙◌, Bool-cases, if◌then◌else◌,
}
use ai_coding_training.Base.Int.{ℤ, pos, negsuc, pos_part, neg_part}
use ai_coding_training.Models.{Message, Status, status_eq, second}
use ai_coding_training.Acks.{ttl_of, is_older, is_expired, ack_timeout_of, is_overdue}

-- A limit in seconds: the own one of a message where that is positive, and else the default.
abbrev pub Limit : ℤ → ℤ → ℕ → Type 0
Limit own default seconds =
    ((own ≡ pos seconds) × (0 < seconds)) ⊎ ((pos_part own ≡ 0) × (default ≡ pos seconds))

-- Neither settled nor dead, with a limit that is not negative, and older than that limit.
pub record Expired (now : ℕ) (default : ℤ) (m : Message) : Type 0 where
  pub unsettled : (m.status ≡ Status.pending) ⊎ (m.status ≡ Status.delivered)
  pub seconds : ℕ
  pub limit : Limit m.ttl default seconds
  pub older : (pos_part m.timestamp + seconds) * 1000000 < now + neg_part m.timestamp * 1000000

-- Handed to a consumer at a time, and not acknowledged within the limit.
pub record Overdue (now default : ℕ) (m : Message) : Type 0 where
  pub handed : m.status ≡ Status.delivered
  pub timed : 0 < m.deliver_time
  pub seconds : ℕ
  pub limit : Limit m.ack_timeout (pos default) seconds
  pub late : m.deliver_time + seconds * 1000000 < now

unsettled-cases :
    (s : Status)
    → (status_eq s Status.pending || status_eq s Status.delivered) ≡ true
    → (s ≡ Status.pending) ⊎ (s ≡ Status.delivered)
unfolding status_eq
unsettled-cases Status.pending h = inl refl
unsettled-cases Status.delivered h = inr refl
unsettled-cases Status.acked h = absurd cc
unsettled-cases Status.expired h = absurd cc
unsettled-cases Status.dlq h = absurd cc

cases-unsettled :
    (s : Status)
    → (s ≡ Status.pending) ⊎ (s ≡ Status.delivered)
    → (status_eq s Status.pending || status_eq s Status.delivered) ≡ true
unfolding status_eq
cases-unsettled s (inl e) = rw e refl
cases-unsettled s (inr e) = rw e refl

three-true : (a b c : Bool) → (a && b && c) ≡ true → (a ≡ true) × (b ≡ true) × (c ≡ true)
three-true a b c h = ground arith

delivered-eq : (s : Status) → status_eq s Status.delivered ≡ true → s ≡ Status.delivered
unfolding status_eq
delivered-eq Status.pending h = absurd cc
delivered-eq Status.delivered h = refl
delivered-eq Status.acked h = absurd cc
delivered-eq Status.expired h = absurd cc
delivered-eq Status.dlq h = absurd cc

-- `own if own > 0 else default`
limit-own :
    (own default : ℤ) (n : ℕ)
    → (if ltb 0 (pos_part own) then own else default) ≡ pos n
    → Limit own default n
limit-own own default n h = elim (Bool-cases (ltb 0 (pos_part own))) [
  | inl positive ↦
      let e : own ≡ pos n = rw positive at h in
      let same : pos_part own ≡ n = ap pos_part e in
      inl (e, rw (← same) (ltb→lt 0 (pos_part own) positive))
  | inr other ↦ let e : default ≡ pos n = rw other at h in inr (ground arith, e)
]

own-limit :
    (own default : ℤ) (n : ℕ)
    → Limit own default n
    → (if ltb 0 (pos_part own) then own else default) ≡ pos n
own-limit own default n (inl (e, l)) =
    let positive : ltb 0 n ≡ true = ground arith in rw (e, positive) refl
own-limit own default n (inr (z, e)) = rw (z, e) refl

-- The limit of `ack_timeout_of`, as a number of ℤ.
pos_timeout :
    (default : ℕ) (own : ℤ)
    → (if ltb 0 (pos_part own) then own else pos default)
      ≡ pos (if ltb 0 (pos_part own) then pos_part own else default)
pos_timeout default (pos n) = elim (Bool-cases (ltb 0 n)) [ inl h ↦ rw h refl | inr h ↦ rw h refl ]
pos_timeout default (negsuc n) = refl

module _ (now : ℕ) where
  older_parts :
      (b : Bool) (z t : ℤ)
      → (b && (elim z [ pos n ↦ is_older now n t | negsuc n ↦ false ])) ≡ true
      → (b ≡ true) × (n : ℕ) × (z ≡ pos n) × (is_older now n t ≡ true)
  older_parts true (pos n) t h = (refl, n, refl, h)
  older_parts true (negsuc n) t h = absurd cc
  older_parts false z t h = absurd cc

  is_expired-Expired :
      (default : ℤ) (m : Message) → is_expired now default m ≡ true → Expired now default m
  unfolding is_expired ttl_of
  is_expired-Expired default m h =
      let (open_status, n, e, old) =
        older_parts (status_eq m.status Status.pending || status_eq m.status Status.delivered)
          (ttl_of default m) m.timestamp h in
      record {
        unsettled = unsettled-cases m.status open_status;
        seconds = n;
        limit = limit-own m.ttl default n e;
        older = ltb→lt _ _ (unfold is_older in old);
      }

  Expired-is_expired :
      (default : ℤ) (m : Message) → Expired now default m → is_expired now default m ≡ true
  unfolding is_expired
  Expired-is_expired default m x =
      let e : ttl_of default m ≡ pos x.seconds =
        unfold ttl_of in own-limit m.ttl default x.seconds x.limit in
      let old : is_older now x.seconds m.timestamp ≡ true = unfold is_older in lt→ltb _ _ x.older in
      let open_status = cases-unsettled m.status x.unsettled in
      subst
        (λ (z : ℤ).
          ((status_eq m.status Status.pending || status_eq m.status Status.delivered)
            && (elim z [ pos n ↦ is_older now n m.timestamp | negsuc n ↦ false ]))
          ≡ true)
        (sym e) (rw open_status old)

  -- `is_expired` is the rule.
  pub is_expired_iff :
      (default : ℤ) (m : Message) → (is_expired now default m ≡ true) ↔ Expired now default m
  is_expired_iff default m = (is_expired-Expired default m, Expired-is_expired default m)

  is_overdue-Overdue :
      (default : ℕ) (m : Message) → is_overdue now default m ≡ true → Overdue now default m
  unfolding is_overdue ack_timeout_of
  is_overdue-Overdue default m h =
      let (handed, timed, late) : (status_eq m.status Status.delivered ≡ true)
          × (ltb 0 m.deliver_time ≡ true)
          × (ltb (m.deliver_time + ack_timeout_of default m * second) now ≡ true) =
        three-true _ _ _ h in
      record {
        handed = delivered-eq m.status handed;
        timed = ltb→lt 0 m.deliver_time timed;
        seconds = ack_timeout_of default m;
        limit = limit-own m.ack_timeout (pos default) _ (pos_timeout default m.ack_timeout);
        late = ltb→lt _ now late;
      }

  Overdue-is_overdue :
      (default : ℕ) (m : Message) → Overdue now default m → is_overdue now default m ≡ true
  unfolding is_overdue ack_timeout_of status_eq
  Overdue-is_overdue default m x =
      let e : ack_timeout_of default m ≡ x.seconds = ap pos_part (
        sym (pos_timeout default m.ack_timeout)
        ∙ own-limit m.ack_timeout (pos default) x.seconds x.limit) in
      rw (x.handed, lt→ltb 0 m.deliver_time x.timed, e) (lt→ltb _ now x.late)

  -- `is_overdue` is the rule.
  pub is_overdue_iff :
      (default : ℕ) (m : Message) → (is_overdue now default m ≡ true) ↔ Overdue now default m
  is_overdue_iff default m = (is_overdue-Overdue default m, Overdue-is_overdue default m)
