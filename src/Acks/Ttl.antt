-- ===== src/Acks/Ttl.antt =====
-- `check_ttl`: it takes the lock for one message at a time, so it always returns.
use ai_coding_training.Base.{
  ℕ, ◌≡◌, refl, ◌↔◌, ◌∙◌, Bool, true, false, ◌==◌, ◌&&◌, ◌||◌, List, [], ◌∷◌, arith, if◌then◌else◌,
  Bool-cases, ==_iff, inl, inr,
}
use ai_coding_training.Base.Action.{ok, pure, ◌>>=◌, bind-ok, bind-pure}
use ai_coding_training.Text.{Text}
use ai_coding_training.Models.{Message}
use ai_coding_training.Dict.{Dict}
use ai_coding_training.Acks.{
  Ref, Acks, update, dead, outlived, is_expired, expire, check_ttl, set_message,
}
use ai_coding_training.Acks.Nack.{written, buried, in_dlq, move_to_dlq_free}
use ai_coding_training.Acks.Rules.{Expired, is_expired_iff}
use ai_coding_training.Acks.Timeouts.{Absent, DistinctRefs}

-- A message object after the loop, by whether an entry that has expired refers to it.
abbrev pub settled : Bool → Message → Message
settled hit m = if hit then in_dlq m else m

module _ (now : ℕ) where
  unfoldable pub is_old : Acks → Ref → Bool
  is_old s r = is_expired now s.default_ttl (s.heap r)

  -- The ids of the expired entries, in order.
  unfoldable pub old_ids : Acks → Dict Ref → List Text
  old_ids s [] = []
  old_ids s ((id, r) ∷ d) = let rest = old_ids s d in if is_old s r then id ∷ rest else rest

  -- The manager after a message has expired.
  abbrev expelled : Ref → Acks → Acks
  expelled r s = buried r (written r (outlived (s.heap r)) s)

  expire_free : (r : Ref) (s : Acks) → s.locked ≡ false → expire r s ≡ (ok tt, expelled r s)
  unfolding expire set_message
  expire_free r s h = move_to_dlq_free r (written r (outlived (s.heap r)) s) h

  old_ids-expelled :
      (r : Ref) (s : Acks) (d : Dict Ref) → Absent r d → old_ids (expelled r s) d ≡ old_ids s d
  unfolding old_ids is_old update
  old_ids-expelled r s [] a = refl
  old_ids-expelled r s ((id, q) ∷ d) a = rw (a.0, old_ids-expelled r s d a.1)

  step_old :
      (id : Text) (r : Ref) (d : Dict Ref) (s : Acks)
      → is_old s r ≡ true
      → check_ttl now ((id, r) ∷ d) s
        ≡ (expire r >>= λ _. check_ttl now d >>= λ rest. pure (id ∷ rest)) s
  unfolding check_ttl is_old
  step_old id r d s h = rw (h, check_ttl)

  step_young :
      (id : Text) (r : Ref) (d : Dict Ref) (s : Acks)
      → is_old s r ≡ false
      → check_ttl now ((id, r) ∷ d) s ≡ (check_ttl now d >>= λ rest. pure rest) s
  unfolding check_ttl is_old
  step_young id r d s h = rw (h, check_ttl)

  -- Whether an entry that has expired refers to the message object.
  unfoldable pub is_hit : Acks → Ref → Dict Ref → Bool
  is_hit s q [] = false
  is_hit s q ((id, r) ∷ d) = (r == q && is_old s r) || is_hit s q d

  is_hit-Absent : (s : Acks) (q : Ref) (d : Dict Ref) → Absent q d → is_hit s q d ≡ false
  unfolding is_hit
  is_hit-Absent s q [] a = refl
  is_hit-Absent s q ((id, r) ∷ d) a = rw (a.0, is_hit-Absent s q d a.1) refl

  is_hit-expelled :
      (r q : Ref) (s : Acks) (d : Dict Ref) → Absent r d → is_hit (expelled r s) q d ≡ is_hit s q d
  unfolding is_hit is_old update
  is_hit-expelled r q s [] a = refl
  is_hit-expelled r q s ((id, k) ∷ d) a = rw (a.0, is_hit-expelled r q s d a.1)

  heap-expelled : (r : Ref) (s : Acks) → (expelled r s).heap r ≡ in_dlq (s.heap r)
  unfolding update dead outlived
  heap-expelled r s = ground arith

  heap-expelled_other : (r q : Ref) (s : Acks) → (q == r) ≡ false → (expelled r s).heap q ≡ s.heap q
  unfolding update
  heap-expelled_other r q s h = ground arith

  is_hit-here :
      (id : Text) (r : Ref) (d : Dict Ref) (s : Acks)
      → is_old s r ≡ true
      → is_hit s r ((id, r) ∷ d) ≡ true
  unfolding is_hit
  is_hit-here id r d s old = let same : (r == r) ≡ true = (==_iff r r).1 refl in rw (same, old) refl

  is_hit-later :
      (id : Text) (r q : Ref) (d : Dict Ref) (s : Acks)
      → (r == q && is_old s r) ≡ false
      → is_hit s q ((id, r) ∷ d) ≡ is_hit s q d
  unfolding is_hit
  is_hit-later id r q d s h = rw h refl

  settled-expelled :
      (id : Text) (r q : Ref) (d : Dict Ref) (s : Acks)
      → Absent r d
      → is_old s r ≡ true
      → settled (is_hit (expelled r s) q d) ((expelled r s).heap q)
        ≡ settled (is_hit s q ((id, r) ∷ d)) (s.heap q)
  settled-expelled id r q d s a old = elim (Bool-cases (q == r)) [
    | inl same ↦
        let e : q ≡ r = (==_iff q r).0 same in
        let gone = is_hit-expelled r r s d a ∙ is_hit-Absent s r d a in
        rw (e, gone, is_hit-here id r d s old, heap-expelled r s) refl
    | inr other ↦
        let apart : (r == q && is_old s r) ≡ false = ground arith in
        rw
          (
            is_hit-expelled r q s d a,
            is_hit-later id r q d s apart,
            heap-expelled_other r q s other,
          )
          refl
  ]

  settled-young :
      (id : Text) (r q : Ref) (d : Dict Ref) (s : Acks)
      → is_old s r ≡ false
      → settled (is_hit s q d) (s.heap q) ≡ settled (is_hit s q ((id, r) ∷ d)) (s.heap q)
  settled-young id r q d s young =
      let apart : (r == q && is_old s r) ≡ false = ground arith in
      rw (is_hit-later id r q d s apart) refl

  check_ttl-old :
      (d : Dict Ref) (s : Acks)
      → s.locked ≡ false
      → DistinctRefs d
      → let p = check_ttl now d s in
        (p.0 ≡ ok (old_ids s d))
        × ((q : Ref) → p.1.heap q ≡ settled (is_hit s q d) (s.heap q))
        × (p.1.locked ≡ false)
  unfolding old_ids
  check_ttl-old [] s free u =
      (unfold check_ttl in refl, (λ q. unfold check_ttl is_hit in refl), unfold check_ttl in free)
  check_ttl-old ((id, r) ∷ d) s free (a, u) = elim (Bool-cases (is_old s r)) [
    | inl old ↦
        let s' = expelled r s in
        let (ids, heap, lock) = check_ttl-old d s' refl u in
        let e =
          step_old id r d s old
          ∙ bind-ok (expire r) (λ _. check_ttl now d >>= λ rest. pure (id ∷ rest)) s
              (expire_free r s free)
          ∙ bind-pure (check_ttl now d) (λ rest. id ∷ rest) s' in
        rw (e, ids, old, old_ids-expelled r s d a)
          (refl, (λ q. heap q ∙ settled-expelled id r q d s a old), lock)
    | inr young ↦
        let (ids, heap, lock) = check_ttl-old d s free u in
        let e = step_young id r d s young ∙ bind-pure (check_ttl now d) (λ rest. rest) s in
        rw (e, ids, young) (refl, (λ q. heap q ∙ settled-young id r q d s young), lock)
  ]

  -- With the lock free, over messages of which no two entries are the same object, `check_ttl`
  -- returns the ids of the expired messages in order; every message object that is one of them is
  -- in the DLQ's state, with its target kept, and every other is as it was; the lock is free again.
  -- A message is expired when it is pending or delivered and older than its TTL, or than the default
  -- where its own is not positive, and that limit is not negative.
  pub check_ttl_lem :
      (d : Dict Ref) (s : Acks)
      → s.locked ≡ false
      → DistinctRefs d
      → let p = check_ttl now d s in
        (p.0 ≡ ok (old_ids s d))
        × ((q : Ref) → p.1.heap q ≡ settled (is_hit s q d) (s.heap q))
        × (p.1.locked ≡ false)
        × ((q : Ref) → (is_old s q ≡ true) ↔ Expired now s.default_ttl (s.heap q))
  unfolding is_old
  check_ttl_lem d s free u =
      let (ids, heap, lock) = check_ttl-old d s free u in
      (ids, heap, lock, λ q. is_expired_iff now s.default_ttl (s.heap q))
