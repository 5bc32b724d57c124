-- ===== src/Acks/Timeouts.antt =====
-- `check_timeouts`: it runs to its end unless an overdue message has no retry left; then it waits
-- for the lock that it holds.
use ai_coding_training.Base.{
  ℕ, ◌≡◌, refl, ◌↔◌, ◌∙◌, Bool, true, false, ◌&&◌, ◌||◌, List, [], ◌∷◌, arith, leb, ◌==◌,
  if◌then◌else◌, Bool-cases, inl, inr,
}
use ai_coding_training.Base.Action.{
  Outcome, ok, raised, pure, ◌>>=◌, ◌>>◌, bind-ok, bind-raised, bind-pure, map_outcome,
}
use ai_coding_training.Text.{Text}
use ai_coding_training.Models.{Message}
use ai_coding_training.Dict.{Dict}
use ai_coding_training.Acks.{
  Ref, Acks, AckError, AckAction, deadlock, update, requeued, retry, is_overdue, check_each,
  check_timeouts, acquire, release,
}
use ai_coding_training.Acks.Rules.{Overdue, is_overdue_iff}
use ai_coding_training.Acks.Nack.{written, counted, retry_blocked, retry_within, acquire_free}

-- No entry refers to the message, and no two entries refer to one message.
abbrev pub Absent : Ref → Dict Ref → Type 0
Absent r [] = Unit
Absent r ((id, q) ∷ d) = ((q == r) ≡ false) × Absent r d

abbrev pub DistinctRefs : Dict Ref → Type 0
DistinctRefs [] = Unit
DistinctRefs ((id, r) ∷ d) = Absent r d × DistinctRefs d

module _ (now : ℕ) where
  unfoldable pub is_late : Acks → Ref → Bool
  is_late s r = is_overdue now s.default_ack_timeout (s.heap r)

  -- Some entry is overdue and has had every retry that it may have.
  unfoldable pub any_exhausted : Acks → Dict Ref → Bool
  any_exhausted s [] = false
  any_exhausted s ((id, r) ∷ d) =
      (is_late s r && leb s.max_retries (s.heap r).retry_count) || any_exhausted s d

  -- The ids of the overdue entries, in order.
  unfoldable pub late_ids : Acks → Dict Ref → List Text
  late_ids s [] = []
  late_ids s ((id, r) ∷ d) = let rest = late_ids s d in if is_late s r then id ∷ rest else rest

  -- Writing to a message object that no entry refers to makes no difference.
  any_exhausted-written :
      (r : Ref) (m : Message) (s : Acks) (d : Dict Ref)
      → Absent r d
      → any_exhausted (written r m s) d ≡ any_exhausted s d
  unfolding any_exhausted is_late update
  any_exhausted-written r m s [] a = refl
  any_exhausted-written r m s ((id, q) ∷ d) a = rw (a.0, any_exhausted-written r m s d a.1)

  late_ids-written :
      (r : Ref) (m : Message) (s : Acks) (d : Dict Ref)
      → Absent r d
      → late_ids (written r m s) d ≡ late_ids s d
  unfolding late_ids is_late update
  late_ids-written r m s [] a = refl
  late_ids-written r m s ((id, q) ∷ d) a = rw (a.0, late_ids-written r m s d a.1)

  step_soon :
      (id : Text) (r : Ref) (d : Dict Ref) (s : Acks)
      → is_late s r ≡ false
      → check_each now ((id, r) ∷ d) s ≡ (check_each now d >>= λ rest. pure rest) s
  unfolding check_each is_late
  step_soon id r d s h = rw (h, check_each)

  step_late :
      (id : Text) (r : Ref) (d : Dict Ref) (s : Acks)
      → is_late s r ≡ true
      → check_each now ((id, r) ∷ d) s
        ≡ (retry r >>= λ waits.
              check_each now d >>= λ rest. pure (if waits then id ∷ rest else rest))
            s
  unfolding check_each is_late
  step_late id r d s h = rw (h, check_each)

  -- What the loop returns with the lock held.
  abbrev pub expected : Acks → Dict Ref → Outcome AckError (List Text)
  expected s d = if any_exhausted s d then raised deadlock else ok (late_ids s d)

  map-expected :
      (f : List Text → List Text) (b : Bool) (ids : List Text)
      → map_outcome f (if b then raised deadlock else ok ids)
        ≡ (if b then raised deadlock else ok (f ids))
  map-expected f true ids = refl
  map-expected f false ids = refl

  abbrev Held : Dict Ref → Acks → Type 0
  Held d s = ((check_each now d s).0 ≡ expected s d) × ((check_each now d s).1.locked ≡ true)

  Held-soon :
      (id : Text) (r : Ref) (d : Dict Ref) (s : Acks)
      → is_late s r ≡ false
      → Held d s
      → Held ((id, r) ∷ d) s
  unfolding any_exhausted late_ids
  Held-soon id r d s h (o, l) =
      let e = step_soon id r d s h ∙ bind-pure (check_each now d) (λ rest. rest) s in
      let x : any_exhausted s ((id, r) ∷ d) ≡ any_exhausted s d = rw (any_exhausted, h) refl in
      let i : late_ids s ((id, r) ∷ d) ≡ late_ids s d = rw (late_ids, h) refl in
      rw (e, x, i, o) (map-expected (λ ids. ids) (any_exhausted s d) (late_ids s d), l)

  Held-late :
      (id : Text) (r : Ref) (d : Dict Ref) (s s' : Acks)
      → is_late s r ≡ true
      → leb s.max_retries (s.heap r).retry_count ≡ false
      → retry r s ≡ (ok true, s')
      → any_exhausted s' d ≡ any_exhausted s d
      → late_ids s' d ≡ late_ids s d
      → Held d s'
      → Held ((id, r) ∷ d) s
  unfolding any_exhausted late_ids
  Held-late id r d s s' h room step x' i' (o, l) =
      let e =
        step_late id r d s h
        ∙ bind-ok (retry r)
            (λ waits. check_each now d >>= λ rest. pure (if waits then id ∷ rest else rest)) s step
        ∙ bind-pure (check_each now d) (λ rest. id ∷ rest) s' in
      let x : any_exhausted s ((id, r) ∷ d) ≡ any_exhausted s d =
        rw (any_exhausted, h, room) refl in
      let i : late_ids s ((id, r) ∷ d) ≡ id ∷ late_ids s d = rw (late_ids, h) refl in
      rw (e, x, i, o, x', i') (map-expected (λ ids. id ∷ ids) (any_exhausted s d) (late_ids s d), l)

  Held-blocked :
      (id : Text) (r : Ref) (d : Dict Ref) (s s' : Acks)
      → is_late s r ≡ true
      → leb s.max_retries (s.heap r).retry_count ≡ true
      → retry r s ≡ (raised deadlock, s')
      → s'.locked ≡ true
      → Held ((id, r) ∷ d) s
  unfolding any_exhausted
  Held-blocked id r d s s' h over step l =
      let e =
        step_late id r d s h
        ∙ bind-raised (retry r)
            (λ waits. check_each now d >>= λ rest. pure (if waits then id ∷ rest else rest)) s
            step in
      let x : any_exhausted s ((id, r) ∷ d) ≡ true = rw (any_exhausted, h, over) refl in
      rw (e, x) (refl, l)

  Held-none : (s : Acks) → s.locked ≡ true → Held [] s
  unfolding check_each any_exhausted late_ids
  Held-none s l = (refl, l)

  check_each-Held : (d : Dict Ref) (s : Acks) → s.locked ≡ true → DistinctRefs d → Held d s
  check_each-Held [] s l u = Held-none s l
  check_each-Held ((id, r) ∷ d) s l (a, u) = elim (Bool-cases (is_late s r)) [
    | inl late ↦ elim (Bool-cases (leb s.max_retries (s.heap r).retry_count)) [
      | inl over ↦ Held-blocked id r d s _ late over (retry_blocked r s l (ground arith)) l
      | inr room ↦
          let c = counted r s in
          let m = requeued (c.heap r) in
          let w = any_exhausted-written r m c d a ∙ any_exhausted-written r _ s d a in
          let v = late_ids-written r m c d a ∙ late_ids-written r _ s d a in
          Held-late id r d s (written r m c) late room (retry_within r s (ground arith)) w v
            (check_each-Held d (written r m c) l u)
    ]
    | inr soon ↦ Held-soon id r d s soon (check_each-Held d s l u)
  ]

  any_exhausted-locked :
      (b : Bool) (s : Acks) (d : Dict Ref)
      → any_exhausted (record s { locked = b }) d ≡ any_exhausted s d
  unfolding any_exhausted is_late
  any_exhausted-locked b s [] = refl
  any_exhausted-locked b s ((id, q) ∷ d) = rw (any_exhausted-locked b s d) refl

  late_ids-locked :
      (b : Bool) (s : Acks) (d : Dict Ref) → late_ids (record s { locked = b }) d ≡ late_ids s d
  unfolding late_ids is_late
  late_ids-locked b s [] = refl
  late_ids-locked b s ((id, q) ∷ d) = rw (late_ids-locked b s d) refl

  timeouts_eq :
      (d : Dict Ref) (s s' : Acks) (o : Outcome AckError (List Text))
      → s.locked ≡ false
      → check_each now d (record s { locked = true }) ≡ (o, s')
      → check_timeouts now d s
        ≡ (elim o [ ok ids ↦ (ok ids, record s' { locked = false }) | raised e ↦ (raised e, s') ])
  unfolding check_timeouts release
  timeouts_eq d s s' (ok ids) free h =
      let finish : List Text → AckAction (List Text) = λ expired. release >> pure expired in
      bind-ok acquire (λ _. check_each now d >>= finish) s (acquire_free s free)
      ∙ bind-ok (check_each now d) finish _ h
  timeouts_eq d s s' (raised e) free h =
      let finish : List Text → AckAction (List Text) = λ expired. release >> pure expired in
      bind-ok acquire (λ _. check_each now d >>= finish) s (acquire_free s free)
      ∙ bind-raised (check_each now d) finish _ h

  pub check_timeouts-expected :
      (d : Dict Ref) (s : Acks)
      → s.locked ≡ false
      → DistinctRefs d
      → let p = check_timeouts now d s in (p.0 ≡ expected s d) × (p.1.locked ≡ any_exhausted s d)
  check_timeouts-expected d s free u =
      let s1 = record s { locked = true } in
      let (o, l) = check_each-Held d s1 refl u in
      let e = timeouts_eq d s (check_each now d s1).1 (check_each now d s1).0 free refl in
      rw (e, o, any_exhausted-locked true s d, late_ids-locked true s d)
        (elim (Bool-cases (any_exhausted s d)) [
          | inl x ↦ rw x (refl, l)
          | inr x ↦ rw x (refl, refl)
        ])

  -- With the lock free, over messages of which no two entries are the same object: when some
  -- overdue message has had every retry, `check_timeouts` waits for ever, and the lock stays taken;
  -- otherwise it returns the ids of the overdue messages in order, and the lock is free again. A
  -- message is overdue when it is delivered, at a time after zero, and more than its ack timeout has
  -- gone by, or than the default where its own is not positive.
  pub check_timeouts_lem :
      (d : Dict Ref) (s : Acks)
      → s.locked ≡ false
      → DistinctRefs d
      → let p = check_timeouts now d s in
        (p.0 ≡ expected s d)
        × (p.1.locked ≡ any_exhausted s d)
        × ((q : Ref) → (is_late s q ≡ true) ↔ Overdue now s.default_ack_timeout (s.heap q))
  unfolding is_late
  check_timeouts_lem d s free u =
      let (result, lock) = check_timeouts-expected d s free u in
      (result, lock, λ q. is_overdue_iff now s.default_ack_timeout (s.heap q))
