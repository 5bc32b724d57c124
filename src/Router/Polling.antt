-- ===== src/Router/Polling.antt =====
-- Consuming from a queue: `consume_from_queue`.
use ai_coding_training.Base.{
  ℕ, suc, ◌+◌, ◌<◌, ◌≡◌, ◌≢◌, refl, ap, ◌∙◌, false, Option, none, some, List, [], ◌∷◌, arith, ltb,
  if◌then◌else◌, length, All, Option-cases, ◌⊎◌, inl, inr,
}
use ai_coding_training.Base.Int.{ℤ, pos_part}
use ai_coding_training.Base.Action.{Outcome, ok, raised, modify, ◌>>◌, bind-ok, bind-raised}
use ai_coding_training.Text.{Text}
use ai_coding_training.Dict.{lookup}
use ai_coding_training.Queues.{Queue, queue_not_found, put, dequeue, pop_left, get_queue_depth}
use ai_coding_training.Queues.Fifo.{found-put}
use ai_coding_training.Acks.{Ref, update}
use ai_coding_training.Router.{
  Router, RouterAction, RouteError, queue_error, Poll, message, polling, Round, on_queues, resume,
  hand_over, answer, turn, no_handler, delivered, deliver, set_message, poll, consume_from_queue,
}

list-cases : {A : Type 0} (xs : List A) → (xs ≡ []) ⊎ ((x : A) × (ys : List A) × (xs ≡ x ∷ ys))
list-cases [] = inl refl
list-cases (x ∷ xs) = inr (x, xs, refl)

module _ (queue : Text) (s : Router) where
  abbrev take_one : Outcome RouteError (Option (Text × Text)) × Router
  take_one = on_queues (dequeue queue) no_handler s

  take_missing :
      lookup queue s.queues.queues ≡ none
      → take_one ≡ (raised (queue_error (queue_not_found queue)), s)
  unfolding on_queues
  take_missing h =
      let e : dequeue queue s.queues ≡ (raised (queue_not_found queue), s.queues) =
        unfold dequeue in rw h refl in
      ap (resume no_handler s) e

  take_empty :
      (q : Queue) → lookup queue s.queues.queues ≡ some q → q.items ≡ [] → take_one ≡ (ok none, s)
  unfolding on_queues
  take_empty q h e =
      let e : dequeue queue s.queues ≡ (ok none, s.queues) =
        unfold dequeue pop_left in rw (h, e) refl in
      ap (resume no_handler s) e

  take_head :
      (q : Queue) (x : Text × Text) (rest : List (Text × Text))
      → lookup queue s.queues.queues ≡ some q
      → q.items ≡ x ∷ rest
      → take_one
        ≡ (ok (some x), record s { queues = put queue (record q { items = rest }) s.queues })
  unfolding on_queues
  take_head q x rest h e =
      let e : dequeue queue s.queues
          ≡ (ok (some x), put queue (record q { items = rest }) s.queues) =
        unfold dequeue pop_left in rw (h, e) refl in
      ap (resume no_handler s) e

deliver-found :
    (c : Text) (now : ℕ) (id : Text) (r : Ref) (s : Router)
    → lookup id s.messages ≡ some r
    → deliver c now id s
      ≡ (ok (some r), record s { heap = update r (delivered c now (s.heap r)) s.heap })
unfolding deliver hand_over set_message
deliver-found c now id r s h = ap (λ found. hand_over c now found s) h

deliver-unknown :
    (c : Text) (now : ℕ) (id : Text) (s : Router)
    → lookup id s.messages ≡ none
    → deliver c now id s ≡ (ok none, s)
unfolding deliver hand_over
deliver-unknown c now id s h = ap (λ found. hand_over c now found s) h

module _ (queue c : Text) (timeout : ℤ) (deadline : ℕ) (round : Round) (rounds : List Round) where
  -- The loop from the next turn on.
  abbrev again : RouterAction Poll
  again = do modify round.others; poll queue c timeout deadline rounds

  poll-taken :
      (o : Option (Text × Text)) (s s' : Router)
      → take_one queue s ≡ (ok o, s')
      → poll queue c timeout deadline (round ∷ rounds) s
        ≡ turn c timeout deadline round.now again o s'
  unfolding poll
  poll-taken o s s' h =
      bind-ok (on_queues (dequeue queue) no_handler) (turn c timeout deadline round.now again) s h

  poll-missing :
      (s : Router)
      → lookup queue s.queues.queues ≡ none
      → poll queue c timeout deadline (round ∷ rounds) s
        ≡ (raised (queue_error (queue_not_found queue)), s)
  unfolding poll
  poll-missing s h =
      bind-raised (on_queues (dequeue queue) no_handler) (turn c timeout deadline round.now again) s
        (take_missing queue s h)

  poll-head :
      (id body : Text) (s s' : Router) (found : Option Ref) (s'' : Router)
      → take_one queue s ≡ (ok (some (id, body)), s')
      → deliver c round.now id s' ≡ (ok found, s'')
      → poll queue c timeout deadline (round ∷ rounds) s ≡ answer again found s''
  poll-head id body s s' found s'' h d =
      poll-taken (some (id, body)) s s' h ∙ bind-ok (deliver c round.now id) (answer again) s' d

-- The first message of a queue, when its id is registered, goes to whoever consumes next, however
-- long that consumer would wait: the message object is marked as delivered to it at that time,
-- and the queue keeps the rest in order.
pub consume-head :
    (queue c id body : Text) (timeout : ℤ) (start : ℕ) (round : Round) (rounds : List Round)
    (q : Queue) (rest : List (Text × Text)) (r : Ref) (s : Router)
    → lookup queue s.queues.queues ≡ some q
    → q.items ≡ (id, body) ∷ rest
    → lookup id s.messages ≡ some r
    → consume_from_queue queue c timeout start (round ∷ rounds) s ≡ (
      ok (message r),
      record s {
        queues = put queue (record q { items = rest }) s.queues;
        heap = update r (delivered c round.now (s.heap r)) s.heap;
      },
    )
consume-head queue c id body timeout start round rounds q rest r s h e found =
    let s' = record s { queues = put queue (record q { items = rest }) s.queues } in
    let deadline = if ltb 0 (pos_part timeout) then start + pos_part timeout else 0 in
    unfold consume_from_queue in
    poll-head queue c timeout deadline round rounds id body s s' (some r) _
      (take_head queue s q (id, body) rest h e) (deliver-found c round.now id r s' found)

-- Turns in which no other thread touches the queues.
abbrev pub Quiet : Round → Type 0
Quiet round = (s : Router) → (round.others s).queues ≡ s.queues

poll-ends :
    (queue c : Text) (timeout : ℤ) (deadline : ℕ) (rounds : List Round) (q : Queue) (s : Router)
    → ltb 0 (pos_part timeout) ≡ false
    → All Quiet rounds
    → lookup queue s.queues.queues ≡ some q
    → length q.items < length rounds
    → (poll queue c timeout deadline rounds s).0 ≢ ok polling
poll-ends queue c timeout deadline [] q s t quiet h l = absurd (omega arith)
poll-ends queue c timeout deadline (round ∷ rounds) q s t quiet h l = elim (list-cases q.items) [
  | inl empty ↦
      let e =
        poll-taken queue c timeout deadline round rounds none s s (take_empty queue s q h empty) in
      rw (e, t) (λ x. cc)
  | inr (x, rest, items) ↦
      let q' = record q { items = rest } in
      let s' = record s { queues = put queue q' s.queues } in
      let step = take_head queue s q x rest h items in
      elim (Option-cases (lookup x.0 s.messages)) [
        | inr (r, found) ↦
            let e =
              poll-head queue c timeout deadline round rounds x.0 x.1 s s' (some r) _ step
                (deliver-found c round.now x.0 r s' found) in
            rw e (λ x. cc)
        | inl unknown ↦
            let e =
              poll-head queue c timeout deadline round rounds x.0 x.1 s s' none s' step
                (deliver-unknown c round.now x.0 s' unknown) in
            rw e (
              poll-ends queue c timeout deadline rounds q' (round.others s') t quiet.1
                (ap (λ m. lookup queue m.queues) (quiet.0 s') ∙ found-put queue q' s.queues)
                (let n : length q.items ≡ suc (length rest) = ap length items in omega (arith, n)))
      ]
]

-- Without a time to wait, and where no other thread touches the queues, `consume_from_queue` ends
-- within one turn more than the queue has messages, whether their ids are registered or not.
pub consume_from_queue-returns :
    (queue c : Text) (timeout : ℤ) (start : ℕ) (rounds : List Round) (s : Router)
    → ltb 0 (pos_part timeout) ≡ false
    → All Quiet rounds
    → get_queue_depth queue s.queues < length rounds
    → (consume_from_queue queue c timeout start rounds s).0 ≢ ok polling
unfolding consume_from_queue get_queue_depth
consume_from_queue-returns queue c timeout start [] s t quiet l = absurd (omega arith)
consume_from_queue-returns queue c timeout start (round ∷ rounds) s t quiet l =
    let deadline = if ltb 0 (pos_part timeout) then start + pos_part timeout else 0 in
    elim (Option-cases (lookup queue s.queues.queues)) [
      | inl gone ↦ rw (poll-missing queue c timeout deadline round rounds s gone) (λ x. cc)
      | inr (q, found) ↦
          let depth : length q.items < length (round ∷ rounds) = ground (arith, found) in
          poll-ends queue c timeout deadline (round ∷ rounds) q s t quiet found depth
    ]
