-- ===== src/Router/Sound/Consuming.antt =====
-- `consume_from_queue` keeps the router sound, whatever other threads do that keep it so.
use ai_coding_training.Base.{ℕ, refl, not, Option, none, some, List, [], ◌∷◌, All, ltb, leb}
use ai_coding_training.Base.Int.{ℤ, pos_part}
use ai_coding_training.Base.Keeps.{
  Keeps, if-Keeps, bind-Keeps, pure-Keeps, gets-Keeps, modify-Keeps,
}
use ai_coding_training.Text.{Text}
use ai_coding_training.Dict.{Dict}
use ai_coding_training.Acks.{Ref}
use ai_coding_training.Queues.{dequeue}
use ai_coding_training.Queues.Invariant.{dequeue-IsValid}
use ai_coding_training.Router.{
  Router, RouterAction, no_handler, delivered, Round, hand_over, deliver, answer, turn, poll, Poll,
  message, nothing, polling, consume_from_queue,
}
use ai_coding_training.Router.Sound.{Sound, on_queues-Sound, set_message-Sound}

module _ (k : ℕ) (dlq : Dict Ref) where
  hand_over-Sound : (c : Text) (now : ℕ) (o : Option Ref) → Keeps (Sound k dlq) (hand_over c now o)
  unfolding hand_over delivered
  hand_over-Sound c now none = pure-Keeps none
  hand_over-Sound c now (some r) =
      bind-Keeps (set_message-Sound k dlq r (delivered c now) (λ m. refl))
        (λ u. pure-Keeps (some r))

  deliver-Sound : (c : Text) (now : ℕ) (id : Text) → Keeps (Sound k dlq) (deliver c now id)
  unfolding deliver
  deliver-Sound c now id = bind-Keeps (gets-Keeps _) (λ o. hand_over-Sound c now o)

  answer-Sound :
      (again : RouterAction Poll) (o : Option Ref)
      → Keeps (Sound k dlq) again
      → Keeps (Sound k dlq) (answer again o)
  answer-Sound again none keep = keep
  answer-Sound again (some r) keep = pure-Keeps (message r)

  turn-Sound :
      (c : Text) (timeout : ℤ) (deadline now : ℕ) (again : RouterAction Poll)
      (o : Option (Text × Text))
      → Keeps (Sound k dlq) again
      → Keeps (Sound k dlq) (turn c timeout deadline now again o)
  turn-Sound c timeout deadline now again none keep =
      if-Keeps (not (ltb 0 (pos_part timeout))) (pure-Keeps nothing)
        (if-Keeps (leb deadline now) (pure-Keeps nothing) keep)
  turn-Sound c timeout deadline now again (some (id, body)) keep =
      bind-Keeps (deliver-Sound c now id) (λ o. answer-Sound again o keep)

  -- Turns in which the other threads keep the router sound.
  abbrev pub Kept : Round → Type 0
  Kept round = (s : Router) → Sound k dlq s → Sound k dlq (round.others s)

  poll-Sound :
      (queue c : Text) (timeout : ℤ) (deadline : ℕ) (rounds : List Round)
      → All Kept rounds
      → Keeps (Sound k dlq) (poll queue c timeout deadline rounds)
  unfolding poll
  poll-Sound queue c timeout deadline [] kept = pure-Keeps polling
  poll-Sound queue c timeout deadline (round ∷ rounds) kept =
      bind-Keeps
        (on_queues-Sound k dlq (dequeue queue) no_handler (dequeue-IsValid queue) (λ e r v. v))
        (λ o. turn-Sound c timeout deadline round.now _ o (
          bind-Keeps (modify-Keeps round.others kept.0)
            (λ u. poll-Sound queue c timeout deadline rounds kept.1)))

  pub consume_from_queue-Sound :
      (queue c : Text) (timeout : ℤ) (start : ℕ) (rounds : List Round)
      → All Kept rounds
      → Keeps (Sound k dlq) (consume_from_queue queue c timeout start rounds)
  unfolding consume_from_queue
  consume_from_queue-Sound queue c timeout start rounds kept =
      poll-Sound queue c timeout _ rounds kept
