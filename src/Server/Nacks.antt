-- ===== src/Server/Nacks.antt =====
-- What becomes of a message that a consumer sends back: `cmd_nack`.
use ai_coding_training.Base.{
  ◌+◌, ◌≡◌, refl, ap, ◌∙◌, false, some, [], ◌∷◌, ltb, Bool-cases, inl, inr, if◌then◌else◌,
}
use ai_coding_training.Base.Action.{ok, raised, raise, ◌>>◌, bind-ok}
use ai_coding_training.Text.{Text}
use ai_coding_training.Dict.{lookup}
use ai_coding_training.Acks.{Ref, Acks, nack}
use ai_coding_training.Acks.Nack.{MayNack, retried, waiting_again, in_dlq, nack_lem}
use ai_coding_training.Router.{get_message}
use ai_coding_training.Server.{
  Server, ServerAction, name_error, on_acks, catch, caught, raise_as, in_acks,
}
use ai_coding_training.Server.Messages.{cmd_nack, with_message, nack_answer, use_found}

-- The ack manager over the message objects of the router.
abbrev pub acks_of : Server → Acks
acks_of s = record s.ack_mgr { heap = s.router.heap }

-- The server after the ack manager has taken a NACK.
abbrev after : Ref → Text → Server → Server
after r c s =
    let m = (nack r c (acks_of s)).1 in
    record s { ack_mgr = m; router = record s.router { heap = m.heap } }

cmd_nack_eq :
    (id : Text) (r : Ref) (c : Text) (s : Server)
    → lookup id s.router.messages ≡ some r
    → (nack r c (acks_of s)).0 ≡ ok tt
    → cmd_nack c (id ∷ []) s ≡ (raised name_error, after r c s)
unfolding cmd_nack with_message use_found nack_answer get_message
cmd_nack_eq id r c s found done =
    let settle : Ref → ServerAction Text =
      λ q. catch nack_answer (do on_acks (nack q c); raise name_error) in
    let acked : on_acks (nack r c) s ≡ (ok tt, after r c s) =
      ap (λ o. (raise_as in_acks o, after r c s)) done in
    ap (λ o. use_found settle o s) found
    ∙ ap (caught nack_answer) (bind-ok (on_acks (nack r c)) (λ _. raise name_error) s acked)

-- A NACK by the consumer that has a registered message, with the lock of the ack manager free:
-- the handler raises a `NameError` and every queue stays as it was, while the message object is
-- marked as waiting for delivery again, with one more retry and no consumer, or as in the DLQ, with
-- its target kept, if it has no retry left.
pub cmd_nack_lem :
    (id : Text) (r : Ref) (c : Text) (s : Server)
    → lookup id s.router.messages ≡ some r
    → s.ack_mgr.locked ≡ false
    → MayNack r (acks_of s) c
    → let m = s.router.heap r in
      let p = cmd_nack c (id ∷ []) s in
      (p.0 ≡ raised name_error)
      × (p.1.router.queues ≡ s.router.queues)
      × (p.1.router.heap r ≡ (
          if ltb s.ack_mgr.max_retries (m.retry_count + 1)
          then in_dlq (retried m)
          else waiting_again (retried m)))
cmd_nack_lem id r c s found free may =
    let (done, kept, lock) = nack_lem r (acks_of s) c free may in
    rw (cmd_nack_eq id r c s found done) (
      refl,
      refl,
      elim (Bool-cases (ltb s.ack_mgr.max_retries ((s.router.heap r).retry_count + 1))) [
        | inl over ↦ rw over ((rw over at kept).0)
        | inr room ↦ rw room ((rw room at kept).0)
      ],
    )
