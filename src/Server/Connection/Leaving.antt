-- ===== src/Server/Connection/Leaving.antt =====
-- The end of a connection: `_unregister_consumer`, in the `finally` of `_handle_client`.
use mathlib.Core.Path.{subst}
use ai_coding_training.Base.{
  ℕ, zero, suc, ◌≡◌, refl, sym, ◌∙◌, true, false, List, [], ◌∷◌, arith, Bool-cases, Option-cases,
  inl, inr,
}
use ai_coding_training.Base.Action.{Outcome, ok, raised, Action, Raises, bind-Raises}
use ai_coding_training.Text.{Text, text_eq_refl, is_empty}
use ai_coding_training.Text.Lines.{cut_line}
use ai_coding_training.Text.Words.{strip}
use ai_coding_training.Dict.{Dict, contains, erase, lookup-erase}
use ai_coding_training.Topics.{remove_consumer_from_all}
use ai_coding_training.Topics.Subscribers.{is_subscribed, is_subscribed-remove_consumer}
use ai_coding_training.Groups.{remove_consumer_from_all_groups}
use ai_coding_training.Groups.Heartbeats.{is_member, is_member-leave}
use ai_coding_training.Server.{Server, ServerError, register_consumer}
use ai_coding_training.Server.Dispatch.{hangs, dispatch-hangs}
use ai_coding_training.Server.Upkeep.{has_any, redeliver, unregister_consumer}
use ai_coding_training.Server.Connection.{
  Wire, Received, bytes, reset, Moment, Serving, answer_line, drain, settle, feed, listen,
  serve_line, leave, handle_client, send_answer,
}

-- No session, no subscription and no membership of the consumer is left.
pub record IsGone (id : Text) (s : Server) : Type 0 where
  pub session : contains id s.consumers ≡ false
  pub subscriptions : (topic : Text) → is_subscribed topic id s.router.topics ≡ false
  pub memberships : (group : Text) → is_member group id s.group_mgr ≡ false

redeliver-same : (id : Text) (s : Server) → (redeliver id s).1 ≡ s
unfolding redeliver
redeliver-same id s = ground arith

-- The server before the messages are given back.
abbrev removed : Text → Server → Server
removed id s = record s {
  router = record s.router { topics = remove_consumer_from_all id s.router.topics };
  group_mgr = (remove_consumer_from_all_groups id s.group_mgr).1;
  consumers = erase id s.consumers;
}

unregister-removed : (id : Text) (s : Server) → (unregister_consumer id s).1 ≡ removed id s
unfolding unregister_consumer
unregister-removed id s =
    elim (Bool-cases (has_any (remove_consumer_from_all_groups id s.group_mgr).0)) [
      | inl some_group ↦ rw some_group (redeliver-same id (removed id s))
      | inr no_group ↦ rw no_group refl
    ]

contains-erase_self : {V : Type 0} (k : Text) (d : Dict V) → contains k (erase k d) ≡ false
unfolding contains
contains-erase_self k d = ground (arith, lookup-erase k k d, text_eq_refl k)

removed-IsGone : (id : Text) (s : Server) → IsGone id (removed id s)
unfolding remove_consumer_from_all_groups
removed-IsGone id s = record {
  session = contains-erase_self id s.consumers;
  subscriptions = λ topic.
      is_subscribed-remove_consumer id topic id s.router.topics ∙ rw (text_eq_refl id) refl;
  memberships = λ group.
      is_member-leave group id id s.group_mgr (erase id s.group_mgr.heartbeats)
      ∙ rw (text_eq_refl id) refl;
}

module _ {S E : Type 0} (P : E → Type 0) (serve : Text → Action S E Text) where
  send_answer-raised :
      (out : List ℕ) (p : Outcome E Text × S) (e : E)
      → (send_answer out p).0 ≡ raised e
      → p.0 ≡ raised e
  send_answer-raised out (ok t, s) e h = cc
  send_answer-raised out (raised x, s) e h = cc

  answer_line-Raises :
      ((line : Text) → Raises P (serve line)) → (line : Text) → Raises P (answer_line serve line)
  unfolding answer_line
  answer_line-Raises h line w e r = elim (Bool-cases (is_empty (strip line))) [
    | inl blank ↦ let x : ok tt ≡ raised e = rw (blank, answer_line) at r in absurd cc
    | inr some_text ↦ h (strip line) w.inner e (
        send_answer-raised w.sent (serve (strip line) w.inner) e (rw (some_text, answer_line) at r))
  ]

  drain-Raises :
      ((line : Text) → Raises P (serve line)) → (n : ℕ) (buf : Text) → Raises P (drain serve n buf)
  unfolding drain
  drain-Raises h zero buf w e r = absurd cc
  drain-Raises h (suc n) buf w e r = elim (Option-cases (cut_line buf)) [
    | inl last ↦ let x : ok buf ≡ raised e = rw (last, drain) at r in absurd cc
    | inr ((line, rest), more) ↦
        bind-Raises P (answer_line serve line) (λ _. drain serve n rest) (answer_line-Raises h line)
          (λ _. drain-Raises h n rest) w e (rw (more, drain) at r)
  ]

  listen-Raises :
      ((line : Text) → Raises P (serve line))
      → (buf : Text) (rs : List Received) → Raises P (listen serve buf rs)
  unfolding listen feed settle
  listen-Raises h buf [] w e r = absurd cc
  listen-Raises h buf (reset ∷ rs) w e r = absurd cc
  listen-Raises h buf (bytes [] ∷ rs) w e r = absurd cc
  listen-Raises h buf (bytes (b ∷ bs) ∷ rs) w e r =
      bind-Raises P (feed serve buf (b ∷ bs)) (λ buf. listen serve buf rs) (drain-Raises h _ _)
        (λ buf. listen-Raises h buf rs) w e r

abbrev Hangs : ServerError → Type 0
Hangs e = hangs e ≡ true

serve_line-Raises :
    (moments : ℕ → Moment) (id line : Text) → Raises Hangs (serve_line moments id line)
unfolding serve_line
serve_line-Raises moments id line v e h =
    let m = moments v.served in dispatch-hangs m.world id line (m.others v.server) e h

leave-IsGone :
    (id : Text) (p : Outcome ServerError Unit × Wire Serving)
    → ((e : ServerError) → p.0 ≡ raised e → hangs e ≡ true)
    → ((e : ServerError) → (leave id p).0 ≡ raised e → hangs e ≡ false)
    → IsGone id (leave id p).1.1
unfolding leave
leave-IsGone id (ok u, w) waits quiet =
    subst (IsGone id) (sym (unregister-removed id w.inner.server))
      (removed-IsGone id w.inner.server)
leave-IsGone id (raised e, w) waits quiet =
    absurd (let a = waits e refl in let b = quiet e refl in cc)

-- However the stream of a connection ends, and whatever was sent on it, the server is left without
-- session, subscription or membership of its consumer, unless a call on it waits for ever.
pub handle_client-IsGone :
    (moments : ℕ → Moment) (received : List Received) (s : Server)
    → let p = handle_client moments received s in
      ((e : ServerError) → p.0 ≡ raised e → hangs e ≡ false) → IsGone (register_consumer s).0 p.1.1
unfolding handle_client
handle_client-IsGone moments received s quiet =
    let (id, s') = register_consumer s in
    leave-IsGone id _
      (λ e h.
        listen-Raises Hangs (serve_line moments id) (serve_line-Raises moments id) [] received _ e
          h)
      quiet
