-- ===== src/Server/Restart.antt =====
-- What the messages that recovery found become at the start.
use mathlib.Core.Path.{subst}
use ai_coding_training.Base.{◌≡◌, refl, sym, ap, ◌∙◌, Bool, true, false, List, [], ◌∷◌, arith, All}
use ai_coding_training.Base.Action.{Outcome, ok, bind-ok}
use ai_coding_training.Text.{Text, text_eq_iff}
use ai_coding_training.Dict.{contains, lookup-insert}
use ai_coding_training.Acks.{Ref, update}
use ai_coding_training.Router.{Router, restore_message, restore_unless, register, set_message}
use ai_coding_training.Server.{Server, ServerError, on_router, raise_as, through_router, in_codec}
use ai_coding_training.Server.Upkeep.{restore_all, new_object, recover_log, start}
use ai_coding_training.Models.{Message}
use ai_coding_training.Persistence.Log.{recover}

unless_ok : (b : Bool) (r : Ref) (s : Router) → (restore_unless b r s).0 ≡ ok tt
unfolding restore_unless register set_message
unless_ok true r s = refl
unless_ok false r s = refl

unless_queues : (b : Bool) (r : Ref) (s : Router) → (restore_unless b r s).1.queues ≡ s.queues
unfolding restore_unless register set_message
unless_queues true r s = refl
unless_queues false r s = refl

-- The server after one message has been restored.
abbrev restored_one : Ref → Server → Server
restored_one r s = (on_router (restore_message r) s).1

restore_ok : (r : Ref) (s : Server) → on_router (restore_message r) s ≡ (ok tt, restored_one r s)
unfolding restore_message
restore_ok r s =
    ap (λ o. (raise_as through_router o, restored_one r s))
      (unless_ok (contains (s.router.heap r).msg_id s.router.messages) r s.router)

restore_queues : (r : Ref) (s : Server) → (restored_one r s).router.queues ≡ s.router.queues
unfolding restore_message
restore_queues r s = unless_queues (contains (s.router.heap r).msg_id s.router.messages) r s.router

restore_all-queues :
    (ms : List Message) (s : Server)
    → ((restore_all ms s).0 ≡ ok tt) × ((restore_all ms s).1.router.queues ≡ s.router.queues)
unfolding restore_all new_object
restore_all-queues [] s = (refl, refl)
restore_all-queues (m ∷ ms) s =
    let r = s.router.next_ref in
    let s' = (new_object m s).1 in
    let (done, queues) = restore_all-queues ms (restored_one r s') in
    let e = bind-ok (on_router (restore_message r)) (λ _. restore_all ms) s' (restore_ok r s') in
    rw e (done, queues ∙ restore_queues r s')

-- Whether an id is registered.
abbrev pub is_known : Text → Server → Bool
is_known id s = contains id s.router.messages

unless_known :
    (b : Bool) (r : Ref) (s : Router) (id : Text)
    → contains id s.messages ≡ true
    → contains id (restore_unless b r s).1.messages ≡ true
unfolding restore_unless register set_message contains
unless_known true r s id h = h
unless_known false r s id h =
    ground (arith, lookup-insert {V = Ref} (s.heap r).msg_id id r s.messages)

unless_registers :
    (b : Bool) (r : Ref) (s : Router)
    → contains (s.heap r).msg_id s.messages ≡ b
    → contains (s.heap r).msg_id (restore_unless b r s).1.messages ≡ true
unfolding restore_unless register set_message contains
unless_registers true r s h = h
unless_registers false r s h = ground (
  arith,
  lookup-insert {V = Ref} (s.heap r).msg_id (s.heap r).msg_id r s.messages,
  text_eq_iff (s.heap r).msg_id (s.heap r).msg_id,
)

restored_known :
    (r : Ref) (s : Server) (id : Text)
    → is_known id s ≡ true
    → is_known id (restored_one r s) ≡ true
unfolding restore_message
restored_known r s id h =
    unless_known (contains (s.router.heap r).msg_id s.router.messages) r s.router id h

restored_registers :
    (r : Ref) (s : Server) → is_known (s.router.heap r).msg_id (restored_one r s) ≡ true
unfolding restore_message
restored_registers r s =
    unless_registers (contains (s.router.heap r).msg_id s.router.messages) r s.router refl

restore_all-known :
    (ms : List Message) (s : Server) (id : Text)
    → is_known id s ≡ true
    → is_known id (restore_all ms s).1 ≡ true
unfolding restore_all new_object
restore_all-known [] s id h = h
restore_all-known (m ∷ ms) s id h =
    let r = s.router.next_ref in
    let s' = (new_object m s).1 in
    let e = bind-ok (on_router (restore_message r)) (λ _. restore_all ms) s' (restore_ok r s') in
    rw e (restore_all-known ms (restored_one r s') id (restored_known r s' id h))

restore_all-registers :
    (ms : List Message) (s : Server)
    → All (λ (m : Message). is_known m.msg_id (restore_all ms s).1 ≡ true) ms
unfolding restore_all new_object update
restore_all-registers [] s = tt
restore_all-registers (m ∷ ms) s =
    let r = s.router.next_ref in
    let s' = (new_object m s).1 in
    let e = bind-ok (on_router (restore_message r)) (λ _. restore_all ms) s' (restore_ok r s') in
    let same : (s'.router.heap r).msg_id ≡ m.msg_id = ground arith in
    let first : is_known m.msg_id (restored_one r s') ≡ true =
      rw same at (restored_registers r s') in
    let rest : restore_all (m ∷ ms) s ≡ restore_all ms (restored_one r s') = e in
    subst
      (λ (p : Outcome ServerError Unit × Server).
        All (λ (k : Message). is_known k.msg_id p.1 ≡ true) (m ∷ ms))
      (sym rest)
      (
        restore_all-known ms (restored_one r s') m.msg_id first,
        restore_all-registers ms (restored_one r s'),
      )

-- Where the log can be recovered, the start raises no exception, registers the id of every recovered
-- message, and leaves every queue as it was.
pub start_lem :
    (ms : List Message) (s : Server)
    → (recover s.persistence).0 ≡ ok ms
    → ((start s).0 ≡ ok tt)
      × All (λ (m : Message). is_known m.msg_id (start s).1 ≡ true) ms
      × ((start s).1.router.queues ≡ s.router.queues)
unfolding start recover_log
start_lem ms s h =
    let s' = record s { persistence = (recover s.persistence).1 } in
    let e : recover_log s ≡ (ok ms, s') = ap (λ o. (raise_as in_codec o, s')) h in
    let (done, queues) = restore_all-queues ms s' in
    rw (bind-ok recover_log restore_all s e) (done, restore_all-registers ms s', queues)
