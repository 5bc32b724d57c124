-- ===== src/Server/Connection.antt =====
-- `_handle_client` of src/server.py: the thread of one connection, from the bytes that `recv` returns
-- to the bytes that `sendall` takes.
pub mod Chunks
pub mod Leaving
use ai_coding_training.Base.{
  ℕ, zero, suc, ◌+◌, Bool, true, false, Option, none, some, List, [], ◌∷◌, ◌++◌, if◌then◌else◌,
  length,
}
use ai_coding_training.Base.Action.{Outcome, ok, raised, Action, pure, ◌>>=◌, ◌>>◌}
use ai_coding_training.Text.{Text, codes, is_empty}
use ai_coding_training.Text.Lines.{cut_line}
use ai_coding_training.Text.Replace.{decode_replace}
use ai_coding_training.Text.Utf8.{encode}
use ai_coding_training.Text.Words.{strip}
use ai_coding_training.Protocol.{ok_response}
use ai_coding_training.Server.{Server, ServerError, register_consumer}
use ai_coding_training.Server.Dispatch.{World, dispatch}
use ai_coding_training.Server.Upkeep.{unregister_consumer}

-- What the connection has been sent, and the state that the lines are served on.
pub record Wire (S : Type 0) : Type 0 where
  pub sent : List ℕ
  pub inner : S

abbrev pub WireAction : Type 0 → Type 0 → Type 0 → Type 0
WireAction S E A = Action (Wire S) E A

-- What one call of `recv(4096)` gives: bytes, of which none stand for the end of the stream, or
-- `ConnectionResetError`. That there are 4096 bytes at most is not asked for, so what holds for any
-- chunks holds for those that `recv` gives.
pub data Received : Type 0 where
  bytes : List ℕ → Received
  reset : Received

module _ {S E : Type 0} where
  -- `conn.sendall(response.encode())`
  abbrev pub send_answer : List ℕ → Outcome E Text × S → Outcome E Unit × Wire S
  send_answer out (ok response, s) = (ok tt, record { sent = out ++ encode response; inner = s })
  send_answer out (raised e, s) = (raised e, record { sent = out; inner = s })

module _ {S E : Type 0} (serve : Text → Action S E Text) where
  -- A line that has been cut off: a blank one is passed over.
  unfoldable pub answer_line : Text → WireAction S E Unit
  answer_line line w =
      if is_empty (strip line) then (ok tt, w) else send_answer w.sent (serve (strip line) w.inner)

  -- `while "\r\n" in buf`, on fuel; what is left of the buffer.
  unfoldable pub drain : ℕ → Text → WireAction S E Text
  drain zero buf = pure buf
  drain (suc n) buf = elim (cut_line buf) [
    | none ↦ pure buf
    | some (line, rest) ↦ answer_line line >> drain n rest
  ]

  -- Each line takes two characters at least.
  unfoldable pub settle : Text → WireAction S E Text
  settle buf = drain (length buf) buf

  -- The buffer after some bytes.
  unfoldable pub feed : Text → List ℕ → WireAction S E Text
  feed buf data' = settle (buf ++ decode_replace data')

  -- The loop over `recv`, up to the end of the stream, a reset, or the stop of the server, which is
  -- the end of the list.
  unfoldable pub listen : Text → List Received → WireAction S E Unit
  listen buf [] = pure tt
  listen buf (reset ∷ rs) = pure tt
  listen buf (bytes [] ∷ rs) = pure tt
  listen buf (bytes (b ∷ bs) ∷ rs) = feed buf (b ∷ bs) >>= λ buf. listen buf rs

-- What a line of a connection meets: what other threads did since the last one, and the clock.
pub record Moment : Type 0 where
  pub others : Server → Server
  pub world : World

-- The server, and how many lines this connection has had served.
pub record Serving : Type 0 where
  pub server : Server
  pub served : ℕ

unfoldable pub serve_line : (ℕ → Moment) → Text → Text → Action Serving ServerError Text
serve_line moments id line v =
    let m = moments v.served in
    let (o, s) = dispatch m.world id line (m.others v.server) in
    (o, record { server = s; served = v.served + 1 })

-- `finally`: a thread that waits for ever does not come to it.
unfoldable pub leave :
    Text → Outcome ServerError Unit × Wire Serving → Outcome ServerError Unit × (List ℕ × Server)
leave id (ok u, w) = let (o, s) = unregister_consumer id w.inner.server in (o, (w.sent, s))
leave id (raised e, w) = (raised e, (w.sent, w.inner.server))

-- The bytes that were sent, and the server after the connection.
unfoldable pub handle_client :
    (ℕ → Moment) → List Received → Server → Outcome ServerError Unit × (List ℕ × Server)
unfolding leave serve_line
handle_client moments received s =
    let (id, s') = register_consumer s in
    let welcome = encode (ok_response (codes "Welcome! Your ID: " ++ id)) in
    leave id (
      listen (serve_line moments id) [] received
        (record { sent = welcome; inner = record { server = s'; served = 0 } }))
