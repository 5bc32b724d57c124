-- ===== src/Client/Exchange.antt =====
-- A command from client.py to src/server.py and its answer back.
use ai_coding_training.Base.{
  ℕ, ◌≡◌, refl, sym, ap, append-nil, ◌∙◌, false, none, List, [], ◌∷◌, ◌++◌, map, All,
}
use ai_coding_training.Base.Action.{ok, Action, pure, ◌>>◌, bind-ok, bind_assoc}
use ai_coding_training.Text.{Text, is_empty}
use ai_coding_training.Text.Lines.{crlf, cut_line}
use ai_coding_training.Text.Utf8.{encode, IsText}
use ai_coding_training.Text.Utf8.Breaks.{encode-append}
use ai_coding_training.Text.Words.{strip, strip_idem}
use ai_coding_training.Client.{Client, Network, Arrival, bytes, send}
use ai_coding_training.Client.Answers.{IsChunk, IsLine, awaiting, send-line}
use ai_coding_training.Server.Connection.{Wire, answer_line}
use ai_coding_training.Server.Connection.Chunks.{
  concat, lined, answer_each, feed_all, feed_all-lined,
}

module _ {S E : Type 0} (serve : Text → Action S E Text) where
  -- A line that is answered.
  answer_line-ok :
      (line response : Text) (s' : S) (w : Wire S)
      → is_empty (strip line) ≡ false
      → serve (strip line) w.inner ≡ (ok response, s')
      → answer_line serve line w ≡ (ok tt, record { sent = w.sent ++ encode response; inner = s' })
  unfolding answer_line
  answer_line-ok line response s' w h e = rw (h, e) refl

  -- The bytes of one command are one line, however they are cut between characters.
  feed-command :
      (command response : Text) (ts : List Text) (s' : S) (w : Wire S)
      → All IsText ts
      → concat ts ≡ strip command ++ crlf
      → cut_line (strip command) ≡ none
      → is_empty (strip command) ≡ false
      → serve (strip command) w.inner ≡ (ok response, s')
      → feed_all serve [] (map encode ts) w
        ≡ (ok [], record { sent = w.sent ++ encode response; inner = s' })
  unfolding lined answer_each
  feed-command command response ts s' w texts whole single some_text e =
      let line = strip command in
      let answered : answer_line serve line w
          ≡ (ok tt, record { sent = w.sent ++ encode response; inner = s' }) =
        answer_line-ok line response s' w (rw (strip_idem command) some_text)
          (rw (strip_idem command) e) in
      feed_all-lined serve ts (line ∷ []) [] w texts (whole ∙ sym (append-nil (line ++ crlf)))
        (single, tt) (unfold cut_line in refl)
      ∙ bind_assoc (answer_line serve line) (λ _. answer_each serve []) (λ _. pure []) w
      ∙ bind-ok (answer_line serve line) (λ _. answer_each serve [] >> pure []) w answered

  concat-encode : (ts : List Text) → concat (map encode ts) ≡ encode (concat ts)
  unfolding concat encode
  concat-encode [] = refl
  concat-encode (t ∷ ts) = rw (concat-encode ts) (sym (encode-append t (concat ts)))

  -- A command without a break or a surrogate, not blank, that a client sends over its open
  -- connection, and whose bytes reach a connection of the server with an empty buffer in any number
  -- of chunks, as a `recv` of at most 4096 bytes makes of a long command, none of which ends within
  -- a character: the command is served once, as the one line that it is. When the answer is one
  -- line, the client gets that answer, without the white space round it, however its bytes are cut
  -- into chunks on their way.
  pub exchange :
      (net : Network) (command response : Text) (ts : List Text) (cs : List (List ℕ))
      (later : List Arrival) (c : Client) (s' : S) (w : Wire S)
      → All IsText ts
      → concat ts ≡ strip command ++ crlf
      → cut_line (strip command) ≡ none
      → is_empty (strip command) ≡ false
      → serve (strip command) w.inner ≡ (ok response, s')
      → IsLine response
      → All IsChunk cs
      → concat cs ≡ encode response
      → let chunks = map encode ts in
        (feed_all serve [] chunks w
          ≡ (ok [], record { sent = w.sent ++ encode response; inner = s' }))
        × (send net command (awaiting (map bytes cs ++ later) c)
            ≡ (ok (strip response), awaiting later (record c { sent = c.sent ++ concat chunks })))
  exchange net command response ts cs later c s' w texts whole single some_text served answer chunks
        e =
      (
        feed-command command response ts s' w texts whole single some_text served,
        send-line net command response cs later c answer chunks e
            ∙ ap
                (λ (bs : List ℕ).
                  (ok (strip response), awaiting later (record c { sent = c.sent ++ bs })))
                (sym (concat-encode ts ∙ ap encode whole)),
      )
