-- ===== src/Client/Answers.antt =====
-- What `send` of client.py gives: one line of the server, however it arrives.
use ai_coding_training.Base.{
  ℕ, ◌≡◌, ◌≢◌, refl, sym, ap, ◌∙◌, true, false, none, some, List, [], ◌∷◌, ◌++◌, map, append-nil,
  append_assoc, All, Option-cases, inl, inr,
}
use ai_coding_training.Base.Action.{ok, pure, ◌>>=◌, bind-ok}
use ai_coding_training.Text.{Text}
use ai_coding_training.Text.Lines.{crlf, cut_line, cut_line-append, cut_line-line, some-pair}
use ai_coding_training.Text.Utf8.{encode, encode_char, IsText}
use ai_coding_training.Text.Utf8.Breaks.{cut_line-encode, encode-append}
use ai_coding_training.Text.Replace.{decode_replace-encode}
use ai_coding_training.Text.Words.{strip}
use ai_coding_training.Client.{
  Client, ClientAction, Network, Arrival, bytes, reset, recv_from, recv_on, recv, send, sendall,
  has_break, connect_if_needed,
}
use ai_coding_training.Server.Connection.Chunks.{concat}

-- Chunks of one byte at least.
abbrev pub IsChunk : List ℕ → Type 0
IsChunk bs = bs ≢ []

recv_done :
    (got : List ℕ) (later : List Arrival)
    → has_break got ≡ true
    → recv_from got later ≡ (ok got, later)
unfolding recv_from
recv_done got [] h = rw h refl
recv_done got (reset ∷ later) h = rw h refl
recv_done got (bytes [] ∷ later) h = refl
recv_done got (bytes (b ∷ bs) ∷ later) h = rw h refl

append_nil_right : (xs ys : List ℕ) → xs ++ ys ≡ [] → ys ≡ []
append_nil_right [] ys h = h
append_nil_right (x ∷ xs) ys h = absurd cc

-- A part of one line has no break before the break at its end.
no_break-part :
    (got more : List ℕ) (line : Text)
    → cut_line (got ++ more) ≡ some (line, [])
    → more ≢ []
    → has_break got ≡ false
no_break-part got more line h ne = elim (Option-cases (cut_line got)) [
  | inl e ↦ rw (e, has_break) refl
  | inr ((l, r), e) ↦
      let x = some-pair (l, r ++ more) (line, []) (sym (cut_line-append got more l r e) ∙ h) in
      absurd (ne (append_nil_right r more x.1))
]

recv_more :
    (got : List ℕ) (b : ℕ) (bs : List ℕ) (later : List Arrival)
    → has_break got ≡ false
    → recv_from got (bytes (b ∷ bs) ∷ later) ≡ recv_from (got ++ b ∷ bs) later
unfolding recv_from
recv_more got b bs later h = rw h refl

-- The loop of `_recv` over the chunks of one line.
recv_from-chunks :
    (got : List ℕ) (cs : List (List ℕ)) (line : Text) (later : List Arrival)
    → All IsChunk cs
    → cut_line (got ++ concat cs) ≡ some (line, [])
    → recv_from got (map bytes cs ++ later) ≡ (ok (got ++ concat cs), later)
unfolding concat
recv_from-chunks got [] line later h e =
    let e' : cut_line got ≡ some (line, []) = ap cut_line (sym (append-nil got)) ∙ e in
    recv_done got later (rw (e', has_break) refl) ∙ ap (λ bs. (ok bs, later)) (sym (append-nil got))
recv_from-chunks got ([] ∷ cs) line later h e = absurd (h.0 refl)
recv_from-chunks got ((b ∷ bs) ∷ cs) line later h e =
    let whole : (got ++ b ∷ bs) ++ concat cs ≡ got ++ (b ∷ bs ++ concat cs) =
      append_assoc got (b ∷ bs) (concat cs) in
    let unfinished = no_break-part got (b ∷ bs ++ concat cs) line e (λ x. cc) in
    let rest = recv_from-chunks (got ++ b ∷ bs) cs line later h.1 (ap cut_line whole ∙ e) in
    recv_more got b bs (map bytes cs ++ later) unfinished ∙ rest ∙ ap (λ bs. (ok bs, later)) whole

-- One line of the server: a text without a break or a surrogate, and its break.
pub record IsLine (answer : Text) : Type 0 where
  pub line : Text
  pub ends : answer ≡ line ++ crlf
  pub single : cut_line line ≡ none
  pub scalar : IsText answer

-- A client with an open connection on which some arrivals are to come.
abbrev pub awaiting : List Arrival → Client → Client
awaiting later c = record c { sock = some (record { connected = true; incoming = later }) }

encode-crlf : encode crlf ≡ crlf
unfolding encode encode_char
encode-crlf = refl

encoded_line :
    (answer : Text) → (a : IsLine answer) → cut_line (encode answer) ≡ some (encode a.line, [])
encoded_line answer a =
    ap (λ t. cut_line (encode t)) a.ends
    ∙ ap cut_line (encode-append a.line crlf)
    ∙ ap (λ t. cut_line (encode a.line ++ t)) encode-crlf
    ∙ ap cut_line (sym (append-nil (encode a.line ++ crlf)))
    ∙ cut_line-line (encode a.line) [] (cut_line-encode a.line a.single)

some-none : (p : Text × Text) → some p ≢ none
some-none p h = cc

line-IsChunk : (answer : Text) → IsLine answer → IsChunk (encode answer)
line-IsChunk answer a e =
    let empty : cut_line [] ≡ none = unfold cut_line in refl in
    some-none (encode a.line, []) (sym (encoded_line answer a) ∙ ap cut_line e ∙ empty)

-- `_recv` gives the one line that arrives, however it is cut into chunks.
recv-line :
    (answer : Text) (cs : List (List ℕ)) (later : List Arrival) (c : Client)
    → IsLine answer
    → All IsChunk cs
    → concat cs ≡ encode answer
    → recv (awaiting (map bytes cs ++ later) c) ≡ (ok (strip answer), awaiting later c)
unfolding recv recv_on
recv-line answer cs later c a h e =
    let got =
      recv_from-chunks [] cs (encode a.line) later h (ap cut_line e ∙ encoded_line answer a) in
    rw (got, e, decode_replace-encode answer a.scalar) refl

-- On an open connection, `send` puts the command, without the white space round it and with a break
-- behind it, behind what was sent, and gives the one line that arrives, however it is cut into chunks.
pub send-line :
    (net : Network) (command answer : Text) (cs : List (List ℕ)) (later : List Arrival) (c : Client)
    → IsLine answer
    → All IsChunk cs
    → concat cs ≡ encode answer
    → send net command (awaiting (map bytes cs ++ later) c) ≡ (
      ok (strip answer),
      awaiting later (record c { sent = c.sent ++ encode (strip command ++ crlf) }),
    )
unfolding send connect_if_needed sendall
send-line net command answer cs later c a h e =
    recv-line answer cs later (record c { sent = c.sent ++ encode (strip command ++ crlf) }) a h e

-- Two commands, one after the other, and what each gives.
abbrev pub send_two : Network → Text → Text → ClientAction (Text × Text)
send_two net command next = do x ← send net command; y ← send net next; pure (x, y)

-- An answer of two lines that arrives in two chunks, a line in each, is not read whole: `send` gives
-- its first line, and the next command is answered by its second line.
pub send-send :
    (net : Network) (command next first second : Text) (later : List Arrival) (c : Client)
    → IsLine first
    → IsLine second
    → (send_two net command next
        (awaiting (bytes (encode first) ∷ bytes (encode second) ∷ later) c)).0
      ≡ ok (strip first, strip second)
unfolding concat
send-send net command next first second later c a b =
    let c' = record c { sent = c.sent ++ encode (strip command ++ crlf) } in
    let one =
      send-line net command first (encode first ∷ []) (bytes (encode second) ∷ later) c a
        (line-IsChunk first a, tt) (append-nil (encode first)) in
    let two =
      send-line net next second (encode second ∷ []) later c' b (line-IsChunk second b, tt)
        (append-nil (encode second)) in
    let after : Text → ClientAction (Text × Text) = λ x. (do y ← send net next; pure (x, y)) in
    ap (λ p. p.0)
      (bind-ok (send net command) after
          (awaiting (bytes (encode first) ∷ bytes (encode second) ∷ later) c) one
        ∙ bind-ok (send net next) (λ y. pure (strip first, y))
            (awaiting (bytes (encode second) ∷ later) c') two)
