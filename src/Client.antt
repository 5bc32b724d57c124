-- ===== src/Client.antt =====
-- client.py: `MQClient`, the prompt, and `main`. What the network gives is an argument: what a dialled
-- address answers, and on a connection what each call of `recv` gives.
pub mod Help
pub mod Answers
pub mod Exchange
use ai_coding_training.Base.{
  ℕ, ◌+◌, Bool, true, false, Option, none, some, List, [], ◌∷◌, ◌++◌, if◌then◌else◌, ◌||◌,
}
use ai_coding_training.Base.Int.{ℤ, pos, negsuc}
use ai_coding_training.Base.Action.{
  Outcome, ok, raised, Action, pure, raise, gets, modify, ◌>>=◌, ◌>>◌,
}
use ai_coding_training.Text.{Text, codes, text_eq, is_empty}
use ai_coding_training.Text.Decimal.{decimal, int}
use ai_coding_training.Text.Lines.{crlf, cut_line}
use ai_coding_training.Text.Lower.{lower}
use ai_coding_training.Text.Replace.{decode_replace}
use ai_coding_training.Text.Utf8.{encode}
use ai_coding_training.Text.Words.{strip, join}
use ai_coding_training.Client.Help.{help_text}

-- The `OSError`s of the socket.
pub data NetError : Type 0 where
  refused timed_out reset_by_peer not_connected : NetError

-- What one call of `recv` gives: bytes, of which none are the end of the stream, or a reset.
pub data Arrival : Type 0 where
  bytes : List ℕ → Arrival
  reset : Arrival

-- A socket: whether it is connected, and what will arrive; past the end of the list `recv` times out.
pub record Socket : Type 0 where
  pub connected : Bool
  pub incoming : List Arrival

-- What `connect` meets at an address.
abbrev pub Network : Type 0
Network = Text → ℤ → Outcome NetError (List Arrival)

-- `MQClient`, with what it has sent and printed.
pub record Client : Type 0 where
  pub host : Text
  pub port : ℤ
  pub sock : Option Socket
  pub sent : List ℕ
  pub printed : List Text
  pub errors : List Text

abbrev pub init : Client
init = record {
  host = codes "localhost";
  port = pos 9876;
  sock = none;
  sent = [];
  printed = [];
  errors = [];
}

abbrev pub ClientAction : Type 0 → Type 0
ClientAction = Action Client NetError

abbrev pub has_break : List ℕ → Bool
has_break bs = elim (cut_line bs) [ none ↦ false | some p ↦ true ]

-- The loop of `_recv`: the bytes up to the chunk in which the first line ends, and what is to come.
unfoldable pub recv_from : List ℕ → List Arrival → Outcome NetError (List ℕ) × List Arrival
recv_from got [] = if has_break got then (ok got, []) else (raised timed_out, [])
recv_from got (reset ∷ later) =
    if has_break got then (ok got, reset ∷ later) else (raised reset_by_peer, later)
recv_from got (bytes [] ∷ later) = (ok got, bytes [] ∷ later)
recv_from got (bytes (b ∷ bs) ∷ later) =
    let more = recv_from (got ++ b ∷ bs) later in
    if has_break got then (ok got, bytes (b ∷ bs) ∷ later) else more

abbrev pub answer_text : Outcome NetError (List ℕ) → Outcome NetError Text
answer_text (ok bs) = ok (strip (decode_replace bs))
answer_text (raised e) = raised e

-- `recv` of a socket that is not connected raises.
unfoldable pub recv_on : Option Socket → ClientAction Text
recv_on none c = (raised not_connected, c)
recv_on (some k) c =
    if k.connected
    then (let (o, later) = recv_from [] k.incoming in
        (answer_text o, record c { sock = some (record k { incoming = later }) }))
    else (raised not_connected, c)

unfoldable pub recv : ClientAction Text
unfolding recv_on
recv c = recv_on c.sock c

unfoldable pub say : Text → ClientAction Unit
say t c = (ok tt, record c { printed = c.printed ++ t ∷ [] })

-- The socket is there before it is connected, and stays when `connect` raises.
unfoldable pub dialled : Outcome NetError (List Arrival) → ClientAction Unit
dialled (ok later) c =
    (ok tt, record c { sock = some (record { connected = true; incoming = later }) })
dialled (raised e) c =
    (raised e, record c { sock = some (record { connected = false; incoming = [] }) })

unfoldable pub connect : Network → ClientAction Unit
unfolding dialled
connect net = do (λ c. dialled (net c.host c.port) c); welcome ← recv; say welcome

unfoldable pub sendall : Option Socket → List ℕ → ClientAction Unit
sendall none bs c = (raised not_connected, c)
sendall (some k) bs c =
    if k.connected then (ok tt, record c { sent = c.sent ++ bs }) else (raised not_connected, c)

-- `try: sendall(b"QUIT\r\n") except OSError: pass`, then `close`; closing raises nothing here.
unfoldable pub disconnect : ClientAction Unit
unfolding sendall
disconnect c = elim c.sock [
  | none ↦ (ok tt, c)
  | some k ↦ (ok tt, record (sendall (some k) (codes "QUIT" ++ crlf) c).1 { sock = none })
]

unfoldable pub connect_if_needed : Network → Option Socket → ClientAction Unit
connect_if_needed net none = connect net
connect_if_needed net (some k) = pure tt

unfoldable pub send : Network → Text → ClientAction Text
unfolding connect_if_needed
send net command = do
  (λ c. connect_if_needed net c.sock c)
  (λ c. sendall c.sock (encode (strip command ++ crlf)) c)
  recv

-- `port` is printed as `str` has it.
unfoldable pub decimal_of : ℤ → Text
decimal_of (pos n) = decimal n
decimal_of (negsuc n) = b'-' ∷ decimal (n + 1)

-- Whether the prompt has ended, or still waits for a line.
pub data Repl : Type 0 where
  finished waiting : Repl

unfoldable pub leave : ClientAction Repl
unfolding disconnect
leave = do disconnect; pure finished

-- The words that end the prompt.
unfoldable pub is_quit : Text → Bool
is_quit word =
    text_eq word (codes "quit") || text_eq word (codes "exit") || text_eq word (codes "q")

module _ (net : Network) (describe : NetError → Text) where
  -- `print(response)`, or the text of what `send` raised, which ends the prompt.
  abbrev pub shown :
      ClientAction Repl → Outcome NetError Text × Client → Outcome NetError Repl × Client
  shown more (ok response, c) = (say response >> more) c
  shown more (raised e, c) = (say (codes "Connection error: " ++ describe e) >> leave) c

  -- One line of the prompt, without the white space round it.
  unfoldable pub prompt_line : ClientAction Repl → Text → ClientAction Repl
  unfolding leave
  prompt_line more line =
      if is_empty line
      then more
      else if is_quit (lower line)
      then leave
      else if text_eq (lower line) (codes "help")
      then say help_text >> more
      else (λ c. shown more (send net line c))

  -- The loop of `repl`; `none` is the end of the input, or an interrupt.
  unfoldable pub prompt : List (Option Text) → ClientAction Repl
  unfolding prompt_line
  prompt [] = pure waiting
  prompt (none ∷ lines) = do say (b'\n' ∷ codes "Bye!"); leave
  prompt (some raw ∷ lines) = let more = prompt lines in prompt_line more (strip raw)

  unfoldable pub repl : List (Option Text) → ClientAction Repl
  unfolding prompt decimal_of
  repl lines = do
    say (codes "MQ Client REPL — type 'help' for commands, 'quit' to exit.")
    address ← gets (λ c. c.host ++ b':' ∷ decimal_of c.port)
    say (codes "Connected to " ++ address)
    prompt lines

-- How the program ends: with a status, at the prompt, or by an exception that `main` does not catch;
-- `none` is the `ValueError` of a port that is no number.
pub data Exit : Type 0 where
  exit : ℕ → Exit
  at_prompt : Exit
  uncaught : Option NetError → Exit

module _ (net : Network) (describe : NetError → Text) where
  abbrev pub exit_of : Outcome NetError Repl × Client → Exit × Client
  exit_of (ok finished, c) = (exit 0, c)
  exit_of (ok waiting, c) = (at_prompt, c)
  exit_of (raised e, c) = (uncaught (some e), c)

  -- `client.py connect <host> <port>`
  unfoldable pub main_connect : Text → Option ℤ → List (Option Text) → Client → Exit × Client
  main_connect host none lines c = (uncaught none, record c { host = host })
  main_connect host (some port) lines c =
      exit_of ((connect net >> repl net describe lines) (record c { host = host; port = port }))

  unfoldable pub print_error : NetError → Client → Client
  print_error e c = record c { errors = c.errors ++ (codes "Error: " ++ describe e) ∷ [] }

  -- After `send` in single-command mode: the answer, or the error and status 1; then `finally`.
  abbrev pub single : Outcome NetError Text × Client → Exit × Client
  single (ok response, c) = (exit 0, ((say response >> disconnect) c).1)
  single (raised e, c) = (exit 1, (disconnect (print_error e c)).1)

  unfoldable pub main_command : List Text → Client → Exit × Client
  unfolding print_error
  main_command args c = single (send net (join (b' ' ∷ []) args) c)

  -- After `connect` in interactive mode.
  abbrev pub interactive : List (Option Text) → Outcome NetError Unit × Client → Exit × Client
  interactive lines (ok u, c) = exit_of (repl net describe lines c)
  interactive lines (raised e, c) = (
    exit 1,
    ((do
      address ← gets (λ c. c.host ++ b':' ∷ decimal_of c.port)
      say (codes "Cannot connect to " ++ address ++ codes ": " ++ describe e)
      say (codes "Start the server first: python -m src.main"))
        c).1,
  )

  -- `main`, by the arguments behind the name of the program.
  unfoldable pub main : List Text → List (Option Text) → Exit × Client
  unfolding main_connect main_command
  main [] lines = interactive lines (connect net init)
  main (cmd ∷ host ∷ port ∷ args) lines =
      if text_eq cmd (codes "connect")
      then main_connect host (int port) lines init
      else main_command (cmd ∷ host ∷ port ∷ args) init
  main (cmd ∷ args) lines = main_command (cmd ∷ args) init
