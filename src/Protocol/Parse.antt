-- ===== src/Protocol/Parse.antt =====
-- `parse_command`: what the commands that it accepts look like, and what becomes of a message body.
use ai_coding_training.Base.{
  ◌≤◌, ◌≡◌, ◌≢◌, refl, ap, sym, ◌∙◌, Bool, true, false, ◌||◌, List, [], ◌∷◌, ◌++◌, ltb, length,
  arith, Bool-cases, ◌⊎◌, inl, inr,
}
use ai_coding_training.Base.Action.{ok, raised}
use ai_coding_training.Dict.{lookup}
use ai_coding_training.Text.{Text, codes, text_eq, is_empty, text_eq→eq}
use ai_coding_training.Text.Words.{
  strip, split, join, upper, free_of, split-append, join-split, split-cons,
}
use ai_coding_training.Members.{mem}
use ai_coding_training.Protocol.{
  Command, valid_commands, min_args_of, with_body, parse_args, parse_parts, parse_command,
  empty_command, unknown_command, requires_args,
}

-- A command that the server knows, with the arguments that it asks for.
abbrev pub WellFormed : Command → Type 0
WellFormed c = (mem c.name valid_commands ≡ true) × (min_args_of c.name ≤ length c.args)

-- The two commands whose last argument is a message body.
unfoldable pub has_body : Text → Bool
has_body name = text_eq name (codes "PUBLISH") || text_eq name (codes "SEND")

has_body-cases :
    (name : Text) → has_body name ≡ true → (name ≡ codes "PUBLISH") ⊎ (name ≡ codes "SEND")
unfolding has_body
has_body-cases name h = elim (Bool-cases (text_eq name (codes "PUBLISH"))) [
  | inl p ↦ inl (text_eq→eq name _ p)
  | inr p ↦ inr (text_eq→eq name _ (ground arith))
]

-- A target and a body are what the two commands with a body ask for.
body_command :
    (name target body : Text)
    → has_body name ≡ true
    → WellFormed (record { name = name; args = target ∷ body ∷ [] })
unfolding mem min_args_of text_eq lookup
body_command name target body h = elim (has_body-cases name h) [
  | inl e ↦ rw e (refl, ground arith)
  | inr e ↦ rw e (refl, ground arith)
]

with_body-WellFormed :
    (name : Text) (args : List Text) (c : Command)
    → has_body name ≡ true
    → with_body name args ≡ ok c
    → WellFormed c
unfolding with_body
with_body-WellFormed name [] c h e = cc
with_body-WellFormed name (t ∷ []) c h e = cc
with_body-WellFormed name (t ∷ w ∷ ws) c h e =
    let body = join (b' ' ∷ []) (w ∷ ws) in
    let i : (record { name = name; args = t ∷ body ∷ [] }) ≡ c = cc in
    rw (← i) (body_command name t body h)

parse_args-WellFormed :
    (name : Text) (args : List Text) (c : Command) → parse_args name args ≡ ok c → WellFormed c
unfolding parse_args has_body
parse_args-WellFormed name args c e = elim (Bool-cases (mem name valid_commands)) [
  | inl known ↦ elim (Bool-cases (has_body name)) [
    | inl b ↦
        let x : parse_args name args ≡ with_body name args = rw (known, b) refl in
        with_body-WellFormed name args c b (sym x ∙ e)
    | inr b ↦ elim (Bool-cases (ltb (length args) (min_args_of name))) [
      | inl few ↦
          let x : parse_args name args
              ≡ raised (requires_args name (min_args_of name) (length args)) =
            rw (known, b, few) refl in
          cc
      | inr enough ↦
          let x : parse_args name args ≡ ok (record { name = name; args = args }) =
            rw (known, b, enough) refl in
          let i : (record { name = name; args = args }) ≡ c = cc in rw (← i) (known, ground arith)
    ]
  ]
  | inr unknown ↦
      let x : parse_args name args ≡ raised (unknown_command name) = rw unknown refl in cc
]

parse_parts-WellFormed : (parts : List Text) (c : Command) → parse_parts parts ≡ ok c → WellFormed c
unfolding parse_parts
parse_parts-WellFormed [] c e = cc
parse_parts-WellFormed (part ∷ args) c e = parse_args-WellFormed (upper part) args c e

parse_line :
    (raw : Text)
    → is_empty (strip raw) ≡ false
    → parse_command raw ≡ parse_parts (split b' ' (strip raw))
unfolding parse_command
parse_line raw h = rw h refl

parse_blank : (raw : Text) → is_empty (strip raw) ≡ true → parse_command raw ≡ raised empty_command
unfolding parse_command
parse_blank raw h = rw h refl

-- Whatever line the parser accepts, its command is one of those that the server knows, with at
-- least the arguments that this command asks for.
pub parse_command-WellFormed : (raw : Text) (c : Command) → parse_command raw ≡ ok c → WellFormed c
parse_command-WellFormed raw c e = elim (Bool-cases (is_empty (strip raw))) [
  | inl blank ↦ let x = parse_blank raw blank in cc
  | inr line ↦ parse_parts-WellFormed (split b' ' (strip raw)) c (sym (parse_line raw line) ∙ e)
]

with_body-words :
    (name target : Text) (ws : List Text)
    → ws ≢ []
    → with_body name (target ∷ ws)
      ≡ ok (record { name = name; args = target ∷ join (b' ' ∷ []) ws ∷ [] })
unfolding with_body
with_body-words name target [] h = absurd (h refl)
with_body-words name target (w ∷ ws) h = refl

line-nonempty : (word rest : Text) → is_empty (word ++ b' ' ∷ rest) ≡ false
line-nonempty [] rest = refl
line-nonempty (c ∷ word) rest = refl

-- Where a line, without the white space at its ends, is a word that is PUBLISH or SEND in upper
-- case, a target without spaces and a body, with one space between them, the parser returns that
-- command with the target and the body as they are, spaces in the body included.
pub parse_command-body :
    (raw word target body : Text)
    → strip raw ≡ word ++ b' ' ∷ (target ++ b' ' ∷ body)
    → free_of b' ' word ≡ true
    → free_of b' ' target ≡ true
    → has_body (upper word) ≡ true
    → parse_command raw ≡ ok (record { name = upper word; args = target ∷ body ∷ [] })
unfolding parse_parts parse_args has_body
parse_command-body raw word target body line w t h =
    let full : is_empty (strip raw) ≡ false =
      rw line (line-nonempty word (target ++ b' ' ∷ body)) in
    let known = (body_command (upper word) target body h).0 in
    let parts =
      split-append b' ' word (target ++ b' ' ∷ body) w
      ∙ ap (λ ws. word ∷ ws) (split-append b' ' target body t) in
    parse_line raw full
    ∙ rw
        (
          line,
          parts,
          known,
          h,
          with_body-words (upper word) target (split b' ' body) (split-cons b' ' body),
          join-split b' ' body,
        )
        refl
