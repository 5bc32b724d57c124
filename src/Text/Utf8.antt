-- ===== src/Text/Utf8.antt =====
-- UTF-8, as `str.encode("utf-8")` and the strict `bytes.decode("utf-8")` have it.
pub mod RoundTrip
pub mod Breaks
use ai_coding_training.Base.{
  ℕ, zero, suc, ◌+◌, ◌-◌, ◌*◌, ◌/◌, ◌%◌, ◌≤◌, ◌<◌, ◌≡◌, refl, ◌⊎◌, inl, inr, Bool, true, false,
  ◌&&◌, Option, none, some, List, [], ◌∷◌, ◌++◌, arith, leb, ltb, ◌==◌, if◌then◌else◌, length, All,
  append_assoc, length-append,
}
use ai_coding_training.Text.{Text}

-- A text that can be encoded has no surrogate in it, and no number past the last code point.
abbrev pub IsScalar : ℕ → Type 0
IsScalar c = (c < 0x110000) × ((c < 0xd800) ⊎ (0xe000 ≤ c))

abbrev pub IsText : Text → Type 0
IsText = All IsScalar

unfoldable pub encode_char : ℕ → List ℕ
encode_char c =
    if ltb c 0x80
    then c ∷ []
    else if ltb c 0x800
    then (0xc0 + c / 64) ∷ (0x80 + c % 64) ∷ []
    else if ltb c 0x10000
    then (0xe0 + c / 4096) ∷ (0x80 + c / 64 % 64) ∷ (0x80 + c % 64) ∷ []
    else (0xf0 + c / 262144) ∷ (0x80 + c / 4096 % 64) ∷ (0x80 + c / 64 % 64) ∷ (0x80 + c % 64) ∷ []

-- `s.encode("utf-8")`, which Python has only for a text without surrogates.
unfoldable pub encode : Text → List ℕ
unfolding encode_char
encode [] = []
encode (c ∷ s) = encode_char c ++ encode s

-- A character under way: the bytes still to come, its value so far, the range of the next byte.
pub record Partial : Type 0 where
  pub pending : ℕ
  pub value : ℕ
  pub low : ℕ
  pub high : ℕ

abbrev pub start : Partial
start = record { pending = 0; value = 0; low = 0; high = 0 }

-- What a byte leads to: a whole character, more bytes to come, or an error.
pub data Progress : Type 0 where
  whole : ℕ → Progress
  more : Partial → Progress
  bad : Progress

unfoldable pub first_byte : ℕ → Progress
first_byte b =
    if ltb b 0x80
    then whole b
    else if ltb b 0xc2
    then bad
    else if ltb b 0xe0
    then more (record { pending = 1; value = b - 0xc0; low = 0x80; high = 0xbf })
    else if b == 0xe0
    then more (record { pending = 2; value = 0; low = 0xa0; high = 0xbf })
    else if b == 0xed
    then more (record { pending = 2; value = 13; low = 0x80; high = 0x9f })
    else if ltb b 0xf0
    then more (record { pending = 2; value = b - 0xe0; low = 0x80; high = 0xbf })
    else if b == 0xf0
    then more (record { pending = 3; value = 0; low = 0x90; high = 0xbf })
    else if ltb b 0xf4
    then more (record { pending = 3; value = b - 0xf0; low = 0x80; high = 0xbf })
    else if b == 0xf4
    then more (record { pending = 3; value = 4; low = 0x80; high = 0x8f })
    else bad

unfoldable pub next_byte : Partial → ℕ → Progress
next_byte p b =
    let v = p.value * 64 + (b - 0x80) in
    if leb p.low b && leb b p.high
    then (if p.pending == 1
        then whole v
        else more (record { pending = p.pending - 1; value = v; low = 0x80; high = 0xbf }))
    else bad

unfoldable pub step : Partial → ℕ → Progress
unfolding first_byte next_byte
step p b = if p.pending == 0 then first_byte b else next_byte p b

abbrev pub cons_option : ℕ → Option Text → Option Text
cons_option c none = none
cons_option c (some s) = some (c ∷ s)

-- `none` stands for `UnicodeDecodeError`.
unfoldable pub decode_from : Partial → List ℕ → Option Text
decode_from p [] = if p.pending == 0 then some [] else none
decode_from p (b ∷ bs) = elim (step p b) [
  | whole c ↦ cons_option c (decode_from start bs)
  | more q ↦ decode_from q bs
  | bad ↦ none
]

unfoldable pub decode : List ℕ → Option Text
unfolding decode_from step
decode = decode_from start
