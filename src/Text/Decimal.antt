-- ===== src/Text/Decimal.antt =====
-- `str(n)` of a natural number, the format `{n:06d}`, and `int(s)`.
pub mod Value
use ai_coding_training.Base.{
  ℕ, zero, suc, ◌+◌, ◌-◌, ◌*◌, ◌/◌, ◌%◌, Bool, false, ◌&&◌, ◌||◌, Option, none, some, [], ◌∷◌, ◌++◌,
  ltb, leb, ◌==◌, if◌then◌else◌, length,
}
use ai_coding_training.Base.Int.{ℤ, pos, negsuc}
use ai_coding_training.Text.{Text}
use ai_coding_training.Text.Words.{strip}

-- The digits of `n`, on fuel above `n`, before `acc`.
unfoldable pub digits_from : ℕ → ℕ → Text → Text
digits_from zero n acc = acc
digits_from (suc fuel) n acc =
    let rest = digits_from fuel (n / 10) ((b'0' + n % 10) ∷ acc) in
    if ltb n 10 then (b'0' + n) ∷ acc else rest

unfoldable pub decimal : ℕ → Text
unfolding digits_from
decimal n = digits_from (suc n) n []

unfoldable pub is_digit : ℕ → Bool
is_digit c = leb b'0' c && leb c b'9'

-- The digits of an `int` literal: an underscore may stand between two of them. `after` says that
-- the last character was a digit.
unfoldable pub number_from : Bool → ℕ → Text → Option ℕ
unfolding is_digit
number_from after n [] = if after then some n else none
number_from after n (c ∷ s) =
    let rest = number_from (is_digit c) (if is_digit c then n * 10 + (c - b'0') else n) s in
    if is_digit c || (c == b'_' && after) then rest else none

abbrev negate : ℕ → ℤ
negate zero = pos 0
negate (suc n) = negsuc n

abbrev pub map_ℤ : (ℕ → ℤ) → Option ℕ → Option ℤ
map_ℤ f none = none
map_ℤ f (some n) = some (f n)

-- A sign, and then digits.
unfoldable pub signed : Text → Option ℤ
unfolding number_from
signed [] = none
signed (c ∷ s) =
    if c == b'-'
    then map_ℤ negate (number_from false 0 s)
    else if c == b'+'
    then map_ℤ pos (number_from false 0 s)
    else map_ℤ pos (number_from false 0 (c ∷ s))

-- `int(s)` on the digits of ASCII; `none` stands for its `ValueError`.
unfoldable pub int : Text → Option ℤ
unfolding signed strip
int s = signed (strip s)

abbrev pub zeros : ℕ → Text
zeros zero = []
zeros (suc n) = b'0' ∷ zeros n

-- `{n:06d}`
unfoldable pub padded : ℕ → ℕ → Text
unfolding decimal
padded width n = zeros (width - length (decimal n)) ++ decimal n
