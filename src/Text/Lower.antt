-- ===== src/Text/Lower.antt =====
-- `str.lower`, for ASCII and for the one character outside ASCII whose lower case is in ASCII alone.
use ai_coding_training.Base.{ℕ, ◌+◌, ◌&&◌, [], ◌∷◌, leb, ◌==◌, if◌then◌else◌}
use ai_coding_training.Text.{Text}

unfoldable pub lower_char : ℕ → ℕ
lower_char c = if leb b'A' c && leb c b'Z' then c + 32 else if c == 0x212a then b'k' else c

unfoldable pub lower : Text → Text
unfolding lower_char
lower [] = []
lower (c ∷ s) = lower_char c ∷ lower s
