-- ===== src/Persistence/Struct.antt =====
-- What the code uses of Python's `struct`: big-endian integers of a fixed width, and raw bytes.
-- `unpack_from` at a rising offset is a reader of the bytes that are left.
pub mod Exact
use ai_coding_training.Base.{
  ℕ, zero, suc, ◌+◌, ◌-◌, ◌*◌, ◌/◌, ◌%◌, ◌≤◌, ◌<◌, ◌≡◌, refl, ◌∙◌, sym, ap, Bool, true, false, ◌&&◌,
  Option, none, some, List, [], ◌∷◌, ◌++◌, arith, ltb, leb, ltb→lt, if◌then◌else◌, length, take,
  drop, length-append, take-append, drop-append, length-take-le, append_assoc, append-nil,
  Bool-cases, inl, inr,
}
use ai_coding_training.Base.Int.{ℤ, pos, negsuc}
use ai_coding_training.Base.Action.{Outcome, ok, raised, Action, pure, raise, or_raise, ◌>>=◌, ◌>>◌}
use ai_coding_training.Text.{Text}
use ai_coding_training.Text.Utf8.{IsText, encode, decode}
use ai_coding_training.Text.Utf8.RoundTrip.{decode-encode}

abbrev pub Bytes : Type 0
Bytes = List ℕ

-- `struct.error` and `UnicodeDecodeError`.
pub data CodecError : Type 0 where
  struct_error unicode_error : CodecError

-- 256 to the power of the width.
unfoldable pub bound : ℕ → ℕ
bound zero = 1
bound (suc w) = 256 * bound w

unfoldable pub big_endian : ℕ → ℕ → Bytes
big_endian zero n = []
big_endian (suc w) n = big_endian w (n / 256) ++ (n % 256) ∷ []

unfoldable pub value_of : ℕ → Bytes → ℕ
value_of n [] = n
value_of n (b ∷ bs) = value_of (n * 256 + b) bs

-- Two's complement.
unfoldable pub to_word : ℕ → ℤ → ℕ
unfolding bound
to_word w (pos n) = n
to_word w (negsuc n) = bound w - suc n

unfoldable pub of_word : ℕ → ℕ → ℤ
unfolding bound
of_word w u = if ltb u (bound w / 2) then pos u else negsuc (bound w - suc u)

unfoldable pub fits_signed : ℕ → ℤ → Bool
unfolding bound
fits_signed w (pos n) = ltb n (bound w / 2)
fits_signed w (negsuc n) = ltb n (bound w / 2)

-- `struct.pack(">H", n)` and the like; `none` stands for `struct.error`.
unfoldable pub pack_unsigned : ℕ → ℕ → Option Bytes
unfolding bound big_endian
pack_unsigned w n = if ltb n (bound w) then some (big_endian w n) else none

unfoldable pub pack_signed : ℕ → ℤ → Option Bytes
unfolding fits_signed to_word big_endian
pack_signed w z = if fits_signed w z then some (big_endian w (to_word w z)) else none

abbrev pub Reader : Type 0 → Type 0
Reader = Action Bytes CodecError

-- `struct.unpack_from(f">{n}s", data, offset)`
unfoldable pub read : ℕ → Reader Bytes
read n s = if leb n (length s) then (ok (take n s), drop n s) else (raised struct_error, s)

unfoldable pub read_unsigned : ℕ → Reader ℕ
unfolding read value_of
read_unsigned w = do bs ← read w; pure (value_of 0 bs)

unfoldable pub read_signed : ℕ → Reader ℤ
unfolding read value_of of_word
read_signed w = do bs ← read w; pure (of_word w (value_of 0 bs))

-- The bytes of a text, and `.decode("utf-8")`.
unfoldable pub read_text : ℕ → Reader Text
unfolding read decode
read_text n = do bs ← read n; or_raise (decode bs) unicode_error

pub length-big_endian : (w n : ℕ) → length (big_endian w n) ≡ w
unfolding big_endian
length-big_endian zero n = refl
length-big_endian (suc w) n =
    omega (
      arith,
      length-append (big_endian w (n / 256)) ((n % 256) ∷ []),
      length-big_endian w (n / 256),
    )

value_of-snoc : (n b : ℕ) (bs : Bytes) → value_of n (bs ++ b ∷ []) ≡ value_of n bs * 256 + b
unfolding value_of
value_of-snoc n b [] = refl
value_of-snoc n b (c ∷ bs) = value_of-snoc (n * 256 + c) b bs

pub value_of-big_endian : (w n : ℕ) → n < bound w → value_of 0 (big_endian w n) ≡ n
unfolding bound big_endian
value_of-big_endian zero n h = unfold value_of in omega arith
value_of-big_endian (suc w) n h = omega (
  arith,
  value_of-snoc 0 (n % 256) (big_endian w (n / 256)),
  value_of-big_endian w (n / 256) (omega arith),
)
