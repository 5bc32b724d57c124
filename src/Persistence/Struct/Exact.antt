-- ===== src/Persistence/Struct/Exact.antt =====
-- Readers that take exactly the bytes that were written, with rules for each way to build one.
use mathlib.Core.Path.{subst}
use ai_coding_training.Base.{
  ℕ, ◌-◌, ◌/◌, ◌*◌, ◌<◌, ◌≡◌, refl, ◌∙◌, ap, true, [], ◌++◌, arith, ltb, length, take,
  length-append, take-append, drop-append, take-append_le, take-append_ge, length-take_le,
  append_assoc, append-nil, le→leb, Bool-cases, inl, inr,
}
use ai_coding_training.Base.Int.{ℤ, pos, negsuc}
use ai_coding_training.Base.Action.{Outcome, ok, raised, pure, or_raise, ◌>>=◌}
use ai_coding_training.Text.{Text}
use ai_coding_training.Text.Utf8.{IsText, encode, decode}
use ai_coding_training.Text.Utf8.RoundTrip.{decode-encode}
use ai_coding_training.Persistence.Struct.{
  Bytes, CodecError, struct_error, unicode_error, bound, big_endian, value_of, to_word, of_word,
  fits_signed, Reader, read, read_unsigned, read_signed, read_text, length-big_endian,
  value_of-big_endian,
}

-- The reader takes exactly these bytes for this value, and no fewer bytes will do.
pub record Exact {A : Type 0} (m : Reader A) (bs : Bytes) (v : A) : Type 0 where
  pub whole : (rest : Bytes) → m (bs ++ rest) ≡ (ok v, rest)
  pub short : (k : ℕ) → k < length bs → (m (take k bs)).0 ≡ raised struct_error

module _ {A : Type 0} where
  pub Exact-pure : (v : A) → Exact (pure v) [] v
  Exact-pure v = record { whole = λ rest. refl; short = λ k h. elim h [ ] }

module _ {A B : Type 0} (m : Reader A) (f : A → Reader B) (xs ys : Bytes) (v : A) (w : B) where
  bind_short :
      (k : ℕ)
      → (m (take k xs)).0 ≡ raised struct_error
      → ((m >>= f) (take k xs)).0 ≡ raised struct_error
  bind_short k h = ground arith

  bind_whole : (rest : Bytes) → m (xs ++ rest) ≡ (ok v, rest) → (m >>= f) (xs ++ rest) ≡ f v rest
  bind_whole rest h = ground arith

  pub Exact-bind : Exact m xs v → Exact (f v) ys w → Exact (m >>= f) (xs ++ ys) w
  Exact-bind p q = record {
    whole = λ rest.
        ap (m >>= f) (append_assoc xs ys rest)
        ∙ bind_whole (ys ++ rest) (p.whole (ys ++ rest))
        ∙ q.whole rest;
    short = λ k h. elim (Bool-cases (ltb k (length xs))) [
      | inl lt ↦
          ap (λ (s : Bytes). ((m >>= f) s).0) (take-append_le k xs ys (ground arith))
          ∙ bind_short k (p.short k (ground arith))
      | inr ge ↦
          ap (λ (s : Bytes). ((m >>= f) s).0) (take-append_ge k xs ys (ground arith))
          ∙ ap (λ (t : Outcome CodecError B × Bytes). t.0)
              (bind_whole (take (k - length xs) ys) (p.whole (take (k - length xs) ys)))
          ∙ q.short (k - length xs) (ground (arith, length-append xs ys))
    ];
  }

-- The last reader of a record, and what makes the value of it.
pub Exact-last :
    {A B : Type 0} {m : Reader A} {xs : Bytes} {v : A} (g : A → B)
    → Exact m xs v
    → Exact (m >>= λ a. pure (g a)) xs (g v)
Exact-last {m} {xs} {v} g p =
    subst (λ (bs : Bytes). Exact (m >>= λ a. pure (g a)) bs (g v)) (append-nil xs)
      (Exact-bind m (λ a. pure (g a)) xs [] v (g v) p (Exact-pure (g v)))

read-append : (n : ℕ) (xs rest : Bytes) → length xs ≡ n → read n (xs ++ rest) ≡ (ok xs, rest)
unfolding read
read-append n xs rest e = rw (
  ← e,
  le→leb (length xs) (length (xs ++ rest)) (omega (arith, length-append xs rest)),
  take-append xs rest,
  drop-append xs rest,
)

read_short : (n : ℕ) (xs : Bytes) → length xs < n → (read n xs).0 ≡ raised struct_error
unfolding read
read_short n xs h = ground arith

pub Exact-read : (n : ℕ) (xs : Bytes) → length xs ≡ n → Exact (read n) xs xs
Exact-read n xs e = record {
  whole = λ rest. read-append n xs rest e;
  short = λ k h. read_short n (take k xs) (omega (arith, length-take_le k xs (omega arith)));
}

-- Reading the bytes, and then what makes a value of them.
Exact-then :
    {A : Type 0} (n : ℕ) (xs : Bytes) (f : Bytes → Reader A) (v : A)
    → length xs ≡ n
    → f xs ≡ pure v
    → Exact (read n >>= f) xs v
Exact-then n xs f v e h =
    subst (λ (bs : Bytes). Exact (read n >>= f) bs v) (append-nil xs)
      (Exact-bind (read n) f xs [] xs v (Exact-read n xs e) (rw h (Exact-pure v)))

pub Exact-read_unsigned : (w n : ℕ) → n < bound w → Exact (read_unsigned w) (big_endian w n) n
unfolding read_unsigned
Exact-read_unsigned w n h =
    Exact-then w (big_endian w n) (λ bs. pure (value_of 0 bs)) n (length-big_endian w n)
      (rw (value_of-big_endian w n h))

-- What fits is a word, and the word gives it back, where the bound is even.
of_word-to_word :
    (w : ℕ) (z : ℤ)
    → fits_signed w z ≡ true
    → 2 * (bound w / 2) ≡ bound w
    → (to_word w z < bound w) × (of_word w (to_word w z) ≡ z)
unfolding fits_signed to_word of_word
of_word-to_word w (pos n) h e = ground arith
of_word-to_word w (negsuc n) h e = ground arith

pub Exact-read_signed :
    (w : ℕ) (z : ℤ)
    → fits_signed w z ≡ true
    → 2 * (bound w / 2) ≡ bound w
    → Exact (read_signed w) (big_endian w (to_word w z)) z
unfolding read_signed
Exact-read_signed w z h e =
    let (small, back) = of_word-to_word w z h e in
    Exact-then w (big_endian w (to_word w z)) (λ bs. pure (of_word w (value_of 0 bs))) z
      (length-big_endian w (to_word w z)) (rw (value_of-big_endian w (to_word w z) small, back))

pub Exact-read_text : (s : Text) → IsText s → Exact (read_text (length (encode s))) (encode s) s
unfolding read_text
Exact-read_text s h =
    Exact-then (length (encode s)) (encode s) (λ bs. or_raise (decode bs) unicode_error) s refl
      (rw (decode-encode s h))
