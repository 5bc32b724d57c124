-- ===== src/Text/Utf8/RoundTrip.antt =====
-- Decoding what was encoded gives the text back.
use ai_coding_training.Base.{
  ℕ, ◌+◌, ◌-◌, ◌*◌, ◌/◌, ◌%◌, ◌≤◌, ◌<◌, ◌≡◌, refl, ◌∙◌, ap, inl, inr, some, List, [], ◌∷◌, ◌++◌,
  arith, ltb, ◌==◌, if◌then◌else◌, Bool-cases, ltb→lt,
}
use ai_coding_training.Text.{Text}
use ai_coding_training.Text.Utf8.{
  IsScalar, IsText, encode_char, encode, Partial, start, whole, more, step, cons_option,
  decode_from, decode,
}

decode_from-whole :
    (p : Partial) (b c : ℕ) (bs : List ℕ)
    → step p b ≡ whole c
    → decode_from p (b ∷ bs) ≡ cons_option c (decode_from start bs)
unfolding decode_from
decode_from-whole p b c bs h = rw (h, decode_from)

decode_from-more :
    (p q : Partial) (b : ℕ) (bs : List ℕ)
    → step p b ≡ more q
    → decode_from p (b ∷ bs) ≡ decode_from q bs
unfolding decode_from
decode_from-more p q b bs h = rw (h, decode_from)

abbrev part : ℕ → ℕ → ℕ → ℕ → Partial
part n v l h = record { pending = n; value = v; low = l; high = h }

-- A byte in the middle of a character.
decode_middle :
    (n v l h b : ℕ) (bs : List ℕ)
    → 1 ≤ n
    → l ≤ b
    → b ≤ h
    → decode_from (part (n + 1) v l h) (b ∷ bs)
      ≡ decode_from (part n (v * 64 + (b - 0x80)) 0x80 0xbf) bs
unfolding step
decode_middle n v l h b bs k p q =
    decode_from-more (part (n + 1) v l h) (part n (v * 64 + (b - 0x80)) 0x80 0xbf) b bs
      (ground arith)

-- The range of the second byte of three, and of four: it rules out long forms and surrogates.
abbrev low_three : ℕ → ℕ
low_three q = if q == 0 then 0xa0 else 0x80

abbrev high_three : ℕ → ℕ
high_three q = if q == 13 then 0x9f else 0xbf

abbrev low_four : ℕ → ℕ
low_four q = if q == 0 then 0x90 else 0x80

abbrev high_four : ℕ → ℕ
high_four q = if q == 4 then 0x8f else 0xbf

first_of_three :
    (q : ℕ) → q < 16 → step start (0xe0 + q) ≡ more (part 2 q (low_three q) (high_three q))
unfolding step
first_of_three q h = ground arith

first_of_four : (q : ℕ) → q < 5 → step start (0xf0 + q) ≡ more (part 3 q (low_four q) (high_four q))
unfolding step
first_of_four q h = ground arith

module _ (c : ℕ) (bs : List ℕ) where
  decode_one : c < 0x80 → decode_from start (c ∷ bs) ≡ cons_option c (decode_from start bs)
  unfolding step
  decode_one h = decode_from-whole start c c bs (ground arith)

  -- The last byte of a character, which may come after any other byte.
  decode_last :
      (v l h b : ℕ)
      → l ≤ b
      → b ≤ h
      → v * 64 + (b - 0x80) ≡ c
      → decode_from (part 1 v l h) (b ∷ bs) ≡ cons_option c (decode_from start bs)
  unfolding step
  decode_last v l h b p q e = decode_from-whole (part 1 v l h) b c bs (ground arith)

  decode_two :
      0x80 ≤ c
      → c < 0x800
      → decode_from start ((0xc0 + c / 64) ∷ (0x80 + c % 64) ∷ bs)
        ≡ cons_option c (decode_from start bs)
  unfolding step
  decode_two h k =
      decode_from-more start (part 1 (c / 64) 0x80 0xbf) (0xc0 + c / 64) ((0x80 + c % 64) ∷ bs)
        (ground arith)
      ∙ decode_last (c / 64) 0x80 0xbf (0x80 + c % 64) (omega arith) (omega arith) (omega arith)

  decode_three :
      0x800 ≤ c
      → c < 0x10000
      → IsScalar c
      → decode_from start ((0xe0 + c / 4096) ∷ (0x80 + c / 64 % 64) ∷ (0x80 + c % 64) ∷ bs)
        ≡ cons_option c (decode_from start bs)
  decode_three h k s =
      let q = c / 4096 in
      let b = 0x80 + c / 64 % 64 in
      decode_from-more start (part 2 q (low_three q) (high_three q)) (0xe0 + q)
        (b ∷ (0x80 + c % 64) ∷ bs) (first_of_three q (omega arith))
      ∙ decode_middle 1 q (low_three q) (high_three q) b ((0x80 + c % 64) ∷ bs) (omega arith)
          (ground arith) (ground arith)
      ∙ decode_last (q * 64 + (b - 0x80)) 0x80 0xbf (0x80 + c % 64) (omega arith) (omega arith)
          (omega arith)

  decode_four :
      0x10000 ≤ c
      → c < 0x110000
      → decode_from start (
          (0xf0 + c / 262144)
          ∷ (0x80 + c / 4096 % 64)
          ∷ (0x80 + c / 64 % 64)
          ∷ (0x80 + c % 64)
          ∷ bs)
        ≡ cons_option c (decode_from start bs)
  decode_four h k =
      let q = c / 262144 in
      let a = 0x80 + c / 4096 % 64 in
      let b = 0x80 + c / 64 % 64 in
      let d = 0x80 + c % 64 in
      let v = q * 64 + (a - 0x80) in
      decode_from-more start (part 3 q (low_four q) (high_four q)) (0xf0 + q) (a ∷ b ∷ d ∷ bs)
        (first_of_four q (omega arith))
      ∙ decode_middle 2 q (low_four q) (high_four q) a (b ∷ d ∷ bs) (omega arith) (ground arith)
          (ground arith)
      ∙ decode_middle 1 v 0x80 0xbf b (d ∷ bs) (omega arith) (omega arith) (omega arith)
      ∙ decode_last (v * 64 + (b - 0x80)) 0x80 0xbf d (omega arith) (omega arith) (omega arith)

  -- One encoded character is decoded, whatever follows it.
  decode_from-encode_char :
      IsScalar c → decode_from start (encode_char c ++ bs) ≡ cons_option c (decode_from start bs)
  unfolding encode_char
  decode_from-encode_char s = elim (Bool-cases (ltb c 0x80)) [
    | inl one ↦ rw one (decode_one (ltb→lt c 0x80 one))
    | inr n1 ↦ rw n1 (elim (Bool-cases (ltb c 0x800)) [
      | inl two ↦ rw two (decode_two (ground arith) (ltb→lt c 0x800 two))
      | inr n2 ↦ rw n2 (elim (Bool-cases (ltb c 0x10000)) [
        | inl three ↦ rw three (decode_three (ground arith) (ltb→lt c 0x10000 three) s)
        | inr n3 ↦ rw n3 (decode_four (ground arith) s.0)
      ])
    ])
  ]

-- A text without surrogates is decoded from its UTF-8 bytes as it was.
pub decode-encode : (s : Text) → IsText s → decode (encode s) ≡ some s
unfolding decode encode
decode-encode [] h = unfold decode_from in refl
decode-encode (c ∷ s) h =
    decode_from-encode_char c (encode s) h.0 ∙ ap (cons_option c) (decode-encode s h.1)
