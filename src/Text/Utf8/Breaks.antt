-- ===== src/Text/Utf8/Breaks.antt =====
-- UTF-8 and line breaks: the bytes of a text have the breaks of the text.
use ai_coding_training.Base.{
  ℕ, ◌≤◌, ◌≡◌, refl, sym, ap, ◌∙◌, true, false, ◌&&◌, none, List, [], ◌∷◌, ◌++◌, arith, ◌==◌, ltb,
  append_assoc, Bool-cases, inl, inr,
}
use ai_coding_training.Text.{Text}
use ai_coding_training.Text.Lines.{cut_line, starts_newline, prepend-none}
use ai_coding_training.Text.Utf8.{encode, encode_char}

pub encode-append : (s t : Text) → encode (s ++ t) ≡ encode s ++ encode t
unfolding encode
encode-append [] t = refl
encode-append (c ∷ s) t =
    ap (λ bs. encode_char c ++ bs) (encode-append s t)
    ∙ sym (append_assoc (encode_char c) (encode s) (encode t))

-- A byte that is no carriage return makes no break.
cut_line-other : (b : ℕ) (bs : List ℕ) → 128 ≤ b → cut_line bs ≡ none → cut_line (b ∷ bs) ≡ none
unfolding cut_line
cut_line-other b bs h n = let ne : (b == b'\r') ≡ false = ground arith in rw (ne, n) refl

module _ (c : ℕ) (bs : List ℕ) where
  encode_char-narrow : ltb c 0x80 ≡ true → encode_char c ≡ c ∷ []
  unfolding encode_char
  encode_char-narrow h = rw h refl

  -- The first byte of a wide character, and a break later on.
  wide_none : ltb c 0x80 ≡ false → cut_line bs ≡ none → cut_line (encode_char c ++ bs) ≡ none
  unfolding encode_char
  wide_none h n = elim (Bool-cases (ltb c 0x800)) [
    | inl two ↦ rw (h, two) (cut_line-other _ _ (omega arith) (cut_line-other _ _ (omega arith) n))
    | inr n2 ↦ elim (Bool-cases (ltb c 0x10000)) [
      | inl three ↦
          rw (h, n2, three)
            (cut_line-other _ _ (omega arith)
              (cut_line-other _ _ (omega arith) (cut_line-other _ _ (omega arith) n)))
      | inr n3 ↦
          rw (h, n2, n3)
            (cut_line-other _ _ (omega arith) (
              cut_line-other _ _ (omega arith)
                (cut_line-other _ _ (omega arith) (cut_line-other _ _ (omega arith) n))))
    ]
  ]

  wide_start : ltb c 0x80 ≡ false → starts_newline (encode_char c ++ bs) ≡ false
  unfolding encode_char
  wide_start h = elim (Bool-cases (ltb c 0x800)) [
    | inl two ↦ rw (h, two) (ground arith)
    | inr n2 ↦ elim (Bool-cases (ltb c 0x10000)) [
      | inl three ↦ rw (h, n2, three) (ground arith)
      | inr n3 ↦ rw (h, n2, n3) (ground arith)
    ]
  ]

starts_newline-encode : (s : Text) → starts_newline (encode s) ≡ starts_newline s
unfolding encode
starts_newline-encode [] = refl
starts_newline-encode (c ∷ s) = elim (Bool-cases (ltb c 0x80)) [
  | inl one ↦ rw (encode_char-narrow c (encode s) one) refl
  | inr wide ↦ wide_start c (encode s) wide ∙ ground arith
]

-- The bytes of a text without a break have none.
pub cut_line-encode : (s : Text) → cut_line s ≡ none → cut_line (encode s) ≡ none
unfolding encode cut_line
cut_line-encode [] h = refl
cut_line-encode (c ∷ s) h = elim (Bool-cases (c == b'\r' && starts_newline s)) [
  | inl here ↦ absurd (ground (arith, here))
  | inr apart ↦
      let later : cut_line s ≡ none = prepend-none c (cut_line s) (rw (cut_line, apart) at h) in
      let rest = cut_line-encode s later in
      elim (Bool-cases (ltb c 0x80)) [
        | inl one ↦
            let same : (c == b'\r' && starts_newline (encode s)) ≡ false =
              rw (starts_newline-encode s) apart in
            rw (encode_char-narrow c (encode s) one, cut_line, same, rest) refl
        | inr wide ↦ wide_none c (encode s) wide rest
      ]
]
