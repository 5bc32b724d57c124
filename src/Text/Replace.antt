-- ===== src/Text/Replace.antt =====
-- `bytes.decode("utf-8", errors="replace")`.
use ai_coding_training.Base.{
  ℕ, ◌≡◌, refl, Option, none, some, List, [], ◌∷◌, arith, ◌==◌, if◌then◌else◌, Bool-cases, inl, inr,
  ◌⊎◌,
}
use ai_coding_training.Text.{Text}
use ai_coding_training.Text.Utf8.{
  IsText, Partial, start, Progress, whole, more, bad, first_byte, step, decode_from, decode, encode,
  cons_option,
}
use ai_coding_training.Text.Utf8.RoundTrip.{decode-encode}

-- The character that stands for bytes that are no UTF-8.
abbrev pub replacement : ℕ
replacement = 0xfffd

-- A byte that does not go on with the character under way stands for an error and is read again as
-- a first byte; the bytes of a character that does not end stand for one error.
unfoldable pub replace_from : Partial → List ℕ → Text
replace_from p [] = if p.pending == 0 then [] else replacement ∷ []
replace_from p (b ∷ bs) =
    let anew = replace_from start bs in
    elim (step p b) [
      | whole c ↦ c ∷ anew
      | more q ↦ replace_from q bs
      | bad ↦ if p.pending == 0 then replacement ∷ anew else elim (first_byte b) [
        | whole c ↦ replacement ∷ c ∷ anew
        | more q ↦ replacement ∷ replace_from q bs
        | bad ↦ replacement ∷ replacement ∷ anew
      ]
    ]

unfoldable pub decode_replace : List ℕ → Text
unfolding replace_from
decode_replace = replace_from start

cons_option-some :
    (c : ℕ) (o : Option Text) (t : Text)
    → cons_option c o ≡ some t
    → (u : Text) × (o ≡ some u) × (c ∷ u ≡ t)
cons_option-some c none t h = absurd cc
cons_option-some c (some u) t h = (u, refl, cc)

Progress-cases :
    (o : Progress) → ((c : ℕ) × (o ≡ whole c)) ⊎ (((q : Partial) × (o ≡ more q)) ⊎ (o ≡ bad))
Progress-cases (whole c) = inl (c, refl)
Progress-cases (more q) = inr (inl (q, refl))
Progress-cases bad = inr (inr refl)

-- Bytes that the strict decoder accepts are decoded alike.
replace_from-decode_from :
    (p : Partial) (bs : List ℕ) (t : Text) → decode_from p bs ≡ some t → replace_from p bs ≡ t
unfolding decode_from replace_from
replace_from-decode_from p [] t h = elim (Bool-cases (p.pending == 0)) [
  | inl done ↦ ground arith
  | inr under_way ↦ absurd (ground arith)
]
replace_from-decode_from p (b ∷ bs) t h = elim (Progress-cases (step p b)) [
  | inl (c, e) ↦
      let (u, rest, joined) =
        cons_option-some c (decode_from start bs) t (rw (e, decode_from) at h) in
      rw (e, replace_from, replace_from-decode_from start bs u rest) joined
  | inr (inl (q, e)) ↦
      rw (e, replace_from) (replace_from-decode_from q bs t (rw (e, decode_from) at h))
  | inr (inr e) ↦ absurd (let x : none ≡ some t = rw (e, decode_from) at h in cc)
]

-- The bytes of a text without surrogates are decoded as the text.
pub decode_replace-encode : (s : Text) → IsText s → decode_replace (encode s) ≡ s
unfolding decode_replace decode
decode_replace-encode s h = replace_from-decode_from start (encode s) s (decode-encode s h)
