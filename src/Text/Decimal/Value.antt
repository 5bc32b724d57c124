-- ===== src/Text/Decimal/Value.antt =====
-- The number that the digits of `padded` stand for.
use ai_coding_training.Base.{
  ℕ, zero, suc, ◌+◌, ◌-◌, ◌*◌, ◌/◌, ◌%◌, ◌<◌, ◌≡◌, refl, ap, ◌∙◌, [], ◌∷◌, ◌++◌, arith, ltb, length,
  Bool-cases, inl, inr,
}
use ai_coding_training.Text.{Text}
use ai_coding_training.Text.Decimal.{digits_from, decimal, zeros, padded}

-- The number that digits stand for, behind a number that has been read.
unfoldable pub value : ℕ → Text → ℕ
value n [] = n
value n (c ∷ s) = value (n * 10 + (c - b'0')) s

value-digits_from :
    (fuel n : ℕ) (acc : Text) → n < fuel → value 0 (digits_from fuel n acc) ≡ value n acc
unfolding digits_from value
value-digits_from zero n acc h = absurd (omega arith)
value-digits_from (suc fuel) n acc h = elim (Bool-cases (ltb n 10)) [
  | inl small ↦ rw small (ap (λ k. value k acc) (omega arith))
  | inr large ↦ rw large (
      value-digits_from fuel (n / 10) ((b'0' + n % 10) ∷ acc) (ground arith)
      ∙ ap (λ k. value k acc) (omega arith))
]

value-zeros : (k : ℕ) (s : Text) → value 0 (zeros k ++ s) ≡ value 0 s
unfolding value
value-zeros zero s = refl
value-zeros (suc k) s = value-zeros k s

pub value-padded : (width n : ℕ) → value 0 (padded width n) ≡ n
unfolding padded decimal
value-padded width n =
    value-zeros (width - length (decimal n)) (decimal n)
    ∙ value-digits_from (suc n) n [] (omega arith)
    ∙ unfold value in refl

-- Digits behind others go on from their number.
pub value-append : (n : ℕ) (s t : Text) → value n (s ++ t) ≡ value (value n s) t
unfolding value
value-append n [] t = refl
value-append n (c ∷ s) t = value-append (n * 10 + (c - b'0')) s t
