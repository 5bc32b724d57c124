-- ===== src/Text/Lines.antt =====
-- `s.split("\r\n", 1)`: the line up to the first break, and what follows it.
use ai_coding_training.Base.{
  ℕ, suc, ◌≤◌, ◌≡◌, refl, ap, Bool, false, ◌&&◌, Option, none, some, [], ◌∷◌, ◌++◌, arith, ◌==◌,
  if◌then◌else◌, length, Bool-cases, inl, inr,
}
use ai_coding_training.Text.{Text}

abbrev pub crlf : Text
crlf = b'\r' ∷ b'\n' ∷ []

abbrev pub starts_newline : Text → Bool
starts_newline [] = false
starts_newline (c ∷ s) = c == b'\n'

-- What follows the first character.
abbrev tail : Text → Text
tail [] = []
tail (c ∷ s) = s

abbrev pub prepend : ℕ → Option (Text × Text) → Option (Text × Text)
prepend c none = none
prepend c (some (line, rest)) = some (c ∷ line, rest)

-- `none` where there is no break.
unfoldable pub cut_line : Text → Option (Text × Text)
cut_line [] = none
cut_line (c ∷ s) =
    let rest = cut_line s in
    if c == b'\r' && starts_newline s then some ([], tail s) else prepend c rest

pub prepend-none : (c : ℕ) (o : Option (Text × Text)) → prepend c o ≡ none → o ≡ none
prepend-none c none h = refl
prepend-none c (some p) h = absurd cc

prepend-some :
    (c : ℕ) (o : Option (Text × Text)) (line rest : Text)
    → prepend c o ≡ some (line, rest)
    → (line' : Text) × (o ≡ some (line', rest)) × (line ≡ c ∷ line')
prepend-some c none line rest h = absurd cc
prepend-some c (some (line', rest')) line rest h = (line', cc, cc)

pub some-pair : (p q : Text × Text) → some p ≡ some q → (p.0 ≡ q.0) × (p.1 ≡ q.1)
some-pair p q h = let e : p ≡ q = cc in (ap (λ p. p.0) e, ap (λ p. p.1) e)

-- What is cut off is shorter than the whole.
pub cut_line-shorter :
    (s line rest : Text) → cut_line s ≡ some (line, rest) → suc (length rest) ≤ length s
unfolding cut_line
cut_line-shorter [] line rest h = absurd cc
cut_line-shorter (c ∷ s) line rest h = elim (Bool-cases (c == b'\r' && starts_newline s)) [
  | inl here ↦
      let e : tail s ≡ rest = (some-pair ([], tail s) (line, rest) (rw here at h)).1 in
      rw (← e) (tail-shorter s)
  | inr later ↦
      let (line', e, _) = prepend-some c (cut_line s) line rest (rw later at h) in
      let n = cut_line-shorter s line' rest e in omega (arith, n)
]
  where
    tail-shorter : (s : Text) → suc (length (tail s)) ≤ suc (length s)
    tail-shorter [] = omega arith
    tail-shorter (c ∷ s) = omega arith

-- The first line stays the first, whatever is put behind.
pub cut_line-append :
    (s t line rest : Text)
    → cut_line s ≡ some (line, rest)
    → cut_line (s ++ t) ≡ some (line, rest ++ t)
unfolding cut_line
cut_line-append [] t line rest h = absurd cc
cut_line-append (c ∷ []) t line rest h = absurd (ground arith)
cut_line-append (c ∷ d ∷ s) t line rest h = elim (Bool-cases (c == b'\r' && d == b'\n')) [
  | inl here ↦
      let (a, b) = some-pair ([], s) (line, rest) (rw here at h) in rw (here, ← a, ← b) refl
  | inr later ↦
      let (line', e, same) = prepend-some c (cut_line (d ∷ s)) line rest (rw later at h) in
      rw (later, same) (ap (prepend c) (cut_line-append (d ∷ s) t line' rest e))
]

-- A text without a break, and a break behind it, is the first line.
pub cut_line-line : (s t : Text) → cut_line s ≡ none → cut_line (s ++ crlf ++ t) ≡ some (s, t)
unfolding cut_line
cut_line-line [] t h = refl
cut_line-line (c ∷ []) t h = elim (Bool-cases (c == b'\r')) [
  | inl e ↦ rw e refl
  | inr e ↦ rw e refl
]
cut_line-line (c ∷ d ∷ s) t h = elim (Bool-cases (c == b'\r' && d == b'\n')) [
  | inl here ↦ absurd (let e : some ([], s) ≡ none = rw here at h in cc)
  | inr later ↦
      let e : cut_line (d ∷ s) ≡ none = prepend-none c (cut_line (d ∷ s)) (rw later at h) in
      rw later (ap (prepend c) (cut_line-line (d ∷ s) t e))
]
