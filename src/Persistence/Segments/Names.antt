-- ===== src/Persistence/Segments/Names.antt =====
-- The names of the segments, in the order in which they are made.
use ai_coding_training.Base.{
  ℕ, zero, suc, ◌<◌, ◌≤◌, ◌≡◌, refl, ap, ◌∙◌, Bool, true, false, ◌&&◌, List, [], ◌∷◌, ◌++◌, arith,
  leb, length, length-append, drop, Bool-cases, inl, inr,
}
use ai_coding_training.Text.{Text, codes, text_eq, text_eq→eq, text_eq_iff}
use ai_coding_training.Text.Decimal.{digits_from, decimal, padded}
use ai_coding_training.Text.Decimal.Value.{value, value-padded, value-append}
use ai_coding_training.Text.Order.{text_leb, IsSortedBy, sorted, sort_by_sorted, IsSortedBy-snoc}
use ai_coding_training.Members.{mem, mem-append}
use ai_coding_training.Persistence.Segments.{
  segment_name, has_prefix, has_suffix, matching, last_or,
}

-- The names of the first segments.
unfoldable pub names : ℕ → List Text
names zero = []
names (suc n) = names n ++ segment_name (suc n) ∷ []

pub length-names : (n : ℕ) → length (names n) ≡ n
unfolding names
length-names zero = refl
length-names (suc n) =
    ground (arith, length-append (names n) (segment_name (suc n) ∷ []), length-names n)

-- A name tells the number of its segment.
segment_name_injective : (a b : ℕ) → segment_name a ≡ segment_name b → a ≡ b
unfolding segment_name value
segment_name_injective a b e =
    let end = codes ".log" in
    let read : value 0 (padded 4 a ++ end) ≡ value 0 (padded 4 b ++ end) =
      ap (λ (t : Text). value 0 (drop 3 t)) e in
    let same : value a end ≡ value b end =
      rw
        (
          value-append 0 (padded 4 a) end,
          value-append 0 (padded 4 b) end,
          value-padded 4 a,
          value-padded 4 b,
        )
        at read in
    omega (arith, same)

-- A later segment has another name.
mem-later : (k n : ℕ) → k ≤ n → mem (segment_name (suc n)) (names k) ≡ false
unfolding names mem
mem-later zero n h = refl
mem-later (suc k) n h = elim (Bool-cases (text_eq (segment_name (suc k)) (segment_name (suc n)))) [
  | inl e ↦
      let same = segment_name_injective (suc k) (suc n) (text_eq→eq _ _ e) in
      absurd (omega (arith, same))
  | inr ne ↦
      rw
        (
          mem-append (segment_name (suc n)) (segment_name (suc k)) (names k),
          mem-later k n (omega arith),
          ne,
        )
        refl
]

pub mem-names : (n : ℕ) → mem (segment_name (suc n)) (names n) ≡ false
mem-names n = mem-later n n (omega arith)

has_suffix-append : (s p : Text) → has_suffix p (s ++ p) ≡ true
unfolding has_suffix
has_suffix-append [] [] = ground (arith, text_eq_iff [] [])
has_suffix-append [] (c ∷ p) = ground (arith, text_eq_iff (c ∷ p) (c ∷ p))
has_suffix-append (c ∷ s) p = ground (arith, has_suffix-append s p)

matching-segment :
    (ns : List Text) (n : ℕ)
    → matching (ns ++ segment_name n ∷ []) ≡ matching ns ++ segment_name n ∷ []
unfolding matching segment_name has_prefix
matching-segment [] n =
    let name = codes "mq-" ++ padded 4 n in
    let ends = has_suffix-append name (codes ".log") in
    let long : leb 7 (length (name ++ codes ".log")) ≡ true =
      ground (arith, length-append name (codes ".log"), length-append (codes "mq-") (padded 4 n)) in
    rw (ends, long) refl
matching-segment (x ∷ ns) n = ground (arith, matching-segment ns n)

pub matching-names : (n : ℕ) → matching (names n) ≡ names n
unfolding names matching
matching-names zero = refl
matching-names (suc n) =
    matching-segment (names n) (suc n)
    ∙ ap (λ (ns : List Text). ns ++ segment_name (suc n) ∷ []) (matching-names n)

-- Whether the names of the first segments, and the next one, are in the order of `str`.
ascending : ℕ → Bool
unfolding segment_name text_leb padded decimal digits_from
ascending zero = true
ascending (suc n) =
    let rest = ascending n in text_leb (segment_name (suc n)) (segment_name (suc (suc n))) && rest

-- With four digits there is room for the hundred segments that the server allows.
hundred_ascending : ascending 99 ≡ true
unfolding ascending segment_name text_leb padded decimal digits_from
hundred_ascending = refl

ascending-le : (n k : ℕ) → ascending n ≡ true → k ≤ n → ascending k ≡ true
unfolding ascending
ascending-le zero k h l = let z : k ≡ 0 = omega arith in rw z refl
ascending-le (suc n) k h l = ground (arith, ascending-le n k)

IsSortedBy-names : (n : ℕ) → ascending n ≡ true → IsSortedBy (λ (s : Text). s) (names (suc n))
unfolding ascending names
IsSortedBy-names zero h = (tt, tt)
IsSortedBy-names (suc n) h =
    let both : (text_leb (segment_name (suc n)) (segment_name (suc (suc n))) ≡ true)
        × (ascending n ≡ true) =
      ground arith in
    IsSortedBy-snoc (λ (s : Text). s) (names n) (segment_name (suc n)) (segment_name (suc (suc n)))
      both.0 (IsSortedBy-names n both.1)

-- Sorted by `str`, the names of at most a hundred segments are in the order of the segments.
pub sorted-names : (n : ℕ) → n < 100 → sorted (names (suc n)) ≡ names (suc n)
unfolding sorted
sorted-names n h =
    sort_by_sorted (λ (s : Text). s) (names (suc n))
      (IsSortedBy-names n (ascending-le 99 n hundred_ascending (omega arith)))

pub last_or-snoc : (d x : Text) (ns : List Text) → last_or d (ns ++ x ∷ []) ≡ x
last_or-snoc d x [] = refl
last_or-snoc d x (n ∷ ns) = last_or-snoc n x ns
