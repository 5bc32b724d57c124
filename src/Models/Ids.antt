-- ===== src/Models/Ids.antt =====
-- The ids of `Message.generate_id`.
use ai_coding_training.Base.{
  ℕ, zero, suc, ◌+◌, ◌-◌, ◌*◌, ◌/◌, ◌%◌, ◌^◌, ◌<◌, ◌≤◌, ◌≡◌, refl, sym, ap, ◌∙◌, true, false, List,
  [], ◌∷◌, ◌++◌, arith, ltb, length, length-append, Bool-cases, inl, inr,
}
use ai_coding_training.Text.{Text, text_eq, text_eq→eq}
use ai_coding_training.Members.{mem, Distinct}
use ai_coding_training.Text.Decimal.{digits_from, decimal, zeros, padded}
use ai_coding_training.Text.Decimal.Value.{value, value-padded}
use ai_coding_training.Models.{id_text, generate_id, millisecond}

length-digits_from :
    (fuel n k : ℕ) (acc : Text)
    → n < fuel
    → n < 10 ^ suc k
    → length (digits_from fuel n acc) ≤ suc k + length acc
unfolding digits_from
length-digits_from zero n k acc h l = absurd (omega arith)
length-digits_from (suc fuel) n zero acc h l =
    let small : ltb n 10 ≡ true = ground arith in rw small (omega arith)
length-digits_from (suc fuel) n (suc k) acc h l = elim (Bool-cases (ltb n 10)) [
  | inl small ↦ rw small (omega arith)
  | inr large ↦
      let less : n < 10 * 10 ^ suc k = omega (arith, l) in
      let rest =
        length-digits_from fuel (n / 10) k ((b'0' + n % 10) ∷ acc) (ground arith) (omega arith) in
      rw large (omega (arith, rest))
]

length-zeros : (k : ℕ) → length (zeros k) ≡ k
length-zeros zero = refl
length-zeros (suc k) = ap suc (length-zeros k)

-- A counter below a million takes six characters.
length-padded : (n : ℕ) → n < 1000000 → length (padded 6 n) ≡ 6
unfolding padded decimal
length-padded n h =
    let short = length-digits_from (suc n) n 5 [] (omega arith) (omega (arith, h)) in
    length-append (zeros (6 - length (decimal n))) (decimal n)
    ∙ ap (λ k. k + length (decimal n)) (length-zeros (6 - length (decimal n)))
    ∙ omega (arith, short)

-- Texts that are equal and end in as many characters end in the same characters.
suffix-eq : (a a' b b' : Text) → length b ≡ length b' → a ++ b ≡ a' ++ b' → b ≡ b'
suffix-eq [] [] b b' l e = e
suffix-eq [] (x ∷ a') b b' l e =
    let n : length b ≡ suc (length (a' ++ b')) = ap length e in
    absurd (omega (arith, n, l, length-append a' b'))
suffix-eq (x ∷ a) [] b b' l e =
    let n : suc (length (a ++ b)) ≡ length b' = ap length e in
    absurd (omega (arith, n, l, length-append a b))
suffix-eq (x ∷ a) (y ∷ a') b b' l e = suffix-eq a a' b b' l cc

-- Two ids whose counters are below a million tell the counters, whatever the clock said.
id_text-counter :
    (now now' counter counter' : ℕ)
    → counter < 1000000
    → counter' < 1000000
    → id_text now counter ≡ id_text now' counter'
    → counter ≡ counter'
unfolding id_text
id_text-counter now now' counter counter' h h' e =
    let same : padded 6 counter ≡ padded 6 counter' =
      suffix-eq (b'M' ∷ decimal (now / millisecond)) (b'M' ∷ decimal (now' / millisecond))
        (padded 6 counter) (padded 6 counter')
        (length-padded counter h ∙ sym (length-padded counter' h')) e in
    sym (value-padded 6 counter) ∙ ap (value 0) same ∙ value-padded 6 counter'

differ :
    (now t c counter : ℕ)
    → c < counter
    → c < 1000000
    → counter < 1000000
    → text_eq (id_text t counter) (id_text now c) ≡ false
differ now t c counter l h h' = elim (Bool-cases (text_eq (id_text t counter) (id_text now c))) [
  | inr e ↦ e
  | inl e ↦
      let same = id_text-counter t now counter c h' h (text_eq→eq _ _ e) in
      absurd (omega (arith, same, l))
]

-- Ids, one after the other, at the times that the clock shows.
unfoldable pub generate_ids : List ℕ → ℕ → List Text
unfolding generate_id
generate_ids [] counter = []
generate_ids (now ∷ times) counter =
    let (id, counter') = generate_id now counter in id ∷ generate_ids times counter'

-- An id of a later call, within the first million, is another one.
later_id :
    (now : ℕ) (times : List ℕ) (c counter : ℕ)
    → c ≤ counter
    → counter + length times < 1000000
    → mem (id_text now c) (generate_ids times counter) ≡ false
unfolding generate_ids mem
later_id now [] c counter le h = refl
later_id now (t ∷ times) c counter le h =
    let rest = later_id now times c (counter + 1) (omega arith) (omega arith) in
    let ne : text_eq (id_text t (counter + 1)) (id_text now c) ≡ false =
      differ now t c (counter + 1) (omega arith) (omega arith) (omega arith) in
    unfold generate_id in rw (ne, rest) refl

-- Whatever the clock shows, even when it stands still or goes back, the ids that a process generates
-- one after the other are all different, up to the first million less one.
pub generate_ids-Distinct :
    (times : List ℕ) (counter : ℕ)
    → counter + length times < 1000000
    → Distinct (generate_ids times counter)
unfolding generate_ids
generate_ids-Distinct [] counter h = tt
generate_ids-Distinct (now ∷ times) counter h = (
  later_id now times (counter + 1) (counter + 1) (omega arith) (omega arith),
  generate_ids-Distinct times (counter + 1) (omega arith),
)
