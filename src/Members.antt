-- ===== src/Members.antt =====
-- A Python `set` of texts as the list of its members. The code reads a set only through `in`,
-- emptiness, `len` and `sorted`, so the order of the list is not observed.
use ai_coding_training.Base.{
  ◌≡◌, refl, Bool, true, false, ◌||◌, List, [], ◌∷◌, ◌++◌, arith, if◌then◌else◌,
}
use ai_coding_training.Text.{Text, text_eq, text_eq_iff}

-- `x in s`
unfoldable pub mem : Text → List Text → Bool
mem x [] = false
mem x (y ∷ s) = text_eq y x || mem x s

-- `s.add(x)`
unfoldable pub add : Text → List Text → List Text
unfolding mem
add x s = if mem x s then s else s ++ x ∷ []

-- `s.discard(x)`
unfoldable pub discard : Text → List Text → List Text
discard x [] = []
discard x (y ∷ s) = let rest = discard x s in if text_eq y x then rest else y ∷ rest

-- No text is listed twice.
abbrev pub Distinct : List Text → Type 0
Distinct [] = Unit
Distinct (x ∷ s) = (mem x s ≡ false) × Distinct s

pub mem-append : (z x : Text) (s : List Text) → mem z (s ++ x ∷ []) ≡ (mem z s || text_eq x z)
unfolding mem
mem-append z x [] = ground arith
mem-append z x (y ∷ s) = ground (arith, mem-append z x s)

pub mem-add :
    (z x : Text) (s : List Text) → mem z (add x s) ≡ (if text_eq x z then true else mem z s)
unfolding add
mem-add z x s = ground (arith, mem-append z x s, text_eq_iff x z)

pub mem-discard :
    (z x : Text) (s : List Text) → mem z (discard x s) ≡ (if text_eq x z then false else mem z s)
unfolding mem discard
mem-discard z x [] = ground arith
mem-discard z x (y ∷ s) =
    ground (arith, mem-discard z x s, text_eq_iff x z, text_eq_iff y z, text_eq_iff y x)

Distinct-snoc : (x : Text) (s : List Text) → Distinct s → mem x s ≡ false → Distinct (s ++ x ∷ [])
unfolding mem
Distinct-snoc x [] h n = (refl, tt)
Distinct-snoc x (y ∷ s) h n =
    ground (arith, Distinct-snoc x s h.1, mem-append y x s, text_eq_iff x y, text_eq_iff y x)

pub add-Distinct : (x : Text) (s : List Text) → Distinct s → Distinct (add x s)
unfolding add
add-Distinct x s h = ground (arith, Distinct-snoc x s h)

pub discard-Distinct : (x : Text) (s : List Text) → Distinct s → Distinct (discard x s)
unfolding discard
discard-Distinct x [] h = tt
discard-Distinct x (y ∷ s) h = ground (arith, discard-Distinct x s h.1, mem-discard y x s)

pub discard_absent : (x : Text) (s : List Text) → mem x s ≡ false → discard x s ≡ s
unfolding mem discard
discard_absent x [] h = refl
discard_absent x (y ∷ s) h = ground (arith, discard_absent x s)
