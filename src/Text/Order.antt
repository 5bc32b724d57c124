-- ===== src/Text/Order.antt =====
-- The order of `str`, by code points, and `sorted`.
use mathlib.Core.List.{Perm}
use mathlib.Core.List.Perm
use ai_coding_training.Base.{
  ◌≡◌, refl, Bool, true, false, List, [], ◌∷◌, ◌++◌, arith, ltb, ◌==◌, if◌then◌else◌, length,
  Bool-cases, inl, inr,
}
use ai_coding_training.Text.{Text}

-- `s <= t`
unfoldable pub text_leb : Text → Text → Bool
text_leb [] t = true
text_leb (x ∷ s) [] = false
text_leb (x ∷ s) (y ∷ t) = let rest = text_leb s t in if x == y then rest else ltb x y

pub text_leb_total : (s t : Text) → text_leb s t ≡ false → text_leb t s ≡ true
unfolding text_leb
text_leb_total [] t h = cc
text_leb_total (x ∷ s) [] h = refl
text_leb_total (x ∷ s) (y ∷ t) h = ground (arith, text_leb_total s t)

pub text_leb_trans :
    (s t u : Text) → text_leb s t ≡ true → text_leb t u ≡ true → text_leb s u ≡ true
unfolding text_leb
text_leb_trans [] t u h k = refl
text_leb_trans (x ∷ s) [] u h k = cc
text_leb_trans (x ∷ s) (y ∷ t) [] h k = cc
text_leb_trans (x ∷ s) (y ∷ t) (z ∷ u) h k = ground (arith, text_leb_trans s t u)

module _ {A : Type 0} (key : A → Text) where
  unfoldable pub insert_by : A → List A → List A
  insert_by x [] = x ∷ []
  insert_by x (y ∷ ys) =
      let rest = insert_by x ys in if text_leb (key x) (key y) then x ∷ y ∷ ys else y ∷ rest

  -- The stable sort by a key.
  unfoldable pub sort_by : List A → List A
  unfolding insert_by
  sort_by [] = []
  sort_by (x ∷ xs) = insert_by x (sort_by xs)

  abbrev pub IsAbove : Text → List A → Type 0
  IsAbove b [] = Unit
  IsAbove b (x ∷ xs) = (text_leb b (key x) ≡ true) × IsAbove b xs

  -- Each key is at most every later one.
  abbrev pub IsSortedBy : List A → Type 0
  IsSortedBy [] = Unit
  IsSortedBy (x ∷ xs) = IsAbove (key x) xs × IsSortedBy xs

  IsAbove-trans : (a b : Text) (xs : List A) → text_leb a b ≡ true → IsAbove b xs → IsAbove a xs
  IsAbove-trans a b [] h k = tt
  IsAbove-trans a b (x ∷ xs) h k = (text_leb_trans a b (key x) h k.0, IsAbove-trans a b xs h k.1)

  insert_by-IsAbove :
      (b : Text) (x : A) (xs : List A)
      → text_leb b (key x) ≡ true
      → IsAbove b xs
      → IsAbove b (insert_by x xs)
  unfolding insert_by
  insert_by-IsAbove b x [] h k = (h, tt)
  insert_by-IsAbove b x (y ∷ ys) h k = ground (arith, insert_by-IsAbove b x ys)

  insert_by-IsSortedBy : (x : A) (xs : List A) → IsSortedBy xs → IsSortedBy (insert_by x xs)
  unfolding insert_by
  insert_by-IsSortedBy x [] h = (tt, tt)
  insert_by-IsSortedBy x (y ∷ ys) h = elim (Bool-cases (text_leb (key x) (key y))) [
    | inl le ↦ rw le ((le, IsAbove-trans (key x) (key y) ys le h.0), h)
    | inr gt ↦ rw gt (
      insert_by-IsAbove (key y) x ys (text_leb_total (key x) (key y) gt) h.0,
      insert_by-IsSortedBy x ys h.1,
    )
  ]

  pub sort_by-IsSortedBy : (xs : List A) → IsSortedBy (sort_by xs)
  unfolding sort_by
  sort_by-IsSortedBy [] = tt
  sort_by-IsSortedBy (x ∷ xs) = insert_by-IsSortedBy x (sort_by xs) (sort_by-IsSortedBy xs)

  insert_by-first : (x : A) (xs : List A) → IsAbove (key x) xs → insert_by x xs ≡ x ∷ xs
  unfolding insert_by
  insert_by-first x [] h = refl
  insert_by-first x (y ∷ ys) h = rw h.0 refl

  -- What is in order already stays as it is.
  pub sort_by_sorted : (xs : List A) → IsSortedBy xs → sort_by xs ≡ xs
  unfolding sort_by
  sort_by_sorted [] h = refl
  sort_by_sorted (x ∷ xs) h = rw (sort_by_sorted xs h.1) (insert_by-first x xs h.0)

  IsAbove-snoc :
      (b : Text) (xs : List A) (y x : A)
      → text_leb (key y) (key x) ≡ true
      → IsAbove b (xs ++ y ∷ [])
      → IsAbove b ((xs ++ y ∷ []) ++ x ∷ [])
  IsAbove-snoc b [] y x l h = (h.0, (text_leb_trans b (key y) (key x) h.0 l, tt))
  IsAbove-snoc b (z ∷ xs) y x l h = (h.0, IsAbove-snoc b xs y x l h.1)

  -- A list in order, and an element behind it that is not below its last one.
  pub IsSortedBy-snoc :
      (xs : List A) (y x : A)
      → text_leb (key y) (key x) ≡ true
      → IsSortedBy (xs ++ y ∷ [])
      → IsSortedBy ((xs ++ y ∷ []) ++ x ∷ [])
  IsSortedBy-snoc [] y x l h = ((l, tt), (tt, tt))
  IsSortedBy-snoc (z ∷ xs) y x l h =
      (IsAbove-snoc (key z) xs y x l h.0, IsSortedBy-snoc xs y x l h.1)

  insert_by-perm : (x : A) (xs : List A) → Perm (insert_by x xs) (x ∷ xs)
  unfolding insert_by
  insert_by-perm x [] = Perm.refl (x ∷ [])
  insert_by-perm x (y ∷ ys) = elim (Bool-cases (text_leb (key x) (key y))) [
    | inl le ↦ rw le (Perm.refl (x ∷ y ∷ ys))
    | inr gt ↦ rw gt (Perm.trans (Perm.cons y (insert_by-perm x ys)) (Perm.swap x y ys))
  ]

  pub sort_by-perm : (xs : List A) → Perm (sort_by xs) xs
  unfolding sort_by
  sort_by-perm [] = Perm.refl []
  sort_by-perm (x ∷ xs) = Perm.trans (insert_by-perm x (sort_by xs)) (Perm.cons x (sort_by-perm xs))

  length-insert_by : (x : A) (xs : List A) → length (insert_by x xs) ≡ length (x ∷ xs)
  unfolding insert_by
  length-insert_by x [] = refl
  length-insert_by x (y ∷ ys) = ground (arith, length-insert_by x ys)

  pub length-sort_by : (xs : List A) → length (sort_by xs) ≡ length xs
  unfolding sort_by
  length-sort_by [] = refl
  length-sort_by (x ∷ xs) = ground (arith, length-insert_by x (sort_by xs), length-sort_by xs)

-- `sorted(names)`
unfoldable pub sorted : List Text → List Text
unfolding sort_by
sorted = sort_by (λ s. s)
