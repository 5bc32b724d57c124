-- ===== src/Dict.antt =====
-- A Python `dict` keyed by texts, in insertion order.
pub mod Each
use ai_coding_training.Base.{
  ℕ, suc, ◌≡◌, ◌≢◌, refl, Bool, true, false, Option, none, some, List, [], ◌∷◌, ◌++◌, arith,
  if◌then◌else◌, length, ◌≤◌, ◌+◌, ◌-◌, map,
}
use ai_coding_training.Text.{Text, text_eq, text_eq_iff}
use ai_coding_training.Members.{mem, Distinct}

abbrev pub Dict {ℓ} : Type ℓ → Type ℓ
Dict V = List (Text × V)

module _ {ℓ} {V : Type ℓ} where
  -- `d.get(k)`
  unfoldable pub lookup : Text → Dict V → Option V
  lookup k [] = none
  lookup k ((j, v) ∷ d) = if text_eq j k then some v else lookup k d

  -- `k in d`
  unfoldable pub contains : Text → Dict V → Bool
  unfolding lookup
  contains k d = elim (lookup k d) [ none ↦ false | some _ ↦ true ]

  -- `d[k] = v`: a key that is there keeps its place.
  unfoldable pub insert : Text → V → Dict V → Dict V
  insert k v [] = (k, v) ∷ []
  insert k v ((j, w) ∷ d) =
      let rest = insert k v d in if text_eq j k then (j, v) ∷ d else (j, w) ∷ rest

  -- `d.pop(k, None)`
  unfoldable pub erase : Text → Dict V → Dict V
  erase k [] = []
  erase k ((j, w) ∷ d) = let rest = erase k d in if text_eq j k then rest else (j, w) ∷ rest

  -- `for v in d.values(): v = f(v)`, where `f` mutates the value in place.
  unfoldable pub map_values : (V → V) → Dict V → Dict V
  map_values f [] = []
  map_values f ((j, w) ∷ d) = (j, f w) ∷ map_values f d

  -- `d.keys()`
  unfoldable pub keys : Dict V → List Text
  keys [] = []
  keys ((j, w) ∷ d) = j ∷ keys d

  pub lookup-insert :
      (k j : Text) (v : V) (d : Dict V)
      → lookup j (insert k v d) ≡ (if text_eq k j then some v else lookup j d)
  unfolding lookup insert
  lookup-insert k j v [] = refl
  lookup-insert k j v ((i, w) ∷ d) =
      ground (arith, text_eq_iff k j, text_eq_iff i k, text_eq_iff i j, lookup-insert k j v d)

  pub lookup-erase :
      (k j : Text) (d : Dict V) → lookup j (erase k d) ≡ (if text_eq k j then none else lookup j d)
  unfolding lookup erase
  lookup-erase k j [] = ground arith
  lookup-erase k j ((i, w) ∷ d) =
      ground (arith, text_eq_iff k j, text_eq_iff i k, text_eq_iff i j, lookup-erase k j d)

  pub length-insert :
      (k : Text) (v : V) (d : Dict V)
      → length (insert k v d) ≡ (if contains k d then length d else suc (length d))
  unfolding lookup insert contains
  length-insert k v [] = refl
  length-insert k v ((i, w) ∷ d) = ground (arith, length-insert k v d)

  pub length-erase-le : (k : Text) (d : Dict V) → length (erase k d) ≤ length d
  unfolding erase
  length-erase-le k [] = omega arith
  length-erase-le k ((i, w) ∷ d) = ground (arith, length-erase-le k d)

  pub mem-keys : (k : Text) (d : Dict V) → mem k (keys d) ≡ contains k d
  unfolding mem keys contains lookup
  mem-keys k [] = refl
  mem-keys k ((i, w) ∷ d) = ground (arith, mem-keys k d)

  pub length-keys : (d : Dict V) → length (keys d) ≡ length d
  unfolding keys
  length-keys [] = refl
  length-keys (e ∷ d) = ground (arith, length-keys d)

  keys-insert-mem :
      (j k : Text) (v : V) (d : Dict V)
      → mem j (keys (insert k v d)) ≡ (if text_eq k j then true else mem j (keys d))
  unfolding insert keys mem
  keys-insert-mem j k v [] = ground arith
  keys-insert-mem j k v ((i, w) ∷ d) =
      ground (arith, keys-insert-mem j k v d, text_eq_iff k j, text_eq_iff i k, text_eq_iff i j)

  -- A new key comes last.
  pub keys-insert :
      (k : Text) (v : V) (d : Dict V)
      → keys (insert k v d) ≡ (if contains k d then keys d else keys d ++ k ∷ [])
  unfolding insert keys contains lookup
  keys-insert k v [] = refl
  keys-insert k v ((i, w) ∷ d) = ground (arith, keys-insert k v d)

  pub insert-Distinct :
      (k : Text) (v : V) (d : Dict V) → Distinct (keys d) → Distinct (keys (insert k v d))
  unfolding insert keys mem
  insert-Distinct k v [] h = (refl, tt)
  insert-Distinct k v ((i, w) ∷ d) h =
      ground (
        arith,
        insert-Distinct k v d h.1,
        keys-insert-mem i k v d,
        text_eq_iff k i,
        text_eq_iff i k,
      )

  keys-erase-mem :
      (j k : Text) (d : Dict V)
      → mem j (keys (erase k d)) ≡ (if text_eq k j then false else mem j (keys d))
  unfolding erase keys mem
  keys-erase-mem j k [] = ground arith
  keys-erase-mem j k ((i, w) ∷ d) =
      ground (arith, keys-erase-mem j k d, text_eq_iff k j, text_eq_iff i k, text_eq_iff i j)

  pub erase-Distinct : (k : Text) (d : Dict V) → Distinct (keys d) → Distinct (keys (erase k d))
  unfolding erase keys
  erase-Distinct k [] h = tt
  erase-Distinct k ((i, w) ∷ d) h = ground (arith, erase-Distinct k d h.1, keys-erase-mem i k d)

  pub keys-map_values : (f : V → V) (d : Dict V) → keys (map_values f d) ≡ keys d
  unfolding keys map_values
  keys-map_values f [] = refl
  keys-map_values f ((i, w) ∷ d) = ground (arith, keys-map_values f d)

  abbrev pub map_option : (V → V) → Option V → Option V
  map_option f none = none
  map_option f (some v) = some (f v)

  pub lookup-map_values :
      (f : V → V) (k : Text) (d : Dict V) → lookup k (map_values f d) ≡ map_option f (lookup k d)
  unfolding lookup map_values
  lookup-map_values f k [] = refl
  lookup-map_values f k ((i, w) ∷ d) = ground (arith, lookup-map_values f k d)
