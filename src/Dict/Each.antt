-- ===== src/Dict/Each.antt =====
-- A property of every entry of a dict, and the updates that keep it.
use mathlib.Core.Path.{subst, subst₂}
use ai_coding_training.Base.{◌≡◌, ◌⊎◌, inl, inr, some, [], arith, Bool-cases, Option-cases}
use ai_coding_training.Text.{Text, text_eq, text_eq→eq}
use ai_coding_training.Dict.{
  Dict, lookup, insert, erase, map_values, lookup-insert, lookup-erase, lookup-map_values,
}

pub record Each {V : Type 0} (P : Text → V → Type 0) (d : Dict V) : Type 0 where
  pub at : (k : Text) (v : V) → lookup k d ≡ some v → P k v

module _ {V : Type 0} where
  pub lookup-insert_cases :
      (k j : Text) (v w : V) (d : Dict V)
      → lookup j (insert k v d) ≡ some w
      → ((k ≡ j) × (v ≡ w)) ⊎ (lookup j d ≡ some w)
  lookup-insert_cases k j v w d h = elim (Bool-cases (text_eq k j)) [
    | inl same ↦ inl (text_eq→eq k j same, ground (arith, lookup-insert k j v d))
    | inr other ↦ inr (ground (arith, lookup-insert k j v d))
  ]

module _ {V : Type 0} (P : Text → V → Type 0) where
  pub Each-nil : Each P []
  unfolding lookup
  Each-nil = record { at = λ k v h. cc }

  pub Each-insert : (k : Text) (v : V) (d : Dict V) → Each P d → P k v → Each P (insert k v d)
  Each-insert k v d e p = record {
    at = λ j w h. elim (lookup-insert_cases k j v w d h) [
      | inl (kj, vw) ↦ subst₂ P kj vw p
      | inr old ↦ e.at j w old
    ];
  }

  pub Each-erase : (k : Text) (d : Dict V) → Each P d → Each P (erase k d)
  Each-erase k d e = record { at = λ j w h. e.at j w (ground (arith, lookup-erase k j d)) }

  pub Each-map_values :
      (f : V → V) (d : Dict V)
      → Each P d
      → ((k : Text) (v : V) → P k v → P k (f v))
      → Each P (map_values f d)
  Each-map_values f d e keep = record {
    at = λ k w h. elim (Option-cases (lookup k d)) [
      | inl gone ↦ absurd (ground (arith, lookup-map_values f k d))
      | inr (v, old) ↦
          subst (P k) (ground (arith, lookup-map_values f k d)) (keep k v (e.at k v old))
    ];
  }
