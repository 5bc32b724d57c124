-- ===== src/Tests/Models.antt =====
-- The ids of three messages that are made within a millisecond.
use ai_coding_training.Base.{◌≡◌, refl, List, ℕ, [], ◌∷◌, arith}
use ai_coding_training.Text.{codes}
use ai_coding_training.Text.Decimal.{decimal, digits_from, padded}
use ai_coding_training.Members.{Distinct}
use ai_coding_training.Models.{generate_id, id_text}
use ai_coding_training.Models.Ids.{generate_ids, generate_ids-Distinct}

abbrev times : List ℕ
times = 5000000 ∷ 5000001 ∷ 5000002 ∷ []

ids : generate_ids times 7 ≡ codes "M5000000008" ∷ codes "M5000000009" ∷ codes "M5000000010" ∷ []
unfolding generate_ids generate_id id_text decimal digits_from padded
ids = refl

generate_ids-Distinct_example : Distinct (generate_ids times 7)
generate_ids-Distinct_example = generate_ids-Distinct times 7 (omega arith)
