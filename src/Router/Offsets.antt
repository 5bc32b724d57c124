-- ===== src/Router/Offsets.antt =====
-- The offsets of consumers on topics: `set_offset` and `get_offset`.
use ai_coding_training.Base.{
  ℕ, ◌≡◌, refl, sym, ap, ◌∙◌, true, ◌&&◌, [], ◌∷◌, if◌then◌else◌, Bool-cases, inl, inr,
}
use ai_coding_training.Base.Int.{pos}
use ai_coding_training.Text.{Text, text_eq, text_eq→eq, text_eq_refl}
use ai_coding_training.Text.Words.{free_of, split, join, split-append, join-split}
use ai_coding_training.Dict.{lookup-insert}
use ai_coding_training.Router.{Router, offset_key, get_offset, put_offset, set_offset, or_zero}

key_injective :
    (t t' c c' : Text)
    → free_of b':' t ≡ true
    → free_of b':' t' ≡ true
    → offset_key t c ≡ offset_key t' c'
    → (t ≡ t') × (c ≡ c')
unfolding offset_key
key_injective t t' c c' h h' e =
    let words : t ∷ split b':' c ≡ t' ∷ split b':' c' =
      sym (split-append b':' t c h) ∙ ap (split b':') e ∙ split-append b':' t' c' h' in
    let tails : split b':' c ≡ split b':' c' = cc in
    (cc, sym (join-split b':' c) ∙ ap (join (b':' ∷ [])) tails ∙ join-split b':' c')

key_test :
    (t t' c c' : Text)
    → free_of b':' t ≡ true
    → free_of b':' t' ≡ true
    → text_eq (offset_key t c) (offset_key t' c') ≡ (text_eq t t' && text_eq c c')
key_test t t' c c' h h' = elim (Bool-cases (text_eq (offset_key t c) (offset_key t' c'))) [
  | inl e ↦
      let (x, y) = key_injective t t' c c' h h' (text_eq→eq _ _ e) in
      rw (e, x, y, text_eq_refl t', text_eq_refl c') refl
  | inr ne ↦ elim (Bool-cases (text_eq t t')) [
    | inr a ↦ rw (ne, a) refl
    | inl a ↦ elim (Bool-cases (text_eq c c')) [
      | inr b ↦ rw (ne, a, b) refl
      | inl b ↦
          let z : text_eq (offset_key t c) (offset_key t' c') ≡ true =
            rw (text_eq→eq t t' a, text_eq→eq c c' b) (text_eq_refl (offset_key t' c')) in
          cc
    ]
  ]
]

-- The offset that is read back for the key that was written.
pub get_offset-put_offset :
    (topic c : Text) (n : ℕ) (s : Router) → get_offset topic c (put_offset topic c n s) ≡ n
unfolding get_offset put_offset
get_offset-put_offset topic c n s =
    let k = offset_key topic c in
    ap or_zero (lookup-insert k k n s.topic_offsets) ∙ rw (text_eq_refl k) refl

-- For topics whose names have no colon, `set_offset` with an offset that is not negative changes
-- what `get_offset` says for that topic and consumer, to the offset, and for no other pair.
pub get_offset-set_offset :
    (topic topic' c c' : Text) (n : ℕ) (s : Router)
    → free_of b':' topic ≡ true
    → free_of b':' topic' ≡ true
    → get_offset topic' c' (set_offset topic c (pos n) s).1
      ≡ (if text_eq topic topic' && text_eq c c' then n else get_offset topic' c' s)
unfolding get_offset put_offset set_offset
get_offset-set_offset topic topic' c c' n s h h' =
    let k = offset_key topic c in
    let k' = offset_key topic' c' in
    ap or_zero (lookup-insert k k' n s.topic_offsets)
    ∙ rw (key_test topic topic' c c' h h')
        (elim (Bool-cases (text_eq topic topic' && text_eq c c')) [
          | inl e ↦ rw e refl
          | inr e ↦ rw e refl
        ])
