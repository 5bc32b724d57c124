-- ===== src/Text/Names.antt =====
-- The names of topics and queues: `TOPIC_NAME_RE` of src/topic_manager.py and `QUEUE_NAME_RE` of
-- src/queue_manager.py, which are one pattern, used with `re.match`.
use ai_coding_training.Base.{
  ℕ, zero, suc, ◌<◌, ◌≤◌, ltb, false, not, ◌≡◌, ◌⊎◌, ◌↔◌, refl, sym, ◌∙◌, inl, inr, Bool, true,
  ◌&&◌, ◌||◌, [], ◌∷◌, ◌++◌, arith, leb, ◌==◌, if◌then◌else◌, length, all, All, Bool-cases,
}
use ai_coding_training.Text.{Text, codes, is_empty}

-- `[a-zA-Z0-9_-]`
unfoldable pub is_name_char : ℕ → Bool
is_name_char c =
    (leb b'a' c && leb c b'z')
    || (leb b'A' c && leb c b'Z')
    || (leb b'0' c && leb c b'9')
    || (c == b'_')
    || (c == b'-')

-- `[a-zA-Z0-9_-]{1,256}` on the whole text.
unfoldable pub is_plain_name : Text → Bool
unfolding is_name_char
is_plain_name s = all is_name_char s && leb 1 (length s) && leb (length s) 256

-- The text without one newline at its end.
unfoldable pub chop_newline : Text → Text
chop_newline [] = []
chop_newline (c ∷ s) = let rest = chop_newline s in if is_empty s && c == 10 then [] else c ∷ rest

-- `NAME_RE.match(s)`: `$` matches at the end, and also before a newline at the end.
unfoldable pub name_matches : Text → Bool
unfolding is_plain_name chop_newline
name_matches s = is_plain_name s || is_plain_name (chop_newline s)

chop_newline-cases : (s : Text) → (chop_newline s ≡ s) ⊎ (s ≡ chop_newline s ++ 10 ∷ [])
unfolding chop_newline
chop_newline-cases [] = inl refl
chop_newline-cases (c ∷ []) = elim (Bool-cases (c == 10)) [
  | inl h ↦ inr (ground arith)
  | inr h ↦ inl (ground arith)
]
chop_newline-cases (c ∷ d ∷ s) = elim (chop_newline-cases (d ∷ s)) [
  | inl e ↦ inl (ground arith)
  | inr e ↦ inr (ground arith)
]

chop_newline-append : (s : Text) → chop_newline (s ++ 10 ∷ []) ≡ s
unfolding chop_newline
chop_newline-append [] = refl
chop_newline-append (c ∷ []) = ground arith
chop_newline-append (c ∷ d ∷ s) = ground (arith, chop_newline-append (d ∷ s))

-- The characters of a name, one by one.
abbrev pub alphabet : Text
alphabet = codes "abcdefghijklmnopqrstuvwxyzABCDEFGHIJKLMNOPQRSTUVWXYZ0123456789_-"

-- Whether a character stands in a text.
abbrev pub is_in : ℕ → Text → Bool
is_in c [] = false
is_in c (a ∷ s) = (a == c) || is_in c s

-- Two tests give the same for every number below one.
agree_below : (ℕ → Bool) → (ℕ → Bool) → ℕ → Bool
agree_below p q zero = true
agree_below p q (suc n) = let rest = agree_below p q n in (if p n then q n else not (q n)) && rest

agree_at : (p q : ℕ → Bool) (n c : ℕ) → agree_below p q n ≡ true → c < n → p c ≡ q c
unfolding agree_below
agree_at p q zero c h l = absurd (omega arith)
agree_at p q (suc n) c h l = elim (Bool-cases (c == n)) [
  | inl e ↦ let same : c ≡ n = ground arith in let here : p n ≡ q n = ground arith in rw same here
  | inr ne ↦ agree_at p q n c (ground arith) (ground arith)
]

ascii_agrees : agree_below is_name_char (λ c. is_in c alphabet) 128 ≡ true
unfolding agree_below is_name_char
ascii_agrees = refl

above : (s : Text) (c : ℕ) → all (λ a. ltb a 128) s ≡ true → 128 ≤ c → is_in c s ≡ false
above [] c h l = refl
above (a ∷ s) c h l = ground (arith, above s c)

high_is_no_name_char : (c : ℕ) → 128 ≤ c → is_name_char c ≡ false
unfolding is_name_char
high_is_no_name_char c h = ground arith

is_name_char-is_in : (c : ℕ) → is_name_char c ≡ is_in c alphabet
is_name_char-is_in c = elim (Bool-cases (ltb c 128)) [
  | inl low ↦ agree_at is_name_char (λ c. is_in c alphabet) 128 c ascii_agrees (ground arith)
  | inr high ↦
      let out = above alphabet c refl (ground arith) in
      high_is_no_name_char c (ground arith) ∙ sym out
]

name_matches-plain :
    (s : Text)
    → (name_matches s ≡ true)
      ↔ ((is_plain_name s ≡ true) ⊎ ((t : Text) × (is_plain_name t ≡ true) × (s ≡ t ++ 10 ∷ [])))
unfolding name_matches
name_matches-plain s = (split_cases, join_cases)
  where
    split_cases :
        name_matches s ≡ true
        → (is_plain_name s ≡ true) ⊎ ((t : Text) × (is_plain_name t ≡ true) × (s ≡ t ++ 10 ∷ []))
    split_cases h = elim (Bool-cases (is_plain_name s)) [
      | inl p ↦ inl p
      | inr n ↦ elim (chop_newline-cases s) [
        | inl e ↦ inl (ground arith)
        | inr e ↦ inr (chop_newline s, ground arith, e)
      ]
    ]

    join_cases :
        (is_plain_name s ≡ true) ⊎ ((t : Text) × (is_plain_name t ≡ true) × (s ≡ t ++ 10 ∷ []))
        → name_matches s ≡ true
    join_cases (inl p) = ground arith
    join_cases (inr (t, p, e)) = rw e (ground (arith, chop_newline-append t))

-- What the pattern is for: from one to 256 letters of ASCII, digits, underscores and dashes.
pub record IsName (t : Text) : Type 0 where
  pub letters : All (λ c. is_in c alphabet ≡ true) t
  pub some_letter : 1 ≤ length t
  pub short : length t ≤ 256

all-is_in : (t : Text) → (all is_name_char t ≡ true) ↔ All (λ c. is_in c alphabet ≡ true) t
all-is_in [] = ((λ h. tt), (λ h. refl))
all-is_in (c ∷ t) = (
  (λ h. (sym (is_name_char-is_in c) ∙ first h, (all-is_in t).0 (rest h))),
  (λ h. both (is_name_char-is_in c ∙ h.0) ((all-is_in t).1 h.1)),
)
  where
    first : all is_name_char (c ∷ t) ≡ true → is_name_char c ≡ true
    first h = ground arith

    rest : all is_name_char (c ∷ t) ≡ true → all is_name_char t ≡ true
    rest h = ground arith

    both : is_name_char c ≡ true → all is_name_char t ≡ true → all is_name_char (c ∷ t) ≡ true
    both h k = ground arith

is_plain_name_iff : (t : Text) → (is_plain_name t ≡ true) ↔ IsName t
unfolding is_plain_name
is_plain_name_iff t = (
  (λ h. record {
    letters = (all-is_in t).0 (ground arith);
    some_letter = ground arith;
    short = ground arith;
  }),
  (λ n. let letters = (all-is_in t).1 n.letters in ground (arith, n.some_letter, n.short)),
)

-- The pattern accepts exactly the names, and the names with one newline behind them; a name is from
-- one to 256 characters of the alphabet, which is written out.
pub name_matches_iff :
    (s : Text) → (name_matches s ≡ true) ↔ (t : Text) × IsName t × ((s ≡ t) ⊎ (s ≡ t ++ 10 ∷ []))
name_matches_iff s = (accepted, accepts)
  where
    accepted : name_matches s ≡ true → (t : Text) × IsName t × ((s ≡ t) ⊎ (s ≡ t ++ 10 ∷ []))
    accepted h = elim ((name_matches-plain s).0 h) [
      | inl p ↦ (s, (is_plain_name_iff s).0 p, inl refl)
      | inr (t, p, e) ↦ (t, (is_plain_name_iff t).0 p, inr e)
    ]

    accepts : (t : Text) × IsName t × ((s ≡ t) ⊎ (s ≡ t ++ 10 ∷ [])) → name_matches s ≡ true
    accepts (t, n, inl e) = (name_matches-plain s).1 (inl (rw e ((is_plain_name_iff t).1 n)))
    accepts (t, n, inr e) = (name_matches-plain s).1 (inr (t, (is_plain_name_iff t).1 n, e))
