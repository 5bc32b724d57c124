-- ===== src/Text/Words.antt =====
-- `str.strip`, `str.split(" ")`, `str.join` and `str.upper`.
use ai_coding_training.Base.{
  ℕ, ◌-◌, ◌≡◌, ◌≢◌, refl, Bool, true, false, ◌&&◌, ◌||◌, List, [], ◌∷◌, ◌++◌, arith, ◌==◌, leb,
  if◌then◌else◌,
}
use ai_coding_training.Text.{Text, is_empty}

-- `str.isspace` of one character.
unfoldable pub is_space : ℕ → Bool
is_space c =
    (leb 9 c && leb c 13)
    || (leb 28 c && leb c 32)
    || (c == 133)
    || (c == 160)
    || (c == 0x1680)
    || (leb 0x2000 c && leb c 0x200a)
    || (c == 0x2028)
    || (c == 0x2029)
    || (c == 0x202f)
    || (c == 0x205f)
    || (c == 0x3000)

unfoldable pub lstrip : Text → Text
lstrip [] = []
lstrip (c ∷ s) = let rest = lstrip s in if is_space c then rest else c ∷ s

unfoldable pub rstrip : Text → Text
rstrip [] = []
rstrip (c ∷ s) = let rest = rstrip s in if is_empty rest && is_space c then [] else c ∷ rest

unfoldable pub strip : Text → Text
unfolding lstrip rstrip is_space
strip s = rstrip (lstrip s)

-- Put a character before the first word.
abbrev pub push : ℕ → List Text → List Text
push c [] = (c ∷ []) ∷ []
push c (w ∷ ws) = (c ∷ w) ∷ ws

-- `s.split(sep)` for a separator of one character: never empty, and words may be.
unfoldable pub split : ℕ → Text → List Text
split sep [] = [] ∷ []
split sep (c ∷ s) = let rest = split sep s in if c == sep then [] ∷ rest else push c rest

unfoldable pub join : Text → List Text → Text
join sep [] = []
join sep (w ∷ []) = w
join sep (w ∷ v ∷ ws) = w ++ sep ++ join sep (v ∷ ws)

-- `str.upper` of one character, for ASCII and for the characters outside ASCII whose upper case is
-- ASCII. Others stay as they are.
unfoldable pub upper_char : ℕ → Text
upper_char c =
    if leb b'a' c && leb c b'z'
    then (c - 32) ∷ []
    else if c == 0xdf
    then b'S' ∷ b'S' ∷ []
    else if c == 0x131
    then b'I' ∷ []
    else if c == 0x17f
    then b'S' ∷ []
    else if c == 0xfb00
    then b'F' ∷ b'F' ∷ []
    else if c == 0xfb01
    then b'F' ∷ b'I' ∷ []
    else if c == 0xfb02
    then b'F' ∷ b'L' ∷ []
    else if c == 0xfb03
    then b'F' ∷ b'F' ∷ b'I' ∷ []
    else if c == 0xfb04
    then b'F' ∷ b'F' ∷ b'L' ∷ []
    else if c == 0xfb05
    then b'S' ∷ b'T' ∷ []
    else if c == 0xfb06
    then b'S' ∷ b'T' ∷ []
    else c ∷ []

unfoldable pub upper : Text → Text
unfolding upper_char
upper [] = []
upper (c ∷ s) = upper_char c ++ upper s

pub split-cons : (sep : ℕ) (s : Text) → split sep s ≢ []
unfolding split
split-cons sep [] = λ e. cc
split-cons sep (c ∷ s) = λ e. ground (arith, split-cons sep s)

join-nil-cons :
    (sep : ℕ) (ws : List Text) → ws ≢ [] → join (sep ∷ []) ([] ∷ ws) ≡ sep ∷ join (sep ∷ []) ws
unfolding join
join-nil-cons sep [] h = absurd (h refl)
join-nil-cons sep (w ∷ ws) h = refl

join-push : (sep c : ℕ) (ws : List Text) → join (sep ∷ []) (push c ws) ≡ c ∷ join (sep ∷ []) ws
unfolding join
join-push sep c [] = refl
join-push sep c (w ∷ []) = refl
join-push sep c (w ∷ v ∷ ws) = refl

pub join-split : (sep : ℕ) (s : Text) → join (sep ∷ []) (split sep s) ≡ s
unfolding split
join-split sep [] = unfold join in refl
join-split sep (c ∷ s) = ground (
  arith,
  join-nil-cons sep (split sep s) (split-cons sep s),
  join-push sep c (split sep s),
  join-split sep s,
)

-- No character of the word is the separator.
unfoldable pub free_of : ℕ → Text → Bool
free_of sep [] = true
free_of sep (c ∷ s) = (if c == sep then false else true) && free_of sep s

pub split-append :
    (sep : ℕ) (w s : Text) → free_of sep w ≡ true → split sep (w ++ sep ∷ s) ≡ w ∷ split sep s
unfolding split free_of
split-append sep [] s h = ground arith
split-append sep (c ∷ w) s h = ground (arith, split-append sep w s)

-- A text that `lstrip` leaves alone stays so under `rstrip`.
head_space : Text → Bool
head_space [] = false
head_space (c ∷ s) = is_space c

lstrip-fix : (s : Text) → head_space s ≡ false → lstrip s ≡ s
unfolding lstrip head_space
lstrip-fix [] h = refl
lstrip-fix (c ∷ s) h = rw h

head_space-lstrip : (s : Text) → head_space (lstrip s) ≡ false
unfolding lstrip head_space
head_space-lstrip [] = refl
head_space-lstrip (c ∷ s) = ground (arith, head_space-lstrip s)

head_space-rstrip : (s : Text) → head_space s ≡ false → head_space (rstrip s) ≡ false
unfolding rstrip head_space
head_space-rstrip [] h = refl
head_space-rstrip (c ∷ s) h = ground arith

rstrip-rstrip : (s : Text) → rstrip (rstrip s) ≡ rstrip s
unfolding rstrip
rstrip-rstrip [] = refl
rstrip-rstrip (c ∷ s) = ground (arith, rstrip-rstrip s)

pub strip_idem : (s : Text) → strip (strip s) ≡ strip s
unfolding strip
strip_idem s =
    rw (lstrip-fix (rstrip (lstrip s)) (head_space-rstrip (lstrip s) (head_space-lstrip s)))
      (rstrip-rstrip (lstrip s))
