-- ===== src/Groups/RoundRobin.antt =====
-- `next_consumer` takes the members of a group in turn.
use mathlib.Core.Path.{ap₂, subst}
use mathlib.Core.List.{Perm, perm_append_comm, map-append}
use mathlib.Core.List.Perm
use native.Mathlib.Nat.{mod-eq_of_lt, mod-lt, mod-mod, mod-add-mod}
use ai_coding_training.Base.{
  ℕ, zero, suc, ◌+◌, ◌%◌, ◌<◌, ◌≡◌, refl, sym, ap, ◌∙◌, Option, some, List, [], ◌∷◌, ◌++◌, arith,
  length, get_elem?, take, drop, map, append-nil, append_assoc, length-append, length-take_le,
  take-append-drop,
}
use ai_coding_training.Text.{Text, text_eq_iff}
use ai_coding_training.Text.Order.{sorted, length-sort_by, sort_by-perm}
use ai_coding_training.Dict.{lookup, lookup-insert}
use ai_coding_training.Groups.{GroupManager, choose, next_consumer, index_or_zero}

-- So many calls of `next_consumer` in a row.
unfoldable pub picks : ℕ → Text → GroupManager → List (Option Text) × GroupManager
picks zero name m = ([], m)
picks (suc n) name m =
    let (c, m') = next_consumer name m in let (cs, m'') = picks n name m' in (c ∷ cs, m'')

-- The index at which the next choice stands.
unfoldable pub turn : Text → GroupManager → ℕ
turn name m = index_or_zero (lookup name m.next_index)

length-sorted : (s : List Text) → length (sorted s) ≡ length s
unfolding sorted
length-sorted s = length-sort_by (λ t. t) s

sorted-perm : (s : List Text) → Perm (sorted s) s
unfolding sorted
sorted-perm s = sort_by-perm (λ t. t) s

mod_self : (n : ℕ) → n % n ≡ 0 % n
mod_self n = grind arith

get_elem?-append :
    {A : Type 0} (pre : List A) (x : A) (post : List A)
    → get_elem? (pre ++ x ∷ post) (length pre) ≡ some x
get_elem?-append [] x post = refl
get_elem?-append (y ∷ pre) x post = get_elem?-append pre x post

picks-append :
    (a b : ℕ) (name : Text) (m : GroupManager)
    → (picks (a + b) name m).0 ≡ (picks a name m).0 ++ (picks b name (picks a name m).1).0
unfolding picks
picks-append zero b name m =
    let e : zero + b ≡ b = omega arith in ap (λ (n : ℕ). (picks n name m).0) e
picks-append (suc a) b name m =
    let e : suc a + b ≡ suc (a + b) = omega arith in
    ap (λ (n : ℕ). (picks n name m).0) e
    ∙ ap (λ (l : List (Option Text)). (next_consumer name m).0 ∷ l)
        (picks-append a b name (next_consumer name m).1)

mod-suc : (a b n : ℕ) → a % n ≡ b % n → (a + 1) % n % n ≡ (b + 1) % n
mod-suc a b n h =
    mod-mod (a + 1) n ∙ sym (mod-add-mod a n 1) ∙ ap (λ (k : ℕ). (k + 1) % n) h ∙ mod-add-mod b n 1

-- A group with a member: its name, one member and the others.
module _ (name first : Text) (others : List Text) where
  abbrev members : List Text
  members = first ∷ others

  -- The manager has the group, with these members.
  abbrev HasGroup : GroupManager → Type 0
  HasGroup m = lookup name m.groups ≡ some members

  one_pick :
      (m : GroupManager)
      → HasGroup m
      → let (c, m') = next_consumer name m in
        (c ≡ get_elem? (sorted members) (turn name m % length (sorted members)))
        × HasGroup m'
        × (turn name m' ≡ (turn name m + 1) % length (sorted members))
  unfolding next_consumer choose turn
  one_pick m h =
      let next = (index_or_zero (lookup name m.next_index) + 1) % length (sorted members) in
      ground (arith, lookup-insert name name next m.next_index, text_eq_iff name name)

  -- From the position behind `pre` on, the choices are what stands there.
  picks-slice :
      (pre xs post : List Text) (m : GroupManager)
      → HasGroup m
      → sorted members ≡ pre ++ (xs ++ post)
      → turn name m % length (sorted members) ≡ length pre % length (sorted members)
      → let (cs, m') = picks (length xs) name m in
        (cs ≡ map some xs)
        × HasGroup m'
        × (turn name m' % length (sorted members)
            ≡ (length pre + length xs) % length (sorted members))
  unfolding picks
  picks-slice pre [] post m h e t =
      (refl, h, t ∙ ap (λ (k : ℕ). k % length (sorted members)) (omega arith))
  picks-slice pre (x ∷ xs) post m h e t =
      let L = sorted members in
      let n = length (sorted members) in
      let (chosen, h', t') = one_pick m h in
      let m' = (next_consumer name m).1 in
      let long : n ≡ length pre + suc (length xs + length post) =
        ap (λ (l : List Text). length l) e
        ∙ omega (arith, length-append pre (x ∷ (xs ++ post)), length-append xs post) in
      let here : length pre % n ≡ length pre = mod-eq_of_lt (omega arith) in
      let one_more : length (pre ++ x ∷ []) ≡ length pre + 1 = length-append pre (x ∷ []) in
      let (cs, h'', t'') =
        picks-slice (pre ++ x ∷ []) xs post m' h' (e ∙ sym (append_assoc pre (x ∷ []) (xs ++ post)))
          (ap (λ (k : ℕ). k % n) t'
            ∙ mod-suc (turn name m) (length pre) n t
            ∙ ap (λ (k : ℕ). k % n) (sym one_more)) in
      let picked : (next_consumer name m).0 ≡ some x =
        chosen
        ∙ ap (λ (k : ℕ). get_elem? L k) (t ∙ here)
        ∙ ap (λ (l : List Text). get_elem? l (length pre)) e
        ∙ get_elem?-append pre x (xs ++ post) in
      let total : length (pre ++ x ∷ []) + length xs ≡ length pre + suc (length xs) = omega arith in
      (
        ap₂ (λ (c : Option Text) (l : List (Option Text)). c ∷ l) picked cs,
        h'',
        t'' ∙ ap (λ (k : ℕ). k % n) total,
      )

  -- For a group with members, in as many calls of `next_consumer` in a row as it has members, from
  -- whatever index, each member is chosen once.
  pub picks_round :
      (m : GroupManager)
      → lookup name m.groups ≡ some members
      → (l : List Text) × ((picks (length members) name m).0 ≡ map some l) × Perm l members
  picks_round m h =
      let L = sorted members in
      let n = length (sorted members) in
      let i = turn name m % n in
      let long : n ≡ length members = length-sorted members in
      let i_lt : i < n = mod-lt (turn name m) (omega arith) in
      let front : length (take i L) ≡ i = length-take_le i L (omega arith) in
      let split = take-append-drop i L in
      let m' = (picks (length (drop i L)) name m).1 in
      let (later, h', t') =
        picks-slice (take i L) (drop i L) [] m h
          (sym split ∙ ap (λ (l : List Text). take i L ++ l) (sym (append-nil (drop i L))))
          (sym (mod-mod (turn name m) n) ∙ ap (λ (k : ℕ). k % n) (sym front)) in
      let all_of : length (take i L) + length (drop i L) ≡ n =
        sym (length-append (take i L) (drop i L)) ∙ ap (λ (l : List Text). length l) split in
      let (earlier, h'', t'') =
        picks-slice [] (take i L) (drop i L) m' h' (sym split)
          (t' ∙ ap (λ (k : ℕ). k % n) all_of ∙ mod_self n) in
      let whole : length members ≡ length (drop i L) + length (take i L) = omega arith in
      (
        drop i L ++ take i L,
        ap (λ (k : ℕ). (picks k name m).0) whole
            ∙ picks-append (length (drop i L)) (length (take i L)) name m
            ∙ ap₂ (λ (a b : List (Option Text)). a ++ b) later earlier
            ∙ sym (map-append some (drop i L) (take i L)),
        Perm.trans (perm_append_comm (drop i L) (take i L))
            (subst (λ (l : List Text). Perm l members) (sym split) (sorted-perm members)),
      )
