-- ===== src/Groups/Heartbeats.antt =====
-- What `check_timeouts` does with a consumer, by its last heartbeat.
use ai_coding_training.Base.{
  ℕ, ◌≡◌, refl, ap, ◌∙◌, Bool, false, ◌&&◌, ◌||◌, Option, none, some, List, [], ◌∷◌, arith,
  if◌then◌else◌, Bool-cases, inl, inr,
}
use ai_coding_training.Text.{Text, text_eq, text_eq→eq, text_eq_iff}
use ai_coding_training.Members.{mem, mem-discard, Distinct}
use ai_coding_training.Dict.{
  Dict, lookup, erase, keys, map_values, map_option, lookup-erase, lookup-map_values,
}
use ai_coding_training.Groups.{
  GroupManager, is_late, expel, leave, check_each, check_timeouts, get_group_members,
}

-- `consumer_id in self._groups[name]`, for a group that is there.
unfoldable pub is_member : Text → Text → GroupManager → Bool
is_member name c m = mem c (get_group_members name m)

pub is_member-leave :
    (name c d : Text) (m : GroupManager) (hb : Dict ℕ)
    → is_member name d (record m { groups = map_values (leave c) m.groups; heartbeats = hb })
      ≡ (if text_eq c d then false else is_member name d m)
unfolding is_member get_group_members mem
is_member-leave name c d m hb =
    ap (mem d) (ap members (lookup-map_values (leave c) name m.groups))
    ∙ by_cases (lookup name m.groups)
  where
    members : Option (List Text) → List Text
    members o = elim o [ none ↦ [] | some s ↦ s ]

    by_cases :
        (o : Option (List Text))
        → mem d (members (map_option (leave c) o))
          ≡ (if text_eq c d then false else mem d (members o))
    by_cases none = ground arith
    by_cases (some s) = ground (arith, mem-discard d c s, text_eq_iff c d)

-- Whether some heartbeat of the consumer among these is late.
unfoldable pub overdue : ℕ → ℕ → Text → Dict ℕ → Bool
overdue now timeout c [] = false
overdue now timeout c ((k, last) ∷ d) =
    (text_eq k c && is_late now timeout last) || overdue now timeout c d

timeout-expel : (c : Text) (m : GroupManager) → (expel c m).heartbeat_timeout ≡ m.heartbeat_timeout
unfolding expel
timeout-expel c m = refl

is_member-expel :
    (name c d : Text) (m : GroupManager)
    → is_member name d (expel c m) ≡ (if text_eq c d then false else is_member name d m)
unfolding expel
is_member-expel name c d m = is_member-leave name c d m (erase c m.heartbeats)

lookup-expel :
    (c d : Text) (m : GroupManager)
    → lookup d (expel c m).heartbeats ≡ (if text_eq c d then none else lookup d m.heartbeats)
unfolding expel
lookup-expel c d m = lookup-erase c d m.heartbeats

module _ (now : ℕ) (c : Text) where
  mem-check_each :
      (d : Dict ℕ) (m : GroupManager)
      → mem c (check_each now d m).0 ≡ overdue now m.heartbeat_timeout c d
  unfolding check_each overdue mem
  mem-check_each [] m = refl
  mem-check_each ((k, last) ∷ d) m = elim (Bool-cases (is_late now m.heartbeat_timeout last)) [
    | inl late ↦ ground (arith, mem-check_each d (expel k m), timeout-expel k m)
    | inr soon ↦ ground (arith, mem-check_each d m)
  ]

  is_member-check_each :
      (name : Text) (d : Dict ℕ) (m : GroupManager)
      → is_member name c (check_each now d m).1
        ≡ (if overdue now m.heartbeat_timeout c d then false else is_member name c m)
  unfolding check_each overdue
  is_member-check_each name [] m = refl
  is_member-check_each name ((k, last) ∷ d) m =
      elim (Bool-cases (is_late now m.heartbeat_timeout last)) [
        | inl late ↦ ground (
          arith,
          is_member-check_each name d (expel k m),
          is_member-expel name k c m,
          timeout-expel k m,
        )
        | inr soon ↦ ground (arith, is_member-check_each name d m)
      ]

  lookup-check_each :
      (d : Dict ℕ) (m : GroupManager)
      → lookup c (check_each now d m).1.heartbeats
        ≡ (if overdue now m.heartbeat_timeout c d then none else lookup c m.heartbeats)
  unfolding check_each overdue
  lookup-check_each [] m = refl
  lookup-check_each ((k, last) ∷ d) m = elim (Bool-cases (is_late now m.heartbeat_timeout last)) [
    | inl late ↦
        ground (arith, lookup-check_each d (expel k m), lookup-expel k c m, timeout-expel k m)
    | inr soon ↦ ground (arith, lookup-check_each d m)
  ]

overdue_absent :
    (now timeout : ℕ) (c : Text) (d : Dict ℕ)
    → mem c (keys d) ≡ false
    → overdue now timeout c d ≡ false
unfolding overdue keys mem
overdue_absent now timeout c [] h = refl
overdue_absent now timeout c ((k, last) ∷ d) h = ground (arith, overdue_absent now timeout c d)

-- `now - last_hb > self._heartbeat_timeout`, for a consumer that has a heartbeat.
unfoldable pub timed_out : ℕ → ℕ → Option ℕ → Bool
timed_out now timeout none = false
timed_out now timeout (some last) = is_late now timeout last

overdue-lookup :
    (now timeout : ℕ) (c : Text) (d : Dict ℕ)
    → Distinct (keys d)
    → overdue now timeout c d ≡ timed_out now timeout (lookup c d)
unfolding overdue lookup keys timed_out
overdue-lookup now timeout c [] h = refl
overdue-lookup now timeout c ((k, last) ∷ d) h = elim (Bool-cases (text_eq k c)) [
  | inl same ↦
      let e : k ≡ c = text_eq→eq k c same in
      let absent : overdue now timeout c d ≡ false = overdue_absent now timeout c d (rw e at h.0) in
      ground arith
  | inr other ↦ ground (arith, overdue-lookup now timeout c d h.1)
]

-- Where no consumer has two heartbeats, `check_timeouts` reports a consumer exactly if its last
-- heartbeat is too old; then it has no heartbeat any more and is in no group, and otherwise its
-- heartbeat and its groups are as they were.
pub check_timeouts-overdue :
    (now : ℕ) (c name : Text) (m : GroupManager)
    → Distinct (keys m.heartbeats)
    → let late = timed_out now m.heartbeat_timeout (lookup c m.heartbeats) in
      let (reported, m') = check_timeouts now m in
      (mem c reported ≡ late)
      × (lookup c m'.heartbeats ≡ (if late then none else lookup c m.heartbeats))
      × (is_member name c m' ≡ (if late then false else is_member name c m))
unfolding check_timeouts
check_timeouts-overdue now c name m h =
    let e = overdue-lookup now m.heartbeat_timeout c m.heartbeats h in
    (
      mem-check_each now c m.heartbeats m ∙ e,
      lookup-check_each now c m.heartbeats m
          ∙ ap (λ (b : Bool). if b then none else lookup c m.heartbeats) e,
      is_member-check_each now c name m.heartbeats m
          ∙ ap (λ (b : Bool). if b then false else is_member name c m) e,
    )
