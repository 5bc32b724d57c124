-- ===== src/Groups/Invariant.antt =====
-- The dicts of the manager agree, and heartbeats and members are listed once.
use ai_coding_training.Base.{
  ℕ, ◌+◌, ◌%◌, length, ◌≡◌, refl, sym, ◌∙◌, Bool, true, false, Option, none, some, List, [], ◌∷◌,
  arith, if◌then◌else◌, Option-cases, Bool-cases, inl, inr,
}
use ai_coding_training.Text.{Text, text_eq, text_eq_iff}
use ai_coding_training.Text.Order.{sorted}
use ai_coding_training.Members.{add, discard, Distinct, add-Distinct, discard-Distinct}
use ai_coding_training.Dict.{
  Dict, lookup, contains, insert, erase, keys, map_values, map_option, lookup-insert, lookup-erase,
  lookup-map_values, insert-Distinct, erase-Distinct,
}
use ai_coding_training.Dict.Each.{Each, Each-nil, Each-insert, Each-erase, Each-map_values}
use ai_coding_training.Groups.{
  GroupManager, create_group, delete_group, join_group, leave_group, leave,
  remove_consumer_from_all_groups, next_consumer, choose, has_any, heartbeat, is_late, expel,
  check_each, check_timeouts, init, index_or_zero,
}
use ai_coding_training.Groups.Steps.{
  Call, create, delete, join, part, disconnect, pick, ping, check, call, run_groups,
}

abbrev IsGroup : Text → List Text → Type 0
IsGroup name members = Distinct members

-- Each group has a target and a round-robin index, and only groups do.
pub record IsValid (m : GroupManager) : Type 0 where
  pub targets : (g : Text) → contains g m.group_targets ≡ contains g m.groups
  pub indices : (g : Text) → contains g m.next_index ≡ contains g m.groups
  pub once : Distinct (keys m.heartbeats)
  pub members : Each IsGroup m.groups

module _ {V : Type 0} where
  contains-insert :
      (k j : Text) (v : V) (d : Dict V)
      → contains j (insert k v d) ≡ (if text_eq k j then true else contains j d)
  unfolding contains
  contains-insert k j v d = ground (arith, lookup-insert k j v d)

  contains-erase :
      (k j : Text) (d : Dict V)
      → contains j (erase k d) ≡ (if text_eq k j then false else contains j d)
  unfolding contains
  contains-erase k j d = ground (arith, lookup-erase k j d)

  contains-map_values :
      (f : V → V) (j : Text) (d : Dict V) → contains j (map_values f d) ≡ contains j d
  unfolding contains
  contains-map_values f j d = rw (lookup-map_values f j d, contains) (by_cases (lookup j d))
    where
      by_cases :
          (o : Option V)
          → (elim (map_option f o) as (λ _. Bool) [ none ↦ false | some _ ↦ true ])
            ≡ (elim o as (λ _. Bool) [ none ↦ false | some _ ↦ true ])
      by_cases none = refl
      by_cases (some v) = refl

pub create_group-IsValid :
    (target g : Text) (m : GroupManager) → IsValid m → IsValid (create_group target g m).1
unfolding create_group
create_group-IsValid target g m v = elim (Bool-cases (contains g m.groups)) [
  | inl there ↦ rw (there, create_group) v
  | inr new ↦
      rw (new, create_group)
        (record {
          targets = λ j. ground (
            arith,
            contains-insert g j target m.group_targets,
            contains-insert g j [] m.groups,
            v.targets j,
          );
          indices = λ j. ground (
            arith,
            contains-insert g j 0 m.next_index,
            contains-insert g j [] m.groups,
            v.indices j,
          );
          once = v.once;
          members = Each-insert IsGroup g [] m.groups v.members tt;
        })
]

contains-found :
    {V : Type 0} (k : Text) (v : V) (d : Dict V) → lookup k d ≡ some v → contains k d ≡ true
unfolding contains
contains-found k v d h = ground arith

contains-insert_found :
    {V : Type 0} (k j : Text) (v w : V) (d : Dict V)
    → lookup k d ≡ some v
    → contains j (insert k w d) ≡ contains j d
contains-insert_found k j v w d h =
    ground (arith, contains-insert k j w d, contains-found k v d h, text_eq_iff k j)

module _ (g : Text) (old new : List Text) (hb : Dict ℕ) (m : GroupManager) where
  -- Giving a group that is there other members.
  set_members-IsValid :
      IsValid m
      → lookup g m.groups ≡ some old
      → Distinct new
      → Distinct (keys hb)
      → IsValid (record m { groups = insert g new m.groups; heartbeats = hb })
  set_members-IsValid v found d h = record {
    targets = λ j. v.targets j ∙ sym (contains-insert_found g j old new m.groups found);
    indices = λ j. v.indices j ∙ sym (contains-insert_found g j old new m.groups found);
    once = h;
    members = Each-insert IsGroup g new m.groups v.members d;
  }

-- Taking a consumer from every group, and its heartbeat.
pub expel-IsValid : (c : Text) (m : GroupManager) → IsValid m → IsValid (expel c m)
unfolding expel
expel-IsValid c m v = record {
  targets = λ j. v.targets j ∙ sym (contains-map_values (leave c) j m.groups);
  indices = λ j. v.indices j ∙ sym (contains-map_values (leave c) j m.groups);
  once = erase-Distinct c m.heartbeats v.once;
  members =
      Each-map_values IsGroup (leave c) m.groups v.members
        λ k s d. ground (arith, discard-Distinct c s d);
}

pub delete_group-IsValid : (g : Text) (m : GroupManager) → IsValid m → IsValid (delete_group g m).1
unfolding delete_group
delete_group-IsValid g m v = elim (Option-cases (lookup g m.groups)) [
  | inl gone ↦ ground arith
  | inr (s, found) ↦ elim (Bool-cases (has_any s)) [
    | inl some_left ↦ rw (found, delete_group, some_left) v
    | inr empty ↦
        rw (found, delete_group, empty)
          (record {
            targets = λ j. ground (
              arith,
              contains-erase g j m.group_targets,
              contains-erase g j m.groups,
              v.targets j,
            );
            indices = λ j.
                ground (
                  arith,
                  contains-erase g j m.next_index,
                  contains-erase g j m.groups,
                  v.indices j,
                );
            once = v.once;
            members = Each-erase IsGroup g m.groups v.members;
          })
  ]
]

pub join_group-IsValid :
    (now : ℕ) (g c : Text) (m : GroupManager) → IsValid m → IsValid (join_group now g c m).1
unfolding join_group
join_group-IsValid now g c m v = elim (Option-cases (lookup g m.groups)) [
  | inl gone ↦ ground arith
  | inr (s, found) ↦
      rw (found, join_group)
        (set_members-IsValid g s (add c s) (insert c now m.heartbeats) m v found
          (add-Distinct c s (v.members.at g s found)) (insert-Distinct c now m.heartbeats v.once))
]

pub leave_group-IsValid :
    (g c : Text) (m : GroupManager) → IsValid m → IsValid (leave_group g c m).1
unfolding leave_group
leave_group-IsValid g c m v = elim (Option-cases (lookup g m.groups)) [
  | inl gone ↦ ground arith
  | inr (s, found) ↦
      rw (found, leave_group)
        (set_members-IsValid g s (discard c s) m.heartbeats m v found
          (discard-Distinct c s (v.members.at g s found)) v.once)
]

choose-IsValid :
    (g : Text) (s : List Text) (m : GroupManager)
    → IsValid m
    → lookup g m.groups ≡ some s
    → IsValid (choose g s m).1
unfolding choose
choose-IsValid g s m v found = record {
  targets = v.targets;
  indices = λ j. ground (
    arith,
    contains-insert g j ((index_or_zero (lookup g m.next_index) + 1) % length (sorted s))
        m.next_index,
    contains-found g s m.groups found,
    v.indices j,
    text_eq_iff g j,
  );
  once = v.once;
  members = v.members;
}

pub next_consumer-IsValid :
    (g : Text) (m : GroupManager) → IsValid m → IsValid (next_consumer g m).1
unfolding next_consumer
next_consumer-IsValid g m v = elim (Option-cases (lookup g m.groups)) [
  | inl gone ↦ rw (gone, next_consumer) v
  | inr (s, found) ↦ elim (Bool-cases (has_any s)) [
    | inl some_left ↦ rw (found, next_consumer, some_left) (choose-IsValid g s m v found)
    | inr empty ↦ rw (found, next_consumer, empty) v
  ]
]

pub check_each-IsValid :
    (now : ℕ) (d : Dict ℕ) (m : GroupManager) → IsValid m → IsValid (check_each now d m).1
unfolding check_each
check_each-IsValid now [] m v = v
check_each-IsValid now ((c, last) ∷ d) m v =
    elim (Bool-cases (is_late now m.heartbeat_timeout last)) [
      | inl late ↦
          rw (late, check_each) (check_each-IsValid now d (expel c m) (expel-IsValid c m v))
      | inr soon ↦ rw (soon, check_each) (check_each-IsValid now d m v)
    ]

call-IsValid : (c : Call) (m : GroupManager) → IsValid m → IsValid (call c m)
unfolding call remove_consumer_from_all_groups heartbeat check_timeouts
call-IsValid (create target g) m v = create_group-IsValid target g m v
call-IsValid (delete g) m v = delete_group-IsValid g m v
call-IsValid (join now g c) m v = join_group-IsValid now g c m v
call-IsValid (part g c) m v = leave_group-IsValid g c m v
call-IsValid (disconnect c) m v = unfold expel in expel-IsValid c m v
call-IsValid (pick g) m v = next_consumer-IsValid g m v
call-IsValid (ping now c) m v = record {
  targets = v.targets;
  indices = v.indices;
  once = insert-Distinct c now m.heartbeats v.once;
  members = v.members;
}
call-IsValid (check now) m v = check_each-IsValid now m.heartbeats m v

-- After any calls on a valid manager, exactly the groups have a target and a round-robin index, no
-- consumer has two heartbeats, and none is twice in a group.
pub run_groups-IsValid : (cs : List Call) (m : GroupManager) → IsValid m → IsValid (run_groups cs m)
unfolding run_groups
run_groups-IsValid [] m v = v
run_groups-IsValid (c ∷ cs) m v = run_groups-IsValid cs (call c m) (call-IsValid c m v)

pub init-IsValid : IsValid init
unfolding contains
init-IsValid = record {
  targets = λ g. refl;
  indices = λ g. refl;
  once = unfold keys in tt;
  members = Each-nil IsGroup;
}
