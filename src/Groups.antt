-- ===== src/Groups.antt =====
-- src/consumer_group.py: `ConsumerGroupManager`, method by method. Each method runs under the
-- manager's lock, so it is one step. The time is an argument, in microseconds.
pub mod RoundRobin
pub mod Heartbeats
pub mod Steps
pub mod Invariant
use ai_coding_training.Base.{
  ℕ, zero, suc, ◌+◌, ◌*◌, ◌%◌, Bool, true, false, not, Option, none, some, List, [], ◌∷◌, ◌++◌, ltb,
  if◌then◌else◌, length, get_elem?,
}
use ai_coding_training.Base.Action.{
  Outcome, ok, raised, Action, gets, or_raise, modify, raise_if, ◌>>=◌, ◌>>◌,
}
use ai_coding_training.Text.{Text}
use ai_coding_training.Text.Order.{sorted}
use ai_coding_training.Members.{mem, add, discard}
use ai_coding_training.Models.{second}
use ai_coding_training.Dict.{Dict, lookup, contains, insert, erase, map_values}

pub data GroupError : Type 0 where
  group_exists : Text → GroupError
  group_not_found : Text → GroupError
  group_has_consumers : Text → ℕ → GroupError

pub record GroupManager : Type 0 where
  pub heartbeat_timeout : ℕ
  pub groups : Dict (List Text)
  pub group_targets : Dict Text
  pub next_index : Dict ℕ
  pub heartbeats : Dict ℕ

-- `ConsumerGroupManager()`, with the default timeout of 30 seconds.
abbrev pub init : GroupManager
init = record {
  heartbeat_timeout = 30 * second;
  groups = [];
  group_targets = [];
  next_index = [];
  heartbeats = [];
}

abbrev pub GroupAction : Type 0 → Type 0
GroupAction = Action GroupManager GroupError

unfoldable pub create_group : Text → Text → GroupAction Unit
create_group target name = do
  raise_if (← gets (λ m. contains name m.groups)) (group_exists name)
  modify (λ m. record m {
    groups = insert name [] m.groups;
    group_targets = insert name target m.group_targets;
    next_index = insert name 0 m.next_index;
  })

abbrev pub has_any : List Text → Bool
has_any [] = false
has_any (x ∷ s) = true

unfoldable pub delete_group : Text → GroupAction Unit
delete_group name = do
  found ← gets (λ m. lookup name m.groups)
  members ← or_raise found (group_not_found name)
  raise_if (has_any members) (group_has_consumers name (length members))
  modify (λ m. record m {
    groups = erase name m.groups;
    group_targets = erase name m.group_targets;
    next_index = erase name m.next_index;
  })

unfoldable pub group_exists? : Text → GroupManager → Bool
group_exists? name m = contains name m.groups

unfoldable pub get_group_target : Text → GroupManager → Option Text
get_group_target name m = lookup name m.group_targets

unfoldable pub join_group : ℕ → Text → Text → GroupAction Unit
join_group now name consumer_id = do
  found ← gets (λ m. lookup name m.groups)
  members ← or_raise found (group_not_found name)
  modify (λ m. record m {
    groups = insert name (add consumer_id members) m.groups;
    heartbeats = insert consumer_id now m.heartbeats;
  })

unfoldable pub leave_group : Text → Text → GroupAction Unit
leave_group name consumer_id = do
  found ← gets (λ m. lookup name m.groups)
  members ← or_raise found (group_not_found name)
  modify (λ m. record m { groups = insert name (discard consumer_id members) m.groups })

-- `if consumer_id in members: members.discard(consumer_id)`
abbrev pub leave : Text → List Text → List Text
leave consumer_id s = if mem consumer_id s then discard consumer_id s else s

-- The names of the groups that hold a consumer, in the order of the dict.
unfoldable pub groups_of : Text → Dict (List Text) → List Text
groups_of c [] = []
groups_of c ((name, members) ∷ d) =
    let rest = groups_of c d in if mem c members then name ∷ rest else rest

unfoldable pub remove_consumer_from_all_groups : Text → GroupManager → List Text × GroupManager
remove_consumer_from_all_groups c m = (
  groups_of c m.groups,
  record m { groups = map_values (leave c) m.groups; heartbeats = erase c m.heartbeats },
)

abbrev pub index_or_zero : Option ℕ → ℕ
index_or_zero none = 0
index_or_zero (some i) = i

-- The choice among the members of a group that has some: the member at the index, and the index
-- after it.
unfoldable pub choose : Text → List Text → GroupManager → Option Text × GroupManager
choose name members m =
    let idx = index_or_zero (lookup name m.next_index) in
    let member_list = sorted members in
    (
      get_elem? member_list (idx % length member_list),
      record m { next_index = insert name ((idx + 1) % length member_list) m.next_index },
    )

unfoldable pub next_consumer : Text → GroupManager → Option Text × GroupManager
next_consumer name m = elim (lookup name m.groups) [
  | none ↦ (none, m)
  | some members ↦ (if has_any members then choose name members m else (none, m))
]

unfoldable pub get_group_members : Text → GroupManager → List Text
get_group_members name m = elim (lookup name m.groups) [ none ↦ [] | some s ↦ s ]

unfoldable pub heartbeat : ℕ → Text → GroupManager → GroupManager
heartbeat now c m = record m { heartbeats = insert c now m.heartbeats }

-- `now - last_hb > self._heartbeat_timeout`
unfoldable pub is_late : ℕ → ℕ → ℕ → Bool
is_late now timeout last = ltb (last + timeout) now

-- What the loop of `check_timeouts` does with a consumer that is late.
unfoldable pub expel : Text → GroupManager → GroupManager
expel c m = record m { groups = map_values (leave c) m.groups; heartbeats = erase c m.heartbeats }

-- The loop of `check_timeouts`, over a copy of the heartbeats.
unfoldable pub check_each : ℕ → Dict ℕ → GroupManager → List Text × GroupManager
check_each now [] m = ([], m)
check_each now ((c, last) ∷ d) m =
    let (late, m') =
      check_each now d (if is_late now m.heartbeat_timeout last then expel c m else m) in
    (if is_late now m.heartbeat_timeout last then c ∷ late else late, m')

unfoldable pub check_timeouts : ℕ → GroupManager → List Text × GroupManager
check_timeouts now m = check_each now m.heartbeats m
