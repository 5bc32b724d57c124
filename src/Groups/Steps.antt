-- ===== src/Groups/Steps.antt =====
-- The calls that change a `GroupManager`, as values: what one call does, and a run of several.
use ai_coding_training.Base.{ℕ, List, [], ◌∷◌}
use ai_coding_training.Text.{Text}
use ai_coding_training.Groups.{
  GroupManager, create_group, delete_group, join_group, leave_group,
  remove_consumer_from_all_groups, next_consumer, heartbeat, check_timeouts,
}

pub data Call : Type 0 where
  create : Text → Text → Call
  delete : Text → Call
  join : ℕ → Text → Text → Call
  part : Text → Text → Call
  disconnect : Text → Call
  pick : Text → Call
  ping : ℕ → Text → Call
  check : ℕ → Call

unfoldable pub call : Call → GroupManager → GroupManager
call (create target g) m = (create_group target g m).1
call (delete g) m = (delete_group g m).1
call (join now g c) m = (join_group now g c m).1
call (part g c) m = (leave_group g c m).1
call (disconnect c) m = (remove_consumer_from_all_groups c m).1
call (pick g) m = (next_consumer g m).1
call (ping now c) m = heartbeat now c m
call (check now) m = (check_timeouts now m).1

unfoldable pub run_groups : List Call → GroupManager → GroupManager
run_groups [] m = m
run_groups (c ∷ cs) m = run_groups cs (call c m)
