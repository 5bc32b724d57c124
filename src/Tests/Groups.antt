-- ===== src/Tests/Groups.antt =====
-- `ConsumerGroupManager` on one group of two members.
use mathlib.Core.List.{Perm}
use ai_coding_training.Base.{◌*◌, false, none, some, ◌≡◌, refl, List, [], ◌∷◌, map, if◌then◌else◌}
use ai_coding_training.Text.{Text, codes, text_eq}
use ai_coding_training.Dict.{lookup, keys}
use ai_coding_training.Members.{mem, Distinct}
use ai_coding_training.Models.{second}
use ai_coding_training.Groups.{GroupManager, init, check_timeouts}
use ai_coding_training.Groups.RoundRobin.{picks, picks_round}
use ai_coding_training.Groups.Heartbeats.{is_member, timed_out, check_timeouts-overdue}
use ai_coding_training.Groups.Steps.{Call, create, delete, join, pick, ping, check, run_groups}
use ai_coding_training.Groups.Invariant.{IsValid, run_groups-IsValid, init-IsValid}

abbrev team : Text
team = codes "team"

abbrev cat : Text
cat = codes "cat"

abbrev dan : Text
dan = codes "dan"

abbrev pair : GroupManager
pair = record init {
  groups = (team, cat ∷ dan ∷ []) ∷ [];
  group_targets = (team, codes "jobs") ∷ [];
  next_index = (team, 1) ∷ [];
  heartbeats = (cat, 1 * second) ∷ (dan, 60 * second) ∷ [];
}

team_there : lookup team pair.groups ≡ some (cat ∷ dan ∷ [])
unfolding lookup text_eq
team_there = refl

picks_round_example :
    (l : List Text) × ((picks 2 team pair).0 ≡ map some l) × Perm l (cat ∷ dan ∷ [])
picks_round_example = picks_round team cat (dan ∷ []) pair team_there

two_heartbeats : Distinct (keys pair.heartbeats)
unfolding keys mem text_eq
two_heartbeats = (refl, (refl, tt))

check_timeouts-overdue_example :
    let late = timed_out (70 * second) pair.heartbeat_timeout (lookup cat pair.heartbeats) in
    let (reported, m) = check_timeouts (70 * second) pair in
    (mem cat reported ≡ late)
    × (lookup cat m.heartbeats ≡ (if late then none else lookup cat pair.heartbeats))
    × (is_member team cat m ≡ (if late then false else is_member team cat pair))
check_timeouts-overdue_example = check_timeouts-overdue (70 * second) cat team pair two_heartbeats

abbrev group_calls : List Call
group_calls =
    create (codes "jobs") team
    ∷ join 0 team cat
    ∷ join 5 team dan
    ∷ pick team
    ∷ ping 7 cat
    ∷ check (90 * second)
    ∷ delete team
    ∷ []

run_groups-IsValid_example : IsValid (run_groups group_calls init)
run_groups-IsValid_example = run_groups-IsValid group_calls init init-IsValid
