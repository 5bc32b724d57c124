-- ===== src/Tests/Server.antt =====
-- The server with one consumer that is in a group and has a message.
use ai_coding_training.Base.{
  All, ◌+◌, ◌*◌, ◌≡◌, refl, true, false, none, some, [], ◌∷◌, ltb, if◌then◌else◌,
}
use ai_coding_training.Base.Int.{pos}
use ai_coding_training.Base.Action.{ok, raised}
use ai_coding_training.Text.{Text, codes, text_eq}
use ai_coding_training.Text.Words.{strip, lstrip, rstrip, is_space, split, upper, upper_char}
use ai_coding_training.Members.{mem, Distinct}
use ai_coding_training.Dict.{lookup, contains, keys}
use ai_coding_training.Models.{Message, Status, second, new_message}
use ai_coding_training.Protocol.{
  Command, parse_command, parse_parts, parse_args, with_body, min_args_of,
}
use ai_coding_training.Groups as Groups
use ai_coding_training.Groups.{GroupManager}
use ai_coding_training.Acks.{start, deadlock, replay_from_dlq, acquire}
use ai_coding_training.Acks.Nack.{MayNack}
use ai_coding_training.Persistence.Log.{Layer, missing, recover, index_recover, scan_segments}
use ai_coding_training.Server.{Server, in_acks, name_error}
use ai_coding_training.Server.Messages.{cmd_nack}
use ai_coding_training.Server.Upkeep as Upkeep
use ai_coding_training.Server.Pings.{pinged, check_timeouts-pinged}
use ai_coding_training.Server.Nacks.{acks_of, cmd_nack_lem}
use ai_coding_training.Server.Restart.{start_lem, is_known}
use ai_coding_training.Server.Dispatch.{
  World, dispatch, hangs, run_parsed, run_handler, internal, dispatch-hangs,
}
use ai_coding_training.Tests.Persistence.{hello, crashed, crashed_index, crashed-Logged}
use ai_coding_training.Persistence.Codec.RoundTrip.{persisted}
use ai_coding_training.Persistence.Log.Recovery.{recover-Logged}
use ai_coding_training.Acks.{check_timeouts}
use ai_coding_training.Acks.Nack.{retried, waiting_again, in_dlq}
use ai_coding_training.Acks.Timeouts.{expected, any_exhausted}
use ai_coding_training.Server.{register_consumer, open_server}
use ai_coding_training.Server.Admin.{cmd_create_queue, size_arg}
use ai_coding_training.Queues.{create_queue, validate_name, put}
use ai_coding_training.Text.Names.{name_matches, is_plain_name, chop_newline, is_name_char}
use ai_coding_training.Server.Sound.{IsSound}
use ai_coding_training.Server.Sound.Reach.{
  Reach, here, next, connect, line, started, reach-IsSound, check_timeouts-Reach,
}
use ai_coding_training.Tests.Router.{router}

abbrev pub kim : Text
kim = codes "C1"

-- What `kim` has had for ten seconds.
abbrev pub held : Message
held = record (new_message (codes "M1") (codes "jobs") (codes "hello") (5 * second) (pos 60)) {
  status = Status.delivered;
  delivered_to = kim;
  deliver_time = 10 * second;
}

abbrev members : GroupManager
members = record Groups.init {
  groups = (codes "team", kim ∷ []) ∷ [];
  group_targets = (codes "team", codes "jobs") ∷ [];
  next_index = (codes "team", 0) ∷ [];
  heartbeats = (kim, 1 * second) ∷ [];
}

abbrev pub empty_log : Layer
empty_log = record {
  fsync_on_write = false;
  fsync_interval = second;
  last_fsync = 0;
  segment_mgr = record {
    max_segment_size = 1000;
    max_segments = 100;
    active = none;
    active_size = 0;
    segments = [];
    files = [];
  };
  index = [];
  saved = missing;
}

abbrev pub server : Server
server = record {
  router = record router { heap = λ r. held };
  persistence = empty_log;
  group_mgr = members;
  ack_mgr = start (λ r. held);
  consumers =
      (
        kim,
        record {
          consumer_id = kim;
          subscriptions = [];
          groups = codes "team" ∷ [];
          last_heartbeat = 0;
        },
      )
      ∷ [];
  next_consumer_id = 1;
}

one_heartbeat : Distinct (keys server.group_mgr.heartbeats)
unfolding keys mem
one_heartbeat = (refl, tt)

joined : lookup kim server.group_mgr.heartbeats ≡ some (1 * second)
unfolding lookup text_eq
joined = refl

too_old : Groups.is_late (40 * second) server.group_mgr.heartbeat_timeout (1 * second) ≡ true
unfolding Groups.is_late
too_old = refl

check_timeouts-pinged_example :
    mem kim
      (Groups.check_timeouts
        (40 * second)
        (pinged (20 * second ∷ 39 * second ∷ []) kim server).group_mgr).0
    ≡ true
check_timeouts-pinged_example =
    check_timeouts-pinged (20 * second ∷ 39 * second ∷ []) (40 * second) (1 * second) kim server
      one_heartbeat joined too_old

registered : lookup (codes "M1") server.router.messages ≡ some 1
unfolding lookup text_eq
registered = refl

may_nack : MayNack 1 (acks_of server) kim
unfolding new_message
may_nack = (refl, refl)

cmd_nack_lem_example :
    let p = cmd_nack kim (codes "M1" ∷ []) server in
    (p.0 ≡ raised name_error)
    × (p.1.router.queues ≡ server.router.queues)
    × (p.1.router.heap 1 ≡ (
        if ltb 5 (held.retry_count + 1)
        then in_dlq (retried held)
        else waiting_again (retried held)))
cmd_nack_lem_example = cmd_nack_lem (codes "M1") 1 kim server registered refl may_nack

-- The server over the log that a crash has left.
abbrev restarted : Server
restarted = record server { persistence = crashed }

hello_recovered : (recover restarted.persistence).0 ≡ ok (persisted hello ∷ [])
hello_recovered = recover-Logged crashed (hello ∷ []) crashed_index crashed-Logged

start_lem_example :
    ((Upkeep.start restarted).0 ≡ ok tt)
    × All
        (λ (m : Message). is_known m.msg_id (Upkeep.start restarted).1 ≡ true)
        (persisted hello ∷ [])
    × ((Upkeep.start restarted).1.router.queues ≡ restarted.router.queues)
start_lem_example = start_lem (persisted hello ∷ []) restarted hello_recovered

abbrev pub world : World
world = record {
  now = 20 * second;
  free = 0;
  rounds = [];
  int_error = λ t. t;
  error_text = λ e. [];
}

abbrev replay_line : Text
replay_line = codes "replay DLQ M1"

abbrev replay_command : Command
replay_command = record { name = codes "REPLAY"; args = codes "DLQ" ∷ codes "M1" ∷ [] }

replay_parsed : parse_command replay_line ≡ ok replay_command
unfolding parse_command parse_parts parse_args with_body strip lstrip rstrip is_space split upper
    upper_char mem text_eq min_args_of lookup
replay_parsed = refl

-- The lock is held for ever by a checker that waits for it.
abbrev blocked : Server
blocked = record server { ack_mgr = record server.ack_mgr { locked = true } }

waits : (dispatch world kim replay_line blocked).0 ≡ raised (in_acks deadlock)
unfolding dispatch run_parsed run_handler internal hangs parse_command parse_parts parse_args
    with_body strip lstrip rstrip is_space split upper upper_char mem text_eq min_args_of lookup
    Upkeep.cmd_replay replay_from_dlq acquire
waits = refl

dispatch-hangs_example : hangs (in_acks deadlock) ≡ true
dispatch-hangs_example = dispatch-hangs world kim replay_line blocked _ waits

-- A server that has started on an empty log, has a connection, and has served one line of it.
abbrev served : Server
served =
    (dispatch world kim (codes "CREATE_QUEUE jobs")
      (register_consumer (started (λ r. held) empty_log)).1).1

served-Reach : Reach (started (λ r. held) empty_log) served
served-Reach = next (next here connect) (line world kim (codes "CREATE_QUEUE jobs") (λ dlq. tt))

served_free : served.ack_mgr.locked ≡ false
unfolding dispatch run_parsed run_handler internal hangs parse_command parse_parts parse_args
    with_body strip lstrip rstrip is_space split upper upper_char mem text_eq min_args_of lookup
    cmd_create_queue size_arg create_queue validate_name name_matches is_plain_name chop_newline
    is_name_char contains put register_consumer Upkeep.start Upkeep.recover_log Upkeep.restore_all
    recover index_recover scan_segments open_server
served_free = refl

reach-IsSound_example : IsSound 0 served
reach-IsSound_example = reach-IsSound (λ r. held) empty_log served-Reach

check_timeouts-Reach_example :
    let p = check_timeouts (20 * second) served.router.messages (acks_of served) in
    (p.0 ≡ expected (20 * second) (acks_of served) served.router.messages)
    × (p.1.locked ≡ any_exhausted (20 * second) (acks_of served) served.router.messages)
check_timeouts-Reach_example =
    check_timeouts-Reach (λ r. held) empty_log (20 * second) served-Reach served_free
