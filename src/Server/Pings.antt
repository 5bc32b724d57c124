-- ===== src/Server/Pings.antt =====
-- What a ping does for a member of a group: nothing.
use ai_coding_training.Base.{ℕ, ◌≡◌, refl, ap, ◌∙◌, true, some, List, [], ◌∷◌, arith}
use ai_coding_training.Text.{Text}
use ai_coding_training.Members.{mem, Distinct}
use ai_coding_training.Dict.{lookup, keys}
use ai_coding_training.Groups.{check_timeouts, is_late}
use ai_coding_training.Groups.Heartbeats.{timed_out, check_timeouts-overdue}
use ai_coding_training.Server.{Server, set_consumer, cmd_ping}

-- The server after a consumer has sent `PING` at these times.
unfoldable pub pinged : List ℕ → Text → Server → Server
pinged [] id s = s
pinged (now ∷ times) id s = pinged times id (cmd_ping now id s).1

group_mgr-ping : (now : ℕ) (id : Text) (s : Server) → (cmd_ping now id s).1.group_mgr ≡ s.group_mgr
unfolding cmd_ping set_consumer
group_mgr-ping now id s = ground arith

group_mgr-pinged :
    (times : List ℕ) (id : Text) (s : Server) → (pinged times id s).group_mgr ≡ s.group_mgr
unfolding pinged
group_mgr-pinged [] id s = refl
group_mgr-pinged (now ∷ times) id s =
    group_mgr-pinged times id (cmd_ping now id s).1 ∙ group_mgr-ping now id s

-- Where no consumer has two heartbeats with the group manager: once the last heartbeat of a
-- consumer there is too old, the next `check_timeouts` reports the consumer, whatever pings it
-- has sent to the server.
pub check_timeouts-pinged :
    (times : List ℕ) (now last : ℕ) (id : Text) (s : Server)
    → Distinct (keys s.group_mgr.heartbeats)
    → lookup id s.group_mgr.heartbeats ≡ some last
    → is_late now s.group_mgr.heartbeat_timeout last ≡ true
    → mem id (check_timeouts now (pinged times id s).group_mgr).0 ≡ true
check_timeouts-pinged times now last id s once h late =
    let (reported, heart, groups) = check_timeouts-overdue now id id s.group_mgr once in
    rw (group_mgr-pinged times id s)
      (reported ∙ ap (timed_out now s.group_mgr.heartbeat_timeout) h ∙ unfold timed_out in late)
