-- ===== src/Daemon/Response.antt =====
-- src/events/tlsdate_status.c: the answer of the child.
use tlsdate.Base.{ℕ, Option, none, some, ◌==◌, if◌then◌else◌}
use tlsdate.Base.Int.{pos, negsuc}
use tlsdate.Clock.{is_sane_time}
use tlsdate.Daemon.Events.{EventLib}
use tlsdate.Daemon.{State, trigger_event, reset_backoff}
use tlsdate.Types.{Build, EventId, SyncType}

-- `read_tlsdate_response`: EAGAIN, the end of the pipe or a truncated answer, or a uint32_t.
pub data Response : Type 0 where
  again broken : Response
  time : ℕ → Response

module _ (lib : EventLib) where
  open lib use {Base}

  -- `if (is_sane_time (t))` in `action_tlsdate_status`.
  accept_time : Build → ℕ → State Base → State Base
  accept_time b t s =
      if is_sane_time b (pos t)
      then trigger_event lib (record s { last_sync_type = SyncType.net; last_time = pos t })
          EventId.save (negsuc 0)
      else s

  -- `action_tlsdate_status`.
  unfoldable pub action_tlsdate_status : Build → Response → State Base → State Base
  unfolding accept_time
  action_tlsdate_status b again s = trigger_event lib s EventId.tlsdate_status (negsuc 0)
  action_tlsdate_status b broken s = trigger_event lib s EventId.tlsdate_timeout (pos 0)
  action_tlsdate_status b (time t) s = reset_backoff lib (record (accept_time b t s) { tries = 0 })

  -- `action_tlsdate_timeout`: the pid that gets SIGKILL. The state stays as it is.
  unfoldable pub action_tlsdate_timeout : State Base → Option ℕ
  action_tlsdate_timeout s = if s.tlsdate_pid == 0 then none else some s.tlsdate_pid
