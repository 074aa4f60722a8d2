-- ===== src/Daemon/TimeSet.antt =====
-- src/events/time_set.c: the reports of the time setter.
use tlsdate.Base.{[], leb, ◌==◌, if◌then◌else◌}
use tlsdate.Base.Int.{ℤ, pos, negsuc}
use tlsdate.Clock.{ClockSample, check_continuity}
use tlsdate.Daemon.Events.{EventLib}
use tlsdate.Daemon.{State, Outcome, ok, exits, invalidate_time}
use tlsdate.Types.{is_net, setter_bad_time, setter_time_set, setter_no_rtc}

-- `read` of the report: EAGAIN, another error or a truncation (which closes the pipe), or an int.
pub data Report : Type 0 where
  again truncated : Report
  status : ℤ → Report

module _ (lib : EventLib) where
  open lib use {Base}

  -- `case SETTER_TIME_SET`. The announcement on D-Bus is left out.
  time_was_set : ClockSample → State Base → State Base
  time_was_set c s =
      if is_net s.last_sync_type
      then record s {
        clock_delta = (check_continuity c (pos 0)).1;
        opts = record (s.opts) { cur_source = [] };
      }
      else s

  -- `handle_time_setter`, with the clocks and the time that it may read. The statuses up to
  -- SETTER_NO_RTC that are not treated here only write a line to the log.
  unfoldable pub handle_time_setter : ClockSample → ℤ → ℤ → State Base → Outcome (State Base)
  unfolding time_was_set
  handle_time_setter c now (pos n) s =
      if n == setter_bad_time
      then ok (invalidate_time lib s now)
      else if n == setter_time_set
      then ok (time_was_set c s)
      else if leb n setter_no_rtc
      then ok s
      else exits (pos n)
  handle_time_setter c now (negsuc n) s = exits (negsuc n)

  -- `action_time_set`.
  unfoldable pub action_time_set : ClockSample → ℤ → Report → State Base → Outcome (State Base)
  unfolding handle_time_setter
  action_time_set c now again s = ok s
  action_time_set c now truncated s = ok s
  action_time_set c now (status n) s = handle_time_setter c now n s
