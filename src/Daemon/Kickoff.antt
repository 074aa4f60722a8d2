-- ===== src/Daemon/Kickoff.antt =====
-- src/events/kickoff_time_sync.c and src/events/route_up.c: what starts a network synchronisation.
use tlsdate.Base.{◌-◌, Bool, not, ◌&&◌, Option, none, some, ltb, if◌then◌else◌}
use tlsdate.Base.Int.{ℤ, pos, ◌+ℤ◌, is_zero}
use tlsdate.Clock.{ClockSample, Continuity, failed, steady, jumped, check_continuity, add_jitter}
use tlsdate.Daemon.Events.{EventLib}
use tlsdate.Daemon.{State, Outcome, ok, exits, ◌>>=◌, trigger_event, invalidate_time}
use tlsdate.Types.{EventId, is_net, is_rtc, resolver_timeout}

-- What the system answers while the handler runs: the clocks, the int of RAND_bytes (`none` where
-- it fails) and `time (NULL)`.
pub record Moment : Type 0 where
  pub clocks : ClockSample
  pub rand : Option ℤ
  pub now : ℤ

module _ (lib : EventLib) where
  open lib use {Base, timeout_pending, del}

  -- From the test of `last_sync_type` on.
  unfoldable pub begin_sync : ℤ → State Base → State Base
  begin_sync jitter s =
      if is_net s.last_sync_type
      then s
      else if ltb 0 s.tries
      then record s { tries = s.tries - 1 }
      else if timeout_pending s.base EventId.tlsdate_run
      then s
      else if not (s.events EventId.resolver)
      then trigger_event lib s EventId.tlsdate_run jitter
      else trigger_event lib
          (trigger_event lib s EventId.tlsdate_run (jitter +ℤ pos resolver_timeout))
          EventId.resolver jitter

  -- `if (state->clock_delta) jitter = add_jitter (30, 30)`, which exits where it has no random int.
  unfoldable pub jump_jitter : Moment → ℤ → Outcome ℤ
  jump_jitter m clock_delta =
      if is_zero clock_delta
      then ok (pos 0)
      else elim m.rand [ none ↦ exits (pos 1) | some n ↦ ok (add_jitter (pos 30) (pos 30) n) ]

  unfoldable pub after_check : Moment → Continuity → State Base → Outcome (State Base)
  unfolding begin_sync jump_jitter
  after_check m failed s = ok (begin_sync (pos 0) s)
  after_check m steady s = ok (begin_sync (pos 0) s)
  after_check m jumped s = do
    jitter ← jump_jitter m s.clock_delta
    ok (begin_sync jitter (invalidate_time lib (record s { clock_delta = pos 0 }) m.now))

  -- `action_kickoff_time_sync`. The delta that the check leaves is a local variable.
  unfoldable pub action_kickoff_time_sync : Moment → State Base → Outcome (State Base)
  unfolding after_check
  action_kickoff_time_sync m s = after_check m (check_continuity m.clocks s.clock_delta).0 s

  -- `action_invalidate_time`.
  unfoldable pub action_invalidate_time : Moment → State Base → Outcome (State Base)
  action_invalidate_time m s =
      if is_rtc s.last_sync_type && timeout_pending s.base EventId.tlsdate_run
      then ok s
      else action_kickoff_time_sync m (invalidate_time lib s m.now)

  -- `action_stdin_wakeup`: was it EV_READ, and did `read` give its byte?
  unfoldable pub action_stdin_wakeup : Moment → Bool → Bool → State Base → Outcome (State Base)
  action_stdin_wakeup m is_read got_byte s =
      if not is_read
      then ok s
      else if not got_byte
      then ok (record s { base = del s.base EventId.routeup })
      else action_kickoff_time_sync m s

  -- `action_netlink_ready`: was EV_READ among the reasons, and did `routeup_process` return 0?
  unfoldable pub action_netlink_ready : Moment → Bool → Bool → State Base → Outcome (State Base)
  action_netlink_ready m is_read routes_changed s =
      if is_read && routes_changed then action_kickoff_time_sync m s else ok s
