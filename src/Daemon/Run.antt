-- ===== src/Daemon/Run.antt =====
-- src/events/run_tlsdate.c, and the parent's side of `tlsdate` in src/tlsdate-monitor.c.
use tlsdate.Base.{ℕ, suc, ◌+◌, ◌-◌, true, false, ltb, if◌then◌else◌}
use tlsdate.Base.Int.{pos, negsuc, ltb_ℤ}
use tlsdate.Daemon.Events.{EventLib}
use tlsdate.Daemon.{State, trigger_event, reset_backoff}
use tlsdate.Types.{EventId, is_net}

-- What `fork` gives the parent: -1, or the child's pid, which is never 0 there.
pub data Fork : Type 0 where
  fork_failed : Fork
  parent_of : ℕ → Fork

module _ (lib : EventLib) where
  open lib use {Base, del}

  -- The end of `action_run_tlsdate`: `tlsdate (state)` and what follows its failure.
  launch : Fork → State Base → State Base
  launch fork_failed s = record s {
    running = false;
    tries = 0;
    base = del s.base EventId.tlsdate_timeout;
  }
  launch (parent_of n) s = record s { tlsdate_pid = suc n }

  -- From `state->running = 1` on.
  start_run : Fork → State Base → State Base
  unfolding launch
  start_run f s =
      let s' =
        trigger_event lib (record s { running = true }) EventId.tlsdate_timeout
          s.opts.subprocess_wait_between_tries in
      launch f (trigger_event lib s' EventId.tlsdate_status (negsuc 0))

  -- The branch where a child is running already.
  rerun_requested : State Base → State Base
  rerun_requested s =
      if ltb 0 s.tries then reset_backoff lib (record s { tries = s.tries - 1 }) else s

  -- From `state->resolving = 0` on.
  attempt : Fork → State Base → State Base
  unfolding start_run rerun_requested
  attempt f s =
      if s.running
      then rerun_requested s
      else if ltb_ℤ (pos s.tries) s.opts.max_tries
      then start_run f (record s { tries = s.tries + 1 })
      else reset_backoff lib (record s { tries = 0 })

  -- `action_run_tlsdate`.
  unfoldable pub action_run_tlsdate : Fork → State Base → State Base
  unfolding attempt
  action_run_tlsdate f s =
      if is_net s.last_sync_type then s else attempt f (record s { resolving = false })
