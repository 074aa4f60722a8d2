-- ===== src/Daemon/Attempts.antt =====
-- src/events/run_tlsdate.c and src/events/tlsdate_status.c: the start of a child, and its answers.
use tlsdate.Base.{suc, ◌≡◌, ◌≢◌, ◌↔◌, ℕ, true, false, arith}
use tlsdate.Base.Int.{ℤ, pos, negsuc, ◌≤ℤ◌, ◌<ℤ◌}
use tlsdate.Clock.{is_sane_time}
use tlsdate.Daemon.Events.{EventLib}
use tlsdate.Daemon.Progress.{schedule_timed, schedule_ne}
use tlsdate.Daemon.Response.{Response, time, again, broken}
use tlsdate.Daemon.Run.{parent_of, action_run_tlsdate}
use tlsdate.Daemon.{State, schedule, trigger_event}
use tlsdate.Types.{Build, EventId, SyncType}

-- The answer is a sane time, and this is it.
abbrev pub SaneAnswer : Build → Response → ℤ → Type 0
SaneAnswer b again t = ⊥
SaneAnswer b broken t = ⊥
SaneAnswer b (time n) t = (is_sane_time b (pos n) ≡ true) × (t ≡ pos n)

module _ (lib : EventLib) where
  open lib use {Base, timeout_pending, del}

  -- Where no child runs and a fork succeeds, a run starts a child exactly if the time is not from
  -- the network and tries are left; `running` is then set, and only then, and the try is counted.
  pub run_starts_iff :
      (n : ℕ) (s : State Base)
      → s.running ≡ false
      → s.tlsdate_pid ≡ 0
      → let t = action_run_tlsdate lib (parent_of n) s in
        ((t.tlsdate_pid ≡ suc n)
          ↔ ((s.last_sync_type ≢ SyncType.net) × (pos s.tries <ℤ s.opts.max_tries)))
        × ((t.running ≡ true) ↔ (t.tlsdate_pid ≡ suc n))
        × ((t.running ≡ true) → t.tries ≡ suc s.tries)
  unfolding action_run_tlsdate trigger_event
  run_starts_iff n s r p = ground arith

  timeout_ne_status : EventId.tlsdate_status ≢ EventId.tlsdate_timeout
  timeout_ne_status e = cc

  -- A child that is started is timed: where none was running, a fork succeeds and `running` is set,
  -- the event that kills the child waits for its timeout, if that event exists and the configured
  -- wait is not negative.
  pub run_is_timed :
      (n : ℕ) (s : State Base)
      → s.events EventId.tlsdate_timeout ≡ true
      → pos 0 ≤ℤ s.opts.subprocess_wait_between_tries
      → s.running ≡ false
      → (action_run_tlsdate lib (parent_of n) s).running ≡ true
      → timeout_pending (action_run_tlsdate lib (parent_of n) s).base EventId.tlsdate_timeout ≡ true
  unfolding action_run_tlsdate trigger_event
  run_is_timed n s e w r h =
      let wait : ℤ = s.opts.subprocess_wait_between_tries in
      let waits : Base = schedule lib s.base EventId.tlsdate_timeout wait in
      ground (
        arith,
        schedule_timed lib s.base EventId.tlsdate_timeout wait w,
        schedule_ne lib waits EventId.tlsdate_status EventId.tlsdate_timeout (negsuc 0)
            timeout_ne_status,
      )
