-- ===== src/Tests/Children.antt =====
-- The children of the daemon on concrete states.
use tlsdate.Base.{◌≡◌, ◌≢◌, ◌↔◌, refl, true, false, arith}
use tlsdate.Base.Int.{pos, ◌<ℤ◌}
use tlsdate.Daemon.Attempts.{run_starts_iff}
use tlsdate.Daemon.Children.{died, grow_backoff, handle_child_death}
use tlsdate.Daemon.Progress.{death_retries}
use tlsdate.Daemon.Run.{parent_of, action_run_tlsdate}
use tlsdate.Daemon.{trigger_event}
use tlsdate.Tests.Samples.{tables, idle, busy}
use tlsdate.Types.{EventId, SyncType}

run_starts_iff_example :
    let t = action_run_tlsdate tables (parent_of 41) idle in
    ((t.tlsdate_pid ≡ 42)
      ↔ ((idle.last_sync_type ≢ SyncType.net) × (pos idle.tries <ℤ idle.opts.max_tries)))
    × ((t.running ≡ true) ↔ (t.tlsdate_pid ≡ 42))
    × ((t.running ≡ true) → t.tries ≡ 1)
run_starts_iff_example = run_starts_iff tables 41 idle refl refl

idle_runs : (action_run_tlsdate tables (parent_of 41) idle).running ≡ true
unfolding action_run_tlsdate trigger_event
idle_runs = refl

death_retries_example :
    let t = (handle_child_death tables (died 42 (pos 1)) busy).1 in
    (t.running ≡ false)
    × (t.tlsdate_pid ≡ 0)
    × (t.backoff ≡ grow_backoff tables 10)
    × (t.base.timed EventId.tlsdate_run ≡ true)
death_retries_example =
    death_retries tables busy (pos 1) refl (λ e. ground (arith, e)) (λ e. ground (arith, e))
      (omega arith)
