-- ===== src/Daemon/Progress.antt =====
-- src/events/kickoff_time_sync.c and src/events/sigchld.c: when the next run is scheduled.
use tlsdate.Base.{ℕ, suc, ◌+◌, ◌<◌, ◌^◌, ◌≡◌, ◌≢◌, ◌⊎◌, true, false, some, none, arith}
use tlsdate.Base.Int.{ℤ, pos, negsuc, nat_abs, ◌+ℤ◌, ◌≤ℤ◌, int_laws, to_int}
use tlsdate.Clock.Jumps.{add_jitter_bounds}
use tlsdate.Clock.{add_jitter}
use tlsdate.Daemon.Children.{died, grow_backoff, retry, handle_child_death}
use tlsdate.Daemon.Events.{EventLib}
use tlsdate.Daemon.Kickoff.{Moment, begin_sync, action_kickoff_time_sync}
use tlsdate.Daemon.{State, ok, schedule, trigger_event, invalidate_time}
use tlsdate.Types.{EventId, SyncType, resolver_timeout}

module _ (lib : EventLib) where
  open lib use {
    Base, pending, timeout_pending, add, del, timeout_pending-add, timeout_pending-add_ne,
    timeout_pending-del_ne,
  }

  -- A delay that is not negative makes the event wait for its timeout.
  pub schedule_timed :
      (b : Base) (e : EventId) (sec : ℤ)
      → pos 0 ≤ℤ sec
      → timeout_pending (schedule lib b e sec) e ≡ true
  unfolding schedule
  schedule_timed b e (pos n) h = timeout_pending-add _ e (pos n)
  schedule_timed b e (negsuc n) h = absurd (omega arith)

  -- And other events keep their timeouts.
  pub schedule_ne :
      (b : Base) (e f : EventId) (sec : ℤ)
      → e ≢ f
      → timeout_pending (schedule lib b e sec) f ≡ timeout_pending b f
  unfolding schedule
  schedule_ne b e f sec h = ground (
    arith,
    timeout_pending-del_ne b e f h,
    timeout_pending-add_ne b e f none h,
    timeout_pending-add_ne (del b e) e f none h,
    timeout_pending-add_ne b e f (some sec) h,
    timeout_pending-add_ne (del b e) e f (some sec) h,
  )

  -- What `action_kickoff_time_sync` leaves: time from the network, a try taken back from a run that
  -- is going on, or a run that waits for its timeout.
  abbrev pub Progress : State Base → State Base → Type 0
  Progress s t =
      (t.last_sync_type ≡ SyncType.net)
      ⊎ ((suc t.tries ≡ s.tries) ⊎ (timeout_pending t.base EventId.tlsdate_run ≡ true))

  run_ne_resolver : EventId.resolver ≢ EventId.tlsdate_run
  run_ne_resolver e = cc

  begin_sync-Progress :
      (jitter : ℤ) (s : State Base)
      → pos 0 ≤ℤ jitter
      → s.events EventId.tlsdate_run ≡ true
      → Progress s (begin_sync lib jitter s)
  unfolding begin_sync trigger_event
  begin_sync-Progress jitter s h e =
      let late : ℤ = jitter +ℤ pos resolver_timeout in
      let waits : Base = schedule lib s.base EventId.tlsdate_run late in
      ground (
        arith,
        schedule_timed s.base EventId.tlsdate_run jitter h,
        schedule_timed s.base EventId.tlsdate_run late (omega int_laws),
        schedule_ne waits EventId.resolver EventId.tlsdate_run jitter run_ne_resolver,
      )

  jitter_nonneg : (n : ℤ) → nat_abs n < 2 ^ 31 → pos 0 ≤ℤ add_jitter (pos 30) (pos 30) n
  jitter_nonneg n h = omega (int_laws, add_jitter_bounds (pos 30) n (pos 30) (omega arith) h)

  -- An attempt to synchronise that does not exit leaves network time, or one try less, or a run
  -- that waits for its timeout. The event of the run must exist, and the random int must be had and
  -- not be -2^31.
  pub kickoff-Progress :
      (m : Moment) (s t : State Base) (n : ℤ)
      → s.events EventId.tlsdate_run ≡ true
      → m.rand ≡ some n
      → nat_abs n < 2 ^ 31
      → action_kickoff_time_sync lib m s ≡ ok t
      → Progress s t
  unfolding action_kickoff_time_sync
  kickoff-Progress m s t n e r h k =
      let forgotten : State Base = invalidate_time lib (record s { clock_delta = pos 0 }) m.now in
      ground (
        arith,
        begin_sync-Progress (pos 0) s (omega arith) e,
        begin_sync-Progress (pos 0) forgotten (omega arith) e,
        begin_sync-Progress (add_jitter (pos 30) (pos 30) n) forgotten (jitter_nonneg n h) e,
      )

  grow_backoff-lt : (n : ℕ) → n < 2 ^ 30 → grow_backoff lib n < 2 ^ 30
  unfolding grow_backoff
  grow_backoff-lt n h = ground arith

  to_int_nonneg : (n : ℕ) → n < 2 ^ 31 → pos 0 ≤ℤ to_int n
  to_int_nonneg n h = ground arith

  -- A retry changes the event base alone, and the next run waits for its timeout.
  abbrev Retried : State Base → State Base → Type 0
  Retried s t =
      (t.running ≡ s.running)
      × (t.tlsdate_pid ≡ s.tlsdate_pid)
      × (t.backoff ≡ s.backoff)
      × (timeout_pending t.base EventId.tlsdate_run ≡ true)

  retry-Retried :
      (s : State Base)
      → s.events EventId.tlsdate_run ≡ true
      → s.backoff < 2 ^ 30
      → Retried s (retry lib s)
  unfolding retry trigger_event
  retry-Retried s e h =
      let waits : Base =
        schedule lib s.base EventId.tlsdate_run (to_int (resolver_timeout + s.backoff)) in
      ground (
        arith,
        schedule_timed s.base EventId.tlsdate_run (to_int s.backoff)
            (to_int_nonneg _ (omega arith)),
        schedule_timed s.base EventId.tlsdate_run (to_int (resolver_timeout + s.backoff))
            (to_int_nonneg _ (omega arith)),
        schedule_ne waits EventId.resolver EventId.tlsdate_run (to_int s.backoff) run_ne_resolver,
      )

  -- When the tlsdate child dies with an error, no child is running any more, the backoff is what
  -- `grow_backoff` makes of it, and the next run waits for its timeout. The event of the run must
  -- exist, the child must not have the setter's pid, and the backoff must be below 2^30.
  pub death_retries :
      (s : State Base) (status : ℤ)
      → s.events EventId.tlsdate_run ≡ true
      → s.tlsdate_pid ≢ s.setter_pid
      → status ≢ pos 0
      → s.backoff < 2 ^ 30
      → let t = (handle_child_death lib (died s.tlsdate_pid status) s).1 in
        (t.running ≡ false)
        × (t.tlsdate_pid ≡ 0)
        × (t.backoff ≡ grow_backoff lib s.backoff)
        × (timeout_pending t.base EventId.tlsdate_run ≡ true)
  unfolding handle_child_death
  death_retries s status e p h k =
      let dead : State Base = record s {
        base = del s.base EventId.tlsdate_timeout;
        running = false;
        tlsdate_pid = 0;
        backoff = grow_backoff lib s.backoff;
      } in
      ground (arith, retry-Retried dead e (grow_backoff-lt s.backoff k))
