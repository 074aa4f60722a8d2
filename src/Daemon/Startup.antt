-- ===== src/Daemon/Startup.antt =====
-- src/tlsdated.c, `main` behind the options, the `setup_*` functions of src/events/, and
-- `cleanup_main`, for a build without D-Bus and without the Chromium OS platform code, where
-- `init_dbus` and `platform_init_cros` return 0.
use tlsdate.Base.{
  suc, Bool, true, false, not, ◌&&◌, List, [], ◌∷◌, ◌++◌, Option, none, some, ◌==◌, if◌then◌else◌,
}
use tlsdate.Base.Int.{ℤ, pos, negsuc, to_u32, is_zero}
use tlsdate.Clock.{DiskFile, add_jitter, initial_time}
use tlsdate.Daemon.Events.{EventLib}
use tlsdate.Daemon.Kickoff.{Moment, action_kickoff_time_sync}
use tlsdate.Daemon.Run.{Fork, fork_failed, parent_of}
use tlsdate.Daemon.{State, Outcome, trigger_event}
use tlsdate.Types.{Build, EventId, Opts, SyncType, event_index}

-- The start goes on, or `goto out` is taken, with the pids that `cleanup_main` sends SIGKILL to, or
-- the process exits with 1.
pub data Started {ℓ} (A : Type ℓ) : Type ℓ where
  goes : A → Started A
  stops : List ℤ → Started A
  dies : Started A

infixl 5 ◌>>=◌
abbrev pub ◌>>=◌ {ℓ κ} : {A : Type ℓ} {B : Type κ} → Started A → (A → Started B) → Started B
goes a >>= f = f a
stops pids >>= f = stops pids
dies >>= f = dies

-- Which of the calls of `setup_time_setter` succeed, and what `fork` gives.
pub record SetterCalls : Type 0 where
  pub to_pipe : Bool
  pub from_pipe : Bool
  pub notify_nonblock : Bool
  pub save_nonblock : Bool
  pub new_event : Bool
  pub fork : Fork

-- `state->setter_pid = fork ()`: is it a pid, and the value.
abbrev pub forked : Fork → Bool × ℤ
forked fork_failed = (false, negsuc 0)
forked (parent_of n) = (true, pos (suc n))

-- `setup_time_setter`: does it succeed, and the `setter_pid` that it leaves.
unfoldable pub setup_time_setter : SetterCalls → Bool × ℤ
setup_time_setter c =
    if c.to_pipe && c.from_pipe && c.notify_nonblock && c.save_nonblock && c.new_event
    then forked c.fork
    else (false, pos 0)

abbrev pub killed : ℤ → List ℤ
killed pid = if is_zero pid then [] else pid ∷ []

-- `cleanup_main`: the arguments of its calls of `kill`, for `tlsdate_pid` and `setter_pid`.
unfoldable pub cleanup_main : ℤ → ℤ → List ℤ
cleanup_main tlsdate_pid setter_pid = killed tlsdate_pid ++ killed setter_pid

-- `goto out` where a call fails.
unfoldable pub need {ℓ} : {A : Type ℓ} → ℤ → Option A → Started A
unfolding cleanup_main
need setter_pid none = stops (cleanup_main (pos 0) setter_pid)
need setter_pid (some a) = goes a

-- What the system answers while `main` runs.
pub record Calls : Type 0 where
  pub rtc_open : Bool
  pub sigchld_event : Bool
  pub setter : SetterCalls
  pub drops_privileges : Bool
  pub sigterm_event : Bool
  pub run_event : Bool
  pub status_pipe : Bool
  pub status_nonblock : Bool
  pub status_event : Bool
  pub timeout_event : Bool
  pub save_event : Bool
  pub now : ℤ
  pub disk : DiskFile
  pub listens : Bool
  pub route_event : Bool
  pub rand : Option ℤ
  pub sync_event : Bool
  pub sync_added : Bool
  pub continuity_event : Bool
  pub continuity_added : Bool
  pub moment : Moment

module _ (lib : EventLib) where
  open lib use {Base, add}

  abbrev pub with_event : State Base → EventId → State Base
  with_event s e = record s {
    events = λ f. if event_index e == event_index f then true else s.events f;
  }

  -- The state before the first event is made.
  unfoldable pub first_state : Opts → Base → Bool → State Base
  first_state o base rtc_open = record {
    opts = record o { should_sync_hwclock = o.should_sync_hwclock && rtc_open };
    base = base;
    events = λ e. false;
    clock_delta = pos 0;
    last_sync_type = SyncType.none;
    last_time = pos 0;
    tlsdate_pid = 0;
    setter_pid = 0;
    backoff = to_u32 o.wait_between_tries;
    tries = 0;
    resolving = false;
    running = false;
    exitting = false;
  }

  -- `event_new` for an event that waits for nothing yet.
  abbrev pub make_event : Bool → EventId → State Base → Option (State Base)
  make_event made e s = if made then some (with_event s e) else none

  -- `setup_sigchld_event`.
  unfoldable pub setup_sigchld_event : Bool → State Base → Option (State Base)
  setup_sigchld_event made s =
      if made
      then some (record (with_event s EventId.sigchld) { base = add s.base EventId.sigchld none })
      else none

  -- `setup_time_setter` in `main`.
  unfoldable pub start_setter : SetterCalls → State Base → Started (State Base)
  unfolding setup_time_setter cleanup_main
  start_setter c s = elim (setup_time_setter c).1 [
    | pos n ↦
        if (setup_time_setter c).0
        then goes (record s { setter_pid = n })
        else stops (cleanup_main (pos 0) (pos n))
    | negsuc n ↦ stops (cleanup_main (pos 0) (negsuc n))
  ]

  -- `drop_privs_to`, which exits where it fails, and the event of SIGTERM.
  unfoldable pub guard_saving : Calls → State Base → Started (State Base)
  guard_saving c s =
      if not c.drops_privileges
      then dies
      else if s.opts.should_save_disk && not c.sigterm_event
      then dies
      else goes s

  -- `setup_tlsdate_status`.
  unfoldable pub setup_tlsdate_status : Calls → State Base → Option (State Base)
  setup_tlsdate_status c s =
      if not c.status_pipe
      then none
      else if not c.status_nonblock
      then none
      else if not c.status_event
      then none
      else if not c.timeout_event
      then none
      else some (with_event (with_event s EventId.tlsdate_status) EventId.tlsdate_timeout)

  -- The first time, and the event that saves and announces it.
  unfoldable pub take_initial_time : Build → Calls → State Base → State Base
  take_initial_time b c s =
      let first = initial_time b s.opts c.now c.disk in
      trigger_event lib (record s { last_sync_type = first.0; last_time = first.1 }) EventId.save
        (negsuc 0)

  -- `setup_event_route_up`; `listens` tells of `routeup_setup`, or of `fcntl` on the standard input.
  unfoldable pub setup_event_route_up : Calls → State Base → Option (State Base)
  setup_event_route_up c s =
      if c.listens && c.route_event
      then some (record (with_event s EventId.routeup) { base = add s.base EventId.routeup none })
      else none

  -- `setup_event_timer_sync` after its call of `add_jitter`.
  unfoldable pub add_timer_sync : Calls → ℤ → State Base → Option (State Base)
  add_timer_sync c wait_time s =
      if c.sync_event && c.sync_added
      then some (record (with_event s EventId.steadystate) {
        base = add s.base EventId.steadystate (some wait_time);
      })
      else none

  -- The interval of `setup_event_timer_sync`: `add_jitter` exits where it has no random int.
  unfoldable pub sync_interval : Opts → Option ℤ → Started ℤ
  sync_interval o rand =
      if is_zero o.jitter
      then goes o.steady_state_interval
      else elim rand [ none ↦ dies | some n ↦ goes (add_jitter o.steady_state_interval o.jitter n) ]

  -- `setup_event_timer_continuity`; its event is not in `state->events`.
  unfoldable pub setup_event_timer_continuity : Calls → State Base → Option (State Base)
  setup_event_timer_continuity c s =
      if c.continuity_event && c.continuity_added then some s else none

  unfoldable pub first_kickoff : Moment → State Base → Started (State Base)
  first_kickoff m s = elim (action_kickoff_time_sync lib m s) [
    | Outcome.ok t ↦ goes t
    | Outcome.exits n ↦ dies
  ]

  -- The part of `main` from the SIGCHLD event to the save event.
  unfoldable pub make_events : Opts → Base → Calls → Started (State Base)
  make_events o base c = do
    s ← need (pos 0) (setup_sigchld_event c.sigchld_event (first_state o base c.rtc_open))
    t ← start_setter c.setter s
    u ← guard_saving c t
    v ← need (pos u.setter_pid) (make_event c.run_event EventId.tlsdate_run u)
    w ← need (pos u.setter_pid) (setup_tlsdate_status c v)
    need (pos u.setter_pid) (make_event c.save_event EventId.save w)

  -- The part of `main` from the first time to the event loop.
  unfoldable pub make_timers : Build → Calls → State Base → Started (State Base)
  make_timers b c s = do
    t ← need (pos s.setter_pid) (setup_event_route_up c (take_initial_time b c s))
    wait_time ← sync_interval t.opts c.rand
    u ← need (pos s.setter_pid) (add_timer_sync c wait_time t)
    v ← need (pos s.setter_pid) (setup_event_timer_continuity c u)
    first_kickoff c.moment v

  -- `main` between the options and `event_base_dispatch`.
  unfoldable pub main_start : Build → Opts → Base → Calls → Started (State Base)
  main_start b o base c = make_events o base c >>= make_timers b c
