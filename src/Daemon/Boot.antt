-- ===== src/Daemon/Boot.antt =====
-- src/tlsdated.c, `main`: the state in which the event loop starts, and the end without one.
use tlsdate.Base.{refl, ◌∙◌, ◌≡◌, Bool, true, List, [], ◌∷◌, Option, none, some, arith}
use tlsdate.Base.Int.{ℤ, pos, negsuc}
use tlsdate.Daemon.Events.{EventLib}
use tlsdate.Daemon.Invariant.{Inv, kickoff-Inv}
use tlsdate.Daemon.Kickoff.{Moment, action_kickoff_time_sync}
use tlsdate.Daemon.Run.{fork_failed}
use tlsdate.Daemon.Startup.{
  Started, goes, stops, dies, ◌>>=◌, SetterCalls, Calls, setup_time_setter, cleanup_main, need,
  first_state, make_event, setup_sigchld_event, start_setter, guard_saving, setup_tlsdate_status,
  take_initial_time, setup_event_route_up, add_timer_sync, sync_interval,
  setup_event_timer_continuity, first_kickoff, make_events, make_timers, main_start,
}
use tlsdate.Daemon.{State, Outcome, trigger_event}
use tlsdate.Types.{Build, EventId, Opts, Source}

-- What the start goes on with satisfies P.
abbrev Holds {ℓ} : {A : Type ℓ} → (A → Type 0) → Started A → Type 0
Holds P (goes a) = P a
Holds P (stops pids) = Unit
Holds P dies = Unit

abbrev Given {ℓ} : {A : Type ℓ} → (A → Type 0) → Option A → Type 0
Given P none = Unit
Given P (some a) = P a

Holds-bind {ℓ κ} :
    {A : Type ℓ} {B : Type κ} (P : A → Type 0) (Q : B → Type 0) (m : Started A) (f : A → Started B)
    → Holds P m
    → ((a : A) → P a → Holds Q (f a))
    → Holds Q (m >>= f)
Holds-bind P Q (goes a) f h k = k a h
Holds-bind P Q (stops pids) f h k = tt
Holds-bind P Q dies f h k = tt

Holds-need {ℓ} :
    {A : Type ℓ} (P : A → Type 0) (pid : ℤ) (m : Option A) → Given P m → Holds P (need pid m)
unfolding need
Holds-need P pid none h = tt
Holds-need P pid (some a) h = h

any {ℓ} : {A : Type ℓ} (m : Started A) → Holds (λ a. Unit) m
any (goes a) = tt
any (stops pids) = tt
any dies = tt

module _ (lib : EventLib) (sources : List Source) where
  open lib use {Base}

  first_state-Inv :
      (o : Opts) (base : Base) (rtc_open : Bool)
      → o.cur_source ≡ []
      → o.sources ≡ sources
      → Inv lib sources (first_state lib o base rtc_open)
  unfolding first_state
  first_state-Inv o base rtc_open h g = ground arith

  setup_sigchld_event-Inv :
      (made : Bool) (s : State Base)
      → Inv lib sources s
      → Given (Inv lib sources) (setup_sigchld_event lib made s)
  unfolding setup_sigchld_event
  setup_sigchld_event-Inv made s v = ground arith

  start_setter-Inv :
      (c : SetterCalls) (s : State Base)
      → Inv lib sources s
      → Holds (Inv lib sources) (start_setter lib c s)
  unfolding start_setter
  start_setter-Inv c s v = ground arith

  guard_saving-Inv :
      (c : Calls) (s : State Base)
      → Inv lib sources s
      → Holds (Inv lib sources) (guard_saving lib c s)
  unfolding guard_saving
  guard_saving-Inv c s v = ground arith

  -- The invariant, and that the events of the run and of its timeout exist.
  abbrev pub Ready : State Base → Type 0
  Ready s =
      Inv lib sources s
      × (s.events EventId.tlsdate_run ≡ true)
      × (s.events EventId.tlsdate_timeout ≡ true)
      × (s.events EventId.save ≡ true)

  abbrev CanRun : State Base → Type 0
  CanRun s = Inv lib sources s × (s.events EventId.tlsdate_run ≡ true)

  abbrev CanTime : State Base → Type 0
  CanTime s = CanRun s × (s.events EventId.tlsdate_timeout ≡ true)

  make_run-CanRun :
      (made : Bool) (s : State Base)
      → Inv lib sources s
      → Given CanRun (make_event lib made EventId.tlsdate_run s)
  make_run-CanRun made s v = ground arith

  setup_tlsdate_status-CanTime :
      (c : Calls) (s : State Base) → CanRun s → Given CanTime (setup_tlsdate_status lib c s)
  unfolding setup_tlsdate_status
  setup_tlsdate_status-CanTime c s v = ground arith

  make_save-Ready :
      (made : Bool) (s : State Base) → CanTime s → Given Ready (make_event lib made EventId.save s)
  make_save-Ready made s v = ground arith

  take_initial_time-Ready :
      (b : Build) (c : Calls) (s : State Base) → Ready s → Ready (take_initial_time lib b c s)
  unfolding take_initial_time trigger_event
  take_initial_time-Ready b c s v = ground arith

  setup_event_route_up-Ready :
      (c : Calls) (s : State Base) → Ready s → Given Ready (setup_event_route_up lib c s)
  unfolding setup_event_route_up
  setup_event_route_up-Ready c s v = ground arith

  add_timer_sync-Ready :
      (c : Calls) (n : ℤ) (s : State Base) → Ready s → Given Ready (add_timer_sync lib c n s)
  unfolding add_timer_sync
  add_timer_sync-Ready c n s v = ground arith

  setup_event_timer_continuity-Ready :
      (c : Calls) (s : State Base) → Ready s → Given Ready (setup_event_timer_continuity lib c s)
  unfolding setup_event_timer_continuity
  setup_event_timer_continuity-Ready c s v = ground arith

  kickoff-events :
      (m : Moment) (s t : State Base) (e : EventId)
      → action_kickoff_time_sync lib m s ≡ Outcome.ok t
      → t.events e ≡ s.events e
  unfolding action_kickoff_time_sync trigger_event
  kickoff-events m s t e h = ground arith

  kicked :
      (m : Moment) (s : State Base) (r : Outcome (State Base))
      → Ready s
      → action_kickoff_time_sync lib m s ≡ r
      → Holds Ready (elim r [ Outcome.ok t ↦ goes t | Outcome.exits n ↦ dies ])
  kicked m s (Outcome.exits n) v h = tt
  kicked m s (Outcome.ok t) v h = (
    kickoff-Inv lib sources m s t v.0 h,
    kickoff-events m s t EventId.tlsdate_run h ∙ v.1,
    kickoff-events m s t EventId.tlsdate_timeout h ∙ v.2,
    kickoff-events m s t EventId.save h ∙ v.3,
  )

  first_kickoff-Ready :
      (m : Moment) (s : State Base) → Ready s → Holds Ready (first_kickoff lib m s)
  unfolding first_kickoff
  first_kickoff-Ready m s v = kicked m s (action_kickoff_time_sync lib m s) v refl

  make_events-Ready :
      (o : Opts) (base : Base) (c : Calls)
      → o.cur_source ≡ []
      → o.sources ≡ sources
      → Holds Ready (make_events lib o base c)
  unfolding make_events
  make_events-Ready o base c h g =
      Holds-bind (Inv lib sources) Ready _ _
        (Holds-need (Inv lib sources) (pos 0) _
          (setup_sigchld_event-Inv c.sigchld_event _ (first_state-Inv o base c.rtc_open h g)))
        (λ s v. Holds-bind (Inv lib sources) Ready _ _ (start_setter-Inv c.setter s v) (λ t v.
          Holds-bind (Inv lib sources) Ready _ _ (guard_saving-Inv c t v) (λ u v.
            Holds-bind CanRun Ready _ _
              (Holds-need CanRun (pos u.setter_pid) _ (make_run-CanRun c.run_event u v))
              (λ w v.
                Holds-bind CanTime Ready _
                  (λ x. need (pos u.setter_pid) (make_event lib c.save_event EventId.save x))
                  (Holds-need CanTime (pos u.setter_pid) _ (setup_tlsdate_status-CanTime c w v))
                  (λ x v.
                    Holds-need Ready (pos u.setter_pid) _ (make_save-Ready c.save_event x v))))))

  make_timers-Ready :
      (b : Build) (c : Calls) (s : State Base) → Ready s → Holds Ready (make_timers lib b c s)
  unfolding make_timers
  make_timers-Ready b c s v =
      Holds-bind Ready Ready _ _
        (Holds-need Ready (pos s.setter_pid) _
          (setup_event_route_up-Ready c _ (take_initial_time-Ready b c s v)))
        (λ t v.
          Holds-bind (λ n. Unit) Ready _ _ (any (sync_interval lib t.opts c.rand))
            (λ n i.
              Holds-bind Ready Ready _ _
                (Holds-need Ready (pos s.setter_pid) _ (add_timer_sync-Ready c n t v))
                (λ u v.
                  Holds-bind Ready Ready _ (first_kickoff lib c.moment)
                    (Holds-need Ready (pos s.setter_pid) _
                      (setup_event_timer_continuity-Ready c u v))
                    (λ w v. first_kickoff-Ready c.moment w v))))

module _ (lib : EventLib) where
  open lib use {Base}

  -- When the daemon enters its event loop the invariant of the loop holds, and the events of the run,
  -- of its timeout and of the save exist. No source may have been chosen before;
  -- the sources are those of the options.
  pub main_start-Ready :
      (b : Build) (o : Opts) (base : Base) (c : Calls) (s : State Base)
      → o.cur_source ≡ []
      → main_start lib b o base c ≡ goes s
      → Ready lib o.sources s
  unfolding main_start
  main_start-Ready b o base c s h e = rw e at (
      Holds-bind (Ready lib o.sources) (Ready lib o.sources) (make_events lib o base c)
        (make_timers lib b c) (make_events-Ready lib o.sources o base c h refl)
        (make_timers-Ready lib o.sources b c))

  -- Where the time setter cannot be forked, but all calls before the fork succeed, the daemon
  -- stops, and on its way out it sends SIGKILL to the pid -1: to every process that it may signal.
  pub failed_fork_kills_all :
      (b : Build) (o : Opts) (base : Base) (c : Calls)
      → c.sigchld_event ≡ true
      → c.setter ≡ record {
        to_pipe = true;
        from_pipe = true;
        notify_nonblock = true;
        save_nonblock = true;
        new_event = true;
        fork = fork_failed;
      }
      → main_start lib b o base c ≡ stops (negsuc 0 ∷ [])
  unfolding main_start make_events need setup_sigchld_event start_setter setup_time_setter
      cleanup_main
  failed_fork_kills_all b o base c h k = rw (h, k) refl
