-- ===== src/Tests/Boot.antt =====
-- The start of the daemon on concrete answers of the system.
use tlsdate.Base.{◌≡◌, refl, true, some}
use tlsdate.Base.Int.{pos, ◌+ℤ◌}
use tlsdate.Clock.{holds, is_sane_time, check_continuity, is_jump, initial_time}
use tlsdate.Daemon.Boot.{Ready, main_start-Ready}
use tlsdate.Daemon.Kickoff.{action_kickoff_time_sync, begin_sync}
use tlsdate.Daemon.Run.{parent_of, fork_failed}
use tlsdate.Daemon.Startup.{
  Started, goes, SetterCalls, Calls, need, first_state, setup_sigchld_event, setup_time_setter,
  start_setter, guard_saving, setup_tlsdate_status, take_initial_time, setup_event_route_up,
  add_timer_sync, sync_interval, setup_event_timer_continuity, first_kickoff, make_events,
  make_timers, main_start,
}
use tlsdate.Daemon.{State, schedule, trigger_event}
use tlsdate.Tests.Samples.{Tables, tables, build, opts, no_events, later}

abbrev setter : SetterCalls
setter = record {
  to_pipe = true;
  from_pipe = true;
  notify_nonblock = true;
  save_nonblock = true;
  new_event = true;
  fork = parent_of 6;
}

abbrev all_well : Calls
all_well = record {
  rtc_open = true;
  sigchld_event = true;
  setter = setter;
  drops_privileges = true;
  sigterm_event = true;
  run_event = true;
  status_pipe = true;
  status_nonblock = true;
  status_event = true;
  timeout_event = true;
  save_event = true;
  now = pos 1390000000;
  disk = holds (pos 1400000000);
  listens = true;
  route_event = true;
  rand = some (pos 5);
  sync_event = true;
  sync_added = true;
  continuity_event = true;
  continuity_added = true;
  moment = later;
}

-- The state that the start goes on with.
abbrev state_or : Started (State Tables) → State Tables → State Tables
state_or (goes s) t = s
state_or r t = t

abbrev started : State Tables
started =
    state_or (main_start tables build opts no_events all_well)
      (first_state tables opts no_events true)

main_start-all_well : main_start tables build opts no_events all_well ≡ goes started
unfolding main_start make_events need first_state setup_sigchld_event start_setter setup_time_setter
    guard_saving setup_tlsdate_status make_timers take_initial_time setup_event_route_up
    add_timer_sync sync_interval setup_event_timer_continuity first_kickoff trigger_event schedule
    initial_time is_sane_time action_kickoff_time_sync check_continuity is_jump begin_sync ◌+ℤ◌
main_start-all_well = refl

-- The timestamp on disk is ahead of the clock, and is taken.
started_time : started.last_time ≡ pos 1400000000
unfolding main_start make_events need first_state setup_sigchld_event start_setter setup_time_setter
    guard_saving setup_tlsdate_status make_timers take_initial_time setup_event_route_up
    add_timer_sync sync_interval setup_event_timer_continuity first_kickoff trigger_event schedule
    initial_time is_sane_time action_kickoff_time_sync check_continuity is_jump begin_sync ◌+ℤ◌
started_time = refl

main_start-Ready_example : Ready tables opts.sources started
main_start-Ready_example =
    main_start-Ready tables build opts no_events all_well started refl main_start-all_well

abbrev no_fork : Calls
no_fork = record all_well { setter = record setter { fork = fork_failed } }
