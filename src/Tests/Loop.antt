-- ===== src/Tests/Loop.antt =====
-- The event loop and the messages to the time setter on concrete states.
use tlsdate.Base.{◌≡◌, inl, refl, true, false, [], ◌∷◌, ◌++◌, All, some, arith}
use tlsdate.Base.Int.{◌+ℤ◌, pos, negsuc}
use tlsdate.Clock.{is_sane_time, check_continuity, is_jump}
use tlsdate.Daemon.Invariant.{Inv, Reach-Inv}
use tlsdate.Daemon.Kickoff.{action_kickoff_time_sync, begin_sync}
use tlsdate.Daemon.Messages.{unsynced_time_is_not_saved, shutdown_saves}
use tlsdate.Daemon.Progress.{Progress, kickoff-Progress}
use tlsdate.Daemon.Save.{wrote, action_sync_and_save}
use tlsdate.Daemon.Steps.{Reach, here, next, kickoff}
use tlsdate.Daemon.{State, ok, schedule, trigger_event}
use tlsdate.Setter.Safety.{NoSave, log_of}
use tlsdate.Setter.Status.{effects, all_succeed}
use tlsdate.Setter.{
  Setter, message, notify, looping, exited, setter_loop, Setup, time_setter_coprocess,
}
use tlsdate.Tests.Samples.{Tables, tables, build, opts, idle, synced, later, add_event, no_events}
use tlsdate.Types.{EventId, setter_time_set, setter_exit}

idle-Inv : Inv tables opts.sources idle
idle-Inv = record {
  child = λ e. ground (arith, e);
  no_child = λ e. refl;
  tries_le = omega arith;
  backoff_ok = inl (omega arith);
  no_source = refl;
  sources_kept = refl;
  resolving_ok = inl refl;
}

-- The resolver is asked first; the run waits for its answer and 30 seconds more.
abbrev asked : State Tables
asked = record idle {
  base =
      add_event (add_event no_events EventId.tlsdate_run (some (pos 30))) EventId.resolver
        (some (pos 0));
}

idle_kickoff : action_kickoff_time_sync tables later idle ≡ ok asked
unfolding action_kickoff_time_sync check_continuity is_jump begin_sync trigger_event schedule ◌+ℤ◌
idle_kickoff = refl

asked-Reach : Reach tables build idle asked
asked-Reach = next here (kickoff later idle_kickoff)

Reach-Inv_example : Inv tables opts.sources asked
Reach-Inv_example = Reach-Inv tables opts.sources build idle-Inv asked-Reach

kickoff-Progress_example : Progress tables idle asked
kickoff-Progress_example =
    kickoff-Progress tables later idle asked (pos 12345) refl refl (omega arith) idle_kickoff

abbrev setup : Setup
setup = record { opens_save = true; enters_sandbox = true }

idle_sends : action_sync_and_save tables false (wrote ∷ []) idle ≡ ok (idle, negsuc 1399999999 ∷ [])
unfolding action_sync_and_save
idle_sends = refl

unsynced_time_is_not_saved_example : All NoSave (
    log_of (
      time_setter_coprocess build opts setup
        (pos 0)
        ((all_succeed, message (negsuc 1399999999)) ∷ [])))
unsynced_time_is_not_saved_example =
    unsynced_time_is_not_saved tables build idle idle false (wrote ∷ []) (negsuc 1399999999 ∷ [])
      setup (pos 0) ((all_succeed, message (negsuc 1399999999)) ∷ []) refl (omega arith) idle_sends
      refl

abbrev waiting : Setter
waiting = record { status = pos 0; save_fd = true; log = [] }

shutdown_saves_example :
    (action_sync_and_save tables false (wrote ∷ wrote ∷ []) synced
      ≡ ok (record synced { last_time = pos 0 }, pos 1400000000 ∷ pos 0 ∷ []))
    × (setter_loop build opts
          ((all_succeed, message (pos 1400000000)) ∷ (all_succeed, message (pos 0)) ∷ [])
          (looping waiting)
        ≡ exited (record waiting {
          status = pos setter_exit;
          log =
              effects opts waiting (pos 1400000000)
              ++ (notify (pos setter_time_set) ∷ notify (pos setter_exit) ∷ []);
        }))
unfolding is_sane_time
shutdown_saves_example = shutdown_saves tables build synced waiting all_succeed refl refl refl refl
