-- ===== src/Daemon/Steps.antt =====
-- The event loop as a step relation: libevent calls the handler of an event that is pending, and
-- the system's answers to the handler are free. An event without EV_PERSIST is no longer pending
-- when its handler starts.
use tlsdate.Base.{◌≡◌, Bool, true, List, Option}
use tlsdate.Base.Int.{ℤ}
use tlsdate.Clock.{ClockSample}
use tlsdate.Daemon.Children.{Death, Stop, action_sigchld}
use tlsdate.Daemon.Events.{EventLib}
use tlsdate.Daemon.Kickoff.{
  Moment, action_kickoff_time_sync, action_invalidate_time, action_stdin_wakeup,
  action_netlink_ready,
}
use tlsdate.Daemon.Response.{Response, action_tlsdate_status}
use tlsdate.Daemon.Run.{Fork, action_run_tlsdate}
use tlsdate.Daemon.Save.{Write, action_sync_and_save, action_sigterm}
use tlsdate.Daemon.TimeSet.{Report, action_time_set}
use tlsdate.Daemon.{State, ok}
use tlsdate.Types.{Build, EventId}

module _ (lib : EventLib) (b : Build) where
  open lib use {Base, pending, del}

  -- The state in which the handler of an event without EV_PERSIST starts.
  abbrev pub fired : State Base → EventId → State Base
  fired s e = record s { base = del s.base e }

  -- One call of a handler that does not exit.
  pub data Step (s t : State Base) : Type 0 where
    kickoff : (m : Moment) → action_kickoff_time_sync lib m s ≡ ok t → Step s t
    invalidate : (m : Moment) → action_invalidate_time lib m s ≡ ok t → Step s t
    stdin_wakeup :
        (m : Moment) (is_read got_byte : Bool)
        → action_stdin_wakeup lib m is_read got_byte s ≡ ok t
        → Step s t
    netlink_ready :
        (m : Moment) (is_read changed : Bool)
        → action_netlink_ready lib m is_read changed s ≡ ok t
        → Step s t
    run :
        (f : Fork)
        → pending s.base EventId.tlsdate_run ≡ true
        → action_run_tlsdate lib f (fired s EventId.tlsdate_run) ≡ t
        → Step s t
    status :
        (r : Response)
        → pending s.base EventId.tlsdate_status ≡ true
        → action_tlsdate_status lib b r (fired s EventId.tlsdate_status) ≡ t
        → Step s t
    timeout :
        pending s.base EventId.tlsdate_timeout ≡ true
        → fired s EventId.tlsdate_timeout ≡ t
        → Step s t
    save :
        (readable : Bool) (ws : List Write) (sent : List ℤ)
        → pending s.base EventId.save ≡ true
        → action_sync_and_save lib readable ws (fired s EventId.save) ≡ ok (t, sent)
        → Step s t
    sigterm : (now : Option ℤ) → action_sigterm lib now s ≡ ok t → Step s t
    sigchld :
        (d : Death) (p : Stop) (rounds : List (Death × Stop))
        → action_sigchld lib d p rounds s ≡ ok t
        → Step s t
    time_set :
        (c : ClockSample) (now : ℤ) (r : Report) → action_time_set lib c now r s ≡ ok t → Step s t

  pub data Reach (s : State Base) : State Base → Type 0 where
    here : Reach s s
    next : {t u : State Base} → Reach s t → Step t u → Reach s u
