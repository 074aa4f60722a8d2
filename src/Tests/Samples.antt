-- ===== src/Tests/Samples.antt =====
-- An event base as two tables, a build, options and states, for the tests.
use tlsdate.Base.{
  ℕ, ◌≡◌, ◌≢◌, refl, sym, ap, ◌∙◌, Bool, true, false, ◌||◌, [], ◌∷◌, Option, none, some, ◌==◌,
  ==_iff, if◌then◌else◌, codes, Bool-cases, inl, inr,
}
use tlsdate.Base.Int.{ℤ, pos}
use tlsdate.Daemon.Events.{EventLib}
use tlsdate.Daemon.Kickoff.{Moment}
use tlsdate.Daemon.{State}
use tlsdate.Types.{Build, event_index, EventId, Opts, Source, SyncType}

abbrev event_at : ℕ → EventId
event_at n =
    if n == 0
    then EventId.resolver
    else if n == 1
    then EventId.tlsdate_run
    else if n == 2
    then EventId.tlsdate_status
    else if n == 3
    then EventId.tlsdate_timeout
    else if n == 4
    then EventId.save
    else if n == 5
    then EventId.sigchld
    else if n == 6
    then EventId.sigterm
    else if n == 7
    then EventId.steadystate
    else EventId.routeup

event_at-index : (e : EventId) → event_at (event_index e) ≡ e
event_at-index EventId.resolver = refl
event_at-index EventId.tlsdate_run = refl
event_at-index EventId.tlsdate_status = refl
event_at-index EventId.tlsdate_timeout = refl
event_at-index EventId.save = refl
event_at-index EventId.sigchld = refl
event_at-index EventId.sigterm = refl
event_at-index EventId.steadystate = refl
event_at-index EventId.routeup = refl

abbrev same : EventId → EventId → Bool
same e f = event_index e == event_index f

pub same_self : (e : EventId) → same e e ≡ true
same_self e = (==_iff (event_index e) (event_index e)).1 refl

pub same_ne : (e f : EventId) → e ≢ f → same e f ≡ false
same_ne e f n = elim (Bool-cases (same e f)) [
  | inr h ↦ h
  | inl h ↦ absurd (
      n (
        sym (event_at-index e)
        ∙ ap event_at ((==_iff (event_index e) (event_index f)).0 h)
        ∙ event_at-index f))
]

-- Which events are pending, and which of them for a timeout.
pub record Tables : Type 0 where
  pub waits : EventId → Bool
  pub timed : EventId → Bool

abbrev pub timer_of : Option ℤ → Bool → Bool
timer_of none old = old
timer_of (some t) old = true

abbrev pub add_event : Tables → EventId → Option ℤ → Tables
add_event b e t = record {
  waits = λ f. if same e f then true else b.waits f;
  timed = λ f. if same e f then timer_of t (b.timed f) else b.timed f;
}

abbrev pub del_event : Tables → EventId → Tables
del_event b e = record {
  waits = λ f. if same e f then false else b.waits f;
  timed = λ f. if same e f then false else b.timed f;
}

abbrev pub is_pending : Tables → EventId → Bool
is_pending b e = b.timed e || b.waits e

abbrev pub tables : EventLib
tables = record {
  Base = Tables;
  pending = is_pending;
  timeout_pending = λ b e. b.timed e;
  add = add_event;
  del = del_event;
  loopbreak = λ b. b;
  timeout_pending-add = λ b e sec. rw (same_self e) refl;
  timeout_pending-add_ne = λ b e f t n. rw (same_ne e f n) refl;
  timeout_pending-del = λ b e. rw (same_self e) refl;
  timeout_pending-del_ne = λ b e f n. rw (same_ne e f n) refl;
  pending-del = λ b e. rw (same_self e) refl;
  pending-of_timeout = λ b e h. rw h refl;
}

abbrev pub no_events : Tables
no_events = record { waits = λ e. false; timed = λ e. false }

abbrev pub build : Build
build = record {
  recent_compile_date = 1342323666;
  unpriv_user = codes "nobody";
  unpriv_group = codes "nogroup";
  tlsdate_path = codes "tlsdate";
  default_conf_file = codes "tlsdated.conf";
}

abbrev pub google : Source
google = record { host = codes "google.com"; port = codes "443"; proxy = none; id = 0 }

abbrev pub example : Source
example = record {
  host = codes "example.org";
  port = codes "443";
  proxy = some (codes "p");
  id = 1;
}

abbrev pub opts : Opts
opts = record {
  user = codes "nobody";
  group = codes "nogroup";
  max_tries = pos 10;
  min_steady_state_interval = pos 86400;
  wait_between_tries = pos 10;
  subprocess_tries = pos 10;
  subprocess_wait_between_tries = pos 10;
  steady_state_interval = pos 86400;
  continuity_interval = pos 14400;
  base_path = codes "/var/cache/tlsdated";
  base_argv = codes "tlsdate" ∷ [];
  should_sync_hwclock = true;
  should_load_disk = true;
  should_save_disk = true;
  should_netlink = true;
  dry_run = false;
  jitter = pos 0;
  conf_file = none;
  sources = google ∷ example ∷ [];
  cur_source = [];
  proxy = none;
  leap = false;
  should_dbus = true;
  verbose = false;
  verbose_debug = false;
}

-- The daemon before its first attempt.
abbrev pub idle : State Tables
idle = record {
  opts = opts;
  base = no_events;
  events = λ e. true;
  clock_delta = pos 0;
  last_sync_type = SyncType.rtc;
  last_time = pos 1400000000;
  tlsdate_pid = 0;
  setter_pid = 7;
  backoff = 10;
  tries = 0;
  resolving = false;
  running = false;
  exitting = false;
}

abbrev pub busy : State Tables
busy = record idle { tlsdate_pid = 42; running = true; tries = 1 }

abbrev pub synced : State Tables
synced = record idle { last_sync_type = SyncType.net; exitting = true }

-- The clock has jumped by a day.
abbrev pub later : Moment
later = record {
  clocks = record { real = some (pos 1400090000); monotonic = some (pos 100) };
  rand = some (pos 12345);
  now = pos 1400090000;
}
