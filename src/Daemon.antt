-- ===== src/Daemon.antt =====
-- The state of the daemon, `struct state` of src/tlsdate.h, and `trigger_event` of src/util.c.
pub mod Events
pub mod Kickoff
pub mod Run
pub mod Response
pub mod Save
pub mod Children
pub mod TimeSet
pub mod Steps
pub mod Invariant
pub mod Progress
pub mod Sources
pub mod Messages
pub mod Attempts
pub mod Startup
pub mod Boot
use tlsdate.Base.{ℕ, ◌≡◌, refl, Bool, true, false, List, [], Option, none, some, if◌then◌else◌}
use tlsdate.Base.Int.{ℤ, pos, negsuc, to_u32}
use tlsdate.Types.{SyncType, EventId, Opts}
use Events.{EventLib}

-- `events` says which pointers of the array are set. The paths, the file descriptors, the RTC
-- handle, the environment and the D-Bus handle are left out: no handler here decides by them.
pub record State (B : Type 0) : Type 0 where
  pub opts : Opts
  pub base : B
  pub events : EventId → Bool
  pub clock_delta : ℤ
  pub last_sync_type : SyncType
  pub last_time : ℤ
  pub tlsdate_pid : ℕ
  pub setter_pid : ℕ
  pub backoff : ℕ
  pub tries : ℕ
  pub resolving : Bool
  pub running : Bool
  pub exitting : Bool

-- A handler goes on with a state, or calls `exit`.
pub data Outcome {ℓ} (A : Type ℓ) : Type ℓ where
  ok : A → Outcome A
  exits : ℤ → Outcome A

infixl 5 ◌>>=◌
abbrev pub ◌>>=◌ {ℓ κ} : {A : Type ℓ} {B : Type κ} → Outcome A → (A → Outcome B) → Outcome B
ok a >>= f = f a
exits n >>= f = exits n

-- Inversion of a bind that goes on.
pub bind-eq-ok {ℓ κ} :
    {A : Type ℓ} {B : Type κ} (m : Outcome A) (f : A → Outcome B) {b : B}
    → (m >>= f) ≡ ok b
    → (a : A) × (m ≡ ok a) × (f a ≡ ok b)
bind-eq-ok (ok a) f h = (a, refl, h)
bind-eq-ok (exits n) f h = cc

module _ (lib : EventLib) where
  open lib use {Base, pending, add, del}

  -- `trigger_event` without the fallback: the event is added anew, with a delay if `sec` is one.
  unfoldable pub schedule : Base → EventId → ℤ → Base
  schedule b id sec =
      let b' = if pending b id then del b id else b in
      elim sec [ pos s ↦ add b' id (some (pos s)) | negsuc s ↦ add b' id none ]

  -- The event that `trigger_event` takes: that of the run for a resolver that is not there.
  unfoldable pub target : (EventId → Bool) → EventId → Option EventId
  target events EventId.resolver =
      if events EventId.resolver
      then some EventId.resolver
      else if events EventId.tlsdate_run
      then some EventId.tlsdate_run
      else none
  target events id = if events id then some id else none

  -- `trigger_event`.
  unfoldable pub trigger_event : State Base → EventId → ℤ → State Base
  unfolding target
  trigger_event s id sec = elim (target s.events id) [
    | none ↦ s
    | some e ↦ record s { base = schedule s.base e sec }
  ]

  -- `invalidate_time`, at the time `now`.
  abbrev pub invalidate_time : State Base → ℤ → State Base
  invalidate_time s now = record s { last_sync_type = SyncType.rtc; last_time = now }

  -- `state->backoff = state->opts.wait_between_tries`.
  abbrev pub reset_backoff : State Base → State Base
  reset_backoff s = record s { backoff = to_u32 s.opts.wait_between_tries }
