-- ===== src/Daemon/Events.antt =====
-- The part of libevent that the daemon calls, as an interface: an event base, and for each event of
-- `state->events` whether it is pending. The laws are those of the libevent manual: an added event
-- is pending until it is deleted, and a call on one event leaves the others alone.
use tlsdate.Base.{◌≡◌, ◌≢◌, Bool, true, false, Option, some}
use tlsdate.Base.Int.{ℤ}
use tlsdate.Types.{EventId}

pub record EventLib : Type 1 where
  pub Base : Type 0
  -- `event_pending (e, EV_READ|EV_WRITE|EV_TIMEOUT|EV_SIGNAL, NULL)`.
  pub pending : Base → EventId → Bool
  -- `event_pending (e, EV_TIMEOUT, NULL)`.
  pub timeout_pending : Base → EventId → Bool
  -- `event_add (e, &delay)` with the seconds of the delay, `event_add (e, NULL)` and `event_del (e)`.
  pub add : Base → EventId → Option ℤ → Base
  pub del : Base → EventId → Base
  -- `event_base_loopbreak (base)`.
  pub loopbreak : Base → Base
  pub timeout_pending-add :
      (b : Base) (e : EventId) (sec : ℤ) → timeout_pending (add b e (some sec)) e ≡ true
  pub timeout_pending-add_ne :
      (b : Base) (e f : EventId) (t : Option ℤ)
      → e ≢ f
      → timeout_pending (add b e t) f ≡ timeout_pending b f
  pub timeout_pending-del : (b : Base) (e : EventId) → timeout_pending (del b e) e ≡ false
  pub timeout_pending-del_ne :
      (b : Base) (e f : EventId) → e ≢ f → timeout_pending (del b e) f ≡ timeout_pending b f
  pub pending-del : (b : Base) (e : EventId) → pending (del b e) e ≡ false
  pub pending-of_timeout :
      (b : Base) (e : EventId) → timeout_pending b e ≡ true → pending b e ≡ true
