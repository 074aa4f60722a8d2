-- ===== src/Daemon/Save.antt =====
-- src/events/save.c and src/events/sigterm.c: the messages to the time setter.
use tlsdate.Base.{Bool, true, not, ◌&&◌, List, [], ◌∷◌, Option, none, some, if◌then◌else◌}
use tlsdate.Base.Int.{ℤ, pos, negsuc, neg, is_zero}
use tlsdate.Daemon.Events.{EventLib}
use tlsdate.Daemon.{State, Outcome, ok, exits, ◌>>=◌, trigger_event}
use tlsdate.Types.{EventId, is_net}

-- What `write` to the setter gives: all bytes of the time_t, EPIPE, EAGAIN, or anything else.
pub data Write : Type 0 where
  wrote broken_pipe full other_error : Write

module _ (lib : EventLib) where
  open lib use {Base}

  -- The time that `action_sync_and_save` writes: negative for all sources but the network.
  unfoldable pub outgoing : State Base → ℤ
  outgoing s = if is_net s.last_sync_type then s.last_time else neg s.last_time

  -- The write itself, and the shutdown message that may follow it.
  write_time : Write → Outcome (State Base × List ℤ) → State Base → Outcome (State Base × List ℤ)
  unfolding outgoing
  write_time wrote shut_down s =
      if s.exitting && not (is_zero (outgoing s))
      then (do (s', rest) ← shut_down; ok (s', outgoing s ∷ rest))
      else ok (s, outgoing s ∷ [])
  write_time broken_pipe shut_down s = ok (s, [])
  write_time full shut_down s = ok (s, [])
  write_time other_error shut_down s = exits (pos 1)

  -- `action_sync_and_save`, for the answers of its successive writes: the state that it leaves and
  -- the messages that it wrote. A list that is too short ends it.
  unfoldable pub action_sync_and_save :
      Bool → List Write → State Base → Outcome (State Base × List ℤ)
  unfolding write_time
  action_sync_and_save readable [] s = ok (s, [])
  action_sync_and_save readable (w ∷ ws) s =
      let shut_down = action_sync_and_save readable ws (record s { last_time = pos 0 }) in
      if readable then ok (s, []) else write_time w shut_down s

  -- `action_sigterm`; `none` where `time_get` fails.
  unfoldable pub action_sigterm : Option ℤ → State Base → Outcome (State Base)
  action_sigterm none s = exits (pos 1)
  action_sigterm (some now) s =
      ok (trigger_event lib (record s { exitting = true; last_time = now }) EventId.save (negsuc 0))
