-- ===== src/Daemon/Children.antt =====
-- src/events/sigchld.c: dead and stopped children.
use tlsdate.Base.{
  ℕ, ◌+◌, ◌*◌, ◌%◌, ◌^◌, Bool, true, false, not, List, [], ◌∷◌, ltb, ◌==◌, if◌then◌else◌,
}
use tlsdate.Base.Int.{ℤ, pos, to_int, is_zero}
use tlsdate.Daemon.Events.{EventLib}
use tlsdate.Daemon.{State, Outcome, ok, exits, ◌>>=◌, trigger_event}
use tlsdate.Types.{EventId, max_sane_backoff, resolver_timeout}

-- `waitid` for exited children: an error or no child (both return 0), or a pid and its status.
pub data Death : Type 0 where
  nobody : Death
  died : ℕ → ℤ → Death

-- `waitid` for stopped or continued children, and `kill` of the one found.
pub data Stop : Type 0 where
  none_stopped killed kill_not_permitted : Stop

module _ (lib : EventLib) where
  open lib use {Base, del, loopbreak}

  -- `state->backoff` after a failed run.
  unfoldable pub grow_backoff : ℕ → ℕ
  grow_backoff backoff = if ltb backoff max_sane_backoff then (backoff * 2) % 2 ^ 32 else backoff

  -- The last part of `handle_child_death`: run a failed tlsdate again.
  unfoldable pub retry : State Base → State Base
  retry s =
      if not (s.events EventId.resolver)
      then trigger_event lib s EventId.tlsdate_run (to_int s.backoff)
      else trigger_event lib
          (trigger_event lib s EventId.tlsdate_run (to_int (resolver_timeout + s.backoff)))
          EventId.resolver (to_int s.backoff)

  -- The tlsdate child is gone.
  reaped : ℤ → State Base → State Base
  reaped status s =
      let s' = record s {
        base = del s.base EventId.tlsdate_timeout;
        running = false;
        tlsdate_pid = 0;
      } in
      if is_zero status then s' else retry (record s' { backoff = grow_backoff s.backoff })

  -- `handle_child_death`: was a death handled, and the new state.
  unfoldable pub handle_child_death : Death → State Base → Bool × State Base
  unfolding reaped
  handle_child_death nobody s = (false, s)
  handle_child_death (died pid status) s =
      if pid == s.setter_pid
      then (true, record s { base = loopbreak s.base })
      else if not (pid == s.tlsdate_pid)
      then (true, s)
      else (true, reaped status s)

  -- `handle_child_stop`.
  unfoldable pub handle_child_stop : Stop → Outcome Bool
  handle_child_stop none_stopped = ok false
  handle_child_stop killed = ok true
  handle_child_stop kill_not_permitted = exits (pos 1)

  -- `handle_child_death (state) || handle_child_stop (state)`.
  unfoldable pub handle_child : Death → Stop → State Base → Outcome (Bool × State Base)
  unfolding handle_child_death handle_child_stop
  handle_child d p s =
      let (handled, s') = handle_child_death d s in
      if handled then ok (true, s') else (do stopped ← handle_child_stop p; ok (stopped, s'))

  -- The `while` of `action_sigchld`, for the answers of its rounds.
  unfoldable pub sigchld_loop : List (Death × Stop) → State Base → Outcome (State Base)
  sigchld_loop [] s = ok s
  sigchld_loop ((d, p) ∷ rounds) s = do
    (handled, s') ← handle_child d p s
    if handled then sigchld_loop rounds s' else ok s'

  -- `action_sigchld`: one round, and the loop whatever it found.
  unfoldable pub action_sigchld :
      Death → Stop → List (Death × Stop) → State Base → Outcome (State Base)
  action_sigchld d p rounds s = do (_, s') ← handle_child d p s; sigchld_loop rounds s'
