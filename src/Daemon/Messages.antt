-- ===== src/Daemon/Messages.antt =====
-- src/events/save.c and src/tlsdate-setter.c: the messages of the daemon, read by the time setter.
use tlsdate.Base.{◌≡◌, refl, Bool, true, false, List, [], ◌∷◌, ◌++◌, All, map, arith}
use tlsdate.Base.Int.{ℤ, pos, negsuc, nat_abs, ◌≤ℤ◌}
use tlsdate.Clock.{is_sane_time}
use tlsdate.Daemon.Events.{EventLib}
use tlsdate.Daemon.Save.{Write, wrote, full, action_sync_and_save}
use tlsdate.Daemon.Steps.{fired}
use tlsdate.Daemon.{State, Outcome, ok, exits}
use tlsdate.Setter.Safety.{AsksNoSave, NoSave, log_of, time_setter_coprocess-NoSave}
use tlsdate.Setter.Status.{effects, all_succeed, setter_shuts_down}
use tlsdate.Setter.{
  Setter, Answers, Read, message, notify, Setup, setter_loop, looping, exited,
  time_setter_coprocess,
}
use tlsdate.Types.{Build, EventId, SyncType, is_net, setter_time_set, setter_exit}

sane-nat_abs :
    (b : Build) (t : ℤ) → is_sane_time b t ≡ true → is_sane_time b (pos (nat_abs t)) ≡ true
unfolding is_sane_time
sane-nat_abs b (pos n) h = h
sane-nat_abs b (negsuc n) h = cc

-- Rounds that read messages which are not positive ask for no save.
reads-AsksNoSave :
    (rounds : List (Answers × Read)) (sent : List ℤ)
    → map (λ q. q.1) rounds ≡ map message sent
    → All (λ m. m ≤ℤ pos 0) sent
    → All (λ q. AsksNoSave q.1) rounds
reads-AsksNoSave [] sent e h = tt
reads-AsksNoSave (q ∷ rounds) [] e h = cc
reads-AsksNoSave ((a, r) ∷ rounds) (m ∷ sent) e h =
    let first : r ≡ message m = cc in
    let others : map (λ (q : Answers × Read). q.1) rounds ≡ map message sent = cc in
    (rw first h.0, reads-AsksNoSave rounds sent others h.1)

module _ (lib : EventLib) where
  open lib use {Base, pending, del, pending-del}

  -- `action_sync_and_save` calls itself at most once: answers behind the second are never read.
  pub two_writes :
      (readable : Bool) (v w : Write) (ws : List Write) (s : State Base)
      → action_sync_and_save lib readable (v ∷ w ∷ ws) s
        ≡ action_sync_and_save lib readable (v ∷ w ∷ []) s
  unfolding action_sync_and_save
  two_writes readable v w ws s = ground arith

  abbrev Unsaved : Outcome (State Base × List ℤ) → Type 0
  Unsaved (ok (t, sent)) = All (λ m. m ≤ℤ pos 0) sent
  Unsaved (exits n) = Unit

  save-Unsaved :
      (readable : Bool) (ws : List Write) (s : State Base)
      → is_net s.last_sync_type ≡ false
      → pos 0 ≤ℤ s.last_time
      → Unsaved (action_sync_and_save lib readable ws s)
  unfolding action_sync_and_save
  save-Unsaved readable [] s h k = tt
  save-Unsaved readable (w ∷ ws) s h k =
      let rest : Unsaved (action_sync_and_save lib readable ws (record s { last_time = pos 0 })) =
        save-Unsaved readable ws (record s { last_time = pos 0 }) h (omega arith) in
      ground (arith, rest)

  -- While the daemon's time is from any source but the network and is not negative, a setter that
  -- reads exactly what one call of `action_sync_and_save` sends never writes the timestamp file,
  -- whatever else happens to it.
  pub unsynced_time_is_not_saved :
      (b : Build) (s t : State Base) (readable : Bool) (ws : List Write) (sent : List ℤ)
      → (u : Setup) (garbage : ℤ) (rounds : List (Answers × Read)) → is_net s.last_sync_type ≡ false
      → pos 0 ≤ℤ s.last_time
      → action_sync_and_save lib readable ws s ≡ ok (t, sent)
      → map (λ q. q.1) rounds ≡ map message sent
      → All NoSave (log_of (time_setter_coprocess b s.opts u garbage rounds))
  unsynced_time_is_not_saved b s t readable ws sent u garbage rounds h k e r =
      time_setter_coprocess-NoSave b s.opts u garbage rounds
        (reads-AsksNoSave rounds sent r (rw e at (save-Unsaved readable ws s h k)))

  -- At a shutdown with a sane network time, where both writes succeed, the daemon sends the time
  -- and then 0. A setter that reads the two outside a dry run, and whose calls succeed, sets the
  -- system clock to that time, then the hardware clock if that is asked for, then saves the time if
  -- the timestamp is open, reports success, and exits with SETTER_EXIT.
  pub shutdown_saves :
      (b : Build) (s : State Base) (u : Setter) (a : Answers)
      → s.exitting ≡ true
      → s.last_sync_type ≡ SyncType.net
      → is_sane_time b s.last_time ≡ true
      → s.opts.dry_run ≡ false
      → (action_sync_and_save lib false (wrote ∷ wrote ∷ []) s
          ≡ ok (record s { last_time = pos 0 }, s.last_time ∷ pos 0 ∷ []))
        × (setter_loop b s.opts
              ((all_succeed, message s.last_time) ∷ (a, message (pos 0)) ∷ [])
              (looping u)
            ≡ exited (record u {
              status = pos setter_exit;
              log =
                  u.log
                  ++ (effects s.opts u s.last_time
                      ++ (notify (pos setter_time_set) ∷ notify (pos setter_exit) ∷ []));
            }))
  unfolding action_sync_and_save is_sane_time
  shutdown_saves b s u a e n h d =
      (ground arith, setter_shuts_down b s.opts a u s.last_time (sane-nat_abs b s.last_time h) d)

  -- Where the pipe to the setter is full when the event of the save fires, nothing is sent and the
  -- state stays as it is; the event, which would try again, is then not pending any more.
  pub full_pipe_forgets :
      (b : Build) (s : State Base) (ws : List Write)
      → (action_sync_and_save lib false (full ∷ ws) (fired lib b s EventId.save)
          ≡ ok (fired lib b s EventId.save, []))
        × (pending (fired lib b s EventId.save).base EventId.save ≡ false)
  unfolding action_sync_and_save
  full_pipe_forgets b s ws = (refl, pending-del s.base EventId.save)
