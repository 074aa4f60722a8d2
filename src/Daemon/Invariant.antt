-- ===== src/Daemon/Invariant.antt =====
-- src/events/: an invariant of the event loop.
use tlsdate.Base.{
  ◌-◌, ◌≤◌, ◌<◌, ◌≡◌, ◌⊎◌, Bool, true, false, List, [], ◌∷◌, Option, some, codes, arith, ◌&&◌,
  Bool-cases, inl, inr,
}
use tlsdate.Base.Int.{◌+ℤ◌, ℤ, pos, pos_part, to_u32}
use tlsdate.Clock.{Continuity, failed, steady, jumped, check_continuity, ClockSample}
use tlsdate.Daemon.Children.{
  Death, Stop, handle_child_death, handle_child, retry, grow_backoff, sigchld_loop, action_sigchld,
}
use tlsdate.Daemon.Events.{EventLib}
use tlsdate.Daemon.Kickoff.{
  begin_sync, jump_jitter, after_check, Moment, action_kickoff_time_sync, action_invalidate_time,
  action_stdin_wakeup, action_netlink_ready,
}
use tlsdate.Daemon.Response.{Response, action_tlsdate_status}
use tlsdate.Daemon.Run.{Fork, action_run_tlsdate}
use tlsdate.Daemon.Save.{Write, action_sync_and_save, action_sigterm}
use tlsdate.Daemon.TimeSet.{Report, action_time_set}
use tlsdate.Daemon.Steps.{
  Step, Reach, kickoff, invalidate, stdin_wakeup, netlink_ready, run, timeout, save, sigterm,
  sigchld, time_set, here, next, fired,
}
use tlsdate.Daemon.{◌>>=◌, State, Outcome, ok, exits, trigger_event, invalidate_time, bind-eq-ok}
use tlsdate.Types.{is_rtc, resolver_timeout, Build, EventId, Source}

-- The first of the sources asks for its proxy to be resolved.
abbrev pub Asks : List Source → Type 0
Asks [] = ⊥
Asks (src ∷ rest) = src.proxy ≡ some (codes "dynamic")

module _ (lib : EventLib) (sources : List Source) where
  open lib use {Base, timeout_pending}

  -- There is a tlsdate child exactly while `running` is set; the tries stay within their limit; the
  -- backoff stays below 1200 seconds, unless it is the configured wait; no source is chosen; the
  -- sources are the given ones; and a proxy is waited for only if the first of them asks for one.
  pub record Inv (s : State Base) : Type 0 where
    pub child : s.running ≡ true → 0 < s.tlsdate_pid
    pub no_child : s.running ≡ false → s.tlsdate_pid ≡ 0
    pub tries_le : s.tries ≤ pos_part s.opts.max_tries
    pub backoff_ok : (s.backoff < 1200) ⊎ (s.backoff ≡ to_u32 s.opts.wait_between_tries)
    pub no_source : s.opts.cur_source ≡ []
    pub sources_kept : s.opts.sources ≡ sources
    pub resolving_ok : (s.resolving ≡ false) ⊎ Asks sources

  -- `trigger_event` changes the event base alone.
  pub trigger_event-Inv :
      (s : State Base) (id : EventId) (sec : ℤ) → Inv s → Inv (trigger_event lib s id sec)
  unfolding trigger_event
  trigger_event-Inv s id sec v = ground arith

  less_tried : (s : State Base) → Inv s → Inv (record s { tries = s.tries - 1 })
  less_tried s v = ground arith

  forgotten :
      (s : State Base) (now : ℤ)
      → Inv s
      → Inv (invalidate_time lib (record s { clock_delta = pos 0 }) now)
  forgotten s now v = ground arith

  ok_inj : {s t : State Base} → Outcome.ok s ≡ ok t → s ≡ t
  ok_inj h = cc

  begin_sync-Inv : (jitter : ℤ) (s : State Base) → Inv s → Inv (begin_sync lib jitter s)
  unfolding begin_sync
  begin_sync-Inv jitter s v =
      let wait : State Base =
        trigger_event lib s EventId.tlsdate_run (jitter +ℤ pos resolver_timeout) in
      let fewer : Inv (record s { tries = s.tries - 1 }) = less_tried s v in
      ground (
        arith,
        fewer,
        trigger_event-Inv s EventId.tlsdate_run jitter v,
        trigger_event-Inv wait EventId.resolver jitter
            (trigger_event-Inv s EventId.tlsdate_run (jitter +ℤ pos resolver_timeout) v),
      )

  begun :
      (r : Outcome ℤ) (s t : State Base)
      → Inv s
      → (do jitter ← r; ok (begin_sync lib jitter s)) ≡ ok t
      → Inv t
  begun (ok jitter) s t v h = rw (ok_inj h) at (begin_sync-Inv jitter s v)
  begun (exits n) s t v h = cc

  kickoff_at-Inv :
      (r : Continuity) (m : Moment) (s t : State Base)
      → Inv s
      → after_check lib m r s ≡ ok t
      → Inv t
  unfolding after_check
  kickoff_at-Inv failed m s t v h = rw (ok_inj h) at (begin_sync-Inv (pos 0) s v)
  kickoff_at-Inv steady m s t v h = rw (ok_inj h) at (begin_sync-Inv (pos 0) s v)
  kickoff_at-Inv jumped m s t v h =
      begun (jump_jitter lib m s.clock_delta)
        (invalidate_time lib (record s { clock_delta = pos 0 }) m.now) t (forgotten s m.now v) h

  pub kickoff-Inv :
      (m : Moment) (s t : State Base) → Inv s → action_kickoff_time_sync lib m s ≡ ok t → Inv t
  unfolding action_kickoff_time_sync
  kickoff-Inv m s t v h = kickoff_at-Inv (check_continuity m.clocks s.clock_delta).0 m s t v h

  invalid-Inv : (s : State Base) (now : ℤ) → Inv s → Inv (invalidate_time lib s now)
  invalid-Inv s now v = ground arith

  invalidate-Inv :
      (m : Moment) (s t : State Base) → Inv s → action_invalidate_time lib m s ≡ ok t → Inv t
  unfolding action_invalidate_time
  invalidate-Inv m s t v h =
      elim (Bool-cases (is_rtc s.last_sync_type && timeout_pending s.base EventId.tlsdate_run)) [
        | inl e ↦ rw (ok_inj (rw e at h)) at v
        | inr e ↦ kickoff-Inv m (invalidate_time lib s m.now) t (invalid-Inv s m.now v) (rw e at h)
      ]

  run-Inv : (f : Fork) (s : State Base) → Inv s → Inv (action_run_tlsdate lib f s)
  unfolding action_run_tlsdate trigger_event
  run-Inv f s v = ground arith

  status-Inv :
      (b : Build) (r : Response) (s : State Base) → Inv s → Inv (action_tlsdate_status lib b r s)
  unfolding action_tlsdate_status trigger_event
  status-Inv b r s v = ground arith

  -- The same of a result that carries a state.
  abbrev InvOf : Outcome (State Base × List ℤ) → Type 0
  InvOf (ok (t, sent)) = Inv t
  InvOf (exits n) = Unit

  save-InvOf :
      (readable : Bool) (ws : List Write) (s : State Base)
      → Inv s
      → InvOf (action_sync_and_save lib readable ws s)
  unfolding action_sync_and_save
  save-InvOf readable [] s v = v
  save-InvOf readable (w ∷ ws) s v =
      let shut_down : InvOf
          (action_sync_and_save lib readable ws (record s { last_time = pos 0 })) =
        save-InvOf readable ws (record s { last_time = pos 0 }) (ground arith) in
      ground (arith, shut_down)

  sigterm-Inv :
      (now : Option ℤ) (s t : State Base) → Inv s → action_sigterm lib now s ≡ ok t → Inv t
  unfolding action_sigterm trigger_event
  sigterm-Inv now s t v h = ground arith

  death-Inv : (d : Death) (s : State Base) → Inv s → Inv (handle_child_death lib d s).1
  unfolding handle_child_death retry grow_backoff trigger_event
  death-Inv d s v = ground arith

  time_set-Inv :
      (c : ClockSample) (now : ℤ) (r : Report) (s t : State Base)
      → Inv s
      → action_time_set lib c now r s ≡ ok t
      → Inv t
  unfolding action_time_set
  time_set-Inv c now r s t v h = ground arith

  handle_child-Inv :
      (d : Death) (p : Stop) (s t : State Base) (handled : Bool)
      → Inv s
      → handle_child lib d p s ≡ ok (handled, t)
      → Inv t
  unfolding handle_child
  handle_child-Inv d p s t handled v h = ground (arith, death-Inv d s v)

  sigchld_loop-Inv :
      (rounds : List (Death × Stop)) (s t : State Base)
      → Inv s
      → sigchld_loop lib rounds s ≡ ok t
      → Inv t
  unfolding sigchld_loop
  sigchld_loop-Inv [] s t v h = ground arith
  sigchld_loop-Inv ((d, p) ∷ rounds) s t v h =
      let (q, e, later) = bind-eq-ok (handle_child lib d p s) _ h in
      ground (arith, handle_child-Inv d p s q.1 q.0 v e, sigchld_loop-Inv rounds q.1 t)

  sigchld-Inv :
      (d : Death) (p : Stop) (rounds : List (Death × Stop)) (s t : State Base)
      → Inv s
      → action_sigchld lib d p rounds s ≡ ok t
      → Inv t
  unfolding action_sigchld
  sigchld-Inv d p rounds s t v h =
      let (q, e, later) = bind-eq-ok (handle_child lib d p s) _ h in
      sigchld_loop-Inv rounds q.1 t (handle_child-Inv d p s q.1 q.0 v e) later

  -- Every call of a handler keeps the invariant, whatever the system answers.
  pub Step-Inv : (b : Build) (s t : State Base) → Step lib b s t → Inv s → Inv t
  unfolding action_stdin_wakeup action_netlink_ready
  Step-Inv b s t (kickoff m h) v = kickoff-Inv m s t v h
  Step-Inv b s t (invalidate m h) v = invalidate-Inv m s t v h
  Step-Inv b s t (stdin_wakeup m r g h) v = ground (arith, kickoff-Inv m s t)
  Step-Inv b s t (netlink_ready m r c h) v = ground (arith, kickoff-Inv m s t)
  Step-Inv b s t (run f h e) v = ground (arith, run-Inv f (fired lib b s EventId.tlsdate_run))
  Step-Inv b s t (Step.status r h e) v =
      ground (arith, status-Inv b r (fired lib b s EventId.tlsdate_status))
  Step-Inv b s t (timeout h e) v = ground arith
  Step-Inv b s t (save r ws sent h e) v =
      ground (arith, save-InvOf r ws (fired lib b s EventId.save))
  Step-Inv b s t (sigterm now h) v = sigterm-Inv now s t v h
  Step-Inv b s t (sigchld d p rounds h) v = sigchld-Inv d p rounds s t v h
  Step-Inv b s t (time_set c now r h) v = time_set-Inv c now r s t v h

  -- Any run of the event loop keeps the invariant: there is a tlsdate child exactly while `running`
  -- is set, the tries stay within their limit, the backoff stays below 1200 seconds unless it is the
  -- configured wait, no source is chosen, the sources stay the same, and a proxy is
  -- waited for only if the first of them asks for one.
  pub Reach-Inv : (b : Build) {s t : State Base} → Inv s → Reach lib b s t → Inv t
  Reach-Inv b v here = v
  Reach-Inv b v (next {t} {u} r st) = Step-Inv b t u st (Reach-Inv b v r)
