-- ===== src/Cros/Invariant.antt =====
-- src/platform-cros.c: an invariant of the resolver of proxies together with the event loop.
use tlsdate.Base.{
  ℕ, ◌≡◌, refl, ap, true, false, not, ◌||◌, List, [], ◌∷◌, map, Option, none, some, ◌==◌, get_elem?,
  arith, Bytes, codes, str_eq, str_eq_iff, if◌then◌else◌, if_cases, Bool-cases, ◌⊎◌, inl, inr,
}
use tlsdate.Base.Int.{pos}
use tlsdate.Cros.Filter.{
  with_daemon, trigger_run, kickoff, take_answer, give_up, resolve_source, action_resolve_proxy,
}
use tlsdate.Cros.Pac.Safety.{IsProxyUrl, canonicalize_pac-IsProxyUrl}
use tlsdate.Cros.Setup.{is_dynamic}
use tlsdate.Cros.{Platform, Ran, ok, exits, crashes, lift, max_proxy_url, time_url, upcoming}
use tlsdate.Daemon.Events.{EventLib}
use tlsdate.Daemon.Invariant.{Asks, Inv, trigger_event-Inv, kickoff-Inv}
use tlsdate.Daemon.Kickoff.{Moment, action_kickoff_time_sync}
use tlsdate.Daemon.{State, Outcome}
use tlsdate.Monitor.{next_source}
use tlsdate.Options.Numbering.{Numbered}
use tlsdate.Types.{EventId, Source}

-- The prepared message of a source.
abbrev pub message_of : Source → Option Bytes
message_of src = if is_dynamic src.proxy then some (time_url src) else none

-- Empty, or a URL that may stand on a command line.
abbrev pub IsSafe : Bytes → Type 0
IsSafe url = (url ≡ []) ⊎ IsProxyUrl max_proxy_url url

module _ (lib : EventLib) (first : Source) (rest : List Source) where
  open lib use {Base}

  abbrev pub sources : List Source
  sources = first ∷ rest

  -- The invariant of the event loop holds; the sources are numbered from 0, and the array has the
  -- message of each; the proxy is safe, and empty unless the first source asks for one.
  pub record Ready (p : Platform Base) : Type 0 where
    pub inv : Inv lib sources p.daemon
    pub numbered : Numbered 0 sources
    pub messages : p.resolve_msg ≡ map message_of sources
    pub safe : IsSafe p.dynamic_proxy
    pub quiet : (p.dynamic_proxy ≡ []) ⊎ Asks sources

  pub upcoming-first : (p : Platform Base) → Ready p → upcoming p ≡ first ∷ rest
  unfolding upcoming next_source
  upcoming-first p v = rw (v.inv.no_source, v.inv.sources_kept) refl

  pub first_message :
      (p : Platform Base) → Ready p → get_elem? p.resolve_msg first.id ≡ some (message_of first)
  first_message p v = rw (v.numbered.0, v.messages) refl

  pub with_daemon-Ready :
      (p : Platform Base) (s : State Base)
      → Ready p
      → Inv lib sources s
      → Ready (with_daemon lib p s)
  with_daemon-Ready p s v w = record {
    inv = w;
    numbered = v.numbered;
    messages = v.messages;
    safe = v.safe;
    quiet = v.quiet;
  }

  -- The handler does not crash, and it leaves a state with the invariant.
  abbrev pub Sound : Ran (Platform Base) → Type 0
  Sound (ok q) = Ready q
  Sound (exits n) = Unit
  Sound crashes = ⊥

  trigger_run-Ready : (p : Platform Base) → Ready p → Ready (trigger_run lib p)
  trigger_run-Ready p v =
      with_daemon-Ready p _ v
        (trigger_event-Inv lib sources p.daemon EventId.tlsdate_run (pos 1) v.inv)

  kickoff_of :
      (m : Moment) (p : Platform Base) (r : Outcome (State Base))
      → action_kickoff_time_sync lib m p.daemon ≡ r
      → Ready p
      → Sound (lift (with_daemon lib p) r)
  kickoff_of m p (Outcome.exits n) e v = tt
  kickoff_of m p (Outcome.ok t) e v =
      with_daemon-Ready p t v (kickoff-Inv lib sources m p.daemon t v.inv e)

  pub kickoff-Sound : (m : Moment) (p : Platform Base) → Ready p → Sound (kickoff lib m p)
  kickoff-Sound m p v = kickoff_of m p (action_kickoff_time_sync lib m p.daemon) refl v

  settled-Inv :
      (s : State Base) → Inv lib sources s → Inv lib sources (record s { resolving = false })
  settled-Inv s v = ground arith

  waiting-Inv :
      (s : State Base)
      → Asks sources
      → Inv lib sources s
      → Inv lib sources (record s { resolving = true })
  waiting-Inv s a v = ground arith

  pub take_answer-Ready :
      (pval : Bytes) (p : Platform Base)
      → p.daemon.resolving ≡ true
      → Ready p
      → Ready (take_answer lib pval p)
  unfolding take_answer
  take_answer-Ready pval p h v = trigger_run-Ready _ (record {
    inv = settled-Inv p.daemon v.inv;
    numbered = v.numbered;
    messages = v.messages;
    safe = canonicalize_pac-IsProxyUrl pval max_proxy_url;
    quiet = elim v.inv.resolving_ok [ inl e ↦ absurd (ground (arith, e)) | inr a ↦ inr a ];
  })

  pub give_up-Ready : (p : Platform Base) → Ready p → Ready (give_up lib p)
  unfolding give_up
  give_up-Ready p v = trigger_run-Ready _ (record {
    inv = settled-Inv p.daemon v.inv;
    numbered = v.numbered;
    messages = v.messages;
    safe = v.safe;
    quiet = v.quiet;
  })

  cleared-Ready : (p : Platform Base) → Ready p → Ready (record p { dynamic_proxy = [] })
  cleared-Ready p v = record {
    inv = v.inv;
    numbered = v.numbered;
    messages = v.messages;
    safe = inl refl;
    quiet = inl refl;
  }

  message_of-Asks : (url : Bytes) → message_of first ≡ some url → Asks sources
  message_of-Asks url h = asks first.proxy h
    where
      asks :
          (proxy : Option Bytes)
          → (if is_dynamic proxy then some (time_url first) else none) ≡ some url
          → proxy ≡ some (codes "dynamic")
      asks none h = cc
      asks (some name) h = elim (Bool-cases (str_eq name (codes "dynamic"))) [
        | inl e ↦ ap some ((str_eq_iff name (codes "dynamic")).0 e)
        | inr e ↦ absurd (ground (arith))
      ]

  resolve_source-Ready :
      (sent : Option ℕ) (msg : Option Bytes) (p : Platform Base)
      → message_of first ≡ msg
      → Ready p
      → Ready (resolve_source lib sent msg p)
  unfolding resolve_source
  resolve_source-Ready sent none p h v = trigger_run-Ready p v
  resolve_source-Ready none (some url) p h v = record {
    inv = waiting-Inv p.daemon (message_of-Asks url h) v.inv;
    numbered = v.numbered;
    messages = v.messages;
    safe = v.safe;
    quiet = v.quiet;
  }
  resolve_source-Ready (some serial) (some url) p h v = record {
    inv = waiting-Inv p.daemon (message_of-Asks url h) v.inv;
    numbered = v.numbered;
    messages = v.messages;
    safe = v.safe;
    quiet = v.quiet;
  }

  pub action_resolve_proxy-Sound :
      (sent : Option ℕ) (p : Platform Base) → Ready p → Sound (action_resolve_proxy lib sent p)
  unfolding action_resolve_proxy
  action_resolve_proxy-Sound sent p v =
      if_cases Sound (p.daemon.resolving || not (p.resolve_network_proxy_serial == 0)) _ _ (λ e. v)
        (λ e.
          rw (upcoming-first p v, first_message p v)
            (resolve_source-Ready sent (message_of first) (record p { dynamic_proxy = [] }) refl
              (cleared-Ready p v)))
