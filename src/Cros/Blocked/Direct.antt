-- ===== src/Cros/Blocked/Direct.antt =====
-- src/platform-cros.c: a default proxy of "dynamic" that no source asks for.
use tlsdate.Base.{
  ◌≡◌, refl, ap, sym, ◌∙◌, Bool, true, List, [], ◌∷◌, Option, none, arith, inl, inr, ℕ,
}
use tlsdate.Cros.Blocked.{FilterKeeps, dbus_filter-FilterKeeps}
use tlsdate.Cros.Bus.{Dbus}
use tlsdate.Cros.Filter.{with_daemon, action_resolve_proxy, resolve_source}
use tlsdate.Cros.Invariant.{Ready}
use tlsdate.Cros.Steps.{Reach, Reach-Ready, here, next, message, resolve, daemon}
use tlsdate.Cros.{Platform, Ran, ok, exits, crashes, seen_opts}
use tlsdate.Daemon.Events.{EventLib}
use tlsdate.Daemon.Invariant.{Asks}
use tlsdate.Daemon.Steps.{fired}
use tlsdate.Monitor.{command}
use tlsdate.Types.{Build, EventId, Opts, Source}

module _ (lib : EventLib) (bus : Dbus) where
  open lib use {Base}

  default_of : Ran (Platform Base) → Bool → Bool
  default_of (ok p) d = p.default_dynamic
  default_of (exits n) d = d
  default_of crashes d = d

  resolve-default :
      (sent : Option ℕ) (p : Platform Base)
      → default_of (action_resolve_proxy lib sent p) p.default_dynamic ≡ p.default_dynamic
  unfolding action_resolve_proxy resolve_source default_of
  resolve-default sent p = ground arith

  default_kept :
      (b : Build) {p q : Platform Base}
      → Reach lib bus b p q
      → q.default_dynamic ≡ p.default_dynamic
  unfolding default_of
  default_kept b here = refl
  default_kept b (next {q} {r} path (message m msg v e)) =
      let kept : FilterKeeps lib bus msg q (ok (v, r)) =
        rw e at (dbus_filter-FilterKeeps lib bus m msg q) in
      kept.0 ∙ default_kept b path
  default_kept b (next {q} {r} path (resolve sent e g)) =
      let asleep = with_daemon lib q (fired lib b q.daemon EventId.resolver) in
      let same : r.default_dynamic ≡ q.default_dynamic = rw g at (resolve-default sent asleep) in
      same ∙ default_kept b path
  default_kept b (next {q} {r} path (daemon t st e)) =
      ap (λ x. x.default_dynamic) (sym e) ∙ default_kept b path

  abbrev without_proxy : Opts → Opts
  without_proxy o = record o { proxy = none }

  abbrev proxyless : Source → Source
  proxyless src = record src { proxy = none }

  -- Where the default proxy is "dynamic" but the first source does not ask for one, every child that
  -- the daemon ever starts gets the command line without a proxy, also for a source that has a
  -- proxy of its own.
  pub default_dynamic_is_direct :
      (first : Source) (rest : List Source) (b : Build) (p q : Platform Base) (src : Source)
      → Ready lib first rest p
      → (¬ Asks (first ∷ rest))
      → p.default_dynamic ≡ true
      → Reach lib bus b p q
      → command (seen_opts q) src ≡ command (without_proxy (seen_opts q)) (proxyless src)
  unfolding command seen_opts
  default_dynamic_is_direct first rest b p q src v a d r =
      let w = Reach-Ready lib bus first rest b v r in
      let on : q.default_dynamic ≡ true = default_kept b r ∙ d in
      let empty : q.dynamic_proxy ≡ [] = elim w.quiet [ inl e ↦ e | inr asks ↦ absurd (a asks) ] in
      simp (on, empty) refl
