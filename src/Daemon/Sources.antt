-- ===== src/Daemon/Sources.antt =====
-- src/tlsdate-monitor.c behind the event loop: which source a child asks.
use tlsdate.Base.{◌∙◌, ◌≡◌, ◌≤◌, List, [], ◌∷◌, true, arith, length}
use tlsdate.Daemon.Events.{EventLib}
use tlsdate.Daemon.Invariant.{Inv, Reach-Inv}
use tlsdate.Daemon.Steps.{Reach}
use tlsdate.Daemon.{State}
use tlsdate.Monitor.{tlsdate_child, next_source, command, execs, build_argv}
use tlsdate.Types.{Build, Source}

module _ (lib : EventLib) (b : Build) where
  open lib use {Base}

  -- After any run of the event loop from a state with the invariant, the tlsdate child, if its
  -- `dup2` succeeds, asks the first source of the list, however often it was asked before; at most
  -- 1024 arguments being given.
  pub first_source_only :
      (s t : State Base) (x : Source) (rest : List Source)
      → Inv lib s.opts.sources s
      → Reach lib b s t
      → s.opts.sources ≡ x ∷ rest
      → length t.opts.base_argv ≤ 1024
      → tlsdate_child true t.opts ≡ execs (command t.opts x)
  unfolding tlsdate_child build_argv next_source
  first_source_only s t x rest v r e l =
      let v' = Reach-Inv lib s.opts.sources b v r in
      let w : t.opts.cur_source ≡ [] = v'.no_source in
      let k : t.opts.sources ≡ x ∷ rest = v'.sources_kept ∙ e in ground (arith)
