-- ===== src/Cros/Resolver.antt =====
-- src/platform-cros.c: one resolution of a proxy, and what the child sees of it.
use tlsdate.Base.{ℕ, ◌≡◌, refl, true, false, List, [], some, arith, Bytes}
use tlsdate.Base.Int.{ℤ, pos}
use tlsdate.Cros.Bus.{Arg, Dbus}
use tlsdate.Cros.Filter.{
  Verdict, trigger_run, take_answer, dbus_filter, resolve_source, action_resolve_proxy,
}
use tlsdate.Cros.Invariant.{Ready, message_of, upcoming-first, first_message}
use tlsdate.Cros.Messages.{
  IsReturn, IsAnswer, filter_return, filter_answer, handle_proxy_change_answer,
}
use tlsdate.Cros.Pac.{canonicalize_pac}
use tlsdate.Cros.{Platform, ok, ◌>>=◌, max_proxy_url, time_host, upcoming, seen_source}
use tlsdate.Daemon.Events.{EventLib}
use tlsdate.Daemon.Kickoff.{Moment}
use tlsdate.Daemon.Progress.{schedule_timed}
use tlsdate.Daemon.{State, trigger_event, target}
use tlsdate.Types.{EventId, Source}

module _ (lib : EventLib) (bus : Dbus) where
  open lib use {Base, timeout_pending}
  open bus use {Message}

  -- The resolver is idle again, its answer is where the children look, and a run waits.
  pub record Resolved (first : Source) (pac : Bytes) (q : Platform Base) : Type 0 where
    pub idle : (q.daemon.resolving ≡ false) × (q.resolve_network_proxy_serial ≡ 0)
    pub proxy_ok : q.dynamic_proxy ≡ canonicalize_pac pac max_proxy_url
    pub seen :
        (seen_source q.dynamic_proxy q.resolve_msg first).proxy
        ≡ some (canonicalize_pac pac max_proxy_url)
    pub run_waits : timeout_pending q.daemon.base EventId.tlsdate_run ≡ true

  trigger_run-waits :
      (p : Platform Base)
      → p.daemon.events EventId.tlsdate_run ≡ true
      → timeout_pending (trigger_run lib p).daemon.base EventId.tlsdate_run ≡ true
  unfolding trigger_event target
  trigger_run-waits p h =
      simp (trigger_run, trigger_event, target, h)
        (schedule_timed lib p.daemon.base EventId.tlsdate_run (pos 1) (omega arith))

  trigger_event-resolving :
      (s : State Base) (id : EventId) (sec : ℤ)
      → (trigger_event lib s id sec).resolving ≡ s.resolving
  unfolding trigger_event
  trigger_event-resolving s id sec = ground arith

  abbrev settled : State Base → State Base
  settled s = record s { resolving = false }

  abbrev asking : ℕ → Platform Base → Platform Base
  asking n p =
      let s = p.daemon in
      record p {
        daemon = record s { resolving = true };
        dynamic_proxy = [];
        resolve_network_proxy_serial = n;
      }

  module _ (first : Source) (rest : List Source) where
    asks :
        (n : ℕ) (url : Bytes) (p : Platform Base)
        → Ready lib first rest p
        → p.daemon.resolving ≡ false
        → p.resolve_network_proxy_serial ≡ 0
        → message_of first ≡ some url
        → action_resolve_proxy lib (some n) p ≡ ok (asking n p)
    unfolding action_resolve_proxy resolve_source
    asks n url p v r z h =
        simp (r, z, upcoming-first lib first rest p v, first_message lib first rest p v, h) refl

    first_seen :
        (proxy url : Bytes) (p : Platform Base)
        → Ready lib first rest p
        → message_of first ≡ some url
        → (seen_source proxy p.resolve_msg first).proxy ≡ some proxy
    first_seen proxy url p v h = rw (seen_source, first_message lib first rest p v, h) refl

    answer_then_return :
        (n : ℕ) (m m' : Moment) (ret sig : Message) (pac : Bytes) (more : List Arg)
        (p : Platform Base)
        → Ready lib first rest p
        → IsReturn lib bus ret n
        → IsAnswer lib bus sig (time_host first) pac more
        → (dbus_filter lib bus m sig (asking n p) >>= λ r. dbus_filter lib bus m' ret r.1)
          ≡ ok (
            Verdict.handled,
            record (take_answer lib pac (asking n p)) { resolve_network_proxy_serial = 0 },
          )
    unfolding take_answer upcoming
    answer_then_return n m m' ret sig pac more p v h a =
        simp
          (
            filter_answer lib bus m sig (asking n p) (time_host first) pac more a,
            handle_proxy_change_answer lib bus sig (asking n p) first rest pac more refl
                (upcoming-first lib first rest p v) a,
          )
          (filter_return lib bus m' ret (take_answer lib pac (asking n p)) h)

    return_then_answer :
        (n : ℕ) (m m' : Moment) (ret sig : Message) (pac : Bytes) (more : List Arg)
        (p : Platform Base)
        → Ready lib first rest p
        → IsReturn lib bus ret n
        → IsAnswer lib bus sig (time_host first) pac more
        → (dbus_filter lib bus m' ret (asking n p) >>= λ r. dbus_filter lib bus m sig r.1)
          ≡ ok (
            Verdict.handled,
            record (take_answer lib pac (asking n p)) { resolve_network_proxy_serial = 0 },
          )
    unfolding take_answer upcoming
    return_then_answer n m m' ret sig pac more p v h a =
        simp
          (
            filter_return lib bus m' ret (asking n p) h,
            filter_answer lib bus m sig (asking 0 p) (time_host first) pac more a,
            handle_proxy_change_answer lib bus sig (asking 0 p) first rest pac more refl
                (upcoming-first lib first rest p v) a,
          )
          refl

    -- While the resolver is idle and its first source asks for a proxy, its event sends the request.
    -- The bus's word that it was taken and the browser's answer then make it idle again, in either
    -- order and with the same state: the first source's proxy is what the answer says, and a run waits.
    pub resolves :
        (n : ℕ) (url pac : Bytes) (more : List Arg) (m m' : Moment) (ret sig : Message)
        (p : Platform Base)
        → Ready lib first rest p
        → p.daemon.resolving ≡ false
        → p.resolve_network_proxy_serial ≡ 0
        → message_of first ≡ some url
        → p.daemon.events EventId.tlsdate_run ≡ true
        → IsReturn lib bus ret n
        → IsAnswer lib bus sig (time_host first) pac more
        → (asked : Platform Base) × (q : Platform Base) × (action_resolve_proxy lib (some n) p
            ≡ ok asked)
          × ((dbus_filter lib bus m sig asked >>= λ r. dbus_filter lib bus m' ret r.1)
              ≡ ok (Verdict.handled, q))
          × ((dbus_filter lib bus m' ret asked >>= λ r. dbus_filter lib bus m sig r.1)
              ≡ ok (Verdict.handled, q))
          × Resolved first pac q
    unfolding take_answer
    resolves n url pac more m m' ret sig p v r z h e k a = (
      asking n p,
      record (take_answer lib pac (asking n p)) { resolve_network_proxy_serial = 0 },
      asks n url p v r z h,
      answer_then_return n m m' ret sig pac more p v k a,
      return_then_answer n m m' ret sig pac more p v k a,
      record {
        idle = (trigger_event-resolving (settled p.daemon) EventId.tlsdate_run (pos 1), refl);
        proxy_ok = refl;
        seen = first_seen (canonicalize_pac pac max_proxy_url) url p v h;
        run_waits = trigger_run-waits (record p { daemon = settled p.daemon }) e;
      },
    )
