-- ===== src/Cros/Blocked.antt =====
-- src/platform-cros.c: what keeps the resolver from its work.
pub mod Direct
use tlsdate.Base.{
  ℕ, ◌≡◌, ◌≢◌, refl, ap, sym, ◌∙◌, Bool, true, false, List, [], ◌∷◌, Option, none, ◌==◌, ==_iff,
  arith, codes, if◌then◌else◌, Bool-cases, ◌⊎◌, inl, inr, not, ◌&&◌, if_cases,
}
use tlsdate.Cros.Bus.{Arg, Dbus, MessageType}
use tlsdate.Cros.Filter.{
  Verdict, with_daemon, kickoff, is_call, is_return, answered, take_answer, proxy_change,
  handle_service_change, handle_manager_change, handle_suspend_done, handle_dbus_change,
  handle_proxy_change, give_up, method_return, dbus_filter, resolve_source, action_resolve_proxy,
  is_service_change, is_manager_change, is_dbus_change, k_error_service_unknown, k_dbus_interface,
  k_local_interface, k_service_interface, k_manager_interface, k_resolve_interface,
  k_power_manager_interface, k_member, k_resolve_member, k_name_owner_changed, k_suspend_done,
}
use tlsdate.Cros.Invariant.{Ready}
use tlsdate.Cros.Steps.{Reach, Reach-Ready, here, next, message, resolve, daemon}
use tlsdate.Cros.{Platform, Ran, ok, exits, crashes, lift, seen_opts}
use tlsdate.Daemon.Events.{EventLib}
use tlsdate.Daemon.Invariant.{Asks}
use tlsdate.Daemon.Kickoff.{Moment, action_kickoff_time_sync}
use tlsdate.Daemon.Steps.{fired}
use tlsdate.Daemon.{State, Outcome}
use tlsdate.Monitor.{command}
use tlsdate.Types.{Build, EventId, Opts, Source}

module _ (lib : EventLib) (bus : Dbus) where
  open lib use {Base}
  open bus use {Message, get_type, has_path, args, reply_serial, is_signal, is_error}

  -- The serial number and the flag of the default proxy are those of p.
  abbrev Keeps : Platform Base → Platform Base → Type 0
  Keeps p q =
      (q.resolve_network_proxy_serial ≡ p.resolve_network_proxy_serial)
      × (q.default_dynamic ≡ p.default_dynamic)

  -- A message that ends the wait for a reply: the reply, or the error that nobody answers.
  abbrev pub Ends : ℕ → Message → Type 0
  Ends n msg =
      ((get_type msg ≡ MessageType.method_return) × (reply_serial msg ≡ n))
      ⊎ (is_error msg k_error_service_unknown ≡ true)

  abbrev KeptBy : Platform Base → Ran (Platform Base) → Type 0
  KeptBy p (ok q) = Keeps p q
  KeptBy p (exits n) = Unit
  KeptBy p crashes = Unit

  abbrev pub FilterKeeps : Message → Platform Base → Ran (Verdict × Platform Base) → Type 0
  FilterKeeps msg p (ok (v, q)) =
      (q.default_dynamic ≡ p.default_dynamic)
      × ((q.resolve_network_proxy_serial ≡ p.resolve_network_proxy_serial)
          ⊎ Ends p.resolve_network_proxy_serial msg)
  FilterKeeps msg p (exits n) = Unit
  FilterKeeps msg p crashes = Unit

  kickoff-KeptBy : (m : Moment) (p : Platform Base) → KeptBy p (kickoff lib m p)
  kickoff-KeptBy m p = lifted (action_kickoff_time_sync lib m p.daemon)
    where
      lifted : (r : Outcome (State Base)) → KeptBy p (lift (with_daemon lib p) r)
      lifted (Outcome.ok s) = (refl, refl)
      lifted (Outcome.exits n) = tt

  proxy_change-KeptBy : (l : List Arg) (p : Platform Base) → KeptBy p (proxy_change lib l p)
  unfolding proxy_change take_answer
  proxy_change-KeptBy l p = ground arith

  answered-FilterKeeps :
      (msg : Message) (p : Platform Base) (r : Ran (Platform Base))
      → KeptBy p r
      → FilterKeeps msg p (answered r)
  answered-FilterKeeps msg p (ok q) h = (h.1, inl h.0)
  answered-FilterKeeps msg p (exits n) h = tt
  answered-FilterKeeps msg p crashes h = tt

  method_return-FilterKeeps :
      (msg : Message) (p : Platform Base)
      → is_return lib bus msg ≡ true
      → FilterKeeps msg p (ok (method_return lib bus msg p))
  unfolding method_return
  method_return-FilterKeeps msg p h =
      let n = p.resolve_network_proxy_serial in
      if_cases (λ r. FilterKeeps msg p (ok r)) (reply_serial msg == n) _ _
        (λ e. (refl, inr (inl (reply (get_type msg) h, (==_iff (reply_serial msg) n).0 e))))
        (λ e. (refl, inl refl))
    where
      reply :
          (t : MessageType)
          → (elim t [
            | MessageType.method_return ↦ true
            | MessageType.method_call ↦ false
            | MessageType.error ↦ false
            | MessageType.signal ↦ false
          ])
            ≡ true
          → t ≡ MessageType.method_return
      reply MessageType.method_return h = refl
      reply MessageType.method_call h = cc
      reply MessageType.error h = cc
      reply MessageType.signal h = cc

  module _ (m : Moment) (msg : Message) (p : Platform Base) where
    woken : (b : Bool) → FilterKeeps msg p (answered (if b then kickoff lib m p else ok p))
    woken b =
        answered-FilterKeeps msg p _
          (if_cases (KeptBy p) b _ _ (λ e. kickoff-KeptBy m p) (λ e. (refl, refl)))

    proxy_changed : FilterKeeps msg p (answered (handle_proxy_change lib bus msg p))
    unfolding handle_proxy_change
    proxy_changed = answered-FilterKeeps msg p _ (
        if_cases (KeptBy p) (not p.daemon.resolving) _ _ (λ e. (refl, refl))
          (λ e. proxy_change-KeptBy (args msg) p))

    given_up :
        is_error msg k_error_service_unknown ≡ true
        → FilterKeeps msg p (ok (Verdict.handled, give_up lib p))
    unfolding give_up
    given_up e = (refl, inr (inr e))

    pub dbus_filter-FilterKeeps : FilterKeeps msg p (dbus_filter lib bus m msg p)
    unfolding dbus_filter handle_service_change handle_manager_change handle_suspend_done
        handle_dbus_change
    dbus_filter-FilterKeeps =
        let P = FilterKeeps msg p in
        let same : P (ok (Verdict.handled, p)) = (refl, inl refl) in
        if_cases P (is_signal msg k_local_interface (codes "Disconnected")) _ _ (λ e. same)
          (λ e.
            if_cases P (is_call lib bus msg) _ _ (λ e. same)
              (λ e.
                if_cases P (is_signal msg k_dbus_interface (codes "NameAcquired")) _ _ (λ e. same)
                  (λ e.
                    if_cases P (is_signal msg k_service_interface k_member) _ _
                      (λ e. woken (has_path msg && is_service_change (args msg)))
                      (λ e.
                        if_cases P (is_signal msg k_manager_interface k_member) _ _
                          (λ e. woken (is_manager_change (args msg)))
                          (λ e.
                            if_cases P (is_signal msg k_resolve_interface k_resolve_member) _ _
                              (λ e. proxy_changed)
                              (λ e.
                                if_cases P (is_signal msg k_dbus_interface k_name_owner_changed) _ _
                                  (λ e. woken (is_dbus_change (args msg)))
                                  (λ e.
                                    if_cases P
                                      (is_signal msg k_power_manager_interface k_suspend_done) _ _
                                      (λ e. woken true)
                                      (λ e.
                                        if_cases P (is_error msg k_error_service_unknown) _ _
                                          given_up
                                          (λ e.
                                            if_cases P (is_return lib bus msg) _ _
                                              (method_return-FilterKeeps msg p) (λ e. same))))))))))

  -- No message of the run ends the wait for the reply n.
  unfoldable pub Silent : (n : ℕ) (b : Build) {p q : Platform Base} → Reach lib bus b p q → Type 0
  Silent n b here = Unit
  Silent n b (next path (message m msg v h)) = Silent n b path × (¬ Ends n msg)
  Silent n b (next path (resolve sent e h)) = Silent n b path
  Silent n b (next path (daemon s st e)) = Silent n b path

  -- While a reply is waited for, the resolver does nothing.
  waits :
      (n : ℕ) (sent : Option ℕ) (p : Platform Base)
      → p.resolve_network_proxy_serial ≡ n
      → n ≢ 0
      → action_resolve_proxy lib sent p ≡ ok p
  unfolding action_resolve_proxy
  waits n sent p h k = elim (Bool-cases (p.resolve_network_proxy_serial == 0)) [
    | inl e ↦ absurd (k (sym h ∙ (==_iff p.resolve_network_proxy_serial 0).0 e))
    | inr e ↦ elim (Bool-cases p.daemon.resolving) [
      | inl f ↦ simp (f) refl
      | inr f ↦ simp (e, f) refl
    ]
  ]

  serial_of : Ran (Platform Base) → ℕ
  serial_of (ok p) = p.resolve_network_proxy_serial
  serial_of (exits n) = 0
  serial_of crashes = 0

  serial_kept :
      (n : ℕ) (b : Build) {p q : Platform Base}
      → n ≢ 0
      → p.resolve_network_proxy_serial ≡ n
      → (r : Reach lib bus b p q) → Silent n b r
      → q.resolve_network_proxy_serial ≡ n
  unfolding Silent serial_of
  serial_kept n b k h here s = h
  serial_kept n b k h (next {q} {r} path (message m msg v e)) s =
      let before = serial_kept n b k h path s.0 in
      let kept : FilterKeeps msg q (ok (v, r)) = rw e at (dbus_filter-FilterKeeps m msg q) in
      elim kept.1 [ inl same ↦ same ∙ before | inr ends ↦ absurd (s.1 (rw before at ends)) ]
  serial_kept n b k h (next {q} {r} path (resolve sent e g)) s =
      let before = serial_kept n b k h path s in
      let asleep = with_daemon lib q (fired lib b q.daemon EventId.resolver) in
      ap serial_of (sym g ∙ waits n sent asleep before k) ∙ before
  serial_kept n b k h (next {q} {r} path (daemon t st e)) s =
      ap (λ x. x.resolve_network_proxy_serial) (sym e) ∙ serial_kept n b k h path s

  -- Once a reply with a number other than 0 is waited for, the event of the resolver does nothing,
  -- however long the daemon runs, until that reply or the error ServiceUnknown comes: any other
  -- error blocks it for good.
  pub blocked :
      (n : ℕ) (b : Build) (p q : Platform Base) (sent : Option ℕ)
      → n ≢ 0
      → p.resolve_network_proxy_serial ≡ n
      → (r : Reach lib bus b p q) → Silent n b r
      → action_resolve_proxy lib sent q ≡ ok q
  blocked n b p q sent k h r s = waits n sent q (serial_kept n b k h r s) k
