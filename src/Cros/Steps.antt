-- ===== src/Cros/Steps.antt =====
-- src/platform-cros.c: the messages of the bus and the event of the resolver as steps beside those of
-- the event loop, and the invariant of the runs.
use tlsdate.Base.{
  ℕ, ◌≡◌, ◌≢◌, Bool, true, ◌&&◌, List, [], ◌∷◌, Option, none, some, ◌==◌, Bytes, codes,
  if◌then◌else◌, if_cases, Bool-cases, Option-cases, inl, inr, arith,
}
use tlsdate.Cros.Bus.{Arg, Dbus}
use tlsdate.Cros.Filter.{
  Verdict, pac_answer, with_daemon, kickoff, is_call, is_return, answered, handle_service_change,
  handle_manager_change, handle_suspend_done, handle_dbus_change, take_answer, proxy_change,
  handle_proxy_change, method_return, dbus_filter, action_resolve_proxy, is_service_change,
  is_manager_change, is_dbus_change, k_dbus_interface, k_local_interface, k_service_interface,
  k_manager_interface, k_resolve_interface, k_power_manager_interface, k_member, k_resolve_member,
  k_name_owner_changed, k_suspend_done, k_error_service_unknown,
}
use tlsdate.Cros.Invariant.{
  Ready, Sound, upcoming-first, kickoff-Sound, take_answer-Ready, give_up-Ready, with_daemon-Ready,
  action_resolve_proxy-Sound, sources,
}
use tlsdate.Cros.{Platform, Ran, ok, exits, crashes, time_host}
use tlsdate.Daemon.Events.{EventLib}
use tlsdate.Daemon.Invariant.{Step-Inv}
use tlsdate.Daemon.Kickoff.{Moment}
use tlsdate.Daemon.Steps.{fired}
use tlsdate.Daemon.Steps
use tlsdate.Daemon.{State}
use tlsdate.Types.{Build, EventId, Source}

module _ (lib : EventLib) (bus : Dbus) where
  open lib use {Base, pending}
  open bus use {Message}

  -- One call of a handler, of the bus, of the resolver or of the event loop, that does not exit.
  pub data Step (b : Build) (p q : Platform Base) : Type 0 where
    message :
        (m : Moment) (msg : Message) (v : Verdict)
        → dbus_filter lib bus m msg p ≡ ok (v, q)
        → Step b p q
    resolve :
        (sent : Option ℕ)
        → pending p.daemon.base EventId.resolver ≡ true
        → action_resolve_proxy lib sent (with_daemon lib p (fired lib b p.daemon EventId.resolver))
          ≡ ok q
        → Step b p q
    daemon : (s : State Base) → Steps.Step lib b p.daemon s → with_daemon lib p s ≡ q → Step b p q

  pub data Reach (b : Build) (p : Platform Base) : Platform Base → Type 0 where
    here : Reach b p p
    next : {q r : Platform Base} → Reach b p q → Step b q r → Reach b p r

module _ (lib : EventLib) (bus : Dbus) (first : Source) (rest : List Source) where
  open lib use {Base}
  open bus use {Message, get_type, has_path, args, reply_serial, is_signal, is_error}

  abbrev IsReady : Platform Base → Type 0
  IsReady = Ready lib first rest

  abbrev IsSound : Ran (Platform Base) → Type 0
  IsSound = Sound lib first rest

  -- The same of the filter's result.
  abbrev SoundFilter : Ran (Verdict × Platform Base) → Type 0
  SoundFilter (ok (v, q)) = IsReady q
  SoundFilter (exits n) = Unit
  SoundFilter crashes = ⊥

  answered-Sound : (r : Ran (Platform Base)) → IsSound r → SoundFilter (answered r)
  answered-Sound (ok q) h = h
  answered-Sound (exits n) h = tt
  answered-Sound crashes h = h

  pac_answer-Sound :
      (url : Bytes) (l : List Arg) (p : Platform Base)
      → p.daemon.resolving ≡ true
      → IsReady p
      → IsSound (elim (pac_answer url l) [ none ↦ ok p | some pval ↦ ok (take_answer lib pval p) ])
  pac_answer-Sound url l p h v = elim (Option-cases (pac_answer url l)) [
    | inl e ↦ rw e v
    | inr (pval, e) ↦ rw e (take_answer-Ready lib first rest pval p h v)
  ]

  proxy_change-Sound :
      (l : List Arg) (p : Platform Base)
      → p.daemon.resolving ≡ true
      → IsReady p
      → IsSound (proxy_change lib l p)
  unfolding proxy_change
  proxy_change-Sound [] p h v = v
  proxy_change-Sound (Arg.string pname ∷ more) p h v =
      rw (proxy_change, upcoming-first lib first rest p v)
        (pac_answer-Sound (time_host first) (Arg.string pname ∷ more) p h v)
  proxy_change-Sound (Arg.object_path path ∷ more) p h v = v
  proxy_change-Sound (Arg.variant a ∷ more) p h v = v
  proxy_change-Sound (Arg.other ∷ more) p h v = v

  handle_proxy_change-Sound :
      (msg : Message) (p : Platform Base) → IsReady p → IsSound (handle_proxy_change lib bus msg p)
  unfolding handle_proxy_change
  handle_proxy_change-Sound msg p v = elim (Bool-cases p.daemon.resolving) [
    | inr e ↦ simp (e) v
    | inl e ↦ simp (e) (proxy_change-Sound (args msg) p e v)
  ]

  returned-Ready :
      (p : Platform Base) → IsReady p → IsReady (record p { resolve_network_proxy_serial = 0 })
  returned-Ready p v = record {
    inv = v.inv;
    numbered = v.numbered;
    messages = v.messages;
    safe = v.safe;
    quiet = v.quiet;
  }

  method_return-Ready :
      (msg : Message) (p : Platform Base) → IsReady p → IsReady (method_return lib bus msg p).1
  unfolding method_return
  method_return-Ready msg p v =
      if_cases (λ (r : Verdict × Platform Base). IsReady (r.1))
        (reply_serial msg == p.resolve_network_proxy_serial) _ _ (λ e. returned-Ready p v) (λ e. v)

  filter-Sound :
      (m : Moment) (msg : Message) (p : Platform Base)
      → IsReady p
      → SoundFilter (dbus_filter lib bus m msg p)
  unfolding dbus_filter handle_service_change handle_manager_change handle_suspend_done
      handle_dbus_change
  filter-Sound m msg p v =
      let kicked = kickoff-Sound lib first rest m p v in
      let P = SoundFilter in
      let woken : (b : Bool) → P (answered (if b then kickoff lib m p else ok p)) =
        λ b. answered-Sound _ (if_cases IsSound b _ _ (λ e. kicked) (λ e. v)) in
      if_cases P (is_signal msg k_local_interface (codes "Disconnected")) _ _ (λ e. v)
        (λ e.
          if_cases P (is_call lib bus msg) _ _ (λ e. v)
            (λ e.
              if_cases P (is_signal msg k_dbus_interface (codes "NameAcquired")) _ _ (λ e. v)
                (λ e.
                  if_cases P (is_signal msg k_service_interface k_member) _ _
                    (λ e. woken (has_path msg && is_service_change (args msg)))
                    (λ e.
                      if_cases P (is_signal msg k_manager_interface k_member) _ _
                        (λ e. woken (is_manager_change (args msg)))
                        (λ e.
                          if_cases P (is_signal msg k_resolve_interface k_resolve_member) _ _
                            (λ e. answered-Sound _ (handle_proxy_change-Sound msg p v))
                            (λ e.
                              if_cases P (is_signal msg k_dbus_interface k_name_owner_changed) _ _
                                (λ e. woken (is_dbus_change (args msg)))
                                (λ e.
                                  if_cases P
                                    (is_signal msg k_power_manager_interface k_suspend_done) _ _
                                    (λ e. woken true)
                                    (λ e.
                                      if_cases P (is_error msg k_error_service_unknown) _ _
                                        (λ e. give_up-Ready lib first rest p v)
                                        (λ e.
                                          if_cases P (is_return lib bus msg) _ _
                                            (λ e. method_return-Ready msg p v) (λ e. v))))))))))

  fired-Ready :
      (b : Build) (p : Platform Base)
      → IsReady p
      → IsReady (with_daemon lib p (fired lib b p.daemon EventId.resolver))
  fired-Ready b p v = let w = v.inv in with_daemon-Ready lib first rest p _ v (ground arith)

  Step-Ready : (b : Build) (p q : Platform Base) → Step lib bus b p q → IsReady p → IsReady q
  Step-Ready b p q (message m msg w h) v = rw h at (filter-Sound m msg p v)
  Step-Ready b p q (resolve sent e h) v =
      rw h at (action_resolve_proxy-Sound lib first rest sent _ (fired-Ready b p v))
  Step-Ready b p q (daemon s st e) v = rw e at (
      with_daemon-Ready lib first rest p s v
        (Step-Inv lib (sources lib first rest) b p.daemon s st v.inv))

  -- Every run of the handlers keeps the invariant.
  pub Reach-Ready : (b : Build) {p q : Platform Base} → IsReady p → Reach lib bus b p q → IsReady q
  Reach-Ready b v here = v
  Reach-Ready b v (next {q} {r} path st) = Step-Ready b q r st (Reach-Ready b v path)

  not_crashed : (r : Ran (Platform Base)) → IsSound r → r ≢ crashes
  not_crashed (ok q) h e = cc
  not_crashed (exits n) h e = cc
  not_crashed crashes h e = h

  filter_not_crashed : (r : Ran (Verdict × Platform Base)) → SoundFilter r → r ≢ crashes
  filter_not_crashed (ok (w, q)) h e = cc
  filter_not_crashed (exits n) h e = cc
  filter_not_crashed crashes h e = h

  -- After any run of the handlers from a state with the invariant, no message and no call of the
  -- resolver makes the code read a null pointer or outside of the array of messages.
  pub never_crashes :
      (b : Build) (p q : Platform Base) (m : Moment) (msg : Message) (sent : Option ℕ)
      → IsReady p
      → Reach lib bus b p q
      → (dbus_filter lib bus m msg q ≢ crashes) × (action_resolve_proxy lib sent q ≢ crashes)
  never_crashes b p q m msg sent v r =
      let w = Reach-Ready b v r in
      (
        filter_not_crashed _ (filter-Sound m msg q w),
        not_crashed _ (action_resolve_proxy-Sound lib first rest sent q w),
      )
