-- ===== src/Cros/Messages.antt =====
-- src/platform-cros.c: the two messages of a resolution, and where `dbus_filter` takes them.
use tlsdate.Base.{
  ℕ, ◌≡◌, ◌≢◌, refl, sym, ◌∙◌, true, false, List, ◌∷◌, ◌==◌, ==_iff, Bytes, codes, str_eq,
  str_eq_iff, Bool-cases, inl, inr,
}
use tlsdate.Cros.Bus.{Arg, Dbus, MessageType}
use tlsdate.Cros.Filter.{
  Verdict, is_call, is_return, answered, take_answer, proxy_change, handle_proxy_change,
  method_return, dbus_filter, k_dbus_interface, k_local_interface, k_service_interface,
  k_manager_interface, k_resolve_interface, k_power_manager_interface, k_member, k_resolve_member,
  k_name_owner_changed, k_suspend_done, k_error_service_unknown,
}
use tlsdate.Cros.{Platform, ok, time_host, upcoming}
use tlsdate.Daemon.Events.{EventLib}
use tlsdate.Daemon.Kickoff.{Moment}
use tlsdate.Types.{Source}

module _ (lib : EventLib) (bus : Dbus) where
  open lib use {Base, timeout_pending}
  open bus use {
    Message, get_type, args, reply_serial, is_signal, is_error, is_signal-type, is_signal-member,
    is_error-type,
  }

  -- The bus says that the request with this serial number was taken.
  pub record IsReturn (msg : Message) (serial : ℕ) : Type 0 where
    pub is_method_return : get_type msg ≡ MessageType.method_return
    pub serial_ok : reply_serial msg ≡ serial

  -- The browser's signal with the answer for a URL.
  pub record IsAnswer (msg : Message) (url pac : Bytes) (more : List Arg) : Type 0 where
    pub is_proxy_change : is_signal msg k_resolve_interface k_resolve_member ≡ true
    pub args_ok : args msg ≡ Arg.string url ∷ Arg.string pac ∷ more

  no_signal :
      (msg : Message) (serial : ℕ) (interface member : Bytes)
      → IsReturn msg serial
      → is_signal msg interface member ≡ false
  no_signal msg serial interface member h = elim (Bool-cases (is_signal msg interface member)) [
    | inr e ↦ e
    | inl e ↦ absurd (apart (sym h.is_method_return ∙ is_signal-type msg interface member e))
  ]
    where
      apart : MessageType.method_return ≢ MessageType.signal
      apart e = cc

  no_error :
      (msg : Message) (serial : ℕ) (name : Bytes) → IsReturn msg serial → is_error msg name ≡ false
  no_error msg serial name h = elim (Bool-cases (is_error msg name)) [
    | inr e ↦ e
    | inl e ↦ absurd (apart (sym h.is_method_return ∙ is_error-type msg name e))
  ]
    where
      apart : MessageType.method_return ≢ MessageType.error
      apart e = cc

  no_other :
      (msg : Message) (url pac : Bytes) (more : List Arg) (interface member : Bytes)
      → str_eq member k_resolve_member ≡ false
      → IsAnswer msg url pac more
      → is_signal msg interface member ≡ false
  no_other msg url pac more interface member h a =
      elim (Bool-cases (is_signal msg interface member)) [
        | inr e ↦ e
        | inl e ↦
            let same =
              (is_signal-member msg interface member k_resolve_interface k_resolve_member e
                a.is_proxy_change).1 in
            let t : str_eq member k_resolve_member ≡ true =
              (str_eq_iff member k_resolve_member).1 same in
            absurd cc
      ]

  pub filter_return :
      (m : Moment) (msg : Message) (p : Platform Base)
      → IsReturn msg p.resolve_network_proxy_serial
      → dbus_filter lib bus m msg p
        ≡ ok (Verdict.handled, record p { resolve_network_proxy_serial = 0 })
  unfolding dbus_filter method_return
  filter_return m msg p h =
      let n = p.resolve_network_proxy_serial in
      let same : (reply_serial msg == n) ≡ true = (==_iff (reply_serial msg) n).1 h.serial_ok in
      let call : is_call lib bus msg ≡ false = rw (is_call, h.is_method_return) refl in
      let return : is_return lib bus msg ≡ true = rw (is_return, h.is_method_return) refl in
      simp
        (
          no_signal msg n k_local_interface (codes "Disconnected") h,
          call,
          return,
          no_signal msg n k_dbus_interface (codes "NameAcquired") h,
          no_signal msg n k_service_interface k_member h,
          no_signal msg n k_manager_interface k_member h,
          no_signal msg n k_resolve_interface k_resolve_member h,
          no_signal msg n k_dbus_interface k_name_owner_changed h,
          no_signal msg n k_power_manager_interface k_suspend_done h,
          no_error msg n k_error_service_unknown h,
          same,
        )
        refl

  pub filter_answer :
      (m : Moment) (msg : Message) (p : Platform Base) (url pac : Bytes) (more : List Arg)
      → IsAnswer msg url pac more
      → dbus_filter lib bus m msg p ≡ answered (handle_proxy_change lib bus msg p)
  unfolding dbus_filter
  filter_answer m msg p url pac more a =
      let other = no_other msg url pac more in
      let call : is_call lib bus msg ≡ false =
        rw (is_call, is_signal-type msg k_resolve_interface k_resolve_member a.is_proxy_change)
          refl in
      simp
        (
          other k_local_interface (codes "Disconnected") refl a,
          call,
          other k_dbus_interface (codes "NameAcquired") refl a,
          other k_service_interface k_member refl a,
          other k_manager_interface k_member refl a,
          a.is_proxy_change,
        )
        refl

  str_eq_refl : (s : Bytes) → str_eq s s ≡ true
  str_eq_refl s = (str_eq_iff s s).1 refl

  -- The answer for the URL of the coming source is taken.
  pub handle_proxy_change_answer :
      (msg : Message) (p : Platform Base) (src : Source) (rest : List Source) (pac : Bytes)
      (more : List Arg)
      → p.daemon.resolving ≡ true
      → upcoming p ≡ src ∷ rest
      → IsAnswer msg (time_host src) pac more
      → handle_proxy_change lib bus msg p ≡ ok (take_answer lib pac p)
  unfolding handle_proxy_change proxy_change
  handle_proxy_change_answer msg p src rest pac more r u a =
      simp (proxy_change, r, a.args_ok, u, str_eq_refl (time_host src)) refl
