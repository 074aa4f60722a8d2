-- ===== src/Cros/Filter.antt =====
-- src/platform-cros.c: the handlers of messages, `dbus_filter` and `action_resolve_proxy`.
use tlsdate.Base.{
  ℕ, Bool, true, false, not, ◌&&◌, ◌||◌, List, [], ◌∷◌, Option, none, some, ◌==◌, if◌then◌else◌,
  get_elem?, Bytes, codes, str_eq,
}
use tlsdate.Base.Int.{pos}
use tlsdate.Cros.Bus.{Arg, MessageType, Dbus}
use tlsdate.Cros.Pac.{canonicalize_pac}
use tlsdate.Cros.{Platform, Ran, ok, crashes, lift, ◌>>=◌, max_proxy_url, time_host, upcoming}
use tlsdate.Daemon.Events.{EventLib}
use tlsdate.Daemon.Kickoff.{Moment, action_kickoff_time_sync}
use tlsdate.Daemon.{State, trigger_event}
use tlsdate.Types.{EventId}

-- What `dbus_filter` does with a message: it takes it, leaves it to others, or kills its own process
-- with SIGINT.
pub data Verdict : Type 0 where
  handled not_yet_handled interrupts : Verdict

-- The names of interfaces, of their members and of an error.
abbrev pub k_dbus_interface : Bytes
k_dbus_interface = codes "org.freedesktop.DBus"

abbrev pub k_local_interface : Bytes
k_local_interface = codes "org.freedesktop.DBus.Local"

abbrev pub k_service_interface : Bytes
k_service_interface = codes "org.chromium.flimflam.Service"

abbrev pub k_manager_interface : Bytes
k_manager_interface = codes "org.chromium.flimflam.Manager"

abbrev pub k_resolve_interface : Bytes
k_resolve_interface = codes "org.torproject.tlsdate.Resolver"

abbrev pub k_power_manager_interface : Bytes
k_power_manager_interface = codes "org.chromium.PowerManager"

abbrev pub k_member : Bytes
k_member = codes "PropertyChanged"

abbrev pub k_resolve_member : Bytes
k_resolve_member = codes "ProxyChange"

abbrev pub k_name_owner_changed : Bytes
k_name_owner_changed = codes "NameOwnerChanged"

abbrev pub k_suspend_done : Bytes
k_suspend_done = codes "SuspendDone"

abbrev pub k_lib_cros_dest : Bytes
k_lib_cros_dest = codes "org.chromium.LibCrosService"

abbrev pub k_error_service_unknown : Bytes
k_error_service_unknown = codes "org.freedesktop.DBus.Error.ServiceUnknown"

-- The tests of `handle_service_change`, `handle_manager_change` and `handle_dbus_change` on the
-- arguments.
abbrev pub is_service_change : List Arg → Bool
is_service_change (Arg.string pname ∷ Arg.variant (Arg.string pval) ∷ rest) =
    str_eq pname (codes "ProxyConfig")
is_service_change _ = false

abbrev pub is_manager_change : List Arg → Bool
is_manager_change (Arg.string pname ∷ Arg.variant (Arg.object_path pval) ∷ rest) =
    str_eq pname (codes "DefaultService")
is_manager_change _ = false

abbrev pub is_dbus_change : List Arg → Bool
is_dbus_change (Arg.string pname ∷ rest) = str_eq pname k_lib_cros_dest
is_dbus_change _ = false

-- The two strings of an answer of the resolver for the given URL: the second one.
abbrev pub pac_answer : Bytes → List Arg → Option Bytes
pac_answer url (Arg.string pname ∷ Arg.string pval ∷ rest) =
    if str_eq pname url then some pval else none
pac_answer url _ = none

module _ (lib : EventLib) where
  open lib use {Base}

  abbrev pub with_daemon : Platform Base → State Base → Platform Base
  with_daemon p s = record p { daemon = s }

  abbrev pub kickoff : Moment → Platform Base → Ran (Platform Base)
  kickoff m p = lift (with_daemon p) (action_kickoff_time_sync lib m p.daemon)

  abbrev pub trigger_run : Platform Base → Platform Base
  trigger_run p = with_daemon p (trigger_event lib p.daemon EventId.tlsdate_run (pos 1))

  -- `state->resolving = 0` and the rest of `handle_proxy_change`.
  unfoldable pub take_answer : Bytes → Platform Base → Platform Base
  take_answer pval p =
      let s = p.daemon in
      trigger_run (record p {
        daemon = record s { resolving = false };
        dynamic_proxy = canonicalize_pac pval max_proxy_url;
      })

  -- `handle_proxy_change` on the arguments, while an answer is waited for.
  unfoldable pub proxy_change : List Arg → Platform Base → Ran (Platform Base)
  unfolding take_answer
  proxy_change (Arg.string pname ∷ rest) p = elim (upcoming p) [
    | [] ↦ crashes
    | src ∷ more ↦ elim (pac_answer (time_host src) (Arg.string pname ∷ rest)) [
      | none ↦ ok p
      | some pval ↦ ok (take_answer pval p)
    ]
  ]
  proxy_change _ p = ok p

  -- The answer ServiceUnknown: no proxy is resolved, and tlsdate is fired off at once.
  unfoldable pub give_up : Platform Base → Platform Base
  give_up p =
      let s = p.daemon in
      trigger_run
        (record p { daemon = record s { resolving = false }; resolve_network_proxy_serial = 0 })

  -- From the test of the source's message on, with the serial number that `dbus_connection_send`
  -- gives the message, `none` where it fails.
  unfoldable pub resolve_source : Option ℕ → Option Bytes → Platform Base → Platform Base
  resolve_source sent none p = trigger_run p
  resolve_source sent (some url) p =
      let s = p.daemon in
      let q = record p { daemon = record s { resolving = true } } in
      elim sent [ none ↦ q | some serial ↦ record q { resolve_network_proxy_serial = serial } ]

  -- `action_resolve_proxy`.
  unfoldable pub action_resolve_proxy : Option ℕ → Platform Base → Ran (Platform Base)
  unfolding resolve_source
  action_resolve_proxy sent p =
      if p.daemon.resolving || not (p.resolve_network_proxy_serial == 0)
      then ok p
      else elim (upcoming p) [
        | [] ↦ crashes
        | src ∷ more ↦ elim (get_elem? p.resolve_msg src.id) [
          | none ↦ crashes
          | some msg ↦ ok (resolve_source sent msg (record p { dynamic_proxy = [] }))
        ]
      ]

abbrev pub answered : {B : Type 0} → Ran (Platform B) → Ran (Verdict × Platform B)
answered r = r >>= λ p. ok (Verdict.handled, p)

module _ (lib : EventLib) (bus : Dbus) where
  open lib use {Base}
  open bus use {Message, get_type, has_path, args, reply_serial, is_signal, is_error}

  unfoldable pub handle_service_change : Moment → Message → Platform Base → Ran (Platform Base)
  handle_service_change m msg p =
      if has_path msg && is_service_change (args msg) then kickoff lib m p else ok p

  unfoldable pub handle_manager_change : Moment → Message → Platform Base → Ran (Platform Base)
  handle_manager_change m msg p = if is_manager_change (args msg) then kickoff lib m p else ok p

  unfoldable pub handle_suspend_done : Moment → Message → Platform Base → Ran (Platform Base)
  handle_suspend_done m msg p = kickoff lib m p

  unfoldable pub handle_dbus_change : Moment → Message → Platform Base → Ran (Platform Base)
  handle_dbus_change m msg p = if is_dbus_change (args msg) then kickoff lib m p else ok p

  unfoldable pub handle_proxy_change : Message → Platform Base → Ran (Platform Base)
  unfolding proxy_change
  handle_proxy_change msg p = if not p.daemon.resolving then ok p else proxy_change lib (args msg) p

  unfoldable pub method_return : Message → Platform Base → Verdict × Platform Base
  method_return msg p =
      if reply_serial msg == p.resolve_network_proxy_serial
      then (Verdict.handled, record p { resolve_network_proxy_serial = 0 })
      else (Verdict.not_yet_handled, p)

  abbrev pub is_return : Message → Bool
  is_return msg = elim (get_type msg) [
    | MessageType.method_return ↦ true
    | MessageType.method_call ↦ false
    | MessageType.error ↦ false
    | MessageType.signal ↦ false
  ]

  abbrev pub is_call : Message → Bool
  is_call msg = elim (get_type msg) [
    | MessageType.method_call ↦ true
    | MessageType.method_return ↦ false
    | MessageType.error ↦ false
    | MessageType.signal ↦ false
  ]

  -- `dbus_filter`.
  unfoldable pub dbus_filter : Moment → Message → Platform Base → Ran (Verdict × Platform Base)
  unfolding handle_service_change handle_manager_change handle_proxy_change handle_dbus_change
      handle_suspend_done give_up method_return
  dbus_filter m msg p =
      if is_signal msg k_local_interface (codes "Disconnected")
      then ok (Verdict.interrupts, p)
      else if is_call msg
      then ok (Verdict.not_yet_handled, p)
      else if is_signal msg k_dbus_interface (codes "NameAcquired")
      then ok (Verdict.handled, p)
      else if is_signal msg k_service_interface k_member
      then answered (handle_service_change m msg p)
      else if is_signal msg k_manager_interface k_member
      then answered (handle_manager_change m msg p)
      else if is_signal msg k_resolve_interface k_resolve_member
      then answered (handle_proxy_change msg p)
      else if is_signal msg k_dbus_interface k_name_owner_changed
      then answered (handle_dbus_change m msg p)
      else if is_signal msg k_power_manager_interface k_suspend_done
      then answered (handle_suspend_done m msg p)
      else if is_error msg k_error_service_unknown
      then ok (Verdict.handled, give_up lib p)
      else if is_return msg
      then ok (method_return msg p)
      else ok (Verdict.not_yet_handled, p)
