-- ===== src/Cros/Setup.antt =====
-- src/platform-cros.c: `add_match`, `new_resolver_message` and `platform_init_cros`. Memory is taken
-- to suffice.
use tlsdate.Base.{
  ℕ, zero, suc, Bool, false, not, ◌&&◌, List, [], ◌∷◌, ◌++◌, Option, none, some, leb, if◌then◌else◌,
  length, Bytes, codes, str_eq,
}
use tlsdate.Base.Int.{ℤ, pos}
use tlsdate.Cros.Filter.{
  k_dbus_interface, k_service_interface, k_manager_interface, k_resolve_interface,
  k_power_manager_interface, k_member, k_resolve_member, k_name_owner_changed, k_suspend_done,
  k_lib_cros_dest,
}
use tlsdate.Cros.{Platform, Ran, ok, exits, ◌>>=◌, max_proxy_url, time_url}
use tlsdate.Daemon.Events.{EventLib}
use tlsdate.Daemon.Startup.{with_event}
use tlsdate.Daemon.{State}
use tlsdate.Types.{EventId, Source}

-- What the bus answers: does it take a rule, and is the filter added?
pub record BusCalls : Type 0 where
  pub accepts : Bytes → Bool
  pub filter_added : Bool

-- kMatchFormat and kMatchNoArgFormat.
abbrev pub match_rule : Bytes → Bytes → Option Bytes → Bytes
match_rule interface member none =
    codes "interface='" ++ (interface ++ (codes "',member='" ++ (member ++ codes "'")))
match_rule interface member (some arg0) =
    codes "interface='"
    ++ (interface ++ (codes "',member='" ++ (member ++ (codes "',arg0='" ++ (arg0 ++ codes "'")))))

-- `add_match`, which returns 0 or 1: does it return 0?
unfoldable pub add_match : BusCalls → Bytes → Bytes → Option Bytes → Bool
add_match c interface member arg0 =
    let rule = match_rule interface member arg0 in
    if leb 1024 (length rule) then false else c.accepts rule

-- The five calls of `add_match`: do all return 0?
unfoldable pub add_watches : BusCalls → Bool
unfolding add_match
add_watches c =
    add_match c k_service_interface k_member (some (codes "ProxyConfig"))
    && add_match c k_manager_interface k_member (some (codes "DefaultService"))
    && add_match c k_resolve_interface k_resolve_member none
    && add_match c k_dbus_interface k_name_owner_changed (some k_lib_cros_dest)
    && add_match c k_power_manager_interface k_suspend_done none

-- The string is "dynamic", and not NULL.
abbrev pub is_dynamic : Option Bytes → Bool
is_dynamic none = false
is_dynamic (some proxy) = str_eq proxy (codes "dynamic")

-- `new_resolver_message`: the URL in the message, or none for NULL.
unfoldable pub new_resolver_message : Source → Ran (Option Bytes)
new_resolver_message src =
    if not (is_dynamic src.proxy)
    then ok none
    else if leb max_proxy_url (length (time_url src))
    then exits (pos 1)
    else ok (some (time_url src))

abbrev pub set_at {ℓ} : {A : Type ℓ} → ℕ → A → List A → List A
set_at n a [] = []
set_at zero a (x ∷ xs) = a ∷ xs
set_at (suc n) a (x ∷ xs) = x ∷ set_at n a xs

-- The array that `calloc` gives.
abbrev pub nulls : ℕ → List (Option Bytes)
nulls zero = []
nulls (suc n) = none ∷ nulls n

-- The loop over the sources that fills the array.
unfoldable pub prepare : ℕ → List Source → List (Option Bytes) → Ran (List (Option Bytes))
unfolding new_resolver_message
prepare count [] msgs = ok msgs
prepare count (src ∷ rest) msgs =
    if leb count src.id
    then exits (pos 1)
    else (new_resolver_message src >>= λ msg. prepare count rest (set_at src.id msg msgs))

-- The result of `platform_init_cros`; where a watch is refused, the state is left as it is.
pub data Init (B : Type 0) : Type 0 where
  refused : ℤ → Init B
  set_up : ℤ → Platform B → Init B

module _ (lib : EventLib) where
  open lib use {Base}

  -- `platform_init_cros`.
  unfoldable pub platform_init_cros : BusCalls → State Base → Ran (Init Base)
  unfolding add_watches prepare
  platform_init_cros c s =
      let sources = s.opts.sources in
      let count = length sources in
      if not (add_watches c)
      then ok (refused (pos 1))
      else (prepare count sources (nulls count) >>= λ msgs. ok (
          set_up (if c.filter_added then pos 0 else pos 1) (record {
            daemon = with_event lib s EventId.resolver;
            dynamic_proxy = [];
            default_dynamic = is_dynamic s.opts.proxy;
            resolve_msg = msgs;
            resolve_network_proxy_serial = 0;
          })))
