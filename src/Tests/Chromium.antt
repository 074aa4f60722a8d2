-- ===== src/Tests/Chromium.antt =====
-- src/platform-cros.c on a bus of plain messages, and the theorems on it applied.
use tlsdate.Base.{
  ◌≡◌, ◌≢◌, ◌≤◌, ◌<◌, ◌+◌, ◌⊎◌, ◌↔◌, length, refl, true, false, [], ◌∷◌, none, some, arith, Bytes,
  codes, take, inl, inr,
}
use tlsdate.Cros.Blocked.Direct.{default_dynamic_is_direct}
use tlsdate.Cros.Blocked.{Silent, blocked}
use tlsdate.Cros.Bus.{Arg}
use tlsdate.Cros.Filter.{
  Verdict, dbus_filter, action_resolve_proxy, k_resolve_interface, k_resolve_member,
}
use tlsdate.Cros.Invariant.{Ready}
use tlsdate.Cros.Pac.Bounds.{get_valid_hostport-written}
use tlsdate.Cros.Pac.{get_valid_hostport, written}
use tlsdate.Cros.Resolver.{Resolved, resolves}
use tlsdate.Cros.Setup.{BusCalls, platform_init_cros}
use tlsdate.Cros.Start.{StartsReady, platform_init_cros-Ready}
use tlsdate.Cros.Steps.{here, next, message, never_crashes}
use tlsdate.Cros.{Platform, ok, crashes, ◌>>=◌, seen_opts}
use tlsdate.Daemon.Invariant.{Inv}
use tlsdate.Daemon.{State}
use tlsdate.Monitor.{command}
use tlsdate.Tests.Buses.{signalled, returned, failed, bus, Message}
use tlsdate.Tests.Samples.{Tables, tables, build, opts, google, example, idle, later}
use tlsdate.Types.{Source}

-- Seven bytes into a buffer of five.
get_valid_hostport-written_example :
    (written (get_valid_hostport (codes "a.b:443") 5) ≤ 5 + 2)
    × (((get_valid_hostport (codes "a.b:443") 5).0 ≡ false)
        ⊎ (((get_valid_hostport (codes "a.b:443") 5).1 ≡ take 6 (codes "a.b:443"))
            × ((written (get_valid_hostport (codes "a.b:443") 5) ≤ 5)
                ↔ (length (codes "a.b:443") < 5))))
get_valid_hostport-written_example = get_valid_hostport-written (codes "a.b:443") 5

-- The first source asks for its proxy.
abbrev asking : Source
asking = record google { proxy = some (codes "dynamic") }

abbrev waking : State Tables
waking = record idle { opts = record opts { sources = asking ∷ example ∷ [] } }

waking-Inv : Inv tables (asking ∷ example ∷ []) waking
waking-Inv = record {
  child = λ e. ground (arith, e);
  no_child = λ e. refl;
  tries_le = omega arith;
  backoff_ok = inl (omega arith);
  no_source = refl;
  sources_kept = refl;
  resolving_ok = inl refl;
}

abbrev takes_all : BusCalls
takes_all = record { accepts = λ rule. true; filter_added = true }

platform_init_cros-Ready_example :
    StartsReady tables asking (example ∷ []) takes_all (platform_init_cros tables takes_all waking)
platform_init_cros-Ready_example =
    platform_init_cros-Ready tables asking (example ∷ []) takes_all waking waking-Inv
      (refl, (refl, tt)) (inr (omega arith), (inr (omega arith), tt))

abbrev platform : Platform Tables
platform = record {
  daemon = waking;
  dynamic_proxy = [];
  default_dynamic = false;
  resolve_msg = some (codes "https://google.com:443") ∷ none ∷ [];
  resolve_network_proxy_serial = 0;
}

platform-Ready : Ready tables asking (example ∷ []) platform
platform-Ready = record {
  inv = waking-Inv;
  numbered = (refl, (refl, tt));
  messages = refl;
  safe = inl refl;
  quiet = inl refl;
}

abbrev url : Bytes
url = codes "https://google.com:443"

abbrev reply : Message
reply =
    signalled k_resolve_interface k_resolve_member
      (Arg.string url ∷ Arg.string (codes "PROXY a.b:443") ∷ [])

never_crashes_example :
    (dbus_filter tables bus later reply platform ≢ crashes)
    × (action_resolve_proxy tables (some 7) platform ≢ crashes)
never_crashes_example =
    never_crashes tables bus asking (example ∷ []) build platform platform later reply (some 7)
      platform-Ready here

resolves_example :
    (asked : Platform Tables) × (q : Platform Tables) × (action_resolve_proxy tables
        (some 7)
        platform
      ≡ ok asked)
    × ((dbus_filter tables bus later reply asked >>= λ r.
          dbus_filter tables bus later (returned 7) r.1)
        ≡ ok (Verdict.handled, q))
    × ((dbus_filter tables bus later (returned 7) asked >>= λ r.
          dbus_filter tables bus later reply r.1)
        ≡ ok (Verdict.handled, q))
    × Resolved tables bus asking (codes "PROXY a.b:443") q
resolves_example =
    resolves tables bus asking (example ∷ []) 7 url (codes "PROXY a.b:443") [] later later
      (returned 7) reply platform platform-Ready refl refl refl refl
      (record { is_method_return = refl; serial_ok = refl })
      (record { is_proxy_change = refl; args_ok = refl })

-- The bus answered the request 7 with an error of another name.
abbrev stuck : Platform Tables
stuck = record platform { resolve_network_proxy_serial = 7 }

refuse :
    dbus_filter tables bus later (failed (codes "AccessDenied")) stuck
    ≡ ok (Verdict.not_yet_handled, stuck)
unfolding dbus_filter
refuse = refl

blocked_example : action_resolve_proxy tables (some 8) stuck ≡ ok stuck
unfolding Silent
blocked_example =
    blocked tables bus 7 build stuck stuck (some 8) (λ e. absurd (omega (arith, e))) refl
      (next here (message later (failed (codes "AccessDenied")) Verdict.not_yet_handled refuse))
      (tt, λ e. elim e [ inl h ↦ cc | inr h ↦ cc ])

-- `-x dynamic`, and no source that asks.
abbrev by_default : Platform Tables
by_default = record platform {
  daemon = record idle { opts = record opts { sources = google ∷ example ∷ [] } };
  default_dynamic = true;
  resolve_msg = none ∷ none ∷ [];
}

by_default-Ready : Ready tables google (example ∷ []) by_default
by_default-Ready = record {
  inv = record {
    child = λ e. ground (arith, e);
    no_child = λ e. refl;
    tries_le = omega arith;
    backoff_ok = inl (omega arith);
    no_source = refl;
    sources_kept = refl;
    resolving_ok = inl refl;
  };
  numbered = (refl, (refl, tt));
  messages = refl;
  safe = inl refl;
  quiet = inl refl;
}

default_dynamic_is_direct_example :
    command (seen_opts by_default) example
    ≡ command (record (seen_opts by_default) { proxy = none }) (record example { proxy = none })
default_dynamic_is_direct_example =
    default_dynamic_is_direct tables bus google (example ∷ []) build by_default by_default example
      by_default-Ready (λ e. cc) refl here
