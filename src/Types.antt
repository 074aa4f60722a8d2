-- ===== src/Types.antt =====
-- The enumerations and structs of src/tlsdate.h that several parts share, and what the build fixes.
use Prim.Native.Nat.{ℕ}
use mathlib.Core.Bool.{Bool}
use mathlib.Core.List.{List}
use mathlib.Core.Option.{Option}
use tlsdate.Base.{Bytes, codes}
use tlsdate.Base.Int.{ℤ}

-- SYNC_TYPE_*: where the daemon's time came from.
pub data SyncType : Type 0 where
  none build disk rtc platform net : SyncType

-- `sync_type_str`; the other values of the int have no constructor here.
pub sync_type_str : SyncType → Bytes
sync_type_str SyncType.none = codes "none"
sync_type_str SyncType.build = codes "build-timestamp"
sync_type_str SyncType.disk = codes "disk-timestamp"
sync_type_str SyncType.rtc = codes "system-clock"
sync_type_str SyncType.platform = codes "platform-feature"
sync_type_str SyncType.net = codes "network"

-- `state->last_sync_type == SYNC_TYPE_NET`, and the same of SYNC_TYPE_RTC.
abbrev pub is_net : SyncType → Bool
is_net SyncType.net = Bool.true
is_net _ = Bool.false

abbrev pub is_rtc : SyncType → Bool
is_rtc SyncType.rtc = Bool.true
is_rtc _ = Bool.false

-- `enum event_id_t`, less E_MAX; `tlsdate_run` is E_TLSDATE.
pub data EventId : Type 0 where
  resolver tlsdate_run tlsdate_status tlsdate_timeout save sigchld sigterm steadystate routeup :
      EventId

-- The numbers of the events.
abbrev pub event_index : EventId → ℕ
event_index EventId.resolver = 0
event_index EventId.tlsdate_run = 1
event_index EventId.tlsdate_status = 2
event_index EventId.tlsdate_timeout = 3
event_index EventId.save = 4
event_index EventId.sigchld = 5
event_index EventId.sigterm = 6
event_index EventId.steadystate = 7
event_index EventId.routeup = 8

-- `struct source`; the `next` pointer is the list's.
pub record Source : Type 0 where
  pub host : Bytes
  pub port : Bytes
  pub proxy : Option Bytes
  pub id : ℕ

-- `struct opts` and the globals `verbose` and `verbose_debug`. `cur_source` points at a node of
-- `sources`: it is the list from that node on, empty for NULL. `argv` is never read and left out.
pub record Opts : Type 0 where
  pub user : Bytes
  pub group : Bytes
  pub max_tries : ℤ
  pub min_steady_state_interval : ℤ
  pub wait_between_tries : ℤ
  pub subprocess_tries : ℤ
  pub subprocess_wait_between_tries : ℤ
  pub steady_state_interval : ℤ
  pub continuity_interval : ℤ
  pub base_path : Bytes
  pub base_argv : List Bytes
  pub should_sync_hwclock : Bool
  pub should_load_disk : Bool
  pub should_save_disk : Bool
  pub should_netlink : Bool
  pub dry_run : Bool
  pub jitter : ℤ
  pub conf_file : Option Bytes
  pub sources : List Source
  pub cur_source : List Source
  pub proxy : Option Bytes
  pub leap : Bool
  pub should_dbus : Bool
  pub verbose : Bool
  pub verbose_debug : Bool

-- What config.h and src/configmake.h fix when the program is built.
pub record Build : Type 0 where
  pub recent_compile_date : ℕ
  pub unpriv_user : Bytes
  pub unpriv_group : Bytes
  pub tlsdate_path : Bytes
  pub default_conf_file : Bytes

-- The numbers of src/tlsdate.h.
abbrev pub default_max_tries : ℤ
default_max_tries = ℤ.pos 10

abbrev pub default_wait_between_tries : ℤ
default_wait_between_tries = ℤ.pos 10

abbrev pub resolver_timeout : ℕ
resolver_timeout = 30

abbrev pub default_steady_state_interval : ℤ
default_steady_state_interval = ℤ.pos 86400

abbrev pub default_continuity_interval : ℤ
default_continuity_interval = ℤ.pos 14400

abbrev pub max_sane_backoff : ℕ
max_sane_backoff = 600

abbrev pub tlsdated_max_date : ℕ
tlsdated_max_date = 1999991337

-- SETTER_*: what the time setter reports.
abbrev pub setter_exit : ℕ
setter_exit = 0

abbrev pub setter_bad_time : ℕ
setter_bad_time = 1

abbrev pub setter_no_save : ℕ
setter_no_save = 2

abbrev pub setter_read_err : ℕ
setter_read_err = 3

abbrev pub setter_time_set : ℕ
setter_time_set = 4

abbrev pub setter_set_err : ℕ
setter_set_err = 5

abbrev pub setter_no_sbox : ℕ
setter_no_sbox = 6

abbrev pub setter_no_rtc : ℕ
setter_no_rtc = 7
