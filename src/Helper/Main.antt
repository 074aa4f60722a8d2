-- ===== src/Helper/Main.antt =====
-- src/tlsdate-helper.c: `main`, and `drop_privs_to` of src/util.c. The process that talks to the server is
-- the child of a fork, and what it leaves in the shared map is an input, as are the answers of the
-- system calls. The log has what the process did to the world.
use tlsdate.Base.{
  ℕ, suc, ◌+◌, ◌-◌, ◌/◌, ◌%◌, ◌^◌, ltb, leb, ◌==◌, Bool, true, false, not, ◌&&◌, ◌||◌, List, [],
  ◌∷◌, ◌++◌, Option, none, some, if◌then◌else◌, Bytes, codes, str_eq,
}
use tlsdate.Base.Int.{ℤ, pos, negsuc, pos_part, neg, sub_ℕ, ◌+ℤ◌, ◌-ℤ◌}
use tlsdate.Bio.{Step, next, returned, ◌>>=◌, ◌>>◌}
use tlsdate.Helper.Calendar.{times}

-- The variables that the arguments set.
pub record Flags : Type 0 where
  pub host : Bytes
  pub port : Bytes
  pub protocol : Bytes
  pub ca_cert_container : Bytes
  pub ca_racket : Bool
  pub verbose : Bool
  pub verbose_debug : Bool
  pub setclock : Bool
  pub showtime : Bool
  pub showtime_raw : Bool
  pub timewarp : Bool
  pub leap : Bool
  pub proxy : Option Bytes
  pub http : Bool

-- The arguments of main, with the program's name; `none` where there are not 13.
unfoldable pub read_args : List Bytes → Option Flags
read_args (name ∷ a ∷ b ∷ c ∷ d ∷ e ∷ f ∷ g ∷ h ∷ i ∷ j ∷ k ∷ l ∷ []) = some (record {
  host = a;
  port = b;
  protocol = c;
  ca_cert_container = f;
  ca_racket = not (str_eq (codes "unchecked") d);
  verbose = not (str_eq (codes "quiet") e);
  verbose_debug = not (str_eq (codes "verbose") e);
  setclock = str_eq (codes "setclock") g;
  showtime = str_eq (codes "showtime") h;
  showtime_raw = str_eq (codes "showtime=raw") h;
  timewarp = str_eq (codes "timewarp") i;
  leap = str_eq (codes "leapaway") j;
  proxy = if str_eq (codes "none") k then none else some k;
  http = str_eq (codes "http") l;
})
read_args _ = none

-- `struct tlsdate_time`.
pub record Time : Type 0 where
  pub sec : ℤ
  pub nsec : ℕ

pub data Effect : Type 0 where
  dropped : ℕ → ℕ → Effect
  clock_set : Time → Effect
  wrote_raw : ℕ → Effect
  wrote_date : ℕ → Effect

abbrev pub Log : Type 0
Log = List Effect

abbrev pub emit : Effect → Log → Step Log (Unit {0})
emit e log = next tt (log ++ e ∷ [])

-- `die`, and `return 1`.
abbrev pub die_unless : Bool → Log → Step Log (Unit {0})
die_unless true log = next tt log
die_unless false log = returned (pos 1) log

-- What `drop_privs_to` gets: whether the process is root; the user's ids, the group's, where they
-- exist; whether the calls that change them succeed.
pub record Account : Type 0 where
  pub is_root : Bool
  pub passwd : Option (ℕ × ℕ)
  pub group : Option ℕ
  pub changes : Bool

-- `drop_privs_to`, up to the change of the ids.
abbrev pub valid_ids : Option (ℕ × ℕ) → Option ℕ → Option (ℕ × ℕ)
valid_ids none group = none
valid_ids (some ids) none = none
valid_ids (some (uid, gid)) (some group) =
    if uid == 0 || gid == 0 || group == 0 || not (gid == group) then none else some (uid, gid)

unfoldable pub drop_privs_to : Account → Log → Step Log (Unit {0})
drop_privs_to a log = elim a.is_root [
  | false ↦ next tt log
  | true ↦ elim (valid_ids a.passwd a.group) [
    | none ↦ returned (pos 1) log
    | some (uid, gid) ↦ elim a.changes [
      | true ↦ emit (dropped uid gid) log
      | false ↦ returned (pos 1) log
    ]
  ]
]

-- The answers of the system calls: `time_map` is what the child left there, in the host's byte order.
pub record Calls : Type 0 where
  pub account : Account
  pub mmap_ok : Bool
  pub start : Option Time
  pub warp_ok : Bool
  pub restart : Option Time
  pub fork_ok : Bool
  pub wait_ok : Bool
  pub child_ok : Bool
  pub end_time : Option Time
  pub time_map : ℕ
  pub strftime_ok : Bool
  pub set_ok : Bool

abbrev pub get_time : Option Time → Log → Step Log Time
get_time none log = returned (pos 1) log
get_time (some t) log = next t log

-- `RECENT_COMPILE_DATE` is the build's; `MAX_REASONABLE_TIME`, `TLS_RTT_UNREASONABLE`.
abbrev pub max_reasonable_time : ℕ
max_reasonable_time = 1999991337

abbrev pub tls_rtt_unreasonable : ℕ
tls_rtt_unreasonable = 30000

-- A `long` made an `unsigned long`.
abbrev pub to_ulong : ℤ → ℕ
to_ulong (pos n) = n % 2 ^ 64
to_ulong (negsuc n) = 2 ^ 64 - 1 - n % 2 ^ 64

-- Division of integers, which rounds towards 0.
abbrev pub div_int : ℤ → ℕ → ℤ
div_int (pos n) k = pos (n / k)
div_int (negsuc n) k = neg (pos (suc n / k))

-- `rt_time_ms`.
unfoldable pub rt_time_ms : Time → Time → ℕ
rt_time_ms start end_time = pos_part (
    times 1000 (end_time.sec -ℤ start.sec)
    +ℤ div_int (sub_ℕ (end_time.nsec / 1000) (start.nsec / 1000)) 1000)

-- The warp of a clock that is behind the build; the start time, taken again if it was warped.
unfoldable pub warp : ℕ → Calls → Flags → Time → Log → Step Log Time
warp recent c flags start =
    if ltb (to_ulong start.sec) recent && flags.timewarp
    then (do
      die_unless c.warp_ok
      emit (clock_set (record { sec = pos recent; nsec = 0 }))
      get_time c.restart)
    else next start

unfoldable pub show_time : Calls → Flags → Log → Step Log (Unit {0})
show_time c flags = do
  (if flags.showtime_raw then emit (wrote_raw c.time_map) else next tt)
  (if flags.showtime then (do die_unless c.strftime_ok; emit (wrote_date c.time_map)) else next tt)

-- `server_time`, from the server's time and the milliseconds of the round trip.
abbrev pub corrected : ℕ → ℕ → Time
corrected server rtt = record { sec = pos (server + rtt / 2 / 1000); nsec = rtt / 2 % 1000 }

unfoldable pub set_clock : ℕ → Calls → Flags → ℕ → Log → Step Log (Unit {0})
set_clock recent c flags rtt =
    if flags.setclock
    then (do
      die_unless (ltb (c.time_map + rtt / 2 / 1000) max_reasonable_time)
      die_unless (ltb recent (c.time_map + rtt / 2 / 1000))
      die_unless c.set_ok
      emit (clock_set (corrected c.time_map rtt)))
    else next tt

-- `main`, behind the arguments; it goes on to `return 0`.
unfoldable pub helper_main : ℕ → Calls → Flags → Log → Step Log (Unit {0})
helper_main recent c flags = do
  (if not flags.setclock && not flags.timewarp then drop_privs_to c.account else next tt)
  die_unless c.mmap_ok
  first ← get_time c.start
  start ← warp recent c flags first
  die_unless c.fork_ok
  die_unless c.wait_ok
  die_unless c.child_ok
  end_time ← get_time c.end_time
  die_unless (not (c.time_map == 0))
  die_unless (leb (rt_time_ms start end_time) tls_rtt_unreasonable)
  show_time c flags
  set_clock recent c flags (rt_time_ms start end_time)
