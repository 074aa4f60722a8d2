-- ===== src/Clock.antt =====
-- src/tlsdated.c, src/events/check_continuity.c and src/events/kickoff_time_sync.c: the pure parts
-- that judge times: sanity, the disk timestamp, clock jumps, jitter and the time at startup.
pub mod Startup
pub mod Jumps
use tlsdate.Base.{
  ℕ, ◌+◌, ◌*◌, ◌%◌, ◌^◌, ◌-◌, Bool, true, false, not, ◌&&◌, ◌||◌, Option, none, some, ltb, ◌==◌,
  if◌then◌else◌,
}
use tlsdate.Base.Int.{ℤ, pos, negsuc, nat_abs, neg, ◌+ℤ◌, ◌-ℤ◌, ltb_ℤ, is_zero}
use tlsdate.Types.{SyncType, Opts, Build, tlsdated_max_date, default_continuity_interval}

-- `is_sane_time`.
unfoldable pub is_sane_time : Build → ℤ → Bool
is_sane_time b (pos t) = ltb b.recent_compile_date t && ltb t tlsdated_max_date
is_sane_time b (negsuc t) = false

-- What `file_open` and `file_read` of the timestamp give: the number in the file, if all is well.
pub data DiskFile : Type 0 where
  not_opened : DiskFile
  not_read : DiskFile
  holds : ℤ → DiskFile

-- `load_disk_timestamp`: `none` where it returns -1.
unfoldable pub load_disk_timestamp : Build → DiskFile → Option ℤ
load_disk_timestamp b not_opened = none
load_disk_timestamp b not_read = none
load_disk_timestamp b (holds tmpt) = if not (is_sane_time b tmpt) then none else some tmpt

-- The seconds of CLOCK_REALTIME and CLOCK_MONOTONIC_RAW, `none` where `clock_gettime` fails.
pub record ClockSample : Type 0 where
  pub real : Option ℤ
  pub monotonic : Option ℤ

-- The results < 0, 0 and > 0 of `check_continuity`.
pub data Continuity : Type 0 where
  failed steady jumped : Continuity

-- The tests on `new_delta`, for the old delta.
unfoldable pub is_jump : ℤ → ℤ → Bool
is_jump new_delta delta =
    not (is_zero delta)
    && (ltb_ℤ new_delta (delta -ℤ default_continuity_interval)
        || ltb_ℤ (delta +ℤ default_continuity_interval) new_delta)

compare_delta : ℤ → ℤ → Continuity × ℤ
compare_delta new_delta delta = (if is_jump new_delta delta then jumped else steady, new_delta)

-- `check_continuity`: its result, and the delta that it leaves behind the pointer.
unfoldable pub check_continuity : ClockSample → ℤ → Continuity × ℤ
unfolding compare_delta
check_continuity c delta = elim c.real [
  | none ↦ (failed, delta)
  | some real ↦ elim c.monotonic [
    | none ↦ (failed, delta)
    | some monotonic ↦ compare_delta (real -ℤ monotonic) delta
  ]
]

-- `abs` on an int, where -2^31 has no absolute value and stays what it is.
unfoldable pub abs_int : ℤ → ℤ
abs_int n = if nat_abs n == 2 ^ 31 then negsuc (2 ^ 31 - 1) else pos (nat_abs n)

-- `%` on ints: the remainder has the sign of the dividend.
unfoldable pub rem_int : ℤ → ℤ → ℤ
rem_int (pos a) b = pos (a % nat_abs b)
rem_int (negsuc a) b = neg (pos ((a + 1) % nat_abs b))

-- `2 * jitter`.
abbrev double : ℤ → ℤ
double j = j +ℤ j

-- `add_jitter`, for the int `n` that RAND_bytes filled.
unfoldable pub add_jitter : ℤ → ℤ → ℤ → ℤ
add_jitter base jitter n =
    if is_zero jitter then base else base +ℤ rem_int (abs_int n) (double jitter) -ℤ jitter

-- The block of `main` that compares the system's time with the disk's.
prefer_disk : Build → ℤ → Option ℤ → SyncType × ℤ
prefer_disk b now none = (SyncType.rtc, now)
prefer_disk b now (some disk_time) =
    if not (is_sane_time b now) || ltb_ℤ now disk_time
    then (SyncType.disk, disk_time)
    else (SyncType.rtc, now)

-- `main` falls back on the build's date.
or_build : Build → SyncType × ℤ → SyncType × ℤ
or_build b (source, t) =
    if not (is_sane_time b t)
    then (SyncType.build, pos (b.recent_compile_date + 1))
    else (source, t)

-- `last_sync_type` and `last_time` as `main` sets them before the event loop starts.
unfoldable pub initial_time : Build → Opts → ℤ → DiskFile → SyncType × ℤ
unfolding prefer_disk or_build load_disk_timestamp
initial_time b o now file = or_build b (
    if o.should_load_disk
    then prefer_disk b now (load_disk_timestamp b file)
    else (SyncType.rtc, now))
