-- ===== src/Clock/Startup.antt =====
-- src/tlsdated.c, `main`: the time with which the daemon starts.
use tlsdate.Base.{◌+◌, ◌<◌, ◌≡◌, true, arith}
use tlsdate.Base.Int.{ℤ, ◌≤ℤ◌}
use tlsdate.Clock.{is_sane_time, DiskFile, holds, initial_time}
use tlsdate.Types.{Opts, Build, tlsdated_max_date}

-- Whatever the system clock and the disk hold, the daemon starts with a sane time, if the build
-- date leaves room for one.
pub initial_time_is_sane :
    (b : Build) (o : Opts) (now : ℤ) (file : DiskFile)
    → b.recent_compile_date + 1 < tlsdated_max_date
    → is_sane_time b (initial_time b o now file).1 ≡ true
unfolding initial_time is_sane_time
initial_time_is_sane b o now file h = ground arith

-- A sane timestamp on disk is a lower bound for the time at startup, if the disk is to be read.
pub initial_time-ge_disk :
    (b : Build) (o : Opts) (now disk_time : ℤ)
    → o.should_load_disk ≡ true
    → is_sane_time b disk_time ≡ true
    → disk_time ≤ℤ (initial_time b o now (holds disk_time)).1
unfolding initial_time is_sane_time
initial_time-ge_disk b o now disk_time h s = ground arith
