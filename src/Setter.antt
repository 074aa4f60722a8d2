-- ===== src/Setter.antt =====
-- src/tlsdate-setter.c: the privileged process that sets the clock. What it reads from the pipe and
-- what the system calls answer are its input; the log of what it did is its output.
pub mod Safety
pub mod Status
use tlsdate.Base.{ℕ, Bool, true, false, not, ◌&&◌, List, [], ◌∷◌, ◌++◌, if◌then◌else◌}
use tlsdate.Base.Int.{ℤ, pos, negsuc, neg, is_zero}
use tlsdate.Clock.{is_sane_time}
use tlsdate.Types.{
  Opts, Build, setter_exit, setter_bad_time, setter_no_save, setter_read_err, setter_time_set,
  setter_set_err, setter_no_sbox, setter_no_rtc,
}

-- What the process does to the world. Only calls that succeed are logged.
pub data Action : Type 0 where
  settimeofday : ℤ → Action
  rtc_write : ℤ → Action
  save_timestamp : ℤ → Action
  notify : ℤ → Action
  unlink_timestamp : Action

-- What `read (time_fd, ...)` gives: EINTR, another error, 0 bytes, some other number of bytes than
-- those of a time_t, or a time_t.
pub data Read : Type 0 where
  interrupted failed end_of_pipe short : Read
  message : ℤ → Read

-- Which of the calls of one round succeed, should they be made.
pub record Answers : Type 0 where
  pub sets_time : Bool
  pub writes_rtc : Bool
  pub writes_disk : Bool

-- A local variable is a field: `status` starts with whatever the stack holds.
pub record Setter : Type 0 where
  pub status : ℤ
  pub save_fd : Bool
  pub log : List Action

-- The loop goes on, or `_exit (status)` was called.
pub data Outcome : Type 0 where
  looping : Setter → Outcome
  exited : Setter → Outcome

abbrev pub act : Setter → Action → Setter
act s a = record s { log = s.log ++ a ∷ [] }

-- `goto notify_and_die` with the given status.
abbrev pub notify_and_die : Setter → ℕ → Outcome
notify_and_die s status =
    exited (record s { status = pos status; log = s.log ++ notify (pos status) ∷ [] })

-- The end of the loop's body: report `status`, whatever it is.
abbrev pub report : Setter → Outcome
report s = looping (act s (notify s.status))

-- `status = SETTER_TIME_SET`, and the report of it.
abbrev time_set : Setter → Outcome
time_set s = report (record s { status = pos setter_time_set })

save_time : Answers → Bool → ℤ → Setter → Outcome
save_time a save t s =
    if save && s.save_fd
    then (if a.writes_disk
        then time_set (act s (save_timestamp t))
        else notify_and_die s setter_no_save)
    else time_set s

sync_rtc : Opts → Answers → Bool → ℤ → Setter → Outcome
sync_rtc o a save t s =
    if o.should_sync_hwclock
    then (if a.writes_rtc
        then save_time a save t (act s (rtc_write t))
        else notify_and_die s setter_no_rtc)
    else save_time a save t s

-- The branch of a sane time.
set_time : Opts → Answers → Bool → ℤ → Setter → Outcome
set_time o a save t s =
    if o.dry_run
    then time_set s
    else if a.sets_time
    then sync_rtc o a save t (act s (settimeofday t))
    else notify_and_die s setter_set_err

-- From `tv.tv_sec == 0` on.
handle_time : Build → Opts → Answers → Bool → ℤ → Setter → Outcome
handle_time b o a save t s =
    if is_zero t
    then notify_and_die s setter_exit
    else if is_sane_time b t
    then set_time o a save t (record s { status = pos setter_bad_time })
    else report s

-- One round of the loop. A negative time is not to be written to disk.
unfoldable pub setter_step : Build → Opts → Answers → Read → Setter → Outcome
unfolding save_time sync_rtc set_time handle_time
setter_step b o a interrupted s = looping s
setter_step b o a failed s = notify_and_die s setter_read_err
setter_step b o a end_of_pipe s = notify_and_die s setter_read_err
setter_step b o a short s = looping s
setter_step b o a (message (pos t)) s = handle_time b o a true (pos t) s
setter_step b o a (message (negsuc t)) s = handle_time b o a false (neg (negsuc t)) s

-- The loop over what is read; at the end of the list the process waits in `read`.
unfoldable pub setter_loop : Build → Opts → List (Answers × Read) → Outcome → Outcome
setter_loop b o rounds (exited s) = exited s
setter_loop b o [] (looping s) = looping s
setter_loop b o ((a, r) ∷ rounds) (looping s) = setter_loop b o rounds (setter_step b o a r s)

-- What the calls before the loop answer: `open` of the timestamp, and `enable_setter_seccomp`.
pub record Setup : Type 0 where
  pub opens_save : Bool
  pub enters_sandbox : Bool

-- From the start of `time_setter_coprocess` to its loop.
enter_sandbox : Setup → Setter → Outcome
enter_sandbox u s = if u.enters_sandbox then looping s else notify_and_die s setter_no_sbox

unfoldable pub setter_start : Opts → Setup → ℤ → Outcome
unfolding enter_sandbox
setter_start o u garbage =
    let s : Setter = record { status = garbage; save_fd = false; log = [] } in
    if o.should_save_disk && not o.dry_run
    then (if u.opens_save
        then enter_sandbox u (record s { save_fd = true })
        else notify_and_die (act s unlink_timestamp) setter_no_save)
    else enter_sandbox u s

-- `time_setter_coprocess`.
unfoldable pub time_setter_coprocess : Build → Opts → Setup → ℤ → List (Answers × Read) → Outcome
time_setter_coprocess b o u garbage rounds = setter_loop b o rounds (setter_start o u garbage)
