-- ===== src/Setter/Status.antt =====
-- src/tlsdate-setter.c: what the setter reports.
use mathlib.Core.List.{append_assoc}
use tlsdate.Base.{
  ap, ◌∙◌, suc, ◌≡◌, ◌≢◌, true, false, if◌then◌else◌, List, [], ◌∷◌, ◌++◌, All, arith,
}
use tlsdate.Base.Int.{ℤ, pos, negsuc, nat_abs}
use tlsdate.Clock.{is_sane_time}
use tlsdate.Setter.{
  Action, settimeofday, rtc_write, save_timestamp, notify, Read, message, Answers, Setter, Outcome,
  looping, exited, setter_step, setter_loop, Setup, setter_start, time_setter_coprocess,
}
use tlsdate.Setter.Safety.{log_of, All-concat}
use tlsdate.Types.{Opts, Build, setter_exit, setter_bad_time, setter_time_set}

-- What a round does for a sane time where every call succeeds.
abbrev pub effects : Opts → Setter → ℤ → List Action
effects o s (pos t) =
    settimeofday (pos t)
    ∷ ((if o.should_sync_hwclock then rtc_write (pos t) ∷ [] else [])
        ++ (if s.save_fd then save_timestamp (pos t) ∷ [] else []))
effects o s (negsuc t) =
    settimeofday (pos (suc t))
    ∷ (if o.should_sync_hwclock then rtc_write (pos (suc t)) ∷ [] else [])

abbrev pub all_succeed : Answers
all_succeed = record { sets_time = true; writes_rtc = true; writes_disk = true }

-- For a message whose absolute value is a sane time, outside a dry run and where every call
-- succeeds, the setter sets the system clock to it, then the hardware clock if that is asked for,
-- then the timestamp if it is open and the message is positive; it reports success and goes on.
pub setter_step_sets :
    (b : Build) (o : Opts) (s : Setter) (m : ℤ)
    → is_sane_time b (pos (nat_abs m)) ≡ true
    → o.dry_run ≡ false
    → setter_step b o all_succeed (message m) s
      ≡ looping (record s {
        status = pos setter_time_set;
        log = s.log ++ (effects o s m ++ (notify (pos setter_time_set) ∷ []));
      })
unfolding setter_step is_sane_time
setter_step_sets b o s (pos t) h d = grind (arith, append_assoc)
setter_step_sets b o s (negsuc t) h d = grind (arith, append_assoc)

regroup :
    (xs ys : List Action) (x y : Action)
    → (xs ++ (ys ++ x ∷ [])) ++ y ∷ [] ≡ xs ++ (ys ++ (x ∷ y ∷ []))
regroup xs ys x y = simp append_assoc

-- The same round followed by the shutdown message, 0.
pub setter_shuts_down :
    (b : Build) (o : Opts) (a : Answers) (s : Setter) (m : ℤ)
    → is_sane_time b (pos (nat_abs m)) ≡ true
    → o.dry_run ≡ false
    → setter_loop b o ((all_succeed, message m) ∷ (a, message (pos 0)) ∷ []) (looping s)
      ≡ exited (record s {
        status = pos setter_exit;
        log =
            s.log
            ++ (effects o s m ++ (notify (pos setter_time_set) ∷ notify (pos setter_exit) ∷ []));
      })
unfolding setter_loop setter_step
setter_shuts_down b o a s m h d =
    ap (setter_loop b o ((a, message (pos 0)) ∷ [])) (setter_step_sets b o s m h d)
    ∙ ap (λ l. exited (record s { status = pos setter_exit; log = l }))
        (regroup s.log (effects o s m) (notify (pos setter_time_set)) (notify (pos setter_exit)))

-- A message that is not 0 and whose absolute value is not a sane time changes nothing: no clock and
-- no file is touched. But `status` is not assigned on this path either, so the setter reports what
-- it reported before, whatever the calls would answer.
pub setter_step_insane :
    (b : Build) (o : Opts) (a : Answers) (s : Setter) (m : ℤ)
    → is_sane_time b (pos (nat_abs m)) ≡ false
    → m ≢ pos 0
    → setter_step b o a (message m) s ≡ looping (record s { log = s.log ++ notify s.status ∷ [] })
unfolding setter_step is_sane_time
setter_step_insane b o a s (pos t) h z = ground arith
setter_step_insane b o a s (negsuc t) h z = ground arith

abbrev pub NotBad : Action → Type 0
NotBad (notify n) = n ≢ pos setter_bad_time
NotBad _ = Unit

-- SETTER_BAD_TIME is neither the status nor in the log.
record IsHonest (s : Setter) : Type 0 where
  status_ok : s.status ≢ pos setter_bad_time
  log_ok : All NotBad s.log

abbrev state_of : Outcome → Setter
state_of (looping s) = s
state_of (exited s) = s

setter_step-IsHonest :
    (b : Build) (o : Opts) (a : Answers) (r : Read) (s : Setter)
    → IsHonest s
    → IsHonest (state_of (setter_step b o a r s))
unfolding setter_step
setter_step-IsHonest b o a (message (pos t)) s h = grind (arith, All-concat)
setter_step-IsHonest b o a (message (negsuc t)) s h = grind (arith, All-concat)
setter_step-IsHonest b o a _ s h = grind (arith, All-concat)

setter_loop-IsHonest :
    (b : Build) (o : Opts) (rounds : List (Answers × Read)) (c : Outcome)
    → IsHonest (state_of c)
    → IsHonest (state_of (setter_loop b o rounds c))
unfolding setter_loop
setter_loop-IsHonest b o [] (exited s) h = h
setter_loop-IsHonest b o (_ ∷ _) (exited s) h = h
setter_loop-IsHonest b o [] (looping s) h = h
setter_loop-IsHonest b o ((a, r) ∷ rounds) (looping s) h =
    setter_loop-IsHonest b o rounds (setter_step b o a r s) (setter_step-IsHonest b o a r s h)

setter_start-IsHonest :
    (o : Opts) (u : Setup) (garbage : ℤ)
    → garbage ≢ pos setter_bad_time
    → IsHonest (state_of (setter_start o u garbage))
unfolding setter_start
setter_start-IsHonest o u garbage h = grind arith

-- Whatever the process reads, it never reports SETTER_BAD_TIME, unless that is what the
-- uninitialised `status` happens to hold at the start: the one assignment of it is overwritten or
-- left by a jump on every path.
pub never_bad_time :
    (b : Build) (o : Opts) (u : Setup) (garbage : ℤ) (rounds : List (Answers × Read))
    → garbage ≢ pos setter_bad_time
    → All NotBad (log_of (time_setter_coprocess b o u garbage rounds))
unfolding time_setter_coprocess
never_bad_time b o u garbage rounds h =
    log_NotBad (setter_loop b o rounds (setter_start o u garbage))
      (setter_loop-IsHonest b o rounds _ (setter_start-IsHonest o u garbage h))
  where
    log_NotBad : (c : Outcome) → IsHonest (state_of c) → All NotBad (log_of c)
    log_NotBad (looping s) k = k.log_ok
    log_NotBad (exited s) k = k.log_ok
