-- ===== src/Setter/Safety.antt =====
-- src/tlsdate-setter.c: what the setter may do to the clocks and to the disk.
use tlsdate.Base.{
  ◌≡◌, ◌∙◌, refl, ◌⊎◌, inl, inr, Bool, not, ◌&&◌, Bool-cases, true, false, List, [], ◌∷◌, ◌++◌, All,
  All-append, arith,
}
use tlsdate.Base.Int.{ℤ, pos, negsuc, ◌≤ℤ◌}
use tlsdate.Clock.{is_sane_time}
use tlsdate.Setter.{
  Action, settimeofday, rtc_write, save_timestamp, notify, unlink_timestamp, Read, interrupted,
  failed, end_of_pipe, short, message, Answers, Setter, Outcome, looping, exited, setter_step,
  setter_loop, Setup, setter_start, time_setter_coprocess,
}
use tlsdate.Types.{Opts, Build}

abbrev pub log_of : Outcome → List Action
log_of (looping s) = s.log
log_of (exited s) = s.log

-- The process may set the clocks, and save a time, only to a sane one, and not at all in a dry run; and
-- it may unlink the timestamp where the options ask for it to be saved, but not in a dry run.
abbrev pub Guarded : Build → Opts → Action → Type 0
Guarded b o (settimeofday t) = (is_sane_time b t ≡ true) × (o.dry_run ≡ false)
Guarded b o (rtc_write t) =
    (is_sane_time b t ≡ true) × (o.dry_run ≡ false) × (o.should_sync_hwclock ≡ true)
Guarded b o (save_timestamp t) = (is_sane_time b t ≡ true) × (o.dry_run ≡ false)
Guarded b o (notify n) = Unit
Guarded b o unlink_timestamp = (o.should_save_disk ≡ true) × (o.dry_run ≡ false)

-- What one round may do that read `r`: it saves only the very time that it read.
abbrev pub Allowed : Build → Opts → Read → Action → Type 0
Allowed b o r (save_timestamp t) = Guarded b o (save_timestamp t) × (r ≡ message t)
Allowed b o r unlink_timestamp = ⊥
Allowed b o r x = Guarded b o x

save_asked : (save dry : Bool) → (save && not dry) ≡ true → (save ≡ true) × (dry ≡ false)
save_asked save dry h = ground arith

module _ (P : Action → Type 0) where
  pub All-concat : (xs : List Action) (x : Action) → All P xs → P x → All P (xs ++ x ∷ [])
  All-concat xs x h p = All-append P xs (x ∷ []) h (p, tt)

  -- A property of actions that holds of all that a round may do passes to the new log.
  pub setter_step-All :
      (b : Build) (o : Opts) (a : Answers) (r : Read) (s : Setter)
      → ((x : Action) → Allowed b o r x → P x)
      → All P s.log
      → All P (log_of (setter_step b o a r s))
  unfolding setter_step
  setter_step-All b o a interrupted s f h = h
  setter_step-All b o a failed s f h = All-concat _ _ h (f (notify _) tt)
  setter_step-All b o a end_of_pipe s f h = All-concat _ _ h (f (notify _) tt)
  setter_step-All b o a short s f h = h
  setter_step-All b o a (message (pos t)) s f h = grind (arith, All-concat)
  setter_step-All b o a (message (negsuc t)) s f h = grind (arith, All-concat)

  -- The rounds of a run may each do only what satisfies the property.
  abbrev pub RoundsAllow : Build → Opts → List (Answers × Read) → Type 0
  RoundsAllow b o = All (λ q. (x : Action) → Allowed b o q.1 x → P x)

  pub setter_loop-All :
      (b : Build) (o : Opts) (rounds : List (Answers × Read)) (c : Outcome)
      → RoundsAllow b o rounds
      → All P (log_of c)
      → All P (log_of (setter_loop b o rounds c))
  unfolding setter_loop
  setter_loop-All b o [] (exited s) f h = h
  setter_loop-All b o (_ ∷ _) (exited s) f h = h
  setter_loop-All b o [] (looping s) f h = h
  setter_loop-All b o ((a, r) ∷ rounds) (looping s) f h =
      setter_loop-All b o rounds (setter_step b o a r s) f.1 (setter_step-All b o a r s f.0 h)

  pub setter_start-All :
      (o : Opts) (u : Setup) (garbage : ℤ)
      → ((n : ℤ) → P (notify n))
      → (o.should_save_disk ≡ true → o.dry_run ≡ false → P unlink_timestamp)
      → All P (log_of (setter_start o u garbage))
  unfolding setter_start
  setter_start-All o u garbage n k = elim (Bool-cases (o.should_save_disk && not o.dry_run)) [
    | inl e ↦
        let (asked, wet) = save_asked o.should_save_disk o.dry_run e in
        let unlinks = k asked wet in grind arith
    | inr e ↦ grind arith
  ]

Allowed-Guarded : (b : Build) (o : Opts) (r : Read) (x : Action) → Allowed b o r x → Guarded b o x
Allowed-Guarded b o r (settimeofday t) h = h
Allowed-Guarded b o r (rtc_write t) h = h
Allowed-Guarded b o r (save_timestamp t) h = h.0
Allowed-Guarded b o r (notify n) h = h
Allowed-Guarded b o r unlink_timestamp h = absurd h

RoundsAllow-Guarded :
    (b : Build) (o : Opts) (rounds : List (Answers × Read)) → RoundsAllow (Guarded b o) b o rounds
RoundsAllow-Guarded b o [] = tt
RoundsAllow-Guarded b o (q ∷ rounds) = (Allowed-Guarded b o q.1, RoundsAllow-Guarded b o rounds)

-- The process does not have the timestamp file open, or may.
abbrev pub MayHoldFile : Opts → Bool → Type 0
MayHoldFile o save_fd = (save_fd ≡ false) ⊎ ((o.should_save_disk ≡ true) × (o.dry_run ≡ false))

abbrev pub holds_file : Outcome → Bool
holds_file (looping s) = s.save_fd
holds_file (exited s) = s.save_fd

setter_step-holds_file :
    (b : Build) (o : Opts) (a : Answers) (r : Read) (s : Setter)
    → holds_file (setter_step b o a r s) ≡ s.save_fd
unfolding setter_step
setter_step-holds_file b o a interrupted s = refl
setter_step-holds_file b o a failed s = refl
setter_step-holds_file b o a end_of_pipe s = refl
setter_step-holds_file b o a short s = refl
setter_step-holds_file b o a (message (pos t)) s = ground arith
setter_step-holds_file b o a (message (negsuc t)) s = ground arith

setter_loop-holds_file :
    (b : Build) (o : Opts) (rounds : List (Answers × Read)) (c : Outcome)
    → holds_file (setter_loop b o rounds c) ≡ holds_file c
unfolding setter_loop
setter_loop-holds_file b o [] (exited s) = refl
setter_loop-holds_file b o (_ ∷ _) (exited s) = refl
setter_loop-holds_file b o [] (looping s) = refl
setter_loop-holds_file b o ((a, r) ∷ rounds) (looping s) =
    setter_loop-holds_file b o rounds (setter_step b o a r s) ∙ setter_step-holds_file b o a r s

setter_start-MayHoldFile :
    (o : Opts) (u : Setup) (garbage : ℤ) → MayHoldFile o (holds_file (setter_start o u garbage))
unfolding setter_start
setter_start-MayHoldFile o u garbage = elim (Bool-cases (o.should_save_disk && not o.dry_run)) [
  | inl e ↦ inr (save_asked o.should_save_disk o.dry_run e)
  | inr e ↦ inl (ground arith)
]

-- Whatever the process reads and whatever the system calls answer, it sets the system clock, the
-- hardware clock and the saved timestamp only to sane times; in a dry run, or where the options do not
-- ask for it, it neither opens nor unlinks the timestamp file; in a dry run it sets nothing; and it
-- writes the hardware clock only if the options ask for that.
pub time_setter_coprocess-Guarded :
    (b : Build) (o : Opts) (u : Setup) (garbage : ℤ) (rounds : List (Answers × Read))
    → All (Guarded b o) (log_of (time_setter_coprocess b o u garbage rounds))
      × MayHoldFile o (holds_file (time_setter_coprocess b o u garbage rounds))
unfolding time_setter_coprocess
time_setter_coprocess-Guarded b o u garbage rounds = (
  setter_loop-All (Guarded b o) b o rounds _ (RoundsAllow-Guarded b o rounds)
      (setter_start-All (Guarded b o) o u garbage (λ n. tt) (λ asked wet. (asked, wet))),
  rw (setter_loop-holds_file b o rounds (setter_start o u garbage))
      (setter_start-MayHoldFile o u garbage),
)

-- A message that asks for no save: anything but a positive time.
abbrev pub AsksNoSave : Read → Type 0
AsksNoSave (message m) = m ≤ℤ pos 0
AsksNoSave _ = Unit

abbrev pub NoSave : Action → Type 0
NoSave (save_timestamp t) = ⊥
NoSave _ = Unit

Allowed-NoSave :
    (b : Build) (o : Opts) (r : Read) → AsksNoSave r → (x : Action) → Allowed b o r x → NoSave x
unfolding is_sane_time
Allowed-NoSave b o r k (settimeofday t) h = tt
Allowed-NoSave b o r k (rtc_write t) h = tt
Allowed-NoSave b o r k (notify n) h = tt
Allowed-NoSave b o r k unlink_timestamp h = tt
Allowed-NoSave b o (message (pos m)) k (save_timestamp t) h = ground arith
Allowed-NoSave b o (message (negsuc m)) k (save_timestamp t) h = ground arith
Allowed-NoSave b o interrupted k (save_timestamp t) h = cc
Allowed-NoSave b o failed k (save_timestamp t) h = cc
Allowed-NoSave b o end_of_pipe k (save_timestamp t) h = cc
Allowed-NoSave b o short k (save_timestamp t) h = cc

RoundsAllow-NoSave :
    (b : Build) (o : Opts) (rounds : List (Answers × Read))
    → All (λ q. AsksNoSave q.1) rounds
    → RoundsAllow NoSave b o rounds
RoundsAllow-NoSave b o [] h = tt
RoundsAllow-NoSave b o (q ∷ rounds) h =
    (Allowed-NoSave b o q.1 h.0, RoundsAllow-NoSave b o rounds h.1)

-- A run that reads no positive time never writes the timestamp file.
pub time_setter_coprocess-NoSave :
    (b : Build) (o : Opts) (u : Setup) (garbage : ℤ) (rounds : List (Answers × Read))
    → All (λ q. AsksNoSave q.1) rounds
    → All NoSave (log_of (time_setter_coprocess b o u garbage rounds))
unfolding time_setter_coprocess
time_setter_coprocess-NoSave b o u garbage rounds h =
    setter_loop-All NoSave b o rounds _ (RoundsAllow-NoSave b o rounds h)
      (setter_start-All NoSave o u garbage (λ n. tt) (λ asked wet. tt))
