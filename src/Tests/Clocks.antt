-- ===== src/Tests/Clocks.antt =====
-- The time setter and the judgement of times on concrete data.
use tlsdate.Base.{◌≡◌, refl, true, List, [], ◌∷◌, All}
use tlsdate.Base.Int.{pos, negsuc}
use tlsdate.Clock.{is_sane_time, holds, initial_time}
use tlsdate.Setter.Safety.{Guarded, MayHoldFile, holds_file, log_of, time_setter_coprocess-Guarded}
use tlsdate.Setter.Status.{all_succeed}
use tlsdate.Setter.{
  Answers, Read, end_of_pipe, message, notify, settimeofday, rtc_write, save_timestamp, Setter,
  setter_step, setter_loop, setter_start, Setup, time_setter_coprocess,
}
use tlsdate.Tests.Samples.{build, opts}
use tlsdate.Types.{SyncType}

abbrev rounds : List (Answers × Read)
rounds =
    (all_succeed, message (pos 1400000000))
    ∷ (all_succeed, message (negsuc 1400000000))
    ∷ (all_succeed, message (pos 5))
    ∷ (all_succeed, end_of_pipe)
    ∷ []

abbrev setup : Setup
setup = record { opens_save = true; enters_sandbox = true }

abbrev waiting : Setter
waiting = record { status = pos 0; save_fd = true; log = [] }

-- A run sets the clocks twice and the disk once, and ends with SETTER_READ_ERR.
log_of-rounds :
    log_of (time_setter_coprocess build opts setup (pos 0) rounds)
    ≡ settimeofday (pos 1400000000)
      ∷ rtc_write (pos 1400000000)
      ∷ save_timestamp (pos 1400000000)
      ∷ notify (pos 4)
      ∷ settimeofday (pos 1400000001)
      ∷ rtc_write (pos 1400000001)
      ∷ notify (pos 4)
      ∷ notify (pos 4)
      ∷ notify (pos 3)
      ∷ []
unfolding time_setter_coprocess setter_loop setter_start setter_step is_sane_time
log_of-rounds = refl

time_setter_coprocess-Guarded_example :
    All (Guarded build opts) (log_of (time_setter_coprocess build opts setup (pos 0) rounds))
    × MayHoldFile opts (holds_file (time_setter_coprocess build opts setup (pos 0) rounds))
time_setter_coprocess-Guarded_example =
    time_setter_coprocess-Guarded build opts setup (pos 0) rounds

abbrev unsaved : List (Answers × Read)
unsaved = (all_succeed, message (negsuc 1400000000)) ∷ []

-- With neither a clock nor a disk the build's date is taken.
initial_time_from_build :
    initial_time build opts (pos 0) (holds (pos 5)) ≡ (SyncType.build, pos 1342323667)
unfolding initial_time is_sane_time
initial_time_from_build = refl
