-- ===== src/Tlsdate/Command.antt =====
-- src/tlsdate.c and src/tlsdate-helper.c: what a command line of the front end makes the helper do.
use tlsdate.Base.{
  ℕ, ◌≡◌, ◌⊎◌, inl, inr, refl, sym, true, false, List, [], Option, none, some, Option-cases, Bytes,
  arith,
}
use tlsdate.Helper.Effects.{IsDue, helper_main-Due}
use tlsdate.Helper.Measured.{Logged, Logged-map}
use tlsdate.Helper.Main.{
  Flags, read_args, Calls, helper_main, Effect, dropped, clock_set, wrote_raw, wrote_date,
}
use tlsdate.Tlsdate.Handover.{
  any_c, intended, read_args-helper_args, take_options-setclock, take_options-timewarp,
  take_options-showtime,
}
use tlsdate.Tlsdate.{Settings, Opt, defaults, take_options, helper_args}

-- The clock stays as it is.
abbrev pub IsHarmless : Effect → Type 0
IsHarmless (dropped uid gid) = Unit
IsHarmless (clock_set t) = ⊥
IsHarmless (wrote_raw t) = Unit
IsHarmless (wrote_date t) = Unit

-- One of the four words that name the server is a null pointer.
abbrev pub IsNull4 : Option Bytes → Option Bytes → Option Bytes → Option Bytes → Type 0
IsNull4 h p q r = (h ≡ none) ⊎ ((p ≡ none) ⊎ ((q ≡ none) ⊎ (r ≡ none)))

-- The words are there, or one is not.
words_cases :
    (h p q r : Option Bytes)
    → IsNull4 h p q r
      ⊎ ((a : Bytes) × (b : Bytes) × (c : Bytes) × (d : Bytes) × (h ≡ some a)
          × (p ≡ some b)
          × (q ≡ some c)
          × (r ≡ some d))
words_cases none p q r = inl (inl refl)
words_cases (some a) none q r = inl (inr (inl refl))
words_cases (some a) (some b) none r = inl (inr (inr (inl refl)))
words_cases (some a) (some b) (some c) none = inl (inr (inr (inr refl)))
words_cases (some a) (some b) (some c) (some d) = inr (a, b, c, d, refl, refl, refl, refl)

due-IsHarmless :
    (recent : ℕ) (c : Calls) (flags : Flags)
    → flags.setclock ≡ false
    → flags.timewarp ≡ false
    → (e : Effect) → IsDue recent c flags e
    → IsHarmless e
due-IsHarmless recent c flags s w (dropped uid gid) d = tt
due-IsHarmless recent c flags s w (clock_set t) (inl d) = absurd (ground arith)
due-IsHarmless recent c flags s w (clock_set t) (inr d) = absurd (ground arith)
due-IsHarmless recent c flags s w (wrote_raw t) d = tt
due-IsHarmless recent c flags s w (wrote_date t) d = tt

last_null :
    (p q r : Option Bytes) (b c : Bytes)
    → p ≡ some b
    → q ≡ some c
    → (p ≡ none) ⊎ ((q ≡ none) ⊎ (r ≡ none))
    → r ≡ none
last_null p q r b c hp hq (inl n) = absurd cc
last_null p q r b c hp hq (inr (inl n)) = absurd cc
last_null p q r b c hp hq (inr (inr n)) = n

not_both : (flags : Flags) (m : Option Flags) → m ≡ none → m ≡ some flags → ⊥
not_both flags m h k = cc

harmless :
    (recent : ℕ) (c : Calls) (read flags : Flags) {m : Option Flags}
    → m ≡ some read
    → m ≡ some flags
    → read.setclock ≡ false
    → read.timewarp ≡ false
    → Logged IsHarmless (helper_main recent c flags [])
harmless recent c read flags h k s w =
    let same : read ≡ flags = cc in
    let no_clock : flags.setclock ≡ false = rw (sym same) s in
    let no_warp : flags.timewarp ≡ false = rw (sym same) w in
    Logged-map (IsDue recent c flags) IsHarmless (helper_main recent c flags [])
      (due-IsHarmless recent c flags no_clock no_warp) (helper_main-Due recent c flags)

-- An option that takes an argument but got none leaves a null pointer among the arguments of execlp, which
-- ends them there: the helper finds fewer than 13 and returns at once.
pub null_ends_arguments :
    (s : Settings)
    → IsNull4 s.host s.port s.protocol s.ca_cert_container
    → read_args (helper_args s) ≡ none
unfolding read_args helper_args
null_ends_arguments s (inl h) = rw (helper_args, h) refl
null_ends_arguments s (inr n) = elim (Option-cases s.host) [
  | inl h ↦ rw (helper_args, h) refl
  | inr (a, h) ↦ elim (Option-cases s.port) [
    | inl p ↦ rw (helper_args, h, p) refl
    | inr (b, p) ↦ elim (Option-cases s.protocol) [
      | inl q ↦ rw (helper_args, h, p, q) refl
      | inr (c, q) ↦
          rw (helper_args, h, p, q, last_null s.port s.protocol s.ca_cert_container b c p q n) refl
    ]
  ]
]

-- The clock stays as it is, whatever the system calls answer, for a command line with -n and without -t,
-- whichever flags the helper reads from it.
pub dont_set_clock-IsHarmless :
    (recent : ℕ) (c : Calls) (certs : Bytes) (options : List Opt) (s : Settings) (flags : Flags)
    → take_options (defaults certs) options ≡ some s
    → any_c b'n' options ≡ true
    → any_c b't' options ≡ false
    → read_args (helper_args s) ≡ some flags
    → Logged IsHarmless (helper_main recent c flags [])
dont_set_clock-IsHarmless recent c certs options s flags h n t r =
    elim (words_cases s.host s.port s.protocol s.ca_cert_container) [
      | inl null ↦ absurd (not_both flags _ (null_ends_arguments s null) r)
      | inr (a, b, p, d, ha, hb, hp, hd) ↦
          let show = take_options-showtime (defaults certs) s options h (omega arith) in
          let read = read_args-helper_args s a b p d ha hb hp hd show in
          let clock = take_options-setclock (defaults certs) s options h in
          let warp = take_options-timewarp (defaults certs) s options h in
          harmless recent c (intended s a b p d) flags (read) r (rw (n) at clock) (rw (t) at warp)
    ]
