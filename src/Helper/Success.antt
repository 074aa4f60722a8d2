-- ===== src/Helper/Success.antt =====
-- src/tlsdate-helper.c: a run of `main` in which every call succeeds.
use tlsdate.Base.Int.{pos}
use tlsdate.Base.{
  ℕ, ◌+◌, ◌/◌, ◌%◌, ◌≤◌, ◌<◌, ◌≡◌, inl, inr, arith, refl, ltb, leb, Bool, true, false, ◌&&◌, [],
  ◌∷◌, some, ◌==◌,
}
use tlsdate.Bio.{next}
use tlsdate.Helper.Elapsed.{Took, micros, rt_time_ms-Took}
use tlsdate.Helper.Main.{
  Flags, Calls, Time, clock_set, max_reasonable_time, tls_rtt_unreasonable, to_ulong, rt_time_ms,
  warp, show_time, corrected, set_clock, helper_main,
}

-- Every call that main makes succeeds.
pub record Answered (c : Calls) (first last : Time) : Type 0 where
  pub mapped : c.mmap_ok ≡ true
  pub started : c.start ≡ some first
  pub forked : c.fork_ok ≡ true
  pub waited : c.wait_ok ≡ true
  pub child : c.child_ok ≡ true
  pub ended : c.end_time ≡ some last
  pub set : c.set_ok ≡ true

and_false : (b : Bool) → (b && false) ≡ false
and_false true = refl
and_false false = refl

-- The tests of main that the server's time passes.
abbrev Passes : ℕ → ℕ → ℕ → Type 0
Passes recent server rtt =
    (server == 0 ≡ false)
    × (leb rtt tls_rtt_unreasonable ≡ true)
    × (ltb (server + rtt / 2 / 1000) max_reasonable_time ≡ true)
    × (ltb recent (server + rtt / 2 / 1000) ≡ true)

passes :
    (recent server rtt : ℕ) (first last : Time)
    → Took first last rtt
    → micros last first ≤ micros first last + 30000000
    → recent < server
    → server + 15 < 1999991337
    → Passes recent server rtt
passes recent server rtt first last (lo, hi) quick late early =
    let short : rtt ≤ 30000 = elim lo [ inl z ↦ omega (arith, z) | inr m ↦ omega (arith, m) ] in
    (ground arith, ground arith, ground arith, ground arith)

sets :
    (recent : ℕ) (c : Calls) (flags : Flags) (first last : Time)
    → flags.setclock ≡ true
    → flags.timewarp ≡ false
    → flags.showtime ≡ false
    → flags.showtime_raw ≡ false
    → Answered c first last
    → Passes recent c.time_map (rt_time_ms first last)
    → helper_main recent c flags []
      ≡ next tt (clock_set (corrected c.time_map (rt_time_ms first last)) ∷ [])
unfolding helper_main warp show_time set_clock
sets recent c flags first last s w h r a (given, quick, early, late) =
    let behind = and_false (ltb (to_ulong first.sec) recent) in
    rw
      (
        helper_main, s, w, a.mapped, a.started, warp, behind, a.forked, a.waited, a.child, a.ended,
        given, quick, show_time, h, r, set_clock, early, late, a.set,
      )
      refl

-- Where the clock is to be set, nothing is to be shown, the clock is not to be warped, every call
-- succeeds, the two samples of the clock lie at most 30 seconds apart, and the server's time lies behind
-- the build and 15 seconds before the last reasonable time: main sets the clock, once, to the server's
-- time with half of the milliseconds between the samples, and does nothing else.
pub helper_main-sets :
    (recent : ℕ) (c : Calls) (flags : Flags) (first last : Time)
    → flags.setclock ≡ true
    → flags.timewarp ≡ false
    → flags.showtime ≡ false
    → flags.showtime_raw ≡ false
    → Answered c first last
    → micros last first ≤ micros first last + 30000000
    → recent < c.time_map
    → c.time_map + 15 < 1999991337
    → (rtt : ℕ) × Took first last rtt
      × (helper_main recent c flags []
          ≡ next tt (
              clock_set (record { sec = pos (c.time_map + rtt / 2 / 1000); nsec = rtt / 2 % 1000 })
              ∷ []))
helper_main-sets recent c flags first last s w h r a quick late early =
    let rtt = rt_time_ms first last in
    let took = rt_time_ms-Took first last in
    (
      rtt,
      took,
      sets recent c flags first last s w h r a
          (passes recent c.time_map rtt first last took quick late early),
    )
