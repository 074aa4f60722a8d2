-- ===== src/Helper/Effects.antt =====
-- src/tlsdate-helper.c: what `main` does to the world, and when.
use tlsdate.Base.{
  ℕ, ◌+◌, ◌/◌, ◌%◌, ◌≤◌, ◌<◌, ◌≡◌, ◌⊎◌, inl, inr, refl, ltb, leb, leb→le, ltb→lt, Bool, true, false,
  not, ◌&&◌, [], ◌∷◌, ◌++◌, Option, none, some, if◌then◌else◌, All, All-append, arith, ◌==◌,
  Bool-cases, Option-cases,
}
use tlsdate.Base.Int.{pos}
use tlsdate.Bio.{Step, next, returned, fault, then_step}
use tlsdate.Helper.Measured.{Logged, Began, RoundTrip, both, neither, awake}
use tlsdate.Helper.Elapsed.{rt_time_ms-Took}
use tlsdate.Helper.Main.{
  Flags, Calls, Time, Effect, dropped, clock_set, wrote_raw, wrote_date, Log, emit, die_unless,
  valid_ids, drop_privs_to, get_time, max_reasonable_time, tls_rtt_unreasonable, to_ulong,
  rt_time_ms, warp, show_time, corrected, set_clock, helper_main,
}

module _ (recent : ℕ) (c : Calls) (flags : Flags) where
  -- What may be done, and when. The clock is set to the time of the build, where the warp is asked for
  -- and the clock is behind it; or to the server's time with half of the round trip added, its seconds
  -- as seconds and its milliseconds in the field of the nanoseconds, where that is asked for, the time
  -- lies strictly between the build and the last reasonable time, and the round trip, as the two samples
  -- of the clock show it, took at most 30 seconds. Privileges are dropped, to ids other than root's,
  -- where neither is asked for.
  abbrev pub IsDue : Effect → Type 0
  IsDue (dropped uid gid) =
      (flags.setclock ≡ false) × (flags.timewarp ≡ false) × (0 < uid) × (0 < gid)
  IsDue (clock_set t) =
      ((flags.timewarp ≡ true)
        × (t ≡ record { sec = pos recent; nsec = 0 })
        × (first : Time) × (c.start ≡ some first)
        × (to_ulong first.sec < recent))
      ⊎ ((flags.setclock ≡ true)
          × (rtt : ℕ) × RoundTrip recent c flags rtt
          × (t ≡ record { sec = pos (c.time_map + rtt / 2 / 1000); nsec = rtt / 2 % 1000 })
          × (rtt ≤ 30000)
          × (recent < c.time_map + rtt / 2 / 1000)
          × (c.time_map + rtt / 2 / 1000 < 1999991337))
  IsDue (wrote_raw t) = (flags.showtime_raw ≡ true) × (t ≡ c.time_map)
  IsDue (wrote_date t) = (flags.showtime ≡ true) × (t ≡ c.time_map)

  -- All that was done when the step ends is due.
  abbrev pub Due : {A : Type 0} → Step Log A → Type 0
  Due = Logged IsDue

  Due-then_step :
      {A B : Type 0} (m : Step Log A) (f : A → Log → Step Log B)
      → Due m
      → ((a : A) (log : Log) → m ≡ next a log → All IsDue log → Due (f a log))
      → Due (then_step m f)
  Due-then_step (next a log) f h k = k a log refl h
  Due-then_step (returned r log) f h k = h
  Due-then_step (fault why) f h k = h

  Due-emit : (e : Effect) (log : Log) → All IsDue log → IsDue e → Due (emit e log)
  Due-emit e log h k = All-append IsDue log (e ∷ []) h (k, tt)

  Due-die_unless : (b : Bool) (log : Log) → All IsDue log → Due (die_unless b log)
  Due-die_unless true log h = h
  Due-die_unless false log h = h

  -- What follows a test.
  Due-after :
      {B : Type 0} (b : Bool) (log : Log) (f : Log → Step Log B)
      → All IsDue log
      → (b ≡ true → Due (f log))
      → Due (then_step (die_unless b log) (λ u. f))
  Due-after true log f h k = k refl
  Due-after false log f h k = h

  Due-get_time : (t : Option Time) (log : Log) → All IsDue log → Due (get_time t log)
  Due-get_time none log h = h
  Due-get_time (some t) log h = h

  Due-if :
      {B : Type 0} (b : Bool) (x y : Log → Step Log B) (log : Log)
      → (b ≡ true → Due (x log))
      → (b ≡ false → Due (y log))
      → Due ((if b then x else y) log)
  Due-if true x y log h k = h refl
  Due-if false x y log h k = k refl

  valid_ids-pos :
      (passwd : Option (ℕ × ℕ)) (group : Option ℕ) (uid gid : ℕ)
      → valid_ids passwd group ≡ some (uid, gid)
      → (0 < uid) × (0 < gid)
  valid_ids-pos none group uid gid h = cc
  valid_ids-pos (some ids) none uid gid h = cc
  valid_ids-pos (some (u, g)) (some k) uid gid h = ground arith

  drop_privs_to-Due :
      (log : Log)
      → All IsDue log
      → flags.setclock ≡ false
      → flags.timewarp ≡ false
      → Due (drop_privs_to c.account log)
  unfolding drop_privs_to
  drop_privs_to-Due log h s w = elim (Bool-cases c.account.is_root) [
    | inr e ↦ rw (drop_privs_to, e) h
    | inl e ↦ elim (Option-cases (valid_ids c.account.passwd c.account.group)) [
      | inl f ↦ rw (drop_privs_to, e, f) h
      | inr ((uid, gid), f) ↦
          let ids = valid_ids-pos c.account.passwd c.account.group uid gid f in
          elim (Bool-cases c.account.changes) [
            | inl g ↦
                rw (drop_privs_to, e, f, g) (Due-emit (dropped uid gid) log h (s, w, ids.0, ids.1))
            | inr g ↦ rw (drop_privs_to, e, f, g) h
          ]
    ]
  ]

  warp-Due :
      (first : Time) (log : Log)
      → All IsDue log
      → c.start ≡ some first
      → Due (warp recent c flags first log)
  unfolding warp
  warp-Due first log h e =
      let late = ltb (to_ulong first.sec) recent in
      Due-if (late && flags.timewarp) _ _ log
        (λ k.
          let (behind, asked) = both late flags.timewarp k in
          Due-after c.warp_ok log _ h (λ ok.
            Due-get_time c.restart (log ++ clock_set (record { sec = pos recent; nsec = 0 }) ∷ [])
              (All-append IsDue log _ h (inl (asked, refl, first, e, ltb→lt _ _ behind), tt))))
        (λ k. h)

  show_time-Due : (log : Log) → All IsDue log → Due (show_time c flags log)
  unfolding show_time
  show_time-Due log h =
      Due-then_step _ _
        (Due-if flags.showtime_raw (emit (wrote_raw c.time_map)) (next tt) log
          (λ k. Due-emit (wrote_raw c.time_map) log h (k, refl)) (λ k. h))
        (λ a log2 e h2.
          Due-if flags.showtime _ _ log2
            (λ k.
              Due-after c.strftime_ok log2 _ h2
                (λ ok. Due-emit (wrote_date c.time_map) log2 h2 (k, refl)))
            (λ k. h2))

  set_clock-Due :
      (rtt : ℕ) (log : Log)
      → All IsDue log
      → RoundTrip recent c flags rtt
      → rtt ≤ tls_rtt_unreasonable
      → Due (set_clock recent c flags rtt log)
  unfolding set_clock
  set_clock-Due rtt log h trip small =
      let sec = c.time_map + rtt / 2 / 1000 in
      Due-if flags.setclock _ _ log
        (λ k. Due-after (ltb sec max_reasonable_time) log _ h (λ early.
          Due-after (ltb recent sec) log _ h (λ later. Due-after c.set_ok log _ h (λ ok.
            Due-emit (clock_set (corrected c.time_map rtt)) log h
              (inr (k, rtt, trip, refl, small, ltb→lt _ _ later, ltb→lt _ _ early))))))
        (λ k. h)

  got_time :
      (t : Option Time) (first : Time) (log log2 : Log)
      → get_time t log ≡ next first log2
      → t ≡ some first
  got_time none first log log2 h = cc
  got_time (some t) first log log2 h = cc

  restarted :
      (start : Time) (ok : Bool) (r : Option Time) (e : Effect) (log log2 : Log)
      → then_step (die_unless ok log) (λ u l. then_step (emit e l) (λ v m. get_time r m))
        ≡ next start log2
      → r ≡ some start
  restarted start false r e log log2 h = cc
  restarted start true r e log log2 h = got_time r start (log ++ e ∷ []) log2 h

  warp-Began :
      (first start : Time) (log log2 : Log)
      → c.start ≡ some first
      → warp recent c flags first log ≡ next start log2
      → Began recent c flags start
  unfolding warp
  warp-Began first start log log2 e h =
      let late = ltb (to_ulong first.sec) recent in
      elim (Bool-cases (late && flags.timewarp)) [
        | inl k ↦
            let (behind, asked) = both late flags.timewarp k in
            inr (
              asked,
              first,
              e,
              ltb→lt _ _ behind,
              restarted start c.warp_ok c.restart _ log log2 (rw (warp, k) at h),
            )
        | inr k ↦
            let kept : next first log ≡ next start log2 = rw (warp, k) at h in
            let same : first ≡ start = cc in
            inl (cc, awake (to_ulong start.sec) recent flags.timewarp (rw same at k))
      ]

  -- Main, behind what was done before.
  main-Due : (log : Log) → All IsDue log → Due (helper_main recent c flags log)
  unfolding helper_main
  main-Due log h =
      Due-then_step _ _
        (Due-if (not flags.setclock && not flags.timewarp) (drop_privs_to c.account) (next tt) log
          (λ k. let (s, w) = neither flags.setclock flags.timewarp k in drop_privs_to-Due log h s w)
          (λ k. h))
        (λ u l1 e1 h1. Due-after c.mmap_ok l1 _ h1 (λ k1.
          Due-then_step (get_time c.start l1) _ (Due-get_time c.start l1 h1) (λ first l2 e2 h2.
            Due-then_step (warp recent c flags first l2) _
              (warp-Due first l2 h2 (got_time c.start first l1 l2 e2))
              (λ start l3 e3 h3. Due-after c.fork_ok l3 _ h3 (λ k4.
                Due-after c.wait_ok l3 _ h3 (λ k5. Due-after c.child_ok l3 _ h3 (λ k6.
                  Due-then_step (get_time c.end_time l3) _ (Due-get_time c.end_time l3 h3)
                    (λ end_time l4 e4 h4. Due-after (not (c.time_map == 0)) l4 _ h4 (λ k8.
                      Due-after (leb (rt_time_ms start end_time) tls_rtt_unreasonable) l4 _ h4
                        (λ k9.
                          Due-then_step (show_time c flags l4) _ (show_time-Due l4 h4)
                            (λ v l5 e5 h5.
                              set_clock-Due (rt_time_ms start end_time) l5 h5
                                (
                                  start,
                                  end_time,
                                  warp-Began first start l2 l3 (got_time c.start first l1 l2 e2) e3,
                                  got_time c.end_time end_time l3 l4 e4,
                                  rt_time_ms-Took start end_time,
                                )
                                (leb→le _ _ k9))))))))))))

  -- Whatever the system calls answer: main sets the clock only by the warp, where it is asked for and the
  -- clock is behind the build, or, where that is asked for, to the server's time with half of the
  -- milliseconds between the two samples of the clock, the first taken again behind a warp: these are 30
  -- seconds at most, and that time lies strictly between the build and the last reasonable time. It drops
  -- its privileges, to ids other than root's, only where neither is asked for, and writes only the
  -- server's time, where that is asked for.
  pub helper_main-Due : Due (helper_main recent c flags [])
  helper_main-Due = main-Due [] tt
