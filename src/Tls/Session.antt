-- ===== src/Tls/Session.antt =====
-- src/tlsdate-helper.c: `main` with the child that talks to the server.
use tlsdate.Base.{
  ℕ, ◌+◌, ◌/◌, ◌%◌, ◌≤◌, ◌<◌, ◌≡◌, ◌⊎◌, inl, inr, sym, ◌∙◌, Bool, true, false, not, ◌&&◌, [], Bytes,
  arith, if◌then◌else◌,
}
use tlsdate.Base.Int.{pos}
use tlsdate.Bio.{Bio, IsBio, Step, next, returned, fault}
use tlsdate.Helper.Effects.{IsDue, helper_main-Due}
use tlsdate.Helper.Measured.{RoundTrip, Logged, Logged-map}
use tlsdate.Helper.Main.{
  Flags, Calls, Effect, clock_set, dropped, wrote_raw, wrote_date, Log, drop_privs_to, helper_main,
  Account,
}
use tlsdate.Tls.Dated.{Dated, http_date-Dated}
use tlsdate.Tls.Openssl.{Answers, run_ssl}
use tlsdate.Tls.Trust.{Passed, run_ssl-Passed, Yields}

-- What is in the map, set to 0 before the fork, when the child has ended.
abbrev pub map_after : {S : Type 0} → Step S ℕ → ℕ
map_after (next t s) = t
map_after (returned r s) = 0
map_after (fault why) = 0

-- Does the child end with `_exit (0)`?
abbrev pub exits_well : {S : Type 0} → Step S ℕ → Bool
exits_well (next t s) = true
exits_well (returned r s) = false
exits_well (fault why) = false

abbrev pub goes_on : Step Log (Unit {0}) → Bool
goes_on (next u log) = true
goes_on (returned r log) = false
goes_on (fault why) = false

zero_or : (n : ℕ) → (n ≡ 0) ⊎ (0 < n)
zero_or n = ground arith

positive :
    (server rtt : ℕ) {recent : ℕ}
    → rtt ≤ 30000
    → recent < server + rtt / 2 / 1000
    → 15 ≤ recent
    → 0 < server
positive server rtt h k r = omega arith

module _ {S : Type 0} (bio : Bio S) (recent : ℕ) (user_agent : Bytes) (a : Answers) where
  -- The child: it drops its privileges and calls `run_ssl`.
  unfoldable pub ssl_child : Account → Flags → S → Step S ℕ
  ssl_child account flags s =
      if goes_on (drop_privs_to account [])
      then run_ssl bio recent user_agent a flags s
      else returned (pos 1) s

  -- The child is root no more where `main` has dropped its privileges.
  abbrev pub account_left : Account → Flags → Account
  account_left account flags =
      if not flags.setclock && not flags.timewarp
      then record account { is_root = false }
      else account

  -- The answers that `main` gets then.
  abbrev pub with_child : Step S ℕ → Calls → Calls
  with_child m c = record c { child_ok = exits_well m; time_map = map_after m }

  -- `main` with its child.
  unfoldable pub helper_session : Calls → Flags → S → Step Log (Unit {0})
  unfolding ssl_child
  helper_session c flags s =
      helper_main recent (with_child (ssl_child (account_left c.account flags) flags s) c) flags []

  -- Where the time came from: the hello of the handshake, or the date line of the answer.
  abbrev pub Sent : Flags → ℕ → Type 0
  Sent flags server =
      ((flags.http ≡ false) × (server ≡ a.server_random)) ⊎ ((flags.http ≡ true) × Dated bio server)

  -- The clock is set to the time of the build, as the warp; or to a time that the server sent and for
  -- which `run_ssl` passed its checks, with half of the milliseconds, at most 30 seconds, that lie
  -- between the two samples of the clock, strictly between the build and the last reasonable time.
  abbrev pub FromServer : Calls → Flags → Effect → Type 0
  FromServer c flags (clock_set t) =
      ((flags.timewarp ≡ true) × (t ≡ record { sec = pos recent; nsec = 0 }))
      ⊎ ((flags.setclock ≡ true)
          × (server : ℕ) × (rtt : ℕ) × RoundTrip recent c flags rtt
          × (rtt ≤ 30000)
          × (t ≡ record { sec = pos (server + rtt / 2 / 1000); nsec = rtt / 2 % 1000 })
          × (recent < server + rtt / 2 / 1000)
          × (server + rtt / 2 / 1000 < 1999991337)
          × Sent flags server
          × Passed bio recent user_agent a flags server)
  FromServer c flags (dropped uid gid) = Unit
  FromServer c flags (wrote_raw t) =
      (t ≡ 0) ⊎ (Sent flags t × Passed bio recent user_agent a flags t)
  FromServer c flags (wrote_date t) = Unit

  child-Yields :
      (account : Account) (flags : Flags) (s : S)
      → Yields (Passed bio recent user_agent a flags) (ssl_child account flags s)
  unfolding ssl_child
  child-Yields account flags s =
      either (goes_on (drop_privs_to account [])) _ (run_ssl-Passed bio recent user_agent a flags s)
    where
      either :
          (b : Bool) (m : Step S ℕ)
          → Yields (Passed bio recent user_agent a flags) m
          → Yields (Passed bio recent user_agent a flags) (if b then m else returned (pos 1) s)
      either true m h = h
      either false m h = tt

  map_after-Passed :
      (flags : Flags) (m : Step S ℕ)
      → Yields (Passed bio recent user_agent a flags) m
      → 0 < map_after m
      → Passed bio recent user_agent a flags (map_after m)
  map_after-Passed flags (next t s) h p = h
  map_after-Passed flags (returned r s) h p = absurd (omega (arith, p))
  map_after-Passed flags (fault why) h p = absurd (omega (arith, p))

  module _ (laws : IsBio bio) where
    sent : (flags : Flags) (t : ℕ) → Passed bio recent user_agent a flags t → Sent flags t
    sent flags t (frozen, f, inl (plain, e), trust, safe) = inl (plain, e)
    sent flags t (frozen, f, inr (web, s, u, e), trust, safe) =
        inr (web, http_date-Dated bio laws recent user_agent flags.host a s u t e)

    due_from :
        (c : Calls) (flags : Flags) (m : Step S ℕ)
        → 15 ≤ recent
        → Yields (Passed bio recent user_agent a flags) m
        → (e : Effect) → IsDue recent (with_child m c) flags e
        → FromServer c flags e
    due_from c flags m r y (dropped uid gid) h = tt
    due_from c flags m r y (wrote_date t) h = tt
    due_from c flags m r y (wrote_raw t) h = elim (zero_or (map_after m)) [
      | inl z ↦ inl (h.1 ∙ z)
      | inr p ↦
          let passed = map_after-Passed flags m y p in
          inr (rw (sym (h.1)) at (sent flags (map_after m) passed), rw (sym (h.1)) at passed)
    ]
    due_from c flags m r y (clock_set t) (inl h) = inl (h.0, h.1)
    due_from c flags m r y (clock_set t) (inr (s, rtt, trip, e, small, lo, hi)) =
        let server = map_after m in
        let passed = map_after-Passed flags m y (positive server rtt small lo r) in
        inr (s, server, rtt, trip, small, e, lo, hi, sent flags server passed, passed)

    -- Whatever the library and the system answer, and whatever the server sends: the clock is only ever
    -- set by the warp, to the time of the build, or, where that is asked for, to a time that the hello of
    -- the server had, or with HTTP the date line of the answer, and for which `run_ssl` passed its
    -- checks, with half of the milliseconds between the two samples of the clock: these are 30 seconds
    -- at most, and the time lies strictly between the build and the last reasonable time. The raw time
    -- written is 0 or such a time of the server. The time of the build is 15 or later, and the BIO keeps
    -- the laws of OpenSSL's.
    pub helper_session-FromServer :
        (c : Calls) (flags : Flags) (s : S)
        → 15 ≤ recent
        → Logged (FromServer c flags) (helper_session c flags s)
    unfolding helper_session
    helper_session-FromServer c flags s r =
        let account = account_left c.account flags in
        let m = ssl_child account flags s in
        Logged-map (IsDue recent (with_child m c) flags) (FromServer c flags)
          (helper_main recent (with_child m c) flags [])
          (due_from c flags m r (child-Yields account flags s))
          (helper_main-Due recent (with_child m c) flags)
