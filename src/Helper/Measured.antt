-- ===== src/Helper/Measured.antt =====
-- src/tlsdate-helper.c: what is done to the world in a run, and the samples of the clock around it.
use tlsdate.Base.{
  ℕ, ◌≤◌, ◌<◌, ◌≡◌, ◌⊎◌, inl, refl, ltb, Bool, true, false, not, ◌&&◌, [], ◌∷◌, some, All, arith,
}
use tlsdate.Bio.{Step, next, returned, fault}
use tlsdate.Helper.Elapsed.{Took}
use tlsdate.Helper.Main.{Flags, Calls, Time, Effect, Log, to_ulong}

pub both : (a b : Bool) → (a && b) ≡ true → (a ≡ true) × (b ≡ true)
both true b h = (refl, h)
both false b h = cc

pub neither : (a b : Bool) → (not a && not b) ≡ true → (a ≡ false) × (b ≡ false)
neither true b h = cc
neither false true h = cc
neither false false h = (refl, refl)

pub awake : (n recent : ℕ) (b : Bool) → (ltb n recent && b) ≡ false → (b ≡ false) ⊎ (recent ≤ n)
awake n recent true h = ground arith
awake n recent false h = inl refl

-- All that was done when the step ends is as `P` says.
abbrev pub Logged : {A : Type 0} → (Effect → Type 0) → Step Log A → Type 0
Logged P (next a log) = All P log
Logged P (returned r log) = All P log
Logged P (fault why) = Unit

All-map : (P Q : Effect → Type 0) (log : Log) → ((e : Effect) → P e → Q e) → All P log → All Q log
All-map P Q [] f h = h
All-map P Q (e ∷ log) f h = (f e h.0, All-map P Q log f h.1)

pub Logged-map :
    {A : Type 0} (P Q : Effect → Type 0) (m : Step Log A)
    → ((e : Effect) → P e → Q e)
    → Logged P m
    → Logged Q m
Logged-map P Q (next a log) f h = All-map P Q log f h
Logged-map P Q (returned r log) f h = All-map P Q log f h
Logged-map P Q (fault why) f h = h

module _ (recent : ℕ) (c : Calls) (flags : Flags) where
  -- The sample before the handshake: the first one, where the clock was not warped, or the one taken
  -- behind the warp.
  abbrev pub Began : Time → Type 0
  Began start =
      ((c.start ≡ some start) × ((flags.timewarp ≡ false) ⊎ (recent ≤ to_ulong start.sec)))
      ⊎ ((flags.timewarp ≡ true)
          × (first : Time) × (c.start ≡ some first)
          × (to_ulong first.sec < recent)
          × (c.restart ≡ some start))

  -- The two samples of the clock, around the handshake, lie `rtt` milliseconds apart.
  abbrev pub RoundTrip : ℕ → Type 0
  RoundTrip rtt =
      (start : Time) × (last : Time) × Began start × (c.end_time ≡ some last) × Took start last rtt
