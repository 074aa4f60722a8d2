-- ===== src/Cros/Start.antt =====
-- src/platform-cros.c, `platform_init_cros`: the state that it leaves.
use tlsdate.Base.{
  ℕ, suc, ◌+◌, ◌<◌, ◌≡◌, refl, ap, true, false, List, [], ◌∷◌, ◌++◌, map, Option, none, leb, length,
  arith, Bytes, Bool-cases, ◌⊎◌, inl, inr, All,
}
use tlsdate.Base.Int.{pos}
use tlsdate.Cros.Invariant.{Ready, message_of}
use tlsdate.Cros.Setup.{
  BusCalls, add_watches, is_dynamic, new_resolver_message, set_at, nulls, prepare, Init, refused,
  set_up, platform_init_cros,
}
use tlsdate.Cros.{Ran, ok, exits, crashes, max_proxy_url, time_url}
use tlsdate.Daemon.Events.{EventLib}
use tlsdate.Daemon.Invariant.{Inv}
use tlsdate.Daemon.Startup.{with_event}
use tlsdate.Daemon.{State}
use tlsdate.Options.Numbering.{Numbered}
use tlsdate.Types.{EventId, Source}

-- The URL of a source that asks for its proxy fits in the buffer.
abbrev pub IsShort : Source → Type 0
IsShort src = (is_dynamic src.proxy ≡ false) ⊎ (length (time_url src) < max_proxy_url)

too_long : (a b : ℕ) → leb a b ≡ true → b < a → ⊥
too_long a b h k = ground arith

below : (n r count i : ℕ) → count ≡ n + suc r → i ≡ n → leb count i ≡ false
below n r count i h k = ground arith

new_resolver_message_lem :
    (src : Source) → IsShort src → new_resolver_message src ≡ ok (message_of src)
unfolding new_resolver_message
new_resolver_message_lem src (inl e) = rw e refl
new_resolver_message_lem src (inr h) = elim (Bool-cases (is_dynamic src.proxy)) [
  | inr e ↦ rw e refl
  | inl e ↦ elim (Bool-cases (leb max_proxy_url (length (time_url src)))) [
    | inl f ↦ absurd (too_long _ _ f h)
    | inr f ↦ rw (e, f) refl
  ]
]

append_one : {A : Type 0} (xs : List A) (x : A) (ys : List A) → (xs ++ x ∷ []) ++ ys ≡ xs ++ x ∷ ys
append_one [] x ys = refl
append_one (y ∷ xs) x ys = ap (◌∷◌ y) (append_one xs x ys)

length_one : {A : Type 0} (xs : List A) (x : A) → length (xs ++ x ∷ []) ≡ suc (length xs)
length_one [] x = refl
length_one (y ∷ xs) x = ap suc (length_one xs x)

set_at_end :
    {A : Type 0} (xs : List A) (x y : A) (ys : List A)
    → set_at (length xs) x (xs ++ y ∷ ys) ≡ (xs ++ x ∷ []) ++ ys
set_at_end [] x y ys = refl
set_at_end (z ∷ xs) x y ys = ap (◌∷◌ z) (set_at_end xs x y ys)

prepare_fills :
    (count : ℕ) (done : List (Option Bytes)) (rest : List Source)
    → Numbered (length done) rest
    → All IsShort rest
    → count ≡ length done + length rest
    → prepare count rest (done ++ nulls (length rest)) ≡ ok (done ++ map message_of rest)
unfolding prepare
prepare_fills count done [] n h c = refl
prepare_fills count done (src ∷ rest) n h c =
    let inside : leb count src.id ≡ false = below (length done) (length rest) count src.id c n.0 in
    let ih =
      prepare_fills count (done ++ message_of src ∷ []) rest
        (rw (length_one done (message_of src)) n.1) h.1
        (omega (arith, c, length_one done (message_of src))) in
    rw
      (
        inside,
        new_resolver_message_lem src h.0,
        n.0,
        set_at_end done (message_of src) none (nulls (length rest)),
        ih,
      )
      (ap ok (append_one done (message_of src) (map message_of rest)))

module _ (lib : EventLib) (first : Source) (rest : List Source) where
  open lib use {Base}

  -- The platform is set up with the invariant, or a watch is refused.
  abbrev pub StartsReady : BusCalls → Ran (Init Base) → Type 0
  StartsReady c (ok (refused r)) = (add_watches c ≡ false) × (r ≡ pos 1)
  StartsReady c (ok (set_up r p)) = (add_watches c ≡ true) × Ready lib first rest p
  StartsReady c (exits n) = ⊥
  StartsReady c crashes = ⊥

  with_event-Inv :
      (s : State Base) (e : EventId)
      → Inv lib (first ∷ rest) s
      → Inv lib (first ∷ rest) (with_event lib s e)
  with_event-Inv s e v = ground arith

  -- With numbered sources, and a URL that fits for each source that asks for its proxy,
  -- `platform_init_cros` never exits: it keeps the invariant of the event loop and gives each
  -- source its message, or it returns 1 since a watch is refused.
  pub platform_init_cros-Ready :
      (c : BusCalls) (s : State Base)
      → Inv lib (first ∷ rest) s
      → Numbered 0 (first ∷ rest)
      → All IsShort (first ∷ rest)
      → StartsReady c (platform_init_cros lib c s)
  unfolding platform_init_cros
  platform_init_cros-Ready c s v n h = elim (Bool-cases (add_watches c)) [
    | inr e ↦ simp (e) (refl, refl)
    | inl e ↦
        let filled = prepare_fills (length (first ∷ rest)) [] (first ∷ rest) n h (omega arith) in
        simp (v.sources_kept, e, filled)
          (
            refl,
            record {
              inv = with_event-Inv s EventId.resolver v;
              numbered = n;
              messages = refl;
              safe = inl refl;
              quiet = inl refl;
            },
          )
  ]
