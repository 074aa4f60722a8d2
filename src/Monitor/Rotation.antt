-- ===== src/Monitor/Rotation.antt =====
-- src/tlsdate-monitor.c: calls of `build_argv` one after another on the same options.
use tlsdate.Base.{
  Bool, true, false, inl, inr, ap, sym, ◌∙◌, Bool-cases, ltb→lt, ltb, if◌then◌else◌, ℕ, zero, suc,
  ◌%◌, ◌<◌, ◌≤◌, ◌≡◌, refl, List, [], ◌∷◌, arith, length, get_elem?, drop-get_elem?,
  length-pos_of_get_elem?, drop, some,
}
use native.Mathlib.Nat.{suc-mod, mod-eq_of_lt, mod-lt, mod_self, zero-mod}
use tlsdate.Monitor.{next_source, build_argv, argv, command}
use tlsdate.Types.{Source, Opts}

-- The options after n calls.
pub calls : ℕ → Opts → Opts
calls zero o = o
calls (suc n) o = (build_argv (calls n o)).1

next_source-drop :
    (xs ys : List Source) (i : ℕ)
    → i < length ys
    → next_source xs (drop i ys) ≡ (if ltb (suc i) (length ys) then drop (suc i) ys else xs)
unfolding next_source
next_source-drop xs [] i h = elim h [ ]
next_source-drop xs (y ∷ []) zero h = ground arith
next_source-drop xs (y ∷ z ∷ ys) zero h = ground arith
next_source-drop xs (y ∷ ys) (suc i) h = ground (arith, next_source-drop xs ys i)

next_source-nil : (xs : List Source) → next_source xs [] ≡ xs
unfolding next_source
next_source-nil xs = refl

-- The index that follows in the round.
mod_next : (n k : ℕ) → 0 < k → suc n % k ≡ (if ltb (suc (n % k)) k then suc (n % k) else 0)
mod_next n k h = elim (Bool-cases (ltb (suc (n % k)) k)) [
  | inl inside ↦ rw inside (suc-mod n k ∙ mod-eq_of_lt (ltb→lt _ _ inside))
  | inr wraps ↦
      let full : suc (n % k) ≡ k = ground (arith, mod-lt n h) in
      rw wraps (suc-mod n k ∙ ap (λ m. m % k) full ∙ mod_self k)
]

drop-if :
    (b : Bool) (i : ℕ) (xs : List Source)
    → (if b then drop (suc i) xs else xs) ≡ drop (if b then suc i else 0) xs
drop-if true i xs = refl
drop-if false i xs = refl

-- The node after the one at `n % k`.
next_source-round :
    (n : ℕ) (xs : List Source)
    → 0 < length xs
    → next_source xs (drop (n % length xs) xs) ≡ drop (suc n % length xs) xs
next_source-round n xs h =
    next_source-drop xs xs (n % length xs) (mod-lt n h)
    ∙ drop-if (ltb (suc (n % length xs)) (length xs)) (n % length xs) xs
    ∙ ap (λ i. drop i xs) (sym (mod_next n (length xs) h))

-- What n + 1 calls make of the options: only the current source moves, and it goes round.
calls_lem :
    (n : ℕ) (o : Opts)
    → o.cur_source ≡ []
    → 0 < length o.sources
    → calls (suc n) o ≡ record o { cur_source = drop (n % length o.sources) o.sources }
unfolding calls build_argv
calls_lem zero o e h =
    ap (λ c. record o { cur_source = c })
      (ap (next_source o.sources) e
        ∙ next_source-nil o.sources
        ∙ ap (λ i. drop i o.sources) (sym (zero-mod (length o.sources))))
calls_lem (suc n) o e h =
    ap (λ o'. (build_argv o').1) (calls_lem n o e h)
    ∙ ap (λ c. record o { cur_source = c }) (next_source-round n o.sources h)

command-cur_source :
    (o : Opts) (cur : List Source) (s : Source)
    → command (record o { cur_source = cur }) s ≡ command o s
unfolding command
command-cur_source o cur s = refl

build_argv-at :
    (o : Opts) (cur : List Source) (i : ℕ) (s : Source)
    → next_source o.sources cur ≡ drop i o.sources
    → get_elem? o.sources i ≡ some s
    → length o.base_argv ≤ 1024
    → (build_argv (record o { cur_source = cur })).0 ≡ argv (command o s)
unfolding build_argv
build_argv-at o cur i s e g l =
    rw (e, drop-get_elem? o.sources i s g, build_argv) (ground (arith, command-cur_source o cur s))

-- Were `build_argv` called on the daemon's own options, from no source on, its n-th command (from 0)
-- would be that of the source at n modulo their number, at most 1024 arguments being given.
pub build_argv_rotates :
    (n : ℕ) (o : Opts) (s : Source)
    → o.cur_source ≡ []
    → length o.base_argv ≤ 1024
    → get_elem? o.sources (n % length o.sources) ≡ some s
    → (build_argv (calls n o)).0 ≡ argv (command o s)
unfolding calls
build_argv_rotates zero o s e l g =
    let h = length-pos_of_get_elem? o.sources _ s g in
    build_argv-at o o.cur_source (0 % length o.sources) s
      (ap (next_source o.sources) e
        ∙ next_source-nil o.sources
        ∙ ap (λ i. drop i o.sources) (sym (zero-mod (length o.sources))))
      g l
build_argv_rotates (suc n) o s e l g =
    let h = length-pos_of_get_elem? o.sources _ s g in
    ap (λ o'. (build_argv o').0) (calls_lem n o e h)
    ∙ build_argv-at o _ (suc n % length o.sources) s (next_source-round n o.sources h) g l
