-- ===== src/RouteUp/Waiting.antt =====
-- src/routeup.c: `routeup_once` returns 0 exactly for a new route.
use tlsdate.Base.{
  ℕ, ◌≡◌, ◌↔◌, refl, ap, Bool, true, false, ◌&&◌, List, [], ◌∷◌, ◌++◌, Option, some, All,
  Bool-cases, inl, inr, arith,
}
use tlsdate.Base.Int.{ℤ, pos, negsuc}
use tlsdate.RouteUp.Walk.{
  HasRoute, HasNoRoute, process-zero, process-route, process-one, process-no_route,
}
use tlsdate.RouteUp.{Received, routeup_process, Select, select_failed, woke, is_one, routeup_once}

-- The answers that make routeup_once go on: messages that were read without an error, with no new route,
-- while there is time left.
abbrev pub IsIgnored : Bool → Select → Type 0
IsIgnored timeout select_failed = ⊥
IsIgnored timeout (woke over r) =
    ((timeout && over) ≡ false) × (types : List ℕ) × (r.types ≡ some types) × HasNoRoute types

-- Among the answers there is a new route, with an empty queue behind it, before any error, timeout or
-- full queue.
abbrev pub SeesRoute : Bool → List Select → Type 0
SeesRoute timeout answers =
    (before : List Select) × (after : List Select) × (over : Bool) × (r : Received) × (types : List
      ℕ)
    × (answers ≡ before ++ (woke over r ∷ after))
    × All (IsIgnored timeout) before
    × ((timeout && over) ≡ false)
    × (r.types ≡ some types)
    × (r.drained ≡ true)
    × HasRoute types

is_one-pos : (r : ℤ) → is_one r ≡ true → r ≡ pos 1
is_one-pos (pos n) h = ground arith
is_one-pos (negsuc n) h = cc

not_one : (r : ℤ) → r ≡ pos 0 → is_one r ≡ false
not_one (pos n) h = ground arith
not_one (negsuc n) h = refl

sees :
    (timeout : Bool) (answers : List Select)
    → routeup_once timeout answers ≡ some (pos 0)
    → SeesRoute timeout answers
unfolding routeup_once
sees timeout [] h = cc
sees timeout (select_failed ∷ answers) h = cc
sees timeout (woke over r ∷ answers) h = elim (Bool-cases (timeout && over)) [
  | inl e ↦
      let one : ◌≡◌ {A = Option ℤ} (some (pos 1)) (some (pos 0)) = rw (routeup_once, e) at h in
      absurd cc
  | inr e ↦ elim (Bool-cases (is_one (routeup_process r))) [
    | inl f ↦
        let rest : routeup_once timeout answers ≡ some (pos 0) = rw (routeup_once, e, f) at h in
        let (headers, read, quiet) = process-one r (is_one-pos (routeup_process r) f) in
        let (before, after, v, q, types, whole, ignored, live, t, d, route) =
          sees timeout answers rest in
        (
          woke over r ∷ before,
          after,
          v,
          q,
          types,
          ap (◌∷◌ (woke over r)) whole,
          ((e, headers, read, quiet), ignored),
          live,
          t,
          d,
          route,
        )
    | inr f ↦
        let result : ◌≡◌ {A = Option ℤ} (some (routeup_process r)) (some (pos 0)) =
          rw (routeup_once, e, f) at h in
        let (types, t, d, route) = process-zero r (cc) in
        ([], answers, over, r, types, refl, tt, e, t, d, route)
  ]
]

returns :
    (timeout : Bool) (before after : List Select) (over : Bool) (r : Received)
    → All (IsIgnored timeout) before
    → (timeout && over) ≡ false
    → routeup_process r ≡ pos 0
    → routeup_once timeout (before ++ (woke over r ∷ after)) ≡ some (pos 0)
unfolding routeup_once
returns timeout [] after over r h t zero_result =
    rw (routeup_once, t, not_one (routeup_process r) zero_result) (ap some zero_result)
returns timeout (select_failed ∷ before) after over r h t zero_result = absurd h.0
returns timeout (woke v q ∷ before) after over r h t zero_result =
    let (live, types, e, quiet) = h.0 in
    rw (routeup_once, live, process-no_route q types e quiet)
      (returns timeout before after over r h.1 t zero_result)

-- routeup_once returns 0 exactly where the answers of select and read show a new route, with an empty
-- queue behind it, and before it no error, no timeout and no full queue, only messages without one.
pub routeup_once-zero_iff :
    (timeout : Bool) (answers : List Select)
    → (routeup_once timeout answers ≡ some (pos 0)) ↔ SeesRoute timeout answers
routeup_once-zero_iff timeout answers = (
  sees timeout answers,
  λ (before, after, over, r, types, whole, ignored, live, t, d, route).
      rw (whole)
        (returns timeout before after over r ignored live (process-route r types t d route)),
)
