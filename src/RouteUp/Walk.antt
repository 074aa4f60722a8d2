-- ===== src/RouteUp/Walk.antt =====
-- src/routeup.c: what the walk over the headers of a message finds.
use tlsdate.Base.{
  ℕ, ◌≡◌, ◌≢◌, refl, ap, if◌then◌else◌, ◌==◌, ==_iff, Bool, true, false, List, [], ◌∷◌, ◌++◌, some,
  All, ◌⊎◌, Bool-cases, Option-cases, inl, inr, arith,
}
use tlsdate.Base.Int.{ℤ, pos, negsuc}
use tlsdate.RouteUp.{nlmsg_done, rtm_newroute, Received, walk, routeup_process}

-- A header that the walk passes over.
abbrev pub IsOther : ℕ → Type 0
IsOther type = (type ≢ nlmsg_done) × (type ≢ rtm_newroute)

-- A new route is among the headers, before the end of the message.
abbrev pub HasRoute : List ℕ → Type 0
HasRoute types =
    (before : List ℕ) × (after : List ℕ) × (types ≡ before ++ (rtm_newroute ∷ after))
    × All IsOther before

empty_queue : (drained : Bool) → (if drained then pos 0 else negsuc 0) ≡ pos 0 → drained ≡ true
empty_queue true h = refl
empty_queue false h = cc

not_a_queue : (drained : Bool) → (if drained then pos 0 else negsuc 0) ≡ pos 1 → ⊥
not_a_queue true h = ground arith
not_a_queue false h = cc

walk-zero :
    (drained : Bool) (types : List ℕ)
    → walk drained types ≡ pos 0
    → (drained ≡ true) × HasRoute types
unfolding walk
walk-zero drained [] h = cc
walk-zero drained (type ∷ types) h = elim (Bool-cases (type == nlmsg_done)) [
  | inl e ↦ let one : ◌≡◌ {A = ℤ} (pos 1) (pos 0) = rw (walk, e) at h in absurd cc
  | inr e ↦ elim (Bool-cases (type == rtm_newroute)) [
    | inl f ↦
        let first : (if drained then pos 0 else negsuc 0) ≡ pos 0 = rw (walk, e, f) at h in
        (
          empty_queue drained first,
          ([], types, ap (λ t. t ∷ types) ((==_iff type rtm_newroute).0 f), tt),
        )
    | inr f ↦
        let rest : walk drained types ≡ pos 0 = rw (walk, e, f) at h in
        let (d, (before, after, whole, others)) = walk-zero drained types rest in
        (d, (type ∷ before, after, ap (◌∷◌ type) whole, ((ground arith, ground arith), others)))
  ]
]

walk-route :
    (before after : List ℕ)
    → All IsOther before
    → walk true (before ++ (rtm_newroute ∷ after)) ≡ pos 0
unfolding walk
walk-route [] after h = refl
walk-route (type ∷ before) after h = ground (arith, walk-route before after h.1)

pub process-zero :
    (r : Received)
    → routeup_process r ≡ pos 0
    → (types : List ℕ) × (r.types ≡ some types) × (r.drained ≡ true) × HasRoute types
unfolding routeup_process
process-zero r h = elim (Option-cases r.types) [
  | inl e ↦ let fails : ◌≡◌ {A = ℤ} (negsuc 0) (pos 0) = rw (routeup_process, e) at h in absurd cc
  | inr (types, e) ↦
      let walked : walk r.drained types ≡ pos 0 = rw (routeup_process, e) at h in
      let (d, route) = walk-zero r.drained types walked in (types, e, d, route)
]

pub process-route :
    (r : Received) (types : List ℕ)
    → r.types ≡ some types
    → r.drained ≡ true
    → HasRoute types
    → routeup_process r ≡ pos 0
unfolding routeup_process
process-route r types e d (before, after, whole, others) =
    rw (routeup_process, e, d, whole) (walk-route before after others)

-- No new route is among the headers before the end of the message.
abbrev pub HasNoRoute : List ℕ → Type 0
HasNoRoute types =
    All IsOther types
    ⊎ ((before : List ℕ) × (after : List ℕ) × (types ≡ before ++ (nlmsg_done ∷ after))
        × All IsOther before)

-- What follows a header that the walk passes over.
behind_other :
    (type : ℕ) (types : List ℕ) → IsOther type → HasNoRoute types → HasNoRoute (type ∷ types)
behind_other type types o (inl others) = inl (o, others)
behind_other type types o (inr (before, after, whole, others)) =
    inr (type ∷ before, after, ap (◌∷◌ type) whole, (o, others))

walk-one : (drained : Bool) (types : List ℕ) → walk drained types ≡ pos 1 → HasNoRoute types
unfolding walk
walk-one drained [] h = inl tt
walk-one drained (type ∷ types) h = elim (Bool-cases (type == nlmsg_done)) [
  | inl e ↦ inr ([], types, ap (λ t. t ∷ types) ((==_iff type nlmsg_done).0 e), tt)
  | inr e ↦ elim (Bool-cases (type == rtm_newroute)) [
    | inl f ↦
        let first : (if drained then pos 0 else negsuc 0) ≡ pos 1 = rw (walk, e, f) at h in
        absurd (not_a_queue drained first)
    | inr f ↦
        let rest : walk drained types ≡ pos 1 = rw (walk, e, f) at h in
        behind_other type types (ground arith, ground arith) (walk-one drained types rest)
  ]
]

walk-others : (drained : Bool) (types : List ℕ) → All IsOther types → walk drained types ≡ pos 1
unfolding walk
walk-others drained [] h = refl
walk-others drained (type ∷ types) h = ground (arith, walk-others drained types h.1)

walk-done :
    (drained : Bool) (before after : List ℕ)
    → All IsOther before
    → walk drained (before ++ (nlmsg_done ∷ after)) ≡ pos 1
unfolding walk
walk-done drained [] after h = refl
walk-done drained (type ∷ before) after h = ground (arith, walk-done drained before after h.1)

walk-no_route : (drained : Bool) (types : List ℕ) → HasNoRoute types → walk drained types ≡ pos 1
walk-no_route drained types (inl others) = walk-others drained types others
walk-no_route drained types (inr (before, after, whole, others)) =
    rw (whole) (walk-done drained before after others)

pub process-one :
    (r : Received)
    → routeup_process r ≡ pos 1
    → (types : List ℕ) × (r.types ≡ some types) × HasNoRoute types
unfolding routeup_process
process-one r h = elim (Option-cases r.types) [
  | inl e ↦ let fails : ◌≡◌ {A = ℤ} (negsuc 0) (pos 1) = rw (routeup_process, e) at h in absurd cc
  | inr (types, e) ↦
      let walked : walk r.drained types ≡ pos 1 = rw (routeup_process, e) at h in
      (types, e, walk-one r.drained types walked)
]

pub process-no_route :
    (r : Received) (types : List ℕ)
    → r.types ≡ some types
    → HasNoRoute types
    → routeup_process r ≡ pos 1
unfolding routeup_process
process-no_route r types e h = rw (routeup_process, e) (walk-no_route r.drained types h)
