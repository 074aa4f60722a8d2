-- ===== src/Tests/Routes.antt =====
-- Waiting for a new route.
use tlsdate.Base.{◌≡◌, ◌↔◌, refl, true, false, [], ◌∷◌, List, some}
use tlsdate.Base.Int.{pos}
use tlsdate.RouteUp.Waiting.{SeesRoute, routeup_once-zero_iff}
use tlsdate.RouteUp.{Select, woke, walk, routeup_process, routeup_once, routeup_setup}

-- A message about addresses, and one with a new route.
abbrev answers : List Select
answers =
    woke false (record { types = some (20 ∷ 3 ∷ 24 ∷ []); drained = true })
    ∷ woke false (record { types = some (20 ∷ 24 ∷ []); drained = true })
    ∷ []

seen : routeup_once true answers ≡ some (pos 0)
unfolding routeup_once routeup_process walk
seen = refl

-- A socket that cannot be bound is closed.
unbound : routeup_setup true false true ≡ (pos 1, false)
unfolding routeup_setup
unbound = refl

routeup_once-zero_iff_example : (routeup_once true answers ≡ some (pos 0)) ↔ SeesRoute true answers
routeup_once-zero_iff_example = routeup_once-zero_iff true answers
