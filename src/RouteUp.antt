-- ===== src/RouteUp.antt =====
-- src/routeup.c: waiting for a change of the routes on a netlink socket. What the system calls answer is
-- the input; a message is a list of headers, of which only the types are read.
pub mod Walk
pub mod Waiting
use tlsdate.Base.{
  ℕ, ◌==◌, Bool, true, false, ◌&&◌, List, [], ◌∷◌, Option, none, some, if◌then◌else◌,
}
use tlsdate.Base.Int.{ℤ, pos, negsuc}

-- `NLMSG_DONE` and `RTM_NEWROUTE`, of <linux/netlink.h> and <linux/rtnetlink.h>.
abbrev pub nlmsg_done : ℕ
nlmsg_done = 3

abbrev pub rtm_newroute : ℕ
rtm_newroute = 24

-- What the reads of routeup_process give: the types of the headers of the first message, or `none` for
-- an error; and whether `errno` is EAGAIN when the queue was read to its end.
pub record Received : Type 0 where
  pub types : Option (List ℕ)
  pub drained : Bool

-- `routeup_setup`: its result, and whether the socket is open, by which of its calls succeed.
unfoldable pub routeup_setup : Bool → Bool → Bool → ℤ × Bool
routeup_setup socket bind fcntl =
    if socket then (if bind && fcntl then (pos 0, true) else (pos 1, false)) else (pos 1, false)

-- The walk over the headers.
unfoldable pub walk : Bool → List ℕ → ℤ
walk drained [] = pos 1
walk drained (type ∷ types) =
    let rest = walk drained types in
    if type == nlmsg_done
    then pos 1
    else (if type == rtm_newroute then (if drained then pos 0 else negsuc 0) else rest)

unfoldable pub routeup_process : Received → ℤ
routeup_process r = elim r.types [ none ↦ negsuc 0 | some types ↦ walk r.drained types ]

-- What `select` gives: an error, or that it returned, with whether nothing is left of the timeout, and
-- with what the reads that follow get.
pub data Select : Type 0 where
  select_failed : Select
  woke : Bool → Received → Select

abbrev pub is_one : ℤ → Bool
is_one (pos n) = n == 1
is_one (negsuc n) = false

-- `routeup_once`, with whether there is a timeout; `none` where it still waits after these answers.
unfoldable pub routeup_once : Bool → List Select → Option ℤ
routeup_once timeout [] = none
routeup_once timeout (select_failed ∷ answers) = some (negsuc 0)
routeup_once timeout (woke over r ∷ answers) = elim (timeout && over) [
  | true ↦ some (pos 1)
  | false ↦ elim (is_one (routeup_process r)) [
    | true ↦ routeup_once timeout answers
    | false ↦ some (routeup_process r)
  ]
]
