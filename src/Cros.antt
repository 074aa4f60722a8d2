-- ===== src/Cros.antt =====
-- src/platform-cros.c: the platform hooks of Chromium OS, which wake the daemon up on messages of the
-- system bus and ask the browser which proxy serves a source. The state is `struct platform_state`
-- with the parts of `struct state` that it points to.
pub mod Pac
pub mod Bus
pub mod Filter
pub mod Setup
pub mod Invariant
pub mod Steps
pub mod Start
pub mod Messages
pub mod Resolver
pub mod Blocked
use tlsdate.Base.{
  ℕ, ◌+◌, Bool, true, false, List, [], ◌∷◌, ◌++◌, Option, none, some, get_elem?, take, Bytes, codes,
  if◌then◌else◌,
}
use tlsdate.Base.Int.{ℤ}
use tlsdate.Daemon.{State, Outcome}
use tlsdate.Monitor.{next_source}
use tlsdate.Types.{Opts, Source}

-- MAX_PROXY_URL.
abbrev pub max_proxy_url : ℕ
max_proxy_url = 255 + 9 + 6 + 1

-- `struct platform_state`, the daemon's state with `dynamic_proxy`, and whether `opts.proxy` points at
-- that string. `resolve_msg` has, for each source, the URL in its prepared message, or none for NULL;
-- `src->proxy` points at `dynamic_proxy` where there is a message.
pub record Platform (B : Type 0) : Type 0 where
  pub daemon : State B
  pub dynamic_proxy : Bytes
  pub default_dynamic : Bool
  pub resolve_msg : List (Option Bytes)
  pub resolve_network_proxy_serial : ℕ

-- A handler goes on, calls `exit`, or reads a null pointer or outside of an array.
pub data Ran {ℓ} (A : Type ℓ) : Type ℓ where
  ok : A → Ran A
  exits : ℤ → Ran A
  crashes : Ran A

infixl 5 ◌>>=◌
abbrev pub ◌>>=◌ {ℓ κ} : {A : Type ℓ} {B : Type κ} → Ran A → (A → Ran B) → Ran B
ok a >>= f = f a
exits n >>= f = exits n
crashes >>= f = crashes

abbrev pub lift {ℓ κ} : {A : Type ℓ} {B : Type κ} → (A → B) → Outcome A → Ran B
lift f (Outcome.ok a) = ok (f a)
lift f (Outcome.exits n) = exits n

-- `snprintf (.., "https://%s:%s", src->host, src->port)` before it is cut, and cut to the buffer.
abbrev pub time_url : Source → Bytes
time_url src = codes "https://" ++ (src.host ++ (codes ":" ++ src.port))

abbrev pub time_host : Source → Bytes
time_host src = take 270 (time_url src)

-- `src->proxy`, which is read through the pointer.
abbrev pub seen_source : Bytes → List (Option Bytes) → Source → Source
seen_source proxy msgs src = elim (get_elem? msgs src.id) [
  | some (some url) ↦ record src { proxy = some proxy }
  | some none ↦ src
  | none ↦ src
]

abbrev pub seen_sources : Bytes → List (Option Bytes) → List Source → List Source
seen_sources proxy msgs [] = []
seen_sources proxy msgs (src ∷ sources) =
    seen_source proxy msgs src ∷ seen_sources proxy msgs sources

module _ {B : Type 0} where
  -- The source that comes next: the nodes from `src` on.
  unfoldable pub upcoming : Platform B → List Source
  upcoming p = next_source p.daemon.opts.sources p.daemon.opts.cur_source

  -- The options as the code that reads them sees them, the two pointers followed.
  unfoldable pub seen_opts : Platform B → Opts
  seen_opts p =
      let o = p.daemon.opts in
      record o {
        sources = seen_sources p.dynamic_proxy p.resolve_msg o.sources;
        cur_source = seen_sources p.dynamic_proxy p.resolve_msg o.cur_source;
        proxy = if p.default_dynamic then some p.dynamic_proxy else o.proxy;
      }
