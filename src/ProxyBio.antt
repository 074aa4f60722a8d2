-- ===== src/ProxyBio.antt =====
-- src/proxy-bio.c and src/proxy-bio.h: the BIO that speaks to a proxy, on top of a BIO of OpenSSL's.
-- The children have the handshakes of the three kinds of proxy.
mod Handshakes
pub mod Socks
pub mod Http
pub mod Packets
pub mod Setup
pub mod EndingSocks
pub mod EndingHttp
pub mod Connect
unfoldable pub use Handshakes.*
use tlsdate.Base.{
  ℕ, ltb, leb, Bool, true, false, Option, none, some, [], if◌then◌else◌, Bytes, codes, str_eq,
  length,
}
use tlsdate.Base.Int.{ℤ, pos, is_zero}
use tlsdate.Bio.{Bio, Fault, null_host, no_connect, Step, next, returned, fault, then_step}

-- `NI_MAXHOST`, of <netdb.h>.
abbrev pub ni_maxhost : ℕ
ni_maxhost = 1025

-- The handshake that `ctx->connect` points to.
pub data Kind : Type 0 where
  socks4a socks5 http : Kind

-- `struct proxy_ctx`.
pub record ProxyCtx : Type 0 where
  pub host : Option Bytes
  pub port : ℕ
  pub connected : Bool
  pub connect : Option Kind

-- `proxy_new`.
abbrev pub proxy_new : ProxyCtx
proxy_new = record { host = none; port = 0; connected = false; connect = none }

-- `BIO_proxy_set_type`: its result, and the context.
unfoldable pub set_type : ProxyCtx → Bytes → ℤ × ProxyCtx
set_type ctx type =
    if str_eq type (codes "socks5")
    then (pos 0, record ctx { connect = some socks5 })
    else (if str_eq type (codes "socks4a")
        then (pos 0, record ctx { connect = some socks4a })
        else (if str_eq type (codes "http")
            then (pos 0, record ctx { connect = some http })
            else (pos 1, ctx)))

-- `BIO_proxy_set_host`.
unfoldable pub set_host : ProxyCtx → Bytes → ℤ × ProxyCtx
set_host ctx host =
    if ltb (length host) ni_maxhost then (pos 0, record ctx { host = some host }) else (pos 1, ctx)

-- `BIO_proxy_set_port`.
abbrev pub set_port : ProxyCtx → ℕ → ProxyCtx
set_port ctx port = record ctx { port = port }

-- What proxy_write and proxy_read give: a result of the type `A`, the context and the state of the
-- next BIO; or a fault.
pub data Outcome (S A : Type 0) : Type 0 where
  done : A → ProxyCtx → S → Outcome S A
  broken : Fault → Outcome S A

module _ {S : Type 0} (bio : Bio S) (fuel : ℕ) where
  -- `ctx->connect (b)`; the fuel is for the lines of an HTTP header.
  unfoldable pub run_connect : ProxyCtx → S → Step S (Unit {0})
  run_connect ctx s = elim ctx.connect [
    | none ↦ fault no_connect
    | some kind ↦ elim ctx.host [
      | none ↦ fault null_host
      | some host ↦ elim kind [
        | socks4a ↦ socks4a_connect bio host ctx.port s
        | socks5 ↦ socks5_connect bio host ctx.port s
        | http ↦ http_connect bio fuel host ctx.port s
      ]
    ]
  ]

  -- `if (!ctx->connected) ...` of proxy_write and proxy_read, before what they do: a result other than
  -- 0 lets them go on, and only a handshake that is complete sets `connected`.
  unfoldable pub after_connect :
      {A : Type 0} → A → (ProxyCtx → S → Outcome S A) → ProxyCtx → S → Outcome S A
  after_connect zero_value act ctx s = elim ctx.connected [
    | true ↦ act ctx s
    | false ↦ elim (run_connect ctx s) [
      | next a t ↦ act (record ctx { connected = true }) t
      | returned r t ↦ elim (is_zero r) [ true ↦ done zero_value ctx t | false ↦ act ctx t ]
      | fault why ↦ broken why
    ]
  ]

  -- `proxy_write`, with `sz` the length of the buffer; `none`: there is no next BIO, and the result is 0.
  unfoldable pub proxy_write : ProxyCtx → Option S → Bytes → Option (Outcome S ℤ)
  proxy_write ctx none buf = none
  proxy_write ctx (some s) buf = some (elim (ltb 0 (length buf)) [
    | false ↦ done (pos 0) ctx s
    | true ↦ after_connect (pos 0) (λ c t. let w = bio.bio_write t buf in done w.0 c w.1) ctx s
  ])

  -- `proxy_read` into a buffer of the size `sz`; `none` as above.
  unfoldable pub proxy_read : ProxyCtx → Option S → ℕ → Option (Outcome S (ℤ × Bytes))
  proxy_read ctx none sz = none
  proxy_read ctx (some s) sz =
      some (after_connect (pos 0, []) (λ c t. let r = bio.bio_read t sz in done r.0 c r.1) ctx s)
