-- ===== src/ProxyPolarssl.antt =====
-- src/proxy-polarssl.c: the same handshakes over the callbacks of PolarSSL. `f_send` and `f_recv` with
-- their pointers are a BIO here, and the context is that of src/proxy-bio.c, whose fields it has.
pub mod Equivalence
use tlsdate.Base.{
  ℕ, ltb, leb, ◌==◌, Bool, true, false, [], Option, none, some, if◌then◌else◌, Bytes, codes, str_eq,
  length, take,
}
use tlsdate.Base.Int.{ℤ, pos, is_zero}
use tlsdate.Bio.{
  Bio, Fault, null_host, no_connect, Step, next, returned, fault, ◌>>=◌, ◌>>◌, require, send,
  receive, zero_result,
}
use tlsdate.ProxyBio.{
  ProxyCtx, Kind, socks4a, socks5, http, ni_maxhost, byte_at, socks4a_packet, socks5_hello,
  socks5_packet, socks5_ok, skip_address, get_line, header_loop, is_success, connect_line,
  host_line, Outcome, done, broken,
}

-- `proxy_polarssl_init`: all zero.
abbrev pub polar_init : ProxyCtx
polar_init = record { host = none; port = 0; connected = false; connect = none }

-- `proxy_polarssl_set_scheme`.
unfoldable pub polar_set_scheme : ProxyCtx → Bytes → ℤ × ProxyCtx
polar_set_scheme ctx scheme =
    if str_eq scheme (codes "socks5")
    then (pos 0, record ctx { connect = some socks5 })
    else (if str_eq scheme (codes "socks4")
        then (pos 0, record ctx { connect = some socks4a })
        else (if str_eq scheme (codes "http")
            then (pos 0, record ctx { connect = some http })
            else (pos 1, ctx)))

-- `proxy_polarssl_set_host` and `proxy_polarssl_set_port`.
abbrev pub polar_set_host : ProxyCtx → Bytes → ℤ × ProxyCtx
polar_set_host ctx host =
    if ltb (length host) ni_maxhost then (pos 0, record ctx { host = some host }) else (pos 1, ctx)

abbrev pub polar_set_port : ProxyCtx → ℕ → ProxyCtx
polar_set_port ctx port = record ctx { port = port }

module _ {S : Type 0} (bio : Bio S) where
  unfoldable pub polar_socks4a : Bytes → ℕ → S → Step S (Unit {0})
  polar_socks4a host port = do
    send bio zero_result (socks4a_packet host port)
    reply ← receive bio zero_result 8
    require (byte_at reply 1 == 90)

  unfoldable pub polar_socks5 : Bytes → ℕ → S → Step S (Unit {0})
  polar_socks5 host port = do
    require (leb (length host) 255)
    send bio zero_result socks5_hello
    auth ← receive bio zero_result 2
    require (socks5_ok auth)
    send bio zero_result (socks5_packet host port)
    reply ← receive bio zero_result 4
    require (socks5_ok reply)
    skip_address bio (byte_at reply 3)

  unfoldable pub polar_http : ℕ → Bytes → ℕ → S → Step S (Unit {0})
  polar_http fuel host port = do
    send bio zero_result (take 4095 (connect_line host port))
    send bio zero_result (take 4095 (host_line host port))
    send bio zero_result (codes "\r\n")
    status ← get_line bio
    require (is_success status)
    header_loop bio fuel

  -- `proxy->f_connect (ctx)`.
  unfoldable pub polar_connect : ℕ → ProxyCtx → S → Step S (Unit {0})
  polar_connect fuel ctx s = elim ctx.connect [
    | none ↦ fault no_connect
    | some kind ↦ elim ctx.host [
      | none ↦ fault null_host
      | some host ↦ elim kind [
        | socks4a ↦ polar_socks4a host ctx.port s
        | socks5 ↦ polar_socks5 host ctx.port s
        | http ↦ polar_http fuel host ctx.port s
      ]
    ]
  ]

  -- `if (!proxy->connected) ...`: a handshake that is complete returns 1, and that is returned; with 0
  -- the function goes on.
  unfoldable pub polar_after :
      {A : Type 0} → (ℤ → A) → (ProxyCtx → S → Outcome S A) → ℕ → ProxyCtx → S → Outcome S A
  polar_after give act fuel ctx s = elim ctx.connected [
    | true ↦ act ctx s
    | false ↦ elim (polar_connect fuel ctx s) [
      | next a t ↦ done (give (pos 1)) (record ctx { connected = true }) t
      | returned r t ↦ elim (is_zero r) [ true ↦ act ctx t | false ↦ done (give r) ctx t ]
      | fault why ↦ broken why
    ]
  ]

  -- `proxy_polarssl_send` and `proxy_polarssl_recv`, for a context that is not NULL.
  unfoldable pub polar_send : ℕ → ProxyCtx → S → Bytes → Outcome S ℤ
  polar_send fuel ctx s bytes =
      polar_after (λ r. r) (λ c t. let w = bio.bio_write t bytes in done w.0 c w.1) fuel ctx s

  unfoldable pub polar_recv : ℕ → ProxyCtx → S → ℕ → Outcome S (ℤ × Bytes)
  polar_recv fuel ctx s len =
      polar_after (λ r. (r, [])) (λ c t. let r = bio.bio_read t len in done r.0 c r.1) fuel ctx s
