-- ===== src/Tls/Polarssl.antt =====
-- src/tlsdate-helper.c: the checks and `run_ssl` for PolarSSL. The library's answers are an input; the
-- handshake of the proxy goes through the BIO. `die` returns 1, and a loop that the library never ends
-- runs out of fuel.
pub mod Checked
use tlsdate.Base.{
  ℕ, suc, ◌+◌, ◌*◌, ◌%◌, ◌^◌, ◌<◌, ◌≡◌, Bool, true, false, not, ◌&&◌, ◌||◌, List, [], ◌∷◌, Option,
  none, some, ltb, leb, if◌then◌else◌, Bytes,
}
use tlsdate.Base.Int.{ℤ, pos, is_zero, to_u32}
use tlsdate.Bio.{Bio, Step, next, returned, fault, out_of_fuel, ◌>>=◌, ◌>>◌}
use tlsdate.Helper.Main.{Flags, max_reasonable_time}
use tlsdate.Options.{atoi}
use tlsdate.Proxy.{parse_proxy_uri}
use tlsdate.ProxyBio.{ProxyCtx}
use tlsdate.ProxyPolarssl.{
  polar_init, polar_set_host, polar_set_port, polar_set_scheme, polar_connect,
}
use tlsdate.Tls.Openssl.{FileKind, demand, demand_some}
use tlsdate.Tls.{min_pub_key_len}

-- The result of `ssl_get_verify_result`, and which of the bits BADCERT_* it has.
pub record Verify : Type 0 where
  pub value : ℤ
  pub expired : Bool
  pub revoked : Bool
  pub cn_mismatch : Bool
  pub not_trusted : Bool

-- `verify_signature`.
abbrev pub polar_verify : Verify → Bool
polar_verify v =
    if v.expired
    then false
    else if v.revoked
    then false
    else if v.cn_mismatch
    then false
    else if v.not_trusted
    then false
    else is_zero v.value

-- `check_key_length`, with the size of the modulus; `none` where there is no certificate.
abbrev pub polar_check_key_length : Option ℕ → Bool
polar_check_key_length none = false
polar_check_key_length (some key_bits) = not (leb key_bits min_pub_key_len)

-- `check_timestamp`.
abbrev pub check_timestamp : ℕ → ℕ → Bool
check_timestamp recent server_time = ltb recent server_time && ltb server_time max_reasonable_time

-- What the library and the system answer: `steps` are the results of `ssl_handshake_step` until the
-- state is SSL_SERVER_HELLO, `hello` that of the next one, and `rounds` those of `ssl_handshake`, each
-- with whether it is one of the two errors that want more.
pub record PolarAnswers : Type 0 where
  pub container : Option FileKind
  pub rng_ready : Bool
  pub ssl_ready : Bool
  pub connected : Bool
  pub steps : List ℤ
  pub hello : ℤ
  pub hello_time : ℕ × ℕ × ℕ × ℕ
  pub rounds : List (ℤ × Bool)
  pub verify : Verify
  pub key_bits : Option ℕ

-- The bytes 6 to 9 of `in_msg`, shifted and joined.
abbrev pub timestamp_of : ℕ × ℕ × ℕ × ℕ → ℕ
timestamp_of (a, b, c, d) = a * 2 ^ 24 + b * 2 ^ 16 + c * 2 ^ 8 + d

abbrev pub polar_container : PolarAnswers → Bool
polar_container a = elim a.container [
  | none ↦ false
  | some FileKind.regular ↦ true
  | some FileKind.directory ↦ true
  | some FileKind.another ↦ false
]

-- `ssl_do_handshake_part`.
abbrev pub ssl_do_handshake_part : List ℤ → ℤ → Bool
ssl_do_handshake_part [] hello = is_zero hello
ssl_do_handshake_part (ret ∷ steps) hello = is_zero ret && ssl_do_handshake_part steps hello

module _ {S : Type 0} where
  -- The loop of `ssl_handshake`.
  unfoldable pub handshake_loop : List (ℤ × Bool) → S → Step S (Unit {0})
  handshake_loop [] s = fault out_of_fuel
  handshake_loop ((ret, wants_more) ∷ rounds) s =
      let rest = handshake_loop rounds s in
      if is_zero ret then next tt s else if wants_more then rest else returned (pos 1) s

  -- `if (0 == proxy_ctx.f_connect (&proxy_ctx)) die`.
  abbrev pub connected_or_die : Step S (Unit {0}) → Step S (Unit {0})
  connected_or_die (next u s) = next u s
  connected_or_die (returned r s) = if is_zero r then returned (pos 1) s else next tt s
  connected_or_die (fault why) = fault why

module _ {S : Type 0} (bio : Bio S) (recent fuel : ℕ) (a : PolarAnswers) where
  -- The context of the proxy; the results of the setters are not looked at.
  abbrev pub proxy_context : Bytes → Bytes → Bytes → ProxyCtx
  proxy_context scheme host port =
      let hosted = (polar_set_host polar_init host).1 in
      (polar_set_scheme (polar_set_port hosted (to_u32 (atoi port) % 2 ^ 16)) scheme).1

  -- The connection, through a proxy if there is one.
  unfoldable pub polar_tunnel : Flags → S → Step S (Unit {0})
  polar_tunnel flags = elim flags.proxy [
    | none ↦ demand a.connected
    | some proxy ↦ (do
      (scheme, proxy_host, proxy_port) ← demand_some (parse_proxy_uri proxy)
      demand a.connected
      (λ s.
          connected_or_die (polar_connect bio fuel (proxy_context scheme flags.host flags.port) s)))
  ]

  -- `run_ssl`: the time that it leaves in `time_map`. Its other two arguments are never read.
  unfoldable pub polar_run_ssl : Flags → S → Step S ℕ
  unfolding polar_tunnel handshake_loop
  polar_run_ssl flags = do
    demand (not flags.ca_racket || polar_container a)
    demand a.rng_ready
    demand a.ssl_ready
    polar_tunnel flags
    demand (ssl_do_handshake_part a.steps a.hello)
    demand (check_timestamp recent (timestamp_of a.hello_time))
    handshake_loop a.rounds
    demand (not flags.ca_racket || polar_verify a.verify)
    demand (polar_check_key_length a.key_bits)
    next (timestamp_of a.hello_time)
