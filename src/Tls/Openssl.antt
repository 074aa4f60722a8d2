-- ===== src/Tls/Openssl.antt =====
-- src/tlsdate-helper.c: `openssl_time_callback` and `run_ssl` for OpenSSL. The answers of the library
-- and of the system are an input; the bytes that go through the BIO of the connection are those of
-- `Bio`. `die` returns 1.
use tlsdate.Base.{
  ℕ, ◌+◌, Bool, true, false, not, ◌&&◌, ◌||◌, List, [], ◌∷◌, ◌++◌, Option, none, some, ltb,
  if◌then◌else◌, length, Bytes, codes, str_eq,
}
use tlsdate.Base.Int.{pos, is_count}
use tlsdate.Bio.{Bio, Step, next, returned, fault, ◌>>=◌, ◌>>◌}
use tlsdate.Helper.Dates.{read_http_date_from_bio}
use tlsdate.Helper.Main.{Flags, max_reasonable_time}
use tlsdate.Helper.{Parsed, parsed, write_all_to_bio}
use tlsdate.ProxyBio.Setup.{setup_proxy}
use tlsdate.Tls.{Certificate, VerifyResult, inspect_key, check_key_length}

-- One call of the library's info callback: is `where` SSL_CB_CONNECT_LOOP, is the state one of those
-- in which the server's hello was read, and the first four bytes of `server_random`, as the number
-- that `ntohl` gives.
pub record Info : Type 0 where
  pub connect_loop : Bool
  pub server_hello : Bool
  pub server_time : ℕ

-- `openssl_time_callback`: the time to verify at, if it sets one; `none` is `die`.
unfoldable pub openssl_time_callback : ℕ → Info → Option ℕ → Option (Option ℕ)
openssl_time_callback recent i frozen =
    if i.connect_loop && i.server_hello
    then if ltb recent i.server_time && ltb i.server_time max_reasonable_time
      then some (some (i.server_time + 86400))
      else none
    else some frozen

-- The calls of the handshake, one after the other.
unfoldable pub info_callbacks : ℕ → List Info → Option ℕ → Option (Option ℕ)
unfolding openssl_time_callback
info_callbacks recent [] frozen = some frozen
info_callbacks recent (i ∷ rest) frozen = elim (openssl_time_callback recent i frozen) [
  | none ↦ none
  | some frozen' ↦ info_callbacks recent rest frozen'
]

-- The kind of file that `stat` finds.
pub data FileKind : Type 0 where
  regular directory another : FileKind

-- What the library and the system answer. `verify_result` is that of SSL_get_verify_result, for the
-- time at which the certificate was verified, `none` being the system's.
pub record Answers : Type 0 where
  pub ctx_made : Bool
  pub container : Option FileKind
  pub locations_loaded : Bool
  pub connect_bio_made : Bool
  pub ssl_bio_made : Bool
  pub ssl_found : Bool
  pub target_set : Bool
  pub stdout_bio_made : Bool
  pub connected : Bool
  pub infos : List Info
  pub handshake_done : Bool
  pub server_random : ℕ
  pub certificate : Option Certificate
  pub verify_result : Option ℕ → VerifyResult

-- `strcmp` with the names of the protocols.
abbrev pub known_protocol : Bytes → Bool
known_protocol protocol =
    str_eq (codes "sslv23") protocol
    || str_eq (codes "sslv3") protocol
    || str_eq (codes "tlsv1") protocol

-- The certificates of the container: does the code go on?
abbrev pub load_container : Answers → Bool
load_container a = elim a.container [
  | none ↦ false
  | some FileKind.regular ↦ true
  | some FileKind.directory ↦ true
  | some FileKind.another ↦ a.locations_loaded
]

-- `make_ssl_bio`, with `setup_proxy`: does it return a BIO?
unfoldable pub make_ssl_bio : Answers → Flags → Bool
make_ssl_bio a flags = a.connect_bio_made && a.ssl_bio_made && (elim flags.proxy [
  | none ↦ true
  | some proxy ↦ elim (setup_proxy proxy flags.host flags.port) [ none ↦ false | some setup ↦ true ]
])

-- HTTP_REQUEST, for a user agent.
abbrev pub http_request : Bytes → Bytes → Bytes
http_request user_agent hostname =
    codes "HEAD / HTTP/1.1\r\nUser-Agent: "
    ++ (user_agent ++ (codes "\r\nHost: " ++ (hostname ++ codes "\r\n\r\n")))

module _ {S : Type 0} where
  -- `die` where the test fails.
  abbrev pub demand : Bool → S → Step S (Unit {0})
  demand true s = next tt s
  demand false s = returned (pos 1) s

  abbrev pub demand_some : {A : Type 0} → Option A → S → Step S A
  demand_some none s = returned (pos 1) s
  demand_some (some x) s = next x s

  -- The parsed date where the result is 1.
  abbrev pub date_read : Step S Parsed → Step S ℕ
  date_read (next (parsed t) s) = next t s
  date_read (next _ s) = returned (pos 1) s
  date_read (returned r s) = returned (pos 1) s
  date_read (fault why) = fault why

module _ {S : Type 0} (bio : Bio S) (recent : ℕ) (user_agent : Bytes) (a : Answers) where
  -- The part under `if (http)`.
  unfoldable pub http_date : Bytes → S → Step S ℕ
  http_date hostname = do
    demand (ltb (length (http_request user_agent hostname)) 1024)
    sent ← write_all_to_bio bio (http_request user_agent hostname)
    demand (is_count sent 1)
    (λ s. date_read (read_http_date_from_bio bio s))

  -- `run_ssl`: the time that it leaves in `time_map`, which main reads with `ntohl`.
  unfoldable pub run_ssl : Flags → S → Step S ℕ
  unfolding info_callbacks make_ssl_bio http_date
  run_ssl flags = do
    demand (known_protocol flags.protocol)
    demand a.ctx_made
    demand (not flags.ca_racket || load_container a)
    demand (make_ssl_bio a flags)
    demand a.ssl_found
    demand a.target_set
    demand a.stdout_bio_made
    demand a.connected
    frozen ← demand_some (if flags.leap then info_callbacks recent a.infos none else some none)
    demand a.handshake_done
    result_time ← (if flags.http then http_date flags.host else next a.server_random)
    demand (not flags.ca_racket || inspect_key a.certificate (a.verify_result frozen) flags.host)
    demand (check_key_length a.certificate)
    next result_time
