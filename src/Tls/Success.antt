-- ===== src/Tls/Success.antt =====
-- src/tlsdate-helper.c: a run of `run_ssl` against a good server.
use tlsdate.Base.{
  ℕ, ◌+◌, ◌<◌, ◌≡◌, ◌⊎◌, inl, inr, refl, Bool, true, false, not, ◌||◌, List, [], ◌∷◌, Option, none,
  some, Bytes, codes, ltb, arith, All, Bool-cases, if◌then◌else◌,
}
use tlsdate.Bio.{Bio, next}
use tlsdate.Helper.Main.{Flags, max_reasonable_time}
use tlsdate.Proxy.Uri.{IsValid, uri, parse_proxy_uri_iff}
use tlsdate.ProxyBio.Setup.{setup_proxy}
use tlsdate.Tls.Keys.{check_key_length_iff}
use tlsdate.Tls.Names.{check_name_iff}
use tlsdate.Tls.Openssl.{
  Info, openssl_time_callback, info_callbacks, Answers, FileKind, known_protocol, load_container,
  make_ssl_bio, run_ssl,
}
use tlsdate.Tls.Times.{is_hello, LastHello, info_callbacks-hello}
use tlsdate.Tls.Trust.{Trusted, HasSafeKey}
use tlsdate.Tls.{inspect_key}

-- The calls of the library and of the system that `run_ssl` makes succeed.
pub record Works (a : Answers) : Type 0 where
  pub ctx : a.ctx_made ≡ true
  pub connect_bio : a.connect_bio_made ≡ true
  pub ssl_bio : a.ssl_bio_made ≡ true
  pub ssl : a.ssl_found ≡ true
  pub target : a.target_set ≡ true
  pub stdout_bio : a.stdout_bio_made ≡ true
  pub connect : a.connected ≡ true
  pub handshake : a.handshake_done ≡ true

-- The settings: one of three protocols, and no proxy or the URI of one.
pub record IsConfigured (flags : Flags) : Type 0 where
  pub protocol :
      (flags.protocol ≡ codes "sslv23")
      ⊎ ((flags.protocol ≡ codes "sslv3") ⊎ (flags.protocol ≡ codes "tlsv1"))
  pub proxy :
      (flags.proxy ≡ none)
      ⊎ ((scheme : Bytes) × (host : Bytes) × (port : Bytes) × (flags.proxy
            ≡ some (uri scheme host port))
          × IsValid scheme host port)

-- A call of the callback does not look at the time, or one in range.
abbrev pub Fine : ℕ → Info → Type 0
Fine recent i = (is_hello i ≡ false) ⊎ ((recent < i.server_time) × (i.server_time < 1999991337))

-- The time at which the certificate is to be verified: with `leapaway` a day after the server's.
abbrev pub verify_time : Answers → Flags → Option ℕ
verify_time a flags = if flags.leap then some (a.server_random + 86400) else none

-- With `leapaway`, the server's time is in range in every hello, and the last one has the time that the
-- library read; with verification, there is a container and the server is trusted; its key is safe.
pub record IsGood (recent : ℕ) (a : Answers) (flags : Flags) : Type 0 where
  pub times : (flags.leap ≡ false) ⊎ (All (Fine recent) a.infos × LastHello a.infos a.server_random)
  pub trusted :
      (flags.ca_racket ≡ false)
      ⊎ (((a.container ≡ some FileKind.regular) ⊎ (a.container ≡ some FileKind.directory))
          × Trusted a flags.host (verify_time a flags))
  pub safe : HasSafeKey a

fine_call :
    (recent : ℕ) (i : Info) (start : Option ℕ)
    → Fine recent i
    → (f : Option ℕ) × (openssl_time_callback recent i start ≡ some f)
unfolding openssl_time_callback
fine_call recent i start (inl quiet) = (start, rw (openssl_time_callback, quiet) refl)
fine_call recent i start (inr (lo, hi)) = elim (Bool-cases (is_hello i)) [
  | inr quiet ↦ (start, rw (openssl_time_callback, quiet) refl)
  | inl looks ↦
      let low : ltb recent i.server_time ≡ true = ground arith in
      let high : ltb i.server_time max_reasonable_time ≡ true = ground arith in
      (some (i.server_time + 86400), rw (openssl_time_callback, looks, low, high) refl)
]

fine_calls :
    (recent : ℕ) (infos : List Info) (start : Option ℕ)
    → All (Fine recent) infos
    → (f : Option ℕ) × (info_callbacks recent infos start ≡ some f)
unfolding info_callbacks
fine_calls recent [] start h = (start, refl)
fine_calls recent (i ∷ rest) start h =
    let (f, e) = fine_call recent i start h.0 in
    let (g, k) = fine_calls recent rest f h.1 in (g, rw (info_callbacks, e) k)

frozen_at :
    (recent : ℕ) (a : Answers) (flags : Flags)
    → (flags.leap ≡ false) ⊎ (All (Fine recent) a.infos × LastHello a.infos a.server_random)
    → (if flags.leap then info_callbacks recent a.infos none else some none)
      ≡ some (verify_time a flags)
frozen_at recent a flags (inl e) = rw (e) refl
frozen_at recent a flags (inr (fine, last)) = elim (Bool-cases flags.leap) [
  | inr e ↦ rw (e) refl
  | inl e ↦
      let (f, calls) = fine_calls recent a.infos none fine in
      let (lo, hi, at_hello) =
        info_callbacks-hello recent last.before last.hello last.after none f last.looks
          last.no_more_hellos (rw (last.split) at calls) in
      let frozen : f ≡ some (a.server_random + 86400) = rw (last.its_time) at at_hello in
      rw (e, calls, frozen) refl
]

protocol_known : (flags : Flags) → IsConfigured flags → known_protocol flags.protocol ≡ true
protocol_known flags v = elim v.protocol [
  | inl e ↦ rw (e) refl
  | inr (inl e) ↦ rw (e) refl
  | inr (inr e) ↦ rw (e) refl
]

bio_made :
    (a : Answers) (flags : Flags) → Works a → IsConfigured flags → make_ssl_bio a flags ≡ true
unfolding make_ssl_bio setup_proxy
bio_made a flags w v = elim v.proxy [
  | inl e ↦ rw (make_ssl_bio, w.connect_bio, w.ssl_bio, e) refl
  | inr (scheme, host, port, e, valid) ↦
      let parsed = (parse_proxy_uri_iff (uri scheme host port) scheme host port).1 (refl, valid) in
      rw (make_ssl_bio, w.connect_bio, w.ssl_bio, e, setup_proxy, parsed) refl
]

Trusted-inspect_key :
    (a : Answers) (host : Bytes) (frozen : Option ℕ)
    → Trusted a host frozen
    → inspect_key a.certificate (a.verify_result frozen) host ≡ true
unfolding inspect_key
Trusted-inspect_key a host frozen t =
    let named = (check_name_iff a.certificate host).1 (t.cert, t.is_cert, t.named) in
    rw (inspect_key, named, t.verified, t.is_cert) refl

container_loads :
    (a : Answers)
    → (a.container ≡ some FileKind.regular) ⊎ (a.container ≡ some FileKind.directory)
    → load_container a ≡ true
container_loads a (inl e) = rw (e) refl
container_loads a (inr e) = rw (e) refl

unless_passes : (b c : Bool) → (b ≡ false) ⊎ (c ≡ true) → (not b || c) ≡ true
unless_passes b c h = ground arith

module _ {S : Type 0} (bio : Bio S) (recent : ℕ) (user_agent : Bytes) (a : Answers)
    (flags : Flags) where
  -- Where the calls of the library succeed, the protocol is one of the three, the proxy, if there is one,
  -- has a URI of the right form, with `leapaway` the server's hellos have times in range and the last one
  -- the time that the library read, the key is safe, and, where the certificate is verified, the
  -- container is a file or a directory and the certificate trusted at the time at which it is verified:
  -- `run_ssl` without HTTP leaves the server's time, and sends and reads no byte of its own.
  pub run_ssl_succeeds :
      (s : S)
      → flags.http ≡ false
      → Works a
      → IsConfigured flags
      → IsGood recent a flags
      → run_ssl bio recent user_agent a flags s ≡ next a.server_random s
  unfolding run_ssl
  run_ssl_succeeds s n w v g =
      let frozen = frozen_at recent a flags g.times in
      let loads =
        unless_passes flags.ca_racket (load_container a)
          (elim g.trusted [ inl e ↦ inl e | inr (c, t) ↦ inr (container_loads a c) ]) in
      let passes =
        unless_passes flags.ca_racket
          (inspect_key a.certificate (a.verify_result (verify_time a flags)) flags.host)
          (elim g.trusted [
            | inl e ↦ inl e
            | inr (c, t) ↦ inr (Trusted-inspect_key a flags.host (verify_time a flags) t)
          ]) in
      let key = (check_key_length_iff a.certificate).1 g.safe in
      simp
        (
          protocol_known flags v,
          w.ctx,
          loads,
          bio_made a flags w v,
          w.ssl,
          w.target,
          w.stdout_bio,
          w.connect,
          frozen,
          w.handshake,
          n,
          passes,
          key,
        )
        refl
