-- ===== src/Tls/Trust.antt =====
-- src/tlsdate-helper.c: what is known where `run_ssl` for OpenSSL leaves a time.
use tlsdate.Base.{
  ℕ, ◌≡◌, ◌⊎◌, inl, inr, refl, Bool, true, false, not, ◌&&◌, ◌||◌, Option, none, some, Bytes,
  if◌then◌else◌, arith, Bool-cases,
}
use tlsdate.Bio.{Bio, Step, next, returned, fault, then_step}
use tlsdate.Helper.Main.{Flags}
use tlsdate.Tls.Keys.{SafeKey, check_key_length_iff}
use tlsdate.Tls.Names.{Names, check_name_iff}
use tlsdate.Tls.Openssl.{
  info_callbacks, Answers, known_protocol, load_container, make_ssl_bio, demand, demand_some,
  http_date, run_ssl,
}
use tlsdate.Tls.{Certificate, Key, VerifyResult, verify_signature, inspect_key, check_key_length}

-- If the step gives a result, it has P.
abbrev pub Yields : {S A : Type 0} → (A → Type 0) → Step S A → Type 0
Yields P (next a s) = P a
Yields P (returned r s) = Unit
Yields P (fault why) = Unit

-- The certificate was verified, at the given time, and names the host.
pub record Trusted (a : Answers) (hostname : Bytes) (frozen : Option ℕ) : Type 0 where
  pub cert : Certificate
  pub is_cert : a.certificate ≡ some cert
  pub verified : a.verify_result frozen ≡ VerifyResult.x509_v_ok
  pub named : Names hostname cert

abbrev pub HasSafeKey : Answers → Type 0
HasSafeKey a =
    (cert : Certificate) × (key : Key) × (a.certificate ≡ some cert)
    × (cert.public_key ≡ some key)
    × SafeKey key

verified_by :
    (cert : Option Certificate) (r : VerifyResult)
    → verify_signature cert r ≡ true
    → r ≡ VerifyResult.x509_v_ok
verified_by none r h = cc
verified_by (some c) VerifyResult.x509_v_ok h = refl
verified_by (some c) VerifyResult.depth_zero_self_signed_cert h = cc
verified_by (some c) VerifyResult.self_signed_cert_in_chain h = cc
verified_by (some c) (VerifyResult.another n) h = cc

pub and_parts : (a b : Bool) → (a && b) ≡ true → (a ≡ true) × (b ≡ true)
and_parts a b h = ground arith

inspect_key-Trusted :
    (a : Answers) (hostname : Bytes) (frozen : Option ℕ)
    → inspect_key a.certificate (a.verify_result frozen) hostname ≡ true
    → Trusted a hostname frozen
unfolding inspect_key
inspect_key-Trusted a hostname frozen h =
    let (v, n) = and_parts _ _ h in
    let (c, e, names) = (check_name_iff a.certificate hostname).0 n in
    record {
      cert = c;
      is_cert = e;
      verified = verified_by a.certificate (a.verify_result frozen) v;
      named = names;
    }

-- Which checks are made: the flag is not set, or the test holds.
pub unless : (b c : Bool) → (not b || c) ≡ true → (b ≡ false) ⊎ (c ≡ true)
unless b c h = ground arith

module _ {S A : Type 0} (P : A → Type 0) where
  pub Yields-then_step :
      {B : Type 0} (m : Step S B) (f : B → S → Step S A)
      → ((b : B) (s : S) → m ≡ next b s → Yields P (f b s))
      → Yields P (then_step m f)
  Yields-then_step (next b s) f h = h b s refl
  Yields-then_step (returned r s) f h = tt
  Yields-then_step (fault why) f h = tt

  pub Yields-demand :
      (b : Bool) (s : S) (k : S → Step S A)
      → (b ≡ true → Yields P (k s))
      → Yields P (then_step (demand b s) (λ u. k))
  Yields-demand true s k h = h refl
  Yields-demand false s k h = tt

  pub Yields-demand_some :
      {B : Type 0} (o : Option B) (s : S) (f : B → S → Step S A)
      → ((b : B) → o ≡ some b → Yields P (f b s))
      → Yields P (then_step (demand_some o s) f)
  Yields-demand_some none s f h = tt
  Yields-demand_some (some b) s f h = h b refl

module _ {S : Type 0} (bio : Bio S) (recent : ℕ) (user_agent : Bytes) (a : Answers)
    (flags : Flags) where
  -- The time at which the certificate is verified.
  abbrev pub frozen_time : Option (Option ℕ)
  frozen_time = if flags.leap then info_callbacks recent a.infos none else some none

  -- The time is that of the handshake, or what the part under `if (http)` gave.
  abbrev pub TimeFrom : ℕ → Type 0
  TimeFrom t =
      ((flags.http ≡ false) × (t ≡ a.server_random))
      ⊎ ((flags.http ≡ true)
          × (s : S) × (u : S) × (http_date bio recent user_agent a flags.host s ≡ next t u))

  abbrev pub Passed : ℕ → Type 0
  Passed t =
      (frozen : Option ℕ) × (frozen_time ≡ some frozen)
      × TimeFrom t
      × ((flags.ca_racket ≡ false) ⊎ Trusted a flags.host frozen)
      × HasSafeKey a

  time_from :
      (s u : S) (t : ℕ)
      → (if flags.http then http_date bio recent user_agent a flags.host else next a.server_random)
          s
        ≡ next t u
      → TimeFrom t
  time_from s u t h = elim (Bool-cases flags.http) [
    | inl e ↦ inr (e, s, u, rw e at h)
    | inr e ↦ inl (e, given (rw e at h))
  ]
    where
      given : ◌≡◌ {A = Step S ℕ} (next a.server_random s) (next t u) → t ≡ a.server_random
      given k = cc

  trusted :
      (frozen : Option ℕ)
      → (flags.ca_racket ≡ false)
        ⊎ (inspect_key a.certificate (a.verify_result frozen) flags.host ≡ true)
      → (flags.ca_racket ≡ false) ⊎ Trusted a flags.host frozen
  trusted frozen (inl e) = inl e
  trusted frozen (inr e) = inr (inspect_key-Trusted a flags.host frozen e)

  -- Where `run_ssl` leaves a time, the server's key is safe, also without verification. Where it
  -- verifies, the library found the certificate good, at the time that the callback froze if there
  -- is one, and the certificate names the host that was asked for, a proxy notwithstanding. Without
  -- HTTP the time is that of the handshake, with HTTP it is what `http_date` gave.
  pub run_ssl-Passed : (s : S) → Yields Passed (run_ssl bio recent user_agent a flags s)
  unfolding run_ssl
  run_ssl-Passed s =
      let D = Yields-demand {S = S} Passed in
      D (known_protocol flags.protocol) s _ (λ e. D a.ctx_made s _ (λ e.
        D (not flags.ca_racket || load_container a) s _ (λ e. D (make_ssl_bio a flags) s _ (λ e.
          D a.ssl_found s _ (λ e. D a.target_set s _ (λ e. D a.stdout_bio_made s _ (λ e.
            D a.connected s _ (λ e. Yields-demand_some Passed frozen_time s _ (λ frozen ef.
              D a.handshake_done s _ (λ e. Yields-then_step Passed _ _ (λ t u et.
                D
                  (not flags.ca_racket
                    || inspect_key a.certificate (a.verify_result frozen) flags.host)
                  u _
                  (λ ei. D (check_key_length a.certificate) u (next t) (λ ek. (
                    frozen,
                    ef,
                    time_from s u t et,
                    trusted frozen (unless _ _ ei),
                    (check_key_length_iff a.certificate).0 ek,
                  ))))))))))))))
