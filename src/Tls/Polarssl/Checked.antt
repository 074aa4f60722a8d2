-- ===== src/Tls/Polarssl/Checked.antt =====
-- src/tlsdate-helper.c: what is known where `run_ssl` for PolarSSL leaves a time.
use tlsdate.Base.{
  ℕ, ◌≤◌, ◌<◌, ◌≡◌, ◌⊎◌, inl, inr, refl, true, false, not, ◌||◌, Option, none, some, ltb→lt, arith,
}
use tlsdate.Base.Int.{pos}
use tlsdate.Bio.{Bio, next}
use tlsdate.Helper.Main.{Flags, max_reasonable_time}
use tlsdate.Tls.Polarssl.{
  Verify, polar_verify, polar_check_key_length, check_timestamp, PolarAnswers, timestamp_of,
  polar_container, ssl_do_handshake_part, handshake_loop, polar_tunnel, polar_run_ssl,
}
use tlsdate.Tls.Trust.{Yields, Yields-then_step, Yields-demand, unless, and_parts}

-- The library found nothing wrong.
pub record Flawless (v : Verify) : Type 0 where
  pub not_expired : v.expired ≡ false
  pub not_revoked : v.revoked ≡ false
  pub name_matched : v.cn_mismatch ≡ false
  pub trusted : v.not_trusted ≡ false
  pub no_error : v.value ≡ pos 0

polar_verify-Flawless : (v : Verify) → polar_verify v ≡ true → Flawless v
polar_verify-Flawless v h = record {
  not_expired = ground arith;
  not_revoked = ground arith;
  name_matched = ground arith;
  trusted = ground arith;
  no_error = ground arith;
}

long_key :
    (key_bits : Option ℕ)
    → polar_check_key_length key_bits ≡ true
    → (n : ℕ) × (key_bits ≡ some n) × (1024 ≤ n)
long_key none h = absurd (ground arith)
long_key (some n) h = (n, refl, ground arith)

module _ {S : Type 0} (bio : Bio S) (recent fuel : ℕ) (a : PolarAnswers) (flags : Flags) where
  -- The time is that of the hello, in range; the key is long enough; and where it verifies, the library
  -- found nothing wrong.
  abbrev pub PolarChecked : ℕ → Type 0
  PolarChecked t =
      (t ≡ timestamp_of a.hello_time)
      × (recent < t)
      × (t < max_reasonable_time)
      × ((flags.ca_racket ≡ false) ⊎ Flawless a.verify)
      × ((n : ℕ) × (a.key_bits ≡ some n) × (1024 ≤ n))

  flawless :
      (flags.ca_racket ≡ false) ⊎ (polar_verify a.verify ≡ true)
      → (flags.ca_racket ≡ false) ⊎ Flawless a.verify
  flawless (inl e) = inl e
  flawless (inr e) = inr (polar_verify-Flawless a.verify e)

  -- Where `run_ssl` leaves a time, it is the one of the server's hello and lies strictly between the
  -- build and the last reasonable time, with or without `leapaway` and HTTP; the key has 1024 bits at
  -- least; and where it verifies, the certificate has not expired, was not revoked, names the host and
  -- is trusted.
  pub polar_run_ssl-PolarChecked :
      (s : S) → Yields PolarChecked (polar_run_ssl bio recent fuel a flags s)
  unfolding polar_run_ssl
  polar_run_ssl-PolarChecked s =
      let D = Yields-demand {S = S} PolarChecked in
      D (not flags.ca_racket || polar_container a) s _ (λ e. D a.rng_ready s _ (λ e.
        D a.ssl_ready s _ (λ e.
          Yields-then_step PolarChecked (polar_tunnel bio recent fuel a flags s) _ (λ u t e.
            D (ssl_do_handshake_part a.steps a.hello) t _ (λ e.
              D (check_timestamp recent (timestamp_of a.hello_time)) t _ (λ et.
                Yields-then_step PolarChecked (handshake_loop a.rounds t) _ (λ u t e.
                  D (not flags.ca_racket || polar_verify a.verify) t _ (λ ev.
                    D (polar_check_key_length a.key_bits) t (next (timestamp_of a.hello_time))
                      (λ ek.
                        let (lo, hi) = and_parts _ _ et in
                        (
                          refl,
                          ltb→lt _ _ lo,
                          ltb→lt _ _ hi,
                          flawless (unless _ _ ev),
                          long_key a.key_bits ek,
                        ))))))))))
