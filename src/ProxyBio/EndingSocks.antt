-- ===== src/ProxyBio/EndingSocks.antt =====
-- src/proxy-bio.c: the handshakes end, each with a result.
use tlsdate.Base.{
  ℕ, zero, suc, ◌+◌, ◌-◌, ◌≤◌, min, leb, ◌==◌, Bytes, length, arith, Bool-cases, inl, inr,
}
use tlsdate.Base.Int.{pos_part, is_positive, pos_part-pos}
use tlsdate.Bio.Runs.{Runs, Runs-then_step, Runs-send, Runs-receive, Runs-require}
use tlsdate.Bio.{Bio, IsBio, require, send, receive, short_result, zero_result}
use tlsdate.ProxyBio.{
  byte_at, socks4a_packet, socks5_hello, socks5_packet, socks5_ok, socks4a_connect, skip_loop,
  skip_address, socks5_connect,
}

module _ {S : Type 0} (bio : Bio S) (laws : IsBio bio) where
  skip_loop-Runs : (fuel len : ℕ) (s : S) → len ≤ fuel → Runs (skip_loop bio fuel len s)
  unfolding skip_loop
  skip_loop-Runs fuel zero s enough = λ why h. cc
  skip_loop-Runs zero (suc len) s enough = absurd (omega arith)
  skip_loop-Runs (suc fuel) (suc len) s enough =
      let r = bio.bio_read s (min (suc len) 1041) in
      elim (Bool-cases (is_positive r.0.0)) [
        | inr e ↦ rw (skip_loop, e) (λ why h. cc)
        | inl e ↦
            let more = pos_part-pos r.0.0 e in
            rw (skip_loop, e)
              (skip_loop-Runs fuel (suc len - min (suc len) (pos_part r.0.0)) r.1 (omega arith))
      ]

  skip_address-Runs : (type : ℕ) (s : S) → Runs (skip_address bio type s)
  unfolding skip_address
  skip_address-Runs type s = elim (Bool-cases (type == 3)) [
    | inl e ↦
        rw (skip_address, e)
          (Runs-then_step (receive bio zero_result 1 s) _ (Runs-receive bio _ _ _)
            (λ got t h. skip_loop-Runs (byte_at got 0 + 2) (byte_at got 0 + 2) t (omega arith)))
    | inr e ↦ elim (Bool-cases (type == 1)) [
      | inl f ↦
          rw (skip_address, e, f)
            (Runs-then_step (receive bio zero_result 6 s) _ (Runs-receive bio _ _ _)
              (λ got t h why k. cc))
      | inr f ↦ rw (skip_address, e, f) (λ why h. cc)
    ]
  ]

  pub socks5_connect-Runs :
      (host : Bytes) (port : ℕ) (s : S) → Runs (socks5_connect bio host port s)
  unfolding socks5_connect
  socks5_connect-Runs host port s =
      Runs-then_step (require (leb (length host) 255) s) _ (Runs-require _ s) (λ u s1 e1.
        Runs-then_step (send bio zero_result socks5_hello s1) _ (Runs-send bio _ _ _) (λ u s2 e2.
          Runs-then_step (receive bio zero_result 2 s2) _ (Runs-receive bio _ _ _) (λ auth s3 e3.
            Runs-then_step (require (socks5_ok auth) s3) _ (Runs-require _ s3) (λ u s4 e4.
              Runs-then_step (send bio short_result (socks5_packet host port) s4) _
                (Runs-send bio _ _ _)
                (λ u s5 e5.
                  Runs-then_step (receive bio short_result 4 s5) _ (Runs-receive bio _ _ _)
                    (λ reply s6 e6.
                      Runs-then_step (require (socks5_ok reply) s6) _ (Runs-require _ s6)
                        (λ u s7 e7. skip_address-Runs (byte_at reply 3) s7)))))))

  pub socks4a_connect-Runs :
      (host : Bytes) (port : ℕ) (s : S) → Runs (socks4a_connect bio host port s)
  unfolding socks4a_connect
  socks4a_connect-Runs host port s =
      Runs-then_step (send bio short_result (socks4a_packet host port) s) _ (Runs-send bio _ _ _)
        (λ u s2 e2.
          Runs-then_step (receive bio short_result 8 s2) _ (Runs-receive bio _ _ _)
            (λ reply s3 e3. Runs-require (byte_at reply 1 == 90) s3))
