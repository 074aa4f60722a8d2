-- ===== src/ProxyPolarssl/Equivalence.antt =====
-- src/proxy-polarssl.c beside src/proxy-bio.c: the handshakes are the same but for the result of a failure,
-- and what follows them is not.
use tlsdate.Base.{
  ◌<◌, ℕ, zero, suc, ◌+◌, ◌-◌, min, inl, inr, Bool-cases, Option-cases, str_eq, arith, ◌≡◌, refl,
  ◌∙◌, ap, sym, ltb, leb, ◌==◌, Bool, true, false, some, Bytes, codes, take, length, if◌then◌else◌,
}
use tlsdate.Base.Int.{ℤ, pos, pos_part, is_positive, is_count}
use tlsdate.Bio.{
  Bio, Step, next, returned, fault, then_step, require, send, receive, zero_result, short_result,
}
use tlsdate.ProxyBio.{
  ProxyCtx, Kind, socks4a, socks5, http, run_connect, proxy_write, after_connect, socks4a_connect,
  socks5_connect, http_connect, skip_loop, skip_address, get_line, sock_gets, header_loop, byte_at,
  socks4a_packet, socks5_hello, socks5_packet, socks5_ok, is_success, connect_line, host_line, done,
}
use tlsdate.ProxyPolarssl.{
  polar_socks4a, polar_socks5, polar_http, polar_connect, polar_after, polar_send,
}

module _ {S A : Type 0} where
  -- A result of failure is 0.
  abbrev pub as_zero : Step S A → Step S A
  as_zero (next a s) = next a s
  as_zero (returned r s) = returned (pos 0) s
  as_zero (fault why) = fault why

module _ {S A B : Type 0} where
  as_zero-then_step :
      (m n : Step S A) (f g : A → S → Step S B)
      → as_zero m ≡ n
      → ((a : A) (s : S) → as_zero (f a s) ≡ g a s)
      → as_zero (then_step m f) ≡ then_step n g
  as_zero-then_step (next a s) n f g h k = k a s ∙ ap (λ m. then_step m g) h
  as_zero-then_step (returned r s) n f g h k = ap (λ m. then_step m g) h
  as_zero-then_step (fault why) n f g h k = ap (λ m. then_step m g) h

module _ {S : Type 0} where
  as_zero-if :
      {A : Type 0} (b : Bool) (a : A) (s t : S) (r : ℤ)
      → as_zero (if b then next a s else returned r t)
        ≡ (if b then next a s else returned (pos 0) t)
  as_zero-if true a s t r = refl
  as_zero-if false a s t r = refl

  as_zero-require : (b : Bool) (s : S) → as_zero (require b s) ≡ require b s
  as_zero-require true s = refl
  as_zero-require false s = refl

module _ {S : Type 0} (bio : Bio S) where
  as_zero-send :
      (result : ℤ → ℤ) (packet : Bytes) (s : S)
      → as_zero (send bio result packet s) ≡ send bio zero_result packet s
  unfolding send
  as_zero-send result packet s =
      let w = bio.bio_write s packet in
      as_zero-if (is_count w.0 (length packet)) tt w.1 w.1 (result w.0)

  as_zero-receive :
      (result : ℤ → ℤ) (n : ℕ) (s : S)
      → as_zero (receive bio result n s) ≡ receive bio zero_result n s
  unfolding receive
  as_zero-receive result n s =
      let r = bio.bio_read s n in as_zero-if (is_count r.0.0 n) r.0.1 r.1 r.1 (result r.0.0)

  as_zero-skip_loop :
      (fuel len : ℕ) (s : S) → as_zero (skip_loop bio fuel len s) ≡ skip_loop bio fuel len s
  unfolding skip_loop
  as_zero-skip_loop fuel zero s = refl
  as_zero-skip_loop zero (suc len) s = refl
  as_zero-skip_loop (suc fuel) (suc len) s =
      let r = bio.bio_read s (min (suc len) 1041) in
      elim (Bool-cases (is_positive r.0.0)) [
        | inl e ↦
            rw (skip_loop, e)
              (as_zero-skip_loop fuel (suc len - min (suc len) (pos_part r.0.0)) r.1)
        | inr e ↦ rw (skip_loop, e) refl
      ]

  as_zero-skip_address :
      (type : ℕ) (s : S) → as_zero (skip_address bio type s) ≡ skip_address bio type s
  unfolding skip_address
  as_zero-skip_address type s = elim (Bool-cases (type == 3)) [
    | inl e ↦
        rw (skip_address, e)
          (as_zero-then_step (receive bio zero_result 1 s) _ _ _ (as_zero-receive zero_result 1 s)
            (λ len t. as_zero-skip_loop (byte_at len 0 + 2) (byte_at len 0 + 2) t))
    | inr e ↦ elim (Bool-cases (type == 1)) [
      | inl f ↦
          rw (skip_address, e, f)
            (as_zero-then_step (receive bio zero_result 6 s) _ _ _ (as_zero-receive zero_result 6 s)
              (λ a t. refl))
      | inr f ↦ rw (skip_address, e, f) refl
    ]
  ]

  as_zero-get_line : (s : S) → as_zero (get_line bio s) ≡ get_line bio s
  unfolding get_line
  as_zero-get_line s = elim (Option-cases (sock_gets bio 4095 s).0) [
    | inl e ↦ rw (get_line, e) refl
    | inr (l, e) ↦ rw (get_line, e) refl
  ]

  as_zero-header_loop :
      (fuel : ℕ) (s : S) → as_zero (header_loop bio fuel s) ≡ header_loop bio fuel s
  unfolding header_loop
  as_zero-header_loop zero s = refl
  as_zero-header_loop (suc fuel) s =
      as_zero-then_step (get_line bio s) _ _ _ (as_zero-get_line s) (λ line t.
        elim (Bool-cases (str_eq line (codes "\r\n"))) [
          | inl e ↦ rw (e) refl
          | inr e ↦ rw (e) (as_zero-header_loop fuel t)
        ])

  polar_socks4a-as_zero :
      (host : Bytes) (port : ℕ) (s : S)
      → as_zero (socks4a_connect bio host port s) ≡ polar_socks4a bio host port s
  unfolding socks4a_connect polar_socks4a
  polar_socks4a-as_zero host port s =
      as_zero-then_step (send bio short_result (socks4a_packet host port) s) _ _ _
        (as_zero-send short_result (socks4a_packet host port) s)
        (λ u s2.
          as_zero-then_step (receive bio short_result 8 s2) _ _ _
            (as_zero-receive short_result 8 s2)
            (λ reply s3. as_zero-require (byte_at reply 1 == 90) s3))

  polar_socks5-as_zero :
      (host : Bytes) (port : ℕ) (s : S)
      → as_zero (socks5_connect bio host port s) ≡ polar_socks5 bio host port s
  unfolding socks5_connect polar_socks5
  polar_socks5-as_zero host port s =
      as_zero-then_step (require (leb (length host) 255) s) _ _ _
        (as_zero-require (leb (length host) 255) s)
        (λ u s1.
          as_zero-then_step (send bio zero_result socks5_hello s1) _ _ _
            (as_zero-send zero_result socks5_hello s1)
            (λ u s2.
              as_zero-then_step (receive bio zero_result 2 s2) _ _ _
                (as_zero-receive zero_result 2 s2)
                (λ auth s3.
                  as_zero-then_step (require (socks5_ok auth) s3) _ _ _
                    (as_zero-require (socks5_ok auth) s3)
                    (λ u s4.
                      as_zero-then_step (send bio short_result (socks5_packet host port) s4) _ _ _
                        (as_zero-send short_result (socks5_packet host port) s4)
                        (λ u s5.
                          as_zero-then_step (receive bio short_result 4 s5) _ _ _
                            (as_zero-receive short_result 4 s5)
                            (λ reply s6.
                              as_zero-then_step (require (socks5_ok reply) s6) _ _ _
                                (as_zero-require (socks5_ok reply) s6)
                                (λ u s7. as_zero-skip_address (byte_at reply 3) s7)))))))

  polar_http-as_zero :
      (fuel : ℕ) (host : Bytes) (port : ℕ) (s : S)
      → as_zero (http_connect bio fuel host port s) ≡ polar_http bio fuel host port s
  unfolding http_connect polar_http
  polar_http-as_zero fuel host port s =
      let first = take 4095 (connect_line host port) in
      let second = take 4095 (host_line host port) in
      as_zero-then_step (send bio short_result first s) _ _ _ (as_zero-send short_result first s)
        (λ u s2.
          as_zero-then_step (send bio short_result second s2) _ _ _
            (as_zero-send short_result second s2)
            (λ u s3.
              as_zero-then_step (send bio short_result (codes "\r\n") s3) _ _ _
                (as_zero-send short_result (codes "\r\n") s3)
                (λ u s4.
                  as_zero-then_step (get_line bio s4) _ _ _ (as_zero-get_line s4) (λ status s5.
                    as_zero-then_step (require (is_success status) s5) _ _ _
                      (as_zero-require (is_success status) s5)
                      (λ u s6. as_zero-header_loop fuel s6)))))

  by_kind :
      (fuel : ℕ) (kind : Kind) (host : Bytes) (port : ℕ) (s : S)
      → (elim kind [
        | socks4a ↦ polar_socks4a bio host port s
        | socks5 ↦ polar_socks5 bio host port s
        | http ↦ polar_http bio fuel host port s
      ])
        ≡ as_zero (elim kind [
          | socks4a ↦ socks4a_connect bio host port s
          | socks5 ↦ socks5_connect bio host port s
          | http ↦ http_connect bio fuel host port s
        ])
  by_kind fuel socks4a host port s = sym (polar_socks4a-as_zero host port s)
  by_kind fuel socks5 host port s = sym (polar_socks5-as_zero host port s)
  by_kind fuel http host port s = sym (polar_http-as_zero fuel host port s)

  -- For each context, the handshake over PolarSSL's callbacks does what that of proxy-bio.c does over a
  -- BIO, byte for byte, and has the same result, but that 0 stands where that returns -1.
  pub polar_connect-as_zero :
      (fuel : ℕ) (ctx : ProxyCtx) (s : S)
      → polar_connect bio fuel ctx s ≡ as_zero (run_connect bio fuel ctx s)
  unfolding polar_connect run_connect
  polar_connect-as_zero fuel ctx s = elim (Option-cases ctx.connect) [
    | inl k ↦ rw (polar_connect, run_connect, k) refl
    | inr (kind, k) ↦ elim (Option-cases ctx.host) [
      | inl h ↦ rw (polar_connect, run_connect, k, h) refl
      | inr (host, h) ↦ rw (polar_connect, run_connect, k, h) (by_kind fuel kind host ctx.port s)
    ]
  ]

  -- After one and the same handshake that succeeds, proxy_write passes a buffer that is not empty on to the
  -- next BIO, and proxy_polarssl_send takes the 1 of the handshake for its own result: it returns 1, as if
  -- a byte had been sent, and sends nothing.
  pub polar_send-unsent :
      (fuel : ℕ) (ctx : ProxyCtx) (s t : S) (bytes : Bytes)
      → ctx.connected ≡ false
      → 0 < length bytes
      → run_connect bio fuel ctx s ≡ next tt t
      → (proxy_write bio fuel ctx (some s) bytes
          ≡ some (
              done
                (bio.bio_write t bytes).0
                (record ctx { connected = true })
                (bio.bio_write t bytes).1))
        × (polar_send bio fuel ctx s bytes ≡ done (pos 1) (record ctx { connected = true }) t)
  unfolding polar_send polar_after proxy_write after_connect
  polar_send-unsent fuel ctx s t bytes c l e =
      let some_bytes : ltb 0 (length bytes) ≡ true = ground arith in
      let same : polar_connect bio fuel ctx s ≡ next tt t =
        polar_connect-as_zero fuel ctx s ∙ ap as_zero e in
      (simp (proxy_write, after_connect, some_bytes, c, e), simp (polar_send, polar_after, c, same))
