-- ===== src/ProxyBio/EndingHttp.antt =====
-- src/proxy-bio.c: the handshakes end, each with a result.
use tlsdate.Base.{
  ℕ, zero, suc, ◌+◌, ◌≤◌, ◌<◌, [], ◌∷◌, Bytes, codes, str_eq, length, take, length-append, arith,
  Bool-cases, Option-cases, inl, inr,
}
use tlsdate.Bio.Runs.{Runs, Runs-then_step, Runs-send, Runs-require}
use tlsdate.Bio.{send, Bio, Moved, IsBio, require, short_result}
use tlsdate.ProxyBio.{
  connect_line, host_line, is_success, sock_gets, get_line, header_loop, http_connect,
}
use tlsdate.ProxyBio.Http.{IsLine, get_line-LineRead}

module _ {S : Type 0} (bio : Bio S) (laws : IsBio bio) where
  -- The bytes that were received grow with each line.
  longer :
      (s t : S) (l : Bytes)
      → Moved bio s [] l t
      → IsLine l
      → length (bio.received s) < length (bio.received t)
  longer s t [] m is = absurd is
  longer s t (c ∷ l) m is = rw (m.1) (omega (arith, length-append (bio.received s) (c ∷ l)))

  get_line-Runs : (s : S) → Runs (get_line bio s)
  unfolding get_line
  get_line-Runs s = elim (Option-cases (sock_gets bio 4095 s).0) [
    | inl e ↦ rw (get_line, e) (λ why h. cc)
    | inr (l, e) ↦ rw (get_line, e) (λ why h. cc)
  ]

  module _ (limit : ℕ) (ends : (s : S) → length (bio.received s) ≤ limit) where
    header_loop-Runs :
        (fuel : ℕ) (s : S) → limit < fuel + length (bio.received s) → Runs (header_loop bio fuel s)
    unfolding header_loop
    header_loop-Runs zero s enough = absurd (omega (arith, ends s))
    header_loop-Runs (suc fuel) s enough =
        Runs-then_step (get_line bio s) _ (get_line-Runs s) (λ text t e.
          let (l, m, is, same) = get_line-LineRead bio laws s text t e in
          elim (Bool-cases (str_eq text (codes "\r\n"))) [
            | inl f ↦ rw (f) (λ why h. cc)
            | inr f ↦ rw (f) (header_loop-Runs fuel t (omega (arith, longer s t l m is)))
          ])

    pub http_connect-Runs :
        (fuel : ℕ) (host : Bytes) (port : ℕ) (s : S)
        → limit < fuel
        → Runs (http_connect bio fuel host port s)
    unfolding http_connect
    http_connect-Runs fuel host port s enough =
        Runs-then_step (send bio short_result (take 4095 (connect_line host port)) s) _
          (Runs-send bio _ _ _)
          (λ u s2 e2.
            Runs-then_step (send bio short_result (take 4095 (host_line host port)) s2) _
              (Runs-send bio _ _ _)
              (λ u s3 e3.
                Runs-then_step (send bio short_result (codes "\r\n") s3) _ (Runs-send bio _ _ _)
                  (λ u s4 e4. Runs-then_step (get_line bio s4) _ (get_line-Runs s4) (λ text s5 e5.
                    Runs-then_step (require (is_success text) s5) _
                      (Runs-require (is_success text) s5)
                      (λ u s6 e6. header_loop-Runs fuel s6 (omega arith))))))
