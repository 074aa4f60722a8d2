-- ===== src/Tls/Dated.antt =====
-- src/tlsdate-helper.c: where the time of `run_ssl` comes from with HTTP.
use tlsdate.Base.{ℕ, ◌≡◌, refl, [], some, Bytes, ltb, length}
use tlsdate.Base.Int.{ℤ, is_count}
use tlsdate.Bio.{Bio, IsBio, Moved, Step, next, then_step}
use tlsdate.Helper.Dates.{find_date_line, handle_date_line, read_http_date_from_bio}
use tlsdate.Helper.Reading.{read_http_date_from_bio-Ending, Ending, found, no_more, full}
use tlsdate.Helper.{Parsed, write_all_to_bio}
use tlsdate.Tls.Openssl.{date_read, http_request, http_date, Answers, demand}
use tlsdate.Tls.Trust.{Yields, Yields-then_step, Yields-demand}

module _ {S : Type 0} (bio : Bio S) where
  -- The time is that of the date line in the bytes that came through the BIO.
  abbrev pub Dated : ℕ → Type 0
  Dated t =
      (s : S) × (u : S) × (inn : Bytes) × (line : Bytes) × Moved bio s [] inn u
      × (find_date_line inn ≡ some line)
      × (handle_date_line line ≡ Parsed.parsed t)

  module _ (laws : IsBio bio) where
    parsed-Dated :
        (s u : S) (inn line : Bytes) (p : Parsed)
        → Moved bio s [] inn u
        → find_date_line inn ≡ some line
        → handle_date_line line ≡ p
        → Yields Dated (date_read (next p u))
    parsed-Dated s u inn line Parsed.not_date m e h = tt
    parsed-Dated s u inn line (Parsed.failed n) m e h = tt
    parsed-Dated s u inn line (Parsed.parsed t) m e h = (s, u, inn, line, m, e, h)

    Ending-Dated : (s : S) (m : Step S Parsed) → Ending bio s [] m → Yields Dated (date_read m)
    Ending-Dated s _ (found t inn line mv l e) =
        parsed-Dated s t inn line (handle_date_line line) mv e refl
    Ending-Dated s _ (no_more u t inn mu mv l e z r) = tt
    Ending-Dated s _ (full t inn mv l e) = tt

    http_date-Yields :
        (recent : ℕ) (user_agent hostname : Bytes) (a : Answers) (s : S)
        → Yields Dated (http_date bio recent user_agent a hostname s)
    unfolding http_date
    http_date-Yields recent user_agent hostname a s =
        let request = http_request user_agent hostname in
        let answer : S → Step S ℕ = λ v. date_read (read_http_date_from_bio bio v) in
        let checked : ℤ → S → Step S ℕ =
          λ sent u. then_step (demand (is_count sent 1) u) (λ w. answer) in
        Yields-demand Dated (ltb (length request) 1024) s _ (λ e.
          Yields-then_step Dated (write_all_to_bio bio request s) checked (λ sent u e.
            Yields-demand Dated (is_count sent 1) u answer
              (λ e. Ending-Dated u _ (read_http_date_from_bio-Ending bio laws u))))

    -- What the part under `if (http)` gives is dated.
    pub http_date-Dated :
        (recent : ℕ) (user_agent hostname : Bytes) (a : Answers) (s u : S) (t : ℕ)
        → http_date bio recent user_agent a hostname s ≡ next t u
        → Dated t
    http_date-Dated recent user_agent hostname a s u t e =
        rw e at (http_date-Yields recent user_agent hostname a s)
