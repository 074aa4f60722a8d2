-- ===== src/Tls/Returns.antt =====
-- src/tlsdate-helper.c: `run_ssl` returns or dies.
use tlsdate.Base.{
  ℕ, Bool, true, false, not, ◌||◌, [], Option, none, some, Bytes, ltb, length, if◌then◌else◌,
}
use tlsdate.Base.Int.{ℤ, is_count}
use tlsdate.Bio.{Bio, IsBio, Step, next, then_step}
use tlsdate.Bio.Runs.{Runs, Runs-then_step}
use tlsdate.Helper.Dates.{handle_date_line}
use tlsdate.Helper.Main.{Flags}
use tlsdate.Helper.Reading.{read_http_date_from_bio-Ending, Ending, found, no_more, full}
use tlsdate.Helper.Writing.{WroteAll, whole, part, write_all_to_bio-WroteAll}
use tlsdate.Helper.{Parsed}
use tlsdate.Tls.Openssl.{
  info_callbacks, Answers, known_protocol, load_container, make_ssl_bio, demand, demand_some,
  date_read, http_request, http_date, run_ssl,
}
use tlsdate.Tls.{inspect_key, check_key_length}

module _ {S : Type 0} (bio : Bio S) (laws : IsBio bio) where
  Runs-demand : (b : Bool) (s : S) → Runs (demand b s)
  Runs-demand true s why h = cc
  Runs-demand false s why h = cc

  Runs-demand_some : {A : Type 0} (o : Option A) (s : S) → Runs (demand_some o s)
  Runs-demand_some none s why h = cc
  Runs-demand_some (some x) s why h = cc

  wrote-Runs : (string : Bytes) (s : S) (m : Step S ℤ) → WroteAll bio s string m → Runs m
  wrote-Runs string s _ (whole t mv) why h = cc
  wrote-Runs string s _ (part t front rest e l mv) why h = cc

  date-Runs : (p : Parsed) (t : S) → Runs (date_read (next p t))
  date-Runs Parsed.not_date t why h = cc
  date-Runs (Parsed.failed n) t why h = cc
  date-Runs (Parsed.parsed n) t why h = cc

  read-Runs : (s : S) (m : Step S Parsed) → Ending bio s [] m → Runs (date_read m)
  read-Runs s _ (found t inn line mv l e) = date-Runs (handle_date_line line) t
  read-Runs s _ (no_more u t inn mu mv l e z r) = λ why h. cc
  read-Runs s _ (full t inn mv l e) = λ why h. cc

  then_demand :
      {A : Type 0} (b : Bool) (s : S) (k : S → Step S A)
      → ((t : S) → Runs (k t))
      → Runs (then_step (demand b s) (λ u. k))
  then_demand b s k r = Runs-then_step (demand b s) (λ u. k) (Runs-demand b s) (λ u t e. r t)

  http_date-Runs :
      (user_agent hostname : Bytes) (recent : ℕ) (a : Answers) (s : S)
      → Runs (http_date bio recent user_agent a hostname s)
  unfolding http_date
  http_date-Runs user_agent hostname recent a s =
      let request = http_request user_agent hostname in
      then_demand (ltb (length request) 1024) s _ (λ t.
        Runs-then_step _ _ (wrote-Runs request t _ (write_all_to_bio-WroteAll bio laws request t))
          (λ sent u e.
            then_demand (is_count sent 1) u _
              (λ v. read-Runs v _ (read_http_date_from_bio-Ending bio laws v))))

  time-Runs :
      (b : Bool) (n : ℕ) (m : S → Step S ℕ)
      → ((s : S) → Runs (m s))
      → (s : S) → Runs ((if b then m else next n) s)
  time-Runs true n m h s = h s
  time-Runs false n m h s = λ why e. cc

  -- `run_ssl` leaves a time or dies, whatever goes through the connection: no loop runs out of its
  -- rounds.
  pub run_ssl-Runs :
      (recent : ℕ) (user_agent : Bytes) (a : Answers) (flags : Flags) (s : S)
      → Runs (run_ssl bio recent user_agent a flags s)
  unfolding run_ssl
  run_ssl-Runs recent user_agent a flags s = then_demand (known_protocol flags.protocol) s _ (λ s.
      then_demand a.ctx_made s _ (λ s.
        then_demand (not flags.ca_racket || load_container a) s _ (λ s.
          then_demand (make_ssl_bio a flags) s _ (λ s. then_demand a.ssl_found s _ (λ s.
            then_demand a.target_set s _ (λ s. then_demand a.stdout_bio_made s _ (λ s.
              then_demand a.connected s _ (λ s.
                Runs-then_step _ _
                  (Runs-demand_some
                    (if flags.leap then info_callbacks recent a.infos none else some none) s)
                  (λ frozen s e. then_demand a.handshake_done s _ (λ s.
                    Runs-then_step _ _
                      (time-Runs flags.http a.server_random _
                        (http_date-Runs user_agent flags.host recent a) s)
                      (λ t s e.
                        then_demand
                          (not flags.ca_racket
                            || inspect_key a.certificate (a.verify_result frozen) flags.host)
                          s _
                          (λ s.
                            then_demand (check_key_length a.certificate) s (next t)
                              (λ s why h. cc)))))))))))))
