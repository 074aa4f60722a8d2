-- ===== src/Tests/Connections.antt =====
-- The connections of the helper on concrete answers, and the theorems on them applied.
use tlsdate.Base.{◌≡◌, ◌↔◌, inl, inr, refl, true, false, [], ◌∷◌, some, Bytes, codes, arith}
use tlsdate.Base.Int.{pos}
use tlsdate.Bio.{next}
use tlsdate.Helper.Measured.{Logged}
use tlsdate.Helper.Main.{Flags}
use tlsdate.Tests.Helpers.{calls, plain}
use tlsdate.Tests.Wires.{wire, wire-IsBio}
use tlsdate.Tls.Names.{Names, check_name_iff}
use tlsdate.Tls.Openssl.{Answers, FileKind, run_ssl}
use tlsdate.Tls.Polarssl.Checked.{PolarChecked, polar_run_ssl-PolarChecked}
use tlsdate.Tls.Polarssl.{PolarAnswers, polar_run_ssl}
use tlsdate.Tls.Session.{FromServer, helper_session, helper_session-FromServer}
use tlsdate.Tls.Keys.{check_key_length_iff}
use tlsdate.Tls.Success.{Works, IsConfigured, IsGood, verify_time, run_ssl_succeeds}
use tlsdate.Tls.Times.{InTime, LastHello, run_ssl-InTime}
use tlsdate.Tls.Trust.{Yields, Passed, Trusted, run_ssl-Passed}
use tlsdate.Tls.{
  Certificate, Content, KeyType, VerifyResult, check_cn, check_names, check_extensions,
  check_content, check_name, check_key_length,
}

-- A certificate for another name, with the host's among the alternative ones.
abbrev google : Certificate
google = record {
  common_name = (pos 12, codes "*.google.com");
  extensions =
      record { short_name = codes "keyUsage"; content = Content.not_printed }
      ∷ record {
        short_name = codes "subjectAltName";
        content = Content.names (
            record { name = codes "DNS"; value = codes "*.google.com" }
            ∷ record { name = codes "DNS"; value = codes "GOOGLE.com" }
            ∷ []);
      }
      ∷ [];
  public_key = some (record { key_type = KeyType.ec; bits = 256 });
}

abbrev answers : Answers
answers = record {
  ctx_made = true;
  container = some FileKind.regular;
  locations_loaded = true;
  connect_bio_made = true;
  ssl_bio_made = true;
  ssl_found = true;
  target_set = true;
  stdout_bio_made = true;
  connected = true;
  infos =
      record { connect_loop = true; server_hello = false; server_time = 0 }
      ∷ record { connect_loop = true; server_hello = true; server_time = 1400000100 }
      ∷ record { connect_loop = false; server_hello = true; server_time = 0 }
      ∷ [];
  handshake_done = true;
  server_random = 1400000100;
  certificate = some google;
  verify_result = λ frozen. VerifyResult.x509_v_ok;
}

abbrev agent : Bytes
agent = codes "TLSDate/0.0.13"

abbrev leaping : Flags
leaping = record plain { leap = true }

helper_session-FromServer_example :
    Logged
      (FromServer (wire [] 3) 1342323666 agent answers calls plain)
      (helper_session (wire [] 3) 1342323666 agent answers calls plain (0, []))
helper_session-FromServer_example =
    helper_session-FromServer (wire [] 3) 1342323666 agent answers (wire-IsBio [] 3) calls plain
      (0, []) (omega arith)

run_ssl-Passed_example :
    Yields
      (Passed (wire [] 3) 1342323666 agent answers plain)
      (run_ssl (wire [] 3) 1342323666 agent answers plain (0, []))
run_ssl-Passed_example = run_ssl-Passed (wire [] 3) 1342323666 agent answers plain (0, [])

a_LastHello : LastHello answers.infos answers.server_random
a_LastHello = record {
  before = record { connect_loop = true; server_hello = false; server_time = 0 } ∷ [];
  hello = record { connect_loop = true; server_hello = true; server_time = 1400000100 };
  after = record { connect_loop = false; server_hello = true; server_time = 0 } ∷ [];
  split = refl;
  looks = refl;
  its_time = refl;
  no_more_hellos = (refl, tt);
}

run_ssl-InTime_example :
    Yields
      (InTime (wire [] 3) 1342323666 agent answers leaping)
      (run_ssl (wire [] 3) 1342323666 agent answers leaping (0, []))
run_ssl-InTime_example =
    run_ssl-InTime (wire [] 3) 1342323666 agent answers leaping (0, []) refl refl a_LastHello

check_name_iff_example :
    (check_name (some google) (codes "google.com") ≡ true)
    ↔ ((c : Certificate) × (some google ≡ some c) × Names (codes "google.com") c)
check_name_iff_example = check_name_iff (some google) (codes "google.com")

answers_work : Works answers
answers_work = record {
  ctx = refl;
  connect_bio = refl;
  ssl_bio = refl;
  ssl = refl;
  target = refl;
  stdout_bio = refl;
  connect = refl;
  handshake = refl;
}

leaping-IsConfigured : IsConfigured leaping
leaping-IsConfigured = record { protocol = inr (inr refl); proxy = inl refl }

google_named : check_name (some google) (codes "google.com") ≡ true
unfolding check_name check_cn check_extensions check_content check_names
google_named = ground arith

google-Trusted : Trusted answers leaping.host (verify_time answers leaping)
google-Trusted =
    let (c, e, named) = (check_name_iff (some google) (codes "google.com")).0 google_named in
    record { cert = c; is_cert = e; verified = refl; named = named }

google_key : check_key_length (some google) ≡ true
unfolding check_key_length
google_key = refl

google-IsGood : IsGood 1342323666 answers leaping
google-IsGood = record {
  times = inr ((inl refl, (inr (omega arith, omega arith), (inl refl, tt))), a_LastHello);
  trusted = inr (inl refl, google-Trusted);
  safe = (check_key_length_iff (some google)).0 google_key;
}

run_ssl_succeeds_example :
    run_ssl (wire [] 3) 1342323666 agent answers leaping (0, []) ≡ next 1400000100 (0, [])
run_ssl_succeeds_example =
    run_ssl_succeeds (wire [] 3) 1342323666 agent answers leaping (0, []) refl answers_work
      leaping-IsConfigured google-IsGood

abbrev polar_answers : PolarAnswers
polar_answers = record {
  container = some FileKind.regular;
  rng_ready = true;
  ssl_ready = true;
  connected = true;
  steps = pos 0 ∷ pos 0 ∷ [];
  hello = pos 0;
  hello_time = (83, 114, 78, 100);
  rounds = (pos 1, true) ∷ (pos 0, false) ∷ [];
  verify = record {
    value = pos 0;
    expired = false;
    revoked = false;
    cn_mismatch = false;
    not_trusted = false;
  };
  key_bits = some 2048;
}

polar_run_ssl-PolarChecked_example :
    Yields
      (PolarChecked (wire [] 3) 1342323666 10 polar_answers plain)
      (polar_run_ssl (wire [] 3) 1342323666 10 polar_answers plain (0, []))
polar_run_ssl-PolarChecked_example =
    polar_run_ssl-PolarChecked (wire [] 3) 1342323666 10 polar_answers plain (0, [])
