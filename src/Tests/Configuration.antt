-- ===== src/Tests/Configuration.antt =====
-- The configuration and the command lines on concrete data.
use tlsdate.Base.{◌≡◌, refl, List, [], ◌∷◌, ◌++◌, Option, All, some, none, arith, Bytes, codes}
use tlsdate.Base.Int.{pos}
use tlsdate.Conf.Lines.{WellFormed}
use tlsdate.Conf.RoundTrip.{print, conf_parse-print}
use tlsdate.Conf.{Entry, fgets, take_line, conf_loop, conf_parse, parse_line, add_entry}
use tlsdate.Options.Config.{
  default_source, Loaded, next_id, parse_source, stanza_entry, load_conf, load_entries, configure,
}
use tlsdate.Options.Checks.{Configured, configure-Configured}
use tlsdate.Options.Stanza.{last_value, parse_source-stanza}
use tlsdate.Options.{parse_options, atoi}
use tlsdate.Tests.Samples.{build, opts, google, example}
use tlsdate.Types.{Opts}

abbrev file : Bytes
file = codes "# tlsdated\n\n max-tries 3\nsource\n  host\texample.net\n  port  443\nend\n"

abbrev entry : Bytes → Bytes → Entry
entry key value = record { key = key; value = some value }

abbrev bare : Bytes → Entry
bare key = record { key = key; value = none }

abbrev stanza : List Entry
stanza = entry (codes "host") (codes "example.net") ∷ entry (codes "port") (codes "443") ∷ []

abbrev entries : List Entry
entries =
    entry (codes "max-tries") (codes "3")
    ∷ bare (codes "source")
    ∷ (stanza ++ bare (codes "end") ∷ [])

-- Comments and empty lines are skipped; blanks around keys and values are dropped.
conf_parse-file : conf_parse file ≡ some entries
unfolding conf_parse conf_loop fgets take_line add_entry parse_line
conf_parse-file = refl

abbrev two : List Entry
two = entry (codes "jitter") (codes "9") ∷ bare (codes "leap") ∷ []

two-WellFormed : All WellFormed two
two-WellFormed = (
  record { key_ok = ground arith; value_ok = ground arith },
  (record { key_ok = ground arith; value_ok = tt }, tt),
)

conf_parse-print_example : conf_parse (print two) ≡ some two
conf_parse-print_example = conf_parse-print two two-WellFormed (omega arith, (omega arith, tt))

abbrev start : Opts → Option Bytes
start o = some file

abbrev configured : Opts
configured = record opts {
  max_tries = pos 3;
  base_argv = codes "tlsdate" ∷ codes "-H" ∷ codes "google.com" ∷ [];
  sources = record { host = codes "example.net"; port = codes "443"; proxy = none; id = 0 } ∷ [];
}

configure_file :
    configure build 4096 [] [] start ≡ Loaded.ok (configured, codes "/var/cache/tlsdated/timestamp")
unfolding default_source configure load_conf conf_parse conf_loop fgets take_line add_entry
    parse_line load_entries parse_options stanza_entry atoi
configure_file = refl

configure-Configured_example : Configured 4096 (configured, codes "/var/cache/tlsdated/timestamp")
configure-Configured_example =
    configure-Configured build 4096 [] [] start configured (codes "/var/cache/tlsdated/timestamp")
      configure_file

parse_source-stanza_example :
    parse_source opts (stanza ++ bare (codes "end") ∷ [])
    ≡ Loaded.ok (
      record opts {
        sources =
            google
            ∷ example
            ∷ record {
              host = codes "example.net";
              port = codes "443";
              proxy = last_value (codes "proxy") none stanza;
              id = next_id opts.sources;
            }
            ∷ [];
      },
      bare (codes "end") ∷ [],
    )
parse_source-stanza_example =
    parse_source-stanza opts stanza (bare (codes "end")) [] (codes "example.net") (codes "443")
      ((refl, refl), ((refl, refl), tt)) refl refl refl
