-- ===== src/Tests/Helpers.antt =====
-- Dates, readings and runs of the helper, and command lines of the front end.
use tlsdate.Base.{
  ℕ, ◌+◌, ◌/◌, ◌%◌, ◌≡◌, refl, [], ◌∷◌, none, some, List, Bytes, codes, true, false, arith,
}
use tlsdate.Base.Int.{pos, negsuc, ◌+ℤ◌, ◌-ℤ◌}
use tlsdate.Bio.{next}
use tlsdate.Helper.Calendar.{timegm}
use tlsdate.Helper.Dates.{
  handle_date_line, date_of, date_loop, read_http_date_from_bio, find_date_line,
}
use tlsdate.Helper.Effects.{Due, helper_main-Due}
use tlsdate.Helper.Measured.{Logged}
use tlsdate.Helper.Elapsed.{Took}
use tlsdate.Helper.Success.{Answered, helper_main-sets}
use tlsdate.Helper.Main.{Flags, read_args, Calls, clock_set, helper_main}
use tlsdate.Helper.Reading.{Ending, read_http_date_from_bio-Ending}
use tlsdate.Helper.RoundTrip.{date_line, handle_date_line-date_line}
use tlsdate.Helper.Writing.{WroteAll, write_all_to_bio-WroteAll}
use tlsdate.Helper.{parsed, failed, scan_date, write_all_to_bio}
use tlsdate.Options.{atoi}
use tlsdate.Proxy.{strip_prefix, split_at}
use tlsdate.Scan.{sscanf, scan_int}
use tlsdate.Tests.Wires.{wire, wire-IsBio}
use tlsdate.Tlsdate.Command.{IsHarmless, dont_set_clock-IsHarmless}
use tlsdate.Tlsdate.Handover.{intended, read_args-helper_args}
use tlsdate.Tlsdate.{Settings, Opt, defaults, take_option, take_options, helper_args}

-- The three formats, for the same time; and a year of two digits, which is taken for 1906.
rfc1123 : handle_date_line (codes "\r\nDate: Sun, 06 Nov 1994 08:49:37 GMT") ≡ parsed 784111777
unfolding handle_date_line strip_prefix scan_date sscanf scan_int atoi date_of timegm ◌+ℤ◌ ◌-ℤ◌
rfc1123 = refl

rfc850 : handle_date_line (codes "\r\nDate: Sunday, 06-Nov-94 08:49:37 GMT") ≡ parsed 784111777
unfolding handle_date_line strip_prefix scan_date sscanf scan_int atoi date_of timegm ◌+ℤ◌ ◌-ℤ◌
rfc850 = refl

asctime : handle_date_line (codes "\r\nDate: Sun Nov  6 08:49:37 1994") ≡ parsed 784111777
unfolding handle_date_line strip_prefix scan_date sscanf scan_int atoi date_of timegm ◌+ℤ◌ ◌-ℤ◌
asctime = refl

this_century :
    handle_date_line (codes "\r\nDate: Tuesday, 06-Nov-12 08:49:37 GMT") ≡ failed (negsuc 0)
unfolding handle_date_line strip_prefix scan_date sscanf scan_int atoi date_of timegm ◌+ℤ◌ ◌-ℤ◌
this_century = refl

-- The ends of the range of 32 bits, and a leap day.
calendar :
    (timegm (pos 1970) 0 (pos 1) (pos 0) (pos 0) (pos 0) ≡ pos 0)
    × (timegm (pos 2106) 1 (pos 7) (pos 6) (pos 28) (pos 15) ≡ pos 4294967295)
    × (timegm (pos 2000) 1 (pos 29) (pos 0) (pos 0) (pos 0) ≡ pos 951782400)
    × (timegm (pos 1969) 11 (pos 31) (pos 23) (pos 59) (pos 59) ≡ negsuc 0)
unfolding timegm ◌+ℤ◌ ◌-ℤ◌
calendar = (refl, refl, refl, refl)

november : timegm (pos 1994) 10 (pos 6) (pos 8) (pos 49) (pos 37) ≡ pos 784111777
unfolding timegm ◌+ℤ◌ ◌-ℤ◌
november = refl

handle_date_line-date_line_example :
    handle_date_line (date_line (codes "Sun") 6 (codes "Nov") 1994 8 49 37) ≡ parsed 784111777
handle_date_line-date_line_example =
    handle_date_line-date_line (codes "Sun") 6 10 (codes "Nov") 1994 8 49 37 784111777
      (ground arith, (ground arith, (ground arith, tt))) (omega arith) refl (omega arith)
      (omega arith) (omega arith) (omega arith) (omega arith) (omega arith) november (omega arith)

write_all_to_bio-WroteAll_example :
    WroteAll
      (wire [] 3)
      (0, [])
      (codes "GET / HTTP/1.1\r\n")
      (write_all_to_bio (wire [] 3) (codes "GET / HTTP/1.1\r\n") (0, []))
write_all_to_bio-WroteAll_example =
    write_all_to_bio-WroteAll (wire [] 3) (wire-IsBio [] 3) (codes "GET / HTTP/1.1\r\n") (0, [])

abbrev answer : Bytes
answer = codes "HTTP/1.1 200 OK\r\nDate: Sun, 06 Nov 1994 08:49:37 GMT\r\nServer: x\r\n\r\n"

-- The date is found though it comes in pieces of seven bytes, and reading stops behind it.
date_read : read_http_date_from_bio (wire answer 7) (0, []) ≡ next (parsed 784111777) (56, [])
unfolding date_loop find_date_line split_at handle_date_line strip_prefix scan_date sscanf scan_int
    atoi date_of timegm ◌+ℤ◌ ◌-ℤ◌
date_read = refl

read_http_date_from_bio-Ending_example :
    Ending (wire answer 7) (0, []) [] (read_http_date_from_bio (wire answer 7) (0, []))
read_http_date_from_bio-Ending_example =
    read_http_date_from_bio-Ending (wire answer 7) (wire-IsBio answer 7) (0, [])

-- A run in 2013, whose round trip took three seconds.
abbrev pub calls : Calls
calls = record {
  account = record {
    is_root = true;
    passwd = some (65534, 65534);
    group = some 65534;
    changes = true;
  };
  mmap_ok = true;
  start = some (record { sec = pos 1400000000; nsec = 500000000 });
  warp_ok = true;
  restart = none;
  fork_ok = true;
  wait_ok = true;
  child_ok = true;
  end_time = some (record { sec = pos 1400000003; nsec = 700000000 });
  time_map = 1400000100;
  strftime_ok = true;
  set_ok = true;
}

abbrev certfile : Bytes
certfile = codes "/etc/tlsdate/ca-roots/tlsdate-ca-roots.conf"

abbrev pub plain : Flags
plain = intended (defaults certfile) (codes "google.com") (codes "443") (codes "tlsv1") certfile

helper_main-Due_example : Due 1342323666 calls plain (helper_main 1342323666 calls plain [])
helper_main-Due_example = helper_main-Due 1342323666 calls plain

answered :
    Answered calls
      (record { sec = pos 1400000000; nsec = 500000000 })
      (record { sec = pos 1400000003; nsec = 700000000 })
answered = record {
  mapped = refl;
  started = refl;
  forked = refl;
  waited = refl;
  child = refl;
  ended = refl;
  set = refl;
}

helper_main-sets_example :
    (rtt : ℕ) × Took
      (record { sec = pos 1400000000; nsec = 500000000 })
      (record { sec = pos 1400000003; nsec = 700000000 })
      rtt
    × (helper_main 1342323666 calls plain []
        ≡ next tt (
            clock_set (record { sec = pos (1400000100 + rtt / 2 / 1000); nsec = rtt / 2 % 1000 })
            ∷ []))
helper_main-sets_example =
    helper_main-sets 1342323666 calls plain (record { sec = pos 1400000000; nsec = 500000000 })
      (record { sec = pos 1400000003; nsec = 700000000 }) refl refl refl refl answered (omega arith)
      (omega arith) (omega arith)

read_args-helper_args_example : read_args (helper_args (defaults certfile)) ≡ some plain
read_args-helper_args_example =
    read_args-helper_args (defaults certfile) (codes "google.com") (codes "443") (codes "tlsv1")
      certfile refl refl refl refl (omega arith)

-- The command line of the daemon: -H host -p 443 -Vraw -n.
abbrev daemon_options : List Opt
daemon_options =
    record { c = b'H'; optarg = some (codes "example.com") }
    ∷ record { c = b'p'; optarg = some (codes "443") }
    ∷ record { c = b'V'; optarg = some (codes "raw") }
    ∷ record { c = b'n'; optarg = none }
    ∷ []

abbrev daemon_settings : Settings
daemon_settings = record (defaults certfile) {
  host = some (codes "example.com");
  showtime = 2;
  setclock = false;
}

abbrev daemon_flags : Flags
daemon_flags = intended daemon_settings (codes "example.com") (codes "443") (codes "tlsv1") certfile

daemon_line : take_options (defaults certfile) daemon_options ≡ some daemon_settings
unfolding take_options take_option
daemon_line = refl

daemon_read : read_args (helper_args daemon_settings) ≡ some daemon_flags
unfolding read_args helper_args
daemon_read = refl

dont_set_clock-IsHarmless_example : Logged IsHarmless (helper_main 1342323666 calls daemon_flags [])
dont_set_clock-IsHarmless_example =
    dont_set_clock-IsHarmless 1342323666 calls certfile daemon_options daemon_settings daemon_flags
      daemon_line refl refl daemon_read

-- `tlsdate --host example.com`: the option takes no argument, and leaves a null pointer.
abbrev hostless : Settings
hostless = record (defaults certfile) { host = none }

long_host :
    take_options (defaults certfile) (record { c = b'H'; optarg = none } ∷ []) ≡ some hostless
unfolding take_options take_option
long_host = refl
