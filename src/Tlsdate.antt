-- ===== src/Tlsdate.antt =====
-- src/tlsdate.c: the options of the front end, and the arguments that it hands to tlsdate-helper.
pub mod Handover
pub mod Command
use tlsdate.Base.{
  ℕ, ◌==◌, Bool, true, false, List, [], ◌∷◌, Option, none, some, if◌then◌else◌, Bytes, codes,
  str_eq,
}

-- An option as `getopt_long` gives it: `c`, and `optarg`, which can be NULL.
pub record Opt : Type 0 where
  pub c : ℕ
  pub optarg : Option Bytes

-- The local variables of `main`, as far as the options set them; a pointer can be NULL.
pub record Settings : Type 0 where
  pub host : Option Bytes
  pub port : Option Bytes
  pub protocol : Option Bytes
  pub ca_cert_container : Option Bytes
  pub verbose : Bool
  pub ca_racket : Bool
  pub showtime : ℕ
  pub setclock : Bool
  pub timewarp : Bool
  pub leap : Bool
  pub proxy : Option Bytes
  pub http : Bool

-- The values before the loop; `certfile` is the build's DEFAULT_CERTFILE.
abbrev pub defaults : Bytes → Settings
defaults certfile = record {
  host = some (codes "google.com");
  port = some (codes "443");
  protocol = some (codes "tlsv1");
  ca_cert_container = some certfile;
  verbose = false;
  ca_racket = true;
  showtime = 0;
  setclock = true;
  timewarp = false;
  leap = false;
  proxy = none;
  http = false;
}

-- `optarg && 0 == strcmp ("raw", optarg) ? 2 : 1`.
abbrev pub showtime_of : Option Bytes → ℕ
showtime_of none = 1
showtime_of (some s) = if str_eq (codes "raw") s then 2 else 1

-- One round of the loop; `none` is `exit (1)`.
unfoldable pub take_option : Settings → Opt → Option Settings
take_option s o =
    if o.c == b'v'
    then some (record s { verbose = true })
    else (if o.c == b'V'
        then some (record s { showtime = showtime_of o.optarg })
        else (if o.c == b's'
            then some (record s { ca_racket = false })
            else (if o.c == b'h'
                then none
                else (if o.c == b'H'
                    then some (record s { host = o.optarg })
                    else (if o.c == b'p'
                        then some (record s { port = o.optarg })
                        else (if o.c == b'P'
                            then some (record s { protocol = o.optarg })
                            else (if o.c == b'n'
                                then some (record s { setclock = false })
                                else (if o.c == b'C'
                                    then some (record s { ca_cert_container = o.optarg })
                                    else (if o.c == b't'
                                        then some (record s { timewarp = true })
                                        else (if o.c == b'l'
                                            then some (record s { leap = true })
                                            else (if o.c == b'x'
                                                then some (record s { proxy = o.optarg })
                                                else (if o.c == b'w'
                                                    then some (record s { http = true })
                                                    else (if o.c == b'?'
                                                        then some s
                                                        else none)))))))))))))

-- The loop, over the options that getopt_long gives up to -1.
unfoldable pub take_options : Settings → List Opt → Option Settings
take_options s [] = some s
take_options s (o ∷ options) = elim (take_option s o) [
  | none ↦ none
  | some t ↦ take_options t options
]

-- `execlp` takes the arguments up to the first NULL.
abbrev pub up_to_null : List (Option Bytes) → List Bytes
up_to_null [] = []
up_to_null (none ∷ rest) = []
up_to_null (some a ∷ rest) = a ∷ up_to_null rest

abbrev pub showtime_word : ℕ → Bytes
showtime_word n =
    if n == 0
    then codes "no-showtime"
    else (if n == 2 then codes "showtime=raw" else codes "showtime")

-- The arguments of execlp.
unfoldable pub helper_args : Settings → List Bytes
helper_args s = up_to_null (
    some (codes "tlsdate")
    ∷ s.host
    ∷ s.port
    ∷ s.protocol
    ∷ some (if s.ca_racket then codes "racket" else codes "unchecked")
    ∷ some (if s.verbose then codes "verbose" else codes "quiet")
    ∷ s.ca_cert_container
    ∷ some (if s.setclock then codes "setclock" else codes "dont-set-clock")
    ∷ some (showtime_word s.showtime)
    ∷ some (if s.timewarp then codes "timewarp" else codes "no-fun")
    ∷ some (if s.leap then codes "leapaway" else codes "holdfast")
    ∷ some (elim s.proxy [ none ↦ codes "none" | some p ↦ p ])
    ∷ some (if s.http then codes "http" else codes "tls")
    ∷ [])
