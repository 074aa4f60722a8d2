-- ===== src/Tlsdate/Handover.antt =====
-- src/tlsdate.c and src/tlsdate-helper.c: what the helper reads of the options of the front end.
use tlsdate.Base.{
  ℕ, ◌==◌, ◌≡◌, inl, inr, refl, Bool, true, false, not, ◌&&◌, ◌||◌, List, [], ◌∷◌, Option, none,
  some, if◌then◌else◌, Bytes, codes, str_eq, arith, Option-cases, ◌≤◌,
}
use tlsdate.Helper.Main.{Flags, read_args}
use tlsdate.Tlsdate.{Settings, Opt, take_option, take_options, showtime_word, helper_args}

-- The proxy as the helper understands it: the word "none" is no proxy.
abbrev pub understood_proxy : Option Bytes → Option Bytes
understood_proxy none = none
understood_proxy (some p) = if str_eq (codes "none") p then none else some p

-- What the helper should make of the settings, with the four words that name the server.
abbrev pub intended : Settings → Bytes → Bytes → Bytes → Bytes → Flags
intended s host port protocol certs = record {
  host = host;
  port = port;
  protocol = protocol;
  ca_cert_container = certs;
  ca_racket = s.ca_racket;
  verbose = s.verbose;
  verbose_debug = not s.verbose;
  setclock = s.setclock;
  showtime = s.showtime == 1;
  showtime_raw = s.showtime == 2;
  timewarp = s.timewarp;
  leap = s.leap;
  proxy = understood_proxy s.proxy;
  http = s.http;
}

word :
    (b : Bool)
    → not (str_eq (codes "unchecked") (if b then codes "racket" else codes "unchecked")) ≡ b
word true = refl
word false = refl

loud_word :
    (b : Bool) → not (str_eq (codes "quiet") (if b then codes "verbose" else codes "quiet")) ≡ b
loud_word true = refl
loud_word false = refl

debug_word :
    (b : Bool)
    → not (str_eq (codes "verbose") (if b then codes "verbose" else codes "quiet")) ≡ not b
debug_word true = refl
debug_word false = refl

clock_word :
    (b : Bool)
    → str_eq (codes "setclock") (if b then codes "setclock" else codes "dont-set-clock") ≡ b
clock_word true = refl
clock_word false = refl

warp_word :
    (b : Bool) → str_eq (codes "timewarp") (if b then codes "timewarp" else codes "no-fun") ≡ b
warp_word true = refl
warp_word false = refl

leap_word :
    (b : Bool) → str_eq (codes "leapaway") (if b then codes "leapaway" else codes "holdfast") ≡ b
leap_word true = refl
leap_word false = refl

http_word : (b : Bool) → str_eq (codes "http") (if b then codes "http" else codes "tls") ≡ b
http_word true = refl
http_word false = refl

show_word : (n : ℕ) → n ≤ 2 → str_eq (codes "showtime") (showtime_word n) ≡ (n == 1)
show_word n h = ground arith

raw_word : (n : ℕ) → n ≤ 2 → str_eq (codes "showtime=raw") (showtime_word n) ≡ (n == 2)
raw_word n h = ground arith

proxy_word :
    (p : Option Bytes)
    → (if str_eq (codes "none") (elim p [ none ↦ codes "none" | some q ↦ q ])
        then none
        else some (elim p [ none ↦ codes "none" | some q ↦ q ]))
      ≡ understood_proxy p
proxy_word none = refl
proxy_word (some p) = refl

-- The helper reads each setting back from the words that the front end writes, for a showtime of 0, 1 or
-- 2. The flag for debugging messages comes out as the negation of the option -v.
pub read_args-helper_args :
    (s : Settings) (host port protocol certs : Bytes)
    → s.host ≡ some host
    → s.port ≡ some port
    → s.protocol ≡ some protocol
    → s.ca_cert_container ≡ some certs
    → s.showtime ≤ 2
    → read_args (helper_args s) ≡ some (intended s host port protocol certs)
unfolding read_args helper_args
read_args-helper_args s host port protocol certs h p q r l =
    rw
      (
        helper_args,
        h,
        p,
        q,
        r,
        word s.ca_racket,
        loud_word s.verbose,
        debug_word s.verbose,
        clock_word s.setclock,
        show_word s.showtime l,
        raw_word s.showtime l,
        warp_word s.timewarp,
        leap_word s.leap,
        proxy_word s.proxy,
        http_word s.http,
      )
      refl

abbrev pub any_c : ℕ → List Opt → Bool
any_c k [] = false
any_c k (o ∷ options) = o.c == k || any_c k options

take_option-setclock :
    (s t : Settings) (o : Opt)
    → take_option s o ≡ some t
    → t.setclock ≡ (s.setclock && not (o.c == b'n'))
unfolding take_option
take_option-setclock s t o h = ground arith

take_option-timewarp :
    (s t : Settings) (o : Opt) → take_option s o ≡ some t → t.timewarp ≡ (s.timewarp || o.c == b't')
unfolding take_option
take_option-timewarp s t o h = ground arith

take_option-showtime :
    (s t : Settings) (o : Opt) → take_option s o ≡ some t → s.showtime ≤ 2 → t.showtime ≤ 2
unfolding take_option
take_option-showtime s t o h l = ground arith

-- The clock is to be set, or to be warped, by what the options say.
pub take_options-setclock :
    (s t : Settings) (options : List Opt)
    → take_options s options ≡ some t
    → t.setclock ≡ (s.setclock && not (any_c b'n' options))
unfolding take_options
take_options-setclock s t [] h = ground arith
take_options-setclock s t (o ∷ options) h = elim (Option-cases (take_option s o)) [
  | inl e ↦ absurd (ground arith)
  | inr (u, e) ↦
      let one = take_option-setclock s u o e in
      let rest = take_options-setclock u t options (rw (take_options, e) at h) in ground arith
]

pub take_options-timewarp :
    (s t : Settings) (options : List Opt)
    → take_options s options ≡ some t
    → t.timewarp ≡ (s.timewarp || any_c b't' options)
unfolding take_options
take_options-timewarp s t [] h = ground arith
take_options-timewarp s t (o ∷ options) h = elim (Option-cases (take_option s o)) [
  | inl e ↦ absurd (ground arith)
  | inr (u, e) ↦
      let one = take_option-timewarp s u o e in
      let rest = take_options-timewarp u t options (rw (take_options, e) at h) in ground arith
]

pub take_options-showtime :
    (s t : Settings) (options : List Opt)
    → take_options s options ≡ some t
    → s.showtime ≤ 2
    → t.showtime ≤ 2
unfolding take_options
take_options-showtime s t [] h l = ground arith
take_options-showtime s t (o ∷ options) h l = elim (Option-cases (take_option s o)) [
  | inl e ↦ absurd (ground arith)
  | inr (u, e) ↦
      take_options-showtime u t options (rw (take_options, e) at h) (take_option-showtime s u o e l)
]
