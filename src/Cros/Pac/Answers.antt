-- ===== src/Cros/Pac/Answers.antt =====
-- src/platform-cros.c and src/tlsdate-helper.c: the answers that the browser gives for one proxy, as
-- `canonicalize_pac` writes them down and `parse_proxy_uri` of the helper reads them.
use tlsdate.Base.{
  ℕ, zero, suc, ◌+◌, ◌<◌, ◌≤◌, ◌≡◌, refl, true, false, [], ◌∷◌, ◌++◌, Option, none, some, lt→ltb,
  arith, length, Bytes, codes, str_eq,
}
use tlsdate.Cros.Pac.{
  is_alnum, is_host_part, copy_hostport, get_valid_hostport, hostport_size, find_space, pac_scheme,
  canonicalize_pac,
}
use tlsdate.Proxy.{validate_proxy_host, validate_proxy_port}
use tlsdate.Proxy.Uri.{uri}

-- The four types of answers that name a proxy.
pub data Kind : Type 0 where
  proxy socks socks5 https : Kind

abbrev pub keyword : Kind → Bytes
keyword Kind.proxy = codes "PROXY"
keyword Kind.socks = codes "SOCKS"
keyword Kind.socks5 = codes "SOCKS5"
keyword Kind.https = codes "HTTPS"

abbrev pub scheme_of : Kind → Bytes
scheme_of Kind.proxy = codes "http"
scheme_of Kind.socks = codes "socks4"
scheme_of Kind.socks5 = codes "socks5"
scheme_of Kind.https = codes "https"

-- The browser's answer: the type, a space, the host, ":" and the port.
abbrev pub answer : Kind → Bytes → Bytes → Bytes
answer k host port = keyword k ++ (codes " " ++ (host ++ (codes ":" ++ port)))

-- What the helper makes of a URL of that type: it refuses https.
abbrev pub accepted : Kind → Bytes → Bytes → Option (Bytes × Bytes × Bytes)
accepted Kind.https host port = none
accepted k host port = some (scheme_of k, host, port)

copy_port :
    (len : ℕ) (port : Bytes)
    → validate_proxy_port port ≡ true
    → length port ≤ len
    → copy_hostport len false port ≡ (true, port)
unfolding copy_hostport validate_proxy_port
copy_port zero [] h k = refl
copy_port (suc len) [] h k = refl
copy_port zero (c ∷ port) h k = absurd (omega (arith, k))
copy_port (suc len) (c ∷ port) h k = ground (arith, copy_port len port)

copy_host :
    (len : ℕ) (host port : Bytes)
    → validate_proxy_host host ≡ true
    → validate_proxy_port port ≡ true
    → length host + (1 + length port) ≤ len
    → copy_hostport len true (host ++ (codes ":" ++ port)) ≡ (true, host ++ (codes ":" ++ port))
unfolding copy_hostport validate_proxy_host
copy_host zero [] port h p k = absurd (omega (arith, k))
copy_host (suc len) [] port h p k = rw (copy_port len port p (omega (arith, k))) refl
copy_host zero (c ∷ host) port h p k = absurd (omega (arith, k))
copy_host (suc len) (c ∷ host) port h p k =
    let rest : copy_hostport len true (host ++ (codes ":" ++ port))
        ≡ (true, host ++ (codes ":" ++ port)) =
      copy_host len host port (ground arith) p (omega (arith, k)) in
    let part : is_host_part c ≡ true = ground arith in rw (part, rest) refl

-- A host that starts with a letter or a digit and a port, whose URL fits.
pub record IsProxy (k : Kind) (c : ℕ) (host port : Bytes) (len : ℕ) : Type 0 where
  pub starts : is_alnum c ≡ true
  pub host_ok : validate_proxy_host host ≡ true
  pub port_ok : validate_proxy_port port ≡ true
  pub short : length host + (1 + length port) ≤ hostport_size
  pub fits : length (uri (scheme_of k) (c ∷ host) port) < len

find_space-keyword :
    (k : Kind) (s : Bytes)
    → find_space (keyword k ++ (codes " " ++ s)) ≡ some (length (keyword k), s)
unfolding find_space
find_space-keyword Kind.proxy s = refl
find_space-keyword Kind.socks s = refl
find_space-keyword Kind.socks5 s = refl
find_space-keyword Kind.https s = refl

pac_scheme-keyword :
    (k : Kind) (s : Bytes)
    → pac_scheme (keyword k ++ (codes " " ++ s)) (length (keyword k))
      ≡ some (scheme_of k ++ codes "://")
unfolding pac_scheme
pac_scheme-keyword Kind.proxy s = refl
pac_scheme-keyword Kind.socks s = refl
pac_scheme-keyword Kind.socks5 s = refl
pac_scheme-keyword Kind.https s = refl

uri-append :
    (k : Kind) (s : Bytes) → (scheme_of k ++ codes "://") ++ s ≡ scheme_of k ++ (codes "://" ++ s)
uri-append Kind.proxy s = refl
uri-append Kind.socks s = refl
uri-append Kind.socks5 s = refl
uri-append Kind.https s = refl

not_direct :
    (k : Kind) (s : Bytes) → str_eq (keyword k ++ (codes " " ++ s)) (codes "DIRECT") ≡ false
not_direct Kind.proxy s = refl
not_direct Kind.socks s = refl
not_direct Kind.socks5 s = refl
not_direct Kind.https s = refl

pub canonicalize_pac-answer :
    (k : Kind) (c : ℕ) (host port : Bytes) (len : ℕ)
    → IsProxy k c host port len
    → canonicalize_pac (answer k (c ∷ host) port) len ≡ uri (scheme_of k) (c ∷ host) port
unfolding canonicalize_pac get_valid_hostport
canonicalize_pac-answer k c host port len p =
    let address : Bytes = c ∷ host ++ (codes ":" ++ port) in
    rw
      (
        not_direct k address,
        find_space-keyword k address,
        p.starts,
        copy_host hostport_size host port p.host_ok p.port_ok p.short,
        pac_scheme-keyword k address,
        uri-append k address,
        lt→ltb (length (uri (scheme_of k) (c ∷ host) port)) len p.fits,
      )
      refl
