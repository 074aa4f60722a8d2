-- ===== src/ProxyBio/Packets.antt =====
-- src/proxy-bio.c: the requests that the handshakes send, read back as the protocols say, and the
-- buffers that hold them.
use tlsdate.Base.{
  ℕ, zero, suc, ◌+◌, ◌*◌, ◌/◌, ◌%◌, ◌≤◌, ◌<◌, ◌≡◌, ◌≢◌, refl, ap, ◌==◌, true, false, not, ◌&&◌, [],
  ◌∷◌, ◌++◌, Option, none, some, if◌then◌else◌, Bytes, codes, length, take, drop, length-append,
  All, arith,
}
use tlsdate.Base.Int.{pos}
use tlsdate.ProxyBio.{
  ProxyCtx, ni_maxhost, set_host, port_bytes, socks4a_packet, socks5_packet, decimal_digits,
  decimal, address, connect_line, host_line,
}

abbrev port_of : Bytes → Option ℕ
port_of (hi ∷ lo ∷ []) = some (hi * 256 + lo)
port_of _ = none

abbrev with_host : Bytes → Option ℕ → Option (Bytes × ℕ)
with_host host none = none
with_host host (some port) = some (host, port)

-- The host and the port of a request to connect, by RFC 1928.
abbrev pub decode5 : Bytes → Option (Bytes × ℕ)
decode5 (v ∷ c ∷ z ∷ t ∷ n ∷ rest) =
    if v == 5 && c == 1 && z == 0 && t == 3
    then with_host (take n rest) (port_of (drop n rest))
    else none
decode5 _ = none

-- The bytes up to the first NUL, and those behind it.
abbrev until_nul : Bytes → Option (Bytes × Bytes)
until_nul [] = none
until_nul (c ∷ s) = elim (c == 0) [
  | true ↦ some ([], s)
  | false ↦ elim (until_nul s) [ none ↦ none | some (front, rest) ↦ some (c ∷ front, rest) ]
]

-- The host and the port of a request to connect of the protocol SOCKS4a: behind the user's name, which
-- ends with a NUL, stands the host, which ends with another and with the packet.
abbrev pub decode4a : Bytes → Option (Bytes × ℕ)
decode4a (v ∷ c ∷ hi ∷ lo ∷ i ∷ j ∷ k ∷ l ∷ rest) =
    if v == 4 && c == 1 && i == 0 && j == 0 && k == 0 && not (l == 0)
    then elim (until_nul rest) [
      | none ↦ none
      | some (user, more) ↦ elim (until_nul more) [
        | none ↦ none
        | some (host, behind) ↦ elim behind [ [] ↦ some (host, hi * 256 + lo) | x ∷ xs ↦ none ]
      ]
    ]
    else none
decode4a _ = none

take-append : (xs ys : Bytes) → take (length xs) (xs ++ ys) ≡ xs
take-append [] ys = refl
take-append (x ∷ xs) ys = ap (◌∷◌ x) (take-append xs ys)

drop-append : (xs ys : Bytes) → drop (length xs) (xs ++ ys) ≡ ys
drop-append [] ys = refl
drop-append (x ∷ xs) ys = drop-append xs ys

port_bytes-port : (port : ℕ) → port < 65536 → port / 256 % 256 * 256 + port % 256 ≡ port
port_bytes-port port h = omega arith

-- A SOCKS5 request, read as RFC 1928 says, names the host and the port: for a host of at most 255 bytes,
-- which is the length that socks5_connect takes, and a port of 16 bits.
pub decode5-socks5_packet :
    (host : Bytes) (port : ℕ)
    → length host ≤ 255
    → port < 65536
    → decode5 (socks5_packet host port) ≡ some (host, port)
decode5-socks5_packet host port h k =
    let n : length host % 256 ≡ length host = omega arith in
    rw
      (
        n,
        take-append host (port_bytes port),
        drop-append host (port_bytes port),
        port_bytes-port port k,
      )
      refl

until_nul-append :
    (host rest : Bytes) → All (λ c. c ≢ 0) host → until_nul (host ++ (0 ∷ rest)) ≡ some (host, rest)
until_nul-append [] rest h = refl
until_nul-append (c ∷ host) rest h = ground (arith, until_nul-append host rest h.1)

-- A SOCKS4a request, read as that protocol says, names the host and the port: for a host without NUL.
pub decode4a-socks4a_packet :
    (host : Bytes) (port : ℕ)
    → All (λ c. c ≢ 0) host
    → port < 65536
    → decode4a (socks4a_packet host port) ≡ some (host, port)
decode4a-socks4a_packet host port h k = rw (until_nul-append host [] h, port_bytes-port port k) refl

length-decimal_digits : (k n : ℕ) → length (decimal_digits k n) ≤ k
length-decimal_digits zero n = omega arith
length-decimal_digits (suc k) n = ground (
  arith,
  length-append (decimal_digits k (n / 10)) ((b'0' + n % 10) ∷ []),
  length-decimal_digits k (n / 10),
)

length-address : (host : Bytes) (port : ℕ) → length (address host port) ≤ length host + 6
length-address host port =
    omega (arith, length-append host (codes ":" ++ decimal port), length-decimal_digits 5 port)

accepted_host : (ctx : ProxyCtx) (host : Bytes) → (set_host ctx host).0 ≡ pos 0 → length host < 1025
unfolding set_host
accepted_host ctx host h = ground arith

-- Where nothing is to be cut off.
take_all : (n : ℕ) (xs : Bytes) → length xs ≤ n → take n xs ≡ xs
take_all zero [] h = refl
take_all zero (x ∷ xs) h = absurd (omega arith)
take_all (suc n) [] h = refl
take_all (suc n) (x ∷ xs) h = ap (◌∷◌ x) (take_all n xs (omega arith))

-- The lines of HTTP for a host that BIO_proxy_set_host takes.
pub whole_lines :
    (host : Bytes) (port : ℕ)
    → length host < 1025
    → (take 4095 (connect_line host port) ≡ connect_line host port)
      × (take 4095 (host_line host port) ≡ host_line host port)
whole_lines host port short =
    let c = length-append (address host port) (codes " HTTP/1.1\r\n") in
    let d = length-append (address host port) (codes "\r\n") in
    let e = length-address host port in
    (take_all 4095 _ (omega (arith, c, e)), take_all 4095 _ (omega (arith, d, e)))

-- A host that BIO_proxy_set_host takes makes requests that fit into the buffers: those of SOCKS into
-- NI_MAXHOST + 16 bytes, and the lines of HTTP into 4096 with the NUL, so that snprintf cuts nothing off.
pub packets_fit :
    (ctx : ProxyCtx) (host : Bytes) (port : ℕ)
    → (set_host ctx host).0 ≡ pos 0
    → (length (socks4a_packet host port) ≤ ni_maxhost + 16)
      × (length (socks5_packet host port) ≤ ni_maxhost + 16)
      × (length (connect_line host port) < 4096)
      × (length (host_line host port) < 4096)
packets_fit ctx host port h =
    let short = accepted_host ctx host h in
    let a = length-append host (0 ∷ []) in
    let b = length-append host (port_bytes port) in
    let c = length-append (address host port) (codes " HTTP/1.1\r\n") in
    let d = length-append (address host port) (codes "\r\n") in
    let e = length-address host port in
    (omega (arith, a), omega (arith, b), omega (arith, c, e), omega (arith, d, e))
