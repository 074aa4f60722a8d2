-- ===== src/ProxyBio/Handshakes.antt =====
-- src/proxy-bio.c: `socks4a_connect`, `socks5_connect` and `http_connect`, over the next BIO. A handshake
-- that sets `connected` and returns 1 goes on (`next`); any other result is returned.
use tlsdate.Base.{
  ℕ, zero, suc, ◌+◌, ◌-◌, ◌/◌, ◌%◌, min, ltb, leb, ◌==◌, Bool, true, false, not, map, ◌&&◌, List,
  [], ◌∷◌, ◌++◌, Option, none, some, if◌then◌else◌, Bytes, codes, str_eq, length, take,
}
use tlsdate.Base.Int.{pos, pos_part, ltb_ℤ, is_positive}
use tlsdate.Scan.{Directive, literal, skip_word, white, int, number, sscanf}
use tlsdate.Bio.{
  Bio, out_of_fuel, Step, next, returned, fault, then_step, ◌>>=◌, ◌>>◌, require, send, receive,
  short_result, zero_result,
}

-- `buf[i]`.
abbrev pub byte_at : Bytes → ℕ → ℕ
byte_at [] i = 0
byte_at (c ∷ s) zero = c
byte_at (c ∷ s) (suc i) = byte_at s i

-- The two bytes of `htons (port)`.
abbrev pub port_bytes : ℕ → Bytes
port_bytes port = port / 256 % 256 ∷ port % 256 ∷ []

-- The request of socks4a_connect, with the host's terminating NUL.
abbrev pub socks4a_packet : Bytes → ℕ → Bytes
socks4a_packet host port = 4 ∷ 1 ∷ (port_bytes port ++ (0 ∷ 0 ∷ 0 ∷ 1 ∷ 0 ∷ (host ++ (0 ∷ []))))

abbrev pub socks5_hello : Bytes
socks5_hello = 5 ∷ 1 ∷ 0 ∷ []

-- The request of socks5_connect.
abbrev pub socks5_packet : Bytes → ℕ → Bytes
socks5_packet host port = 5 ∷ 1 ∷ 0 ∷ 3 ∷ length host % 256 ∷ (host ++ port_bytes port)

-- The version and the status of an answer of a SOCKS5 proxy.
abbrev pub socks5_ok : Bytes → Bool
socks5_ok reply = byte_at reply 0 == 5 && byte_at reply 1 == 0

-- `%d` of a number below 100000.
abbrev pub decimal_digits : ℕ → ℕ → Bytes
decimal_digits zero n = []
decimal_digits (suc k) n =
    let front = decimal_digits k (n / 10) in
    if ltb n 10 then (b'0' + n) ∷ [] else front ++ ((b'0' + n % 10) ∷ [])

abbrev pub decimal : ℕ → Bytes
decimal = decimal_digits 5

-- The host and the port of the two lines of http_connect.
abbrev pub address : Bytes → ℕ → Bytes
address host port = host ++ (codes ":" ++ decimal port)

abbrev pub connect_line : Bytes → ℕ → Bytes
connect_line host port = codes "CONNECT " ++ (address host port ++ codes " HTTP/1.1\r\n")

abbrev pub host_line : Bytes → ℕ → Bytes
host_line host port = codes "Host: " ++ (address host port ++ codes "\r\n")

-- The bytes before the first NUL.
abbrev pub c_string : Bytes → Bytes
c_string [] = []
c_string (c ∷ s) = elim (c == 0) [ true ↦ [] | false ↦ c ∷ c_string s ]

-- "HTTP/%*s %d".
abbrev pub status_format : List Directive
status_format = map literal (codes "HTTP/") ++ (skip_word ∷ white ∷ int ∷ [])

-- The tests on the status line: there is a code, and it is from 200 to 299.
unfoldable pub is_success : Bytes → Bool
is_success line = elim (sscanf status_format line) [
  | number code ∷ [] ↦ not (ltb_ℤ code (pos 200)) && not (ltb_ℤ (pos 299) code)
  | _ ↦ false
]

abbrev pub cons_byte : ℕ → Option Bytes → Option Bytes
cons_byte c none = none
cons_byte c (some line) = some (c ∷ line)

module _ {S : Type 0} (bio : Bio S) where
  unfoldable pub socks4a_connect : Bytes → ℕ → S → Step S (Unit {0})
  socks4a_connect host port = do
    send bio short_result (socks4a_packet host port)
    reply ← receive bio short_result 8
    require (byte_at reply 1 == 90)

  -- The loop of socks5_connect that skips the bound address; every round reads a byte at least, so
  -- that `len` rounds are enough.
  unfoldable pub skip_loop : ℕ → ℕ → S → Step S (Unit {0})
  skip_loop fuel zero s = next tt s
  skip_loop zero (suc len) s = fault out_of_fuel
  skip_loop (suc fuel) (suc len) s =
      let r = bio.bio_read s (min (suc len) 1041) in
      elim (is_positive r.0.0) [
        | true ↦ skip_loop fuel (suc len - min (suc len) (pos_part r.0.0)) r.1
        | false ↦ returned (pos 0) r.1
      ]

  -- The rest of the proxy's answer, by the type of its address.
  unfoldable pub skip_address : ℕ → S → Step S (Unit {0})
  skip_address type =
      if type == 3
      then (do len ← receive bio zero_result 1; skip_loop (byte_at len 0 + 2) (byte_at len 0 + 2))
      else (if type == 1 then (do address ← receive bio zero_result 6; next tt) else next tt)

  unfoldable pub socks5_connect : Bytes → ℕ → S → Step S (Unit {0})
  socks5_connect host port = do
    require (leb (length host) 255)
    send bio zero_result socks5_hello
    auth ← receive bio zero_result 2
    require (socks5_ok auth)
    send bio short_result (socks5_packet host port)
    reply ← receive bio short_result 4
    require (socks5_ok reply)
    skip_address (byte_at reply 3)

  -- `sock_gets` with a buffer of `room` + 1 bytes: the line, or `none` for the result 1.
  unfoldable pub sock_gets : ℕ → S → Option Bytes × S
  sock_gets zero s = (none, (bio.bio_read s 1).1)
  sock_gets (suc room) s =
      let r = bio.bio_read s 1 in
      elim (is_positive r.0.0) [
        | false ↦ (none, r.1)
        | true ↦ elim (byte_at r.0.1 0 == b'\n') [
          | true ↦ (some (b'\n' ∷ []), r.1)
          | false ↦ let rest = sock_gets room r.1 in (cons_byte (byte_at r.0.1 0) rest.0, rest.1)
        ]
      ]

  -- The line that a call of sock_gets with `buf` of 4096 bytes leaves there, as a C string.
  unfoldable pub get_line : S → Step S Bytes
  get_line s =
      let line = sock_gets 4095 s in
      elim line.0 [ some bytes ↦ next (c_string bytes) line.1 | none ↦ returned (pos 0) line.1 ]

  -- The lines of the header, up to the empty one.
  unfoldable pub header_loop : ℕ → S → Step S (Unit {0})
  header_loop zero s = fault out_of_fuel
  header_loop (suc fuel) s = then_step (get_line s) (λ line t. elim (str_eq line (codes "\r\n")) [
    | true ↦ next tt t
    | false ↦ header_loop fuel t
  ])

  unfoldable pub http_connect : ℕ → Bytes → ℕ → S → Step S (Unit {0})
  http_connect fuel host port = do
    send bio short_result (take 4095 (connect_line host port))
    send bio short_result (take 4095 (host_line host port))
    send bio short_result (codes "\r\n")
    status ← get_line
    require (is_success status)
    header_loop fuel
