-- ===== src/Tests/Handshakes.antt =====
-- Handshakes with a proxy whose answers are given.
use tlsdate.Base.{
  ℕ, ◌+◌, ◌≤◌, ◌<◌, ◌≡◌, zero, suc, refl, [], ◌∷◌, ◌++◌, some, Bytes, codes, length, take, false,
  arith,
}
use tlsdate.Base.Int.{pos, negsuc}
use tlsdate.Bio.Runs.{Runs}
use tlsdate.Bio.{Bio, next, returned, send, receive}
use tlsdate.Options.{atoi}
use tlsdate.ProxyBio.Connect.{Completed, run_connect-Exchanged, run_connect-Runs}
use tlsdate.ProxyBio.Packets.{packets_fit}
use tlsdate.ProxyBio.{
  ProxyCtx, Kind, ni_maxhost, proxy_new, set_host, run_connect, socks4a_packet, socks5_packet,
  connect_line, host_line, socks4a_connect, socks5_connect, skip_address, skip_loop, http_connect,
  get_line, sock_gets, header_loop, is_success,
}
use tlsdate.Scan.{sscanf, scan_int}
use tlsdate.Tests.Wires.{wire, wire-IsBio}

abbrev pub target : Kind → ProxyCtx
target kind = record {
  host = some (codes "example.com");
  port = 443;
  connected = false;
  connect = some kind;
}

-- The answers of proxies that grant a request: with the address of a host, and with a status line.
abbrev pub grant5 : Bytes
grant5 = 5 ∷ 0 ∷ 5 ∷ 0 ∷ 0 ∷ 3 ∷ 2 ∷ b'a' ∷ b'b' ∷ 1 ∷ 187 ∷ []

abbrev opened : Bytes
opened = codes "HTTP/1.1 200 OK\r\nVia: x\r\n\r\n"

pub socks5_runs :
    run_connect (wire grant5 100) 0 (target Kind.socks5) (0, [])
    ≡ next tt (11, 5 ∷ 1 ∷ 0 ∷ socks5_packet (codes "example.com") 443)
unfolding run_connect socks5_connect send receive skip_address skip_loop
socks5_runs = refl

http_runs :
    run_connect (wire opened 100) 3 (target Kind.http) (0, [])
    ≡ next tt (27, codes "CONNECT example.com:443 HTTP/1.1\r\nHost: example.com:443\r\n\r\n")
unfolding run_connect http_connect send get_line sock_gets header_loop is_success sscanf scan_int
    atoi
http_runs = refl

-- A proxy that closes the connection: socks4a_connect and socks5_connect return 0.
closed4 :
    run_connect (wire [] 100) 0 (target Kind.socks4a) (0, [])
    ≡ returned (pos 0) (0, socks4a_packet (codes "example.com") 443)
unfolding run_connect socks4a_connect send receive
closed4 = refl

run_connect-Exchanged_example :
    Completed
      (wire opened 100)
      (target Kind.http)
      (0, [])
      (27, codes "CONNECT example.com:443 HTTP/1.1\r\nHost: example.com:443\r\n\r\n")
run_connect-Exchanged_example =
    run_connect-Exchanged (wire opened 100) (wire-IsBio opened 100) 3 (target Kind.http) (0, []) tt
      (27, codes "CONNECT example.com:443 HTTP/1.1\r\nHost: example.com:443\r\n\r\n") (omega arith)
      http_runs

length-take_script : (script : Bytes) (n : ℕ) → length (take n script) ≤ length script
length-take_script [] zero = omega arith
length-take_script [] (suc n) = omega arith
length-take_script (c ∷ script) zero = omega arith
length-take_script (c ∷ script) (suc n) = omega (arith, length-take_script script n)

run_connect-Runs_example : Runs (run_connect (wire opened 100) 28 (target Kind.http) (0, []))
run_connect-Runs_example =
    run_connect-Runs (wire opened 100) (wire-IsBio opened 100) 28 27 (target Kind.http) Kind.http
      (codes "example.com") (0, []) (λ t. length-take_script opened t.0) (omega arith) refl refl

short_host : (set_host proxy_new (codes "example.com")).0 ≡ pos 0
unfolding set_host
short_host = refl

packets_fit_example :
    (length (socks4a_packet (codes "example.com") 443) ≤ ni_maxhost + 16)
    × (length (socks5_packet (codes "example.com") 443) ≤ ni_maxhost + 16)
    × (length (connect_line (codes "example.com") 443) < 4096)
    × (length (host_line (codes "example.com") 443) < 4096)
packets_fit_example = packets_fit proxy_new (codes "example.com") 443 short_host

-- A BIO whose first write fails with -1, and that takes all of each other.
abbrev flaky : Bio (ℕ × Bytes)
flaky = record {
  bio_write = λ s bytes. elim s.0 [
    | zero ↦ (negsuc 0, (1, s.1))
    | suc n ↦ (pos (length bytes), (s.0, s.1 ++ bytes))
  ];
  bio_read = λ s n. ((pos 0, []), s);
  sent = λ s. s.1;
  received = λ s. [];
}

unsent : run_connect flaky 0 (target Kind.socks4a) (0, []) ≡ returned (negsuc 0) (1, [])
unfolding run_connect socks4a_connect send
unsent = refl
