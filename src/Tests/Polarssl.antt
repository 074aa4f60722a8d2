-- ===== src/Tests/Polarssl.antt =====
-- The handshakes over PolarSSL's callbacks.
use tlsdate.Base.{◌≡◌, refl, [], some, codes}
use tlsdate.ProxyBio.{Kind, run_connect}
use tlsdate.ProxyPolarssl.Equivalence.{as_zero, polar_connect-as_zero}
use tlsdate.ProxyPolarssl.{polar_init, polar_set_scheme, polar_connect}
use tlsdate.Tests.Handshakes.{target, grant5}
use tlsdate.Tests.Wires.{wire}

-- Here the scheme "socks4" is known.
socks4_known : (polar_set_scheme polar_init (codes "socks4")).1.connect ≡ some Kind.socks4a
unfolding polar_set_scheme
socks4_known = refl

polar_connect-as_zero_example :
    polar_connect (wire grant5 100) 0 (target Kind.socks5) (0, [])
    ≡ as_zero (run_connect (wire grant5 100) 0 (target Kind.socks5) (0, []))
polar_connect-as_zero_example =
    polar_connect-as_zero (wire grant5 100) 0 (target Kind.socks5) (0, [])
