-- ===== src/Tests/Proxies.antt =====
-- Proxy URIs.
use tlsdate.Base.{◌≡◌, ◌↔◌, refl, none, some, codes}
use tlsdate.Proxy.Uri.{IsValid, uri, parse_proxy_uri_iff}
use tlsdate.Proxy.{
  strip_prefix, split_at, parse_proxy_uri, validate_proxy_scheme, validate_proxy_host,
  validate_proxy_port,
}

tor :
    parse_proxy_uri (codes "socks5://127.0.0.1:9050")
    ≡ some (codes "socks5", codes "127.0.0.1", codes "9050")
unfolding parse_proxy_uri split_at strip_prefix validate_proxy_scheme validate_proxy_host
    validate_proxy_port
tor = refl

-- A slash behind the port is refused.
slash : parse_proxy_uri (codes "http://proxy:80/") ≡ none
unfolding parse_proxy_uri split_at strip_prefix validate_proxy_scheme validate_proxy_host
    validate_proxy_port
slash = refl

parse_proxy_uri_iff_example :
    (parse_proxy_uri (codes "socks5://127.0.0.1:9050")
      ≡ some (codes "socks5", codes "127.0.0.1", codes "9050"))
    ↔ ((codes "socks5://127.0.0.1:9050" ≡ uri (codes "socks5") (codes "127.0.0.1") (codes "9050"))
        × IsValid (codes "socks5") (codes "127.0.0.1") (codes "9050"))
parse_proxy_uri_iff_example =
    parse_proxy_uri_iff (codes "socks5://127.0.0.1:9050") (codes "socks5") (codes "127.0.0.1")
      (codes "9050")
