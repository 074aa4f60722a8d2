-- ===== src/ProxyBio/Setup.antt =====
-- src/tlsdate-helper.c: `setup_proxy`, which sets up the BIO of src/proxy-bio.c for the URI of a proxy.
use tlsdate.Base.{◌%◌, ◌^◌, Option, none, some, Bytes}
use tlsdate.Base.Int.{to_u32}
use tlsdate.Options.{atoi}
use tlsdate.Proxy.{parse_proxy_uri}
use tlsdate.ProxyBio.{ProxyCtx, proxy_new, set_type, set_host, set_port}

-- The proxy BIO, with the target's host and port, and the proxy's own host and port, which the connect
-- BIO gets.
pub record Setup : Type 0 where
  pub ctx : ProxyCtx
  pub connect_host : Bytes
  pub connect_port : Bytes

-- `setup_proxy` with a proxy; the results of the setters are not looked at, as in the source. `none` is
-- `die`.
unfoldable pub setup_proxy : Bytes → Bytes → Bytes → Option Setup
setup_proxy proxy host port = elim (parse_proxy_uri proxy) [
  | none ↦ none
  | some (scheme, proxy_host, proxy_port) ↦
      let typed = (set_type proxy_new scheme).1 in
      let hosted = (set_host typed host).1 in
      some (record {
        ctx = set_port hosted (to_u32 (atoi port) % 2 ^ 16);
        connect_host = proxy_host;
        connect_port = proxy_port;
      })
]
