-- ===== src/ProxyBio/Connect.antt =====
-- src/proxy-bio.c and src/tlsdate-helper.c: what a connected proxy BIO stands for, and what the results
-- of the handshakes and of the setters lead to.
use tlsdate.Base.{
  ℕ, ◌≤◌, ◌<◌, ◌%◌, ◌^◌, ◌≡◌, ◌↔◌, ◌≢◌, ◌⊎◌, if◌then◌else◌, ◌∙◌, refl, ltb, Bool, true, false, none,
  some, Bytes, codes, str_eq, str_eq_iff, length, Bool-cases, Option-cases, ◌++◌, Option, inl, inr,
  arith,
}
use tlsdate.Base.Int.{ℤ, pos, is_zero, to_u32}
use tlsdate.Bio.Runs.{Runs}
use tlsdate.Bio.{Bio, IsBio, Moved, Step, next, returned, fault, no_connect, null_host}
use tlsdate.Options.{atoi}
use tlsdate.Proxy.{validate_proxy_scheme}
use tlsdate.Proxy.Uri.{IsValid, valid_scheme, uri, parse_proxy_uri_iff}
use tlsdate.ProxyBio.EndingHttp.{http_connect-Runs}
use tlsdate.ProxyBio.EndingSocks.{socks4a_connect-Runs, socks5_connect-Runs}
use tlsdate.ProxyBio.Http.{IsReply, http_connect-Opened}
use tlsdate.ProxyBio.Packets.{whole_lines}
use tlsdate.ProxyBio.Setup.{setup_proxy}
use tlsdate.ProxyBio.Socks.{Granted, Granted4, socks5_connect-IsGrant, socks4a_connect-Granted4}
use tlsdate.ProxyBio.{
  ProxyCtx, Kind, socks4a, socks5, http, run_connect, after_connect, proxy_write, proxy_new,
  set_type, set_host, set_port, done, broken, connect_line, host_line,
}

-- What a handshake of the kind has sent and received: the whole request, and an answer that grants it.
abbrev pub Exchanged : {S : Type 0} → Bio S → Kind → Bytes → ℕ → S → S → Type 0
Exchanged bio socks4a host port s t = Granted4 bio host port s tt t
Exchanged bio socks5 host port s t = Granted bio host port s tt t
Exchanged bio http host port s t =
    (inn : Bytes) × Moved bio s (connect_line host port ++ (host_line host port ++ codes "\r\n"))
      inn t
    × IsReply inn

-- The context has a kind and a host, and the exchange of that kind is complete.
abbrev pub Completed : {S : Type 0} → Bio S → ProxyCtx → S → S → Type 0
Completed bio ctx s t =
    (kind : Kind) × (host : Bytes) × (ctx.connect ≡ some kind)
    × (ctx.host ≡ some host)
    × Exchanged bio kind host ctx.port s t

-- The host of a context is one that BIO_proxy_set_host takes.
abbrev pub HostFits : Option Bytes → Type 0
HostFits none = Unit
HostFits (some host) = length host < 1025

module _ {S : Type 0} (bio : Bio S) (laws : IsBio bio) (fuel : ℕ) where
  same_request :
      (s t : S) (a b c d rest inn : Bytes)
      → a ≡ c
      → b ≡ d
      → Moved bio s (a ++ (b ++ rest)) inn t
      → Moved bio s (c ++ (d ++ rest)) inn t
  same_request s t a b c d rest inn p q m = rw (p, q) at m

  connected_to :
      (ctx : ProxyCtx) (kind : Kind) (host : Bytes) (s : S) (a : Unit {0}) (t : S)
      → ctx.connect ≡ some kind
      → ctx.host ≡ some host
      → length host < 1025
      → run_connect bio fuel ctx s ≡ next a t
      → Exchanged bio kind host ctx.port s t
  unfolding run_connect
  connected_to ctx socks4a host s a t k h l e =
      socks4a_connect-Granted4 bio laws host ctx.port s a t (rw (run_connect, k, h) at e)
  connected_to ctx socks5 host s a t k h l e =
      socks5_connect-IsGrant bio laws host ctx.port s a t (rw (run_connect, k, h) at e)
  connected_to ctx http host s a t k h l e =
      let (inn, moved, reply) =
        http_connect-Opened bio laws fuel host ctx.port s a t (rw (run_connect, k, h) at e) in
      let lines = whole_lines host ctx.port l in
      (inn, same_request s t _ _ _ _ (codes "\r\n") inn lines.0 lines.1 moved, reply)

  -- Where `ctx->connect` succeeds, for a context whose host, if it has one, is of a length that
  -- BIO_proxy_set_host takes: the context has a kind and a host, and the exchange of that kind with the
  -- proxy was complete: the request was sent whole, and the answer grants it.
  pub run_connect-Exchanged :
      (ctx : ProxyCtx) (s : S) (a : Unit {0}) (t : S)
      → HostFits ctx.host
      → run_connect bio fuel ctx s ≡ next a t
      → Completed bio ctx s t
  unfolding run_connect
  run_connect-Exchanged ctx s a t l e = elim (Option-cases ctx.connect) [
    | inl k ↦
        let stops : ◌≡◌ {A = Step S (Unit {0})} (fault no_connect) (next a t) =
          rw (run_connect, k) at e in
        absurd cc
    | inr (kind, k) ↦ elim (Option-cases ctx.host) [
      | inl h ↦
          let stops : ◌≡◌ {A = Step S (Unit {0})} (fault null_host) (next a t) =
            rw (run_connect, k, h) at e in
          absurd cc
      | inr (host, h) ↦ (kind, host, k, h, connected_to ctx kind host s a t k h (rw (h) at l) e)
    ]
  ]

  -- For a context with a kind and a host, and a proxy that sends at most `limit` bytes, the handshake
  -- returns: no loop outlives its fuel, if that is more than `limit`.
  pub run_connect-Runs :
      (limit : ℕ) (ctx : ProxyCtx) (kind : Kind) (host : Bytes) (s : S)
      → ((t : S) → length (bio.received t) ≤ limit)
      → limit < fuel
      → ctx.connect ≡ some kind
      → ctx.host ≡ some host
      → Runs (run_connect bio fuel ctx s)
  unfolding run_connect
  run_connect-Runs limit ctx socks4a host s l f k h =
      rw (run_connect, k, h) (socks4a_connect-Runs bio laws host ctx.port s)
  run_connect-Runs limit ctx socks5 host s l f k h =
      rw (run_connect, k, h) (socks5_connect-Runs bio laws host ctx.port s)
  run_connect-Runs limit ctx http host s l f k h =
      rw (run_connect, k, h) (http_connect-Runs bio laws limit l fuel host ctx.port s f)

module _ {S : Type 0} (bio : Bio S) (fuel : ℕ) where
  -- A buffer that is not empty, written to a BIO that is not connected, whose handshake fails: where its
  -- result is 0, nothing more is written and 0 is returned; with any other result, so with -1, the buffer
  -- is written all the same, to a proxy that has granted nothing, and the BIO stays unconnected.
  pub failed_handshake :
      (ctx : ProxyCtx) (s t : S) (buf : Bytes) (r : ℤ)
      → ctx.connected ≡ false
      → 0 < length buf
      → run_connect bio fuel ctx s ≡ returned r t
      → proxy_write bio fuel ctx (some s) buf
        ≡ some (
            if is_zero r
            then done (pos 0) ctx t
            else done (bio.bio_write t buf).0 ctx (bio.bio_write t buf).1)
  unfolding proxy_write after_connect
  failed_handshake ctx s t buf r c l e =
      let some_bytes : ltb 0 (length buf) ≡ true = ground arith in
      elim (Bool-cases (is_zero r)) [
        | inl z ↦ simp (proxy_write, after_connect, some_bytes, c, e, z)
        | inr z ↦ simp (proxy_write, after_connect, some_bytes, c, e, z)
      ]

set_type-none_iff :
    (scheme : Bytes)
    → validate_proxy_scheme scheme ≡ true
    → ((set_type proxy_new scheme).1.connect ≡ none) ↔ (scheme ≡ codes "socks4")
unfolding validate_proxy_scheme set_type
set_type-none_iff scheme h = elim (Bool-cases (str_eq scheme (codes "http"))) [
  | inl e ↦ rw ((str_eq_iff scheme (codes "http")).0 e) (λ k. cc, λ k. cc)
  | inr e ↦ elim (Bool-cases (str_eq scheme (codes "socks4"))) [
    | inl f ↦ rw ((str_eq_iff scheme (codes "socks4")).0 f) (λ k. refl, λ k. refl)
    | inr f ↦
        let last : str_eq scheme (codes "socks5") ≡ true = rw (e, f) at h in
        rw ((str_eq_iff scheme (codes "socks5")).0 last) (λ k. cc, λ k. cc)
  ]
]

set_host-connect : (ctx : ProxyCtx) (host : Bytes) → (set_host ctx host).1.connect ≡ ctx.connect
unfolding set_host
set_host-connect ctx host = elim (Bool-cases (ltb (length host) 1025)) [
  | inl e ↦ rw (e) refl
  | inr e ↦ rw (e) refl
]

differ : (b : Bool) → b ≡ false → b ≡ true → ⊥
differ b h k = cc

unset_kind_breaks :
    {S : Type 0} (bio : Bio S) (fuel : ℕ) (ctx : ProxyCtx) (s : S) (buf : Bytes)
    → ctx.connected ≡ false
    → ctx.connect ≡ none
    → 0 < length buf
    → proxy_write bio fuel ctx (some s) buf ≡ some (broken no_connect)
unfolding proxy_write after_connect run_connect
unset_kind_breaks bio fuel ctx s buf c k l =
    let some_bytes : ltb 0 (length buf) ≡ true = ground arith in
    simp (proxy_write, after_connect, run_connect, some_bytes, c, k)

set_type-connected :
    (ctx : ProxyCtx) (type : Bytes) → (set_type ctx type).1.connected ≡ ctx.connected
unfolding set_type
set_type-connected ctx type = ground arith

set_host-connected :
    (ctx : ProxyCtx) (host : Bytes) → (set_host ctx host).1.connected ≡ ctx.connected
unfolding set_host
set_host-connected ctx host = ground arith

-- A URI that parse_proxy_uri takes leaves the BIO without a handshake exactly where its scheme is
-- "socks4", since BIO_proxy_set_type knows "socks4a" only and its result is not looked at; the first
-- write of a buffer that is not empty then fails at the assertion.
pub socks4_has_no_handshake :
    {S : Type 0} (bio : Bio S) (fuel : ℕ) (s : S)
    (buf scheme proxy_host proxy_port host port : Bytes)
    → IsValid scheme proxy_host proxy_port
    → 0 < length buf
    → (c : ProxyCtx) × (setup_proxy (uri scheme proxy_host proxy_port) host port
        ≡ some (record { ctx = c; connect_host = proxy_host; connect_port = proxy_port }))
      × ((c.connect ≡ none) ↔ (scheme ≡ codes "socks4"))
      × ((scheme ≢ codes "socks4")
          ⊎ (proxy_write bio fuel c (some s) buf ≡ some (broken no_connect)))
unfolding setup_proxy
socks4_has_no_handshake bio fuel s buf scheme proxy_host proxy_port host port v l =
    let u = uri scheme proxy_host proxy_port in
    let parsed = (parse_proxy_uri_iff u scheme proxy_host proxy_port).1 (refl, v) in
    let typed = (set_type proxy_new scheme).1 in
    let c = set_port (set_host typed host).1 (to_u32 (atoi port) % 2 ^ 16) in
    let kind : c.connect ≡ typed.connect = set_host-connect typed host in
    let fresh : c.connected ≡ false =
      set_host-connected typed host ∙ set_type-connected proxy_new scheme in
    let none_iff = set_type-none_iff scheme (valid_scheme v) in
    (
      c,
      rw (setup_proxy, parsed) refl,
      (λ h. none_iff.0 (rw (kind) at h), λ e. kind ∙ none_iff.1 e),
      elim (Bool-cases (str_eq scheme (codes "socks4"))) [
        | inl e ↦
            let same = (str_eq_iff scheme (codes "socks4")).0 e in
            inr (unset_kind_breaks bio fuel c s buf fresh (kind ∙ none_iff.1 same) l)
        | inr e ↦ inl (λ same. absurd (differ _ e ((str_eq_iff scheme (codes "socks4")).1 same)))
      ],
    )
