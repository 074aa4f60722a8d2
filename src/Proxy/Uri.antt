-- ===== src/Proxy/Uri.antt =====
-- src/tlsdate-helper.c: which proxy URIs `parse_proxy_uri` takes, and as what.
use tlsdate.Base.{
  ℕ, ◌≤◌, ◌⊎◌, Bool, All, is_digit, refl, ap, ◌∙◌, ◌≡◌, ◌↔◌, true, ◌&&◌, [], ◌∷◌, ◌++◌, Option,
  some, arith, Bytes, codes, str_eq, str_eq_iff, Bool-cases, Option-cases, inl, inr,
}
use tlsdate.Proxy.{
  strip_prefix, split_at, validate_proxy_scheme, validate_proxy_host, validate_proxy_port,
  validated, parse_proxy_uri, is_host_char,
}

-- A letter from A to Z or from a to z, a digit, a dot or a dash.
abbrev pub IsHostChar : ℕ → Type 0
IsHostChar c =
    ((65 ≤ c) × (c ≤ 90))
    ⊎ (((97 ≤ c) × (c ≤ 122)) ⊎ (((48 ≤ c) × (c ≤ 57)) ⊎ ((c ≡ 46) ⊎ (c ≡ 45))))

abbrev pub IsDigit : ℕ → Type 0
IsDigit c = (48 ≤ c) × (c ≤ 57)

-- The scheme is one of three, the host has only letters, digits, dots and dashes, and the port only digits.
pub record IsValid (scheme host port : Bytes) : Type 0 where
  pub scheme_ok : (scheme ≡ codes "http") ⊎ ((scheme ≡ codes "socks4") ⊎ (scheme ≡ codes "socks5"))
  pub host_ok : All IsHostChar host
  pub port_ok : All IsDigit port

is_host_char-IsHostChar : (c : ℕ) → (is_host_char c ≡ true) ↔ IsHostChar c
is_host_char-IsHostChar c = ground arith

is_digit-IsDigit : (c : ℕ) → (is_digit c ≡ true) ↔ IsDigit c
is_digit-IsDigit c = ground arith

and_iff : (a b : Bool) → ((a && b) ≡ true) ↔ ((a ≡ true) × (b ≡ true))
and_iff a b = ground arith

validate_proxy_host_iff : (s : Bytes) → (validate_proxy_host s ≡ true) ↔ All IsHostChar s
unfolding validate_proxy_host
validate_proxy_host_iff [] = (λ h. tt, λ h. refl)
validate_proxy_host_iff (c ∷ s) =
    let each = is_host_char-IsHostChar c in
    let rest = validate_proxy_host_iff s in
    let split = and_iff (is_host_char c) (validate_proxy_host s) in
    (λ h. (each.0 (split.0 h).0, rest.0 (split.0 h).1), λ h. split.1 (each.1 h.0, rest.1 h.1))

validate_proxy_port_iff : (s : Bytes) → (validate_proxy_port s ≡ true) ↔ All IsDigit s
unfolding validate_proxy_port
validate_proxy_port_iff [] = (λ h. tt, λ h. refl)
validate_proxy_port_iff (c ∷ s) =
    let each = is_digit-IsDigit c in
    let rest = validate_proxy_port_iff s in
    let split = and_iff (is_digit c) (validate_proxy_port s) in
    (λ h. (each.0 (split.0 h).0, rest.0 (split.0 h).1), λ h. split.1 (each.1 h.0, rest.1 h.1))

pub valid_scheme :
    {scheme host port : Bytes} → IsValid scheme host port → validate_proxy_scheme scheme ≡ true
unfolding validate_proxy_scheme
valid_scheme v = elim v.scheme_ok [
  | inl e ↦ rw (e) refl
  | inr (inl e) ↦ rw (e) refl
  | inr (inr e) ↦ rw (e) refl
]

scheme_of :
    (scheme : Bytes)
    → validate_proxy_scheme scheme ≡ true
    → (scheme ≡ codes "http") ⊎ ((scheme ≡ codes "socks4") ⊎ (scheme ≡ codes "socks5"))
unfolding validate_proxy_scheme
scheme_of scheme h = elim (Bool-cases (str_eq scheme (codes "http"))) [
  | inl e ↦ inl ((str_eq_iff scheme (codes "http")).0 e)
  | inr e ↦ elim (Bool-cases (str_eq scheme (codes "socks4"))) [
    | inl f ↦ inr (inl ((str_eq_iff scheme (codes "socks4")).0 f))
    | inr f ↦
        let last : str_eq scheme (codes "socks5") ≡ true = rw (e, f) at h in
        inr (inr ((str_eq_iff scheme (codes "socks5")).0 last))
  ]
]

validators_iff :
    (scheme host port : Bytes)
    → ((validate_proxy_scheme scheme && validate_proxy_host host && validate_proxy_port port)
        ≡ true)
      ↔ IsValid scheme host port
validators_iff scheme host port =
    let outer =
      and_iff (validate_proxy_scheme scheme && validate_proxy_host host)
        (validate_proxy_port port) in
    let inner = and_iff (validate_proxy_scheme scheme) (validate_proxy_host host) in
    (
      λ h. record {
        scheme_ok = scheme_of scheme (inner.0 (outer.0 h).0).0;
        host_ok = (validate_proxy_host_iff host).0 (inner.0 (outer.0 h).0).1;
        port_ok = (validate_proxy_port_iff port).0 (outer.0 h).1;
      },
      λ v. outer.1 (
        inner.1 (valid_scheme v, (validate_proxy_host_iff host).1 v.host_ok),
        (validate_proxy_port_iff port).1 v.port_ok,
      ),
    )

-- A URI of the three parts.
abbrev pub uri : Bytes → Bytes → Bytes → Bytes
uri scheme host port = scheme ++ (codes "://" ++ (host ++ (codes ":" ++ port)))

strip_prefix_join : (m s r : Bytes) → strip_prefix m s ≡ some r → s ≡ m ++ r
unfolding strip_prefix
strip_prefix_join [] s r h = cc
strip_prefix_join (p ∷ m) [] r h = cc
strip_prefix_join (p ∷ m) (c ∷ s) r h = ground (arith, strip_prefix_join m s r)

split_at_join : (m s a r : Bytes) → split_at m s ≡ some (a, r) → s ≡ a ++ (m ++ r)
unfolding split_at
split_at_join m [] a r h = cc
split_at_join m (c ∷ s) a r h = elim (Option-cases (strip_prefix m (c ∷ s))) [
  | inr (rest, e) ↦
      let first : ◌≡◌ {A = Option (Bytes × Bytes)} (some ([], rest)) (some (a, r)) =
        rw (split_at, e) at h in
      strip_prefix_join m (c ∷ s) rest e ∙ cc
  | inl e ↦ elim (Option-cases (split_at m s)) [
    | inl q ↦ absurd (ground arith)
    | inr ((b, t), q) ↦ ap (◌∷◌ c) (split_at_join m s b t q) ∙ ground arith
  ]
]

-- A host has no colon, so that the first one ends it.
pub split_at-host :
    (host port : Bytes)
    → validate_proxy_host host ≡ true
    → split_at (codes ":") (host ++ (codes ":" ++ port)) ≡ some (host, port)
unfolding split_at strip_prefix validate_proxy_host
split_at-host [] port h = refl
split_at-host (c ∷ host) port h = ground (arith, split_at-host host port)

split_at-scheme :
    (scheme host port address : Bytes)
    → IsValid scheme host port
    → split_at (codes "://") (scheme ++ (codes "://" ++ address)) ≡ some (scheme, address)
unfolding split_at strip_prefix
split_at-scheme scheme host port address v = elim v.scheme_ok [
  | inl e ↦ rw (e) refl
  | inr (inl e) ↦ rw (e) refl
  | inr (inr e) ↦ rw (e) refl
]

takes :
    (scheme host port : Bytes)
    → IsValid scheme host port
    → parse_proxy_uri (uri scheme host port) ≡ some (scheme, host, port)
unfolding parse_proxy_uri
takes scheme host port v =
    rw
      (
        parse_proxy_uri,
        split_at-scheme scheme host port (host ++ (codes ":" ++ port)) v,
        split_at-host host port ((validate_proxy_host_iff host).1 v.host_ok),
        (validators_iff scheme host port).1 v,
      )
      refl

accepted :
    (s a b d scheme host port : Bytes)
    → s ≡ uri a b d
    → validated a b d ≡ some (scheme, host, port)
    → (s ≡ uri scheme host port) × IsValid scheme host port
accepted s a b d scheme host port w t =
    elim (Bool-cases (validate_proxy_scheme a && validate_proxy_host b && validate_proxy_port d)) [
      | inl v ↦
          let same : ◌≡◌ {A = Option (Bytes × Bytes × Bytes)} (some (a, b, d))
              (some (scheme, host, port)) =
            rw v at t in
          let sa : a ≡ scheme = cc in
          let sb : b ≡ host = cc in
          let sd : d ≡ port = cc in (cc, rw (sa, sb, sd) at ((validators_iff a b d).0 v))
      | inr v ↦ absurd (ground arith)
    ]

parsed :
    (s scheme host port : Bytes)
    → parse_proxy_uri s ≡ some (scheme, host, port)
    → (s ≡ uri scheme host port) × IsValid scheme host port
unfolding parse_proxy_uri
parsed s scheme host port h = elim (Option-cases (split_at (codes "://") s)) [
  | inl e ↦ absurd (ground arith)
  | inr ((a, address), e) ↦ elim (Option-cases (split_at (codes ":") address)) [
    | inl f ↦ absurd (ground arith)
    | inr ((b, d), f) ↦
        let tested : validated a b d ≡ some (scheme, host, port) =
          rw (parse_proxy_uri, e, f) at h in
        let whole : s ≡ uri a b d =
          split_at_join (codes "://") s a address e
          ∙ ap (λ t. a ++ (codes "://" ++ t)) (split_at_join (codes ":") address b d f) in
        accepted s a b d scheme host port whole tested
  ]
]

-- `parse_proxy_uri` takes a string, as three parts, exactly if the string is the scheme, "://", the
-- host, ":" and the port, the scheme is http, socks4 or socks5, the host has only letters, digits,
-- dots and dashes, and the port only digits.
pub parse_proxy_uri_iff :
    (s scheme host port : Bytes)
    → (parse_proxy_uri s ≡ some (scheme, host, port))
      ↔ ((s ≡ uri scheme host port) × IsValid scheme host port)
parse_proxy_uri_iff s scheme host port =
    (parsed s scheme host port, λ h. rw (h.0) (takes scheme host port h.1))
