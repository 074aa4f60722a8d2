-- ===== src/Proxy.antt =====
-- src/tlsdate-helper.c: `parse_proxy_uri` and its three validators. The pointers into the string that
-- it cuts up are the three strings; `none` is `die`.
pub mod Uri
use tlsdate.Base.{
  ℕ, Bool, true, false, ◌&&◌, ◌||◌, List, [], ◌∷◌, Option, none, some, leb, ◌==◌, if◌then◌else◌,
  Bytes, codes, str_eq, is_digit,
}

-- The string behind a prefix, if it has that prefix.
unfoldable pub strip_prefix : Bytes → Bytes → Option Bytes
strip_prefix [] s = some s
strip_prefix (p ∷ ps) [] = none
strip_prefix (p ∷ ps) (c ∷ s) = elim (p == c) [ true ↦ strip_prefix ps s | false ↦ none ]

abbrev pub cons_left : ℕ → Option (Bytes × Bytes) → Option (Bytes × Bytes)
cons_left c none = none
cons_left c (some (left, right)) = some (c ∷ left, right)

-- `strstr (s, mark)`, for a mark that is not empty: what stands before its first place, and behind.
unfoldable pub split_at : Bytes → Bytes → Option (Bytes × Bytes)
split_at mark [] = none
split_at mark (c ∷ s) = elim (strip_prefix mark (c ∷ s)) [
  | some rest ↦ some ([], rest)
  | none ↦ cons_left c (split_at mark s)
]

-- The schemes of `validate_proxy_scheme`.
unfoldable pub validate_proxy_scheme : Bytes → Bool
validate_proxy_scheme scheme =
    str_eq scheme (codes "http") || str_eq scheme (codes "socks4") || str_eq scheme (codes "socks5")

-- The characters of `kValid`.
abbrev pub is_host_char : ℕ → Bool
is_host_char c =
    (leb 65 c && leb c 90) || (leb 97 c && leb c 122) || is_digit c || c == b'.' || c == b'-'

unfoldable pub validate_proxy_host : Bytes → Bool
validate_proxy_host [] = true
validate_proxy_host (c ∷ s) = is_host_char c && validate_proxy_host s

unfoldable pub validate_proxy_port : Bytes → Bool
validate_proxy_port [] = true
validate_proxy_port (c ∷ s) = is_digit c && validate_proxy_port s

-- The three parts, if the validators pass them.
abbrev pub validated : Bytes → Bytes → Bytes → Option (Bytes × Bytes × Bytes)
validated scheme host port =
    if validate_proxy_scheme scheme && validate_proxy_host host && validate_proxy_port port
    then some (scheme, host, port)
    else none

-- `parse_proxy_uri`: the scheme, the host and the port.
unfoldable pub parse_proxy_uri : Bytes → Option (Bytes × Bytes × Bytes)
parse_proxy_uri proxy = elim (split_at (codes "://") proxy) [
  | none ↦ none
  | some (scheme, address) ↦ elim (split_at (codes ":") address) [
    | none ↦ none
    | some (host, port) ↦ validated scheme host port
  ]
]
