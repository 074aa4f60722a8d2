-- ===== src/Wildcard.antt =====
-- src/tlsdate-helper.c: `dns_label_count` and `check_wildcard_match_rfc2595`, which decides whether a
-- subjectAltName with a wildcard covers the host. The delimiter is always ".", the wildcard "*".
pub mod Labels
pub mod Matching
use tlsdate.Base.{
  ℕ, zero, suc, ◌+◌, Bool, true, false, not, ◌&&◌, List, [], ◌∷◌, Option, none, some, leb, ◌==◌,
  if◌then◌else◌, length, Bytes, str_case_eq,
}

abbrev pub dot : ℕ
dot = b'.'

-- `s[0] == c`; an empty string starts with NUL.
abbrev pub starts_with : ℕ → Bytes → Bool
starts_with c [] = false
starts_with c (x ∷ s) = x == c

-- `strpbrk (s, ".") != NULL`.
unfoldable pub has_dot : Bytes → Bool
has_dot [] = false
has_dot (c ∷ s) = if c == dot then true else has_dot s

abbrev cons_label : ℕ → Bytes × Option Bytes → Bytes × Option Bytes
cons_label c (label, rest) = (c ∷ label, rest)

-- The string up to its first dot, and what follows that dot, if there is one.
unfoldable pub split_label : Bytes → Bytes × Option Bytes
split_label [] = ([], none)
split_label (c ∷ s) = if c == dot then ([], some s) else cons_label c (split_label s)

-- `strsep (&s, ".")`: the token, and the new value of the pointer.
unfoldable pub strsep : Option Bytes → Option Bytes × Option Bytes
strsep none = (none, none)
strsep (some s) = (some (split_label s).0, (split_label s).1)

abbrev or_empty : Option Bytes → Bytes
or_empty none = []
or_empty (some s) = s

-- `strtok_r` from a saved string: the token, and the string at the pointer that it saves.
unfoldable pub strtok : Bytes → Option (Bytes × Bytes)
unfolding split_label
strtok [] = none
strtok (c ∷ s) =
    if c == dot then strtok s else some (c ∷ (split_label s).0, or_empty (split_label s).1)

-- The `do` loop of `dns_label_count`, with fuel.
unfoldable pub count_labels : ℕ → Bytes → Option ℕ
count_labels zero saved = none
count_labels (suc f) saved = elim (strtok saved) [
  | none ↦ some 1
  | some (_, saved') ↦ elim (count_labels f saved') [ none ↦ none | some n ↦ some (suc n) ]
]

add_first : ℕ → Option ℕ → Option ℕ
add_first n none = none
add_first n (some k) = some (n + k)

-- `dns_label_count`. The first call of `strtok_r` is also assigned to the save pointer, which then
-- points at the first token again; behind that token stands the NUL that `strtok_r` wrote.
unfoldable pub dns_label_count : Bytes → Option ℕ
unfolding add_first
dns_label_count label = elim (strtok label) [
  | none ↦ some 0
  | some (token, _) ↦
      add_first (if not (starts_with dot token) then 1 else 0)
        (count_labels (suc (suc (length token))) token)
]

abbrev pub rfc2595_min_label_count : ℕ
rfc2595_min_label_count = 3

-- The two flags of the function: `wildcard_encountered` and `ok`.
pub record Flags : Type 0 where
  pub wildcard_encountered : Bool
  pub ok : Bool

-- The branch of two labels with more behind them on both sides. `again` is the next round.
compare_labels : ℕ → Bool → Bytes → Bytes → Option Flags → Option Flags
compare_labels count wild expected wildcard again =
    if starts_with b'*' wildcard && not wild
    then (if leb count rfc2595_min_label_count
        then again
        else some (record { wildcard_encountered = true; ok = false }))
    else some (record {
      wildcard_encountered = wild;
      ok = str_case_eq expected wildcard && leb rfc2595_min_label_count count;
    })

-- The `do` loop, with fuel, on the two pointers. Where one of the four is NULL it ends; `ok` is then
-- still 0, since it is set only where the loop ends.
match_loop : ℕ → ℕ → Bool → Option Bytes → Option Bytes → Option Flags
unfolding compare_labels
match_loop zero count wild host cert = none
match_loop (suc f) count wild host cert =
    let (wildcard, cert') = strsep cert in
    let (expected, host') = strsep host in
    let again = match_loop f count true host' cert' in
    let stop : Option Flags = some (record { wildcard_encountered = wild; ok = false }) in
    elim wildcard [
      | none ↦ stop
      | some w ↦ elim expected [
        | none ↦ stop
        | some e ↦ elim host' [
          | none ↦ stop
          | some _ ↦ elim cert' [ none ↦ stop | some _ ↦ compare_labels count wild e w again ]
        ]
      ]
    ]

-- The conditions before the loop; the flags stay 0 where they fail.
run_match : ℕ → Bytes → Bytes → Option Flags
unfolding match_loop has_dot
run_match count host cert =
    if has_dot cert && has_dot host && leb count rfc2595_min_label_count && starts_with b'*' cert
    then match_loop 2 count false (some host) (some cert)
    else some (record { wildcard_encountered = false; ok = false })

verdict : ℕ → Option Flags → Option Bool
verdict count none = none
verdict count (some f) = some (f.wildcard_encountered && f.ok && leb rfc2595_min_label_count count)

matched : Bytes → Bytes → Option ℕ → Option Bool
matched host cert none = none
matched host cert (some count) = verdict count (run_match count host cert)

-- `check_wildcard_match_rfc2595`; `none` would be a lack of fuel.
unfoldable pub check_wildcard_match_rfc2595 : Bytes → Bytes → Option Bool
unfolding matched run_match verdict
check_wildcard_match_rfc2595 orig_hostname orig_cert_wild_card =
    matched orig_hostname orig_cert_wild_card (dns_label_count orig_cert_wild_card)
