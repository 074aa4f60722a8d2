-- ===== src/Wildcard/Matching.antt =====
-- src/tlsdate-helper.c: which names in certificates the wildcard check accepts.
use tlsdate.Base.{
  ℕ, ◌≡◌, ◌≢◌, ◌↔◌, ap₂, ap, ◌∙◌, true, [], ◌∷◌, ◌++◌, none, some, arith, Bytes, str_case_eq,
  Option-cases, inl, inr,
}
use tlsdate.Wildcard.Labels.{
  NoDot, split_label-NoDot, split_label_first, split_label_join, dns_label_count_three,
  dns_label_count_cases, has_dot-split,
}
use tlsdate.Wildcard.{dot, split_label, strsep, dns_label_count, check_wildcard_match_rfc2595}

-- The name in the certificate starts with "*" and has two dots; the host has two dots; their second
-- labels are equal but for case. The first label of the host, the rest of the first label of the
-- certificate, and all that follows the second labels are whatever they are.
pub record Covers (host cert : Bytes) : Type 0 where
  pub star : Bytes
  pub label : Bytes
  pub tail : Bytes
  pub first : Bytes
  pub second : Bytes
  pub rest : Bytes
  pub cert_is : cert ≡ b'*' ∷ (star ++ dot ∷ (label ++ dot ∷ tail))
  pub host_is : host ≡ first ++ dot ∷ (second ++ dot ∷ rest)
  pub star_NoDot : NoDot star
  pub label_NoDot : NoDot label
  pub first_NoDot : NoDot first
  pub second_NoDot : NoDot second
  pub same : str_case_eq second label ≡ true

accepts :
    (star label tail first second rest : Bytes)
    → NoDot star
    → NoDot label
    → NoDot first
    → NoDot second
    → str_case_eq second label ≡ true
    → check_wildcard_match_rfc2595
        (first ++ dot ∷ (second ++ dot ∷ rest))
        (b'*' ∷ (star ++ dot ∷ (label ++ dot ∷ tail)))
      ≡ some true
unfolding check_wildcard_match_rfc2595 strsep
accepts star label tail first second rest hs hl hf hc same = ground (
  arith,
  dns_label_count_three b'*' (star ++ dot ∷ (label ++ dot ∷ tail)) (omega arith),
  has_dot-split first (second ++ dot ∷ rest),
  has_dot-split star (label ++ dot ∷ tail),
  split_label-NoDot (b'*' ∷ star) (label ++ dot ∷ tail) (omega arith, hs),
  split_label-NoDot label tail hl,
  split_label-NoDot first (second ++ dot ∷ rest) hf,
  split_label-NoDot second rest hc,
)

-- What the code has found when it accepts.
record Found (c : ℕ) (cs host : Bytes) : Type 0 where
  cert_rest : Bytes
  host_rest : Bytes
  tail : Bytes
  rest : Bytes
  star_is : c ≡ b'*'
  cert_split : (split_label cs).1 ≡ some cert_rest
  host_split : (split_label host).1 ≡ some host_rest
  label_split : (split_label cert_rest).1 ≡ some tail
  second_split : (split_label host_rest).1 ≡ some rest
  same : str_case_eq (split_label host_rest).0 (split_label cert_rest).0 ≡ true

found :
    (c : ℕ) (cs host : Bytes)
    → check_wildcard_match_rfc2595 host (c ∷ cs) ≡ some true
    → Found c cs host
unfolding check_wildcard_match_rfc2595 strsep split_label
found c cs host h = elim (Option-cases (split_label cs).1) [
  | inl e ↦ absurd (ground arith)
  | inr (x, ex) ↦ elim (Option-cases (split_label host).1) [
    | inl e ↦ absurd (ground arith)
    | inr (y, ey) ↦ elim (Option-cases (split_label x).1) [
      | inl e ↦ absurd (ground arith)
      | inr (t, et) ↦ elim (Option-cases (split_label y).1) [
        | inl e ↦ absurd (ground arith)
        | inr (r, er) ↦ record {
          cert_rest = x;
          host_rest = y;
          tail = t;
          rest = r;
          star_is = ground arith;
          cert_split = ex;
          host_split = ey;
          label_split = et;
          second_split = er;
          same = ground arith;
        }
      ]
    ]
  ]
]

Found-Covers : (c : ℕ) (cs host : Bytes) → Found c cs host → Covers host (c ∷ cs)
Found-Covers c cs host f = record {
  star = (split_label cs).0;
  label = (split_label f.cert_rest).0;
  tail = f.tail;
  first = (split_label host).0;
  second = (split_label f.host_rest).0;
  rest = f.rest;
  cert_is = ap₂ ◌∷◌ f.star_is (
      split_label_join cs f.cert_rest f.cert_split
      ∙ ap (λ s. (split_label cs).0 ++ dot ∷ s)
          (split_label_join f.cert_rest f.tail f.label_split));
  host_is =
      split_label_join host f.host_rest f.host_split
      ∙ ap (λ s. (split_label host).0 ++ dot ∷ s)
          (split_label_join f.host_rest f.rest f.second_split);
  star_NoDot = split_label_first cs;
  label_NoDot = split_label_first f.cert_rest;
  first_NoDot = split_label_first host;
  second_NoDot = split_label_first f.host_rest;
  same = f.same;
}

check-Covers :
    (host cert : Bytes) → check_wildcard_match_rfc2595 host cert ≡ some true → Covers host cert
unfolding check_wildcard_match_rfc2595 dns_label_count
check-Covers host [] h = absurd (ground arith)
check-Covers host (c ∷ cs) h = Found-Covers c cs host (found c cs host h)

Covers-check :
    (host cert : Bytes) → Covers host cert → check_wildcard_match_rfc2595 host cert ≡ some true
Covers-check host cert v =
    rw (v.cert_is, v.host_is)
      (accepts v.star v.label v.tail v.first v.second v.rest v.star_NoDot v.label_NoDot
        v.first_NoDot v.second_NoDot v.same)

-- The check accepts a certificate's name exactly when the name starts with "*", both it and the host
-- have two dots, and their second labels are equal but for case. What stands behind the second
-- labels is not compared at all.
pub check_wildcard_match_iff :
    (host cert : Bytes) → (check_wildcard_match_rfc2595 host cert ≡ some true) ↔ Covers host cert
check_wildcard_match_iff host cert = (check-Covers host cert, Covers-check host cert)

-- The two rounds of fuel that the loop gets are enough, and so is that of the count of labels: the
-- check always gives an answer.
pub check_wildcard_match_total : (host cert : Bytes) → check_wildcard_match_rfc2595 host cert ≢ none
unfolding check_wildcard_match_rfc2595 strsep
check_wildcard_match_total host cert = elim (dns_label_count_cases cert) [
  | inl (_, e) ↦ ground arith
  | inr (_, e) ↦ ground arith
]
