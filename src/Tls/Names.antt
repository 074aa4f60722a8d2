-- ===== src/Tls/Names.antt =====
-- src/tlsdate-helper.c: which certificates `check_name` and `check_key_length` accept.
use tlsdate.Base.{
  ℕ, ◌≡◌, ◌≢◌, ◌↔◌, ◌⊎◌, inl, inr, refl, Bool, true, false, not, ◌&&◌, ◌||◌, List, [], ◌∷◌, Option,
  none, some, length, Bytes, codes, str_eq, str_eq_iff, str_case_eq, arith, Bool-cases, if_cases,
}
use tlsdate.Base.Int.{ℤ, pos, is_minus_one, is_count}
use tlsdate.ProxyBio.{c_string}
use tlsdate.Tls.{
  GeneralName, Content, Extension, Certificate, check_cn, name_matches, check_names, is_match,
  check_content, check_san, check_extensions, check_name,
}
use tlsdate.Wildcard.Matching.{Covers, check_wildcard_match_iff}

-- The name is that of the host, but for case, or a wildcard for it.
pub data IsNameOf (hostname : Bytes) (n : GeneralName) : Type 0 where
  dns :
      str_case_eq n.name (codes "DNS") ≡ true
      → str_case_eq n.value hostname ≡ true
      → IsNameOf hostname n
  address :
      str_case_eq n.name (codes "iPAddress") ≡ true
      → str_case_eq n.value hostname ≡ true
      → IsNameOf hostname n
  wildcard : str_case_eq n.name (codes "DNS") ≡ true → Covers hostname n.value → IsNameOf hostname n

-- One of the names.
pub data Among (hostname : Bytes) : List GeneralName → Type 0 where
  this : (n : GeneralName) (ns : List GeneralName) → IsNameOf hostname n → Among hostname (n ∷ ns)
  later : (n : GeneralName) (ns : List GeneralName) → Among hostname ns → Among hostname (n ∷ ns)

-- One of the names of an extension subjectAltName; each such extension before it was decoded.
pub data Listed (hostname : Bytes) : List Extension → Type 0 where
  here :
      (x : Extension) (xs : List Extension) (ns : List GeneralName)
      → x.short_name ≡ codes "subjectAltName"
      → x.content ≡ Content.names ns
      → Among hostname ns
      → Listed hostname (x ∷ xs)
  skip :
      (x : Extension) (xs : List Extension)
      → x.short_name ≢ codes "subjectAltName"
      → Listed hostname xs
      → Listed hostname (x ∷ xs)
  past :
      (x : Extension) (xs : List Extension)
      → x.content ≢ Content.no_method
      → x.content ≢ Content.not_decoded
      → Listed hostname xs
      → Listed hostname (x ∷ xs)

-- The common name can be read, without a NUL in it, and it or one of the alternative names is that
-- of the host.
pub record Names (hostname : Bytes) (cert : Certificate) : Type 0 where
  pub readable : cert.common_name.0 ≡ pos (length (c_string cert.common_name.1))
  pub named :
      (str_case_eq (c_string cert.common_name.1) hostname ≡ true) ⊎ Listed hostname cert.extensions

or_iff : (a b : Bool) → ((a || b) ≡ true) ↔ ((a ≡ true) ⊎ (b ≡ true))
or_iff a b = ground arith

and_iff : (a b : Bool) → ((a && b) ≡ true) ↔ ((a ≡ true) × (b ≡ true))
and_iff a b = ground arith

is_match_iff : (o : Option Bool) → (is_match o ≡ true) ↔ (o ≡ some true)
is_match_iff none = (λ h. cc, λ h. cc)
is_match_iff (some b) = ground arith

name_matches-to :
    (hostname : Bytes) (n : GeneralName) → name_matches hostname n ≡ true → IsNameOf hostname n
name_matches-to hostname n h = elim ((or_iff _ _).0 h) [
  | inr w ↦
      let (d, m) = (and_iff _ _).0 w in
      IsNameOf.wildcard d ((check_wildcard_match_iff hostname n.value).0 ((is_match_iff _).0 m))
  | inl o ↦ elim ((or_iff _ _).0 o) [
    | inl d ↦ let (a, b) = (and_iff _ _).0 d in IsNameOf.dns a b
    | inr d ↦ let (a, b) = (and_iff _ _).0 d in IsNameOf.address a b
  ]
]

name_matches-of :
    (hostname : Bytes) (n : GeneralName) → IsNameOf hostname n → name_matches hostname n ≡ true
name_matches-of hostname n (IsNameOf.dns a b) = rw (a, b) refl
name_matches-of hostname n (IsNameOf.address a b) =
    (or_iff _ _).1 (inl ((or_iff _ _).1 (inr ((and_iff _ _).1 (a, b)))))
name_matches-of hostname n (IsNameOf.wildcard a w) = (or_iff _ _).1 (
    inr ((and_iff _ _).1 (a, (is_match_iff _).1 ((check_wildcard_match_iff hostname n.value).1 w))))

check_names-to :
    (hostname : Bytes) (ns : List GeneralName) → check_names hostname ns ≡ true → Among hostname ns
unfolding check_names
check_names-to hostname [] h = cc
check_names-to hostname (n ∷ ns) h = elim ((or_iff _ _).0 h) [
  | inl k ↦ this n ns (name_matches-to hostname n k)
  | inr k ↦ later n ns (check_names-to hostname ns k)
]

check_names-of :
    (hostname : Bytes) (ns : List GeneralName) → Among hostname ns → check_names hostname ns ≡ true
unfolding check_names
check_names-of hostname [] k = elim k [ ]
check_names-of hostname (n ∷ ns) (this _ _ k) = (or_iff _ _).1 (inl (name_matches-of hostname n k))
check_names-of hostname (n ∷ ns) (later _ _ k) = (or_iff _ _).1 (inr (check_names-of hostname ns k))

content-to :
    (hostname : Bytes) (x : Extension) (xs : List Extension) (c : Content) (b : Bool)
    → x.content ≡ c
    → x.short_name ≡ codes "subjectAltName"
    → (b ≡ true → Listed hostname xs)
    → check_content hostname c b ≡ true
    → Listed hostname (x ∷ xs)
unfolding check_content
content-to hostname x xs Content.no_method b e n f h = cc
content-to hostname x xs Content.not_decoded b e n f h = cc
content-to hostname x xs Content.not_printed b e n f h =
    past x xs (λ q. absurd cc) (λ q. absurd cc) (f h)
content-to hostname x xs (Content.names ns) b e n f h = elim ((or_iff _ _).0 h) [
  | inl k ↦ here x xs ns n e (check_names-to hostname ns k)
  | inr k ↦ past x xs (λ q. absurd cc) (λ q. absurd cc) (f k)
]

check_extensions-to :
    (hostname : Bytes) (xs : List Extension)
    → check_extensions hostname xs ≡ true
    → Listed hostname xs
unfolding check_extensions
check_extensions-to hostname [] h = cc
check_extensions-to hostname (x ∷ xs) h =
    elim (Bool-cases (str_eq x.short_name (codes "subjectAltName"))) [
      | inl e ↦
          content-to hostname x xs x.content (check_extensions hostname xs) refl
            ((str_eq_iff x.short_name (codes "subjectAltName")).0 e)
            (check_extensions-to hostname xs) (rw (check_extensions, e) at h)
      | inr e ↦
          skip x xs
            (λ q. absurd (apart _ e ((str_eq_iff x.short_name (codes "subjectAltName")).1 q)))
            (check_extensions-to hostname xs (rw (check_extensions, e) at h))
    ]
  where
    apart : (b : Bool) → b ≡ false → b ≡ true → ⊥
    apart b h k = cc

content-later :
    (hostname : Bytes) (c : Content)
    → c ≢ Content.no_method
    → c ≢ Content.not_decoded
    → check_content hostname c true ≡ true
unfolding check_content
content-later hostname Content.no_method n d = absurd (n refl)
content-later hostname Content.not_decoded n d = absurd (d refl)
content-later hostname Content.not_printed n d = refl
content-later hostname (Content.names ns) n d = (or_iff _ _).1 (inr refl)

check_extensions-of :
    (hostname : Bytes) (xs : List Extension)
    → Listed hostname xs
    → check_extensions hostname xs ≡ true
unfolding check_extensions check_content
check_extensions-of hostname [] k = elim k [ ]
check_extensions-of hostname (x ∷ xs) (here _ _ ns n c k) =
    rw (n, c, check_names-of hostname ns k) refl
check_extensions-of hostname (x ∷ xs) (skip _ _ n k) =
    let no : str_eq x.short_name (codes "subjectAltName") ≡ false =
      elim (Bool-cases (str_eq x.short_name (codes "subjectAltName"))) [
        | inr e ↦ e
        | inl e ↦ absurd (n ((str_eq_iff x.short_name (codes "subjectAltName")).0 e))
      ] in
    rw (no) (check_extensions-of hostname xs k)
check_extensions-of hostname (x ∷ xs) (past _ _ n d k) =
    let rest = check_extensions-of hostname xs k in
    rw rest (
      if_cases (λ b. b ≡ true) (str_eq x.short_name (codes "subjectAltName")) _ _
        (λ e. content-later hostname x.content n d) (λ e. refl))

readable_iff :
    (ret : ℤ) (n : ℕ) → ((is_minus_one ret || not (is_count ret n)) ≡ false) ↔ (ret ≡ pos n)
readable_iff ret n = ground arith

check_cert-to :
    (hostname : Bytes) (cert : Certificate)
    → check_name (some cert) hostname ≡ true
    → Names hostname cert
unfolding check_name check_cn
check_cert-to hostname cert h =
    let n = length (c_string cert.common_name.1) in
    elim (Bool-cases (is_minus_one cert.common_name.0 || not (is_count cert.common_name.0 n))) [
      | inl e ↦ let no : false ≡ true = rw (check_name, check_cn, e) at h in absurd cc
      | inr e ↦ record {
        readable = (readable_iff cert.common_name.0 n).0 e;
        named = elim ((or_iff _ _).0 (rw (check_name, check_cn, e) at h)) [
          | inl k ↦ inl k
          | inr k ↦ inr (check_extensions-to hostname cert.extensions k)
        ];
      }
    ]

check_cert-of :
    (hostname : Bytes) (cert : Certificate)
    → Names hostname cert
    → check_name (some cert) hostname ≡ true
unfolding check_name check_cn
check_cert-of hostname cert v =
    let n = length (c_string cert.common_name.1) in
    let ok = (readable_iff cert.common_name.0 n).1 v.readable in
    rw (check_name, check_cn, ok)
      ((or_iff (str_case_eq (c_string cert.common_name.1) hostname) (check_san cert hostname)).1
        (elim v.named [
          | inl k ↦ inl k
          | inr k ↦ inr (check_extensions-of hostname cert.extensions k)
        ]))

-- `check_name` goes on exactly if there is a certificate that names the host: its common name can be
-- read and has no NUL in it, and it, or one of the alternative names, is the host's but for case or
-- is a wildcard that the wildcard check accepts. The alternative names behind an extension
-- subjectAltName that cannot be decoded do not count.
pub check_name_iff :
    (cert : Option Certificate) (hostname : Bytes)
    → (check_name cert hostname ≡ true) ↔ ((c : Certificate) × (cert ≡ some c) × Names hostname c)
unfolding check_name
check_name_iff none hostname = (λ h. cc, λ h. absurd (apart h.0 h.1))
  where
    apart : (c : Certificate) → none ≡ some c → ⊥
    apart c e = cc
check_name_iff (some cert) hostname = (
  λ h. (cert, refl, check_cert-to hostname cert h),
  λ h. rw (h.1) (check_cert-of hostname h.0 h.2),
)
