-- ===== src/Cros/Pac/Safety.antt =====
-- src/platform-cros.c: what `canonicalize_pac` lets through to the command line of the tlsdate child.
use tlsdate.Base.{
  ℕ, zero, suc, ◌<◌, ◌≡◌, refl, Bool, true, false, ◌||◌, [], ◌∷◌, ◌++◌, Option, none, some, ◌==◌,
  ltb, ltb→lt, arith, length, All, Bytes, codes, Bool-cases, Option-cases, ◌⊎◌, inl, inr, str_eq,
}
use tlsdate.Cros.Pac.{
  is_alnum, is_host_part, copy_hostport, get_valid_hostport, hostport_size, find_space, pac_scheme,
  printed, canonicalize_pac,
}

-- The byte may stand in a host and a port: a letter, a digit, a dash, a dot or a colon.
abbrev pub IsPlain : ℕ → Type 0
IsPlain c = (is_host_part c || c == b':') ≡ true

-- One of the four schemes.
abbrev pub IsScheme : Bytes → Type 0
IsScheme s =
    (s ≡ codes "http://")
    ⊎ ((s ≡ codes "socks4://") ⊎ ((s ≡ codes "socks5://") ⊎ (s ≡ codes "https://")))

-- A proxy URL that fits in `len` bytes with its final NUL, of a scheme and of plain bytes, at least one
-- of them.
abbrev pub IsProxyUrl : ℕ → Bytes → Type 0
IsProxyUrl len url =
    (scheme : Bytes) × (c : ℕ) × (rest : Bytes) × IsScheme scheme
    × All IsPlain (c ∷ rest)
    × (url ≡ scheme ++ c ∷ rest)
    × (length url < len)

copy_hostport-IsPlain :
    (len : ℕ) (host : Bool) (s : Bytes) → All IsPlain ((copy_hostport len host s).1)
unfolding copy_hostport
copy_hostport-IsPlain zero true [] = tt
copy_hostport-IsPlain zero false [] = tt
copy_hostport-IsPlain (suc len) true [] = tt
copy_hostport-IsPlain (suc len) false [] = tt
copy_hostport-IsPlain zero host (c ∷ s) = tt
copy_hostport-IsPlain (suc len) true (c ∷ s) =
    ground (arith, copy_hostport-IsPlain len true s, copy_hostport-IsPlain len false s)
copy_hostport-IsPlain (suc len) false (c ∷ s) = ground (arith, copy_hostport-IsPlain len false s)

get_valid_hostport-IsPlain :
    (s : Bytes) (len : ℕ)
    → (get_valid_hostport s len).0 ≡ true
    → (c : ℕ) × (rest : Bytes) × ((get_valid_hostport s len).1 ≡ c ∷ rest) × All IsPlain (c ∷ rest)
unfolding get_valid_hostport
get_valid_hostport-IsPlain [] len h = cc
get_valid_hostport-IsPlain (c ∷ s) len h = elim (Bool-cases (is_alnum c)) [
  | inr e ↦ absurd (ground arith)
  | inl e ↦
      let plain : IsPlain c = ground arith in
      rw e (c, (copy_hostport len true s).1, refl, (plain, copy_hostport-IsPlain len true s))
]

pac_scheme-IsScheme :
    (pac : Bytes) (n : ℕ) (scheme : Bytes) → pac_scheme pac n ≡ some scheme → IsScheme scheme
unfolding pac_scheme
pac_scheme-IsScheme pac n scheme h = ground arith

printed-url :
    (scheme : Option Bytes) (c : ℕ) (rest : Bytes) (len : ℕ)
    → ((s : Bytes) → scheme ≡ some s → IsScheme s)
    → All IsPlain (c ∷ rest)
    → (printed scheme (c ∷ rest) len ≡ []) ⊎ IsProxyUrl len (printed scheme (c ∷ rest) len)
printed-url none c rest len h k = inl refl
printed-url (some s) c rest len h k = elim (Bool-cases (ltb (length (s ++ c ∷ rest)) len)) [
  | inr e ↦ inl (rw e refl)
  | inl e ↦ inr (rw e (s, c, rest, h s refl, k, refl, ltb→lt _ _ e))
]

pub canonicalize_pac-IsProxyUrl :
    (pac : Bytes) (len : ℕ)
    → (canonicalize_pac pac len ≡ []) ⊎ IsProxyUrl len (canonicalize_pac pac len)
unfolding canonicalize_pac
canonicalize_pac-IsProxyUrl pac len = elim (Bool-cases (str_eq pac (codes "DIRECT"))) [
  | inl e ↦ inl (rw e refl)
  | inr e ↦ elim (Option-cases (find_space pac)) [
    | inl f ↦ inl (rw (e, f) refl)
    | inr ((n, rest), f) ↦ elim (Bool-cases (get_valid_hostport rest hostport_size).0) [
      | inr g ↦ inl (rw (e, f, g) refl)
      | inl g ↦
          let (c, more, q, plain) = get_valid_hostport-IsPlain rest hostport_size g in
          rw (e, f, g, q)
            (printed-url (pac_scheme pac n) c more len (pac_scheme-IsScheme pac n) plain)
    ]
  ]
]
