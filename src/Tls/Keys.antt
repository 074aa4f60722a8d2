-- ===== src/Tls/Keys.antt =====
-- src/tlsdate-helper.c: which keys `check_key_length` accepts.
use tlsdate.Base.{
  ℕ, ◌≤◌, ◌≡◌, ◌≢◌, ◌↔◌, ◌⊎◌, inl, inr, refl, true, false, Option, none, some, arith, Option-cases,
}
use tlsdate.Tls.{KeyType, Key, Certificate, keybits, is_ec, safe_bits, safe_key, check_key_length}

-- The key is an elliptic one of 160 to 521 bits, or of another known type and of 1024 bits at least.
abbrev pub SafeKey : Key → Type 0
SafeKey k =
    (k.key_type ≢ KeyType.unknown)
    × (((is_ec k.key_type ≡ true) × (160 ≤ k.bits) × (k.bits ≤ 521))
        ⊎ ((is_ec k.key_type ≡ false) × (1024 ≤ k.bits)))

safe_bits_iff :
    (t : KeyType) (n : ℕ)
    → (safe_bits t n ≡ true)
      ↔ (((is_ec t ≡ true) × (160 ≤ n) × (n ≤ 521)) ⊎ ((is_ec t ≡ false) × (1024 ≤ n)))
safe_bits_iff t n = ground arith

keybits-cases :
    (t : KeyType) (n : ℕ)
    → ((t ≡ KeyType.unknown) × (keybits t n ≡ none))
      ⊎ ((t ≢ KeyType.unknown) × (keybits t n ≡ some n))
keybits-cases KeyType.unknown n = inl (refl, refl)
keybits-cases KeyType.rsa n = inr (λ e. cc, refl)
keybits-cases KeyType.rsa2 n = inr (λ e. cc, refl)
keybits-cases KeyType.dsa n = inr (λ e. cc, refl)
keybits-cases KeyType.dsa1 n = inr (λ e. cc, refl)
keybits-cases KeyType.dsa2 n = inr (λ e. cc, refl)
keybits-cases KeyType.dsa3 n = inr (λ e. cc, refl)
keybits-cases KeyType.dsa4 n = inr (λ e. cc, refl)
keybits-cases KeyType.dh n = inr (λ e. cc, refl)
keybits-cases KeyType.ec n = inr (λ e. cc, refl)

safe_key_iff : (k : Key) → (safe_key k ≡ true) ↔ SafeKey k
safe_key_iff k = elim (keybits-cases k.key_type k.bits) [
  | inl (u, e) ↦
      (λ h. let no : false ≡ true = rw (safe_key, e) at h in absurd cc, λ h. absurd (h.0 u))
  | inr (n, e) ↦
      let size = safe_bits_iff k.key_type k.bits in
      (λ h. (n, size.0 (rw (safe_key, e) at h)), λ h. rw (safe_key, e) (size.1 h.1))
]

key_of :
    (c : Certificate)
    → check_key_length (some c) ≡ true
    → (k : Key) × (c.public_key ≡ some k) × SafeKey k
unfolding check_key_length
key_of c h = elim (Option-cases c.public_key) [
  | inl e ↦ let no : false ≡ true = rw (check_key_length, e) at h in absurd cc
  | inr (k, e) ↦ (k, e, (safe_key_iff k).0 (rw (check_key_length, e) at h))
]

-- `check_key_length` goes on exactly if there is a certificate with a key, of a type that is known,
-- which has 160 to 521 bits if it is an elliptic one and 1024 bits at least if not.
pub check_key_length_iff :
    (cert : Option Certificate)
    → (check_key_length cert ≡ true)
      ↔ ((c : Certificate) × (k : Key) × (cert ≡ some c) × (c.public_key ≡ some k) × SafeKey k)
unfolding check_key_length
check_key_length_iff none = (λ h. absurd cc, λ h. absurd cc)
check_key_length_iff (some c) = (
  λ h. let (k, e, safe) = key_of c h in (c, k, refl, e, safe),
  λ (d, k, e, p, safe). accepted d k e p safe,
)
  where
    accepted :
        (d : Certificate) (k : Key)
        → ◌≡◌ {A = Option Certificate} (some c) (some d)
        → d.public_key ≡ some k
        → SafeKey k
        → check_key_length (some c) ≡ true
    accepted d k e p safe =
        let same : c ≡ d = cc in rw (same, check_key_length, p) ((safe_key_iff k).1 safe)
