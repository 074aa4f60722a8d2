-- ===== src/Wildcard/Labels.antt =====
-- src/tlsdate-helper.c: labels, and what `dns_label_count` counts.
use native.Mathlib.Decide.{ℕ_discrete}
use tlsdate.Base.{
  ◌∙◌, refl, ℕ, ◌≡◌, ◌≢◌, ◌⊎◌, inl, inr, true, [], ◌∷◌, ◌++◌, none, some, arith, Bytes, All,
}
use tlsdate.Wildcard.{dot, split_label, strtok, count_labels, dns_label_count, has_dot}

-- No byte of the string is a dot.
abbrev pub NoDot : Bytes → Type 0
NoDot = All (λ c. c ≢ dot)

pub split_label-NoDot : (s rest : Bytes) → NoDot s → split_label (s ++ dot ∷ rest) ≡ (s, some rest)
unfolding split_label
split_label-NoDot [] rest h = ground arith
split_label-NoDot (c ∷ s) rest h = ground (arith, split_label-NoDot s rest h.1)

pub split_label-whole : (s : Bytes) → NoDot s → split_label s ≡ (s, none)
unfolding split_label
split_label-whole [] h = ground arith
split_label-whole (c ∷ s) h = ground (arith, split_label-whole s h.1)

pub split_label_first : (s : Bytes) → NoDot (split_label s).0
unfolding split_label
split_label_first [] = tt
split_label_first (c ∷ s) = ground (arith, split_label_first s)

pub split_label_join :
    (s rest : Bytes) → (split_label s).1 ≡ some rest → s ≡ (split_label s).0 ++ dot ∷ rest
unfolding split_label
split_label_join [] rest h = cc
split_label_join (c ∷ s) rest h = ground (arith, split_label_join s rest)

-- The count of a first label that is not empty: 1 for it, 1 before the loop's first call, and 1 for
-- the same label again.
pub dns_label_count_three : (c : ℕ) (s : Bytes) → c ≢ dot → dns_label_count (c ∷ s) ≡ some 3
unfolding dns_label_count count_labels strtok
dns_label_count_three c s h =
    ground (arith, split_label-whole (split_label s).0 (split_label_first s))

dns_label_count_skip : (c : ℕ) (s : Bytes) → c ≡ dot → dns_label_count (c ∷ s) ≡ dns_label_count s
unfolding dns_label_count strtok
dns_label_count_skip c s e = rw e

-- `dns_label_count` does not count labels: it gives 3 for every string with any byte but a dot, and 0
-- for the others. It never lacks fuel.
pub dns_label_count_cases :
    (s : Bytes)
    → (All (λ c. c ≡ dot) s × (dns_label_count s ≡ some 0))
      ⊎ ((¬ All (λ c. c ≡ dot) s) × (dns_label_count s ≡ some 3))
dns_label_count_cases [] = inl (tt, unfold dns_label_count strtok in refl)
dns_label_count_cases (c ∷ s) = elim (ℕ_discrete c dot) [
  | yes e ↦ elim (dns_label_count_cases s) [
    | inl (h, q) ↦ inl ((e, h), dns_label_count_skip c s e ∙ q)
    | inr (h, q) ↦ inr (λ k. h k.1, dns_label_count_skip c s e ∙ q)
  ]
  | no n ↦ inr (λ h. n h.0, dns_label_count_three c s n)
]

pub has_dot-split : (s rest : Bytes) → has_dot (s ++ dot ∷ rest) ≡ true
unfolding has_dot
has_dot-split [] rest = ground arith
has_dot-split (c ∷ s) rest = ground (arith, has_dot-split s rest)
