-- ===== src/Scan.antt =====
-- `sscanf` of the C library, for the formats of src/proxy-bio.c and src/tlsdate-helper.c, in the C locale.
use tlsdate.Base.{
  ℕ, zero, suc, ◌==◌, Bool, true, false, ◌||◌, List, [], ◌∷◌, Option, none, some, if◌then◌else◌,
  Bytes, is_space, is_digit, length,
}
use tlsdate.Base.Int.{ℤ}
use tlsdate.Options.{atoi, spaces}

-- A part of a format: a space, another character, `%*s`, `%Ns` and `%d`.
pub data Directive : Type 0 where
  white skip_word int : Directive
  literal word : ℕ → Directive

pub data Value : Type 0 where
  text : Bytes → Value
  number : ℤ → Value

-- At most so many characters up to a space, and those behind.
abbrev pub take_word : ℕ → Bytes → Bytes × Bytes
take_word zero s = ([], s)
take_word (suc n) [] = ([], [])
take_word (suc n) (c ∷ s) = elim (is_space c) [
  | true ↦ ([], c ∷ s)
  | false ↦ let rest = take_word n s in (c ∷ rest.0, rest.1)
]

abbrev pub after_digits : Bytes → Bytes
after_digits [] = []
after_digits (c ∷ s) = elim (is_digit c) [ true ↦ after_digits s | false ↦ c ∷ s ]

abbrev pub starts_with_digit : Bytes → Bool
starts_with_digit [] = false
starts_with_digit (c ∷ s) = is_digit c

abbrev pub after_sign : Bytes → Bytes
after_sign [] = []
after_sign (c ∷ s) = elim (c == b'-' || c == b'+') [ true ↦ s | false ↦ c ∷ s ]

-- `%d`: the number, as an `int`, and what stands behind it.
unfoldable pub scan_int : Bytes → Option (ℤ × Bytes)
scan_int s =
    let unsigned = after_sign (spaces s) in
    if starts_with_digit unsigned then some (atoi s, after_digits unsigned) else none

-- What is assigned up to the first part of the format that does not match.
unfoldable pub sscanf : List Directive → Bytes → List Value
sscanf [] s = []
sscanf (white ∷ format) s = sscanf format (spaces s)
sscanf (literal c ∷ format) [] = []
sscanf (literal c ∷ format) (x ∷ s) = elim (x == c) [ true ↦ sscanf format s | false ↦ [] ]
sscanf (skip_word ∷ format) s =
    let (w, rest) = take_word (length s) (spaces s) in
    elim w [ [] ↦ [] | c ∷ cs ↦ sscanf format rest ]
sscanf (word n ∷ format) s =
    let (w, rest) = take_word n (spaces s) in
    elim w [ [] ↦ [] | c ∷ cs ↦ text (c ∷ cs) ∷ sscanf format rest ]
sscanf (int ∷ format) s = elim (scan_int s) [
  | none ↦ []
  | some (n, rest) ↦ number n ∷ sscanf format rest
]
