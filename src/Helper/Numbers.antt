-- ===== src/Helper/Numbers.antt =====
-- `%d` of sscanf, as src/tlsdate-helper.c uses it, on the decimal digits of a number.
use tlsdate.Base.{
  ℕ, ◌+◌, ◌-◌, ◌*◌, ◌/◌, ◌%◌, ◌^◌, ◌<◌, ◌≡◌, refl, ◌==◌, ltb, lt→ltb, true, false, List, [], ◌∷◌,
  ◌++◌, some, Bytes, All, is_digit, is_space, arith,
}
use tlsdate.Base.Int.{pos, to_u32, to_int}
use tlsdate.Options.{digits, spaces, signed, atoi}
use tlsdate.Scan.{after_digits, after_sign, starts_with_digit, scan_int}

-- The characters of digits, and the number that they stand for behind `n`.
abbrev pub printed : List ℕ → Bytes
printed [] = []
printed (k ∷ ks) = (b'0' + k) ∷ printed ks

abbrev pub value : ℕ → List ℕ → ℕ
value n [] = n
value n (k ∷ ks) = value (n * 10 + k) ks

abbrev pub AllDigits : List ℕ → Type 0
AllDigits = All (λ k. k < 10)

abbrev pub two : ℕ → List ℕ
two n = n / 10 ∷ n % 10 ∷ []

abbrev pub four : ℕ → List ℕ
four n = n / 1000 ∷ n / 100 % 10 ∷ n / 10 % 10 ∷ n % 10 ∷ []

digit_char : (k : ℕ) → k < 10 → is_digit (b'0' + k) ≡ true
digit_char k h = ground arith

no_space : (k : ℕ) → k < 10 → is_space (b'0' + k) ≡ false
no_space k h = ground arith

no_minus : (k : ℕ) → k < 10 → (b'0' + k) == b'-' ≡ false
no_minus k h = ground arith

no_plus : (k : ℕ) → k < 10 → (b'0' + k) == b'+' ≡ false
no_plus k h = ground arith

char_value : (k : ℕ) → b'0' + k - b'0' ≡ k
char_value k = omega arith

digits-printed :
    (n : ℕ) (ks : List ℕ) (rest : Bytes)
    → AllDigits ks
    → starts_with_digit rest ≡ false
    → digits n (printed ks ++ rest) ≡ value n ks
digits-printed n [] [] h stop = refl
digits-printed n [] (c ∷ rest) h stop = rw (stop) refl
digits-printed n (k ∷ ks) rest h stop =
    rw (digit_char k h.0, char_value k) (digits-printed (n * 10 + k) ks rest h.1 stop)

after_digits-printed :
    (ks : List ℕ) (rest : Bytes)
    → AllDigits ks
    → starts_with_digit rest ≡ false
    → after_digits (printed ks ++ rest) ≡ rest
after_digits-printed [] [] h stop = refl
after_digits-printed [] (c ∷ rest) h stop = rw (after_digits, stop) refl
after_digits-printed (k ∷ ks) rest h stop =
    rw (after_digits, digit_char k h.0) (after_digits-printed ks rest h.1 stop)

small_int : (n : ℕ) → n < 2 ^ 31 → to_int (to_u32 (pos n)) ≡ pos n
small_int n h = ground arith

signed-printed :
    (k : ℕ) (ks : List ℕ) (rest : Bytes)
    → AllDigits (k ∷ ks)
    → starts_with_digit rest ≡ false
    → value 0 (k ∷ ks) < 2 ^ 31
    → signed (printed (k ∷ ks) ++ rest) ≡ pos (value 0 (k ∷ ks))
signed-printed k ks rest h stop small =
    let n = digits-printed 0 (k ∷ ks) rest h stop in
    let in_long : ltb (value 0 (k ∷ ks)) (2 ^ 63) ≡ true = lt→ltb _ _ (omega arith) in
    rw (signed, no_minus k h.0, no_plus k h.0, n, in_long) refl

pub spaces-printed : (k : ℕ) (s : Bytes) → k < 10 → spaces ((b'0' + k) ∷ s) ≡ (b'0' + k) ∷ s
spaces-printed k s h = rw (no_space k h) refl

atoi-printed :
    (k : ℕ) (ks : List ℕ) (rest : Bytes)
    → AllDigits (k ∷ ks)
    → starts_with_digit rest ≡ false
    → value 0 (k ∷ ks) < 2 ^ 31
    → atoi (printed (k ∷ ks) ++ rest) ≡ pos (value 0 (k ∷ ks))
unfolding atoi
atoi-printed k ks rest h stop small =
    rw (atoi, spaces-printed k (printed ks ++ rest) h.0, signed-printed k ks rest h stop small)
      (small_int (value 0 (k ∷ ks)) small)

pub scan_int-printed :
    (k : ℕ) (ks : List ℕ) (rest : Bytes)
    → AllDigits (k ∷ ks)
    → starts_with_digit rest ≡ false
    → value 0 (k ∷ ks) < 2 ^ 31
    → scan_int (printed (k ∷ ks) ++ rest) ≡ some (pos (value 0 (k ∷ ks)), rest)
unfolding scan_int
scan_int-printed k ks rest h stop small =
    let skip = spaces-printed k (printed ks ++ rest) h.0 in
    let number = atoi-printed k ks rest h stop small in
    let behind = after_digits-printed (k ∷ ks) rest h stop in
    rw (scan_int, skip, after_sign, no_minus k h.0, no_plus k h.0, digit_char k h.0, number, behind)
      refl
