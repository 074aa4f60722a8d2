-- ===== src/Helper/Months.antt =====
-- src/tlsdate-helper.c: the names of the months, as sscanf and the loop over `MONTHS` take them.
use tlsdate.Base.{
  ℕ, zero, suc, ◌≡◌, refl, sym, Bool, true, false, not, ◌&&◌, ◌||◌, List, [], ◌∷◌, ◌++◌, some,
  Bytes, str_eq, str_eq_iff, All, length, get_elem?, arith,
}
use tlsdate.Helper.{months, find_month}
use tlsdate.Scan.{Directive, white, word, text, sscanf}

pub All-get_elem? :
    {A : Type 0} (P : A → Type 0) (xs : List A) (i : ℕ) (a : A)
    → All P xs
    → get_elem? xs i ≡ some a
    → P a
All-get_elem? P [] i a h e = cc
All-get_elem? P (x ∷ xs) zero a h e = let same : x ≡ a = cc in rw (sym same) h.0
All-get_elem? P (x ∷ xs) (suc i) a h e = All-get_elem? P xs i a h.1 e

-- " %3s" takes the name of a month behind a space.
abbrev pub IsWord : Bytes → Type 0
IsWord name =
    (format : List Directive) (rest : Bytes)
    → sscanf (white ∷ word 3 ∷ format) (b' ' ∷ (name ++ (b' ' ∷ rest)))
      ≡ text name ∷ sscanf format (b' ' ∷ rest)

pub all_words : All IsWord months
unfolding sscanf
all_words = (
  λ f r. refl,
  (
    λ f r. refl,
    (
      λ f r. refl,
      (
        λ f r. refl,
        (
          λ f r. refl,
          (
            λ f r. refl,
            (
              λ f r. refl,
              (λ f r. refl, (λ f r. refl, (λ f r. refl, (λ f r. refl, (λ f r. refl, tt))))),
            ),
          ),
        ),
      ),
    ),
  ),
)

abbrev is_among : Bytes → List Bytes → Bool
is_among x [] = false
is_among x (y ∷ ys) = str_eq y x || is_among x ys

abbrev distinct : List Bytes → Bool
distinct [] = true
distinct (x ∷ xs) = not (is_among x xs) && distinct xs

not_among :
    (x : Bytes) (xs : List Bytes) (i : ℕ) (y : Bytes)
    → is_among x xs ≡ false
    → get_elem? xs i ≡ some y
    → str_eq y x ≡ false
not_among x [] i y h e = cc
not_among x (z ∷ xs) zero y h e = ground arith
not_among x (z ∷ xs) (suc i) y h e = not_among x xs i y (ground arith) e

pub find_month-get_elem? :
    (names : List Bytes) (i : ℕ) (name : Bytes)
    → distinct names ≡ true
    → get_elem? names i ≡ some name
    → find_month names name ≡ some i
find_month-get_elem? [] i name d e = cc
find_month-get_elem? (x ∷ xs) zero name d e =
    let same : x ≡ name = cc in let equal = (str_eq_iff name x).1 (sym same) in rw (equal) refl
find_month-get_elem? (x ∷ xs) (suc i) name d e =
    let other = not_among x xs i name (ground arith) e in
    rw (other, find_month-get_elem? xs i name (ground arith) e) refl

pub length-months : All (λ month. length month ≡ 3) months
length-months = (
  refl,
  (refl, (refl, (refl, (refl, (refl, (refl, (refl, (refl, (refl, (refl, (refl, tt))))))))))),
)
