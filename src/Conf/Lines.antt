-- ===== src/Conf/Lines.antt =====
-- src/conf.c: the entries that a file gives.
use tlsdate.Base.{
  refl, ◌-◌, ℕ, zero, suc, ◌≤◌, ◌<◌, ◌≡◌, ◌≢◌, Bool, false, List, [], ◌∷◌, Option, none, some, ◌==◌,
  if◌then◌else◌, arith, Bool-cases, length, Bytes, All, is_space, Option-cases, inl, inr,
}
use tlsdate.Conf.{
  Entry, strip_newlines, eat_whitespace, is_ignored_line, value_of, entry_of, before, behind, skip,
  is_blank, c_string, take_line, conf_max_line, parse_line, fgets, add_entry, conf_loop, conf_parse,
}

-- A byte that does not end a line.
abbrev pub IsPlain : ℕ → Type 0
IsPlain c = (c ≢ 0) × (c ≢ b'\n') × (c ≢ b'\r')

-- The string does not start with white space.
abbrev pub StartsBare : Bytes → Type 0
StartsBare [] = Unit
StartsBare (c ∷ s) = is_space c ≡ false

-- A value that `conf_parse` can give: no line ends, and no white space at the start.
abbrev pub ValueOk : Option Bytes → Type 0
ValueOk none = Unit
ValueOk (some v) = All IsPlain v × StartsBare v

-- A key: not empty, no blanks or line ends, not the start of a comment, no white space at the start.
abbrev pub KeyOk : Bytes → Type 0
KeyOk [] = ⊥
KeyOk (c ∷ s) =
    (is_space c ≡ false) × (c ≢ b'#') × All (λ c. IsPlain c × (is_blank c ≡ false)) (c ∷ s)

pub record WellFormed (e : Entry) : Type 0 where
  pub key_ok : KeyOk e.key
  pub value_ok : ValueOk e.value

module _ (P : ℕ → Type 0) (p : ℕ → Bool) where
  before-All : (s : Bytes) → All P s → All P (before p s)
  before-All [] h = tt
  before-All (c ∷ s) h = ground (arith, before-All s h.1)

  behind-All : (s : Bytes) → All P s → All P (behind p s)
  behind-All [] h = tt
  behind-All (c ∷ s) h = ground (arith, behind-All s h.1)

  skip-All : (s : Bytes) → All P s → All P (skip p s)
  skip-All [] h = tt
  skip-All (c ∷ s) h = ground (arith, skip-All s h.1)

before-stops : (p : ℕ → Bool) (s : Bytes) → All (λ c. p c ≡ false) (before p s)
before-stops p [] = tt
before-stops p (c ∷ s) = ground (arith, before-stops p s)

pub skip-StartsBare : (s : Bytes) → StartsBare (skip is_space s)
skip-StartsBare [] = tt
skip-StartsBare (c ∷ s) = elim (Bool-cases (is_space c)) [
  | inl e ↦ rw e (skip-StartsBare s)
  | inr e ↦ rw e e
]

IsPlain-of_tests :
    (s : Bytes)
    → All (λ c. (c == 0) ≡ false) s
    → All (λ c. (c == b'\n') ≡ false) s
    → All (λ c. (c == b'\r') ≡ false) s
    → All IsPlain s
IsPlain-of_tests [] h k l = tt
IsPlain-of_tests (c ∷ s) h k l =
    ((ground arith, ground arith, ground arith), IsPlain-of_tests s h.1 k.1 l.1)

strip_newlines-IsPlain : (buf : Bytes) → All IsPlain (strip_newlines (c_string buf))
unfolding strip_newlines
strip_newlines-IsPlain buf =
    let zero_free = before-stops (λ c. c == 0) buf in
    let line = before (λ c. c == b'\n') (c_string buf) in
    let no_newline = before-stops (λ c. c == b'\n') (c_string buf) in
    IsPlain-of_tests (before (λ c. c == b'\r') line)
      (before-All (λ c. (c == 0) ≡ false) (λ c. c == b'\r') line
        (before-All (λ c. (c == 0) ≡ false) (λ c. c == b'\n') (c_string buf) zero_free))
      (before-All (λ c. (c == b'\n') ≡ false) (λ c. c == b'\r') line no_newline)
      (before-stops (λ c. c == b'\r') line)

key_bytes :
    (s : Bytes)
    → All IsPlain s
    → All (λ c. is_blank c ≡ false) s
    → All (λ c. IsPlain c × (is_blank c ≡ false)) s
key_bytes [] h k = tt
key_bytes (c ∷ s) h k = ((h.0, k.0), key_bytes s h.1 k.1)

value_of-ValueOk : (s : Bytes) → All IsPlain s → ValueOk (value_of s)
unfolding value_of eat_whitespace
value_of-ValueOk [] h = tt
value_of-ValueOk (c ∷ s) h = (skip-All IsPlain is_space (c ∷ s) h, skip-StartsBare (c ∷ s))

blank_is_space : (c : ℕ) → is_space c ≡ false → is_blank c ≡ false
blank_is_space c h = ground arith

entry_of-WellFormed :
    (c : ℕ) (s : Bytes)
    → All IsPlain (c ∷ s)
    → is_space c ≡ false
    → c ≢ b'#'
    → WellFormed (entry_of (c ∷ s))
unfolding entry_of
entry_of-WellFormed c s h b n =
    let e = blank_is_space c b in
    rw (e, e)
      (record {
        key_ok = (
          b,
          n,
          (
            (h.0, e),
            key_bytes (before is_blank s) (before-All IsPlain is_blank s h.1)
                (before-stops is_blank s),
          ),
        );
        value_ok = value_of-ValueOk (behind is_blank s) (behind-All IsPlain is_blank s h.1);
      })

entry_at :
    (start : Bytes) (e : Entry)
    → All IsPlain start
    → StartsBare start
    → (if is_ignored_line start then none else some (entry_of start)) ≡ some e
    → WellFormed e
unfolding is_ignored_line
entry_at [] e h b q = cc
entry_at (c ∷ s) e h b q = elim (Bool-cases (c == b'#')) [
  | inl hash ↦ absurd (ground arith)
  | inr bare ↦
      let same : entry_of (c ∷ s) ≡ e = ground arith in
      rw same at (entry_of-WellFormed c s h b (ground arith))
]

-- The entry of a line is well formed.
parse_line-WellFormed : (buf : Bytes) (e : Entry) → parse_line buf ≡ some e → WellFormed e
unfolding parse_line eat_whitespace
parse_line-WellFormed buf e h =
    let line = strip_newlines (c_string buf) in
    entry_at (skip is_space line) e (skip-All IsPlain is_space line (strip_newlines-IsPlain buf))
      (skip-StartsBare line) h

take_line-le : (n : ℕ) (s : Bytes) → length (take_line n s).1 ≤ length s
unfolding take_line
take_line-le zero s = omega arith
take_line-le (suc n) [] = omega arith
take_line-le (suc n) (c ∷ s) = ground (arith, take_line-le n s)

take_line-lt : (n c : ℕ) (s : Bytes) → length (take_line (suc n) (c ∷ s)).1 ≤ length s
unfolding take_line
take_line-lt n c s = ground (arith, take_line-le n s)

-- `fgets` takes at least one byte off the file.
fgets-shorter : (f buf rest : Bytes) → fgets f ≡ some (buf, rest) → length rest < length f
unfolding fgets
fgets-shorter [] buf rest h = cc
fgets-shorter (c ∷ s) buf rest h = ground (arith, take_line-lt (conf_max_line - 2) c s)

abbrev AllWellFormed : Option (List Entry) → Type 0
AllWellFormed none = ⊥
AllWellFormed (some es) = All WellFormed es

add_entry-WellFormed :
    (e : Option Entry) (es : Option (List Entry))
    → ((x : Entry) → e ≡ some x → WellFormed x)
    → AllWellFormed es
    → AllWellFormed (add_entry e es)
unfolding add_entry
add_entry-WellFormed e none h k = absurd k
add_entry-WellFormed none (some es) h k = k
add_entry-WellFormed (some x) (some es) h k = (h x refl, k)

conf_loop-WellFormed : (n : ℕ) (f : Bytes) → length f < n → AllWellFormed (conf_loop n f)
unfolding conf_loop
conf_loop-WellFormed zero f h = elim h [ ]
conf_loop-WellFormed (suc n) f h = elim (Option-cases (fgets f)) [
  | inl e ↦ rw (e, conf_loop) tt
  | inr ((buf, rest), e) ↦
      rw (e, conf_loop)
        (add_entry-WellFormed (parse_line buf) (conf_loop n rest) (parse_line-WellFormed buf)
          (conf_loop-WellFormed n rest (omega (arith, fgets-shorter f buf rest e))))
]

given :
    (r : Option (List Entry))
    → AllWellFormed r
    → (es : List Entry) × (r ≡ some es) × All WellFormed es
given none h = absurd h
given (some es) h = (es, refl, h)

-- The file always gives a list of entries, with the fuel that it gets, and all of them are well
-- formed.
pub conf_parse-WellFormed :
    (f : Bytes) → (es : List Entry) × (conf_parse f ≡ some es) × All WellFormed es
unfolding conf_parse
conf_parse-WellFormed f =
    given (conf_parse f) (conf_loop-WellFormed (suc (length f)) f (omega arith))
