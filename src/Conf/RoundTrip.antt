-- ===== src/Conf/RoundTrip.antt =====
-- src/conf.c: entries written as lines, and these lines read.
use mathlib.Core.List.{append-nil}
use tlsdate.Base.{
  refl, ap, ℕ, zero, suc, ◌+◌, ◌-◌, ◌≤◌, ◌<◌, ◌≡◌, ◌≢◌, Bool, true, false, List, [], ◌∷◌, ◌++◌,
  Option, none, some, ◌==◌, arith, length, length-append, Bytes, if◌then◌else◌, All, All-append,
  is_space,
}
use tlsdate.Conf.Lines.{IsPlain, StartsBare, ValueOk, KeyOk, WellFormed}
use tlsdate.Conf.{
  Entry, strip_newlines, eat_whitespace, is_ignored_line, value_of, entry_of, before, behind, skip,
  is_blank, c_string, take_line, conf_max_line, parse_line, fgets, add_entry, conf_loop, conf_parse,
}

-- Two spaces stand before a value, so that an empty value is told from none.
abbrev value_text : Option Bytes → Bytes
value_text none = []
value_text (some v) = b' ' ∷ b' ' ∷ v

-- An entry as a line, without its newline.
abbrev pub line_of : Entry → Bytes
line_of e = e.key ++ value_text e.value

pub print : List Entry → Bytes
print [] = []
print (e ∷ es) = line_of e ++ (b'\n' ∷ print es)

before-end : (p : ℕ → Bool) (s : Bytes) → All (λ c. p c ≡ false) s → before p s ≡ s
before-end p [] h = refl
before-end p (c ∷ s) h = rw (h.0) (ap (◌∷◌ c) (before-end p s h.1))

before-at :
    (p : ℕ → Bool) (s rest : Bytes) (c : ℕ)
    → All (λ c. p c ≡ false) s
    → p c ≡ true
    → before p (s ++ c ∷ rest) ≡ s
before-at p [] rest c h k = rw k
before-at p (x ∷ s) rest c h k = rw (h.0) (ap (◌∷◌ x) (before-at p s rest c h.1 k))

behind-end : (p : ℕ → Bool) (s : Bytes) → All (λ c. p c ≡ false) s → behind p s ≡ []
behind-end p [] h = refl
behind-end p (c ∷ s) h = rw (h.0) (behind-end p s h.1)

behind-at :
    (p : ℕ → Bool) (s rest : Bytes) (c : ℕ)
    → All (λ c. p c ≡ false) s
    → p c ≡ true
    → behind p (s ++ c ∷ rest) ≡ rest
behind-at p [] rest c h k = rw k
behind-at p (x ∷ s) rest c h k = rw (h.0) (behind-at p s rest c h.1 k)

take_line-newline :
    (n : ℕ) (s rest : Bytes)
    → All (λ c. (c == b'\n') ≡ false) s
    → length s < n
    → take_line n (s ++ b'\n' ∷ rest) ≡ (s ++ b'\n' ∷ [], rest)
unfolding take_line
take_line-newline zero s rest h k = elim k [ ]
take_line-newline (suc n) [] rest h k = ground arith
take_line-newline (suc n) (c ∷ s) rest h k = ground (arith, take_line-newline n s rest h.1)

skip-bare : (s : Bytes) → StartsBare s → skip is_space s ≡ s
skip-bare [] h = refl
skip-bare (c ∷ s) h = rw h

module _ (p : ℕ → Bool) (P : ℕ → Type 0) (q : (c : ℕ) → P c → p c ≡ false) where
  All-tests : (s : Bytes) → All P s → All (λ c. p c ≡ false) s
  All-tests [] h = tt
  All-tests (c ∷ s) h = (q c h.0, All-tests s h.1)

stripped : (line : Bytes) → All IsPlain line → strip_newlines (c_string (line ++ b'\n' ∷ [])) ≡ line
unfolding strip_newlines
stripped line h =
    let no_zero =
      before-end (λ c. c == 0) (line ++ b'\n' ∷ [])
        (All-append (λ c. (c == 0) ≡ false) line (b'\n' ∷ [])
          (All-tests (λ c. c == 0) IsPlain (λ c q. ground arith) line h) (refl, tt)) in
    let no_newline =
      before-at (λ c. c == b'\n') line [] b'\n'
        (All-tests (λ c. c == b'\n') IsPlain (λ c q. ground arith) line h) refl in
    rw (no_zero, no_newline)
      (before-end (λ c. c == b'\r') line
        (All-tests (λ c. c == b'\r') IsPlain (λ c q. ground arith) line h))

blank_is_space : (c : ℕ) → is_space c ≡ false → is_blank c ≡ false
blank_is_space c h = ground arith

key_unblank :
    (k : Bytes) → All (λ c. IsPlain c × (is_blank c ≡ false)) k → All (λ c. is_blank c ≡ false) k
key_unblank [] h = tt
key_unblank (c ∷ k) h = (h.0.1, key_unblank k h.1)

key-IsPlain : (k : Bytes) → All (λ c. IsPlain c × (is_blank c ≡ false)) k → All IsPlain k
key-IsPlain [] h = tt
key-IsPlain (c ∷ k) h = (h.0.0, key-IsPlain k h.1)

bare_hash : (c : ℕ) → c ≢ b'#' → (c == b'#') ≡ false
bare_hash c h = ground arith

fgets-nil : fgets [] ≡ none
unfolding fgets
fgets-nil = refl

fgets-of_take_line :
    (line : Bytes) (c : ℕ) (rest : Bytes) {r : Bytes × Bytes}
    → take_line (conf_max_line - 1) (line ++ c ∷ rest) ≡ r
    → fgets (line ++ c ∷ rest) ≡ some r
unfolding fgets
fgets-of_take_line [] c rest h = ap some h
fgets-of_take_line (x ∷ line) c rest h = ap some h

-- The start of a line, taken apart again.
entry_of-line :
    (c : ℕ) (k : Bytes) (v : Option Bytes)
    → is_space c ≡ false
    → All (λ c. is_blank c ≡ false) (c ∷ k)
    → ValueOk v
    → entry_of ((c ∷ k) ++ value_text v) ≡ record { key = c ∷ k; value = v }
unfolding entry_of value_of eat_whitespace
entry_of-line c k none b h w =
    rw (append-nil k, h.0, h.0, before-end is_blank k h.1, behind-end is_blank k h.1) refl
entry_of-line c k (some v) b h w =
    rw
      (
        h.0,
        h.0,
        before-at is_blank k (b' ' ∷ v) b' ' h.1 refl,
        behind-at is_blank k (b' ' ∷ v) b' ' h.1 refl,
        skip-bare v w.1,
      )
      refl

value_text-IsPlain : (v : Option Bytes) → ValueOk v → All IsPlain (value_text v)
value_text-IsPlain none w = tt
value_text-IsPlain (some v) w =
    ((ground arith, ground arith, ground arith), ((ground arith, ground arith, ground arith), w.0))

line-IsPlain :
    (k : Bytes) (v : Option Bytes) → KeyOk k → ValueOk v → All IsPlain (k ++ value_text v)
line-IsPlain [] v h w = absurd h
line-IsPlain (c ∷ k) v h w =
    All-append IsPlain (c ∷ k) (value_text v) (key-IsPlain (c ∷ k) h.2) (value_text-IsPlain v w)

line_read :
    (k : Bytes) (v : Option Bytes)
    → KeyOk k
    → ValueOk v
    → (if is_ignored_line (skip is_space (k ++ value_text v))
        then none
        else some (entry_of (skip is_space (k ++ value_text v))))
      ≡ some (record { key = k; value = v })
unfolding is_ignored_line
line_read [] v h w = absurd h
line_read (c ∷ k) v h w =
    rw (h.0, bare_hash c h.1) (ap some (entry_of-line c k v h.0 (key_unblank (c ∷ k) h.2) w))

parse_line-line_of : (e : Entry) → WellFormed e → parse_line (line_of e ++ b'\n' ∷ []) ≡ some e
unfolding parse_line eat_whitespace
parse_line-line_of e w =
    rw (stripped (line_of e) (line-IsPlain e.key e.value w.key_ok w.value_ok))
      (line_read e.key e.value w.key_ok w.value_ok)

-- The line fits into the buffer with its newline and the NUL.
abbrev pub Fits : Entry → Type 0
Fits e = length (line_of e) + 1 < conf_max_line

fgets-print :
    (line rest : Bytes)
    → All IsPlain line
    → length line + 1 < conf_max_line
    → fgets (line ++ b'\n' ∷ rest) ≡ some (line ++ b'\n' ∷ [], rest)
unfolding fgets
fgets-print line rest h k = fgets-of_take_line line (b'\n') rest (
    take_line-newline (conf_max_line - 1) line rest
      (All-tests (λ c. c == b'\n') IsPlain (λ c q. ground arith) line h) (omega arith))

conf_loop-print :
    (n : ℕ) (es : List Entry)
    → length es < n
    → All WellFormed es
    → All Fits es
    → conf_loop n (print es) ≡ some es
unfolding print add_entry conf_loop
conf_loop-print zero es h w k = elim h [ ]
conf_loop-print (suc n) [] h w k = rw (conf_loop, fgets-nil) refl
conf_loop-print (suc n) (e ∷ es) h w k =
    rw
      (
        conf_loop,
        fgets-print (line_of e) (print es) (line-IsPlain e.key e.value w.0.key_ok w.0.value_ok) k.0,
        parse_line-line_of e w.0,
        conf_loop-print n es (omega arith) w.1 k.1,
      )
      refl

length-print : (es : List Entry) → length es ≤ length (print es)
unfolding print
length-print [] = omega arith
length-print (e ∷ es) = omega (arith, length-append (line_of e) (b'\n' ∷ print es), length-print es)

-- Well-formed entries whose lines fit into the line buffer, written one per line, are what
-- `conf_parse` gives for that file.
pub conf_parse-print :
    (es : List Entry) → All WellFormed es → All Fits es → conf_parse (print es) ≡ some es
unfolding conf_parse
conf_parse-print es w k =
    conf_loop-print (suc (length (print es))) es (omega (arith, length-print es)) w k
