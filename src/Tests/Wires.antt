-- ===== src/Tests/Wires.antt =====
-- A BIO over a peer that sends a fixed text, whatever it gets, at most `chunk` bytes at a time. The state
-- is how much of the text was read, and what was sent.
use tlsdate.Base.{
  ℕ, zero, suc, ◌+◌, ◌≤◌, min, ◌≡◌, refl, sym, ap, ◌∙◌, [], ◌∷◌, ◌++◌, Bytes, length, take, drop,
  arith,
}
use mathlib.Core.List.{append-nil}
use tlsdate.Base.Int.{pos}
use tlsdate.Bio.{Bio, IsBio}

take-all : (n : ℕ) (xs : Bytes) → take (length (take n xs)) xs ≡ take n xs
take-all zero xs = refl
take-all (suc n) [] = refl
take-all (suc n) (x ∷ xs) = ap (◌∷◌ x) (take-all n xs)

length-take : (n : ℕ) (xs : Bytes) → length (take n xs) ≤ n
length-take zero xs = omega arith
length-take (suc n) [] = omega arith
length-take (suc n) (x ∷ xs) = omega (arith, length-take n xs)

length-take_le : (n : ℕ) (xs : Bytes) → length (take n xs) ≤ length xs
length-take_le zero xs = omega arith
length-take_le (suc n) [] = omega arith
length-take_le (suc n) (x ∷ xs) = omega (arith, length-take_le n xs)

empty : (n : ℕ) → take {A = ℕ} n [] ≡ []
empty zero = refl
empty (suc n) = refl

take-more :
    (q p m : ℕ) (xs : Bytes)
    → q ≡ p + length (take m (drop p xs))
    → take q xs ≡ take p xs ++ take m (drop p xs)
take-more q zero m xs h = let e : q ≡ length (take m xs) = omega arith in rw (e) (take-all m xs)
take-more q (suc p) m [] h = empty q ∙ sym (empty m)
take-more zero (suc p) m (x ∷ xs) h = absurd (omega arith)
take-more (suc q) (suc p) m (x ∷ xs) h = ap (◌∷◌ x) (take-more q p m xs (omega arith))

module _ (script : Bytes) (chunk : ℕ) where
  abbrev pub Wire : Type 0
  Wire = ℕ × Bytes

  abbrev pub wire : Bio (ℕ × Bytes)
  wire = record {
    bio_write = λ s bytes. (pos (length (take chunk bytes)), (s.0, s.1 ++ take chunk bytes));
    bio_read = λ s n.
        let got = take (min n chunk) (drop s.0 script) in
        ((pos (length got), got), (s.0 + length got, s.1));
    sent = λ s. s.1;
    received = λ s. take s.0 script;
  }

  pub wire-IsBio : IsBio wire
  wire-IsBio = record {
    write_moved =
        λ s bytes. (ap (◌++◌ s.1) (sym (take-all chunk bytes)), sym (append-nil (take s.0 script)));
    write_le = λ s bytes. length-take_le chunk bytes;
    read_moved = λ s n. (sym (append-nil s.1), take-more _ s.0 (min n chunk) script refl);
    read_length = λ s n. refl;
    read_le = λ s n. omega (arith, length-take (min n chunk) (drop s.0 script));
  }
