-- ===== src/Helper/Writing.antt =====
-- src/tlsdate-helper.c: what `write_all_to_bio` promises.
use mathlib.Core.List.{append_assoc}
use tlsdate.Base.{
  ℕ, zero, suc, ◌+◌, ◌≤◌, ◌<◌, ◌≡◌, inl, inr, refl, ◌∙◌, ap, sym, ltb, false, [], ◌∷◌, ◌++◌, Bytes,
  length, take, drop, arith, Bool-cases,
}
use tlsdate.Base.Int.{ℤ, pos, negsuc, pos_part, is_positive, pos_part-pos}
use tlsdate.Bio.Moves.{Moved-refl, Moved-trans}
use tlsdate.Bio.{Bio, Moved, IsBio, Step, next}
use tlsdate.Helper.{write_loop, write_all_to_bio}

-- What the caller may rely on: the whole string was sent and the result is 1, or the front of it was
-- sent, with something left, and the result is 0.
pub data WroteAll {S : Type 0} (bio : Bio S) (s : S) (string : Bytes) : Step S ℤ → Type 0 where
  whole : (t : S) → Moved bio s string [] t → WroteAll bio s string (next (pos 1) t)
  part :
      (t : S) (front rest : Bytes)
      → string ≡ front ++ rest
      → 0 < length rest
      → Moved bio s front [] t
      → WroteAll bio s string (next (pos 0) t)

take-drop : (n : ℕ) (xs : Bytes) → take n xs ++ drop n xs ≡ xs
take-drop zero xs = refl
take-drop (suc n) [] = refl
take-drop (suc n) (x ∷ xs) = ap (◌∷◌ x) (take-drop n xs)

length-drop : (n : ℕ) (xs : Bytes) → n ≤ length xs → length (drop n xs) + n ≡ length xs
length-drop zero xs h = omega arith
length-drop (suc n) [] h = omega arith
length-drop (suc n) (x ∷ xs) h = omega (arith, length-drop n xs)

not_positive : (r : ℤ) → is_positive r ≡ false → pos_part r ≡ 0
not_positive (pos n) h = ground arith
not_positive (negsuc n) h = refl

module _ {S : Type 0} (bio : Bio S) (laws : IsBio bio) where
  -- A front that was sent, and then what is promised of the rest.
  prepend :
      (s t : S) (front rest : Bytes) (m : Step S ℤ)
      → Moved bio s front [] t
      → WroteAll bio t rest m
      → WroteAll bio s (front ++ rest) m
  prepend s t front rest _ m (whole u m2) = whole u (Moved-trans bio s t u front [] rest [] m m2)
  prepend s t front rest _ m (part u more left e l m2) =
      part u (front ++ more) left (ap (◌++◌ front) e ∙ sym (append_assoc front more left)) l
        (Moved-trans bio s t u front [] more [] m m2)

  write_loop-WroteAll :
      (fuel : ℕ) (string : Bytes) (s : S)
      → length string ≤ fuel
      → WroteAll bio s string (write_loop bio fuel string s)
  unfolding write_loop
  write_loop-WroteAll fuel [] s h = whole s (Moved-refl bio s)
  write_loop-WroteAll zero (c ∷ string) s h = absurd (omega arith)
  write_loop-WroteAll (suc fuel) (c ∷ string) s h =
      let w = bio.bio_write s (c ∷ string) in
      let n = pos_part w.0 in
      let m = laws.write_moved s (c ∷ string) in
      let le = laws.write_le s (c ∷ string) in
      elim (Bool-cases (is_positive w.0)) [
        | inr e ↦
            rw (write_loop, e)
              (part w.1 [] (c ∷ string) refl (omega arith) (rw (not_positive w.0 e) at m))
        | inl e ↦
            let short : ltb (length (c ∷ string)) n ≡ false = ground arith in
            let shorter = length-drop n (c ∷ string) le in
            let more = pos_part-pos w.0 e in
            let rest =
              write_loop-WroteAll fuel (drop n (c ∷ string)) w.1 (omega (arith, shorter)) in
            let all = prepend s w.1 (take n (c ∷ string)) (drop n (c ∷ string)) _ m rest in
            rw (write_loop, e, short) (rw (take-drop n (c ∷ string)) at all)
      ]

  -- The result is 1 and the whole string was sent, in order, or it is 0 and a front of it that is
  -- shorter: never -1, and the rounds are enough.
  pub write_all_to_bio-WroteAll :
      (string : Bytes) (s : S) → WroteAll bio s string (write_all_to_bio bio string s)
  write_all_to_bio-WroteAll string s = write_loop-WroteAll (length string) string s (omega arith)
