-- ===== src/Cros/Pac/Bounds.antt =====
-- src/platform-cros.c: what `get_valid_hostport` writes, and what `canonicalize_pac` lets through.
use tlsdate.Base.{
  ℕ, zero, suc, ◌+◌, ◌≤◌, ◌<◌, ◌≡◌, ◌↔◌, refl, Bool, true, false, [], ◌∷◌, arith, length, take,
  Bytes, Bool-cases, ◌⊎◌, inl, inr,
}
use tlsdate.Cros.Pac.{is_alnum, copy_hostport, get_valid_hostport, written}

copy_hostport-length :
    (len : ℕ) (host : Bool) (s : Bytes) → length ((copy_hostport len host s).1) ≤ len
unfolding copy_hostport
copy_hostport-length zero true [] = ground arith
copy_hostport-length zero false [] = ground arith
copy_hostport-length (suc len) true [] = ground arith
copy_hostport-length (suc len) false [] = ground arith
copy_hostport-length zero host (c ∷ s) = ground arith
copy_hostport-length (suc len) true (c ∷ s) =
    ground (arith, copy_hostport-length len true s, copy_hostport-length len false s)
copy_hostport-length (suc len) false (c ∷ s) = ground (arith, copy_hostport-length len false s)

copy_hostport-take :
    (len : ℕ) (host : Bool) (s : Bytes)
    → (copy_hostport len host s).0 ≡ true
    → (copy_hostport len host s).1 ≡ take len s
unfolding copy_hostport
copy_hostport-take zero true [] h = ground arith
copy_hostport-take zero false [] h = ground arith
copy_hostport-take (suc len) true [] h = ground arith
copy_hostport-take (suc len) false [] h = ground arith
copy_hostport-take zero host (c ∷ s) h = ground arith
copy_hostport-take (suc len) true (c ∷ s) h =
    ground (arith, copy_hostport-take len true s, copy_hostport-take len false s)
copy_hostport-take (suc len) false (c ∷ s) h = ground (arith, copy_hostport-take len false s)

take_fits : (n : ℕ) (s : Bytes) → (length (take (suc n) s) + 1 ≤ n) ↔ (length s < n)
take_fits zero [] = (λ h. absurd (omega (arith, h)), λ h. absurd (omega (arith, h)))
take_fits zero (c ∷ s) = (λ h. absurd (omega (arith, h)), λ h. absurd (omega (arith, h)))
take_fits (suc n) [] = (λ h. omega arith, λ h. omega arith)
take_fits (suc n) (c ∷ s) =
    let rest = take_fits n s in
    (λ h. omega (arith, rest.0 (omega (arith, h))), λ h. omega (arith, rest.1 (omega (arith, h))))

-- For a buffer of `len` bytes, `get_valid_hostport` writes at most two bytes more than that. If it
-- takes its argument, the bytes stay within the buffer exactly if the argument is shorter than it:
-- a longer one overruns the buffer, and is cut.
pub get_valid_hostport-written :
    (s : Bytes) (len : ℕ)
    → (written (get_valid_hostport s len) ≤ len + 2)
      × (((get_valid_hostport s len).0 ≡ false)
          ⊎ (((get_valid_hostport s len).1 ≡ take (suc len) s)
              × ((written (get_valid_hostport s len) ≤ len) ↔ (length s < len))))
unfolding get_valid_hostport
get_valid_hostport-written [] len = (bound, inl refl)
  where
    bound : 0 + 1 ≤ len + 2
    bound = omega arith
get_valid_hostport-written (c ∷ s) len = elim (Bool-cases (is_alnum c)) [
  | inr e ↦ let one : 0 + 1 ≤ len + 2 = omega arith in rw e (one, inl refl)
  | inl e ↦
      let short = copy_hostport-length len true s in
      let all : length (c ∷ (copy_hostport len true s).1) + 1 ≤ len + 2 = omega (arith, short) in
      elim (Bool-cases (copy_hostport len true s).0) [
        | inr f ↦ rw e (all, inl f)
        | inl f ↦
            let cut = copy_hostport-take len true s f in
            rw (e, cut) (rw cut at all, inr (refl, take_fits len (c ∷ s)))
      ]
]
