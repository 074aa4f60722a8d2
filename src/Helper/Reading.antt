-- ===== src/Helper/Reading.antt =====
-- src/tlsdate-helper.c: what `read_http_date_from_bio` has read when it returns.
use mathlib.Core.List.{append-nil, append_assoc}
use tlsdate.Base.{
  ℕ, zero, suc, ◌+◌, ◌-◌, ◌≤◌, ◌<◌, ◌≡◌, inl, inr, refl, ltb, ltb→lt, false, [], ◌∷◌, ◌++◌, none,
  some, Bytes, length, length-append, arith, Bool-cases, Option-cases,
}
use tlsdate.Base.Int.{ℤ, pos, negsuc, pos_part, is_positive, pos_part-pos, ◌≤ℤ◌}
use tlsdate.Bio.Moves.{Moved-refl, Moved-trans}
use tlsdate.Bio.{Bio, Moved, IsBio, Step, next, returned}
use tlsdate.Helper.Dates.{date_loop, read_http_date_from_bio, find_date_line, handle_date_line}
use tlsdate.Helper.{Parsed}
use tlsdate.Proxy.{split_at}

-- What BIO_read gives when it is asked for as many bytes as there is room for behind `buf`.
abbrev pub next_read : {S : Type 0} → Bio S → S → Bytes → (ℤ × Bytes) × S
next_read bio s buf = bio.bio_read s (8192 - length buf - 1)

-- How reading ends: with the date line of what was read; with 0, right behind a BIO_read that was asked
-- for a byte at least and gave 0 or an error; or with -2, where the buffer is full. In the last two there
-- was no date line in what was read.
pub data Ending {S : Type 0} (bio : Bio S) (s : S) (before : Bytes) : Step S Parsed → Type 0 where
  found :
      (t : S) (inn line : Bytes)
      → Moved bio s [] inn t
      → length (before ++ inn) ≤ 8191
      → find_date_line (before ++ inn) ≡ some line
      → Ending bio s before (next (handle_date_line line) t)
  no_more :
      (u t : S) (inn : Bytes)
      → Moved bio s [] inn u
      → Moved bio s [] inn t
      → length (before ++ inn) < 8191
      → find_date_line (before ++ inn) ≡ none
      → (next_read bio u (before ++ inn)).0.0 ≤ℤ pos 0
      → (next_read bio u (before ++ inn)).1 ≡ t
      → Ending bio s before (returned (pos 0) t)
  full :
      (t : S) (inn : Bytes)
      → Moved bio s [] inn t
      → length (before ++ inn) ≡ 8191
      → find_date_line (before ++ inn) ≡ none
      → Ending bio s before (returned (negsuc 1) t)

not_positive : (r : ℤ) → is_positive r ≡ false → r ≤ℤ pos 0
not_positive (pos n) h = ground arith
not_positive (negsuc n) h = omega arith

no_bytes : (r : ℤ) (bytes : Bytes) → is_positive r ≡ false → length bytes ≡ pos_part r → bytes ≡ []
no_bytes (pos n) [] h l = refl
no_bytes (pos n) (c ∷ s) h l = absurd (ground arith)
no_bytes (negsuc n) [] h l = refl
no_bytes (negsuc n) (c ∷ s) h l = absurd (omega arith)

module _ {S : Type 0} (bio : Bio S) (laws : IsBio bio) where
  extend :
      (s t : S) (buf bytes : Bytes) (m : Step S Parsed)
      → Moved bio s [] bytes t
      → Ending bio t (buf ++ bytes) m
      → Ending bio s buf m
  extend s t buf bytes _ m (found u inn line m2 l e) =
      let a = append_assoc buf bytes inn in
      found u (bytes ++ inn) line (Moved-trans bio s t u [] bytes [] inn m m2) (rw (a) at l)
        (rw (a) at e)
  extend s t buf bytes _ m (no_more v u inn mv m2 l e z r) =
      let a = append_assoc buf bytes inn in
      no_more v u (bytes ++ inn) (Moved-trans bio s t v [] bytes [] inn m mv)
        (Moved-trans bio s t u [] bytes [] inn m m2) (rw (a) at l) (rw (a) at e) (rw (a) at z)
        (rw (a) at r)
  extend s t buf bytes _ m (full u inn m2 l e) =
      let a = append_assoc buf bytes inn in
      full u (bytes ++ inn) (Moved-trans bio s t u [] bytes [] inn m m2) (rw (a) at l) (rw (a) at e)

  nothing_read :
      (s : S) (n : ℕ) → is_positive (bio.bio_read s n).0.0 ≡ false → (bio.bio_read s n).0.1 ≡ []
  nothing_read s n h =
      no_bytes (bio.bio_read s n).0.0 (bio.bio_read s n).0.1 h (laws.read_length s n)

  ends :
      (s : S) (buf : Bytes)
      → length buf < 8191
      → is_positive (next_read bio s buf).0.0 ≡ false
      → find_date_line buf ≡ none
      → Ending bio s buf (returned (pos 0) (next_read bio s buf).1)
  ends s buf room f miss =
      let n = 8192 - length buf - 1 in
      let a = append-nil buf in
      no_more s (bio.bio_read s n).1 [] (Moved-refl bio s)
        (rw (nothing_read s n f) at (laws.read_moved s n)) (rw (a) room) (rw (a) miss)
        (rw (a) (not_positive (bio.bio_read s n).0.0 f)) (rw (a) refl)

  ending :
      (fuel : ℕ) (buf : Bytes) (s : S)
      → find_date_line buf ≡ none
      → 8191 < fuel + length buf
      → length buf ≤ 8191
      → Ending bio s buf (date_loop bio fuel buf s)
  unfolding date_loop
  ending zero buf s miss enough fits = absurd (omega arith)
  ending (suc fuel) buf s miss enough fits = elim (Bool-cases (ltb (length buf) 8191)) [
    | inr e ↦
        rw (date_loop, e)
          (full s [] (Moved-refl bio s) (rw (append-nil buf) (ground arith))
            (rw (append-nil buf) miss))
    | inl e ↦
        let n = 8192 - length buf - 1 in
        let r = bio.bio_read s n in
        let m = laws.read_moved s n in
        let l = laws.read_length s n in
        let le = laws.read_le s n in
        let long = length-append buf r.0.1 in
        elim (Bool-cases (is_positive r.0.0)) [
          | inr f ↦ rw (date_loop, e, f) (ends s buf (ltb→lt _ _ e) f miss)
          | inl f ↦ elim (Option-cases (find_date_line (buf ++ r.0.1))) [
            | inr (line, g) ↦
                rw (date_loop, e, f, g) (found r.1 r.0.1 line m (omega (arith, long)) g)
            | inl g ↦
                let some_read = pos_part-pos r.0.0 f in
                rw (date_loop, e, f, g)
                  (extend s r.1 buf r.0.1 _ m
                    (ending fuel (buf ++ r.0.1) r.1 g (omega (arith, long)) (omega (arith, long))))
          ]
        ]
  ]

  -- Every byte read is kept, and the reading ends within its fuel: with the date line of what was read,
  -- which fits into the buffer; with 0, where BIO_read, asked for what the buffer still holds, gave nothing; or with -2, where the buffer is full.
  pub read_http_date_from_bio-Ending : (s : S) → Ending bio s [] (read_http_date_from_bio bio s)
  unfolding find_date_line split_at
  read_http_date_from_bio-Ending s = ending 8192 [] s refl (omega arith) (omega arith)
