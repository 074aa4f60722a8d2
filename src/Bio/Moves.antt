-- ===== src/Bio/Moves.antt =====
-- The calls of BIO_write and BIO_read in src/proxy-bio.c: what went through where they go on.
use tlsdate.Base.{
  ℕ, ◌≡◌, refl, sym, ap, ◌∙◌, [], ◌∷◌, ◌++◌, Bytes, length, take, Bool, true, false, if◌then◌else◌,
  arith,
}
use tlsdate.Base.Int.{ℤ, pos, negsuc, pos_part, is_count}
use tlsdate.Bio.{Bio, Moved, IsBio, Step, next, returned, fault, then_step, require, send, receive}
use mathlib.Core.List.{append-nil, append_assoc}

take-length : (xs : Bytes) → take (length xs) xs ≡ xs
take-length [] = refl
take-length (x ∷ xs) = ap (◌∷◌ x) (take-length xs)

pub pos_part-is_count : (r : ℤ) (n : ℕ) → is_count r n ≡ true → pos_part r ≡ n
pos_part-is_count (pos m) n h = ground arith
pos_part-is_count (negsuc m) n h = cc

take_all : (n : ℕ) (xs : Bytes) → n ≡ length xs → take n xs ≡ xs
take_all n xs h = rw (h) (take-length xs)

if-next :
    {A S : Type 0} (b : Bool) (a a2 : A) (s t : S) (r : ℤ) (u : S)
    → (if b then next a s else returned r u) ≡ next a2 t
    → (b ≡ true) × (a2 ≡ a) × (t ≡ s)
if-next true a a2 s t r u h = (refl, cc, cc)
if-next false a a2 s t r u h = cc

module _ {S : Type 0} (bio : Bio S) where
  pub Moved-trans :
      (s t u : S) (out inn out2 inn2 : Bytes)
      → Moved bio s out inn t
      → Moved bio t out2 inn2 u
      → Moved bio s (out ++ out2) (inn ++ inn2) u
  Moved-trans s t u out inn out2 inn2 h k = (
    rw (k.0, h.0, append_assoc (bio.sent s) out out2) refl,
    rw (k.1, h.1, append_assoc (bio.received s) inn inn2) refl,
  )

  pub Moved-refl : (s : S) → Moved bio s [] [] s
  Moved-refl s = (sym (append-nil (bio.sent s)), sym (append-nil (bio.received s)))

  module _ (laws : IsBio bio) where
    pub send-next :
        (result : ℤ → ℤ) (packet : Bytes) (s : S) (a : Unit {0}) (t : S)
        → send bio result packet s ≡ next a t
        → Moved bio s packet [] t
    unfolding send
    send-next result packet s a t h =
        let q = if-next (is_count (bio.bio_write s packet).0 (length packet)) tt a _ t _ _ h in
        let all =
          take_all (pos_part (bio.bio_write s packet).0) packet (pos_part-is_count _ _ q.0) in
        let m = laws.write_moved s packet in (rw (q.2, m.0, all) refl, rw (q.2, m.1) refl)

    pub receive-next :
        (result : ℤ → ℤ) (n : ℕ) (s : S) (bytes : Bytes) (t : S)
        → receive bio result n s ≡ next bytes t
        → Moved bio s [] bytes t × (length bytes ≡ n)
    unfolding receive
    receive-next result n s bytes t h =
        let q = if-next (is_count (bio.bio_read s n).0.0 n) _ bytes _ t _ _ h in
        let m = laws.read_moved s n in
        (
          (rw (q.2, m.0) refl, rw (q.2, q.1, m.1) refl),
          rw (q.1) (laws.read_length s n ∙ pos_part-is_count _ _ q.0),
        )

-- Where the step goes on, its value and its state are as `P` says.
abbrev pub Holds : {S A : Type 0} → (A → S → Type 0) → Step S A → Type 0
Holds {S} {A} P m = (a : A) (t : S) → m ≡ next a t → P a t

module _ {S A B : Type 0} (P : B → S → Type 0) where
  pub Holds-then_step :
      (m : Step S A) (f : A → S → Step S B)
      → ((a : A) (t : S) → m ≡ next a t → Holds P (f a t))
      → Holds P (then_step m f)
  Holds-then_step (next a s) f k b t h = k a s refl b t h
  Holds-then_step (returned r s) f k b t h = cc
  Holds-then_step (fault why) f k b t h = cc

module _ {S B : Type 0} (P : B → S → Type 0) where
  pub Holds-require :
      (b : Bool) (s : S) (f : S → Step S B)
      → (b ≡ true → Holds P (f s))
      → Holds P (then_step (require b s) (λ u. f))
  Holds-require true s f k b t h = k refl b t h
  Holds-require false s f k b t h = cc

  module _ (bio : Bio S) (laws : IsBio bio) where
    pub Holds-send :
        (result : ℤ → ℤ) (packet : Bytes) (s : S) (f : S → Step S B)
        → ((t : S) → Moved bio s packet [] t → Holds P (f t))
        → Holds P (then_step (send bio result packet s) (λ u. f))
    Holds-send result packet s f k =
        Holds-then_step P (send bio result packet s) (λ u. f)
          (λ a t h. k t (send-next bio laws result packet s a t h))

    pub Holds-receive :
        (result : ℤ → ℤ) (n : ℕ) (s : S) (f : Bytes → S → Step S B)
        → ((got : Bytes) (t : S) → Moved bio s [] got t → length got ≡ n → Holds P (f got t))
        → Holds P (then_step (receive bio result n s) f)
    Holds-receive result n s f k =
        Holds-then_step P (receive bio result n s) f
          (λ got t h. let q = receive-next bio laws result n s got t h in k got t q.0 q.1)
