-- ===== src/Bio.antt =====
-- OpenSSL's BIO, as src/proxy-bio.c and src/tlsdate-helper.c use it: BIO_write and BIO_read on a state
-- of the library's own, with what its manual says of them, and functions that return early.
pub mod Moves
pub mod Runs
use tlsdate.Base.{
  ℕ, ◌≤◌, ◌≡◌, refl, [], ◌++◌, Bytes, length, take, Bool, true, false, if◌then◌else◌,
}
use tlsdate.Base.Int.{ℤ, pos, negsuc, pos_part, is_count, is_minus_one}

-- `bio_write` gives the result of BIO_write, `bio_read` that of BIO_read for a buffer of the given
-- size, with the bytes that it put there. `sent` and `received` are what went through so far.
pub record Bio (S : Type 0) : Type 0 where
  pub bio_write : S → Bytes → ℤ × S
  pub bio_read : S → ℕ → (ℤ × Bytes) × S
  pub sent : S → Bytes
  pub received : S → Bytes

module _ {S : Type 0} (bio : Bio S) where
  -- Between the two states, `out` was sent and `inn` received.
  abbrev pub Moved : S → Bytes → Bytes → S → Type 0
  Moved s out inn t = (bio.sent t ≡ bio.sent s ++ out) × (bio.received t ≡ bio.received s ++ inn)

  -- A result that is positive is the number of the bytes that went through.
  pub record IsBio : Type 0 where
    pub write_moved :
        (s : S) (bytes : Bytes)
        → Moved s (take (pos_part (bio.bio_write s bytes).0) bytes) [] (bio.bio_write s bytes).1
    pub write_le : (s : S) (bytes : Bytes) → pos_part (bio.bio_write s bytes).0 ≤ length bytes
    pub read_moved : (s : S) (n : ℕ) → Moved s [] (bio.bio_read s n).0.1 (bio.bio_read s n).1
    pub read_length :
        (s : S) (n : ℕ) → length (bio.bio_read s n).0.1 ≡ pos_part (bio.bio_read s n).0.0
    pub read_le : (s : S) (n : ℕ) → pos_part (bio.bio_read s n).0.0 ≤ n

-- What goes wrong below the C code: a null pointer, an assertion, a loop that outlives its fuel.
pub data Fault : Type 0 where
  null_host no_connect out_of_fuel : Fault

-- A function's next step: it goes on, it returns early, or it fails.
pub data Step {ℓ} (S : Type 0) (A : Type ℓ) : Type ℓ where
  next : A → S → Step S A
  returned : ℤ → S → Step S A
  fault : Fault → Step S A

module _ {S A B : Type 0} where
  abbrev pub then_step : Step S A → (A → S → Step S B) → Step S B
  then_step (next a s) f = f a s
  then_step (returned r s) f = returned r s
  then_step (fault why) f = fault why

  infixl 5 ◌>>=◌ ◌>>◌
  abbrev pub ◌>>=◌ : (S → Step S A) → (A → S → Step S B) → S → Step S B
  (m >>= f) s = then_step (m s) f

  abbrev pub ◌>>◌ : (S → Step S A) → (S → Step S B) → S → Step S B
  (m >> k) s = then_step (m s) (λ a. k)

  pub then_step-next :
      (m : Step S A) (f : A → S → Step S B) (b : B) (t : S)
      → then_step m f ≡ next b t
      → (a : A) × (s : S) × (m ≡ next a s) × (f a s ≡ next b t)
  then_step-next (next a s) f b t h = (a, s, refl, h)
  then_step-next (returned r s) f b t h = cc
  then_step-next (fault why) f b t h = cc

module _ {S : Type 0} where
  -- `if (!test) return 0;`
  abbrev pub require : Bool → S → Step S (Unit {0})
  require true s = next tt s
  require false s = returned (pos 0) s

  pub require-next :
      (b : Bool) (s : S) (u : Unit {0}) (t : S) → require b s ≡ next u t → (b ≡ true) × (t ≡ s)
  require-next true s u t h = (refl, cc)
  require-next false s u t h = cc

-- The result of a call that did not do all that was asked: `if (-1 == r) return -1; return 0;`.
abbrev pub short_result : ℤ → ℤ
short_result r = if is_minus_one r then negsuc 0 else pos 0

-- `if (r != n) return 0;` without a test for -1.
abbrev pub zero_result : ℤ → ℤ
zero_result r = pos 0

module _ {S : Type 0} (bio : Bio S) where
  -- BIO_write of a packet, and what the caller returns where not all of it is written.
  unfoldable pub send : (ℤ → ℤ) → Bytes → S → Step S (Unit {0})
  send result packet s =
      let w = bio.bio_write s packet in
      if is_count w.0 (length packet) then next tt w.1 else returned (result w.0) w.1

  -- BIO_read of `n` bytes, and what the caller returns where it gets another number of them.
  unfoldable pub receive : (ℤ → ℤ) → ℕ → S → Step S Bytes
  receive result n s =
      let r = bio.bio_read s n in
      if is_count r.0.0 n then next r.0.1 r.1 else returned (result r.0.0) r.1
