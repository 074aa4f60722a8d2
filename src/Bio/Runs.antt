-- ===== src/Bio/Runs.antt =====
-- The handshakes of src/proxy-bio.c: steps that never fail below the C code.
use tlsdate.Base.{ℕ, ◌≡◌, ◌≢◌, refl, if◌then◌else◌, Bytes, length, Bool, true, false}
use tlsdate.Base.Int.{ℤ, is_count}
use tlsdate.Bio.{Bio, Step, next, returned, fault, Fault, then_step, require, send, receive}

-- No fault: the function returns, or goes on.
abbrev pub Runs : {S A : Type 0} → Step S A → Type 0
Runs m = (why : Fault) → m ≢ fault why

module _ {S A B : Type 0} where
  pub Runs-then_step :
      (m : Step S A) (f : A → S → Step S B)
      → Runs m
      → ((a : A) (t : S) → m ≡ next a t → Runs (f a t))
      → Runs (then_step m f)
  Runs-then_step (next a s) f r k = k a s refl
  Runs-then_step (returned x s) f r k = λ why h. cc
  Runs-then_step (fault why) f r k = absurd (r why refl)

module _ {S : Type 0} where
  pub Runs-if :
      {A : Type 0} (b : Bool) (a : A) (s t : S) (x : ℤ)
      → Runs (if b then next a s else returned x t)
  Runs-if true a s t x why h = cc
  Runs-if false a s t x why h = cc

  pub Runs-require : (b : Bool) (s : S) → Runs (require b s)
  Runs-require true s why h = cc
  Runs-require false s why h = cc

  pub Runs-send :
      (bio : Bio S) (result : ℤ → ℤ) (packet : Bytes) (s : S) → Runs (send bio result packet s)
  unfolding send
  Runs-send bio result packet s =
      Runs-if (is_count (bio.bio_write s packet).0 (length packet)) tt _ _ _

  pub Runs-receive : (bio : Bio S) (result : ℤ → ℤ) (n : ℕ) (s : S) → Runs (receive bio result n s)
  unfolding receive
  Runs-receive bio result n s = Runs-if (is_count (bio.bio_read s n).0.0 n) _ _ _ _
