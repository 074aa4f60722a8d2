-- ===== src/Base/Text.antt =====
-- C strings: the bytes before the terminating NUL, as code points; and the parts of <string.h>,
-- <strings.h>, <ctype.h> and <stdlib.h> that the program calls on them, in the C locale.
use Prim.Native.Char.{code}
use Prim.Native.Nat.{ℕ, ◌+◌}
use Prim.Native.String.{String}
use mathlib.Core.Bool.{Bool, true, false, ◌&&◌, ◌||◌}
use mathlib.Core.List.{List, [], ◌∷◌}
use mathlib.Core.Logic.{◌↔◌}
use mathlib.Core.Path.{◌≡◌}
use native.Mathlib.Omega.{arith}
use tlsdate.Base.Tests.{leb, ◌==◌, if◌then◌else◌}

abbrev pub Bytes : Type 0
Bytes = List ℕ

-- A literal of the source.
abbrev pub codes : String → Bytes
codes String.[] = []
codes (String.◌∷◌ c s) = code c ∷ codes s

-- `!strcmp (a, b)`.
abbrev pub str_eq : Bytes → Bytes → Bool
str_eq [] [] = true
str_eq [] (y ∷ ys) = false
str_eq (x ∷ xs) [] = false
str_eq (x ∷ xs) (y ∷ ys) = x == y && str_eq xs ys

pub str_eq_iff : (a b : Bytes) → (str_eq a b ≡ true) ↔ (a ≡ b)
str_eq_iff [] [] = ground arith
str_eq_iff [] (y ∷ ys) = ground arith
str_eq_iff (x ∷ xs) [] = ground arith
str_eq_iff (x ∷ xs) (y ∷ ys) = ground (arith, str_eq_iff xs ys)

-- `isspace`: space, \t \n \v \f \r.
abbrev pub is_space : ℕ → Bool
is_space c = c == 32 || (leb 9 c && leb c 13)

-- `isdigit`.
abbrev pub is_digit : ℕ → Bool
is_digit c = leb 48 c && leb c 57

-- `tolower`.
abbrev pub to_lower : ℕ → ℕ
to_lower c = if leb 65 c && leb c 90 then c + 32 else c

-- `!strcasecmp (a, b)`.
abbrev pub str_case_eq : Bytes → Bytes → Bool
str_case_eq [] [] = true
str_case_eq [] (y ∷ ys) = false
str_case_eq (x ∷ xs) [] = false
str_case_eq (x ∷ xs) (y ∷ ys) = to_lower x == to_lower y && str_case_eq xs ys
