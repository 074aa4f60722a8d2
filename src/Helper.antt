-- ===== src/Helper.antt =====
-- src/tlsdate-helper.c: the request of the helper and the date in the answer of an HTTP server. The
-- children have the proofs and the main function.
pub mod Writing
pub mod Calendar
pub mod Dates
pub mod Reading
pub mod Numbers
pub mod Months
pub mod RoundTrip
pub mod Main
pub mod Effects
pub mod Elapsed
pub mod Measured
pub mod Success
use tlsdate.Base.{
  ℕ, zero, suc, ◌+◌, ◌-◌, ◌*◌, ◌/◌, ◌%◌, ltb, leb, ◌==◌, Bool, true, false, not, ◌&&◌, ◌||◌, List,
  [], ◌∷◌, ◌++◌, Option, none, some, if◌then◌else◌, Bytes, codes, str_eq, length, take, drop, map,
}
use tlsdate.Base.Int.{ℤ, pos, negsuc, pos_part, neg_part, sub_ℕ, ◌+ℤ◌, ◌-ℤ◌, ltb_ℤ, is_positive}
use tlsdate.Bio.{Bio, Step, next, returned, fault, out_of_fuel}
use tlsdate.Proxy.{strip_prefix, split_at}
use tlsdate.ProxyBio.{c_string}
use tlsdate.Scan.{Directive, white, skip_word, int, literal, word, Value, text, number, sscanf}

module _ {S : Type 0} (bio : Bio S) where
  -- `write_all_to_bio`; every round writes a byte at least, so that the fuel is the string's length.
  unfoldable pub write_loop : ℕ → Bytes → S → Step S ℤ
  write_loop fuel [] s = next (pos 1) s
  write_loop zero (c ∷ string) s = fault out_of_fuel
  write_loop (suc fuel) (c ∷ string) s =
      let w = bio.bio_write s (c ∷ string) in
      elim (is_positive w.0) [
        | false ↦ next (pos 0) w.1
        | true ↦ elim (ltb (length (c ∷ string)) (pos_part w.0)) [
          | true ↦ next (negsuc 0) w.1
          | false ↦ write_loop fuel (drop (pos_part w.0) (c ∷ string)) w.1
        ]
      ]

  abbrev pub write_all_to_bio : Bytes → S → Step S ℤ
  write_all_to_bio string = write_loop (length string) string

-- `sanitize_string`.
abbrev pub is_clean : Bytes → Bool
is_clean [] = true
is_clean (c ∷ s) = not (ltb c 32 || leb 127 c) && is_clean s

abbrev pub sanitize_string : Bytes → Bytes
sanitize_string s = if is_clean s then s else codes "string with invalid characters"

-- What `handle_date_line` returns: 0, a negative number, or 1 with `*result`.
pub data Parsed : Type 0 where
  not_date : Parsed
  failed : ℤ → Parsed
  parsed : ℕ → Parsed

-- `MONTHS`.
abbrev pub months : List Bytes
months =
    codes "Jan"
    ∷ codes "Feb"
    ∷ codes "Mar"
    ∷ codes "Apr"
    ∷ codes "May"
    ∷ codes "Jun"
    ∷ codes "Jul"
    ∷ codes "Aug"
    ∷ codes "Sep"
    ∷ codes "Oct"
    ∷ codes "Nov"
    ∷ codes "Dec"
    ∷ []

-- The loop over `MONTHS`: the index of the first that is equal.
abbrev pub find_month : List Bytes → Bytes → Option ℕ
find_month [] month = none
find_month (name ∷ names) month =
    let rest = find_month names month in
    if str_eq month name then some 0 else elim rest [ none ↦ none | some i ↦ some (suc i) ]

-- The loops over the spaces and over the day of the week.
abbrev pub skip_spaces : Bytes → Bytes
skip_spaces [] = []
skip_spaces (c ∷ s) = elim (c == b' ') [ true ↦ skip_spaces s | false ↦ c ∷ s ]

abbrev pub skip_name : Bytes → Bytes
skip_name [] = []
skip_name (c ∷ s) = elim (c == b' ') [ true ↦ c ∷ s | false ↦ skip_name s ]

-- The fields that the three formats assign.
pub record Fields : Type 0 where
  pub year : ℤ
  pub month : Bytes
  pub day : ℤ
  pub hour : ℤ
  pub minute : ℤ
  pub second : ℤ

-- "%d:%d:%d", at the end of a format or before more.
abbrev pub clock_format : List Directive → List Directive
clock_format more = int ∷ literal b':' ∷ int ∷ literal b':' ∷ int ∷ more

-- "%d %3s %d %d:%d:%d", "%d-%3s-%d %d:%d:%d" and "%3s %d %d:%d:%d %d".
abbrev pub rfc1123_format : List Directive
rfc1123_format = int ∷ white ∷ word 3 ∷ white ∷ int ∷ white ∷ clock_format []

abbrev pub rfc850_format : List Directive
rfc850_format = int ∷ literal b'-' ∷ word 3 ∷ literal b'-' ∷ int ∷ white ∷ clock_format []

abbrev pub asctime_format : List Directive
asctime_format = word 3 ∷ white ∷ int ∷ white ∷ clock_format (white ∷ int ∷ [])

-- The fields where six were assigned, in the order of the first two formats and in that of the third.
abbrev pub day_first : List Value → Option Fields
day_first (number d ∷ text m ∷ number y ∷ number h ∷ number mi ∷ number s ∷ []) =
    some (record { year = y; month = m; day = d; hour = h; minute = mi; second = s })
day_first _ = none

abbrev pub month_first : List Value → Option Fields
month_first (text m ∷ number d ∷ number h ∷ number mi ∷ number s ∷ number y ∷ []) =
    some (record { year = y; month = m; day = d; hour = h; minute = mi; second = s })
month_first _ = none

abbrev pub or_else : Option Fields → Option Fields → Option Fields
or_else none second = second
or_else (some f) second = some f

-- The calls of sscanf, up to the first that assigns all.
unfoldable pub scan_date : Bytes → Option Fields
scan_date s =
    or_else (day_first (sscanf rfc1123_format s))
      (or_else (day_first (sscanf rfc850_format s)) (month_first (sscanf asctime_format s)))
