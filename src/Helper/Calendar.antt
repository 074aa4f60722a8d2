-- ===== src/Helper/Calendar.antt =====
-- `timegm` of the C library, as src/tlsdate-helper.c calls it: with a month from 0 to 11, and with any
-- number in each other field.
use tlsdate.Base.{
  ℕ, zero, suc, ◌+◌, ◌-◌, ◌*◌, ◌/◌, ◌%◌, ltb, ◌==◌, Bool, ◌&&◌, ◌||◌, not, if◌then◌else◌, List, [],
  ◌∷◌,
}
use tlsdate.Base.Int.{ℤ, pos, pos_part, neg_part, sub_ℕ, ◌+ℤ◌, ◌-ℤ◌}

-- `k` times an integer.
abbrev pub times : ℕ → ℤ → ℤ
times k a = sub_ℕ (pos_part a * k) (neg_part a * k)

abbrev pub is_leap : ℕ → Bool
is_leap y = y % 4 == 0 && (not (y % 100 == 0) || y % 400 == 0)

-- The days of the years before `y`, from the year 0 on.
abbrev pub days_before_year : ℕ → ℕ
days_before_year y = 365 * y + ((y + 3) / 4 - (y + 99) / 100 + (y + 399) / 400)

-- The days of the months before `m`, of a year that is no leap year.
abbrev pub month_days : ℕ → List ℕ → ℕ
month_days zero days = 0
month_days (suc m) [] = 0
month_days (suc m) (d ∷ days) = d + month_days m days

abbrev pub month_lengths : List ℕ
month_lengths = 31 ∷ 28 ∷ 31 ∷ 30 ∷ 31 ∷ 30 ∷ 31 ∷ 31 ∷ 30 ∷ 31 ∷ 30 ∷ 31 ∷ []

abbrev pub leap_day : ℕ → ℕ → ℕ
leap_day y m = if is_leap y && ltb 1 m then 1 else 0

-- The days from the first of January of the year 0 to the first of the month.
abbrev pub days_before : ℕ → ℕ → ℕ
days_before y m = days_before_year y + month_days m month_lengths + leap_day y m

-- 5368710 times 400 years are more than an `int` can lie below 0, and 719528 days lie before 1970.
abbrev pub days_from_epoch : ℤ → ℕ → ℤ
days_from_epoch year month =
    pos (days_before (pos_part (year +ℤ pos 2147484000)) month) -ℤ pos (146097 * 5368710 + 719528)

unfoldable pub timegm : ℤ → ℕ → ℤ → ℤ → ℤ → ℤ → ℤ
timegm year month day hour minute second =
    times 86400 (days_from_epoch year month +ℤ (day -ℤ pos 1))
    +ℤ (times 3600 hour +ℤ (times 60 minute +ℤ second))
