-- ===== src/Helper/RoundTrip.antt =====
-- src/tlsdate-helper.c: dates in the format of RFC 1123, which `handle_date_line` takes for what they say.
use tlsdate.Base.{
  ℕ, ◌+◌, ◌/◌, ◌%◌, ◌^◌, ◌<◌, ◌≤◌, ◌≡◌, ◌≢◌, refl, ◌∙◌, ap, ltb, false, List, [], ◌∷◌, ◌++◌, some,
  Bytes, codes, All, length, length-append, get_elem?, is_digit, arith,
}
use tlsdate.Base.Int.{pos}
use tlsdate.Helper.Calendar.{timegm}
use tlsdate.Helper.Dates.{handle_date_line, date_of, full_year, as_u32}
use tlsdate.Helper.Months.{All-get_elem?, IsWord, all_words, find_month-get_elem?, length-months}
use tlsdate.Helper.Numbers.{printed, value, two, four, AllDigits, scan_int-printed, spaces-printed}
use tlsdate.Helper.{
  parsed, months, find_month, scan_date, skip_spaces, skip_name, rfc1123_format, clock_format,
}
use tlsdate.Proxy.{strip_prefix}
use tlsdate.Scan.{Directive, white, literal, word, int, text, number, sscanf}

-- A date behind the day of the week: "06 Nov 1994 08:49:37 GMT".
abbrev pub clock_text : ℕ → ℕ → ℕ → Bytes
clock_text h m s =
    printed (two h) ++ (b':' ∷ (printed (two m) ++ (b':' ∷ (printed (two s) ++ codes " GMT"))))

abbrev pub date_text : ℕ → Bytes → ℕ → ℕ → ℕ → ℕ → Bytes
date_text day month year h m s =
    printed (two day)
    ++ (b' ' ∷ (month ++ (b' ' ∷ (printed (four year) ++ (b' ' ∷ clock_text h m s)))))

-- A header line: "Date: Sun, 06 Nov 1994 08:49:37 GMT", behind the end of the line before it.
abbrev pub date_line : Bytes → ℕ → Bytes → ℕ → ℕ → ℕ → ℕ → Bytes
date_line name day month year h m s =
    codes "\r\nDate: " ++ (name ++ (codes ", " ++ date_text day month year h m s))

-- A number of two digits, and one of four.
two_value : (n : ℕ) → n < 100 → value 0 (two n) ≡ n
two_value n h = omega arith

four_value : (n : ℕ) → n < 10000 → value 0 (four n) ≡ n
four_value n h = omega arith

two-AllDigits : (n : ℕ) → n < 100 → AllDigits (two n)
two-AllDigits n h = (omega arith, (omega arith, tt))

four-AllDigits : (n : ℕ) → n < 10000 → AllDigits (four n)
four-AllDigits n h = (omega arith, (omega arith, (omega arith, (omega arith, tt))))

-- The parts of a format on what they take.
sscanf-two :
    (n : ℕ) (format : List Directive) (c : ℕ) (rest : Bytes)
    → n < 100
    → is_digit c ≡ false
    → sscanf (int ∷ format) (printed (two n) ++ (c ∷ rest))
      ≡ number (pos n) ∷ sscanf format (c ∷ rest)
unfolding sscanf
sscanf-two n format c rest h stop =
    let v = two_value n h in
    let scan =
      scan_int-printed (n / 10) (n % 10 ∷ []) (c ∷ rest) (two-AllDigits n h) stop
        (rw (v) (omega arith)) in
    rw (sscanf, scan, v) refl

sscanf-four :
    (n : ℕ) (format : List Directive) (c : ℕ) (rest : Bytes)
    → n < 10000
    → is_digit c ≡ false
    → sscanf (int ∷ format) (printed (four n) ++ (c ∷ rest))
      ≡ number (pos n) ∷ sscanf format (c ∷ rest)
unfolding sscanf
sscanf-four n format c rest h stop =
    let v = four_value n h in
    let scan =
      scan_int-printed (n / 1000) (n / 100 % 10 ∷ n / 10 % 10 ∷ n % 10 ∷ []) (c ∷ rest)
        (four-AllDigits n h) stop (rw (v) (omega arith)) in
    rw (sscanf, scan, v) refl

sscanf-white :
    (k : ℕ) (ks : List ℕ) (format : List Directive) (rest : Bytes)
    → k < 10
    → sscanf (white ∷ format) (b' ' ∷ (printed (k ∷ ks) ++ rest))
      ≡ sscanf format (printed (k ∷ ks) ++ rest)
unfolding sscanf
sscanf-white k ks format rest h = rw (sscanf, spaces-printed k (printed ks ++ rest) h) refl

-- A date that the first format takes.
sscanf-date_text :
    (day mon : ℕ) (month : Bytes) (year h m s : ℕ)
    → get_elem? months mon ≡ some month
    → day < 100
    → year < 10000
    → h < 100
    → m < 100
    → s < 100
    → sscanf rfc1123_format (date_text day month year h m s)
      ≡ number (pos day)
        ∷ text month
        ∷ number (pos year)
        ∷ number (pos h)
        ∷ number (pos m)
        ∷ number (pos s)
        ∷ []
unfolding sscanf
sscanf-date_text day mon month year h m s e hd hy hh hm hs =
    let clock =
      sscanf-white (h / 10) (h % 10 ∷ []) (clock_format [])
        (b':' ∷ (printed (two m) ++ (b':' ∷ (printed (two s) ++ codes " GMT")))) (omega arith) in
    let first =
      sscanf-two day (white ∷ word 3 ∷ white ∷ int ∷ white ∷ clock_format []) b' '
        (month ++ (b' ' ∷ (printed (four year) ++ (b' ' ∷ clock_text h m s)))) hd refl in
    let second =
      All-get_elem? IsWord months mon month all_words e (white ∷ int ∷ white ∷ clock_format [])
        (printed (four year) ++ (b' ' ∷ clock_text h m s)) in
    let gap =
      sscanf-white (year / 1000) (year / 100 % 10 ∷ year / 10 % 10 ∷ year % 10 ∷ [])
        (int ∷ white ∷ clock_format []) (b' ' ∷ clock_text h m s) (omega arith) in
    let third = sscanf-four year (white ∷ clock_format []) b' ' (clock_text h m s) hy refl in
    let hours = sscanf-two h (literal b':' ∷ int ∷ literal b':' ∷ int ∷ []) b':' _ hh refl in
    let minutes = sscanf-two m (literal b':' ∷ int ∷ []) b':' _ hm refl in
    let seconds = sscanf-two s [] b' ' (codes "GMT") hs refl in
    first
    ∙ ap (◌∷◌ (number (pos day))) (
        second
        ∙ ap (◌∷◌ (text month)) (
            gap
            ∙ third
            ∙ ap (◌∷◌ (number (pos year))) (
                clock
                ∙ hours
                ∙ ap (◌∷◌ (number (pos h))) (minutes ∙ ap (◌∷◌ (number (pos m))) seconds))))

skip_spaces-name :
    (name rest : Bytes)
    → All (λ c. c ≢ b' ') name
    → skip_spaces (name ++ (b',' ∷ rest)) ≡ name ++ (b',' ∷ rest)
skip_spaces-name [] rest h = refl
skip_spaces-name (c ∷ name) rest h = ground arith

skip_name-name :
    (name rest : Bytes)
    → All (λ c. c ≢ b' ') name
    → skip_name (name ++ (b',' ∷ b' ' ∷ rest)) ≡ b' ' ∷ rest
skip_name-name [] rest h = refl
skip_name-name (c ∷ name) rest h = ground (arith, skip_name-name name rest h.1)

-- The day of the week is skipped, with the spaces around it.
skip-week_day :
    (name : Bytes) (k : ℕ) (rest : Bytes)
    → All (λ c. c ≢ b' ') name
    → k < 10
    → skip_spaces (skip_name (skip_spaces (name ++ (codes ", " ++ ((b'0' + k) ∷ rest)))))
      ≡ (b'0' + k) ∷ rest
skip-week_day name k rest h small =
    rw (skip_spaces-name name _ h, skip_name-name name _ h) (ground arith)

length-date_text :
    (day : ℕ) (month : Bytes) (year h m s : ℕ)
    → length month ≡ 3
    → length (date_text day month year h m s) ≡ 24
length-date_text day month year h m s e =
    omega (arith, length-append month (b' ' ∷ (printed (four year) ++ (b' ' ∷ clock_text h m s))))

scan_date-date_text :
    (day mon : ℕ) (month : Bytes) (year h m s : ℕ)
    → get_elem? months mon ≡ some month
    → day < 100
    → year < 10000
    → h < 100
    → m < 100
    → s < 100
    → scan_date (date_text day month year h m s)
      ≡ some (record {
        year = pos year;
        month = month;
        day = pos day;
        hour = pos h;
        minute = pos m;
        second = pos s;
      })
unfolding scan_date
scan_date-date_text day mon month year h m s e hd hy hh hm hs =
    rw (scan_date, sscanf-date_text day mon month year h m s e hd hy hh hm hs) refl

year-full_year : (year : ℕ) → 100 ≤ year → full_year (pos year) ≡ pos year
year-full_year year h = ground arith

date_of-valid :
    (day mon : ℕ) (month : Bytes) (year h m s : ℕ)
    → find_month months month ≡ some mon
    → 100 ≤ year
    → date_of (record {
      year = pos year;
      month = month;
      day = pos day;
      hour = pos h;
      minute = pos m;
      second = pos s;
    })
      ≡ as_u32 (timegm (pos year) mon (pos day) (pos h) (pos m) (pos s))
unfolding date_of
date_of-valid day mon month year h m s index late =
    rw (date_of, index, year-full_year year late) refl

range : (t : ℕ) → t < 2 ^ 32 → as_u32 (pos t) ≡ parsed t
range t h = ground arith

-- A header line with a date in the format of RFC 1123 is taken for the time that `timegm` gives for its
-- fields, if that time is not before 1970 and fits into 32 bits: for any name of the day of the week
-- without a space and of at most six bytes, a year of four digits from 100 on, and other fields of two.
pub handle_date_line-date_line :
    (name : Bytes) (day mon : ℕ) (month : Bytes) (year h m s t : ℕ)
    → All (λ c. c ≢ b' ') name
    → length name ≤ 6
    → get_elem? months mon ≡ some month
    → day < 100
    → 100 ≤ year
    → year < 10000
    → h < 100
    → m < 100
    → s < 100
    → timegm (pos year) mon (pos day) (pos h) (pos m) (pos s) ≡ pos t
    → t < 2 ^ 32
    → handle_date_line (date_line name day month year h m s) ≡ parsed t
unfolding handle_date_line strip_prefix
handle_date_line-date_line name day mon month year h m s t week short e hd hy hy2 hh hm hs et ht =
    let all = name ++ (codes ", " ++ date_text day month year h m s) in
    let three = All-get_elem? (λ w. length w ≡ 3) months mon month length-months e in
    let body = length-date_text day month year h m s three in
    let size : length all ≡ length name + 26 =
      omega (arith, body, length-append name (codes ", " ++ date_text day month year h m s)) in
    let fits : ltb 32 (length all) ≡ false = ground arith in
    let skipped =
      skip-week_day name (day / 10)
        ((b'0' + day % 10)
          ∷ (b' ' ∷ (month ++ (b' ' ∷ (printed (four year) ++ (b' ' ∷ clock_text h m s))))))
        week (omega arith) in
    let fields = scan_date-date_text day mon month year h m s e hd hy2 hh hm hs in
    let index = find_month-get_elem? months mon month refl e in
    rw (handle_date_line, fits, skipped, fields)
      (date_of-valid day mon month year h m s index hy ∙ ap as_u32 et ∙ range t ht)
