-- ===== src/Helper/Dates.antt =====
-- src/tlsdate-helper.c: `handle_date_line` and `read_http_date_from_bio`.
use tlsdate.Base.{
  ℕ, zero, suc, ◌-◌, ◌^◌, ltb, true, false, ◌||◌, [], ◌++◌, Option, none, some, if◌then◌else◌,
  Bytes, codes, length,
}
use tlsdate.Base.Int.{ℤ, pos, negsuc, pos_part, ◌+ℤ◌, ltb_ℤ, is_positive}
use tlsdate.Bio.{Bio, Step, next, returned, fault, out_of_fuel}
use tlsdate.Helper.Calendar.{timegm}
use tlsdate.Helper.{
  Parsed, not_date, failed, parsed, months, find_month, skip_spaces, skip_name, Fields, scan_date,
}
use tlsdate.Proxy.{strip_prefix, split_at}
use tlsdate.ProxyBio.{c_string}

-- `MAX_DATE_LINE_LEN` and `MAX_HTTP_HEADERS_SIZE`.
abbrev pub max_date_line_len : ℕ
max_date_line_len = 32

abbrev pub max_http_headers_size : ℕ
max_http_headers_size = 8192

abbrev pub full_year : ℤ → ℤ
full_year year = if ltb_ℤ year (pos 100) then year +ℤ pos 1900 else year

-- The range of `*result`: a time before 1970, or of more than 32 bits, is refused.
abbrev pub as_u32 : ℤ → Parsed
as_u32 t =
    if ltb_ℤ (pos (2 ^ 32 - 1)) t || ltb_ℤ t (pos 0) then failed (negsuc 0) else parsed (pos_part t)

-- What is done with the fields.
unfoldable pub date_of : Fields → Parsed
date_of f = elim (find_month months f.month) [
  | none ↦ failed (negsuc 1)
  | some month ↦ as_u32 (timegm (full_year f.year) month f.day f.hour f.minute f.second)
]

-- `handle_date_line`.
unfoldable pub handle_date_line : Bytes → Parsed
handle_date_line line = elim (strip_prefix (codes "\r\nDate: ") line) [
  | none ↦ not_date
  | some rest ↦ elim (ltb max_date_line_len (length rest)) [
    | true ↦ failed (negsuc 0)
    | false ↦ elim (scan_date (skip_spaces (skip_name (skip_spaces rest)))) [
      | none ↦ failed (negsuc 0)
      | some fields ↦ date_of fields
    ]
  ]
]

-- The two calls of memmem on what was read: the line from "\r\nDate: " up to the next "\r\n", as a C
-- string.
unfoldable pub find_date_line : Bytes → Option Bytes
find_date_line buf = elim (split_at (codes "\r\nDate: ") buf) [
  | none ↦ none
  | some (front, rest) ↦ elim (split_at (codes "\r\n") (codes "Date: " ++ rest)) [
    | none ↦ none
    | some (line, more) ↦ some (c_string (codes "\r\n" ++ line))
  ]
]

module _ {S : Type 0} (bio : Bio S) where
  -- The loop of `read_http_date_from_bio`, with what was read so far; every round reads a byte at least,
  -- so that a round for every byte of the buffer is enough. `returned` has the results 0 and -2.
  unfoldable pub date_loop : ℕ → Bytes → S → Step S Parsed
  date_loop zero buf s = fault out_of_fuel
  date_loop (suc fuel) buf s = elim (ltb (length buf) (max_http_headers_size - 1)) [
    | false ↦ returned (negsuc 1) s
    | true ↦
        let r = bio.bio_read s (max_http_headers_size - length buf - 1) in
        elim (is_positive r.0.0) [
          | false ↦ returned (pos 0) r.1
          | true ↦ elim (find_date_line (buf ++ r.0.1)) [
            | some line ↦ next (handle_date_line line) r.1
            | none ↦ date_loop fuel (buf ++ r.0.1) r.1
          ]
        ]
  ]

  abbrev pub read_http_date_from_bio : S → Step S Parsed
  read_http_date_from_bio = date_loop max_http_headers_size []
