-- ===== src/Conf.antt =====
-- src/conf.c: the lines `key value` of the configuration file. The file is a list of bytes; memory is
-- taken to suffice, so `conf_parse` never takes its `fail` path.
pub mod Lines
pub mod RoundTrip
use tlsdate.Base.{
  ℕ, zero, suc, ◌-◌, Bool, true, false, ◌||◌, List, [], ◌∷◌, Option, none, some, ◌==◌,
  if◌then◌else◌, length, Bytes, is_space,
}

-- `struct conf_entry`; the `next` pointer is the list's.
pub record Entry : Type 0 where
  pub key : Bytes
  pub value : Option Bytes

-- The bytes before the first one that passes the test, and those behind it.
abbrev pub before : (ℕ → Bool) → Bytes → Bytes
before p [] = []
before p (c ∷ s) = if p c then [] else c ∷ before p s

abbrev pub behind : (ℕ → Bool) → Bytes → Bytes
behind p [] = []
behind p (c ∷ s) = if p c then s else behind p s

-- The string without the bytes at its start that pass the test.
abbrev pub skip : (ℕ → Bool) → Bytes → Bytes
skip p [] = []
skip p (c ∷ s) = if p c then skip p s else c ∷ s

-- The delimiters " \t".
abbrev pub is_blank : ℕ → Bool
is_blank c = c == b' ' || c == b'\t'

-- The C string in a buffer.
abbrev pub c_string : Bytes → Bytes
c_string = before (λ c. c == 0)

abbrev cons_first : ℕ → Bytes × Bytes → Bytes × Bytes
cons_first c (line, rest) = (c ∷ line, rest)

-- At most n bytes, up to a newline and with it, and what is left.
unfoldable pub take_line : ℕ → Bytes → Bytes × Bytes
take_line zero s = ([], s)
take_line (suc n) [] = ([], [])
take_line (suc n) (c ∷ s) = if c == b'\n' then (c ∷ [], s) else cons_first c (take_line n s)

-- CONF_MAX_LINE.
abbrev pub conf_max_line : ℕ
conf_max_line = 16384

-- `fgets (buf, sizeof (buf), f)`: `none` at the end of the file.
unfoldable pub fgets : Bytes → Option (Bytes × Bytes)
fgets [] = none
fgets (c ∷ s) = some (take_line (conf_max_line - 1) (c ∷ s))

-- `strip_newlines`.
unfoldable pub strip_newlines : Bytes → Bytes
strip_newlines line = before (λ c. c == b'\r') (before (λ c. c == b'\n') line)

-- `eat_whitespace`.
unfoldable pub eat_whitespace : Bytes → Bytes
eat_whitespace = skip is_space

-- `is_ignored_line`.
unfoldable pub is_ignored_line : Bytes → Bool
is_ignored_line [] = true
is_ignored_line (c ∷ s) = c == b'#'

-- `strtok (NULL, "")` and `eat_whitespace` of it, for what the first call left.
unfoldable pub value_of : Bytes → Option Bytes
unfolding eat_whitespace
value_of [] = none
value_of (c ∷ s) = some (eat_whitespace (c ∷ s))

-- `strtok (start, " \t")`, and the entry.
unfoldable pub entry_of : Bytes → Entry
unfolding value_of
entry_of start =
    let token = skip is_blank start in
    record { key = before is_blank token; value = value_of (behind is_blank token) }

-- The body of the loop, for the string in `buf`: `none` where it continues.
unfoldable pub parse_line : Bytes → Option Entry
unfolding strip_newlines eat_whitespace is_ignored_line entry_of
parse_line buf =
    let start = eat_whitespace (strip_newlines (c_string buf)) in
    if is_ignored_line start then none else some (entry_of start)

unfoldable pub add_entry : Option Entry → Option (List Entry) → Option (List Entry)
add_entry e none = none
add_entry none (some es) = some es
add_entry (some e) (some es) = some (e ∷ es)

-- The loop, with fuel.
unfoldable pub conf_loop : ℕ → Bytes → Option (List Entry)
conf_loop zero f = none
conf_loop (suc n) f = elim (fgets f) [
  | none ↦ some []
  | some (buf, rest) ↦ add_entry (parse_line buf) (conf_loop n rest)
]

-- `conf_parse`. A round reads at least one byte.
unfoldable pub conf_parse : Bytes → Option (List Entry)
conf_parse f = conf_loop (suc (length f)) f
