-- ===== src/Cros/Pac.antt =====
-- src/platform-cros.c: `get_valid_hostport` and `canonicalize_pac`, which turn the browser's answer
-- into a proxy URL of the daemon's.
pub mod Bounds
pub mod Answers
pub mod Safety
use tlsdate.Base.{
  ℕ, zero, suc, ◌+◌, Bool, true, false, ◌&&◌, ◌||◌, List, [], ◌∷◌, ◌++◌, Option, none, some, ltb,
  leb, ◌==◌, if◌then◌else◌, length, Bytes, codes, str_eq, is_digit,
}

-- `isalnum` in the C locale.
abbrev pub is_alnum : ℕ → Bool
is_alnum c = (leb 65 c && leb c 90) || (leb 97 c && leb c 122) || is_digit c

abbrev pub is_host_part : ℕ → Bool
is_host_part c = is_alnum c || c == b'-' || c == b'.'

-- Whether the function returns true, and the string that it leaves in `out`.
abbrev pub Copied : Type 0
Copied = Bool × Bytes

abbrev pub put : ℕ → Copied → Copied
put c r = (r.0, c ∷ r.1)

-- The loop of `get_valid_hostport`, with what is left of `len`: still within the host?
unfoldable pub copy_hostport : ℕ → Bool → Bytes → Copied
copy_hostport len host [] = (true, [])
copy_hostport zero host (c ∷ s) = (true, [])
copy_hostport (suc len) true (c ∷ s) =
    let within = copy_hostport len true s in
    let behind = copy_hostport len false s in
    if is_host_part c then put c within else if c == b':' then put c behind else (false, [])
copy_hostport (suc len) false (c ∷ s) =
    let behind = copy_hostport len false s in if is_digit c then put c behind else (false, [])

-- `get_valid_hostport`. The first byte does not count against `len`.
unfoldable pub get_valid_hostport : Bytes → ℕ → Copied
unfolding copy_hostport
get_valid_hostport [] len = (false, [])
get_valid_hostport (c ∷ s) len =
    if is_alnum c then put c (copy_hostport len true s) else (false, [])

-- The bytes of `out` that `get_valid_hostport` writes: its string with the final NUL, since a byte
-- that it refuses is overwritten by that NUL.
abbrev pub written : Copied → ℕ
written r = length (r.1) + 1

-- The size of `hostport`.
abbrev pub hostport_size : ℕ
hostport_size = 6 + 255 + 2

-- `!strncmp (a, b, n)`.
unfoldable pub strncmp_eq : ℕ → Bytes → Bytes → Bool
strncmp_eq zero a b = true
strncmp_eq (suc n) [] [] = true
strncmp_eq (suc n) [] (y ∷ b) = false
strncmp_eq (suc n) (x ∷ a) [] = false
strncmp_eq (suc n) (x ∷ a) (y ∷ b) = x == y && strncmp_eq n a b

-- `strchr (s, ' ')`: its offset, and the string behind it.
unfoldable pub find_space : Bytes → Option (ℕ × Bytes)
find_space [] = none
find_space (c ∷ s) =
    let rest = find_space s in
    if c == b' ' then some (0, s) else elim rest [ none ↦ none | some (n, t) ↦ some (suc n, t) ]

-- The chain of tests on the type, for the first `type_len` bytes: the scheme that it prints.
unfoldable pub pac_scheme : Bytes → ℕ → Option Bytes
unfolding strncmp_eq
pac_scheme pac_fmt type_len =
    if strncmp_eq type_len pac_fmt (codes "PROXY")
    then some (codes "http://")
    else if strncmp_eq type_len pac_fmt (codes "SOCKS")
    then some (codes "socks4://")
    else if strncmp_eq type_len pac_fmt (codes "SOCKS5")
    then some (codes "socks5://")
    else if strncmp_eq type_len pac_fmt (codes "HTTPS")
    then some (codes "https://")
    else none

-- What `snprintf` prints is kept if it fits, and emptied if it was cut.
abbrev pub fitted : Bytes → ℕ → Bytes
fitted url len = if ltb (length url) len then url else []

abbrev pub printed : Option Bytes → Bytes → ℕ → Bytes
printed none hostport len = []
printed (some scheme) hostport len = fitted (scheme ++ hostport) len

-- `canonicalize_pac`: the string in `proxy_url`, of `len` bytes, of which there is at least one.
unfoldable pub canonicalize_pac : Bytes → ℕ → Bytes
unfolding find_space get_valid_hostport pac_scheme
canonicalize_pac pac_fmt len =
    if str_eq pac_fmt (codes "DIRECT") then [] else elim (find_space pac_fmt) [
      | none ↦ []
      | some (type_len, rest) ↦
          let (valid, hostport) = get_valid_hostport rest hostport_size in
          if valid then printed (pac_scheme pac_fmt type_len) hostport len else []
    ]
