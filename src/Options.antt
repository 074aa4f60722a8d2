-- ===== src/Options.antt =====
-- src/tlsdated.c: the options of the daemon, from the defaults and the command line.
pub mod Config
pub mod Numbering
pub mod Checks
pub mod Stanza
use tlsdate.Base.{
  ℕ, zero, suc, ◌+◌, ◌-◌, ◌*◌, ◌^◌, Bool, true, false, List, [], ◌∷◌, Option, none, some, ◌==◌, ltb,
  if◌then◌else◌, Bytes, codes, is_space, is_digit,
}
use tlsdate.Base.Int.{ℤ, pos, negsuc, neg, to_u32, to_int}
use tlsdate.Types.{
  Opts, Build, default_max_tries, default_wait_between_tries, default_steady_state_interval,
  default_continuity_interval,
}

-- The number that the digits at the start of a string give, after those that `n` stands for.
abbrev pub digits : ℕ → Bytes → ℕ
digits n [] = n
digits n (c ∷ s) = let rest = digits (n * 10 + (c - b'0')) s in if is_digit c then rest else n

abbrev pub spaces : Bytes → Bytes
spaces [] = []
spaces (c ∷ s) = if is_space c then spaces s else c ∷ s

-- `strtol (s, NULL, 10)`, with a `long` of 64 bits, which stops at its least and its largest value.
abbrev pub signed : Bytes → ℤ
signed [] = pos 0
signed (c ∷ s) =
    if c == b'-'
    then neg (pos (let n = digits 0 s in if ltb n (2 ^ 63) then n else 2 ^ 63))
    else let n = digits 0 (if c == b'+' then s else c ∷ s) in
      pos (if ltb n (2 ^ 63) then n else 2 ^ 63 - 1)

-- `atoi`: the `long` made an `int`.
unfoldable pub atoi : Bytes → ℤ
atoi s = to_int (to_u32 (signed (spaces s)))

-- `set_conf_defaults`. `subprocess_tries` and `subprocess_wait_between_tries` get 10 as well.
unfoldable pub set_conf_defaults : Build → Bool → Bool → Opts
set_conf_defaults b verbose verbose_debug = record {
  user = b.unpriv_user;
  group = b.unpriv_group;
  max_tries = default_max_tries;
  min_steady_state_interval = default_steady_state_interval;
  wait_between_tries = default_wait_between_tries;
  subprocess_tries = pos 10;
  subprocess_wait_between_tries = pos 10;
  steady_state_interval = default_steady_state_interval;
  continuity_interval = default_continuity_interval;
  base_path = codes "/var/cache/tlsdated";
  base_argv = b.tlsdate_path ∷ codes "-H" ∷ codes "google.com" ∷ [];
  should_sync_hwclock = true;
  should_load_disk = true;
  should_save_disk = true;
  should_netlink = true;
  dry_run = false;
  jitter = pos 0;
  conf_file = none;
  sources = [];
  cur_source = [];
  proxy = none;
  leap = false;
  should_dbus = true;
  verbose = verbose;
  verbose_debug = verbose_debug;
}

-- One option that `getopt` gives, with `optarg`; `none`: the usage is printed, and `exit (1)`.
unfoldable pub parse_option : Opts → ℕ → Bytes → Option Opts
unfolding atoi
parse_option o opt optarg =
    if opt == b'w'
    then some (record o { should_sync_hwclock = false })
    else if opt == b'r'
    then some (record o { should_netlink = false })
    else if opt == b'U'
    then some (record o { should_dbus = false })
    else if opt == b'p'
    then some (record o { dry_run = true })
    else if opt == b't'
    then some (record o { max_tries = atoi optarg })
    else if opt == b'd'
    then some (record o { wait_between_tries = atoi optarg })
    else if opt == b'T'
    then some (record o { subprocess_tries = atoi optarg })
    else if opt == b'D'
    then some (record o { subprocess_wait_between_tries = atoi optarg })
    else if opt == b'c'
    then some (record o { base_path = optarg })
    else if opt == b'a'
    then some (record o { steady_state_interval = atoi optarg })
    else if opt == b'l'
    then some (record o { should_load_disk = false })
    else if opt == b's'
    then some (record o { should_save_disk = false })
    else if opt == b'v'
    then some (record o { verbose = true })
    else if opt == b'b'
    then some (record o { verbose_debug = true })
    else if opt == b'm'
    then some (record o { min_steady_state_interval = atoi optarg })
    else if opt == b'j'
    then some (record o { jitter = atoi optarg })
    else if opt == b'f'
    then some (record o { conf_file = some optarg })
    else if opt == b'x'
    then some (record o { proxy = some optarg })
    else if opt == b'u'
    then some (record o { user = optarg })
    else if opt == b'g'
    then some (record o { group = optarg })
    else none

unfoldable pub parse_options : Opts → List (ℕ × Bytes) → Option Opts
parse_options o [] = some o
parse_options o ((opt, optarg) ∷ given) = elim (parse_option o opt optarg) [
  | none ↦ none
  | some o' ↦ parse_options o' given
]

-- What is left of the command line is the command, if there is one.
unfoldable pub with_command : Opts → List Bytes → Opts
with_command o [] = o
with_command o (arg ∷ args) = record o { base_argv = arg ∷ args }

-- `parse_argv`, for the options that `getopt` gives and the arguments from `optind` on.
unfoldable pub parse_argv : Opts → List (ℕ × Bytes) → List Bytes → Option Opts
unfolding with_command
parse_argv o given left = elim (parse_options o given) [
  | none ↦ none
  | some o' ↦ some (with_command o' left)
]
