-- ===== src/Options/Config.antt =====
-- src/tlsdated.c: the configuration file and the check of the options. Memory is taken to suffice.
use tlsdate.Base.{
  ℕ, zero, suc, ◌+◌, Bool, true, false, not, ◌&&◌, List, [], ◌∷◌, ◌++◌, Option, none, some, leb,
  if◌then◌else◌, length, Bytes, codes, str_eq,
}
use tlsdate.Base.Int.{ℤ, pos, ltb_ℤ, is_zero}
use tlsdate.Conf.{Entry, conf_parse}
use tlsdate.Options.{atoi, set_conf_defaults, parse_argv}
use tlsdate.Types.{Source, Opts, Build}

-- What the loader gives: options, `fatal`, which exits with 1, or no answer for want of fuel.
pub data Loaded {ℓ} (A : Type ℓ) : Type ℓ where
  ok : A → Loaded A
  fatal : Loaded A
  unfinished : Loaded A

-- The `id` of a source behind the others.
abbrev pub next_id : List Source → ℕ
next_id [] = 0
next_id (s ∷ []) = s.id + 1
next_id (s ∷ r ∷ rest) = next_id (r ∷ rest)

-- `add_source_to_conf`.
unfoldable pub add_source_to_conf : Opts → Bytes → Bytes → Option Bytes → Opts
add_source_to_conf o host port proxy = record o {
  sources =
      o.sources
      ++ (record { host = host; port = port; proxy = proxy; id = next_id o.sources } ∷ []);
}

-- `!strcmp (e->key, name)`.
abbrev pub named : Entry → Bytes → Bool
named e name = str_eq e.key name

-- The locals of `parse_source`; `none` is NULL.
pub record Stanza : Type 0 where
  pub host : Option Bytes
  pub port : Option Bytes
  pub proxy : Option Bytes

-- What an entry of the stanza sets; `none` for another key.
unfoldable pub stanza_entry : Stanza → Entry → Option Stanza
stanza_entry s e =
    if named e (codes "host")
    then some (record s { host = e.value })
    else if named e (codes "port")
    then some (record s { port = e.value })
    else if named e (codes "proxy")
    then some (record s { proxy = e.value })
    else none

-- The loop of `parse_source`: what it found, and the entries from "end" on.
unfoldable pub source_loop : Stanza → List Entry → Loaded (Stanza × List Entry)
source_loop s [] = Loaded.fatal
source_loop s (e ∷ es) = elim (named e (codes "end")) [
  | true ↦ Loaded.ok (s, e ∷ es)
  | false ↦ elim (stanza_entry s e) [ none ↦ Loaded.fatal | some s' ↦ source_loop s' es ]
]

-- The end of `parse_source`: a stanza needs a host and a port.
unfoldable pub finish_source : Opts → Stanza → List Entry → Loaded (Opts × List Entry)
unfolding add_source_to_conf
finish_source o s left = elim s.host [
  | none ↦ Loaded.fatal
  | some host ↦ elim s.port [
    | none ↦ Loaded.fatal
    | some port ↦ Loaded.ok (add_source_to_conf o host port s.proxy, left)
  ]
]

-- `parse_source`, for the entries behind that of the key "source".
unfoldable pub parse_source : Opts → List Entry → Loaded (Opts × List Entry)
unfolding source_loop finish_source
parse_source o es = elim (source_loop (record { host = none; port = none; proxy = none }) es) [
  | Loaded.ok (s, left) ↦ finish_source o s left
  | Loaded.fatal ↦ Loaded.fatal
  | Loaded.unfinished ↦ Loaded.unfinished
]

abbrev pub has_value : Entry → Bool
has_value e = elim e.value [ none ↦ false | some v ↦ true ]

-- `atoi (e->value)`, for an entry with a value.
abbrev number : Entry → ℤ
number e = elim e.value [ none ↦ pos 0 | some v ↦ atoi v ]

abbrev text : Entry → Bytes
text e = elim e.value [ none ↦ [] | some v ↦ v ]

-- `e->value ? !strcmp (e->value, "yes") : 1`.
abbrev pub yes : Entry → Bool
yes e = elim e.value [ none ↦ true | some v ↦ str_eq v (codes "yes") ]

-- The branches of `load_conf` that set one option; other keys change nothing.
unfoldable pub setting : Opts → Entry → Opts
setting o e =
    if named e (codes "max-tries") && has_value e
    then record o { max_tries = number e }
    else if named e (codes "min-steady-state-interval") && has_value e
    then record o { min_steady_state_interval = number e }
    else if named e (codes "wait-between-tries") && has_value e
    then record o { wait_between_tries = number e }
    else if named e (codes "subprocess-tries") && has_value e
    then record o { subprocess_tries = number e }
    else if named e (codes "subprocess-wait-between-tries") && has_value e
    then record o { subprocess_wait_between_tries = number e }
    else if named e (codes "steady-state-interval") && has_value e
    then record o { steady_state_interval = number e }
    else if named e (codes "base-path") && has_value e
    then record o { base_path = text e }
    else if named e (codes "should-sync-hwclock")
    then record o { should_sync_hwclock = yes e }
    else if named e (codes "should-load-disk")
    then record o { should_load_disk = yes e }
    else if named e (codes "should-save-disk")
    then record o { should_save_disk = yes e }
    else if named e (codes "should-netlink")
    then record o { should_netlink = yes e }
    else if named e (codes "dry-run")
    then record o { dry_run = yes e }
    else if named e (codes "jitter") && has_value e
    then record o { jitter = number e }
    else if named e (codes "verbose")
    then record o { verbose = yes e }
    else if named e (codes "leap")
    then record o { leap = yes e }
    else o

-- `e->next`, after `parse_source`.
abbrev pub next_of : List Entry → List Entry
next_of [] = []
next_of (e ∷ es) = es

-- The loop of `load_conf`, with fuel. The keys differ, so that "source" may be asked for first.
unfoldable pub load_entries : ℕ → Opts → List Entry → Loaded Opts
unfolding setting parse_source
load_entries n o [] = Loaded.ok o
load_entries zero o (e ∷ es) = Loaded.unfinished
load_entries (suc n) o (e ∷ es) = elim (named e (codes "source")) [
  | false ↦ load_entries n (setting o e) es
  | true ↦ elim (parse_source o es) [
    | Loaded.ok (o', left) ↦ load_entries n o' (next_of left)
    | Loaded.fatal ↦ Loaded.fatal
    | Loaded.unfinished ↦ Loaded.unfinished
  ]
]

-- `load_conf`, for what the file is read as: `none` if it cannot be opened. An empty list of
-- entries is the NULL that `load_conf` takes for an error. A round takes at least one entry.
unfoldable pub load_conf : Opts → Option Bytes → Loaded Opts
load_conf o none = elim o.conf_file [ some path ↦ Loaded.fatal | none ↦ Loaded.ok o ]
load_conf o (some f) = elim (conf_parse f) [
  | none ↦ Loaded.fatal
  | some [] ↦ Loaded.fatal
  | some (e ∷ es) ↦ load_entries (length (e ∷ es)) o (e ∷ es)
]

-- `check_conf`, with `path_max` for PATH_MAX: the path of the time stamp, or `fatal`.
unfoldable pub check_conf : ℕ → Opts → Loaded Bytes
check_conf path_max o =
    if is_zero o.max_tries
    then Loaded.fatal
    else if is_zero o.wait_between_tries
    then Loaded.fatal
    else if is_zero o.steady_state_interval
    then Loaded.fatal
    else if leb path_max (length o.base_path + 10)
    then Loaded.fatal
    else if not (ltb_ℤ o.jitter o.steady_state_interval)
    then Loaded.fatal
    else Loaded.ok (o.base_path ++ codes "/timestamp")

-- A step of the start that does not exit.
infixl 5 ◌>>=◌
abbrev pub ◌>>=◌ {ℓ κ} : {A : Type ℓ} {B : Type κ} → Loaded A → (A → Loaded B) → Loaded B
Loaded.ok a >>= f = f a
Loaded.fatal >>= f = Loaded.fatal
Loaded.unfinished >>= f = Loaded.unfinished

abbrev pub from_option {ℓ} : {A : Type ℓ} → Option A → Loaded A
from_option none = Loaded.fatal
from_option (some a) = Loaded.ok a

-- `main` without a source: DEFAULT_HOST, DEFAULT_PORT and DEFAULT_PROXY.
unfoldable pub default_source : Opts → List Source → Opts
unfolding add_source_to_conf
default_source o [] = add_source_to_conf o (codes "google.com") (codes "443") (some (codes "none"))
default_source o (s ∷ rest) = o

-- The start of `main`: the options that it runs with, and the path of the time stamp. `given` and
-- `left` are what `getopt` makes of the command line, `files` opens and reads a file.
unfoldable pub configure :
    Build → ℕ → List (ℕ × Bytes) → List Bytes → (Opts → Option Bytes) → Loaded (Opts × Bytes)
unfolding set_conf_defaults parse_argv load_conf check_conf default_source
configure b path_max given left files = do
  o ← from_option (parse_argv (set_conf_defaults b false false) given left)
  first ← check_conf path_max o
  o' ← load_conf o (files o)
  path ← check_conf path_max o'
  Loaded.ok (default_source o' o'.sources, path)
