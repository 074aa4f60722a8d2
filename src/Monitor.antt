-- ===== src/Monitor.antt =====
-- src/tlsdate-monitor.c: the command line of the tlsdate child. `tlsdate` forks first, and the child
-- calls `build_argv` on its own copy of the options: what it writes there the daemon never sees.
pub mod Rotation
use tlsdate.Base.{
  ℕ, ◌+◌, ◌≤◌, length-append, arith, Bool, true, false, not, List, [], ◌∷◌, ◌++◌, Option, none,
  some, ltb, leb, if◌then◌else◌, length, Bytes, codes, str_eq,
}
use tlsdate.Types.{Source, Opts}

-- The result of `build_argv`: the assertion fails, NULL, or the vector without its final NULL.
pub data Built : Type 0 where
  aborts : Built
  null : Built
  argv : List Bytes → Built

-- The next node: the list's first one after the last, or if there was none.
unfoldable pub next_source : List Source → List Source → List Source
next_source sources [] = sources
next_source sources (_ ∷ []) = sources
next_source sources (_ ∷ n ∷ rest) = n ∷ rest

-- `proxy`, where one is given at all.
chosen_proxy : Option Bytes → Option Bytes → Option Bytes
chosen_proxy (some p) _ = some p
chosen_proxy none q = q

proxy_args : Option Bytes → List Bytes
proxy_args none = []
proxy_args (some p) = if str_eq p (codes "") then [] else codes "-x" ∷ p ∷ []

-- The vector for a source.
unfoldable pub command : Opts → Source → List Bytes
unfolding chosen_proxy proxy_args
command o s =
    o.base_argv
    ++ (codes "-H"
        ∷ s.host
        ∷ codes "-p"
        ∷ s.port
        ∷ (proxy_args (chosen_proxy o.proxy s.proxy)
            ++ (codes "-Vraw" ∷ codes "-n" ∷ (if o.leap then codes "-l" ∷ [] else []))))

command_for : Opts → List Source → Built
command_for o [] = aborts
command_for o (s ∷ _) = if ltb 1024 (length o.base_argv) then null else argv (command o s)

-- `build_argv`: its result, and the options that it leaves. Memory is taken to suffice.
unfoldable pub build_argv : Opts → Built × Opts
unfolding command_for
build_argv o =
    let cur = next_source o.sources o.cur_source in
    (command_for o cur, record o { cur_source = cur })

-- What the child does after the fork: it becomes a command, or exits. The flag tells whether `dup2`
-- succeeds; `execve` that fails is an exit with 1, which is not told apart here.
pub data Child : Type 0 where
  execs : List Bytes → Child
  child_exits : ℕ → Child
  child_aborts : Child

pub child_of : Bool → Built → Child
child_of dup2_ok aborts = child_aborts
child_of dup2_ok null = child_exits 1
child_of true (argv v) = execs v
child_of false (argv v) = child_exits 2

-- The child's side of `tlsdate`.
unfoldable pub tlsdate_child : Bool → Opts → Child
unfolding child_of
tlsdate_child dup2_ok o = child_of dup2_ok (build_argv o).0

length-proxy_args : (p : Option Bytes) → length (proxy_args p) ≤ 2
unfolding proxy_args
length-proxy_args none = omega arith
length-proxy_args (some p) = ground arith

length-flag : (b : Bool) → length (if b then codes "-l" ∷ [] else []) ≤ 1
length-flag b = ground arith

-- The slots that `build_argv` allocates, ten more than the base arguments, suffice for the vector
-- and its final NULL.
pub command_fits : (o : Opts) (s : Source) → length (command o s) + 1 ≤ length o.base_argv + 10
unfolding command
command_fits o s = omega (
  arith,
  length-append o.base_argv (
      codes "-H"
      ∷ s.host
      ∷ codes "-p"
      ∷ s.port
      ∷ (proxy_args (chosen_proxy o.proxy s.proxy)
          ++ (codes "-Vraw" ∷ codes "-n" ∷ (if o.leap then codes "-l" ∷ [] else [])))),
  length-append (proxy_args (chosen_proxy o.proxy s.proxy))
      (codes "-Vraw" ∷ codes "-n" ∷ (if o.leap then codes "-l" ∷ [] else [])),
  length-proxy_args (chosen_proxy o.proxy s.proxy),
  length-flag o.leap,
)
