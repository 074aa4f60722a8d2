-- ===== src/Options/Checks.antt =====
-- src/tlsdated.c, `main`: the options that the daemon starts with.
use tlsdate.Base.{
  refl, ◌∙◌, ℕ, ◌+◌, ◌<◌, ◌≡◌, ◌≢◌, Bool, true, false, List, [], ◌∷◌, ◌++◌, Option, none, some,
  ◌==◌, if◌then◌else◌, arith, length, Bytes, codes, Option-cases, inl, inr, leb, not,
}
use tlsdate.Base.Int.{pos, ltb_ℤ, is_zero, ◌<ℤ◌}
use tlsdate.Options.Config.{
  default_source, from_option, Loaded, ◌>>=◌, add_source_to_conf, check_conf, configure,
}
use tlsdate.Options.{parse_argv, set_conf_defaults, parse_options, parse_option, with_command}
use tlsdate.Types.{Source, Opts, Build}
use tlsdate.Options.Numbering.{
  Numbered, Settled, Settled-mono, add_source_to_conf-Numbered, load_conf-Numbered,
}

abbrev Kept : List Source → Option Opts → Type 0
Kept l none = Unit
Kept l (some o) = o.sources ≡ l

keep :
    (l : List Source) (b : Bool) (x y : Option Opts)
    → Kept l x
    → Kept l y
    → Kept l (if b then x else y)
keep l true x y h k = h
keep l false x y h k = k

parse_option-Kept :
    (o : Opts) (opt : ℕ) (optarg : Bytes) → Kept o.sources (parse_option o opt optarg)
unfolding parse_option
parse_option-Kept o opt optarg =
    let l = o.sources in
    keep l (opt == b'w') _ _ refl (
      keep l (opt == b'r') _ _ refl (
        keep l (opt == b'U') _ _ refl (
          keep l (opt == b'p') _ _ refl (
            keep l (opt == b't') _ _ refl (
              keep l (opt == b'd') _ _ refl (
                keep l (opt == b'T') _ _ refl (
                  keep l (opt == b'D') _ _ refl (
                    keep l (opt == b'c') _ _ refl (
                      keep l (opt == b'a') _ _ refl (
                        keep l (opt == b'l') _ _ refl (
                          keep l (opt == b's') _ _ refl (
                            keep l (opt == b'v') _ _ refl (
                              keep l (opt == b'b') _ _ refl (
                                keep l (opt == b'm') _ _ refl (
                                  keep l (opt == b'j') _ _ refl (
                                    keep l (opt == b'f') _ _ refl (
                                      keep l (opt == b'x') _ _ refl (
                                        keep l (opt == b'u') _ _ refl
                                          (keep l (opt == b'g') _ _ refl tt)))))))))))))))))))

parse_options-Kept :
    (l : List Source) (o : Opts) (given : List (ℕ × Bytes))
    → o.sources ≡ l
    → Kept l (parse_options o given)
unfolding parse_options
parse_options-Kept l o [] h = h
parse_options-Kept l o ((opt, optarg) ∷ given) h =
    let first = parse_option-Kept o opt optarg in
    elim (Option-cases (parse_option o opt optarg)) [
      | inl q ↦ rw (Kept, q) tt
      | inr (o', q) ↦
          let same : o'.sources ≡ o.sources = rw q at first in
          rw (Kept, q) (parse_options-Kept l o' given (same ∙ h))
    ]

with_command-sources : (o : Opts) (left : List Bytes) → (with_command o left).sources ≡ o.sources
unfolding with_command
with_command-sources o [] = refl
with_command-sources o (arg ∷ args) = refl

parse_argv-Kept :
    (o : Opts) (given : List (ℕ × Bytes)) (left : List Bytes)
    → Kept o.sources (parse_argv o given left)
unfolding parse_argv
parse_argv-Kept o given left =
    let first = parse_options-Kept o.sources o given refl in
    elim (Option-cases (parse_options o given)) [
      | inl q ↦ rw (Kept, q) tt
      | inr (o', q) ↦
          let same : o'.sources ≡ o.sources = rw q at first in
          rw (Kept, q) (with_command-sources o' left ∙ same)
    ]

-- What `check_conf` accepts.
pub record Checked (path_max : ℕ) (o : Opts) : Type 0 where
  pub tries : o.max_tries ≢ pos 0
  pub wait : o.wait_between_tries ≢ pos 0
  pub interval : o.steady_state_interval ≢ pos 0
  pub fits : length o.base_path + 10 < path_max
  pub jitter_less : o.jitter <ℤ o.steady_state_interval

-- A test that refuses leaves its converse to the rest.
refuse {ℓ} :
    {A : Type ℓ} (P : A → Type 0) (b : Bool) (m : Loaded A)
    → (b ≡ false → Settled P m)
    → Settled P (if b then Loaded.fatal else m)
refuse P true m h = tt
refuse P false m h = h refl

check_conf-Checked :
    (path_max : ℕ) (o : Opts)
    → Settled
        (λ path. Checked path_max o × (path ≡ o.base_path ++ codes "/timestamp"))
        (check_conf path_max o)
unfolding check_conf
check_conf-Checked path_max o =
    let P : Bytes → Type 0 =
      λ path. Checked path_max o × (path ≡ o.base_path ++ codes "/timestamp") in
    refuse P (is_zero o.max_tries) _ (λ a. refuse P (is_zero o.wait_between_tries) _ (λ b.
      refuse P (is_zero o.steady_state_interval) _ (λ c.
        refuse P (leb path_max (length o.base_path + 10)) _ (λ d.
          refuse P (not (ltb_ℤ o.jitter o.steady_state_interval))
            (Loaded.ok (o.base_path ++ codes "/timestamp"))
            (λ e. (
              record {
                tries = λ q. ground (arith, q, a);
                wait = λ q. ground (arith, q, b);
                interval = λ q. ground (arith, q, c);
                fits = ground arith;
                jitter_less = ground arith;
              },
              refl,
            ))))))

Settled-bind {ℓ κ} :
    {A : Type ℓ} {B : Type κ} (P : A → Type 0) (Q : B → Type 0) (m : Loaded A) (f : A → Loaded B)
    → Settled P m
    → ((a : A) → P a → Settled Q (f a))
    → Settled Q (m >>= f)
Settled-bind P Q (Loaded.ok a) f h k = k a h
Settled-bind P Q Loaded.fatal f h k = tt
Settled-bind P Q Loaded.unfinished f h k = h

argv_lem :
    (l : List Source) (m : Option Opts) → Kept l m → Settled (λ o. o.sources ≡ l) (from_option m)
argv_lem l none h = tt
argv_lem l (some o) h = h

-- What the start gives: numbered sources, accepted options, and the path in the base path.
pub record Configured (path_max : ℕ) (r : Opts × Bytes) : Type 0 where
  pub numbered : Numbered 0 (r.0.sources)
  pub some_source : r.0.sources ≢ []
  pub checked : Checked path_max (r.0)
  pub path : r.1 ≡ r.0.base_path ++ codes "/timestamp"

append_single_ne : (ss : List Source) (s : Source) → ss ++ s ∷ [] ≢ []
append_single_ne [] s e = cc
append_single_ne (r ∷ ss) s e = cc

default_source-Configured :
    (path_max : ℕ) (o : Opts) (path : Bytes) (ss : List Source)
    → o.sources ≡ ss
    → Numbered 0 ss
    → Checked path_max o
    → path ≡ o.base_path ++ codes "/timestamp"
    → Configured path_max (default_source o ss, path)
unfolding default_source add_source_to_conf
default_source-Configured path_max o path [] h n c p = record {
  numbered =
      add_source_to_conf-Numbered o (codes "google.com") (codes "443") (some (codes "none"))
        (rw h n);
  some_source = append_single_ne o.sources _;
  checked = record {
    tries = c.tries;
    wait = c.wait;
    interval = c.interval;
    fits = c.fits;
    jitter_less = c.jitter_less;
  };
  path = p;
}
default_source-Configured path_max o path (s ∷ ss) h n c p = record {
  numbered = rw h n;
  some_source = λ e. cc;
  checked = c;
  path = p;
}

module _ (b : Build) (path_max : ℕ) (given : List (ℕ × Bytes)) (left : List Bytes)
    (files : Opts → Option Bytes) where
  configure-Settled : Settled (Configured path_max) (configure b path_max given left files)
  unfolding configure set_conf_defaults
  configure-Settled =
      Settled-bind (λ o. o.sources ≡ []) (Configured path_max) _ _
        (argv_lem [] _ (parse_argv-Kept (set_conf_defaults b false false) given left))
        (λ o h.
          Settled-bind (λ path. Unit) (Configured path_max) _ _
            (Settled-mono _ (λ path. Unit) (check_conf path_max o) (λ path c. tt)
              (check_conf-Checked path_max o))
            (λ first u.
              Settled-bind (λ r. Numbered 0 r.sources) (Configured path_max) _ _
                (load_conf-Numbered o (files o) (rw h tt))
                (λ o' n.
                  Settled-bind
                    (λ path. Checked path_max o' × (path ≡ o'.base_path ++ codes "/timestamp"))
                    (Configured path_max) _ (λ path. Loaded.ok (default_source o' o'.sources, path))
                    (check_conf-Checked path_max o')
                    (λ path c.
                      default_source-Configured path_max o' path o'.sources refl n c.0 c.1))))

  -- The start of the daemon never runs out of entries to read: it gives options or exits.
  pub configure-finishes : configure b path_max given left files ≢ Loaded.unfinished
  configure-finishes h = rw h at configure-Settled

  -- Options that the start of the daemon gives pass the checks, name the file of the time stamp in
  -- the base path, and hold at least one source, numbered from 0 on, whatever the command line and the
  -- configuration file hold.
  pub configure-Configured :
      (o : Opts) (path : Bytes)
      → configure b path_max given left files ≡ Loaded.ok (o, path)
      → Configured path_max (o, path)
  configure-Configured o path h = rw h at configure-Settled
