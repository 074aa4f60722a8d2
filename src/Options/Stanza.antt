-- ===== src/Options/Stanza.antt =====
-- src/tlsdated.c, `parse_source`: what a stanza of the configuration file adds.
use tlsdate.Base.{
  refl, ◌≡◌, true, false, ◌||◌, List, [], ◌∷◌, ◌++◌, Option, none, some, if◌then◌else◌, Bytes,
  codes, str_eq_iff, All, Bool-cases, Option-cases, inl, inr,
}
use tlsdate.Conf.{Entry}
use tlsdate.Options.Config.{
  Loaded, Stanza, next_id, named, add_source_to_conf, stanza_entry, source_loop, finish_source,
  parse_source,
}
use tlsdate.Types.{Opts}

-- An entry that a stanza may hold.
abbrev pub IsField : Entry → Type 0
IsField e =
    (named e (codes "end") ≡ false)
    × ((named e (codes "host") || named e (codes "port") || named e (codes "proxy")) ≡ true)

-- The value of the last entry with that key, or the one from before.
abbrev pub last_value : Bytes → Option Bytes → List Entry → Option Bytes
last_value key v [] = v
last_value key v (e ∷ es) = last_value key (if named e key then e.value else v) es

abbrev stanza_of : Stanza → List Entry → Stanza
stanza_of s body = record {
  host = last_value (codes "host") s.host body;
  port = last_value (codes "port") s.port body;
  proxy = last_value (codes "proxy") s.proxy body;
}

stanza_entry-IsField :
    (s : Stanza) (e : Entry) → IsField e → stanza_entry s e ≡ some (stanza_of s (e ∷ []))
unfolding stanza_entry
stanza_entry-IsField s e h = elim (Bool-cases (named e (codes "host"))) [
  | inl q ↦ rw ((str_eq_iff e.key (codes "host")).0 q) refl
  | inr q ↦ elim (Bool-cases (named e (codes "port"))) [
    | inl r ↦ rw ((str_eq_iff e.key (codes "port")).0 r) refl
    | inr r ↦ rw (q, r, rw (q, r) at (h.1)) refl
  ]
]

source_loop-fields :
    (s : Stanza) (body : List Entry) (e : Entry) (rest : List Entry)
    → All IsField body
    → named e (codes "end") ≡ true
    → source_loop s (body ++ e ∷ rest) ≡ Loaded.ok (stanza_of s body, e ∷ rest)
unfolding source_loop
source_loop-fields s [] e rest h k = rw (source_loop, k) refl
source_loop-fields s (x ∷ body) e rest h k =
    rw (source_loop, h.0.0, stanza_entry-IsField s x h.0)
      (source_loop-fields (stanza_of s (x ∷ [])) body e rest h.1 k)

-- A stanza of hosts, ports and proxies, up to its end, adds one source behind the others, with the
-- next id and the last host, the last port and the last proxy that the stanza names, if it names a
-- host and a port.
pub parse_source-stanza :
    (o : Opts) (body : List Entry) (e : Entry) (rest : List Entry) (host port : Bytes)
    → All IsField body
    → named e (codes "end") ≡ true
    → last_value (codes "host") none body ≡ some host
    → last_value (codes "port") none body ≡ some port
    → parse_source o (body ++ e ∷ rest)
      ≡ Loaded.ok (
        record o {
          sources =
              o.sources
              ++ (record {
                host = host;
                port = port;
                proxy = last_value (codes "proxy") none body;
                id = next_id o.sources;
              }
                  ∷ []);
        },
        e ∷ rest,
      )
unfolding parse_source finish_source add_source_to_conf
parse_source-stanza o body e rest host port h k p q =
    rw
      (
        parse_source,
        source_loop-fields (record { host = none; port = none; proxy = none }) body e rest h k,
        finish_source,
        p,
        q,
      )
      refl

unclosed :
    (s : Stanza) (es : List Entry)
    → All (λ e. named e (codes "end") ≡ false) es
    → source_loop s es ≡ Loaded.fatal
unfolding source_loop
unclosed s [] h = refl
unclosed s (e ∷ es) h = elim (Option-cases (stanza_entry s e)) [
  | inl q ↦ rw (source_loop, h.0, q) refl
  | inr (s', q) ↦ rw (source_loop, h.0, q) (unclosed s' es h.1)
]

-- A stanza that is not closed is fatal.
pub parse_source-unclosed :
    (o : Opts) (es : List Entry)
    → All (λ e. named e (codes "end") ≡ false) es
    → parse_source o es ≡ Loaded.fatal
unfolding parse_source
parse_source-unclosed o es h =
    rw (parse_source, unclosed (record { host = none; port = none; proxy = none }) es h) refl
