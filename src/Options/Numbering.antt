-- ===== src/Options/Numbering.antt =====
-- src/tlsdated.c, `load_conf`: the numbers of the sources.
use tlsdate.Base.{
  refl, ℕ, zero, suc, ◌+◌, ◌≤◌, ◌≡◌, Bool, true, false, ◌&&◌, List, [], ◌∷◌, ◌++◌, Option, none,
  some, if◌then◌else◌, arith, length, Bytes, codes, Bool-cases, Option-cases, ◌⊎◌, inl, inr,
}
use tlsdate.Conf.{Entry}
use tlsdate.Conf.Lines.{conf_parse-WellFormed}
use tlsdate.Options.Config.{
  has_value, Loaded, Stanza, next_id, named, add_source_to_conf, stanza_entry, source_loop,
  finish_source, parse_source, setting, next_of, load_entries, load_conf,
}
use tlsdate.Types.{Source, Opts}

-- The ids count up from i.
abbrev pub Numbered : ℕ → List Source → Type 0
Numbered i [] = Unit
Numbered i (s ∷ ss) = (s.id ≡ i) × Numbered (suc i) ss

-- The loader ends, and options that it gives satisfy P.
abbrev pub Settled {ℓ} : {A : Type ℓ} → (A → Type 0) → Loaded A → Type 0
Settled P (Loaded.ok a) = P a
Settled P Loaded.fatal = Unit
Settled P Loaded.unfinished = ⊥

Loaded-cases {ℓ} :
    {A : Type ℓ} (m : Loaded A)
    → ((a : A) × (m ≡ Loaded.ok a)) ⊎ ((m ≡ Loaded.fatal) ⊎ (m ≡ Loaded.unfinished))
Loaded-cases (Loaded.ok a) = inl (a, refl)
Loaded-cases Loaded.fatal = inr (inl refl)
Loaded-cases Loaded.unfinished = inr (inr refl)

next_id-Numbered :
    (i : ℕ) (s : Source) (ss : List Source)
    → Numbered i (s ∷ ss)
    → next_id (s ∷ ss) ≡ i + suc (length ss)
next_id-Numbered i s [] h = omega (arith, h.0)
next_id-Numbered i s (r ∷ ss) h = omega (arith, next_id-Numbered (suc i) r ss h.1)

Numbered-append :
    (i : ℕ) (ss : List Source) (x : Source)
    → Numbered i ss
    → x.id ≡ i + length ss
    → Numbered i (ss ++ x ∷ [])
Numbered-append i [] x h k = (omega (arith, k), tt)
Numbered-append i (s ∷ ss) x h k = (h.0, Numbered-append (suc i) ss x h.1 (omega (arith, k)))

next_id_lem : (ss : List Source) → Numbered 0 ss → next_id ss ≡ length ss
next_id_lem [] h = refl
next_id_lem (s ∷ ss) h = omega (arith, next_id-Numbered 0 s ss h)

pub add_source_to_conf-Numbered :
    (o : Opts) (host port : Bytes) (proxy : Option Bytes)
    → Numbered 0 o.sources
    → Numbered 0 (add_source_to_conf o host port proxy).sources
unfolding add_source_to_conf
add_source_to_conf-Numbered o host port proxy h =
    Numbered-append 0 o.sources
      (record { host = host; port = port; proxy = proxy; id = next_id o.sources }) h
      (omega (arith, next_id_lem o.sources h))

pub Settled-mono {ℓ} :
    {A : Type ℓ} (P Q : A → Type 0) (m : Loaded A)
    → ((a : A) → P a → Q a)
    → Settled P m
    → Settled Q m
Settled-mono P Q (Loaded.ok a) h k = h a k
Settled-mono P Q Loaded.fatal h k = tt
Settled-mono P Q Loaded.unfinished h k = k

source_loop-shorter :
    (s : Stanza) (es : List Entry) → Settled (λ r. length (r.1) ≤ length es) (source_loop s es)
unfolding source_loop
source_loop-shorter s [] = tt
source_loop-shorter s (e ∷ es) = elim (Bool-cases (named e (codes "end"))) [
  | inl q ↦ rw (Settled, q) (omega arith)
  | inr q ↦ elim (Option-cases (stanza_entry s e)) [
    | inl r ↦ rw (Settled, q, r) tt
    | inr (s', r) ↦
        rw (Settled, q, r)
          (Settled-mono (λ r. length (r.1) ≤ length es) (λ r. length (r.1) ≤ suc (length es))
            (source_loop s' es) (λ r h. omega (arith, h)) (source_loop-shorter s' es))
  ]
]

finish_source-Numbered :
    (o : Opts) (s : Stanza) (left : List Entry)
    → Numbered 0 o.sources
    → Settled (λ r. Numbered 0 (r.0.sources) × (r.1 ≡ left)) (finish_source o s left)
unfolding finish_source
finish_source-Numbered o s left h = elim (Option-cases s.host) [
  | inl q ↦ rw (Settled, q) tt
  | inr (host, q) ↦ elim (Option-cases s.port) [
    | inl r ↦ rw (Settled, q, r) tt
    | inr (port, r) ↦ rw (Settled, q, r) (add_source_to_conf-Numbered o host port s.proxy h, refl)
  ]
]

parse_source-Numbered :
    (o : Opts) (es : List Entry)
    → Numbered 0 o.sources
    → Settled (λ r. Numbered 0 (r.0.sources) × (length (r.1) ≤ length es)) (parse_source o es)
unfolding parse_source
parse_source-Numbered o es h =
    let s : Stanza = record { host = none; port = none; proxy = none } in
    let short = source_loop-shorter s es in
    elim (Loaded-cases (source_loop s es)) [
      | inl ((s', left), q) ↦
          rw (Settled, q)
            (Settled-mono (λ r. Numbered 0 (r.0.sources) × (r.1 ≡ left))
              (λ r. Numbered 0 (r.0.sources) × (length (r.1) ≤ length es)) (finish_source o s' left)
              (λ r k. (k.0, rw k.1 (rw q at short))) (finish_source-Numbered o s' left h))
      | inr (inl q) ↦ rw (Settled, q) tt
      | inr (inr q) ↦ absurd (rw q at short)
    ]

module _ (l : List Source) where
  -- Both branches of a conditional have the same sources.
  both : (b : Bool) (x y : Opts) → x.sources ≡ l → y.sources ≡ l → (if b then x else y).sources ≡ l
  both true x y h k = h
  both false x y h k = k

setting-sources : (o : Opts) (e : Entry) → (setting o e).sources ≡ o.sources
unfolding setting
setting-sources o e =
    let l = o.sources in
    both l (named e (codes "max-tries") && has_value e) _ _ refl (
      both l (named e (codes "min-steady-state-interval") && has_value e) _ _ refl (
        both l (named e (codes "wait-between-tries") && has_value e) _ _ refl (
          both l (named e (codes "subprocess-tries") && has_value e) _ _ refl (
            both l (named e (codes "subprocess-wait-between-tries") && has_value e) _ _ refl (
              both l (named e (codes "steady-state-interval") && has_value e) _ _ refl (
                both l (named e (codes "base-path") && has_value e) _ _ refl (
                  both l (named e (codes "should-sync-hwclock")) _ _ refl (
                    both l (named e (codes "should-load-disk")) _ _ refl (
                      both l (named e (codes "should-save-disk")) _ _ refl (
                        both l (named e (codes "should-netlink")) _ _ refl (
                          both l (named e (codes "dry-run")) _ _ refl (
                            both l (named e (codes "jitter") && has_value e) _ _ refl (
                              both l (named e (codes "verbose")) _ _ refl
                                (both l (named e (codes "leap")) _ _ refl refl))))))))))))))

next_of-le : (es : List Entry) → length (next_of es) ≤ length es
next_of-le [] = omega arith
next_of-le (e ∷ es) = omega arith

load_entries-Numbered :
    (n : ℕ) (o : Opts) (es : List Entry)
    → length es ≤ n
    → Numbered 0 o.sources
    → Settled (λ r. Numbered 0 r.sources) (load_entries n o es)
unfolding load_entries
load_entries-Numbered n o [] h k = k
load_entries-Numbered zero o (e ∷ es) h k = absurd (omega (arith, h))
load_entries-Numbered (suc n) o (e ∷ es) h k = elim (Bool-cases (named e (codes "source"))) [
  | inr q ↦
      rw (Settled, q)
        (load_entries-Numbered n (setting o e) es (omega (arith, h)) (rw (setting-sources o e) k))
  | inl q ↦
      let found = parse_source-Numbered o es k in
      elim (Loaded-cases (parse_source o es)) [
        | inl ((o', left), r) ↦
            let read : Numbered 0 o'.sources × (length left ≤ length es) = rw r at found in
            rw (Settled, q, r)
              (load_entries-Numbered n o' (next_of left) (omega (arith, h, read.1, next_of-le left))
                read.0)
        | inr (inl r) ↦ rw (Settled, q, r) tt
        | inr (inr r) ↦ absurd (rw r at found)
      ]
]

pub load_conf-Numbered :
    (o : Opts) (f : Option Bytes)
    → Numbered 0 o.sources
    → Settled (λ r. Numbered 0 r.sources) (load_conf o f)
unfolding load_conf
load_conf-Numbered o none h = elim (Option-cases o.conf_file) [
  | inl q ↦ rw (Settled, q) h
  | inr (path, q) ↦ rw (Settled, q) tt
]
load_conf-Numbered o (some f) h =
    let (es, q, w) = conf_parse-WellFormed f in rw (Settled, q) (read o es h)
  where
    read :
        (o : Opts) (es : List Entry)
        → Numbered 0 o.sources
        → Settled
            (λ r. Numbered 0 r.sources)
            (elim es [
              | [] ↦ Loaded.fatal
              | e ∷ rest ↦ load_entries (length (e ∷ rest)) o (e ∷ rest)
            ])
    read o [] h = tt
    read o (e ∷ rest) h = load_entries-Numbered (length (e ∷ rest)) o (e ∷ rest) (omega arith) h
