-- ===== src/ProxyBio/Socks.antt =====
-- src/proxy-bio.c: what a proxy was sent and has answered where `socks4a_connect` or `socks5_connect`
-- succeeds.
use tlsdate.Base.{
  ℕ, zero, suc, ◌+◌, ◌-◌, ◌≤◌, min, ◌≡◌, ◌≢◌, refl, ap, leb, leb→le, ==_iff, ◌==◌, Bool, true,
  false, [], ◌∷◌, ◌++◌, Bytes, length, length-append, arith, Bool-cases, inl, inr,
}
use mathlib.Core.List.{append-nil}
use tlsdate.Base.Int.{ℤ, pos_part, is_positive}
use tlsdate.Bio.Moves.{Moved-refl, Moved-trans, Holds, Holds-require, Holds-send, Holds-receive}
use tlsdate.Bio.{
  Bio, Moved, IsBio, Step, next, returned, require, require-next, short_result, zero_result,
}
use tlsdate.ProxyBio.{
  byte_at, socks4a_packet, socks5_hello, socks5_packet, socks5_ok, socks4a_connect, skip_loop,
  skip_address, socks5_connect,
}

-- What stands behind the type of an address in the answer of a SOCKS5 proxy, as far as it is read.
pub data IsTail : ℕ → Bytes → Type 0 where
  domain : (n : ℕ) (rest : Bytes) → length rest ≡ n + 2 → IsTail 3 (n ∷ rest)
  ipv4 : (rest : Bytes) → length rest ≡ 6 → IsTail 1 rest
  other : (type : ℕ) → type ≢ 3 → type ≢ 1 → IsTail type []

-- The whole answer of a SOCKS5 proxy that grants a request without authentication.
pub record IsGrant (inn : Bytes) : Type 0 where
  pub reserved : ℕ
  pub type : ℕ
  pub tail : Bytes
  pub whole : inn ≡ 5 ∷ 0 ∷ 5 ∷ 0 ∷ reserved ∷ type ∷ tail
  pub ends : IsTail type tail

-- What was read is two bytes that pass the test on version and status.
two_bytes : (auth : Bytes) → length auth ≡ 2 → socks5_ok auth ≡ true → auth ≡ 5 ∷ 0 ∷ []
two_bytes [] l h = absurd (omega arith)
two_bytes (a ∷ []) l h = absurd (omega arith)
two_bytes (a ∷ b ∷ []) l h = ground arith
two_bytes (a ∷ b ∷ c ∷ s) l h = absurd (omega arith)

four_bytes :
    (reply : Bytes)
    → length reply ≡ 4
    → socks5_ok reply ≡ true
    → (r : ℕ) × (reply ≡ 5 ∷ 0 ∷ r ∷ byte_at reply 3 ∷ [])
four_bytes [] l h = absurd (omega arith)
four_bytes (a ∷ []) l h = absurd (omega arith)
four_bytes (a ∷ b ∷ []) l h = absurd (omega arith)
four_bytes (a ∷ b ∷ c ∷ []) l h = absurd (omega arith)
four_bytes (a ∷ b ∷ c ∷ d ∷ []) l h = (c, ground arith)
four_bytes (a ∷ b ∷ c ∷ d ∷ e ∷ s) l h = absurd (omega arith)

one_byte : (s : Bytes) → length s ≡ 1 → s ≡ byte_at s 0 ∷ []
one_byte [] l = absurd (omega arith)
one_byte (a ∷ []) l = refl
one_byte (a ∷ b ∷ s) l = absurd (omega arith)

step_state : {S : Type 0} (s t : S) (a b : Unit {0}) → next a s ≡ next b t → t ≡ s
step_state s t a b h = cc

when-next :
    {S : Type 0} (b : Bool) (x : Step S (Unit {0})) (r : ℤ) (u : S) (a : Unit {0}) (t : S)
    → (elim b [ true ↦ x | false ↦ returned r u ]) ≡ next a t
    → (b ≡ true) × (x ≡ next a t)
when-next true x r u a t h = (refl, h)
when-next false x r u a t h = cc

module _ {S : Type 0} (bio : Bio S) where
  -- The proxy was sent the greeting and the request, and has granted it.
  abbrev pub Granted : Bytes → ℕ → S → Unit {0} → S → Type 0
  Granted host port s a t =
      (inn : Bytes) × Moved bio s (socks5_hello ++ socks5_packet host port) inn t
      × IsGrant inn
      × (length host ≤ 255)

  -- The reply of a SOCKS4a proxy that grants a request: eight bytes, the second of them 0x5a.
  abbrev pub Granted4 : Bytes → ℕ → S → Unit {0} → S → Type 0
  Granted4 host port s a t =
      (inn : Bytes) × Moved bio s (socks4a_packet host port) inn t
      × (length inn ≡ 8)
      × (byte_at inn 1 ≡ 90)

module _ {S : Type 0} (bio : Bio S) (laws : IsBio bio) where
  skip_loop-next :
      (fuel len : ℕ) (s : S) (a : Unit {0}) (t : S)
      → skip_loop bio fuel len s ≡ next a t
      → (inn : Bytes) × Moved bio s [] inn t × (length inn ≡ len)
  unfolding skip_loop
  skip_loop-next fuel zero s a t h =
      let same : t ≡ s = cc in ([], rw (same) (Moved-refl bio s), refl)
  skip_loop-next zero (suc len) s a t h = cc
  skip_loop-next (suc fuel) (suc len) s a t h =
      let r = bio.bio_read s (min (suc len) 1041) in
      let (b, k) = when-next (is_positive r.0.0) _ _ _ a t h in
      let (inn, m, l) = skip_loop-next fuel (suc len - min (suc len) (pos_part r.0.0)) r.1 a t k in
      let m0 = laws.read_moved s (min (suc len) 1041) in
      (
        r.0.1 ++ inn,
        Moved-trans bio s r.1 t [] r.0.1 [] inn m0 m,
        omega (
          arith,
          length-append r.0.1 inn,
          l,
          laws.read_length s (min (suc len) 1041),
          laws.read_le s (min (suc len) 1041),
        ),
      )

  -- The answer's tail is read, and no more.
  abbrev TailRead : S → ℕ → Unit {0} → S → Type 0
  TailRead s type a t = (inn : Bytes) × Moved bio s [] inn t × IsTail type inn

  domain_read :
      (s s2 t : S) (got inn : Bytes)
      → Moved bio s [] got s2
      → length got ≡ 1
      → Moved bio s2 [] inn t
      → length inn ≡ byte_at got 0 + 2
      → (all : Bytes) × Moved bio s [] all t × IsTail 3 all
  domain_read s s2 t [] inn m l m2 l2 = absurd (omega arith)
  domain_read s s2 t (n ∷ []) inn m l m2 l2 =
      (n ∷ inn, Moved-trans bio s s2 t [] (n ∷ []) [] inn m m2, domain n inn l2)
  domain_read s s2 t (n ∷ c ∷ got) inn m l m2 l2 = absurd (omega arith)

  domain_lem : (s : S) → Holds (TailRead s 3) (skip_address bio 3 s)
  unfolding skip_address
  domain_lem s = Holds-receive (TailRead s 3) bio laws zero_result 1 s _ (λ got s2 m l a t h.
      let (inn, m2, l2) = skip_loop-next (byte_at got 0 + 2) (byte_at got 0 + 2) s2 a t h in
      domain_read s s2 t got inn m l m2 l2)

  ipv4_lem : (s : S) → Holds (TailRead s 1) (skip_address bio 1 s)
  unfolding skip_address
  ipv4_lem s =
      Holds-receive (TailRead s 1) bio laws zero_result 6 s _
        (λ got s2 m l a t h. (got, rw (step_state s2 t tt a h) m, ipv4 got l))

  skip_address-next : (type : ℕ) (s : S) → Holds (TailRead s type) (skip_address bio type s)
  unfolding skip_address
  skip_address-next type s = elim (Bool-cases (type == 3)) [
    | inl e ↦ rw ((==_iff type 3).0 e) (domain_lem s)
    | inr e ↦ elim (Bool-cases (type == 1)) [
      | inl f ↦ rw ((==_iff type 1).0 f) (ipv4_lem s)
      | inr f ↦
          let none_read : Holds (TailRead s type) (next tt s) = λ a t h. (
            [],
            rw (step_state s t tt a h) (Moved-refl bio s),
            other type (ground arith) (ground arith),
          ) in
          rw (skip_address, e, f) none_read
    ]
  ]

  grant_bytes :
      (reply tail : Bytes) (r : ℕ)
      → reply ≡ 5 ∷ 0 ∷ r ∷ byte_at reply 3 ∷ []
      → 5 ∷ 0 ∷ (reply ++ tail) ≡ 5 ∷ 0 ∷ 5 ∷ 0 ∷ r ∷ byte_at reply 3 ∷ tail
  grant_bytes reply tail r e = ap (λ bytes. 5 ∷ 0 ∷ (bytes ++ tail)) e

  granted :
      (host : Bytes) (port : ℕ) (s s2 s3 s4 s5 t : S) (auth reply tail : Bytes)
      → length host ≤ 255
      → Moved bio s socks5_hello [] s2
      → Moved bio s2 [] auth s3
      → auth ≡ 5 ∷ 0 ∷ []
      → Moved bio s3 (socks5_packet host port) [] s4
      → Moved bio s4 [] reply s5
      → (r : ℕ) × (reply ≡ 5 ∷ 0 ∷ r ∷ byte_at reply 3 ∷ [])
      → Moved bio s5 [] tail t
      → IsTail (byte_at reply 3) tail
      → Granted bio host port s tt t
  granted host port s s2 s3 s4 s5 t auth reply tail short m2 m3 ok3 m4 m5 ok5 m6 ends =
      let sent_all = Moved-trans bio s s2 s3 socks5_hello [] [] auth m2 m3 in
      let answered =
        Moved-trans bio s3 s4 t (socks5_packet host port) [] [] (reply ++ tail) m4
          (Moved-trans bio s4 s5 t [] reply [] tail m5 m6) in
      let all = Moved-trans bio s s3 t socks5_hello auth _ (reply ++ tail) sent_all answered in
      let same = append-nil (socks5_packet host port) in
      (
        auth ++ (reply ++ tail),
        (rw (same) at all.0, all.1),
        (record {
          reserved = ok5.0;
          type = byte_at reply 3;
          tail = tail;
          whole = rw (ok3) (grant_bytes reply tail ok5.0 ok5.1);
          ends = ends;
        }),
        short,
      )

  pub socks5_connect-IsGrant :
      (host : Bytes) (port : ℕ) (s : S)
      → Holds (Granted bio host port s) (socks5_connect bio host port s)
  unfolding socks5_connect
  socks5_connect-IsGrant host port s =
      let P = Granted bio host port s in
      Holds-require P (leb (length host) 255) s _ (λ short.
        Holds-send P bio laws zero_result socks5_hello s _ (λ s2 m2.
          Holds-receive P bio laws zero_result 2 s2 _ (λ auth s3 m3 l3.
            Holds-require P (socks5_ok auth) s3 _ (λ ok3.
              Holds-send P bio laws short_result (socks5_packet host port) s3 _ (λ s4 m4.
                Holds-receive P bio laws short_result 4 s4 _ (λ reply s5 m5 l5.
                  Holds-require P (socks5_ok reply) s5 _ (λ ok5 a t h.
                    let (tail, m6, ends) = skip_address-next (byte_at reply 3) s5 a t h in
                    granted host port s s2 s3 s4 s5 t auth reply tail (leb→le _ _ short) m2 m3
                      (two_bytes auth l3 ok3) m4 m5 (four_bytes reply l5 ok5) m6 ends)))))))

  reply4 :
      (host : Bytes) (port : ℕ) (s s2 s3 : S) (reply : Bytes)
      → Moved bio s (socks4a_packet host port) [] s2
      → Moved bio s2 [] reply s3
      → length reply ≡ 8
      → Holds (Granted4 bio host port s) (require (byte_at reply 1 == 90) s3)
  reply4 host port s s2 s3 reply m2 m3 l a t h =
      let (ok, same) = require-next (byte_at reply 1 == 90) s3 a t h in
      let m = Moved-trans bio s s2 s3 (socks4a_packet host port) [] [] reply m2 m3 in
      let whole = append-nil (socks4a_packet host port) in
      (
        reply,
        (rw (same, m.0, whole) refl, rw (same, m.1) refl),
        l,
        (==_iff (byte_at reply 1) 90).0 ok,
      )

  pub socks4a_connect-Granted4 :
      (host : Bytes) (port : ℕ) (s : S)
      → Holds (Granted4 bio host port s) (socks4a_connect bio host port s)
  unfolding socks4a_connect
  socks4a_connect-Granted4 host port s =
      let P = Granted4 bio host port s in
      Holds-send P bio laws short_result (socks4a_packet host port) s _ (λ s2 m2.
        Holds-receive P bio laws short_result 8 s2 _
          (λ reply s3 m3 l3. reply4 host port s s2 s3 reply m2 m3 l3))
