-- ===== src/ProxyBio/Http.antt =====
-- src/proxy-bio.c: what a proxy was sent and has answered where `http_connect` succeeds, and that its
-- loop over the header ends.
use tlsdate.Base.{
  Bool, not, ◌&&◌, false, List, ℕ, zero, suc, ◌≤◌, ◌<◌, ◌≡◌, refl, ◌∙◌, ap, ◌==◌, ==_iff, true,
  false, [], ◌∷◌, ◌++◌, Option, none, some, Bytes, codes, str_eq, length, take, arith, Bool-cases,
  Option-cases, inl, inr,
}
use tlsdate.Base.Int.{pos, negsuc, ltb_ℤ, pos_part, is_positive, pos_part-pos}
use tlsdate.Bio.Moves.{Moved-trans, Holds, Holds-then_step, Holds-require, Holds-send}
use tlsdate.Bio.{Bio, Moved, IsBio, next, short_result}
use tlsdate.Scan.{Value, number, sscanf}
use tlsdate.ProxyBio.{
  status_format, byte_at, cons_byte, c_string, connect_line, host_line, is_success, sock_gets,
  get_line, header_loop, http_connect,
}

-- Bytes that end with their first newline.
abbrev pub IsLine : Bytes → Type 0
IsLine [] = ⊥
IsLine (c ∷ s) = elim (c == b'\n') [ true ↦ s ≡ [] | false ↦ IsLine s ]

-- The lines of a header, up to the empty one.
pub data IsHeader : Bytes → Type 0 where
  last_line : IsHeader (codes "\r\n")
  more_lines : (l rest : Bytes) → IsLine l → IsHeader rest → IsHeader (l ++ rest)

one_read : (s : Bytes) (n : ℕ) → length s ≡ n → n ≤ 1 → 0 < n → s ≡ byte_at s 0 ∷ []
one_read [] n l h k = absurd (omega arith)
one_read (a ∷ []) n l h k = refl
one_read (a ∷ b ∷ s) n l h k = absurd (omega arith)

-- Only the empty line compares equal to it.
empty_line : (l : Bytes) → IsLine l → str_eq (c_string l) (codes "\r\n") ≡ true → l ≡ codes "\r\n"
empty_line [] h e = cc
empty_line (c ∷ []) h e = ground arith
empty_line (c ∷ d ∷ s) h e = ground arith

-- The line has a code from 200 to 299 behind "HTTP/" and a word.
abbrev pub IsSuccess : Bytes → Type 0
IsSuccess line =
    (code : ℕ) × (sscanf status_format line ≡ number (pos code) ∷ []) × (200 ≤ code) × (code ≤ 299)

-- Is it one code from 200 to 299 that was scanned?
abbrev in_range : List Value → Bool
in_range (number code ∷ []) = not (ltb_ℤ code (pos 200)) && not (ltb_ℤ (pos 299) code)
in_range _ = false

scanned-in_range :
    (values : List Value)
    → in_range values ≡ true
    → (code : ℕ) × (values ≡ number (pos code) ∷ []) × (200 ≤ code) × (code ≤ 299)
scanned-in_range [] h = absurd cc
scanned-in_range (Value.text w ∷ []) h = absurd cc
scanned-in_range (Value.text w ∷ v ∷ values) h = absurd cc
scanned-in_range (number (pos code) ∷ []) h = (code, refl, ground arith, ground arith)
scanned-in_range (number (negsuc code) ∷ []) h = absurd (ground arith)
scanned-in_range (number code ∷ v ∷ values) h = absurd cc

is_success-IsSuccess : (line : Bytes) → is_success line ≡ true → IsSuccess line
unfolding is_success
is_success-IsSuccess line h = scanned-in_range (sscanf status_format line) h

-- The status line and the header of a proxy that opens the tunnel.
pub record IsReply (inn : Bytes) : Type 0 where
  pub status : Bytes
  pub header : Bytes
  pub whole : inn ≡ status ++ header
  pub one_line : IsLine status
  pub success : IsSuccess (c_string status)
  pub ends : IsHeader header

module _ {S : Type 0} (bio : Bio S) where
  -- The proxy was sent the request, and has opened the tunnel.
  abbrev pub Opened : Bytes → ℕ → S → Unit {0} → S → Type 0
  Opened host port s a t =
      (inn : Bytes) × Moved bio s
        (take 4095 (connect_line host port) ++ (take 4095 (host_line host port) ++ codes "\r\n"))
        inn t
      × IsReply inn

module _ {S : Type 0} (bio : Bio S) (laws : IsBio bio) where
  -- A byte that is read.
  byte_read :
      (s : S)
      → is_positive (bio.bio_read s 1).0.0 ≡ true
      → Moved bio s [] (byte_at (bio.bio_read s 1).0.1 0 ∷ []) (bio.bio_read s 1).1
  byte_read s h =
      let r = bio.bio_read s 1 in
      let one =
        one_read r.0.1 (pos_part r.0.0) (laws.read_length s 1) (laws.read_le s 1)
          (pos_part-pos r.0.0 h) in
      let m = laws.read_moved s 1 in (m.0, m.1 ∙ ap (◌++◌ (bio.received s)) one)

  -- What `sock_gets` gives is a line, and all that it has read.
  abbrev Got : ℕ → S → Option Bytes × S → Type 0
  Got room s got =
      (l : Bytes) → got.0 ≡ some l → Moved bio s [] l got.1 × IsLine l × (length l ≤ room)

  got_none : (room : ℕ) (s t : S) → Got room s (none, t)
  got_none room s t l h = cc

  got_end :
      (room : ℕ) (s : S)
      → Moved bio s [] (byte_at (bio.bio_read s 1).0.1 0 ∷ []) (bio.bio_read s 1).1
      → byte_at (bio.bio_read s 1).0.1 0 == b'\n' ≡ true
      → Got (suc room) s (some (b'\n' ∷ []), (bio.bio_read s 1).1)
  got_end room s m f l h =
      let c = (==_iff (byte_at (bio.bio_read s 1).0.1 0) b'\n').0 f in
      let whole : l ≡ b'\n' ∷ [] = cc in
      rw (whole) ((m.0, m.1 ∙ ap (λ b. bio.received s ++ (b ∷ [])) c), refl, omega arith)

  got_byte :
      (room : ℕ) (s : S) (c : ℕ) (t : S) (rest : Option Bytes × S)
      → Moved bio s [] (c ∷ []) t
      → c == b'\n' ≡ false
      → Got room t rest
      → Got (suc room) s (cons_byte c rest.0, rest.1)
  got_byte room s c t (none, u) m f got l h = cc
  got_byte room s c t (some line, u) m f got l h =
      let whole : l ≡ c ∷ line = cc in
      let (m2, is, short) = got line refl in
      rw (whole) (Moved-trans bio s t u [] (c ∷ []) [] line m m2, rw (IsLine, f) is, omega arith)

  sock_gets-Got : (room : ℕ) (s : S) → Got room s (sock_gets bio room s)
  unfolding sock_gets
  sock_gets-Got zero s = λ l h. cc
  sock_gets-Got (suc room) s =
      let r = bio.bio_read s 1 in
      let c = byte_at r.0.1 0 in
      elim (Bool-cases (is_positive r.0.0)) [
        | inr e ↦ rw (sock_gets, e) (got_none (suc room) s r.1)
        | inl e ↦ elim (Bool-cases (c == b'\n')) [
          | inl f ↦ rw (sock_gets, e, f) (got_end room s (byte_read s e) f)
          | inr f ↦
              rw (sock_gets, e, f)
                (got_byte room s c r.1 (sock_gets bio room r.1) (byte_read s e) f
                  (sock_gets-Got room r.1))
        ]
      ]

  abbrev pub LineRead : S → Bytes → S → Type 0
  LineRead s text t = (l : Bytes) × Moved bio s [] l t × IsLine l × (text ≡ c_string l)

  read_line :
      (s : S) (l : Bytes) (got : Option Bytes × S)
      → Got 4095 s got
      → got.0 ≡ some l
      → Holds (LineRead s) (next (c_string l) got.1)
  read_line s l got g e a t h =
      let (m, is, short) = g l e in
      let same : t ≡ got.1 = cc in
      let text : a ≡ c_string l = cc in (l, (rw (same) m.0, rw (same) m.1), is, text)

  pub get_line-LineRead : (s : S) → Holds (LineRead s) (get_line bio s)
  unfolding get_line
  get_line-LineRead s = elim (Option-cases (sock_gets bio 4095 s).0) [
    | inl e ↦ rw (get_line, e) (λ a t h. cc)
    | inr (l, e) ↦ rw (get_line, e) (read_line s l (sock_gets bio 4095 s) (sock_gets-Got 4095 s) e)
  ]

  abbrev HeaderRead : S → Unit {0} → S → Type 0
  HeaderRead s a t = (inn : Bytes) × Moved bio s [] inn t × IsHeader inn

  header_end :
      (s s2 : S) (l : Bytes)
      → Moved bio s [] l s2
      → l ≡ codes "\r\n"
      → Holds (HeaderRead s) (next tt s2)
  header_end s s2 l m e a t h =
      let same : t ≡ s2 = cc in (codes "\r\n", (rw (same) m.0, rw (same, m.1, e) refl), last_line)

  -- What is left to show of a header behind a line of it.
  after_line :
      (fuel : ℕ) (s s2 : S) (text : Bytes)
      → LineRead s text s2
      → Holds (HeaderRead s2) (header_loop bio fuel s2)
      → Holds (HeaderRead s) (elim (str_eq text (codes "\r\n")) [
        | true ↦ next tt s2
        | false ↦ header_loop bio fuel s2
      ])
  after_line fuel s s2 text (l, m, is, e) rest = elim (Bool-cases (str_eq text (codes "\r\n"))) [
    | inl f ↦ rw (f) (header_end s s2 l m (empty_line l is (rw (e) at f)))
    | inr f ↦ rw (f) (λ a t h.
        let (inn, m2, ends) = rest a t h in
        (l ++ inn, Moved-trans bio s s2 t [] l [] inn m m2, more_lines l inn is ends))
  ]

  header_loop-HeaderRead : (fuel : ℕ) (s : S) → Holds (HeaderRead s) (header_loop bio fuel s)
  unfolding header_loop
  header_loop-HeaderRead zero s = λ a t h. cc
  header_loop-HeaderRead (suc fuel) s =
      Holds-then_step (HeaderRead s) (get_line bio s) _ (λ text s2 e.
        after_line fuel s s2 text (get_line-LineRead s text s2 e) (header_loop-HeaderRead fuel s2))

  opened :
      (host : Bytes) (port : ℕ) (s s2 s3 s4 s5 t : S) (text : Bytes)
      → Moved bio s (take 4095 (connect_line host port)) [] s2
      → Moved bio s2 (take 4095 (host_line host port)) [] s3
      → Moved bio s3 (codes "\r\n") [] s4
      → LineRead s4 text s5
      → is_success text ≡ true
      → HeaderRead s5 tt t
      → Opened bio host port s tt t
  opened host port s s2 s3 s4 s5 t text m2 m3 m4 (status, m5, is, e) ok (header, m6, ends) =
      let first = take 4095 (connect_line host port) in
      let second = take 4095 (host_line host port) in
      let answer = Moved-trans bio s4 s5 t [] status [] header m5 m6 in
      let m = Moved-trans bio s s2 t first [] _ _ m2 (
        Moved-trans bio s2 s3 t second [] _ _ m3
          (Moved-trans bio s3 s4 t (codes "\r\n") [] [] (status ++ header) m4 answer)) in
      (
        status ++ header,
        m,
        record {
          status = status;
          header = header;
          whole = refl;
          one_line = is;
          success = rw (e) at (is_success-IsSuccess text ok);
          ends = ends;
        },
      )

  pub http_connect-Opened :
      (fuel : ℕ) (host : Bytes) (port : ℕ) (s : S)
      → Holds (Opened bio host port s) (http_connect bio fuel host port s)
  unfolding http_connect
  http_connect-Opened fuel host port s =
      let P = Opened bio host port s in
      let first = take 4095 (connect_line host port) in
      let second = take 4095 (host_line host port) in
      Holds-send P bio laws short_result first s _ (λ s2 m2.
        Holds-send P bio laws short_result second s2 _ (λ s3 m3.
          Holds-send P bio laws short_result (codes "\r\n") s3 _ (λ s4 m4.
            Holds-then_step P (get_line bio s4) _ (λ text s5 e.
              Holds-require P (is_success text) s5 _ (λ ok a t h.
                opened host port s s2 s3 s4 s5 t text m2 m3 m4 (get_line-LineRead s4 text s5 e) ok
                  (header_loop-HeaderRead fuel s5 a t h))))))
