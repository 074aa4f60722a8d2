-- ===== src/Tls/Times.antt =====
-- src/tlsdate-helper.c: the time that `openssl_time_callback` lets through.
use tlsdate.Base.{
  ℕ, ◌+◌, ◌<◌, ◌≡◌, ◌⊎◌, inl, inr, refl, sym, ◌∙◌, Bool, true, false, ◌&&◌, List, [], ◌∷◌, ◌++◌,
  Option, none, some, Bytes, ltb, ltb→lt, arith, All, Bool-cases, Option-cases,
}
use tlsdate.Bio.{Bio, Step, next, returned, fault}
use tlsdate.Helper.Main.{Flags, max_reasonable_time}
use tlsdate.Tls.Openssl.{Info, openssl_time_callback, info_callbacks, Answers, run_ssl}
use tlsdate.Tls.Trust.{Yields, Trusted, Passed, run_ssl-Passed}

-- The callback looks at the time.
abbrev pub is_hello : Info → Bool
is_hello i = i.connect_loop && i.server_hello

-- The last call in which the callback looks at the time comes with this one.
pub record LastHello (infos : List Info) (time : ℕ) : Type 0 where
  pub before : List Info
  pub hello : Info
  pub after : List Info
  pub split : infos ≡ before ++ hello ∷ after
  pub looks : is_hello hello ≡ true
  pub its_time : hello.server_time ≡ time
  pub no_more_hellos : All (λ i. is_hello i ≡ false) after

info_callbacks-quiet :
    (recent : ℕ) (infos : List Info) (frozen : Option ℕ)
    → All (λ i. is_hello i ≡ false) infos
    → info_callbacks recent infos frozen ≡ some frozen
unfolding info_callbacks openssl_time_callback
info_callbacks-quiet recent [] frozen h = refl
info_callbacks-quiet recent (i ∷ rest) frozen h =
    rw (info_callbacks, openssl_time_callback, h.0) (info_callbacks-quiet recent rest frozen h.1)

-- In range, and frozen a day later.
abbrev pub InRange : ℕ → ℕ → Option ℕ → Type 0
InRange recent time frozen =
    (recent < time) × (time < max_reasonable_time) × (frozen ≡ some (time + 86400))

callback-InRange :
    (recent : ℕ) (i : Info) (start f : Option ℕ)
    → is_hello i ≡ true
    → openssl_time_callback recent i start ≡ some f
    → InRange recent i.server_time f
unfolding openssl_time_callback
callback-InRange recent i start f l e =
    elim (Bool-cases (ltb recent i.server_time && ltb i.server_time max_reasonable_time)) [
      | inr g ↦
          let no : ◌≡◌ {A = Option (Option ℕ)} none (some f) =
            rw (openssl_time_callback, l, g) at e in
          absurd (ground arith)
      | inl g ↦
          let yes : ◌≡◌ {A = Option (Option ℕ)} (some (some (i.server_time + 86400))) (some f) =
            rw (openssl_time_callback, l, g) at e in
          let lo : ltb recent i.server_time ≡ true = ground arith in
          let hi : ltb i.server_time max_reasonable_time ≡ true = ground arith in
          (ltb→lt _ _ lo, ltb→lt _ _ hi, sym cc)
    ]

pub info_callbacks-hello :
    (recent : ℕ) (before : List Info) (i : Info) (after : List Info) (start frozen : Option ℕ)
    → is_hello i ≡ true
    → All (λ i. is_hello i ≡ false) after
    → info_callbacks recent (before ++ i ∷ after) start ≡ some frozen
    → InRange recent i.server_time frozen
unfolding info_callbacks
info_callbacks-hello recent (b ∷ before) i after start frozen l q h =
    elim (Option-cases (openssl_time_callback recent b start)) [
      | inl e ↦ absurd (ground arith)
      | inr (next_frozen, e) ↦
          info_callbacks-hello recent before i after next_frozen frozen l q
            (rw (info_callbacks, e) at h)
    ]
info_callbacks-hello recent [] i after start frozen l q h =
    elim (Option-cases (openssl_time_callback recent i start)) [
      | inl e ↦ absurd (ground arith)
      | inr (f, e) ↦
          let last : ◌≡◌ {A = Option (Option ℕ)} (some f) (some frozen) =
            sym (info_callbacks-quiet recent after f q) ∙ (rw (info_callbacks, e) at h) in
          let same : f ≡ frozen = cc in rw same at (callback-InRange recent i start f l e)
    ]

module _ {S : Type 0} (bio : Bio S) (recent : ℕ) (user_agent : Bytes) (a : Answers)
    (flags : Flags) where
  -- The time of the hello, in range, and the certificate verified a day later.
  abbrev pub InTime : ℕ → Type 0
  InTime t =
      (t ≡ a.server_random)
      × (recent < t)
      × (t < max_reasonable_time)
      × ((flags.ca_racket ≡ false) ⊎ Trusted a flags.host (some (t + 86400)))

  in_time :
      (t : ℕ)
      → flags.leap ≡ true
      → flags.http ≡ false
      → LastHello a.infos a.server_random
      → Passed bio recent user_agent a flags t
      → InTime t
  in_time t l n h (frozen, f, from, trust, safe) =
      let same : t ≡ a.server_random = elim from [
        | inl e ↦ e.1
        | inr e ↦ let web = e.0 in absurd (ground arith)
      ] in
      let hello : InRange recent h.hello.server_time frozen =
        info_callbacks-hello recent h.before h.hello h.after none frozen h.looks h.no_more_hellos
          (rw (l, h.split) at f) in
      let t' : recent < t × (t < max_reasonable_time) × (frozen ≡ some (t + 86400)) =
        rw (h.its_time ∙ sym same) at hello in
      (same, t'.0, t'.1, rw t'.2 at trust)

  Yields-map : {P Q : ℕ → Type 0} (m : Step S ℕ) → ((t : ℕ) → P t → Q t) → Yields P m → Yields Q m
  Yields-map (next t s) f h = f t h
  Yields-map (returned r s) f h = tt
  Yields-map (fault why) f h = tt

  -- With `leapaway`, without HTTP, and where the library calls the callback with the time that it read:
  -- a time that `run_ssl` leaves is the server's, lies strictly between the build and the last reasonable
  -- time, and a certificate that is verified is verified a day after it.
  pub run_ssl-InTime :
      (s : S)
      → flags.leap ≡ true
      → flags.http ≡ false
      → LastHello a.infos a.server_random
      → Yields InTime (run_ssl bio recent user_agent a flags s)
  run_ssl-InTime s l n h =
      Yields-map (run_ssl bio recent user_agent a flags s) (λ t p. in_time t l n h p)
        (run_ssl-Passed bio recent user_agent a flags s)
