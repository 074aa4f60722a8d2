-- ===== src/Helper/Elapsed.antt =====
-- src/tlsdate-helper.c: the milliseconds of the round trip against the microseconds of its two samples.
use tlsdate.Base.{ℕ, ◌+◌, ◌-◌, ◌*◌, ◌/◌, ◌<◌, ◌≡◌, ◌⊎◌, ap, ◌∙◌, arith}
use tlsdate.Base.Int.{pos_part, neg_part, sub_ℕ, ◌+ℤ◌, ◌-ℤ◌}
use tlsdate.Helper.Calendar.{times}
use tlsdate.Helper.Main.{Time, div_int, rt_time_ms}

-- The microseconds of `a`, on a scale on which neither second is negative: those of `b` on the same
-- scale are `micros b a`.
abbrev pub micros : Time → Time → ℕ
micros a b = (pos_part a.sec + neg_part b.sec) * 1000000 + a.nsec / 1000

-- From `start` to `last` it took `rtt` milliseconds, to within one; 0 also stands for a clock that went
-- back.
abbrev pub Took : Time → Time → ℕ → Type 0
Took start last rtt =
    ((rtt ≡ 0) ⊎ (rtt * 1000 + micros start last < micros last start + 1000))
    × (micros last start < rtt * 1000 + micros start last + 1000)

abbrev Close : ℕ → ℕ → ℕ → ℕ → ℕ → Type 0
Close r p q m n =
    ((r ≡ 0) ⊎ (r * 1000 + (p * 1000000 + m) < q * 1000000 + n + 1000))
    × (q * 1000000 + n < r * 1000 + (p * 1000000 + m) + 1000)

div_sub : (m n : ℕ) → div_int (sub_ℕ n m) 1000 ≡ sub_ℕ ((n - m) / 1000) ((m - n) / 1000)
div_sub m n = ground arith

times_sub : (p q : ℕ) → times 1000 (sub_ℕ q p) ≡ sub_ℕ (q * 1000) (p * 1000)
times_sub p q = ground arith

add_sub : (a b c d : ℕ) → pos_part (sub_ℕ a b +ℤ sub_ℕ c d) ≡ (a + c) - (b + d)
unfolding ◌+ℤ◌
add_sub a b c d = ground arith

close : (p q m n : ℕ) → Close ((q * 1000 + (n - m) / 1000) - (p * 1000 + (m - n) / 1000)) p q m n
close p q m n = ground arith

value :
    (start last : Time)
    → rt_time_ms start last ≡ (
        (pos_part last.sec + neg_part start.sec) * 1000
        + (last.nsec / 1000 - start.nsec / 1000) / 1000
        - ((pos_part start.sec + neg_part last.sec) * 1000
            + (start.nsec / 1000 - last.nsec / 1000) / 1000))
unfolding rt_time_ms ◌-ℤ◌
value start last =
    let p = neg_part last.sec + pos_part start.sec in
    let q = pos_part last.sec + neg_part start.sec in
    let m = start.nsec / 1000 in
    let n = last.nsec / 1000 in
    rw (rt_time_ms, times_sub p q, div_sub m n)
      (add_sub (q * 1000) (p * 1000) ((n - m) / 1000) ((m - n) / 1000)
        ∙ ap (λ x. q * 1000 + (n - m) / 1000 - (x * 1000 + (m - n) / 1000)) (omega arith))

-- What `rt_time_ms` gives is the time that it took.
pub rt_time_ms-Took : (start last : Time) → Took start last (rt_time_ms start last)
rt_time_ms-Took start last = rw (value start last) (
    close (pos_part start.sec + neg_part last.sec) (pos_part last.sec + neg_part start.sec)
      (start.nsec / 1000) (last.nsec / 1000))
