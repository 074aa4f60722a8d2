-- ===== src/Clock/Jumps.antt =====
-- src/events/check_continuity.c and `add_jitter`: clock jumps and jitter.
use tlsdate.Base.{◌<◌, ◌^◌, ◌≡◌, ◌≢◌, ◌↔◌, ◌⊎◌, false, some, arith}
use tlsdate.Base.Int.{
  ℤ, pos, nat_abs, +ℤ_parts, -ℤ_parts, int_laws, is_zero, ◌+ℤ◌, ◌-ℤ◌, ◌≤ℤ◌, ◌<ℤ◌,
}
use tlsdate.Clock.{jumped, is_jump, check_continuity, abs_int, rem_int, add_jitter}
use tlsdate.Types.{default_continuity_interval}

-- With both clocks read, a jump is reported exactly when an old delta is known (is not 0) and the
-- new one is more than four hours away from it, and the new delta is stored either way.
pub check_continuity-jumped_iff :
    (real monotonic delta : ℤ)
    → let r = check_continuity (record { real = some real; monotonic = some monotonic }) delta in
      ((r.0 ≡ jumped) ↔ (
        (delta ≢ pos 0)
        × ((real -ℤ monotonic +ℤ default_continuity_interval <ℤ delta)
            ⊎ (delta +ℤ default_continuity_interval <ℤ real -ℤ monotonic))))
      × (r.1 ≡ real -ℤ monotonic)
unfolding check_continuity is_jump
check_continuity-jumped_iff real monotonic delta = ground (
  arith,
  -ℤ_parts delta default_continuity_interval,
  +ℤ_parts delta default_continuity_interval,
  +ℤ_parts (real -ℤ monotonic) default_continuity_interval,
)

abs_int-rem_int_bounds :
    (n jitter : ℤ)
    → pos 0 <ℤ jitter
    → nat_abs n < 2 ^ 31
    → (pos 0 ≤ℤ rem_int (abs_int n) (jitter +ℤ jitter))
      × (rem_int (abs_int n) (jitter +ℤ jitter) <ℤ jitter +ℤ jitter)
unfolding abs_int rem_int
abs_int-rem_int_bounds n jitter h k = ground (arith, +ℤ_parts jitter jitter)

is_zero-of_pos : (j : ℤ) → pos 0 <ℤ j → is_zero j ≡ false
is_zero-of_pos j h = ground arith

-- For a positive jitter, the jittered interval is at least the base less the jitter and less than
-- the base plus the jitter, unless the random int is -2^31.
pub add_jitter_bounds :
    (base n : ℤ) (jitter : ℤ)
    → pos 0 <ℤ jitter
    → nat_abs n < 2 ^ 31
    → (base -ℤ jitter ≤ℤ add_jitter base jitter n) × (add_jitter base jitter n <ℤ base +ℤ jitter)
unfolding add_jitter
add_jitter_bounds base n jitter h k =
    rw (is_zero-of_pos jitter h, add_jitter) (omega (int_laws, abs_int-rem_int_bounds n jitter h k))
