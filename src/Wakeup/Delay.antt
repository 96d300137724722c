-- ===== src/Wakeup/Delay.antt =====
-- The delays of adsbus/wakeup.c.
use native.Mathlib.Nat.{pow-le-pow_right, one-le-pow, mod-lt}
use adsb_tools.Prelude.{
  ℕ, ◌+◌, ◌*◌, ◌%◌, ◌^◌, ◌≤◌, ◌<◌, ◌≡◌, ok, ltb, true, arith, Bool-cases, inl, inr, lt→ltb,
}
use adsb_tools.Wakeup.{retry_min_ms, retry_max_ms, wakeup_get_retry_delay_ms, wakeup_time}

-- For attempt numbers up to 20 the delay is defined: it is shorter than a minute, and than the
-- minimum doubled as often as the number says. The time that a timer is set to for it is just
-- this delay, with nanoseconds of less than a second.
pub retry_delay-bounds :
    (attempt jitter : ℕ)
    → attempt ≤ 20
    → (delay : ℕ) × (wakeup_get_retry_delay_ms attempt jitter ≡ ok delay)
      × (delay < retry_max_ms)
      × (delay < retry_min_ms * 2 ^ attempt)
      × ((wakeup_time delay).0 * 1000000000 + (wakeup_time delay).1 ≡ delay * 1000000)
      × ((wakeup_time delay).1 < 1000000000)
unfolding wakeup_get_retry_delay_ms wakeup_time
retry_delay-bounds attempt jitter h =
    let product = retry_min_ms * 2 ^ attempt in
    let powers : 2 ^ attempt ≤ 2 ^ 20 = pow-le-pow_right (omega arith) h in
    let fits : ltb product 0x8000_0000 ≡ true = lt→ltb _ _ (omega (arith, powers)) in
    let positive = one-le-pow attempt 2 (omega arith) in
    elim (Bool-cases (ltb retry_max_ms product)) [
      | inl long ↦
          let below = mod-lt jitter {m = retry_max_ms} (omega arith) in
          (
            jitter % retry_max_ms,
            simp (wakeup_get_retry_delay_ms, fits, long),
            below,
            ground (arith, long, below),
            omega arith,
            omega arith,
          )
      | inr short ↦
          let below = mod-lt jitter {m = product} (omega (arith, positive)) in
          (
            jitter % product,
            simp (wakeup_get_retry_delay_ms, fits, short),
            ground (arith, short, below),
            below,
            omega arith,
            omega arith,
          )
    ]
