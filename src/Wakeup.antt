-- ===== src/Wakeup.antt =====
-- adsbus/wakeup.c: the delay before an attempt is repeated, and the timers.
pub mod Delay
pub mod Timer
pub mod Keeps
use adsb_tools.Prelude.{
  ℕ, ◌*◌, ◌/◌, ◌%◌, ◌^◌, ltb, ◌==◌, if◌then◌else◌, Run, ok, abort, ◌>>=◌, ◌>>◌, check,
}
use adsb_tools.Packet.{u32}

abbrev pub retry_min_ms : ℕ
retry_min_ms = 2000

abbrev pub retry_max_ms : ℕ
retry_max_ms = 60000

-- `jitter` is what `rand_fill` stored. A product that no `int` holds is undefined in C: `abort`.
unfoldable pub wakeup_get_retry_delay_ms : ℕ → ℕ → Run ℕ
wakeup_get_retry_delay_ms attempt jitter = do
  let product = retry_min_ms * 2 ^ attempt
  check (ltb product 0x8000_0000)
  let max_delay = if ltb retry_max_ms product then retry_max_ms else product
  ok (jitter % max_delay)

-- `it_value` of the timer that `wakeup_add` sets: seconds and nanoseconds.
unfoldable pub wakeup_time : ℕ → ℕ × ℕ
wakeup_time delay_ms = (delay_ms / 1000, delay_ms % 1000 * 1000000)
