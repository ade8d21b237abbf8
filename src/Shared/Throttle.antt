-- ===== src/Shared/Throttle.antt =====
-- shared/src/throttle.rs: the spacing of input events that both ends apply.
use webshooter.Base.{ℕ, ◌*◌, ◌^◌, ◌-◌, ◌≤◌, ◌<◌, arith, min, max}

abbrev pub input_min_interval_ms : ℕ
input_min_interval_ms = 4

unfoldable pub effective_interval_ms : ℕ → ℕ
effective_interval_ms requested_ms = max requested_ms input_min_interval_ms

-- `u64::saturating_mul`.
abbrev saturating_mul_64 : ℕ → ℕ → ℕ
saturating_mul_64 a b = min (a * b) (2 ^ 64 - 1)

unfoldable pub spacing_ms_after_events : ℕ → ℕ → ℕ
unfolding effective_interval_ms
spacing_ms_after_events events requested_ms =
    saturating_mul_64 (effective_interval_ms requested_ms) (max events 1)

-- The gate stays shut for at least 4 ms for each event of a batch (at most 250 events a second),
-- for at least the interval that was asked for, and for one such interval after an empty batch:
-- for every batch below 2 ^ 48 events and every `u16` request.
pub spacing_rate :
    (events requested_ms : ℕ)
    → events < 2 ^ 48
    → requested_ms < 2 ^ 16
    → (events * input_min_interval_ms ≤ spacing_ms_after_events events requested_ms)
      × (events * requested_ms ≤ spacing_ms_after_events events requested_ms)
      × (effective_interval_ms requested_ms ≤ spacing_ms_after_events events requested_ms)
unfolding spacing_ms_after_events
spacing_rate events requested_ms he hr = grind arith
