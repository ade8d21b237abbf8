-- ===== src/Server/Bitrate.antt =====
-- server/src/pipewire/bitrate.rs: the bitrate to encode at after a sample of the link.
pub mod Govern
use native.Mathlib.Nat.{two-pow-succ, pow-le-pow_right}
use webshooter.Base.{
  ℕ, zero, suc, ◌+◌, ◌-◌, ◌*◌, ◌/◌, ◌^◌, ◌≤◌, ◌<◌, ◌≡◌, arith, min, max, leb, ◌⊎◌, inl, inr, subst,
  if◌then◌else◌,
}

abbrev pub step_divisor : ℕ
step_divisor = 2

abbrev pub min_kbps : ℕ
min_kbps = 250

pub data LinkPressure : Type 0 where
  congested clear : LinkPressure

abbrev clamp : ℕ → ℕ → ℕ → ℕ
clamp lo hi x = max lo (min x hi)

-- The bitrate before the last clamp. `saturating_mul` of `u32`.
abbrev stepped : ℕ → ℕ → LinkPressure → ℕ
stepped current ceiling congested =
    let halved = current / step_divisor in
    if leb min_kbps current then max halved min_kbps else max halved 1
stepped current ceiling clear = min (min (current * step_divisor) (2 ^ 32 - 1)) ceiling

unfoldable pub next_bitrate : ℕ → ℕ → LinkPressure → ℕ
next_bitrate current ceiling_kbps pressure =
    let ceiling = max ceiling_kbps 1 in
    let current' = clamp 1 ceiling current in clamp 1 ceiling (stepped current' ceiling pressure)

-- Whatever the link says and whatever the bitrate was, the next one is at least 1 and never above
-- the ceiling (or 1, if the ceiling is 0).
pub next_bitrate_bounds :
    (current ceiling_kbps : ℕ) (p : LinkPressure)
    → (1 ≤ next_bitrate current ceiling_kbps p)
      × (next_bitrate current ceiling_kbps p ≤ max ceiling_kbps 1)
unfolding next_bitrate
next_bitrate_bounds current ceiling_kbps congested = ground arith
next_bitrate_bounds current ceiling_kbps clear = ground arith

-- Congestion never raises a bitrate that is within its bounds, and lowers it unless it is at the
-- floor or at 1; a clear link never lowers it, and raises it unless it is at the ceiling.
pub next_bitrate_direction :
    (current ceiling_kbps : ℕ)
    → 1 ≤ current
    → current ≤ ceiling_kbps
    → ceiling_kbps < 2 ^ 32
    → (next_bitrate current ceiling_kbps congested ≤ current)
      × (current ≤ next_bitrate current ceiling_kbps clear)
      × ((next_bitrate current ceiling_kbps congested < current)
          ⊎ ((current ≡ min_kbps) ⊎ (current ≡ 1)))
      × ((current < next_bitrate current ceiling_kbps clear) ⊎ (current ≡ ceiling_kbps))
unfolding next_bitrate
next_bitrate_direction current ceiling_kbps lo hi word = ground arith

-- The bitrate after a number of samples that all say the same.
abbrev pub settle : ℕ → ℕ → LinkPressure → ℕ → ℕ
settle zero ceiling p current = current
settle (suc n) ceiling p current = settle n ceiling p (next_bitrate current ceiling p)

next_bitrate-clear :
    (current ceiling_kbps : ℕ)
    → 1 ≤ current
    → current ≤ ceiling_kbps
    → ceiling_kbps < 2 ^ 32
    → next_bitrate current ceiling_kbps clear ≡ min (2 * current) ceiling_kbps
unfolding next_bitrate
next_bitrate-clear current ceiling_kbps lo hi word = ground arith

half_way :
    (p current ceiling m : ℕ)
    → 1 ≤ p
    → ceiling ≤ (p + p) * current
    → (m ≡ 2 * current) ⊎ (m ≡ ceiling)
    → ceiling ≤ p * m
half_way p current ceiling m one h (inl e) = rw e (omega arith)
half_way p current ceiling m one h (inr e) = rw e (grind arith)

-- One doubling, or the ceiling, covers half of the way that is left.
half_left :
    (n current ceiling : ℕ)
    → ceiling ≤ 2 ^ suc n * current
    → ceiling ≤ 2 ^ n * min (2 * current) ceiling
half_left n current ceiling h =
    half_way (2 ^ n) current ceiling (min (2 * current) ceiling)
      (pow-le-pow_right {n = 2} (omega arith) {i = 0} {j = n} (omega arith))
      (subst (λ t. ceiling ≤ t * current) (two-pow-succ n) h) (omega arith)

-- A link that stays clear brings every bitrate within its bounds back to the ceiling and keeps it
-- there, after at most as many samples as it takes to double the bitrate past the ceiling.
pub settle-clear :
    (n current ceiling_kbps : ℕ)
    → 1 ≤ current
    → current ≤ ceiling_kbps
    → ceiling_kbps < 2 ^ 32
    → ceiling_kbps ≤ 2 ^ n * current
    → settle n ceiling_kbps clear current ≡ ceiling_kbps
settle-clear zero current ceiling_kbps lo hi word h = omega arith
settle-clear (suc n) current ceiling_kbps lo hi word h =
    rw (next_bitrate-clear current ceiling_kbps lo hi word) (
      settle-clear n (min (2 * current) ceiling_kbps) ceiling_kbps (omega arith) (omega arith) word
        (half_left n current ceiling_kbps h))
