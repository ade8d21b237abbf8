-- ===== src/Server/Flood/Rate.antt =====
-- How much input the guard of server/src/wt.rs lets through.
use webshooter.Base.{
  ℕ, ◌+◌, ◌-◌, ◌*◌, ◌≡◌, ◌≤◌, refl, arith, Bool, true, false, ◌&&◌, List, [], ◌∷◌, map,
}
use webshooter.Server.Flood.{
  InputFloodGuard, allow_input, new_guard, one, input_flood_rate_per_sec, input_flood_burst,
}
use webshooter.Webui.Throttle
use webshooter.Webui.Throttle.{Event}
use webshooter.Webui.Throttle.Spacing.{send_times, Spaced, send_times-Spaced}

-- How many of the input datagrams that arrive at these times are let through, and whether all are.
abbrev count : Bool → ℕ
count true = 1
count false = 0

abbrev pub allowed : List ℕ → InputFloodGuard → ℕ
allowed [] g = 0
allowed (now ∷ times) g = let r = allow_input now g in count r.1 + allowed times r.0

abbrev pub all_allowed : List ℕ → InputFloodGuard → Bool
all_allowed [] g = true
all_allowed (now ∷ times) g = let r = allow_input now g in r.1 && all_allowed times r.0

-- The times do not go back, and none is later than `end`.
abbrev pub Until : ℕ → ℕ → List ℕ → Type 0
Until last end [] = last ≤ end
Until last end (now ∷ times) = (last ≤ now) × Until now end times

Until-le : (times : List ℕ) (last end : ℕ) → Until last end times → last ≤ end
Until-le [] last end h = h
Until-le (now ∷ times) last end h = omega (arith, h.0, Until-le times now end h.1)

allow_input-paid :
    (now end : ℕ) (g : InputFloodGuard)
    → g.last_refill ≤ now
    → now ≤ end
    → (count (allow_input now g).1 * one
          + ((allow_input now g).0.tokens
              + (end - (allow_input now g).0.last_refill) * input_flood_rate_per_sec)
        ≤ g.tokens + (end - g.last_refill) * input_flood_rate_per_sec)
      × ((allow_input now g).0.last_refill ≡ now)
unfolding allow_input
allow_input-paid now end g h k = ground (arith, h, k)

allowed-paid :
    (times : List ℕ) (end : ℕ) (g : InputFloodGuard)
    → Until g.last_refill end times
    → allowed times g * one ≤ g.tokens + (end - g.last_refill) * input_flood_rate_per_sec
allowed-paid [] end g h = omega arith
allowed-paid (now ∷ times) end g h =
    let u = (allow_input now g).0 in
    let paid = allow_input-paid now end g h.0 (Until-le times now end h.1) in
    omega (arith, paid.0, allowed-paid times end u (rw paid.1 h.1))

-- From a fresh guard, however many input datagrams arrive and whenever they do, at most 32 get
-- through, and one more for each 250 microseconds (4000 a second).
pub allowed-rate :
    (times : List ℕ) (start end : ℕ)
    → Until start end times
    → allowed times (new_guard start) * one
      ≤ input_flood_burst * one + (end - start) * input_flood_rate_per_sec
allowed-rate times start end h = allowed-paid times end (new_guard start) h

-- A datagram a quarter of a millisecond after the last is let through a guard that has lost at most
-- one token, and leaves such a guard.
allow_input-spaced :
    (now : ℕ) (g : InputFloodGuard)
    → (input_flood_burst - 1) * one ≤ g.tokens
    → g.last_refill + 250000 ≤ now
    → ((allow_input now g).1 ≡ true)
      × ((input_flood_burst - 1) * one ≤ (allow_input now g).0.tokens)
      × ((allow_input now g).0.last_refill ≡ now)
unfolding allow_input
allow_input-spaced now g h k = ground (arith, h, k)

-- A time of the page, in microseconds, as one of the server.
abbrev pub at_server : ℕ → ℕ → ℕ
at_server start time = start + time * 1000

all_allowed-Spaced :
    (times : List ℕ) (start last : ℕ) (g : InputFloodGuard)
    → (input_flood_burst - 1) * one ≤ g.tokens
    → g.last_refill ≡ at_server start last
    → Spaced last times
    → all_allowed (map (at_server start) times) g ≡ true
all_allowed-Spaced [] start last g h e s = refl
all_allowed-Spaced (time ∷ times) start last g h e s =
    let now = at_server start time in
    let u = (allow_input now g).0 in
    let one_step = allow_input-spaced now g h (omega (arith, e, s.0)) in
    rw one_step.0 (all_allowed-Spaced times start time u one_step.1 one_step.2 s.1)

-- Whatever a page sends through its throttle, the guard refuses none of it where every datagram
-- takes the same time to arrive and the guard is as old as the page.
pub all_allowed-send_times :
    (es : List Event) (start : ℕ)
    → all_allowed (map (at_server start) (send_times es Throttle.new)) (new_guard start) ≡ true
all_allowed-send_times es start =
    all_allowed-Spaced (send_times es Throttle.new) start 0 (new_guard start) (omega arith)
      (omega arith) (send_times-Spaced es)
