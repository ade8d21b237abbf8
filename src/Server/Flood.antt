-- ===== src/Server/Flood.antt =====
-- The limits on a client's input in server/src/wt.rs, and what the receive pump does with a
-- datagram. Times are nanoseconds; a token is 10 ^ 9 units, so that a nanosecond refills 4000, and
-- the floating-point tokens are exact. `duration_since` is 0 where the clock went back.
pub mod Rate
pub mod Kick
pub mod Control
use webshooter.Base.{
  ℕ, ◌+◌, ◌-◌, ◌*◌, ◌^◌, min, Bool, true, false, ◌&&◌, not, List, [], ◌∷◌, if◌then◌else◌, leb,
}
use webshooter.Base.Result.{Result, ok, err}
use webshooter.Shared.Error.{Parsed}
use webshooter.Shared.ClientDatagram.{ClientDatagram, is_input_byte}
use webshooter.Shared.ClientDatagram.Axis.{Floats}
use webshooter.Shared.ClientDatagram.Decode.{from_bytes}

abbrev pub input_flood_rate_per_sec : ℕ
input_flood_rate_per_sec = 4000

abbrev pub input_flood_burst : ℕ
input_flood_burst = 32

abbrev pub input_flood_kick_refusals : ℕ
input_flood_kick_refusals = 1000

abbrev pub input_flood_kick_window : ℕ
input_flood_kick_window = 10 ^ 9

abbrev pub one : ℕ
one = 10 ^ 9

pub record InputFloodGuard : Type 0 where
  pub tokens : ℕ
  pub last_refill : ℕ

abbrev pub new_guard : ℕ → InputFloodGuard
new_guard now = record { tokens = input_flood_burst * one; last_refill = now }

unfoldable pub allow_input : ℕ → InputFloodGuard → InputFloodGuard × Bool
allow_input now g =
    let refilled =
      min (g.tokens + (now - g.last_refill) * input_flood_rate_per_sec) (input_flood_burst * one) in
    if leb one refilled
    then (record { tokens = refilled - one; last_refill = now }, true)
    else (record { tokens = refilled; last_refill = now }, false)

pub record FloodKick : Type 0 where
  pub refusals : ℕ
  pub window_start : ℕ

abbrev pub new_kick : ℕ → FloodKick
new_kick now = record { refusals = 0; window_start = now }

abbrev restarted : ℕ → FloodKick → FloodKick
restarted now k =
    if leb input_flood_kick_window (now - k.window_start)
    then record { refusals = 0; window_start = now }
    else k

unfoldable pub record_refusal : ℕ → FloodKick → FloodKick × Bool
record_refusal now k =
    let r = restarted now k in
    (record r { refusals = r.refusals + 1 }, leb input_flood_kick_refusals (r.refusals + 1))

-- The pump's own state, and what it does with one datagram.
pub record Pump : Type 0 where
  pub flood : InputFloodGuard
  pub kick : FloodKick

pub data Outcome : Type 0 where
  forwarded : ClientDatagram → Outcome
  unreadable : Outcome
  refused : Outcome
  session_dropped : Outcome

abbrev pub starts_input : List ℕ → Bool
starts_input [] = false
starts_input (byte ∷ rest) = is_input_byte byte

abbrev outcome_of : Parsed ClientDatagram → Outcome
outcome_of (ok m) = forwarded m
outcome_of (err e) = unreadable

abbrev refusal : Bool → Outcome
refusal true = session_dropped
refusal false = refused

-- The bucket is asked only about input. `later` is the kick's own reading of the clock.
abbrev asked : Bool → ℕ → InputFloodGuard → InputFloodGuard × Bool
asked true now g = allow_input now g
asked false now g = (g, true)

abbrev admitted : Floats → ℕ → List ℕ → InputFloodGuard × Bool → FloodKick → Pump × Outcome
admitted fl later bytes (g, true) k =
    (record { flood = g; kick = k }, outcome_of (from_bytes fl bytes))
admitted fl later bytes (g, false) k =
    let r = record_refusal later k in (record { flood = g; kick = r.0 }, refusal r.1)

unfoldable pub on_datagram : Floats → ℕ → ℕ → List ℕ → Pump → Pump × Outcome
unfolding allow_input record_refusal
on_datagram fl now later bytes p =
    admitted fl later bytes (asked (starts_input bytes) now p.flood) p.kick
