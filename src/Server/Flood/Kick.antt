-- ===== src/Server/Flood/Kick.antt =====
-- When the receive pump of server/src/wt.rs drops a session.
use webshooter.Base.{ℕ, ◌+◌, ◌≡◌, ◌≤◌, ◌<◌, refl, ap, ◌∙◌, arith, false, List, [], ◌∷◌, leb, length}
use webshooter.Server.Flood.{
  FloodKick, record_refusal, new_kick, input_flood_kick_refusals, input_flood_kick_window,
}

-- The counter after refusals at these times, and the verdict on the next one.
abbrev pub after_refusals : List ℕ → FloodKick → FloodKick
after_refusals [] k = k
after_refusals (now ∷ times) k = after_refusals times (record_refusal now k).0

-- All times are within one window from `start`.
abbrev pub InWindow : ℕ → List ℕ → Type 0
InWindow start [] = Unit {0}
InWindow start (now ∷ times) = (now < start + input_flood_kick_window) × InWindow start times

record_refusal-counts :
    (now : ℕ) (k : FloodKick)
    → now < k.window_start + input_flood_kick_window
    → ((record_refusal now k).0.refusals ≡ k.refusals + 1)
      × ((record_refusal now k).0.window_start ≡ k.window_start)
unfolding record_refusal
record_refusal-counts now k h = ground (arith, h)

after_refusals-counts :
    (times : List ℕ) (k : FloodKick)
    → InWindow k.window_start times
    → ((after_refusals times k).refusals ≡ k.refusals + length times)
      × ((after_refusals times k).window_start ≡ k.window_start)
after_refusals-counts [] k h = (omega arith, refl)
after_refusals-counts (now ∷ times) k h =
    let u = (record_refusal now k).0 in
    let one = record_refusal-counts now k h.0 in
    let rest = after_refusals-counts times u (rw one.1 h.1) in
    (omega (arith, rest.0, one.0), rw rest.1 one.1)

record_refusal-verdict :
    (now : ℕ) (k : FloodKick)
    → now < k.window_start + input_flood_kick_window
    → (record_refusal now k).1 ≡ leb input_flood_kick_refusals (k.refusals + 1)
unfolding record_refusal
record_refusal-verdict now k h = ground (arith, h)

-- Within one window from a fresh counter, the session is dropped exactly from the 1000th refusal on.
pub dropped_iff :
    (times : List ℕ) (start now : ℕ)
    → InWindow start times
    → now < start + input_flood_kick_window
    → (record_refusal now (after_refusals times (new_kick start))).1
      ≡ leb input_flood_kick_refusals (length times + 1)
dropped_iff times start now h k =
    let counts = after_refusals-counts times (new_kick start) h in
    let u = after_refusals times (new_kick start) in
    record_refusal-verdict now u (omega (arith, k, counts.1))
    ∙ ap (leb input_flood_kick_refusals) (omega (arith, counts.0))

-- A refusal that comes when the window has expired starts a new count, however many came before.
pub window_restarts :
    (now : ℕ) (k : FloodKick)
    → k.window_start + input_flood_kick_window ≤ now
    → record_refusal now k ≡ (record { refusals = 1; window_start = now }, false)
unfolding record_refusal
window_restarts now k h = ground (arith, h)
