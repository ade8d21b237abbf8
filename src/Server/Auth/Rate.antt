-- ===== src/Server/Auth/Rate.antt =====
-- How many failed attempts `rate_limited` of server/src/auth.rs lets through, one after another.
use webshooter.Base.{
  ℕ, ◌+◌, ◌-◌, ◌^◌, ◌%◌, ◌≤◌, ◌<◌, ◌≡◌, max, ap, ◌∙◌, refl, arith, Bool, true, false, List, [], ◌∷◌,
  Option, none, some, ltb, if◌then◌else◌, Bool-cases, inl, inr,
}
use webshooter.Server.Auth.{
  rate_limit_window, RateLimitEntry, RateLimits, renewed, Answer, too_many_requests, accepted,
  rejected, rate_limited,
}

abbrev passed : Answer → ℕ
passed too_many_requests = 0
passed accepted = 1
passed rejected = 1

-- How many of the attempts of one address, all of which fail, are let through; each comes with its
-- two readings of the clock.
pub let_through : ℕ → ℕ → List (ℕ × ℕ) → RateLimits → ℕ
let_through ip max_attempts [] limits = 0
let_through ip max_attempts ((now, later) ∷ attempts) limits =
    let (next, answer) = rate_limited ip max_attempts now later false limits in
    passed answer + let_through ip max_attempts attempts next

-- The readings stand in order, from `start` on, and none is later than `end`.
abbrev pub Within : ℕ → ℕ → List (ℕ × ℕ) → Type 0
Within start end [] = start ≤ end
Within start end ((now, later) ∷ attempts) =
    (start ≤ now) × (now ≤ later) × Within later end attempts

-- What an old window may still let through.
abbrev pub room : ℕ → Option RateLimitEntry → ℕ
room max_attempts none = 0
room max_attempts (some entry) = max_attempts - entry.count

-- One failing attempt, on the address's own entry.
abbrev failing : ℕ → ℕ → ℕ → Option RateLimitEntry → RateLimitEntry × Bool
failing m now later none = (record { count = 1; window_start = later }, true)
failing m now later (some entry) =
    let e = renewed now entry in
    let l = renewed later e in
    if ltb e.count m then (record l { count = (l.count + 1) % 2 ^ 32 }, true) else (e, false)

tally : ℕ → List (ℕ × ℕ) → Option RateLimitEntry → ℕ
tally m [] entry = 0
tally m ((now, later) ∷ attempts) entry =
    (if (failing m now later entry).1 then 1 else 0)
    + tally m attempts (some (failing m now later entry).0)

entry-rate_limited :
    (ip m now later : ℕ) (limits : RateLimits) (o : Option RateLimitEntry)
    → limits ip ≡ o
    → (rate_limited ip m now later false limits).0 ip ≡ some (failing m now later o).0
unfolding rate_limited
entry-rate_limited ip m now later limits none e = rw e (ground (arith, e))
entry-rate_limited ip m now later limits (some entry) e =
    elim (Bool-cases (ltb (renewed now entry).count m)) [
      | inl lt ↦ rw e (ground (arith, e, lt))
      | inr ge ↦ rw e (ground (arith, e, ge))
    ]

passed-rate_limited :
    (ip m now later : ℕ) (limits : RateLimits) (o : Option RateLimitEntry)
    → limits ip ≡ o
    → passed (rate_limited ip m now later false limits).1
      ≡ (if (failing m now later o).1 then 1 else 0)
unfolding rate_limited
passed-rate_limited ip m now later limits none e = rw e (ground (arith, e))
passed-rate_limited ip m now later limits (some entry) e =
    elim (Bool-cases (ltb (renewed now entry).count m)) [
      | inl lt ↦ rw e (ground (arith, e, lt))
      | inr ge ↦ rw e (ground (arith, e, ge))
    ]

let_through-tally :
    (ip m : ℕ) (attempts : List (ℕ × ℕ)) (limits : RateLimits)
    → let_through ip m attempts limits ≡ tally m attempts (limits ip)
unfolding let_through tally
let_through-tally ip m [] limits = refl
let_through-tally ip m ((now, later) ∷ attempts) limits =
    let o = limits ip in
    let next = (rate_limited ip m now later false limits).0 in
    let rest =
      let_through-tally ip m attempts next
      ∙ ap (λ e. tally m attempts e) (entry-rate_limited ip m now later limits o refl) in
    omega (arith, rest, passed-rate_limited ip m now later limits o refl)

Within-le : (start end : ℕ) (attempts : List (ℕ × ℕ)) → Within start end attempts → start ≤ end
Within-le start end [] w = w
Within-le start end ((now, later) ∷ attempts) w = omega (arith, w, Within-le later end attempts w.2)

-- No other window begins while the one of the entry lasts.
tally_current :
    (m start end : ℕ) (attempts : List (ℕ × ℕ)) (entry : RateLimitEntry)
    → m < 2 ^ 32
    → Within start end attempts
    → end ≤ entry.window_start + rate_limit_window
    → tally m attempts (some entry) ≤ m - entry.count
unfolding tally
tally_current m start end [] entry small w fits = omega arith
tally_current m start end ((now, later) ∷ attempts) entry small w fits =
    let latest = Within-le later end attempts w.2 in
    let more = record entry { count = (entry.count + 1) % 2 ^ 32 } in
    ground (
      arith,
      latest,
      tally_current m later end attempts entry,
      tally_current m later end attempts more,
    )

tally-room :
    (m start end : ℕ) (attempts : List (ℕ × ℕ)) (o : Option RateLimitEntry)
    → m < 2 ^ 32
    → Within start end attempts
    → end ≤ start + rate_limit_window
    → tally m attempts o ≤ max 1 m + room m o
unfolding tally
tally-room m start end [] o small w fits = omega arith
tally-room m start end ((now, later) ∷ attempts) none small w fits =
    let latest = Within-le later end attempts w.2 in
    ground (
      arith,
      latest,
      tally_current m later end attempts (record { count = 1; window_start = later }),
    )
tally-room m start end ((now, later) ∷ attempts) (some entry) small w fits =
    let latest = Within-le later end attempts w.2 in
    let more = record entry { count = (entry.count + 1) % 2 ^ 32 } in
    ground (
      arith,
      latest,
      tally_current m later end attempts (record { count = 0; window_start = now }),
      tally_current m later end attempts (record { count = 1; window_start = now }),
      tally_current m later end attempts (record { count = 1; window_start = later }),
      tally-room m later end attempts (some entry),
      tally-room m later end attempts (some more),
    )

-- Within 60 seconds, at most `max_attempts` failed attempts of an address are let through, one
-- after another, or one if `max_attempts` is 0; an older entry lets through at most what was left of
-- its own window on top.
pub let_through_bound :
    (ip max_attempts start end : ℕ) (attempts : List (ℕ × ℕ)) (limits : RateLimits)
    → max_attempts < 2 ^ 32
    → Within start end attempts
    → end ≤ start + rate_limit_window
    → let_through ip max_attempts attempts limits
      ≤ max 1 max_attempts + room max_attempts (limits ip)
let_through_bound ip m start end attempts limits small w fits = omega (
  arith,
  let_through-tally ip m attempts limits,
  tally-room m start end attempts (limits ip) small w fits,
)
