-- ===== src/Server/InputCoalesce/Budget.antt =====
-- The budget of server/src/pipewire/input_coalesce.rs. Its floating-point tokens are exact here:
-- counts of 1 / 10 ^ 9 token, so that a nanosecond is worth 250. Times are nanoseconds, and
-- `duration_since` is 0 where the clock went back.
use webshooter.Base.{
  ℕ, ◌≡◌, ◌≤◌, ◌<◌, ◌⊎◌, ◌+◌, ◌*◌, ◌-◌, ◌/◌, ◌^◌, min, arith, List, [], ◌∷◌, ◌==◌, if◌then◌else◌,
  length,
}
use webshooter.Shared.ClientDatagram.{ClientDatagram}
use webshooter.Shared.Throttle.{input_min_interval_ms}
use webshooter.Server.InputCoalesce.{Pending, drain_front}

abbrev pub token : ℕ
token = 10 ^ 9

abbrev pub input_rate_per_sec : ℕ
input_rate_per_sec = 1000 / input_min_interval_ms

abbrev pub input_burst : ℕ
input_burst = 32 * token

pub record Budget : Type 0 where
  pub tokens : ℕ
  pub last : ℕ

abbrev pub full_at : ℕ → Budget
full_at now = record { tokens = input_burst; last = now }

unfoldable pub grant : ℕ → ℕ → Budget → Budget × ℕ
grant want now b =
    let tokens = min (b.tokens + (now - b.last) * input_rate_per_sec) input_burst in
    let granted = min (tokens / token) want in
    (record { tokens = tokens - granted * token; last = now }, granted)

unfoldable pub take_input_budget : ℕ → ℕ → Budget → Budget × ℕ
unfolding grant
take_input_budget want now b = if want == 0 then (b, 0) else grant want now b

unfoldable pub drain_budgeted : ℕ → Budget → Pending → Budget × Pending × List ClientDatagram
unfolding take_input_budget drain_front
drain_budgeted now b p =
    let g = take_input_budget (length p) now b in
    let drained = drain_front g.1 p in (g.0, drained.0, drained.1)

grant-one :
    (want now : ℕ) (b : Budget)
    → (1 ≤ (grant want now b).1) ⊎ ((want ≡ 0) ⊎ (now < b.last + 4 * 10 ^ 6))
unfolding grant
grant-one want now b = ground arith

-- A grant is at most what is wanted, it is paid for from the tokens and the time since the last
-- one, and the tokens never exceed the burst; where something is wanted and 4 ms have passed, at
-- least one is granted.
pub grant-bounds :
    (want now : ℕ) (b : Budget)
    → ((grant want now b).1 ≤ want)
      × ((grant want now b).1 * token + (grant want now b).0.tokens
          ≤ b.tokens + (now - b.last) * input_rate_per_sec)
      × ((grant want now b).0.tokens ≤ input_burst)
      × ((1 ≤ (grant want now b).1) ⊎ ((want ≡ 0) ⊎ (now < b.last + 4 * 10 ^ 6)))
unfolding grant
grant-bounds want now b = (grind arith, grind arith, grind arith, grant-one want now b)

-- The requests of all sessions, in the order of the lock: what is wanted, and when.
abbrev pub total_granted : List (ℕ × ℕ) → Budget → ℕ
total_granted [] b = 0
total_granted ((want, now) ∷ rs) b =
    let r = take_input_budget want now b in r.1 + total_granted rs r.0

-- The requests come in the order of the clock, and none later than `end`.
abbrev pub Until : ℕ → ℕ → List (ℕ × ℕ) → Type 0
Until last end [] = last ≤ end
Until last end ((want, now) ∷ rs) = (last ≤ now) × Until now end rs

take_input_budget-paid :
    (want now end : ℕ) (b : Budget)
    → b.last ≤ now
    → now ≤ end
    → ((take_input_budget want now b).1 * token
          + ((take_input_budget want now b).0.tokens
              + (end - (take_input_budget want now b).0.last) * input_rate_per_sec)
        ≤ b.tokens + (end - b.last) * input_rate_per_sec)
      × ((take_input_budget want now b).0.last ≤ now)
unfolding take_input_budget grant
take_input_budget-paid want now end b h k = (grind (arith, h, k), grind (arith, h, k))

Until-le : (rs : List (ℕ × ℕ)) (last end : ℕ) → Until last end rs → last ≤ end
Until-le [] last end h = h
Until-le ((want, now) ∷ rs) last end h = omega (arith, h.0, Until-le rs now end h.1)

total_granted-paid :
    (rs : List (ℕ × ℕ)) (last end : ℕ) (b : Budget)
    → b.last ≤ last
    → Until last end rs
    → total_granted rs b * token ≤ b.tokens + (end - b.last) * input_rate_per_sec
total_granted-paid [] last end b k h = omega arith
total_granted-paid ((want, now) ∷ rs) last end b k h =
    let u = take_input_budget want now b in
    let paid =
      take_input_budget-paid want now end b (omega (arith, k, h.0)) (Until-le rs now end h.1) in
    omega (arith, paid.0, total_granted-paid rs now end u.0 paid.1 h.1)

-- From a full budget, all sessions together are never granted more than 32 events and one more for
-- each 4 ms (250 a second), however many sessions there are and whatever they ask for.
pub total_granted-rate :
    (rs : List (ℕ × ℕ)) (start end : ℕ)
    → Until start end rs
    → total_granted rs (full_at start) * token ≤ input_burst + (end - start) * input_rate_per_sec
total_granted-rate rs start end h = total_granted-paid rs start end (full_at start) (omega arith) h
