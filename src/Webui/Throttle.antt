-- ===== src/Webui/Throttle.antt =====
-- webui/wasm/src/throttle.rs: the spacing of the input that a page sends. Times are microseconds of
-- the page's clock, which each operation takes as arguments, in the order in which it reads it,
-- with the handle that the browser gives a new timer. An operation returns its effects.
pub mod Bounds
pub mod Spacing
pub mod Drain
use webshooter.Base.{
  ℕ, ◌+◌, ◌*◌, ◌-◌, ◌/◌, ◌^◌, min, Bool, true, false, ◌||◌, List, [], ◌∷◌, ◌++◌, Option, none, some,
  if◌then◌else◌, ltb, leb, length,
}
use webshooter.Shared.Throttle.{input_min_interval_ms, effective_interval_ms}
use webshooter.Shared.ClientDatagram.{ClientDatagram}
use webshooter.Shared.ClientDatagram.Coalesce.{coalesce_input}

abbrev pub max_pending : ℕ
max_pending = 32

pub record Throttle : Type 0 where
  pub interval : ℕ
  pub last_send : ℕ
  pub pending : List ClientDatagram
  pub flush_id : Option ℕ

pub data Effect : Type 0 where
  sends : ClientDatagram → Effect
  sets_timeout : ℕ → Effect

unfoldable pub new : Throttle
new = record {
  interval = input_min_interval_ms * 1000;
  last_send = 0;
  pending = [];
  flush_id = none;
}

-- The interval is never 0, so that a clock that went back is not due either.
unfoldable pub due : ℕ → Throttle → Bool
due now t = leb t.interval (now - t.last_send)

-- `while self.pending.len() > MAX_PENDING { self.pending.pop_front(); }`
pub pop_excess : List ClientDatagram → List ClientDatagram
pop_excess [] = []
pop_excess (m ∷ q) =
    let rest = pop_excess q in if ltb max_pending (length (m ∷ q)) then rest else m ∷ q

unfoldable pub enqueue : ClientDatagram → Throttle → Throttle
unfolding pop_excess
enqueue msg t = record t { pending = pop_excess (coalesce_input t.pending msg) }

abbrev pub take_front : ℕ → List ClientDatagram → Throttle → Throttle × Option ClientDatagram
take_front now [] t = (t, none)
take_front now (msg ∷ rest) t = (record t { pending = rest; last_send = now }, some msg)

unfoldable pub take_due : ℕ → Throttle → Throttle × Option ClientDatagram
unfolding due
take_due now t = if due now t then take_front now t.pending t else (t, none)

unfoldable pub set_throttle : ℕ → Throttle → Throttle
set_throttle interval_ms t = record t { interval = effective_interval_ms interval_ms * 1000 }

-- `delay.max(0.0) as i32`, of a delay in milliseconds.
abbrev pub timeout_of : ℕ → ℕ → ℕ
timeout_of due_at now = min ((due_at - now) / 1000) (2 ^ 31 - 1)

unfoldable pub arm_flush : ℕ → ℕ → ℕ → Throttle → Throttle × List Effect
arm_flush due_at now handle t =
    (record t { flush_id = some handle }, sets_timeout (timeout_of due_at now) ∷ [])

abbrev pub is_some {ℓ} : {A : Type ℓ} → Option A → Bool
is_some none = false
is_some (some a) = true

abbrev pub is_empty {ℓ} : {A : Type ℓ} → List A → Bool
is_empty [] = true
is_empty (a ∷ l) = false

unfoldable pub schedule_flush : ℕ → ℕ → Throttle → Throttle × List Effect
unfolding arm_flush
schedule_flush now handle t =
    if is_some t.flush_id || is_empty t.pending
    then (t, [])
    else arm_flush (t.last_send + t.interval) now handle t

unfoldable pub send_input : ℕ → ℕ → ℕ → ClientDatagram → Throttle → Throttle × List Effect
unfolding due enqueue schedule_flush
send_input now later handle msg t =
    if due now t
    then (record t { last_send = now }, sends msg ∷ [])
    else schedule_flush later handle (enqueue msg t)

abbrev pub send_taken : Option ClientDatagram → List Effect
send_taken none = []
send_taken (some msg) = sends msg ∷ []

unfoldable pub flush_pending : ℕ → ℕ → ℕ → Throttle → Throttle × List Effect
unfolding take_due schedule_flush
flush_pending now later handle t =
    let taken = take_due now (record t { flush_id = none }) in
    let armed = schedule_flush later handle taken.0 in (armed.0, send_taken taken.1 ++ armed.1)

-- What happens to a page's throttle: input, its timer, and a request of the server.
pub data Event : Type 0 where
  input : ℕ → ℕ → ℕ → ClientDatagram → Event
  timer : ℕ → ℕ → ℕ → Event
  request : ℕ → Event

unfoldable pub step : Event → Throttle → Throttle × List Effect
unfolding send_input flush_pending set_throttle
step (input now later handle msg) t = send_input now later handle msg t
step (timer now later handle) t = flush_pending now later handle t
step (request interval_ms) t = (set_throttle interval_ms t, [])

abbrev pub run : List Event → Throttle → Throttle
run [] t = t
run (e ∷ es) t = run es (step e t).0
