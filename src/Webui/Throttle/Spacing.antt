-- ===== src/Webui/Throttle/Spacing.antt =====
-- The spacing of the datagrams that webui/wasm/src/throttle.rs sends.
use webshooter.Base.{
  ℕ, ◌≡◌, ◌⊎◌, inl, inr, ◌≤◌, ◌+◌, refl, arith, true, List, [], ◌∷◌, ◌++◌, none, Bool-cases, subst,
  sym, ap, append-nil,
}
use webshooter.Shared.Throttle.{effective_interval_ms}
use webshooter.Shared.ClientDatagram.{ClientDatagram}
use webshooter.Webui.Throttle.{
  Throttle, Effect, sends, sets_timeout, Event, input, timer, request, new, enqueue, step,
  send_input, flush_pending, schedule_flush, take_due, take_front, due, set_throttle, arm_flush,
  send_taken,
}

-- The time at which an event reads the clock for the spacing, once for each datagram sent then.
abbrev pub sent_at : ℕ → List Effect → List ℕ
sent_at now [] = []
sent_at now (sends m ∷ es) = now ∷ sent_at now es
sent_at now (sets_timeout d ∷ es) = sent_at now es

abbrev pub clock : Event → ℕ
clock (input now later handle msg) = now
clock (timer now later handle) = now
clock (request interval_ms) = 0

-- The times of all datagrams that a run sends, in order.
abbrev pub send_times : List Event → Throttle → List ℕ
send_times [] t = []
send_times (e ∷ es) t = sent_at (clock e) (step e t).1 ++ send_times es (step e t).0

abbrev pub floor_us : ℕ
floor_us = 4000

-- Each time is at least the floor after the one before it, the first after `last`.
abbrev pub Spaced : ℕ → List ℕ → Type 0
Spaced last [] = Unit {0}
Spaced last (time ∷ times) = (last + floor_us ≤ time) × Spaced time times

-- One event sends nothing and leaves the time of the last send, or it sends one datagram at its
-- own time, an interval after the last send, and records that.
abbrev OneSend : Throttle → ℕ → List ℕ → Throttle → Type 0
OneSend t now times u =
    (times ≡ []) × (u.last_send ≡ t.last_send)
    ⊎ (times ≡ now ∷ []) × (u.last_send ≡ now) × (t.last_send + t.interval ≤ now)

schedule_flush-quiet :
    (now later handle : ℕ) (t : Throttle)
    → (sent_at now (schedule_flush later handle t).1 ≡ [])
      × ((schedule_flush later handle t).0.last_send ≡ t.last_send)
      × ((schedule_flush later handle t).0.interval ≡ t.interval)
unfolding schedule_flush arm_flush
schedule_flush-quiet now later handle t = ground arith

due-interval :
    (now : ℕ) (t : Throttle)
    → floor_us ≤ t.interval
    → due now t ≡ true
    → t.last_send + t.interval ≤ now
unfolding due
due-interval now t h e = ground (arith, h)

take_due-OneSend :
    (now : ℕ) (t : Throttle)
    → floor_us ≤ t.interval
    → OneSend t now (sent_at now (send_taken (take_due now t).1)) (take_due now t).0
      × ((take_due now t).0.interval ≡ t.interval)
unfolding take_due
take_due-OneSend now t h = elim (Bool-cases (due now t)) [
  | inl e ↦ rw e (front now t.pending t (due-interval now t h e))
  | inr e ↦ rw e (inl (refl, refl), refl)
]
  where
    front :
        (now : ℕ) (q : List ClientDatagram) (t : Throttle)
        → t.last_send + t.interval ≤ now
        → OneSend t now (sent_at now (send_taken (take_front now q t).1)) (take_front now q t).0
          × ((take_front now q t).0.interval ≡ t.interval)
    front now [] t h = (inl (refl, refl), refl)
    front now (m ∷ q) t h = (inr (refl, refl, h), refl)

sent_at-append :
    (now : ℕ) (es fs : List Effect) → sent_at now (es ++ fs) ≡ sent_at now es ++ sent_at now fs
sent_at-append now [] fs = refl
sent_at-append now (sends m ∷ es) fs = ap (λ l. now ∷ l) (sent_at-append now es fs)
sent_at-append now (sets_timeout d ∷ es) fs = sent_at-append now es fs

flush_pending-OneSend :
    (now later handle : ℕ) (t : Throttle)
    → floor_us ≤ t.interval
    → OneSend t now
        (sent_at now (flush_pending now later handle t).1)
        (flush_pending now later handle t).0
      × ((flush_pending now later handle t).0.interval ≡ t.interval)
unfolding flush_pending
flush_pending-OneSend now later handle t h =
    let s : Throttle = record t { flush_id = none } in
    let u : Throttle = (take_due now s).0 in
    let quiet = schedule_flush-quiet now later handle u in
    let sent = take_due-OneSend now s h in
    rw
      (
        sent_at-append now (send_taken (take_due now s).1) (schedule_flush later handle u).1,
        quiet.0,
        append-nil (sent_at now (send_taken (take_due now s).1)),
        quiet.1,
        quiet.2,
      )
      sent

step-OneSend :
    (e : Event) (t : Throttle)
    → floor_us ≤ t.interval
    → OneSend t (clock e) (sent_at (clock e) (step e t).1) (step e t).0
      × (floor_us ≤ (step e t).0.interval)
unfolding step send_input set_throttle effective_interval_ms enqueue
step-OneSend (input now later handle msg) t h = elim (Bool-cases (due now t)) [
  | inl e ↦ rw e (inr (refl, refl, due-interval now t h e), h)
  | inr e ↦
      let quiet = schedule_flush-quiet now later handle (enqueue msg t) in
      rw (e, quiet.2) (inl (quiet.0, quiet.1), h)
]
step-OneSend (timer now later handle) t h =
    let sent = flush_pending-OneSend now later handle t h in
    (sent.0, subst (λ i. floor_us ≤ i) (sym sent.1) h)
step-OneSend (request interval_ms) t h = (inl (refl, refl), omega arith)

Spaced-OneSend :
    (t u : Throttle) (now : ℕ) (times later : List ℕ)
    → floor_us ≤ t.interval
    → OneSend t now times u
    → Spaced u.last_send later
    → Spaced t.last_send (times ++ later)
Spaced-OneSend t u now times later h (inl (e, l)) k = rw e (subst (λ last. Spaced last later) l k)
Spaced-OneSend t u now times later h (inr (e, l, d)) k =
    rw e (omega (arith, d, h), subst (λ last. Spaced last later) l k)

run-Spaced :
    (es : List Event) (t : Throttle) → floor_us ≤ t.interval → Spaced t.last_send (send_times es t)
run-Spaced [] t h = tt
run-Spaced (e ∷ es) t h =
    let one = step-OneSend e t h in
    Spaced-OneSend t (step e t).0 (clock e) (sent_at (clock e) (step e t).1)
      (send_times es (step e t).0) h one.0 (run-Spaced es (step e t).0 one.1)

-- Over any run of a fresh page, with whatever requests of the server and whatever readings of the
-- clock, each datagram is sent at least 4 ms after the one before it, whether it is sent straight
-- through or from the queue.
pub send_times-Spaced : (es : List Event) → Spaced 0 (send_times es new)
unfolding new
send_times-Spaced es = run-Spaced es new (omega arith)
