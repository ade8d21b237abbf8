-- ===== src/Webui/Throttle/Bounds.antt =====
-- The size of the queue of webui/wasm/src/throttle.rs, and its timer.
use webshooter.Base.{
  ℕ, ◌≡◌, ◌⊎◌, inl, inr, ◌≤◌, refl, arith, true, List, [], ◌∷◌, none, length, Bool-cases, subst,
  sym,
}
use webshooter.Shared.ClientDatagram.{ClientDatagram}
use webshooter.Shared.ClientDatagram.Coalesce.{coalesce_input}
use webshooter.Webui.Throttle.{
  Throttle, Event, input, timer, request, new, pop_excess, enqueue, step, run, is_some, is_empty,
  send_input, flush_pending, schedule_flush, take_due, take_front, due, set_throttle, arm_flush,
  max_pending,
}

length-pop_excess : (q : List ClientDatagram) → length (pop_excess q) ≤ max_pending
unfolding pop_excess
length-pop_excess [] = omega arith
length-pop_excess (m ∷ q) = ground (arith, length-pop_excess q)

-- A queue within the bound, and a timer whenever something waits.
pub record IsSound (t : Throttle) : Type 0 where
  pub bounded : length t.pending ≤ max_pending
  pub armed : (is_empty t.pending ≡ true) ⊎ (is_some t.flush_id ≡ true)

new-IsSound : IsSound new
unfolding new
new-IsSound = record { bounded = omega arith; armed = inl refl }

schedule_flush-armed :
    (later handle : ℕ) (t : Throttle)
    → (is_empty (schedule_flush later handle t).0.pending ≡ true)
      ⊎ (is_some (schedule_flush later handle t).0.flush_id ≡ true)
unfolding schedule_flush arm_flush
schedule_flush-armed later handle t = ground arith

schedule_flush-pending :
    (later handle : ℕ) (t : Throttle) → (schedule_flush later handle t).0.pending ≡ t.pending
unfolding schedule_flush arm_flush
schedule_flush-pending later handle t = ground arith

schedule_flush-IsSound :
    (later handle : ℕ) (t : Throttle)
    → length t.pending ≤ max_pending
    → IsSound (schedule_flush later handle t).0
schedule_flush-IsSound later handle t h = record {
  bounded = subst (λ q. length q ≤ max_pending) (sym (schedule_flush-pending later handle t)) h;
  armed = schedule_flush-armed later handle t;
}

take_due-bounded :
    (now : ℕ) (t : Throttle)
    → length t.pending ≤ max_pending
    → length (take_due now t).0.pending ≤ max_pending
unfolding take_due
take_due-bounded now t h = elim (Bool-cases (due now t)) [
  | inl e ↦ rw e (take_front-bounded now t.pending t h h)
  | inr e ↦ rw e h
]
  where
    take_front-bounded :
        (now : ℕ) (q : List ClientDatagram) (t : Throttle)
        → length q ≤ max_pending
        → length t.pending ≤ max_pending
        → length (take_front now q t).0.pending ≤ max_pending
    take_front-bounded now [] t h k = k
    take_front-bounded now (m ∷ q) t h k = omega (arith, h)

-- Each event leaves at most 32 entries waiting, and a timer wherever an entry waits.
pub step-IsSound : (e : Event) (t : Throttle) → IsSound t → IsSound (step e t).0
unfolding step send_input flush_pending set_throttle enqueue
step-IsSound (input now later handle msg) t h = elim (Bool-cases (due now t)) [
  | inl e ↦ rw e (record { bounded = h.bounded; armed = h.armed })
  | inr e ↦ rw e (
      schedule_flush-IsSound later handle (enqueue msg t)
        (length-pop_excess (coalesce_input t.pending msg)))
]
step-IsSound (timer now later handle) t h =
    schedule_flush-IsSound later handle (take_due now (record t { flush_id = none })).0
      (take_due-bounded now (record t { flush_id = none }) h.bounded)
step-IsSound (request interval_ms) t h = record { bounded = h.bounded; armed = h.armed }

run-keeps : (es : List Event) (t : Throttle) → IsSound t → IsSound (run es t)
run-keeps [] t h = h
run-keeps (e ∷ es) t h = run-keeps es (step e t).0 (step-IsSound e t h)

-- After any events from a fresh page, at most 32 entries wait, and a timer is set wherever an
-- entry waits, so that no entry is left behind.
pub run-IsSound : (es : List Event) → IsSound (run es new)
run-IsSound es = run-keeps es new new-IsSound
