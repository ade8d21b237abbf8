-- ===== src/Webui/Throttle/Drain.antt =====
-- How the queue of webui/wasm/src/throttle.rs empties, and what it loses.
use webshooter.Base.{
  ℕ, suc, ◌≡◌, ◌≢◌, ◌⊎◌, inl, inr, ◌≤◌, ◌+◌, refl, arith, true, List, [], ◌∷◌, none, length, map,
  drop, sym, ap,
}
use webshooter.Shared.ClientDatagram.{ClientDatagram}
use webshooter.Shared.ClientDatagram.Coalesce.{coalesce_input, Queue}
use webshooter.Shared.ClientDatagram.Coalesce.Size.{length-coalesce_input}
use webshooter.Webui.Throttle.{
  Throttle, Effect, sends, sets_timeout, enqueue, flush_pending, schedule_flush, take_due, due,
  arm_flush, pop_excess, max_pending,
}

pop_excess-fits : (q : Queue) → length q ≤ max_pending → pop_excess q ≡ q
unfolding pop_excess
pop_excess-fits [] h = refl
pop_excess-fits (m ∷ q) h = ground (arith, h)

pop_excess-over : (q : Queue) → length q ≡ suc max_pending → pop_excess q ≡ drop 1 q
unfolding pop_excess
pop_excess-over [] h = refl
pop_excess-over (m ∷ q) h = ground (arith, h, pop_excess-fits q (omega (arith, h)))

-- On a queue of at most 32 entries, queueing a message is `coalesce_input`; only where that gives
-- 33 entries is one lost, and that is the oldest.
pub pending-enqueue :
    (msg : ClientDatagram) (t : Throttle)
    → length t.pending ≤ max_pending
    → ((enqueue msg t).pending ≡ coalesce_input t.pending msg)
      ⊎ (length (coalesce_input t.pending msg) ≡ suc max_pending)
        × ((enqueue msg t).pending ≡ drop 1 (coalesce_input t.pending msg))
unfolding enqueue
pending-enqueue msg t h =
    elim (le-or (length (coalesce_input t.pending msg)) (length-coalesce_input t.pending msg)) [
      | inl k ↦ inl (pop_excess-fits (coalesce_input t.pending msg) k)
      | inr k ↦ inr (k, pop_excess-over (coalesce_input t.pending msg) k)
    ]
  where
    le-or : (n : ℕ) → n ≤ suc (length t.pending) → (n ≤ max_pending) ⊎ (n ≡ suc max_pending)
    le-or n k = ground (arith, h, k)

-- The datagrams among effects.
abbrev pub sent : List Effect → List ClientDatagram
sent [] = []
sent (sends m ∷ es) = m ∷ sent es
sent (sets_timeout d ∷ es) = sent es

-- The timer fires at these times, and nothing else happens: what each time sends.
abbrev pub ticks : List ℕ → ℕ → Throttle → Throttle × List (List ClientDatagram)
ticks [] handle t = (t, [])
ticks (now ∷ times) handle t =
    let r = flush_pending now now handle t in
    let later = ticks times handle r.0 in (later.0, sent r.1 ∷ later.1)

-- Each time is at least `interval` after the one before it, the first after `last`.
abbrev pub Apart : ℕ → ℕ → List ℕ → Type 0
Apart interval last [] = Unit {0}
Apart interval last (time ∷ times) = (last + interval ≤ time) × Apart interval time times

schedule_flush-same :
    (now handle : ℕ) (t : Throttle)
    → (sent (schedule_flush now handle t).1 ≡ [])
      × ((schedule_flush now handle t).0.pending ≡ t.pending)
      × ((schedule_flush now handle t).0.last_send ≡ t.last_send)
      × ((schedule_flush now handle t).0.interval ≡ t.interval)
unfolding schedule_flush arm_flush
schedule_flush-same now handle t = ground arith

due-after : (now : ℕ) (t : Throttle) → t.last_send + t.interval ≤ now → due now t ≡ true
unfolding due
due-after now t h = ground (arith, h)

flush_pending-front :
    (now handle : ℕ) (m : ClientDatagram) (q : Queue) (t : Throttle)
    → t.last_send + t.interval ≤ now
    → t.pending ≡ m ∷ q
    → (sent (flush_pending now now handle t).1 ≡ m ∷ [])
      × ((flush_pending now now handle t).0.pending ≡ q)
      × ((flush_pending now now handle t).0.last_send ≡ now)
      × ((flush_pending now now handle t).0.interval ≡ t.interval)
unfolding flush_pending take_due
flush_pending-front now handle m q t h e =
    rw (due-after now (record t { flush_id = none }) h, e)
      (let same =
          schedule_flush-same now handle
            (record t { flush_id = none; pending = q; last_send = now }) in
        (ap (λ l. m ∷ l) same.0, same.1, same.2, same.3))

not_suc : (n : ℕ) → suc n ≢ 0
not_suc n = omega arith

ticks-drain :
    (times : List ℕ) (q : Queue) (handle : ℕ) (t : Throttle)
    → t.pending ≡ q
    → length times ≡ length q
    → Apart t.interval t.last_send times
    → ((ticks times handle t).1 ≡ map (λ m. m ∷ []) q) × ((ticks times handle t).0.pending ≡ [])
ticks-drain [] [] handle t e l a = (refl, e)
ticks-drain [] (m ∷ q) handle t e l a = elim (not_suc (length q) (sym l)) [ ]
ticks-drain (now ∷ times) [] handle t e l a = elim (not_suc (length times) l) [ ]
ticks-drain (now ∷ times) (m ∷ q) handle t e l a =
    let front = flush_pending-front now handle m q t a.0 e in
    let u = (flush_pending now now handle t).0 in
    let rest =
      ticks-drain times q handle u front.1 (omega (arith, l)) (rw (front.2, front.3) a.1) in
    (rw front.0 (ap (λ l. (m ∷ []) ∷ l) rest.0), rest.1)

-- A timer that fires as often as there are entries, each time an interval later or more, sends
-- one waiting entry each time it fires, in their order, and leaves the queue empty.
pub ticks-pending :
    (times : List ℕ) (handle : ℕ) (t : Throttle)
    → length times ≡ length t.pending
    → Apart t.interval t.last_send times
    → ((ticks times handle t).1 ≡ map (λ m. m ∷ []) t.pending)
      × ((ticks times handle t).0.pending ≡ [])
ticks-pending times handle t l a = ticks-drain times t.pending handle t refl l a
