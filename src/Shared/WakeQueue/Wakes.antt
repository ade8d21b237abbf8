-- ===== src/Shared/WakeQueue/Wakes.antt =====
-- The wakers of a wake queue.
use webshooter.Base.{
  ℕ, ◌≡◌, ◌⊎◌, inl, inr, refl, ap, ◌∙◌, arith, Bool, true, false, List, [], ◌∷◌, ◌++◌, map, ◌==◌,
  any,
}
use webshooter.Shared.WakeQueue.{
  Inner, pending, Event, pushes, closes, polls, push, close, poll_pop, step, run, woken,
}

-- `w` would be woken by a wake of this list.
abbrev pub has : ℕ → List ℕ → Bool
has w ws = any (λ v. v == w) ws

has-append : (w : ℕ) (a b : List ℕ) → has w a ≡ true → has w (a ++ b) ≡ true
has-append w [] b h = cc
has-append w (v ∷ a) b h = ground (arith, has-append w a b)

has-append_self : (w : ℕ) (a : List ℕ) → has w (a ++ w ∷ []) ≡ true
has-append_self w [] = ground arith
has-append_self w (v ∷ a) = ground (arith, has-append_self w a)

-- No consumer is parked while an item waits or after the close.
pub record NoneParked {ℓ} {T : Type ℓ} (q : Inner T) : Type ℓ where
  pub on_items : (q.items ≡ []) ⊎ (q.wakers ≡ [])
  pub on_close : (q.closed ≡ false) ⊎ (q.wakers ≡ [])

module _ {ℓ} {T : Type ℓ} where
  -- Every event keeps the wakers of parked consumers apart from items and from the close, so that
  -- nobody sleeps on a queue that has something to say.
  pub step-NoneParked : (e : Event T) (q : Inner T) → NoneParked q → NoneParked (step e q)
  unfolding push close poll_pop
  step-NoneParked (pushes item) q h = record {
    on_items = ground (arith, h.on_close);
    on_close = ground (arith, h.on_close);
  }
  step-NoneParked closes q h = record { on_items = inr refl; on_close = inr refl }
  step-NoneParked (polls w) q h = record {
    on_items = ground (arith, h.on_items);
    on_close = ground (arith, h.on_close, h.on_items);
  }

  -- A consumer that is told `Pending` is parked, under one entry however often it polls.
  pub pending-parks :
      (w : ℕ) (q : Inner T) → (poll_pop w q).1 ≡ pending → has w (poll_pop w q).0.wakers ≡ true
  unfolding poll_pop
  pending-parks w q e = ground (arith, has-append_self w q.wakers)

  -- A parked consumer stays parked until an event wakes it.
  pub step-keeps_waker :
      (e : Event T) (q : Inner T) (w : ℕ)
      → has w q.wakers ≡ true
      → (has w (step e q).wakers ≡ true) ⊎ (has w (woken e q) ≡ true)
  unfolding push close poll_pop
  step-keeps_waker (pushes item) q w h = ground arith
  step-keeps_waker closes q w h = inr h
  step-keeps_waker (polls v) q w h = ground (arith, has-append w q.wakers (v ∷ []))

  closed-poll : (v : ℕ) (q : Inner T) → (poll_pop v q).0.closed ≡ q.closed
  unfolding poll_pop
  closed-poll v q = ground arith

  pending-open :
      (w : ℕ) (q : Inner T) → (poll_pop w q).1 ≡ pending → (poll_pop w q).0.closed ≡ false
  unfolding poll_pop
  pending-open w q e = ground arith

  polls-keep :
      (vs : List ℕ) (q : Inner T) (w : ℕ)
      → has w q.wakers ≡ true
      → q.closed ≡ false
      → (has w (run (map polls vs) q).wakers ≡ true) × ((run (map polls vs) q).closed ≡ false)
  polls-keep [] q w h c = (h, c)
  polls-keep (v ∷ vs) q w h c = elim (step-keeps_waker (polls v) q w h) [
    | inl k ↦ polls-keep vs (poll_pop v q).0 w k (closed-poll v q ∙ c)
    | inr k ↦ absurd (cc)
  ]

  wakes_all :
      (q : Inner T) (item : T)
      → q.closed ≡ false
      → (woken (pushes item) q ≡ q.wakers) × (woken closes q ≡ q.wakers)
  unfolding push close
  wakes_all q item c = ground arith

  -- A consumer that polled and was told `Pending` is woken by the next push, and by the next
  -- close, however many other polls come in between.
  pub no_lost_wakeup :
      (w : ℕ) (q : Inner T) (vs : List ℕ) (item : T)
      → (poll_pop w q).1 ≡ pending
      → let later = run (map polls vs) (poll_pop w q).0 in
        (has w (woken (pushes item) later) ≡ true) × (has w (woken closes later) ≡ true)
  no_lost_wakeup w q vs item e =
      let q' = (poll_pop w q).0 in
      let (h, c) = polls-keep vs q' w (pending-parks w q e) (pending-open w q e) in
      let (p, k) = wakes_all (run (map polls vs) q') item c in (ap (has w) p ∙ h, ap (has w) k ∙ h)
