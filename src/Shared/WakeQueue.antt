-- ===== src/Shared/WakeQueue.antt =====
-- shared/src/wake_queue.rs: a queue that parks the wakers of its consumers. Each method runs under
-- the queue's lock, so that it is one step on the inner state. A waker is a number; `will_wake` is
-- equality. Waking happens after the lock is dropped: a step returns the wakers that it wakes.
pub mod Fifo
pub mod Wakes
use webshooter.Base.{
  ℕ, Bool, true, false, List, [], ◌∷◌, ◌++◌, Option, none, some, ◌==◌, if◌then◌else◌, any,
}

pub data Poll {ℓ} (A : Type ℓ) : Type ℓ where
  pending : Poll A
  ready : A → Poll A

module _ {ℓ} where
  pub record Inner (T : Type ℓ) : Type ℓ where
    pub items : List T
    pub wakers : List ℕ
    pub closed : Bool

module _ {ℓ} {T : Type ℓ} where
  unfoldable pub new : Inner T
  new = record { items = []; wakers = []; closed = false }

  unfoldable pub push : T → Inner T → Inner T × List ℕ
  push item q =
      if q.closed
      then (q, [])
      else (record q { items = q.items ++ item ∷ []; wakers = [] }, q.wakers)

  unfoldable pub close : Inner T → Inner T × List ℕ
  close q = (record q { closed = true; wakers = [] }, q.wakers)

  -- The queue after a pop that found nothing.
  park : ℕ → Inner T → Inner T
  park waker q =
      if any (λ w. w == waker) q.wakers then q else record q { wakers = q.wakers ++ waker ∷ [] }

  unfoldable pub pop_from : List T → ℕ → Inner T → Inner T × Poll (Option T)
  unfolding park
  pop_from (item ∷ rest) waker q = (record q { items = rest }, ready (some item))
  pop_from [] waker q = if q.closed then (q, ready none) else (park waker q, pending)

  unfoldable pub poll_pop : ℕ → Inner T → Inner T × Poll (Option T)
  unfolding pop_from
  poll_pop waker q = pop_from q.items waker q

-- What the holders of a queue do to it, in the order in which they take its lock.
pub data Event {ℓ} (T : Type ℓ) : Type ℓ where
  pushes : T → Event T
  closes : Event T
  polls : ℕ → Event T

module _ {ℓ} {T : Type ℓ} where
  abbrev pub step : Event T → Inner T → Inner T
  step (pushes item) q = (push item q).0
  step closes q = (close q).0
  step (polls w) q = (poll_pop w q).0

  -- The wakers that an event wakes, and the items that it hands to a consumer.
  abbrev pub woken : Event T → Inner T → List ℕ
  woken (pushes item) q = (push item q).1
  woken closes q = (close q).1
  woken (polls w) q = []

  abbrev pub taken : Poll (Option T) → List T
  taken (ready (some item)) = item ∷ []
  taken p = []

  abbrev pub delivered : Event T → Inner T → List T
  delivered (polls w) q = taken (poll_pop w q).1
  delivered e q = []

  abbrev pub run : List (Event T) → Inner T → Inner T
  run [] q = q
  run (e ∷ es) q = run es (step e q)

  abbrev pub all_delivered : List (Event T) → Inner T → List T
  all_delivered [] q = []
  all_delivered (e ∷ es) q = delivered e q ++ all_delivered es (step e q)
