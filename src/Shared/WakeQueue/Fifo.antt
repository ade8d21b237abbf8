-- ===== src/Shared/WakeQueue/Fifo.antt =====
-- The items of a wake queue against an abstract queue that can be closed.
use webshooter.Base.{
  ◌≡◌, ap, ◌∙◌, arith, Bool, true, false, List, [], ◌∷◌, ◌++◌, append-nil, append_assoc,
}
use webshooter.Shared.WakeQueue.{
  Inner, Event, pushes, closes, polls, new, push, close, poll_pop, step, run, delivered,
  all_delivered,
}

-- The items that the queue takes in: what is pushed before the first close.
abbrev pub accepted {ℓ} : {T : Type ℓ} → Bool → List (Event T) → List T
accepted true es = []
accepted false [] = []
accepted false (pushes item ∷ es) = item ∷ accepted false es
accepted false (closes ∷ es) = []
accepted false (polls w ∷ es) = accepted false es

module _ {ℓ} {T : Type ℓ} where
  -- One event: what it hands out, what it leaves and what is still to come.
  one_event :
      (e : Event T) (es : List (Event T)) (q : Inner T)
      → delivered e q ++ ((step e q).items ++ accepted (step e q).closed es)
        ≡ q.items ++ accepted q.closed (e ∷ es)
  unfolding push close poll_pop
  one_event (pushes item) es q =
      ground (arith, append_assoc q.items (item ∷ []) (accepted false es))
  one_event closes es q = ground arith
  one_event (polls w) es q = ground arith

  -- From any state: what is delivered, followed by what is left, is what was there, followed by
  -- what was taken in.
  fifo_from :
      (es : List (Event T)) (q : Inner T)
      → all_delivered es q ++ (run es q).items ≡ q.items ++ accepted q.closed es
  fifo_from [] q = ground (arith, append-nil q.items)
  fifo_from (e ∷ es) q =
      append_assoc (delivered e q) (all_delivered es (step e q)) (run es (step e q)).items
      ∙ ap (λ l. delivered e q ++ l) (fifo_from es (step e q))
      ∙ one_event e es q

  -- Whatever the order of pushes, closes and polls, the items handed to the consumers, followed by
  -- those still queued, are exactly the items pushed before the first close, in that order: none
  -- is lost, duplicated or reordered, and none pushed after the close is ever delivered.
  pub fifo : (es : List (Event T)) → all_delivered es new ++ (run es new).items ≡ accepted false es
  unfolding new
  fifo es = fifo_from es new
