-- ===== src/Tests/Queues.antt =====
-- The queues of pending input and the wake queue of shared/src.
use webshooter.Base.{ℕ, ◌≡◌, refl, arith, true, false, List, [], ◌∷◌, ◌++◌, map}
use webshooter.Base.Int.{◌+ℤ◌, pos, negsuc}
use webshooter.Shared.ClientDatagram.{touchscreen, mouse_move, mouse_button}
use webshooter.Shared.ClientDatagram.Coalesce.{Queue, coalesce_input}
use webshooter.Shared.ClientDatagram.Coalesce.Motion.{
  NoSaturation, moves, move_of, total, add_pair, total-coalesce_input,
}
use webshooter.Shared.ClientDatagram.Coalesce.Touch.{
  track, slot_event, advance, track-coalesce_input,
}
use webshooter.Shared.WakeQueue.{
  Inner, pending, Event, pushes, closes, polls, new, poll_pop, run, woken, all_delivered,
}
use webshooter.Shared.WakeQueue.Fifo.{accepted, fifo}
use webshooter.Shared.WakeQueue.Wakes.{has, no_lost_wakeup}

-- A finger that moves, a pointer motion and a button.
abbrev waiting : Queue
waiting = touchscreen 2 10 20 ∷ mouse_move (pos 3) (negsuc 1) ∷ mouse_button 0 true ∷ []

track-coalesce_input_example :
    track 2 (coalesce_input waiting (touchscreen 2 11 21))
    ≡ advance (slot_event 2 (touchscreen 2 11 21)) (track 2 waiting)
track-coalesce_input_example = track-coalesce_input 2 waiting (touchscreen 2 11 21)

sums_fit : NoSaturation waiting (mouse_move (pos 4) (pos 5))
unfolding ◌+ℤ◌
sums_fit = (omega arith, omega arith)

total-coalesce_input_example :
    total (moves (coalesce_input waiting (mouse_move (pos 4) (pos 5))))
    ≡ add_pair (total (moves waiting)) (total (move_of (mouse_move (pos 4) (pos 5))))
total-coalesce_input_example = total-coalesce_input waiting (mouse_move (pos 4) (pos 5)) sums_fit

-- Two consumers poll an empty queue, and then an item comes.
abbrev two_polls : List (Event ℕ)
two_polls = polls 1 ∷ polls 2 ∷ polls 1 ∷ pushes 7 ∷ polls 2 ∷ closes ∷ pushes 8 ∷ []

fifo_example : all_delivered two_polls new ++ (run two_polls new).items ≡ accepted false two_polls
fifo_example = fifo two_polls

abbrev empty_queue : Inner ℕ
empty_queue = record { items = []; wakers = []; closed = false }

empty_parks : (poll_pop 1 empty_queue).1 ≡ pending
unfolding poll_pop
empty_parks = refl

no_lost_wakeup_example :
    let later = run (map polls (2 ∷ 3 ∷ [])) (poll_pop 1 empty_queue).0 in
    (has 1 (woken (pushes 7) later) ≡ true) × (has 1 (woken closes later) ≡ true)
no_lost_wakeup_example = no_lost_wakeup 1 empty_queue (2 ∷ 3 ∷ []) 7 empty_parks
