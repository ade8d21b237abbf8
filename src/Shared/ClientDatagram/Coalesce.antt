-- ===== src/Shared/ClientDatagram/Coalesce.antt =====
-- `coalesce_input` of shared/src/client_datagram.rs: one message folded into a queue of pending
-- input, oldest first. Where the code looks for an entry and writes to it, there is a test for the
-- entry and a function that writes.
pub mod Views
pub mod Order
pub mod Motion
pub mod Touch
pub mod Size
use webshooter.Base.{ℕ, Bool, true, false, List, [], ◌∷◌, ◌++◌, reverse, ◌==◌, if◌then◌else◌}
use webshooter.Base.Int.{ℤ, saturating_add_16, saturating_add_32}
use webshooter.Shared.ClientDatagram.{
  ClientDatagram, Snapshot, touchscreen, touchscreen_release, gamepad, mouse_move, scroll,
}

abbrev pub Queue : Type 0
Queue = List ClientDatagram

-- The oldest pending move, and the sum written to it.
pub has_move : Queue → Bool
has_move [] = false
has_move (mouse_move px py ∷ q) = true
has_move (m ∷ q) = has_move q

pub add_move : ℤ → ℤ → Queue → Queue
add_move dx dy [] = []
add_move dx dy (mouse_move px py ∷ q) =
    mouse_move (saturating_add_16 px dx) (saturating_add_16 py dy) ∷ q
add_move dx dy (m ∷ q) = m ∷ add_move dx dy q

pub has_scroll : Queue → Bool
has_scroll [] = false
has_scroll (scroll px py ∷ q) = true
has_scroll (m ∷ q) = has_scroll q

pub add_scroll : ℤ → ℤ → Queue → Queue
add_scroll dx dy [] = []
add_scroll dx dy (scroll px py ∷ q) = scroll (saturating_add_32 px dx) (saturating_add_32 py dy) ∷ q
add_scroll dx dy (m ∷ q) = m ∷ add_scroll dx dy q

-- The scan from the newest entry back: it finds a position of the slot, or stops at its release.
-- These two go over the queue newest first.
pub has_touch : ℕ → Queue → Bool
has_touch index [] = false
has_touch index (touchscreen i px py ∷ r) = if i == index then true else has_touch index r
has_touch index (touchscreen_release i ∷ r) = if i == index then false else has_touch index r
has_touch index (m ∷ r) = has_touch index r

pub set_touch : ℕ → ℕ → ℕ → Queue → Queue
set_touch index x y [] = []
set_touch index x y (touchscreen i px py ∷ r) =
    if i == index then touchscreen i x y ∷ r else touchscreen i px py ∷ set_touch index x y r
set_touch index x y (m ∷ r) = m ∷ set_touch index x y r

-- The newest entry is a snapshot of this controller.
pub ends_in_gamepad : ℕ → Queue → Bool
ends_in_gamepad id (gamepad p ∷ r) = p.id == id
ends_in_gamepad id r = false

pub replace_newest : ClientDatagram → Queue → Queue
replace_newest msg [] = []
replace_newest msg (m ∷ r) = msg ∷ r

abbrev pub push_back : Queue → ClientDatagram → Queue
push_back q msg = q ++ msg ∷ []

unfoldable pub coalesce_input : Queue → ClientDatagram → Queue
unfolding has_move add_move has_scroll add_scroll has_touch set_touch ends_in_gamepad replace_newest
coalesce_input q (mouse_move dx dy) =
    if has_move q then add_move dx dy q else push_back q (mouse_move dx dy)
coalesce_input q (scroll dx dy) =
    if has_scroll q then add_scroll dx dy q else push_back q (scroll dx dy)
coalesce_input q (touchscreen index x y) =
    if has_touch index (reverse q)
    then reverse (set_touch index x y (reverse q))
    else push_back q (touchscreen index x y)
coalesce_input q (gamepad s) =
    if ends_in_gamepad s.id (reverse q)
    then reverse (replace_newest (gamepad s) (reverse q))
    else push_back q (gamepad s)
coalesce_input q msg = push_back q msg
