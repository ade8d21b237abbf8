-- ===== src/Tests/Compositor.antt =====
-- What reaches the compositor: server/src/pipewire.
use webshooter.Base.{
  ℕ, ◌≡◌, ◌≢◌, ◌≤◌, ◌<◌, ◌+◌, ◌-◌, ◌*◌, refl, arith, Bool, true, false, List, [], ◌∷◌, some, none,
  if◌then◌else◌, ◌==◌,
}
use webshooter.Base.Int.{pos}
use webshooter.Shared.ClientDatagram.{
  ClientDatagram, touchscreen, touchscreen_release, mouse_button,
}
use webshooter.Server.Touch.{
  down, up, slot_base, shift_slots, touch_slot, slots_per_session, InputRegion, input_space,
  is_same_shape,
}
use webshooter.Server.Touch.Slots.{shift_slots_apart}
use webshooter.Server.Touch.Protocol.{TouchInput, touches, releases}
use webshooter.Server.Keyboard.{Flags}
use webshooter.Server.Keyboard.Codes.{key_leftctrl, key_leftshift}
use webshooter.Server.Keyboard.Modifiers.{Shows}
use webshooter.Server.InputCoalesce.{Pending, push, values}
use webshooter.Server.InputCoalesce.Sound.{IsSound}
use webshooter.Server.InputCoalesce.Fingers.{finger, push_all, finger-values}
use webshooter.Server.InputCoalesce.Budget.{
  Budget, full_at, token, input_burst, input_rate_per_sec, total_granted, total_granted-rate,
}

abbrev three_mbit : ℕ
three_mbit = 3000

first_shifts : shift_slots (down 5 6 63) (slot_base 1) ≡ some (down 5 6 127)
unfolding shift_slots slot_base
first_shifts = refl

second_shifts : shift_slots (up 0) (slot_base 2) ≡ some (up 128)
unfolding shift_slots slot_base
second_shifts = refl

shift_slots_apart_example :
    (touch_slot (down 5 6 127) ≢ touch_slot (up 128))
    × (touch_slot (down 5 6 63) < slots_per_session)
shift_slots_apart_example =
    shift_slots_apart 1 2 (down 5 6 63) (up 0) (down 5 6 127) (up 128) (omega arith) (omega arith)
      (omega arith) first_shifts second_shifts

-- Two fingers, one of which moves and is lifted twice.
abbrev two_fingers : List TouchInput
two_fingers = touches 0 10 10 ∷ touches 1 30 30 ∷ touches 0 11 12 ∷ releases 0 ∷ releases 0 ∷ []

abbrev ctrl_shift : Flags
ctrl_shift = record { shift = true; ctrl = true; alt = false; meta = false }

abbrev alt_shift : Flags
alt_shift = record { shift = true; ctrl = false; alt = true; meta = false }

-- The compositor holds Control and Shift.
abbrev held_ctrl_shift : ℕ → Bool
held_ctrl_shift k = if k == key_leftctrl then true else k == key_leftshift

Shows-ctrl_shift : Shows ctrl_shift held_ctrl_shift
Shows-ctrl_shift = record { ctrl = refl; shift = refl; alt = refl; meta = refl }

-- Two screens side by side.
abbrev left_screen : InputRegion
left_screen = record { w = 1920; h = 1080; x = pos 0; y = pos 0 }

abbrev right_screen : InputRegion
right_screen = record { w = 1280; h = 720; x = pos 1920; y = pos 0 }

abbrev screens : List InputRegion
screens = left_screen ∷ right_screen ∷ []

right_picked : input_space screens (1280, 720) (pos 1920, pos 0) ≡ some right_screen
unfolding input_space is_same_shape
right_picked = refl

-- A session that has just begun.
new_session : IsSound []
new_session = record { distinct = tt; keyed = tt }

abbrev one_finger : Pending
one_finger = push (touchscreen 1 5 5) []

-- A finger that goes down, is lifted and goes down elsewhere, all in one window.
abbrev tap_and_press : List ClientDatagram
tap_and_press = touchscreen 1 5 5 ∷ touchscreen_release 1 ∷ touchscreen 1 90 8 ∷ []

finger-values_example :
    finger 1 (values (push_all tap_and_press [])) none ≡ finger 1 tap_and_press none
finger-values_example = finger-values 1 tap_and_press none

-- A click within one window: the press is lost.
click_lost :
    values (push_all (mouse_button 0 true ∷ mouse_button 0 false ∷ []) [])
    ≡ mouse_button 0 false ∷ []
unfolding push
click_lost = refl

abbrev wanted : ℕ
wanted = 5

abbrev spent : Budget
spent = record { tokens = 0; last = 0 }

abbrev greedy : List (ℕ × ℕ)
greedy = (40, 0) ∷ (40, 1000000) ∷ (0, 1000000) ∷ (40, 9000000) ∷ []

total_granted-rate_example :
    total_granted greedy (full_at 0) * token ≤ input_burst + (9000000 - 0) * input_rate_per_sec
total_granted-rate_example = total_granted-rate greedy 0 9000000 (ground arith)
