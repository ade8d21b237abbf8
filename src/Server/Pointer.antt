-- ===== src/Server/Pointer.antt =====
-- server/src/pipewire/pointer.rs: mouse state and buttons.
pub mod Edges
use webshooter.Base.{ℕ, ◌+◌, ◌^◌, Bool, true, false, Option, none, some, leb, ◌==◌, if◌then◌else◌}
use webshooter.Base.Int.{ℤ, pos, pos_part, neg_part, ◌==ℤ◌}

-- Positions are `i32`, motions `i16`; the cast of a motion to `f32` is exact.
pub record MouseState : Type 0 where
  pub last_pos : Option (ℤ × ℤ)
  pub last_dx : ℤ
  pub last_dy : ℤ
  pub motion_sent : Bool

abbrev pub new_mouse : MouseState
new_mouse = record { last_pos = none; last_dx = pos 0; last_dy = pos 0; motion_sent = false }

unfoldable pub handle_move : ℤ → ℤ → MouseState → MouseState × (ℤ × ℤ)
handle_move dx dy s = (record s { last_dx = dx; last_dy = dy; motion_sent = true }, (dx, dy))

abbrev pub unsigned_abs : ℤ → ℕ
unsigned_abs a = pos_part a + neg_part a

hit_from : Option (ℤ × ℤ) → MouseState → ℤ → ℤ → Bool
hit_from none s x y = false
hit_from (some prev) s x y =
    if s.motion_sent
    then (if leb (unsigned_abs s.last_dy) (unsigned_abs s.last_dx)
        then x ==ℤ prev.0
        else y ==ℤ prev.1)
    else false

unfoldable pub update_compositor_pos : ℤ → ℤ → MouseState → MouseState × Bool
unfolding hit_from
update_compositor_pos x y s =
    (record s { last_pos = some (x, y); motion_sent = false }, hit_from s.last_pos s x y)

abbrev pub btn_left : ℕ
btn_left = 0x110

abbrev pub btn_right : ℕ
btn_right = 0x111

abbrev pub btn_middle : ℕ
btn_middle = 0x112

unfoldable pub web_button_to_linux : ℕ → ℕ
web_button_to_linux button =
    if button == 0
    then btn_left
    else if button == 1
    then btn_middle
    else if button == 2
    then btn_right
    else 0x100 + button
