-- ===== src/Server/Touch.antt =====
-- server/src/pipewire/touch.rs: touch slots, the map from frame pixels to the desktop, and the
-- choice of the region that belongs to a stream; with `slot_base` of server/src/pipewire/eis.rs.
pub mod Slots
pub mod Protocol
pub mod Scale
pub mod Region
use webshooter.Base.{
  ℕ, ◌+◌, ◌-◌, ◌*◌, ◌/◌, ◌%◌, ◌^◌, Bool, true, false, ◌&&◌, ◌||◌, List, [], ◌∷◌, map, Option, none,
  some, ltb, leb, ◌==◌, if◌then◌else◌, min, max, any,
}
use mathlib.Core.Option
use webshooter.Base.Int.{ℤ, pos, pos_part, neg_part, ◌+ℤ◌, ◌==ℤ◌, clamp_ℤ}

abbrev pub slots_per_session : ℕ
slots_per_session = 64

pub data EisTouchEvent : Type 0 where
  down : ℕ → ℕ → ℕ → EisTouchEvent
  motion : ℕ → ℕ → ℕ → EisTouchEvent
  up : ℕ → EisTouchEvent

-- `client_id.saturating_mul(64) as u32`: the product saturates at 64 bits, and the cast wraps.
unfoldable pub slot_base : ℕ → ℕ
slot_base client_id = min (client_id * slots_per_session) (2 ^ 64 - 1) % 2 ^ 32

-- The sum of two `u32`s.
within : ℕ → ℕ → Option ℕ
within base index = if ltb index slots_per_session then some ((base + index) % 2 ^ 32) else none

unfoldable pub shift_slots : EisTouchEvent → ℕ → Option EisTouchEvent
unfolding within
shift_slots (down x y index) base = Option.map (λ i. down x y i) (within base index)
shift_slots (motion x y index) base = Option.map (λ i. motion x y i) (within base index)
shift_slots (up index) base = Option.map (λ i. up i) (within base index)

abbrev pub touch_slot : EisTouchEvent → ℕ
touch_slot (down x y index) = index
touch_slot (motion x y index) = index
touch_slot (up index) = index

-- `TouchState`: the set of slots that are down, as a list without repetitions.
abbrev pub TouchState : Type 0
TouchState = List ℕ

abbrev pub holds : ℕ → TouchState → Bool
holds index s = any (λ i. i == index) s

unfoldable pub without : ℕ → TouchState → TouchState
without index [] = []
without index (i ∷ s) = if i == index then without index s else i ∷ without index s

unfoldable pub handle_touch : ℕ → ℕ → ℕ → TouchState → TouchState × List EisTouchEvent
handle_touch index x y s =
    if holds index s then (s, motion x y index ∷ []) else (index ∷ s, down x y index ∷ [])

unfoldable pub handle_release : ℕ → TouchState → TouchState × Option EisTouchEvent
unfolding without
handle_release index s = if holds index s then (without index s, some (up index)) else (s, none)

unfoldable pub release_all : TouchState → TouchState × List EisTouchEvent
release_all s = ([], map (λ i. up i) s)

pub record CoordMap : Type 0 where
  pub frame_w : ℕ
  pub frame_h : ℕ
  pub portal_w : ℕ
  pub portal_h : ℕ

abbrev pub new_map : ℕ × ℕ → ℕ × ℕ → CoordMap
new_map frame portal = record {
  frame_w = frame.0;
  frame_h = frame.1;
  portal_w = portal.0;
  portal_h = portal.1;
}

unfoldable pub is_identity : CoordMap → Bool
is_identity m = m.frame_w == m.portal_w && m.frame_h == m.portal_h

-- The product of two `u16`s fits a `u32`, so nothing wraps before the last cast.
unfoldable pub scale : ℕ → ℕ → ℕ → ℕ
scale value from to =
    if from == to || from == 0 then value else min (value * to / from) (to - 1) % 2 ^ 16

unfoldable pub map_x : CoordMap → ℕ → ℕ
unfolding scale
map_x m x = scale x m.frame_w m.portal_w

unfoldable pub map_y : CoordMap → ℕ → ℕ
unfolding scale
map_y m y = scale y m.frame_h m.portal_h

unfoldable pub map_touch_event : EisTouchEvent → CoordMap → EisTouchEvent
unfolding map_x map_y
map_touch_event (down x y index) m = down (map_x m x) (map_y m y) index
map_touch_event (motion x y index) m = motion (map_x m x) (map_y m y) index
map_touch_event (up index) m = up index

-- `(x as i32 + ox).max(0).min(u16::MAX as i32) as u16`
shift_axis : ℕ → ℤ → ℕ
unfolding ◌+ℤ◌
shift_axis x o = pos_part (clamp_ℤ (pos 0) (pos (2 ^ 16 - 1)) (pos x +ℤ o))

unfoldable pub offset_touch_event : EisTouchEvent → ℤ × ℤ → EisTouchEvent
unfolding shift_axis
offset_touch_event (down x y index) o = down (shift_axis x o.0) (shift_axis y o.1) index
offset_touch_event (motion x y index) o = motion (shift_axis x o.0) (shift_axis y o.1) index
offset_touch_event (up index) o = up index

pub record InputRegion : Type 0 where
  pub w : ℕ
  pub h : ℕ
  pub x : ℤ
  pub y : ℤ

abbrev gap : ℕ → ℕ → ℕ
gap a b = a - b + (b - a)

-- The two ratios differ by at most 0.02 of the frame's, with the divisions multiplied out.
unfoldable pub is_same_shape : ℕ × ℕ → InputRegion → Bool
is_same_shape frame r =
    if frame.0 == 0 || frame.1 == 0 || r.w == 0 || r.h == 0
    then false
    else leb (50 * gap (r.w * frame.1) (r.h * frame.0)) (r.h * frame.0)

abbrev pub is_here : ℤ × ℤ → InputRegion → Bool
is_here stream_pos r = r.x ==ℤ stream_pos.0 && r.y ==ℤ stream_pos.1

unfoldable pub select : (InputRegion → Bool) → List InputRegion → List InputRegion
select p [] = []
select p (r ∷ rs) = if p r then r ∷ select p rs else select p rs

-- The one element of a list that has just one.
only : List InputRegion → Option InputRegion
only (r ∷ []) = some r
only rs = none

if_shape : ℕ × ℕ → InputRegion → Option InputRegion
if_shape frame r = if is_same_shape frame r then some r else none

-- Among several regions: the one at the stream's position, or else the one of the right shape.
by_position : List InputRegion → List InputRegion → ℕ × ℕ → Option InputRegion
unfolding if_shape only select
by_position (r ∷ []) many frame = if_shape frame r
by_position here many frame = only (select (is_same_shape frame) many)

unfoldable pub input_space : List InputRegion → ℕ × ℕ → ℤ × ℤ → Option InputRegion
unfolding by_position if_shape select
input_space [] frame stream_pos = none
input_space (r ∷ []) frame stream_pos = if_shape frame r
input_space many frame stream_pos = by_position (select (is_here stream_pos) many) many frame
