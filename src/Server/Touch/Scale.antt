-- ===== src/Server/Touch/Scale.antt =====
-- The map from frame pixels to the units of the portal.
use native.Mathlib.Nat.{le-div_iff_mul-le, div-mul-le_self, le_trans}
use webshooter.Base.{ℕ, ◌*◌, ◌/◌, ◌^◌, ◌≡◌, ◌≤◌, ◌<◌, arith, true}
use webshooter.Server.Touch.{CoordMap, scale, is_identity, map_touch_event, EisTouchEvent}

-- A coordinate inside the frame is mapped inside the portal's region.
pub scale-lt :
    (value from to : ℕ) → 0 < from → 0 < to → to < 2 ^ 16 → value < from → scale value from to < to
unfolding scale
scale-lt value from to hf ht word h = ground arith

div_mono : (x y k : ℕ) → 0 < k → x ≤ y → x / k ≤ y / k
div_mono x y k pos h = (le-div_iff_mul-le pos).1 (le_trans (div-mul-le_self x k) h)

-- The map keeps the order of coordinates.
pub scale_mono : (a b from to : ℕ) → to < 2 ^ 16 → a ≤ b → scale a from to ≤ scale b from to
unfolding scale
scale_mono a b from to word h =
    let grow : a * to ≤ b * to = grind arith in ground (arith, div_mono (a * to) (b * to) from)

-- Where `is_identity` says so, every event is left alone.
pub map_touch_event-identity :
    (e : EisTouchEvent) (m : CoordMap) → is_identity m ≡ true → map_touch_event e m ≡ e
unfolding map_touch_event is_identity
map_touch_event-identity e m h = ground arith
