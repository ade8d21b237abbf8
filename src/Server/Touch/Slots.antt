-- ===== src/Server/Touch/Slots.antt =====
-- The slots of different sessions: `slot_base` and `shift_slots`.
use webshooter.Base.{ℕ, ◌+◌, ◌*◌, ◌%◌, ◌^◌, ◌≡◌, ◌≢◌, ◌<◌, arith, some}
use webshooter.Server.Touch.{EisTouchEvent, slot_base, shift_slots, touch_slot, slots_per_session}

slot_base-eq : (c : ℕ) → c < 2 ^ 26 → slot_base c ≡ c * 64
unfolding slot_base
slot_base-eq c h = omega arith

shifted :
    (e e' : EisTouchEvent) (base : ℕ)
    → shift_slots e base ≡ some e'
    → (touch_slot e < 64) × (touch_slot e' ≡ (base + touch_slot e) % 2 ^ 32)
unfolding shift_slots
shifted e e' base h = ground arith

-- Two sessions whose ids differ, both below 2 ^ 26, never get the same slot, whatever slots their
-- clients name; and a client that names a slot from 64 on gets none.
pub shift_slots_apart :
    (c d : ℕ) (e f e' f' : EisTouchEvent)
    → c ≢ d
    → c < 2 ^ 26
    → d < 2 ^ 26
    → shift_slots e (slot_base c) ≡ some e'
    → shift_slots f (slot_base d) ≡ some f'
    → (touch_slot e' ≢ touch_slot f') × (touch_slot e < slots_per_session)
shift_slots_apart c d e f e' f' ne hc hd h k =
    ground (
      arith,
      slot_base-eq c,
      slot_base-eq d,
      shifted e e' (slot_base c),
      shifted f f' (slot_base d),
    )

-- Past that bound the base is not saturated but wraps: session `c + 2 ^ 26` has the slots of `c`.
pub slot_base-wraps : (c : ℕ) → c < 2 ^ 26 → slot_base (c + 2 ^ 26) ≡ slot_base c
unfolding slot_base
slot_base-wraps c h = omega arith
