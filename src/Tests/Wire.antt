-- ===== src/Tests/Wire.antt =====
-- Messages of shared/src on the wire.
use webshooter.Base.{
  codes, ℕ, ◌≡◌, arith, ◌+◌, ◌-◌, ◌*◌, ◌/◌, ◌%◌, ◌^◌, true, List, [], ◌∷◌, some, if◌then◌else◌, ltb,
  refl,
}
use webshooter.Base.Int.{ℤ, pos, negsuc, clamp_ℤ, IsI16, sub_ℕ, pos_part, neg_part}
use webshooter.Base.Words.{IsU32}
use webshooter.Base.Result.{ok}
use webshooter.Shared.Codec.{h264, vp9, eq}
use webshooter.Shared.Codec.Choice.{supports}
use webshooter.Shared.Mux.{is_moq_byte}
use webshooter.Shared.ServerDatagram
use webshooter.Shared.ServerDatagram.RoundTrip.{server_round_trip, server_in_range}
use webshooter.Shared.LogLevel.{Level}
use webshooter.Shared.ClientDatagram
use webshooter.Shared.ClientDatagram.{
  ClientDatagram, Modifiers, GamepadMotion, Snapshot, keyboard, gamepad, mouse_move, scroll,
  is_input_byte, is_input_datagram,
}
use webshooter.Shared.ClientDatagram.Axis.{Floats}
use webshooter.Shared.ClientDatagram.Encode.{to_bytes}
use webshooter.Shared.ClientDatagram.Decode.{from_bytes}
use webshooter.Shared.ClientDatagram.Decode.RoundTrip.{from_bytes-to_bytes, received}

-- A stand-in for the floating-point unit, on whole numbers: an `f32` is a number below 2 ^ 31 or
-- the bitwise complement of one.
abbrev of_pattern : ℕ → ℤ
of_pattern n = if ltb n (2 ^ 31) then pos n else negsuc (2 ^ 32 - 1 - n)

abbrev to_pattern : ℤ → ℕ
to_pattern (pos n) = n % 2 ^ 31
to_pattern (negsuc n) = 2 ^ 32 - 1 - n % 2 ^ 31

abbrev to_i16 : ℤ → ℤ
to_i16 z = clamp_ℤ (negsuc (2 ^ 15 - 1)) (pos (2 ^ 15 - 1)) z

abbrev mul : ℤ → ℤ → ℤ
mul a b =
    sub_ℕ (pos_part a * pos_part b + neg_part a * neg_part b)
      (pos_part a * neg_part b + neg_part a * pos_part b)

-- Every divisor is positive.
abbrev div : ℤ → ℤ → ℤ
div a b = sub_ℕ (pos_part a / pos_part b) (neg_part a / pos_part b)

pub to_i16-IsI16 : (z : ℤ) → IsI16 (to_i16 z)
to_i16-IsI16 z = ground arith

pub to_pattern-IsU32 : (z : ℤ) → IsU32 (to_pattern z)
to_pattern-IsU32 (pos n) = omega arith
to_pattern-IsU32 (negsuc n) = omega arith

abbrev pub whole_floats : Floats
whole_floats = record {
  F64 = ℤ;
  from_f32 = of_pattern;
  to_f32 = to_pattern;
  from_i16 = λ z. z;
  to_i16 = to_i16;
  literal = λ n. pos n;
  mul = mul;
  div = div;
  clamp = λ a lo hi. clamp_ℤ lo hi a;
  to_i16-IsI16 = to_i16-IsI16;
  to_f32-IsU32 = to_pattern-IsU32;
}

-- A controller with motion, whose last axis is past the range of the wire.
abbrev tilted : Snapshot
tilted = record {
  id = 1;
  buttons = 0x8001;
  lx = negsuc 32767;
  ly = pos 12;
  rx = pos 0;
  ry = negsuc 0;
  lt = pos 32767;
  rt = pos 0;
  motion = some (record {
    accel_x = 9;
    accel_y = 2 ^ 32 - 2;
    accel_z = 0;
    gyro_x = 100;
    gyro_y = 0;
    gyro_z = 9000;
  });
}

from_bytes-to_bytes_example :
    from_bytes whole_floats (to_bytes whole_floats (gamepad tilted))
    ≡ ok (received whole_floats (gamepad tilted))
from_bytes-to_bytes_example = from_bytes-to_bytes whole_floats (gamepad tilted) (
  omega arith,
  omega arith,
  omega arith,
  omega arith,
  omega arith,
  omega arith,
  omega arith,
  omega arith,
  (omega arith, omega arith, omega arith, omega arith, omega arith, omega arith),
)

-- A scroll, and the bytes that it has on the wire.
abbrev scroll_bytes : List ℕ
scroll_bytes = ClientDatagram.Variants.scroll ∷ 255 ∷ 255 ∷ 255 ∷ 136 ∷ 0 ∷ 0 ∷ 0 ∷ 1 ∷ []

scroll_parses : from_bytes whole_floats scroll_bytes ≡ ok (scroll (negsuc 119) (pos 1))
unfolding from_bytes ClientDatagram.Decode.parse_scroll
scroll_parses = refl

server_round_trip_example :
    ServerDatagram.RoundTrip.reparsed
      (ServerDatagram.to_bytes (ServerDatagram.error Level.warn (codes "no é")))
    ≡ some (ServerDatagram.error Level.warn (codes "no é"))
server_round_trip_example =
    server_round_trip (ServerDatagram.error Level.warn (codes "no é")) (ground arith)

throttle_parses :
    ServerDatagram.from_bytes (ServerDatagram.Variants.throttle ∷ 1 ∷ 4 ∷ [])
    ≡ ok (ServerDatagram.throttle 260)
unfolding ServerDatagram.from_bytes
throttle_parses = refl

-- The first byte of a MoQ message.
zero_is_moq : is_moq_byte 0 ≡ true
unfolding is_moq_byte
zero_is_moq = refl

supports_vp9 : supports (vp9 ∷ h264 ∷ []) vp9 ≡ true
unfolding eq
supports_vp9 = refl
