-- ===== src/Shared/ClientDatagram.antt =====
-- shared/src/client_datagram.rs: the messages of the client. Their wire form is in `Encode` and
-- `Decode`, the merging of pending input in `Coalesce`.
pub mod Variants
pub mod Axis
pub mod Encode
pub mod Decode
pub mod Coalesce
use webshooter.Base.{
  ℕ, ◌+◌, ◌*◌, ◌/◌, ◌%◌, ◌^◌, ◌<◌, Bool, true, false, ◌||◌, List, Option, none, some, ◌==◌,
  if◌then◌else◌, length, All,
}
use webshooter.Base.Int.{ℤ, IsI16, IsI32}
use webshooter.Base.Words.{IsByte, IsU16, IsU32}
use webshooter.Base.Text.{Text, IsScalar}
use webshooter.Shared.Codec.{Codec}
use webshooter.Shared.LogLevel.{Level}
use Axis.{F32}

-- The flags of `bitflags!`, as the set that they are.
pub record Modifiers : Type 0 where
  pub shift : Bool
  pub ctrl : Bool
  pub alt : Bool
  pub meta : Bool

abbrev weight : ℕ → Bool → ℕ
weight w flag = if flag then w else 0

unfoldable pub bits : Modifiers → ℕ
bits m = weight 1 m.shift + weight 2 m.ctrl + weight 4 m.alt + weight 8 m.meta

unfoldable pub from_bits_truncate : ℕ → Modifiers
from_bits_truncate b = record {
  shift = b % 2 == 1;
  ctrl = b / 2 % 2 == 1;
  alt = b / 4 % 2 == 1;
  meta = b / 8 % 2 == 1;
}

pub record GamepadMotion : Type 0 where
  pub accel_x : F32
  pub accel_y : F32
  pub accel_z : F32
  pub gyro_x : F32
  pub gyro_y : F32
  pub gyro_z : F32

-- The fields of the variant `Gamepad`.
pub record Snapshot : Type 0 where
  pub id : ℕ
  pub buttons : ℕ
  pub lx : ℤ
  pub ly : ℤ
  pub rx : ℤ
  pub ry : ℤ
  pub lt : ℤ
  pub rt : ℤ
  pub motion : Option GamepadMotion

-- Fields stand in the order of their declaration: a touch is its slot, then x and y.
pub data ClientDatagram : Type 0 where
  keep_alive : ClientDatagram
  keyboard : Text → Modifiers → ClientDatagram
  display_parameters : ℕ → ℕ → ℕ → ClientDatagram
  touchscreen : ℕ → ℕ → ℕ → ClientDatagram
  touchscreen_release : ℕ → ClientDatagram
  gamepad : Snapshot → ClientDatagram
  gamepad_disconnect : ℕ → ClientDatagram
  error : Level → Text → ClientDatagram
  decoder_capabilities : List Codec → ClientDatagram
  audio_ready : ℕ → ℕ → ClientDatagram
  mouse_move : ℤ → ℤ → ClientDatagram
  mouse_button : ℕ → Bool → ClientDatagram
  scroll : ℤ → ℤ → ClientDatagram
  request_keyframe : ClientDatagram

-- `is_input_byte`: the check of the receive pump on the first byte alone.
unfoldable pub is_input_byte : ℕ → Bool
is_input_byte byte =
    byte == Variants.keyboard
    || byte == Variants.mouse_move
    || byte == Variants.mouse_button
    || byte == Variants.scroll
    || byte == Variants.touchscreen
    || byte == Variants.touchscreen_release
    || byte == Variants.gamepad
    || byte == Variants.gamepad_disconnect

-- `is_input_datagram` of server/src/pipewire/eis.rs: input, and not control traffic.
unfoldable pub is_input_datagram : ClientDatagram → Bool
is_input_datagram (keyboard keycode modifiers) = true
is_input_datagram (mouse_move dx dy) = true
is_input_datagram (mouse_button button pressed) = true
is_input_datagram (scroll dx dy) = true
is_input_datagram (touchscreen index x y) = true
is_input_datagram (touchscreen_release index) = true
is_input_datagram (gamepad s) = true
is_input_datagram (gamepad_disconnect id) = true
is_input_datagram _ = false

abbrev pub IsValidMotion : Option GamepadMotion → Type 0
IsValidMotion none = Unit {0}
IsValidMotion (some m) =
    IsU32 m.accel_x
    × IsU32 m.accel_y
    × IsU32 m.accel_z
    × IsU32 m.gyro_x
    × IsU32 m.gyro_y
    × IsU32 m.gyro_z

abbrev pub IsValidSnapshot : Snapshot → Type 0
IsValidSnapshot s =
    IsByte s.id
    × IsU32 s.buttons
    × IsI16 s.lx
    × IsI16 s.ly
    × IsI16 s.rx
    × IsI16 s.ry
    × IsI16 s.lt
    × IsI16 s.rt
    × IsValidMotion s.motion

-- The fields are within their Rust types, and a list of decoders fits its length byte.
abbrev pub IsValid : ClientDatagram → Type 0
IsValid (keyboard keycode modifiers) = All IsScalar keycode
IsValid (display_parameters index width height) = IsByte index × IsU16 width × IsU16 height
IsValid (touchscreen index x y) = IsByte index × IsU16 x × IsU16 y
IsValid (touchscreen_release index) = IsByte index
IsValid (gamepad s) = IsValidSnapshot s
IsValid (gamepad_disconnect id) = IsByte id
IsValid (error level message) = All IsScalar message
IsValid (decoder_capabilities decoders) = length decoders < 256
IsValid (audio_ready channels rate) = IsByte channels × IsU32 rate
IsValid (mouse_move dx dy) = IsI16 dx × IsI16 dy
IsValid (mouse_button button pressed) = IsByte button
IsValid (scroll dx dy) = IsI32 dx × IsI32 dy
IsValid _ = Unit {0}
