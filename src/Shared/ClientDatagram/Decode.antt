-- ===== src/Shared/ClientDatagram/Decode.antt =====
-- `ClientDatagram::from_bytes` of shared/src/client_datagram.rs. Each `parse_` function is one arm
-- of its match, over the bytes behind the discriminant.
pub mod RoundTrip
use webshooter.Base.{
  ℕ, ◌+◌, Bool, true, false, not, List, [], ◌∷◌, Option, none, some, length, take, ltb, ◌==◌,
  if◌then◌else◌,
}
use webshooter.Base.Result.{ok, err, ◌>>=◌}
use webshooter.Base.Int.{ℤ}
use webshooter.Base.Words.{from_be_16, from_be_32, signed_16, signed_32}
use webshooter.Base.Text.{from_utf8_lossy}
use webshooter.Shared.Error.{
  Parsed, empty_datagram, too_short, codecs_too_short, invalid_discriminant,
}
use webshooter.Shared.Codec.{Codec, from_byte}
use webshooter.Shared.LogLevel.{level_from_byte}
use webshooter.Shared.ClientDatagram.{
  ClientDatagram, Modifiers, GamepadMotion, Snapshot, from_bits_truncate, keep_alive, keyboard,
  display_parameters, touchscreen, touchscreen_release, gamepad, gamepad_disconnect, error,
  decoder_capabilities, audio_ready, mouse_move, mouse_button, scroll, request_keyframe,
}
use webshooter.Shared.ClientDatagram.Axis.{
  Floats, axis_from_wire, motion_accel_scale, motion_gyro_scale,
}
use webshooter.Shared.ClientDatagram.Variants

-- A payload that does not fit; the whole message is one byte longer.
abbrev pub misfit : ℕ → List ℕ → Parsed ClientDatagram
misfit variant rest = err (too_short variant (length rest + 1))

pub parse_keyboard : List ℕ → Parsed ClientDatagram
parse_keyboard (modifier ∷ key_bytes) =
    ok (keyboard (from_utf8_lossy key_bytes) (from_bits_truncate modifier))
parse_keyboard rest = misfit Variants.keyboard rest

pub parse_display_parameters : List ℕ → Parsed ClientDatagram
parse_display_parameters (index ∷ a ∷ b ∷ c ∷ d ∷ []) =
    ok (display_parameters index (from_be_16 a b) (from_be_16 c d))
parse_display_parameters rest = misfit Variants.display_parameters rest

pub parse_touchscreen : List ℕ → Parsed ClientDatagram
parse_touchscreen (a ∷ b ∷ c ∷ d ∷ index ∷ []) =
    ok (touchscreen index (from_be_16 a b) (from_be_16 c d))
parse_touchscreen rest = misfit Variants.touchscreen rest

pub parse_touchscreen_release : List ℕ → Parsed ClientDatagram
parse_touchscreen_release (index ∷ []) = ok (touchscreen_release index)
parse_touchscreen_release rest = misfit Variants.touchscreen_release rest

pub parse_gamepad_disconnect : List ℕ → Parsed ClientDatagram
parse_gamepad_disconnect (id ∷ []) = ok (gamepad_disconnect id)
parse_gamepad_disconnect rest = misfit Variants.gamepad_disconnect rest

pub parse_error : List ℕ → Parsed ClientDatagram
parse_error (b ∷ message) = do level ← level_from_byte b; ok (error level (from_utf8_lossy message))
parse_error rest = misfit Variants.error rest

-- `filter_map(|b| Codec::from_byte(*b).ok())`
known_codecs : List ℕ → List Codec
known_codecs [] = []
known_codecs (b ∷ rest) = elim (from_byte b) [
  | ok c ↦ c ∷ known_codecs rest
  | err e ↦ known_codecs rest
]

pub parse_decoder_capabilities : List ℕ → Parsed ClientDatagram
parse_decoder_capabilities (len ∷ codecs) =
    if ltb (length codecs) len
    then err (codecs_too_short (length codecs) len)
    else ok (decoder_capabilities (known_codecs (take len codecs)))
parse_decoder_capabilities rest = misfit Variants.decoder_capabilities rest

pub parse_audio_ready : List ℕ → Parsed ClientDatagram
parse_audio_ready (channels ∷ a ∷ b ∷ c ∷ d ∷ []) = ok (audio_ready channels (from_be_32 a b c d))
parse_audio_ready rest = misfit Variants.audio_ready rest

pub parse_mouse_move : List ℕ → Parsed ClientDatagram
parse_mouse_move (a ∷ b ∷ c ∷ d ∷ []) =
    ok (mouse_move (signed_16 (from_be_16 a b)) (signed_16 (from_be_16 c d)))
parse_mouse_move rest = misfit Variants.mouse_move rest

pub parse_mouse_button : List ℕ → Parsed ClientDatagram
parse_mouse_button (button ∷ pressed ∷ []) = ok (mouse_button button (not (pressed == 0)))
parse_mouse_button rest = misfit Variants.mouse_button rest

unfoldable pub parse_scroll : List ℕ → Parsed ClientDatagram
parse_scroll (a ∷ b ∷ c ∷ d ∷ e ∷ f ∷ g ∷ h ∷ []) =
    ok (scroll (signed_32 (from_be_32 a b c d)) (signed_32 (from_be_32 e f g h)))
parse_scroll rest = misfit Variants.scroll rest

abbrev pub read_axes : Option GamepadMotion → ℕ → Parsed (Option GamepadMotion)
read_axes none total = err (too_short Variants.gamepad total)
read_axes (some m) total = ok (some m)

module _ (fl : Floats) where
  abbrev accel : ℕ → ℕ → ℕ
  accel a b = axis_from_wire fl (signed_16 (from_be_16 a b)) motion_accel_scale

  abbrev gyro : ℕ → ℕ → ℕ
  gyro a b = axis_from_wire fl (signed_16 (from_be_16 a b)) motion_gyro_scale

  -- `data.get(18..30)`, read as six axes.
  pub parse_axes : List ℕ → Option GamepadMotion
  parse_axes (a ∷ b ∷ c ∷ d ∷ e ∷ f ∷ g ∷ h ∷ i ∷ j ∷ k ∷ l ∷ rest) = some (record {
    accel_x = accel a b;
    accel_y = accel c d;
    accel_z = accel e f;
    gyro_x = gyro g h;
    gyro_y = gyro i j;
    gyro_z = gyro k l;
  })
  parse_axes rest = none

  -- The motion behind its flag: the flag, and the bytes that follow it.
  pub parse_motion : ℕ → List ℕ → ℕ → Parsed (Option GamepadMotion)
  unfolding parse_axes
  parse_motion flag body total = if flag == 0 then ok none else read_axes (parse_axes body) total

  pub parse_gamepad : List ℕ → Parsed ClientDatagram
  unfolding parse_motion
  parse_gamepad (id ∷ a ∷ b ∷ c ∷ d ∷ e ∷ f ∷ g ∷ h ∷ i ∷ j ∷ k ∷ l ∷ m ∷ n ∷ o ∷ p ∷ flag ∷ body) =
      do
        motion ← parse_motion flag body (length body + 19)
        ok (
            gamepad (record {
              id = id;
              buttons = from_be_32 a b c d;
              lx = signed_16 (from_be_16 e f);
              ly = signed_16 (from_be_16 g h);
              rx = signed_16 (from_be_16 i j);
              ry = signed_16 (from_be_16 k l);
              lt = signed_16 (from_be_16 m n);
              rt = signed_16 (from_be_16 o p);
              motion = motion;
            }))
  parse_gamepad rest = misfit Variants.gamepad rest

  unfoldable pub from_bytes : List ℕ → Parsed ClientDatagram
  from_bytes [] = err empty_datagram
  from_bytes (d ∷ rest) =
      if d == Variants.keep_alive
      then ok keep_alive
      else if d == Variants.keyboard
      then parse_keyboard rest
      else if d == Variants.display_parameters
      then parse_display_parameters rest
      else if d == Variants.touchscreen
      then parse_touchscreen rest
      else if d == Variants.touchscreen_release
      then parse_touchscreen_release rest
      else if d == Variants.gamepad
      then parse_gamepad rest
      else if d == Variants.gamepad_disconnect
      then parse_gamepad_disconnect rest
      else if d == Variants.error
      then parse_error rest
      else if d == Variants.decoder_capabilities
      then parse_decoder_capabilities rest
      else if d == Variants.audio_ready
      then parse_audio_ready rest
      else if d == Variants.mouse_move
      then parse_mouse_move rest
      else if d == Variants.mouse_button
      then parse_mouse_button rest
      else if d == Variants.scroll
      then parse_scroll rest
      else if d == Variants.request_keyframe
      then ok request_keyframe
      else err (invalid_discriminant d)
