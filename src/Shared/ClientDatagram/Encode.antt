-- ===== src/Shared/ClientDatagram/Encode.antt =====
-- `ClientDatagram::to_bytes` of shared/src/client_datagram.rs.
use webshooter.Base.{ℕ, ◌%◌, true, false, List, [], ◌∷◌, ◌++◌, Option, none, some, length, map}
use webshooter.Base.Words.{to_be_16, to_be_32, pattern_16, pattern_32}
use webshooter.Base.Text.{as_bytes}
use webshooter.Shared.Codec.{to_byte}
use webshooter.Shared.LogLevel.{level_to_byte}
use webshooter.Shared.ClientDatagram.{
  ClientDatagram, GamepadMotion, Snapshot, bits, keep_alive, keyboard, display_parameters,
  touchscreen, touchscreen_release, gamepad, gamepad_disconnect, error, decoder_capabilities,
  audio_ready, mouse_move, mouse_button, scroll, request_keyframe,
}
use webshooter.Shared.ClientDatagram.Axis.{
  Floats, axis_to_wire, motion_accel_scale, motion_gyro_scale,
}
use webshooter.Shared.ClientDatagram.Variants

module _ (fl : Floats) where
  unfoldable pub motion_to_bytes : Option GamepadMotion → List ℕ
  motion_to_bytes none = 0 ∷ []
  motion_to_bytes (some m) =
      1
      ∷ (to_be_16 (pattern_16 (axis_to_wire fl m.accel_x motion_accel_scale))
          ++ to_be_16 (pattern_16 (axis_to_wire fl m.accel_y motion_accel_scale))
          ++ to_be_16 (pattern_16 (axis_to_wire fl m.accel_z motion_accel_scale))
          ++ to_be_16 (pattern_16 (axis_to_wire fl m.gyro_x motion_gyro_scale))
          ++ to_be_16 (pattern_16 (axis_to_wire fl m.gyro_y motion_gyro_scale))
          ++ to_be_16 (pattern_16 (axis_to_wire fl m.gyro_z motion_gyro_scale)))

  unfoldable pub snapshot_to_bytes : Snapshot → List ℕ
  unfolding motion_to_bytes
  snapshot_to_bytes s =
      s.id
      ∷ (to_be_32 s.buttons
          ++ to_be_16 (pattern_16 s.lx)
          ++ to_be_16 (pattern_16 s.ly)
          ++ to_be_16 (pattern_16 s.rx)
          ++ to_be_16 (pattern_16 s.ry)
          ++ to_be_16 (pattern_16 s.lt)
          ++ to_be_16 (pattern_16 s.rt)
          ++ motion_to_bytes s.motion)

  unfoldable pub to_bytes : ClientDatagram → List ℕ
  unfolding snapshot_to_bytes
  to_bytes keep_alive = Variants.keep_alive ∷ []
  to_bytes (keyboard keycode modifiers) = Variants.keyboard ∷ bits modifiers ∷ as_bytes keycode
  to_bytes (display_parameters index width height) =
      Variants.display_parameters ∷ index ∷ (to_be_16 width ++ to_be_16 height)
  to_bytes (touchscreen index x y) = Variants.touchscreen ∷ (to_be_16 x ++ to_be_16 y ++ index ∷ [])
  to_bytes (touchscreen_release index) = Variants.touchscreen_release ∷ index ∷ []
  to_bytes (gamepad s) = Variants.gamepad ∷ snapshot_to_bytes s
  to_bytes (gamepad_disconnect id) = Variants.gamepad_disconnect ∷ id ∷ []
  to_bytes (error level message) = Variants.error ∷ level_to_byte level ∷ as_bytes message
  to_bytes (decoder_capabilities decoders) =
      Variants.decoder_capabilities ∷ (length decoders % 256) ∷ map to_byte decoders
  to_bytes (audio_ready channels rate) = Variants.audio_ready ∷ channels ∷ to_be_32 rate
  to_bytes (mouse_move dx dy) =
      Variants.mouse_move ∷ (to_be_16 (pattern_16 dx) ++ to_be_16 (pattern_16 dy))
  to_bytes (mouse_button button pressed) =
      Variants.mouse_button ∷ button ∷ elim pressed [ true ↦ 1 | false ↦ 0 ] ∷ []
  to_bytes (scroll dx dy) = Variants.scroll ∷ (to_be_32 (pattern_32 dx) ++ to_be_32 (pattern_32 dy))
  to_bytes request_keyframe = Variants.request_keyframe ∷ []
