-- ===== src/Shared/ClientDatagram/Decode/RoundTrip.antt =====
-- The client's messages through the wire and back.
use webshooter.Base.{
  ℕ, suc, ◌≡◌, ◌<◌, ◌%◌, refl, arith, true, false, List, [], ◌∷◌, Option, none, some, ap, map,
  length, take,
}
use webshooter.Base.Result.{ok}
use webshooter.Base.Int.{ℤ, IsI16, IsI32}
use mathlib.Core.Path.{ap₂}
use webshooter.Base.Words.{
  byte_at, pattern_16, pattern_32, signed_16, signed_32, from_be_16, from_be_32,
  from_be_16-to_be_16, from_be_32-to_be_32, signed_16-pattern_16, signed_32-pattern_32,
  pattern_16-IsU16, pattern_32-IsU32,
}
use webshooter.Base.Text.{from_utf8_lossy-as_bytes}
use webshooter.Shared.Codec.{Codec, to_byte, from_byte-to_byte}
use webshooter.Shared.LogLevel.{level_from_byte-level_to_byte}
use webshooter.Shared.ClientDatagram.{
  ClientDatagram, Modifiers, GamepadMotion, Snapshot, bits, from_bits_truncate, keep_alive,
  keyboard, display_parameters, touchscreen, touchscreen_release, gamepad, gamepad_disconnect,
  error, decoder_capabilities, audio_ready, mouse_move, mouse_button, scroll, request_keyframe,
  IsValid, IsValidSnapshot,
}
use webshooter.Shared.ClientDatagram.Axis.{
  Floats, axis_to_wire, axis_from_wire, axis_to_wire-IsI16, motion_accel_scale, motion_gyro_scale,
}
use webshooter.Shared.ClientDatagram.Encode.{to_bytes, snapshot_to_bytes}
use webshooter.Shared.ClientDatagram.Decode.{
  known_codecs, parse_keyboard, parse_display_parameters, parse_touchscreen,
  parse_touchscreen_release, parse_gamepad, parse_gamepad_disconnect, parse_error,
  parse_decoder_capabilities, parse_audio_ready, parse_mouse_move, parse_mouse_button, parse_scroll,
  from_bytes,
}

from_bits_truncate-bits : (m : Modifiers) → from_bits_truncate (bits m) ≡ m
unfolding from_bits_truncate bits
from_bits_truncate-bits m = ground arith

known_codecs-map : (cs : List Codec) → known_codecs (take (length cs) (map to_byte cs)) ≡ cs
unfolding known_codecs
known_codecs-map [] = refl
known_codecs-map (c ∷ cs) = ground (arith, from_byte-to_byte c, known_codecs-map cs)

length-map-to_byte : (cs : List Codec) → length (map to_byte cs) ≡ length cs
length-map-to_byte [] = refl
length-map-to_byte (c ∷ cs) = ap suc (length-map-to_byte cs)

-- A signed value read back from the bytes of its pattern.
signed_16_back :
    (z : ℤ)
    → IsI16 z
    → signed_16 (from_be_16 (byte_at 1 (pattern_16 z)) (byte_at 0 (pattern_16 z))) ≡ z
signed_16_back z h = rw (from_be_16-to_be_16 _ (pattern_16-IsU16 z)) (signed_16-pattern_16 z h)

signed_32_back :
    (z : ℤ)
    → IsI32 z
    → signed_32 (
        from_be_32
          (byte_at 3 (pattern_32 z))
          (byte_at 2 (pattern_32 z))
          (byte_at 1 (pattern_32 z))
          (byte_at 0 (pattern_32 z)))
      ≡ z
signed_32_back z h = rw (from_be_32-to_be_32 _ (pattern_32-IsU32 z)) (signed_32-pattern_32 z h)

module _ (fl : Floats) where
  -- The motion that the server reads: each axis in the units of the wire.
  abbrev pub received_motion : Option GamepadMotion → Option GamepadMotion
  received_motion none = none
  received_motion (some m) = some (record {
    accel_x = axis_from_wire fl (axis_to_wire fl m.accel_x motion_accel_scale) motion_accel_scale;
    accel_y = axis_from_wire fl (axis_to_wire fl m.accel_y motion_accel_scale) motion_accel_scale;
    accel_z = axis_from_wire fl (axis_to_wire fl m.accel_z motion_accel_scale) motion_accel_scale;
    gyro_x = axis_from_wire fl (axis_to_wire fl m.gyro_x motion_gyro_scale) motion_gyro_scale;
    gyro_y = axis_from_wire fl (axis_to_wire fl m.gyro_y motion_gyro_scale) motion_gyro_scale;
    gyro_z = axis_from_wire fl (axis_to_wire fl m.gyro_z motion_gyro_scale) motion_gyro_scale;
  })

  -- The message that the server reads: the same, but for the rounding of motion axes.
  abbrev pub received : ClientDatagram → ClientDatagram
  received (gamepad s) = gamepad (record s { motion = received_motion s.motion })
  received m = m

  axis_back :
      (v scale : ℕ)
      → axis_from_wire fl
          (signed_16 (
            from_be_16
              (byte_at 1 (pattern_16 (axis_to_wire fl v scale)))
              (byte_at 0 (pattern_16 (axis_to_wire fl v scale)))))
          scale
        ≡ axis_from_wire fl (axis_to_wire fl v scale) scale
  axis_back v scale =
      ap (λ z. axis_from_wire fl z scale)
        (signed_16_back (axis_to_wire fl v scale) (axis_to_wire-IsI16 fl v scale))

  snapshot_back :
      (s : Snapshot) (m : Option GamepadMotion)
      → IsValidSnapshot s
      → parse_gamepad fl (snapshot_to_bytes fl (record s { motion = m }))
        ≡ ok (gamepad (record s { motion = received_motion m }))
  unfolding parse_gamepad snapshot_to_bytes
  snapshot_back s none h = cc (
    from_be_32-to_be_32 s.buttons h.1,
    signed_16_back s.lx h.2,
    signed_16_back s.ly h.3,
    signed_16_back s.rx h.4,
    signed_16_back s.ry h.5,
    signed_16_back s.lt h.6,
    signed_16_back s.rt h.7,
  )
  snapshot_back s (some m) h = cc (
    from_be_32-to_be_32 s.buttons h.1,
    signed_16_back s.lx h.2,
    signed_16_back s.ly h.3,
    signed_16_back s.rx h.4,
    signed_16_back s.ry h.5,
    signed_16_back s.lt h.6,
    signed_16_back s.rt h.7,
    axis_back m.accel_x motion_accel_scale,
    axis_back m.accel_y motion_accel_scale,
    axis_back m.accel_z motion_accel_scale,
    axis_back m.gyro_x motion_gyro_scale,
    axis_back m.gyro_y motion_gyro_scale,
    axis_back m.gyro_z motion_gyro_scale,
  )

  decoders_back :
      (cs : List Codec)
      → length cs < 256
      → parse_decoder_capabilities ((length cs % 256) ∷ map to_byte cs)
        ≡ ok (decoder_capabilities cs)
  unfolding parse_decoder_capabilities
  decoders_back cs h =
      let small : length cs % 256 ≡ length cs = omega arith in
      rw (small, length-map-to_byte cs) (ground (arith, known_codecs-map cs))

  -- A valid message, sent and parsed, is the message that was sent; only the axes of a gamepad's
  -- motion are rounded to the units of the wire.
  pub from_bytes-to_bytes :
      (m : ClientDatagram) → IsValid m → from_bytes fl (to_bytes fl m) ≡ ok (received m)
  unfolding to_bytes from_bytes
  from_bytes-to_bytes keep_alive h = refl
  from_bytes-to_bytes (keyboard k mods) h =
      unfold parse_keyboard in
      ground (arith, from_utf8_lossy-as_bytes k h, from_bits_truncate-bits mods)
  from_bytes-to_bytes (display_parameters i w g) h =
      unfold parse_display_parameters in
      ground (arith, from_be_16-to_be_16 w h.1, from_be_16-to_be_16 g h.2)
  from_bytes-to_bytes (touchscreen i x y) h =
      unfold parse_touchscreen in
      ground (arith, from_be_16-to_be_16 x h.1, from_be_16-to_be_16 y h.2)
  from_bytes-to_bytes (touchscreen_release i) h = unfold parse_touchscreen_release in refl
  from_bytes-to_bytes (gamepad s) h = snapshot_back s s.motion h
  from_bytes-to_bytes (gamepad_disconnect i) h = unfold parse_gamepad_disconnect in refl
  from_bytes-to_bytes (error l t) h =
      unfold parse_error in
      ground (arith, level_from_byte-level_to_byte l, from_utf8_lossy-as_bytes t h)
  from_bytes-to_bytes (decoder_capabilities cs) h = decoders_back cs h
  from_bytes-to_bytes (audio_ready c r) h =
      unfold parse_audio_ready in ap (λ n. ok (audio_ready c n)) (from_be_32-to_be_32 r h.1)
  from_bytes-to_bytes (mouse_move dx dy) h =
      unfold parse_mouse_move in
      ap₂ (λ a b. ok (mouse_move a b)) (signed_16_back dx h.0) (signed_16_back dy h.1)
  from_bytes-to_bytes (mouse_button b true) h = unfold parse_mouse_button in refl
  from_bytes-to_bytes (mouse_button b false) h = unfold parse_mouse_button in refl
  from_bytes-to_bytes (scroll dx dy) h =
      unfold parse_scroll in
      ap₂ (λ a b. ok (scroll a b)) (signed_32_back dx h.0) (signed_32_back dy h.1)
  from_bytes-to_bytes request_keyframe h = refl
