-- ===== src/Shared/ClientDatagram/Variants.antt =====
-- The discriminants of `ClientDatagram` in shared/src/client_datagram.rs. The first is the byte of
-- the server's boundary variant, and the others follow it one by one.
use webshooter.Base.{ℕ, ◌+◌}
use webshooter.Shared.ServerDatagram.Variants

abbrev pub keep_alive : ℕ
keep_alive = Variants.moq_boundary

abbrev pub keyboard : ℕ
keyboard = keep_alive + 1

abbrev pub display_parameters : ℕ
display_parameters = keep_alive + 2

abbrev pub touchscreen : ℕ
touchscreen = keep_alive + 3

abbrev pub touchscreen_release : ℕ
touchscreen_release = keep_alive + 4

abbrev pub gamepad : ℕ
gamepad = keep_alive + 5

abbrev pub gamepad_disconnect : ℕ
gamepad_disconnect = keep_alive + 6

abbrev pub error : ℕ
error = keep_alive + 7

abbrev pub decoder_capabilities : ℕ
decoder_capabilities = keep_alive + 8

abbrev pub audio_ready : ℕ
audio_ready = keep_alive + 9

abbrev pub mouse_move : ℕ
mouse_move = keep_alive + 10

abbrev pub mouse_button : ℕ
mouse_button = keep_alive + 11

abbrev pub scroll : ℕ
scroll = keep_alive + 12

abbrev pub request_keyframe : ℕ
request_keyframe = keep_alive + 13
