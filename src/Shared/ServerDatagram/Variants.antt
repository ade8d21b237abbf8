-- ===== src/Shared/ServerDatagram/Variants.antt =====
-- The discriminants of `ServerDatagram` in shared/src/server_datagram.rs, one after the other.
use webshooter.Base.{ℕ, ◌+◌}

abbrev pub moq_boundary : ℕ
moq_boundary = 0x40

abbrev pub release_mouse : ℕ
release_mouse = moq_boundary + 1

abbrev pub toggle_fullscreen : ℕ
toggle_fullscreen = moq_boundary + 2

abbrev pub log_level : ℕ
log_level = moq_boundary + 3

abbrev pub throttle : ℕ
throttle = moq_boundary + 4

abbrev pub audio_level : ℕ
audio_level = moq_boundary + 5

abbrev pub video_track : ℕ
video_track = moq_boundary + 6

abbrev pub error : ℕ
error = moq_boundary + 7
