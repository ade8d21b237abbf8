-- ===== src/Shared/ServerDatagram.antt =====
-- shared/src/server_datagram.rs: the control messages of the server. `to_bytes` panics on the
-- variant that only names the boundary, which is `none` here.
pub mod Variants
pub mod RoundTrip
use webshooter.Base.{ℕ, ◌+◌, List, [], ◌∷◌, ◌++◌, Option, none, some, length, ◌==◌, if◌then◌else◌}
use webshooter.Base.Result.{ok, err, ◌>>=◌}
use webshooter.Base.Words.{to_be_16, from_be_16}
use webshooter.Base.Text.{Text, as_bytes, from_utf8_lossy}
use webshooter.Shared.Error.{Parsed, empty_datagram, too_short, invalid_discriminant}
use webshooter.Shared.Codec.{Codec, to_byte, from_byte}
use webshooter.Shared.LogLevel.{
  Level, LevelFilter, filter_to_byte, filter_from_byte, level_to_byte, level_from_byte,
}

pub data ServerDatagram : Type 0 where
  moq_boundary : ServerDatagram
  release_mouse : ServerDatagram
  toggle_fullscreen : ServerDatagram
  log_level : LevelFilter → ServerDatagram
  throttle : ℕ → ServerDatagram
  audio_level : ℕ → ServerDatagram
  video_track : Codec → ServerDatagram
  error : Level → Text → ServerDatagram

unfoldable pub to_bytes : ServerDatagram → Option (List ℕ)
to_bytes moq_boundary = none
to_bytes release_mouse = some (Variants.release_mouse ∷ [])
to_bytes toggle_fullscreen = some (Variants.toggle_fullscreen ∷ [])
to_bytes (log_level level) = some (Variants.log_level ∷ filter_to_byte level ∷ [])
to_bytes (throttle interval_ms) = some (Variants.throttle ∷ to_be_16 interval_ms)
to_bytes (audio_level level) = some (Variants.audio_level ∷ level ∷ [])
to_bytes (video_track codec) = some (Variants.video_track ∷ to_byte codec ∷ [])
to_bytes (error level message) = some (Variants.error ∷ level_to_byte level ∷ as_bytes message)

-- The parsers of the messages with a payload, over the bytes behind the discriminant.
parse_log_level : List ℕ → Parsed ServerDatagram
parse_log_level [] = err (too_short Variants.log_level 1)
parse_log_level (b ∷ rest) = do level ← filter_from_byte b; ok (log_level level)

parse_throttle : List ℕ → Parsed ServerDatagram
parse_throttle (a ∷ b ∷ rest) = ok (throttle (from_be_16 a b))
parse_throttle short = err (too_short Variants.throttle (length short + 1))

parse_audio_level : List ℕ → Parsed ServerDatagram
parse_audio_level [] = err (too_short Variants.audio_level 1)
parse_audio_level (level ∷ rest) = ok (audio_level level)

parse_video_track : List ℕ → Parsed ServerDatagram
parse_video_track [] = err (too_short Variants.video_track 1)
parse_video_track (b ∷ rest) = do codec ← from_byte b; ok (video_track codec)

parse_error : List ℕ → Parsed ServerDatagram
parse_error [] = err (too_short Variants.error 1)
parse_error (b ∷ message) = do level ← level_from_byte b; ok (error level (from_utf8_lossy message))

unfoldable pub from_bytes : List ℕ → Parsed ServerDatagram
unfolding parse_log_level parse_throttle parse_audio_level parse_video_track parse_error
from_bytes [] = err empty_datagram
from_bytes (d ∷ rest) =
    if d == Variants.release_mouse
    then ok release_mouse
    else if d == Variants.toggle_fullscreen
    then ok toggle_fullscreen
    else if d == Variants.log_level
    then parse_log_level rest
    else if d == Variants.throttle
    then parse_throttle rest
    else if d == Variants.audio_level
    then parse_audio_level rest
    else if d == Variants.video_track
    then parse_video_track rest
    else if d == Variants.error
    then parse_error rest
    else err (invalid_discriminant d)
