-- ===== src/Shared/ServerDatagram/RoundTrip.antt =====
-- The server's messages through the wire and back.
use webshooter.Base.{ℕ, ◌≡◌, refl, arith, List, [], ◌∷◌, Option, none, some, All, ap}
use webshooter.Base.Result.{ok, err}
use webshooter.Base.Words.{IsByte, IsU16, from_be_16-to_be_16}
use webshooter.Base.Text.{IsScalar, from_utf8_lossy-as_bytes, from_utf8_lossy-IsScalar}
use webshooter.Shared.Codec.{from_byte-to_byte}
use webshooter.Shared.LogLevel.{filter_from_byte-filter_to_byte, level_from_byte-level_to_byte}
use webshooter.Shared.ServerDatagram.{
  ServerDatagram, moq_boundary, release_mouse, toggle_fullscreen, log_level, throttle, audio_level,
  video_track, error, to_bytes, from_bytes, parse_log_level, parse_throttle, parse_audio_level,
  parse_video_track, parse_error,
}

-- The fields are within their Rust types.
abbrev pub IsValid : ServerDatagram → Type 0
IsValid (throttle interval_ms) = IsU16 interval_ms
IsValid (audio_level level) = IsByte level
IsValid (error level message) = All IsScalar message
IsValid _ = Unit {0}

-- What the bytes of a message parse to, where it has bytes.
abbrev pub reparsed : Option (List ℕ) → Option (ServerDatagram)
reparsed none = none
reparsed (some bytes) = elim (from_bytes bytes) [ ok m ↦ some m | err e ↦ none ]

abbrev pub sendable : ServerDatagram → Option ServerDatagram
sendable moq_boundary = none
sendable m = some m

-- Every message but the boundary has bytes, and they parse back to that message; the boundary
-- has none.
pub server_round_trip : (m : ServerDatagram) → IsValid m → reparsed (to_bytes m) ≡ sendable m
unfolding to_bytes from_bytes
server_round_trip moq_boundary h = refl
server_round_trip release_mouse h = refl
server_round_trip toggle_fullscreen h = refl
server_round_trip (log_level l) h = ground (arith, filter_from_byte-filter_to_byte l)
server_round_trip (throttle ms) h = ap (λ n. some (throttle n)) (from_be_16-to_be_16 ms h)
server_round_trip (audio_level l) h = refl
server_round_trip (video_track c) h = ground (arith, from_byte-to_byte c)
server_round_trip (error l t) h =
    ground (arith, level_from_byte-level_to_byte l, from_utf8_lossy-as_bytes t h)

parse_log_level-IsValid :
    (rest : List ℕ) (m : ServerDatagram) → parse_log_level rest ≡ ok m → IsValid m
unfolding parse_log_level
parse_log_level-IsValid [] m e = cc
parse_log_level-IsValid (b ∷ rest) m e = ground arith

parse_throttle-IsValid :
    (rest : List ℕ) (m : ServerDatagram) → All IsByte rest → parse_throttle rest ≡ ok m → IsValid m
unfolding parse_throttle
parse_throttle-IsValid [] m h e = cc
parse_throttle-IsValid (a ∷ []) m h e = cc
parse_throttle-IsValid (a ∷ b ∷ rest) m h e = ground arith

parse_audio_level-IsValid :
    (rest : List ℕ) (m : ServerDatagram)
    → All IsByte rest
    → parse_audio_level rest ≡ ok m
    → IsValid m
unfolding parse_audio_level
parse_audio_level-IsValid [] m h e = cc
parse_audio_level-IsValid (a ∷ rest) m h e = ground arith

parse_video_track-IsValid :
    (rest : List ℕ) (m : ServerDatagram) → parse_video_track rest ≡ ok m → IsValid m
unfolding parse_video_track
parse_video_track-IsValid [] m e = cc
parse_video_track-IsValid (b ∷ rest) m e = ground arith

parse_error-IsValid : (rest : List ℕ) (m : ServerDatagram) → parse_error rest ≡ ok m → IsValid m
unfolding parse_error
parse_error-IsValid [] m e = cc
parse_error-IsValid (b ∷ rest) m e = ground (arith, from_utf8_lossy-IsScalar rest)

-- Whatever bytes arrive, a message that parses has every field within its type.
pub server_in_range :
    (bytes : List ℕ) (m : ServerDatagram) → All IsByte bytes → from_bytes bytes ≡ ok m → IsValid m
unfolding from_bytes
server_in_range [] m h e = cc
server_in_range (d ∷ rest) m h e = ground (
  arith,
  parse_log_level-IsValid rest m,
  parse_throttle-IsValid rest m,
  parse_audio_level-IsValid rest m,
  parse_video_track-IsValid rest m,
  parse_error-IsValid rest m,
)
