-- ===== src/Shared/TrackNames.antt =====
-- shared/src/track_names.rs: the names under which a session's media is published.
use webshooter.Base.{◌++◌, ◌≢◌, arith, codes}
use webshooter.Base.Text.{Text}
use webshooter.Shared.Codec.{Codec, slug}

abbrev pub broadcast : Text
broadcast = codes "webshooter"

abbrev pub audio_track : Text
audio_track = codes "audio/opus"

unfoldable pub video_track : Codec → Text
unfolding slug
video_track codec = codes "video/" ++ slug codec

-- Two different codecs have different video tracks, and neither is the audio track.
pub video_track_injective :
    (a b : Codec)
    → a ≢ b
    → (video_track a ≢ video_track b)
      × (video_track a ≢ audio_track)
      × (video_track b ≢ audio_track)
unfolding video_track
video_track_injective a b ne = ground (arith, ne)
