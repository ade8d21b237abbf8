-- ===== src/Server/Publish.antt =====
-- `Tracks` of server/src/moq/publish.rs: screen and audio as frames in the groups of tracks. The
-- producers of the moq_net crate are what they have been given; whether a call of theirs succeeds
-- is an argument, and a call that fails leaves its producer as it was.
pub mod Groups
pub mod Contents
pub mod Audio
pub mod Panics
use webshooter.Base.{
  ℕ, ◌+◌, Bool, true, false, not, ◌||◌, List, [], ◌∷◌, ◌++◌, Option, none, some, ◌==◌, leb,
  if◌then◌else◌,
}
use webshooter.Shared.Codec.{Codec, to_byte}

abbrev pub audio_group_max_frames : ℕ
audio_group_max_frames = 10

abbrev pub Chunk : Type 0
Chunk = List ℕ

abbrev pub Group : Type 0
Group = List Chunk

pub record VideoFrame : Type 0 where
  pub payload : List ℕ
  pub codec : Codec
  pub is_keyframe : Bool

-- A video track with its finished groups, and the group that takes frames.
pub record Video : Type 0 where
  pub codec : Codec
  pub groups : List Group
  pub group : Option Group
  pub frames : ℕ

-- `ended` are the video tracks that were closed and `notices` the codecs that were announced to
-- the client, the oldest first.
pub record Tracks : Type 0 where
  pub ended : List Video
  pub video : Option Video
  pub audio : List Group
  pub audio_group : Option Group
  pub audio_frames : ℕ
  pub notices : List Codec

-- Which calls of one push succeed.
pub record Calls : Type 0 where
  pub creates : Bool
  pub appends : Bool
  pub writes : Bool

-- A panic is the `expect` on a group that is not open.
pub data Outcome : Type 0 where
  pushed : Outcome
  failed : Outcome
  panicked : Outcome

abbrev pub new_tracks : Tracks
new_tracks = record {
  ended = [];
  video = none;
  audio = [];
  audio_group = none;
  audio_frames = 0;
  notices = [];
}

abbrev pub finished : Option Group → List Group → List Group
finished none groups = groups
finished (some g) groups = groups ++ g ∷ []

abbrev pub closed : Video → Video
closed v = record v { groups = finished v.group v.groups; group = none }

abbrev pub end_track : Option Video → Tracks → Tracks
end_track none t = t
end_track (some v) t = record t { ended = t.ended ++ closed v ∷ []; video = none }

unfoldable pub close_video : Tracks → Tracks
close_video t = end_track t.video t

abbrev pub same_codec : Codec → Codec → Bool
same_codec a b = to_byte a == to_byte b

abbrev pub new_video : Codec → Video
new_video codec = record { codec = codec; groups = []; group = none; frames = 0 }

-- The notice goes out whether or not the control channel takes it.
unfoldable pub open_video : Codec → Tracks → Tracks
open_video codec t = record t { video = some (new_video codec); notices = t.notices ++ codec ∷ [] }

abbrev pub tag : Bool → ℕ
tag true = 1
tag false = 0

abbrev pub chunk : VideoFrame → Chunk
chunk frame = tag frame.is_keyframe ∷ frame.payload

abbrev pub put_video : Video → Tracks → Tracks
put_video v t = record t { video = some v }

abbrev pub write_to : Option Group → Calls → VideoFrame → Video → Tracks → Tracks × Outcome
write_to none calls frame v t = (put_video v t, panicked)
write_to (some g) calls frame v t =
    if calls.writes
    then (
      put_video (record v { group = some (g ++ chunk frame ∷ []); frames = v.frames + 1 }) t,
      pushed,
    )
    else (put_video v t, failed)

-- The cut at a keyframe, and the write.
unfoldable pub push_into : Calls → VideoFrame → Video → Tracks → Tracks × Outcome
push_into calls frame v t =
    if frame.is_keyframe
    then (if calls.appends
        then write_to (some []) calls frame (record (closed v) { group = some []; frames = 0 }) t
        else (put_video (closed v) t, failed))
    else write_to v.group calls frame v t

abbrev pub other_codec : Codec → Option Video → Bool
other_codec codec none = false
other_codec codec (some v) = not (same_codec v.codec codec)

abbrev pub push_open : Option Video → Calls → VideoFrame → Tracks → Tracks × Outcome
push_open none calls frame t =
    if calls.creates
    then push_into calls frame (new_video frame.codec) (open_video frame.codec t)
    else (t, failed)
push_open (some v) calls frame t = push_into calls frame v t

unfoldable pub push_video : Calls → VideoFrame → Tracks → Tracks × Outcome
unfolding push_into close_video open_video
push_video calls frame t =
    let current = if other_codec frame.codec t.video then close_video t else t in
    push_open current.video calls frame current

abbrev pub write_audio : Option Group → Calls → List ℕ → Tracks → Tracks × Outcome
write_audio none calls payload t = (t, panicked)
write_audio (some g) calls payload t =
    if calls.writes
    then (
      record t { audio_group = some (g ++ payload ∷ []); audio_frames = t.audio_frames + 1 },
      pushed,
    )
    else (t, failed)

abbrev pub is_none : {A : Type 0} → Option A → Bool
is_none none = true
is_none (some a) = false

unfoldable pub push_audio : Calls → List ℕ → Tracks → Tracks × Outcome
push_audio calls payload t =
    if is_none t.audio_group || leb audio_group_max_frames t.audio_frames
    then (if calls.appends
        then write_audio (some []) calls payload (record t {
          audio = finished t.audio_group t.audio;
          audio_group = some [];
          audio_frames = 0;
        })
        else (record t { audio = finished t.audio_group t.audio; audio_group = none }, failed))
    else write_audio t.audio_group calls payload t

-- `Drop for Tracks`
unfoldable pub drop_tracks : Tracks → Tracks
unfolding close_video
drop_tracks t =
    let u = close_video t in record u { audio = finished u.audio_group u.audio; audio_group = none }

-- What reaches `media_pump` of server/src/wt.rs: a frame that can be read, one that cannot, or an
-- audio packet.
pub data Media : Type 0 where
  screen : VideoFrame → Media
  unreadable : Media
  packet : List ℕ → Media

unfoldable pub push_media : Calls → Media → Tracks → Tracks × Outcome
push_media calls (screen f) t = push_video calls f t
push_media calls unreadable t = (t, pushed)
push_media calls (packet []) t = (t, pushed)
push_media calls (packet (b ∷ payload)) t = push_audio calls (b ∷ payload) t

abbrev pub proceed : Outcome → Tracks → Tracks × Outcome → Tracks × Outcome
proceed pushed t rest = rest
proceed failed t rest = (t, failed)
proceed panicked t rest = (t, panicked)

-- The pump ends at the first push that does not go through, or when nothing more comes. Its link
-- reports, its cancellation and the driver's end do not touch the tracks.
unfoldable pub media_pump : List (Calls × Media) → Tracks → Tracks × Outcome
unfolding push_media push_video push_audio
media_pump [] t = (t, pushed)
media_pump ((calls, m) ∷ media) t =
    let (u, outcome) = push_media calls m t in
    let rest = media_pump media u in proceed outcome u rest
