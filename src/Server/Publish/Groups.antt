-- ===== src/Server/Publish/Groups.antt =====
-- The groups of the video tracks of server/src/moq/publish.rs begin with their only keyframe.
use webshooter.Base.{
  ℕ, ◌≡◌, refl, true, false, ◌||◌, leb, List, [], ◌∷◌, ◌++◌, Option, none, some, All, All-append,
  if_intro, subst, sym, ap,
}
use webshooter.Server.Publish.{
  Chunk, Group, VideoFrame, Video, Tracks, Calls, Outcome, pushed, failed, panicked, new_tracks,
  finished, closed, end_track, close_video, new_video, open_video, tag, chunk, write_to, push_into,
  push_open, push_video, other_codec, drop_tracks, push_audio, write_audio, is_none,
  audio_group_max_frames, Media, screen, unreadable, packet, push_media, proceed, media_pump,
}

abbrev first_byte : Chunk → ℕ
first_byte [] = 2
first_byte (b ∷ c) = b

-- The first frame is a keyframe, and no other one is.
abbrev pub Started : Group → Type 0
Started [] = ⊥
Started (c ∷ g) = (first_byte c ≡ 1) × All (λ d. first_byte d ≡ 0) g

-- A group into which nothing could be written is empty.
abbrev pub Decodable : Group → Type 0
Decodable [] = Unit {0}
Decodable (c ∷ g) = Started (c ∷ g)

abbrev pub InGroup : (Group → Type 0) → Option Group → Type 0
InGroup P none = Unit {0}
InGroup P (some g) = P g

-- The finished groups can be decoded, and the group that takes frames is as `P` says.
abbrev pub InTrack : (Group → Type 0) → Option Video → Type 0
InTrack P none = Unit {0}
InTrack P (some v) = All Decodable v.groups × InGroup P v.group

abbrev pub Groups : (Group → Type 0) → Tracks → Type 0
Groups P t = All (λ v. All Decodable v.groups) t.ended × InTrack P t.video

abbrev pub After : Tracks × Outcome → Type 0
After (t, pushed) = Groups Started t
After (t, failed) = Groups Decodable t
After (t, panicked) = Groups Decodable t

Started-Decodable : (g : Group) → Started g → Decodable g
Started-Decodable [] h = tt
Started-Decodable (c ∷ g) h = h

track_weak : (o : Option Video) → InTrack Started o → InTrack Decodable o
track_weak none h = tt
track_weak (some v) h = (h.0, weak v.group h.1)
  where
    weak : (o : Option Group) → InGroup Started o → InGroup Decodable o
    weak none k = tt
    weak (some g) k = Started-Decodable g k

finished-All :
    (o : Option Group) (groups : List Group)
    → All Decodable groups
    → InGroup Decodable o
    → All Decodable (finished o groups)
finished-All none groups h k = h
finished-All (some g) groups h k = All-append Decodable groups (g ∷ []) h (k, tt)

Started-append : (g : Group) (c : Chunk) → Started g → first_byte c ≡ 0 → Started (g ++ c ∷ [])
Started-append [] c h e = elim h [ ]
Started-append (d ∷ g) c h e = (h.0, All-append (λ b. first_byte b ≡ 0) g (c ∷ []) h.1 (e, tt))

close_video-Groups :
    (t : Tracks) (o : Option Video)
    → All (λ v. All Decodable v.groups) t.ended
    → InTrack Decodable o
    → All (λ v. All Decodable v.groups) (end_track o t).ended
close_video-Groups t none h k = h
close_video-Groups t (some v) h k =
    All-append (λ w. All Decodable w.groups) t.ended (closed v ∷ []) h
      (finished-All v.group v.groups k.0 k.1, tt)

-- A delta goes behind the frames of the open group.
write_delta :
    (o : Option Group) (calls : Calls) (frame : VideoFrame) (v : Video) (t : Tracks)
    → frame.is_keyframe ≡ false
    → All (λ w. All Decodable w.groups) t.ended
    → All Decodable v.groups
    → v.group ≡ o
    → InGroup Started o
    → After (write_to o calls frame v t)
write_delta none calls frame v t e h k g s =
    (h, (k, subst (λ o. InGroup Decodable o) (sym g) (tt {0})))
write_delta (some group) calls frame v t e h k g s =
    if_intro After calls.writes _ _ (λ w. (h, (k, Started-append group (chunk frame) s (ap tag e))))
      (λ w. (h, (k, subst (λ o. InGroup Decodable o) (sym g) (Started-Decodable group s))))

-- A keyframe is the first frame of a new group.
write_key :
    (calls : Calls) (frame : VideoFrame) (v : Video) (t : Tracks)
    → frame.is_keyframe ≡ true
    → All (λ w. All Decodable w.groups) t.ended
    → All Decodable v.groups
    → After (write_to (some []) calls frame (record v { group = some []; frames = 0 }) t)
write_key calls frame v t e h k =
    if_intro After calls.writes _ _ (λ w. (h, (k, (ap tag e, tt)))) (λ w. (h, (k, tt)))

push_into-After :
    (calls : Calls) (frame : VideoFrame) (v : Video) (t : Tracks)
    → All (λ w. All Decodable w.groups) t.ended
    → InTrack Started (some v)
    → After (push_into calls frame v t)
unfolding push_into
push_into-After calls frame v t h k =
    let weak = track_weak (some v) k in
    let groups = finished-All v.group v.groups weak.0 weak.1 in
    if_intro After frame.is_keyframe _ _
      (λ e.
        if_intro After calls.appends _ _ (λ a. write_key calls frame (closed v) t e h groups)
          (λ a. (h, (groups, tt))))
      (λ e. write_delta v.group calls frame v t e h k.0 refl k.1)

push_open-After :
    (o : Option Video) (calls : Calls) (frame : VideoFrame) (t : Tracks)
    → All (λ w. All Decodable w.groups) t.ended
    → t.video ≡ o
    → InTrack Started o
    → After (push_open o calls frame t)
unfolding open_video
push_open-After none calls frame t h e k =
    if_intro After calls.creates _ _
      (λ c.
        push_into-After calls frame (new_video frame.codec) (open_video frame.codec t) h (tt, tt))
      (λ c. (h, subst (λ o. InTrack Decodable o) (sym e) (tt {0})))
push_open-After (some v) calls frame t h e k = push_into-After calls frame v t h k

pub end_track-video : (o : Option Video) (t : Tracks) → t.video ≡ o → (end_track o t).video ≡ none
end_track-video none t e = e
end_track-video (some v) t e = refl

push_video-After :
    (calls : Calls) (frame : VideoFrame) (t : Tracks)
    → Groups Started t
    → After (push_video calls frame t)
unfolding push_video close_video
push_video-After calls frame t h =
    if_intro (λ u. After (push_open u.video calls frame u)) (other_codec frame.codec t.video) _ _
      (λ e.
        let shut = end_track-video t.video t refl in
        push_open-After (end_track t.video t).video calls frame (end_track t.video t)
          (close_video-Groups t t.video h.0 (track_weak t.video h.1)) refl
          (subst (λ o. InTrack Started o) (sym shut) (tt {0})))
      (λ e. push_open-After t.video calls frame t h.0 refl h.1)

-- Audio leaves the video tracks alone.
write_audio-Groups :
    (o : Option Group) (calls : Calls) (payload : List ℕ) (t : Tracks)
    → Groups Started t
    → Groups Decodable t
    → After (write_audio o calls payload t)
write_audio-Groups none calls payload t h k = k
write_audio-Groups (some g) calls payload t h k = if_intro After calls.writes _ _ (λ w. h) (λ w. k)

push_audio-After :
    (calls : Calls) (payload : List ℕ) (t : Tracks)
    → Groups Started t
    → After (push_audio calls payload t)
unfolding push_audio
push_audio-After calls payload t h =
    let weak : Groups Decodable t = (h.0, track_weak t.video h.1) in
    if_intro After (is_none t.audio_group || leb audio_group_max_frames t.audio_frames) _ _
      (λ e.
        if_intro After calls.appends _ _
          (λ a.
            write_audio-Groups (some []) calls payload
              (record t {
                audio = finished t.audio_group t.audio;
                audio_group = some [];
                audio_frames = 0;
              })
              h weak)
          (λ a. weak))
      (λ e. write_audio-Groups t.audio_group calls payload t h weak)

push_media-After :
    (calls : Calls) (m : Media) (t : Tracks) → Groups Started t → After (push_media calls m t)
unfolding push_media
push_media-After calls (screen f) t h = push_video-After calls f t h
push_media-After calls unreadable t h = h
push_media-After calls (packet []) t h = h
push_media-After calls (packet (b ∷ payload)) t h = push_audio-After calls (b ∷ payload) t h

proceed-Decodable :
    (p rest : Tracks × Outcome)
    → After p
    → (Groups Started p.0 → Groups Decodable rest.0)
    → Groups Decodable (proceed p.1 p.0 rest).0
proceed-Decodable (t, pushed) rest h k = k h
proceed-Decodable (t, failed) rest h k = h
proceed-Decodable (t, panicked) rest h k = h

media_pump-Groups :
    (media : List (Calls × Media)) (t : Tracks)
    → Groups Started t
    → Groups Decodable (media_pump media t).0
unfolding media_pump
media_pump-Groups [] t h = (h.0, track_weak t.video h.1)
media_pump-Groups ((calls, m) ∷ media) t h =
    proceed-Decodable (push_media calls m t) (media_pump media (push_media calls m t).0)
      (push_media-After calls m t h) (λ k. media_pump-Groups media (push_media calls m t).0 k)

drop_tracks-Groups : (t : Tracks) → Groups Decodable t → Groups Decodable (drop_tracks t)
unfolding drop_tracks close_video
drop_tracks-Groups t h = (
  close_video-Groups t t.video h.0 h.1,
  subst (λ o. InTrack Decodable o) (sym (end_track-video t.video t refl)) (tt {0}),
)

-- Whatever comes to the pump, whichever calls of moq_net fail and however the pump ends: in every
-- group of every video track the first frame is a keyframe and no other one is; a group can only be
-- empty instead. So it is after the tracks are dropped.
pub media_pump-Decodable :
    (media : List (Calls × Media))
    → Groups Decodable (media_pump media new_tracks).0
      × Groups Decodable (drop_tracks (media_pump media new_tracks).0)
media_pump-Decodable media =
    let all = media_pump-Groups media new_tracks (tt, tt) in
    (all, drop_tracks-Groups (media_pump media new_tracks).0 all)
