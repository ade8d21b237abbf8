-- ===== src/Server/Publish/Contents.antt =====
-- What the tracks of server/src/moq/publish.rs carry, frame by frame.
use webshooter.Base.{
  ℕ, ◌+◌, ◌≡◌, refl, arith, true, false, ◌||◌, leb, List, [], ◌∷◌, ◌++◌, map, Option, none, some,
  if_intro, subst, sym, ap, ◌∙◌, append_assoc, append-nil,
}
use mathlib.Core.List.{map-append}
use webshooter.Shared.Codec.{Codec, to_byte}
use webshooter.Server.Publish.Groups.{end_track-video}
use webshooter.Server.Publish.{
  Chunk, Group, VideoFrame, Video, Tracks, Calls, Outcome, pushed, failed, panicked, new_tracks,
  finished, closed, end_track, close_video, new_video, open_video, chunk, write_to, push_into,
  push_open, push_video, other_codec, same_codec, push_audio, write_audio, is_none,
  audio_group_max_frames, Media, screen, unreadable, packet, push_media, proceed, media_pump,
}

abbrev pub flat : {A : Type 0} → List (List A) → List A
flat [] = []
flat (g ∷ groups) = g ++ flat groups

flat-append : {A : Type 0} (xs ys : List (List A)) → flat (xs ++ ys) ≡ flat xs ++ flat ys
flat-append [] ys = refl
flat-append (g ∷ xs) ys =
    ap (λ l. g ++ l) (flat-append xs ys) ∙ sym (append_assoc g (flat xs) (flat ys))

-- The frames of a track, each with the codec that the track's name gives.
abbrev pub carried : Video → List (Codec × Chunk)
carried v = map (λ c. (v.codec, c)) (flat (finished v.group v.groups))

abbrev pub carried_open : Option Video → List (Codec × Chunk)
carried_open none = []
carried_open (some v) = carried v

-- The frames of all video tracks, the ended ones first.
abbrev pub shown : Tracks → List (Codec × Chunk)
shown t = flat (map carried t.ended) ++ carried_open t.video

abbrev added : {A : Type 0} → Outcome → A → List A
added pushed x = x ∷ []
added failed x = []
added panicked x = []

ruleset contents = (flat-append, map-append, append_assoc, append-nil)

shown-end_track :
    (o : Option Video) (t : Tracks)
    → t.video ≡ o
    → shown (end_track o t) ≡ flat (map carried t.ended) ++ carried_open o
shown-end_track none t e = ap (λ v. flat (map carried t.ended) ++ carried_open v) e
shown-end_track (some v) t e = simp contents

carried-write :
    (g : Group) (c : Chunk) (v : Video)
    → carried (record v { group = some (g ++ c ∷ []); frames = v.frames + 1 })
      ≡ carried (record v { group = some g }) ++ (v.codec, c) ∷ []
carried-write g c v = simp contents

-- The groups before are `before` and the frame's codec is the track's.
abbrev Adds : List (Codec × Chunk) → Codec × Chunk → Tracks × Outcome → Type 0
Adds before x p = shown p.0 ≡ before ++ added p.1 x

-- The frames of all tracks, with another group open in the last one.
abbrev with_group : Tracks → Video → Option Group → List (Codec × Chunk)
with_group t v o = flat (map carried t.ended) ++ carried (record v { group = o })

write_to-Adds :
    (o : Option Group) (calls : Calls) (f : VideoFrame) (v : Video) (t : Tracks)
    → v.group ≡ o
    → Adds (with_group t v o) (v.codec, chunk f) (write_to o calls f v t)
write_to-Adds none calls f v t e =
    ap (λ o. with_group t v o) e ∙ sym (append-nil (with_group t v none))
write_to-Adds (some g) calls f v t e =
    if_intro (Adds (with_group t v (some g)) (v.codec, chunk f)) calls.writes _ _
      (λ w.
        ap (λ l. flat (map carried t.ended) ++ l) (carried-write g (chunk f) v)
        ∙ sym (
            append_assoc (flat (map carried t.ended)) (carried (record v { group = some g }))
              ((v.codec, chunk f) ∷ [])))
      (λ w. ap (λ o. with_group t v o) e ∙ sym (append-nil (with_group t v (some g))))

push_into-Adds :
    (calls : Calls) (f : VideoFrame) (v : Video) (t : Tracks)
    → Adds (with_group t v v.group) (v.codec, chunk f) (push_into calls f v t)
unfolding push_into
push_into-Adds calls f v t =
    if_intro (Adds (with_group t v v.group) (v.codec, chunk f)) f.is_keyframe _ _
      (λ k.
        if_intro (Adds (with_group t v v.group) (v.codec, chunk f)) calls.appends _ _
          (λ a.
            subst
              (λ b.
                Adds b (v.codec, chunk f)
                  (write_to (some []) calls f (record (closed v) { group = some []; frames = 0 })
                    t))
              (ap (λ l. flat (map carried t.ended) ++ map (λ c. (v.codec, c)) l)
                (flat-append (finished v.group v.groups) ([] ∷ [])
                  ∙ append-nil (flat (finished v.group v.groups))))
              (write_to-Adds (some []) calls f (record (closed v) { group = some []; frames = 0 }) t
                refl))
          (λ a. sym (append-nil (with_group t v v.group))))
      (λ k. write_to-Adds v.group calls f v t refl)

same_codec_sound : (a b : Codec) → same_codec a b ≡ true → a ≡ b
unfolding to_byte
same_codec_sound a b h = ground (arith, h)

abbrev pub Matches : Codec → Option Video → Type 0
Matches codec none = Unit {0}
Matches codec (some v) = v.codec ≡ codec

push_open-Adds :
    (o : Option Video) (calls : Calls) (f : VideoFrame) (t : Tracks)
    → t.video ≡ o
    → Matches f.codec o
    → Adds (flat (map carried t.ended) ++ carried_open o) (f.codec, chunk f) (push_open o calls f t)
unfolding open_video
push_open-Adds none calls f t e m =
    if_intro (Adds (flat (map carried t.ended) ++ []) (f.codec, chunk f)) calls.creates _ _
      (λ c. push_into-Adds calls f (new_video f.codec) (open_video f.codec t))
      (λ c.
        ap (λ o. flat (map carried t.ended) ++ carried_open o) e
        ∙ sym (append-nil (flat (map carried t.ended) ++ [])))
push_open-Adds (some v) calls f t e m =
    subst (λ c. Adds (flat (map carried t.ended) ++ carried v) (c, chunk f) (push_into calls f v t))
      m (push_into-Adds calls f v t)

pub Matches-other_codec :
    (codec : Codec) (o : Option Video) → other_codec codec o ≡ false → Matches codec o
Matches-other_codec codec none h = tt
Matches-other_codec codec (some v) h = same_codec_sound v.codec codec (ground (arith, h))

-- A push that goes through adds its frame, under its own codec, behind the frames of all tracks, and
-- one that does not changes no frame.
pub push_video-shown :
    (calls : Calls) (f : VideoFrame) (t : Tracks)
    → shown (push_video calls f t).0 ≡ shown t ++ added (push_video calls f t).1 (f.codec, chunk f)
unfolding push_video close_video
push_video-shown calls f t =
    if_intro (λ u. Adds (shown t) (f.codec, chunk f) (push_open u.video calls f u))
      (other_codec f.codec t.video) _ _
      (λ e.
        let u = end_track t.video t in
        subst (λ b. Adds b (f.codec, chunk f) (push_open u.video calls f u))
          (shown-end_track t.video t refl)
          (push_open-Adds u.video calls f u refl
            (subst (λ o. Matches f.codec o) (sym (end_track-video t.video t refl)) (tt {0}))))
      (λ e. push_open-Adds t.video calls f t refl (Matches-other_codec f.codec t.video e))

abbrev Same : Tracks → Tracks × Outcome → Type 0
Same t p = shown p.0 ≡ shown t

shown-write_audio :
    (o : Option Group) (calls : Calls) (payload : List ℕ) (t : Tracks)
    → Same t (write_audio o calls payload t)
shown-write_audio none calls payload t = refl
shown-write_audio (some g) calls payload t =
    if_intro (Same t) calls.writes _ _ (λ w. refl) (λ w. refl)

shown-push_audio :
    (calls : Calls) (payload : List ℕ) (t : Tracks) → Same t (push_audio calls payload t)
unfolding push_audio
shown-push_audio calls payload t =
    if_intro (Same t) (is_none t.audio_group || leb audio_group_max_frames t.audio_frames) _ _
      (λ e.
        if_intro (Same t) calls.appends _ _
          (λ a. if_intro (Same t) calls.writes _ _ (λ w. refl) (λ w. refl)) (λ a. refl))
      (λ e. shown-write_audio t.audio_group calls payload t)

abbrev pub video_in : Media → List (Codec × Chunk)
video_in (screen f) = (f.codec, chunk f) ∷ []
video_in unreadable = []
video_in (packet payload) = []

-- The frames that can be read.
abbrev pub readable : List (Calls × Media) → List (Codec × Chunk)
readable [] = []
readable ((calls, m) ∷ media) = video_in m ++ readable media

push_media-shown :
    (calls : Calls) (m : Media) (t : Tracks)
    → (push_media calls m t).1 ≡ pushed
    → shown (push_media calls m t).0 ≡ shown t ++ video_in m
unfolding push_media
push_media-shown calls (screen f) t h =
    push_video-shown calls f t ∙ ap (λ o. shown t ++ added o (f.codec, chunk f)) h
push_media-shown calls unreadable t h = sym (append-nil (shown t))
push_media-shown calls (packet []) t h = sym (append-nil (shown t))
push_media-shown calls (packet (b ∷ payload)) t h =
    shown-push_audio calls (b ∷ payload) t ∙ sym (append-nil (shown t))

pub proceed-pushed :
    (o : Outcome) (u : Tracks) (rest : Tracks × Outcome)
    → (proceed o u rest).1 ≡ pushed
    → (o ≡ pushed) × (proceed o u rest ≡ rest)
proceed-pushed pushed u rest h = (refl, refl)
proceed-pushed failed u rest h = cc
proceed-pushed panicked u rest h = cc

media_pump-shown :
    (media : List (Calls × Media)) (t : Tracks)
    → (media_pump media t).1 ≡ pushed
    → shown (media_pump media t).0 ≡ shown t ++ readable media
unfolding media_pump
media_pump-shown [] t h = sym (append-nil (shown t))
media_pump-shown ((calls, m) ∷ media) t h =
    let p = push_media calls m t in
    let (through, same) = proceed-pushed p.1 p.0 (media_pump media p.0) h in
    ap (λ (q : Tracks × Outcome). shown q.0) same
    ∙ (media_pump-shown media p.0 (ap (λ (q : Tracks × Outcome). q.1) (sym same) ∙ h)
        ∙ (ap (λ l. l ++ readable media) (push_media-shown calls m t through)
            ∙ append_assoc (shown t) (video_in m) (readable media)))

-- As long as every push goes through, the video tracks carry exactly the frames that could be read,
-- in order, each on a track of its own codec and behind the byte that says whether it is a keyframe.
pub shown-media_pump :
    (media : List (Calls × Media))
    → (media_pump media new_tracks).1 ≡ pushed
    → shown (media_pump media new_tracks).0 ≡ readable media
shown-media_pump media h = media_pump-shown media new_tracks h
