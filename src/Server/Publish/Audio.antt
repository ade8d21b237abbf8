-- ===== src/Server/Publish/Audio.antt =====
-- The audio groups of server/src/moq/publish.rs, and when a push can panic.
use webshooter.Base.{
  ℕ, ◌≤◌, ◌<◌, ◌≡◌, refl, arith, false, ◌||◌, leb, List, [], ◌∷◌, Option, none, some, All,
  All-append, if_intro, subst, sym, ◌∙◌, length, length-append,
}
use webshooter.Server.Publish.{
  Group, VideoFrame, Video, Tracks, Calls, Outcome, pushed, failed, panicked, new_tracks, finished,
  end_track, close_video, new_video, open_video, write_to, push_into, push_open, push_video,
  other_codec, push_audio, write_audio, is_none, audio_group_max_frames, Media, screen, unreadable,
  packet, push_media, proceed, media_pump,
}
use webshooter.Server.Publish.Groups.{InGroup}

-- The finished groups are within the limit, and the counter counts the open one.
abbrev pub IsBounded : Tracks → Type 0
IsBounded t =
    All (λ g. length g ≤ 10) t.audio
    × InGroup (λ g. (length g ≡ t.audio_frames) × (length g ≤ 10)) t.audio_group

finished-bounded :
    (o : Option Group) (n : ℕ) (groups : List Group)
    → All (λ g. length g ≤ 10) groups
    → InGroup (λ g. (length g ≡ n) × (length g ≤ 10)) o
    → All (λ g. length g ≤ 10) (finished o groups)
finished-bounded none n groups h k = h
finished-bounded (some g) n groups h k = All-append (λ g. length g ≤ 10) groups (g ∷ []) h (k.1, tt)

write_audio-IsBounded :
    (o : Option Group) (calls : Calls) (payload : List ℕ) (t : Tracks)
    → t.audio_group ≡ o
    → t.audio_frames < 10
    → IsBounded t
    → IsBounded (write_audio o calls payload t).0
write_audio-IsBounded none calls payload t e n h = h
write_audio-IsBounded (some g) calls payload t e n h =
    let k = subst (λ o. InGroup (λ g. (length g ≡ t.audio_frames) × (length g ≤ 10)) o) e h.1 in
    let one = length-append g (payload ∷ []) in
    if_intro (λ (p : Tracks × Outcome). IsBounded p.0) calls.writes _ _
      (λ w. (h.0, (omega (arith, one), omega (arith, one)))) (λ w. h)

below :
    (t : Tracks)
    → (is_none t.audio_group || leb audio_group_max_frames t.audio_frames) ≡ false
    → t.audio_frames < 10
below t e = ground (arith, e)

push_audio-IsBounded :
    (calls : Calls) (payload : List ℕ) (t : Tracks)
    → IsBounded t
    → IsBounded (push_audio calls payload t).0
unfolding push_audio
push_audio-IsBounded calls payload t h =
    let shut = finished-bounded t.audio_group t.audio_frames t.audio h.0 h.1 in
    if_intro (λ (p : Tracks × Outcome). IsBounded p.0)
      (is_none t.audio_group || leb audio_group_max_frames t.audio_frames) _ _
      (λ e.
        if_intro (λ (p : Tracks × Outcome). IsBounded p.0) calls.appends _ _
          (λ a.
            if_intro (λ (p : Tracks × Outcome). IsBounded p.0) calls.writes _ _
              (λ w. (shut, (refl, omega arith))) (λ w. (shut, (refl, omega arith))))
          (λ a. (shut, tt)))
      (λ e. write_audio-IsBounded t.audio_group calls payload t refl (below t e) h)

-- The audio of the tracks, which a video frame leaves alone.
abbrev sound : Tracks → List Group × Option Group × ℕ
sound t = (t.audio, t.audio_group, t.audio_frames)

abbrev Silent : Tracks → Tracks × Outcome → Type 0
Silent t p = sound p.0 ≡ sound t

write_to-Silent :
    (o : Option Group) (calls : Calls) (f : VideoFrame) (v : Video) (t : Tracks)
    → Silent t (write_to o calls f v t)
write_to-Silent none calls f v t = refl
write_to-Silent (some g) calls f v t = if_intro (Silent t) calls.writes _ _ (λ w. refl) (λ w. refl)

push_into-Silent :
    (calls : Calls) (f : VideoFrame) (v : Video) (t : Tracks) → Silent t (push_into calls f v t)
unfolding push_into
push_into-Silent calls f v t =
    if_intro (Silent t) f.is_keyframe _ _
      (λ k.
        if_intro (Silent t) calls.appends _ _
          (λ a. if_intro (Silent t) calls.writes _ _ (λ w. refl) (λ w. refl)) (λ a. refl))
      (λ k. write_to-Silent v.group calls f v t)

push_open-Silent :
    (o : Option Video) (calls : Calls) (f : VideoFrame) (t : Tracks)
    → Silent t (push_open o calls f t)
unfolding open_video
push_open-Silent none calls f t =
    if_intro (Silent t) calls.creates _ _
      (λ c. push_into-Silent calls f (new_video f.codec) (open_video f.codec t)) (λ c. refl)
push_open-Silent (some v) calls f t = push_into-Silent calls f v t

end_track-sound : (o : Option Video) (t : Tracks) → sound (end_track o t) ≡ sound t
end_track-sound none t = refl
end_track-sound (some v) t = refl

push_video-Silent : (calls : Calls) (f : VideoFrame) (t : Tracks) → Silent t (push_video calls f t)
unfolding push_video close_video
push_video-Silent calls f t =
    if_intro (λ u. Silent t (push_open u.video calls f u)) (other_codec f.codec t.video) _ _
      (λ e.
        let u = end_track t.video t in
        push_open-Silent u.video calls f u ∙ end_track-sound t.video t)
      (λ e. push_open-Silent t.video calls f t)

abbrev Bounded : List Group × Option Group × ℕ → Type 0
Bounded (audio, group, frames) =
    All (λ g. length g ≤ 10) audio × InGroup (λ g. (length g ≡ frames) × (length g ≤ 10)) group

push_media-IsBounded :
    (calls : Calls) (m : Media) (t : Tracks) → IsBounded t → IsBounded (push_media calls m t).0
unfolding push_media
push_media-IsBounded calls (screen f) t h = subst Bounded (sym (push_video-Silent calls f t)) h
push_media-IsBounded calls unreadable t h = h
push_media-IsBounded calls (packet []) t h = h
push_media-IsBounded calls (packet (b ∷ payload)) t h = push_audio-IsBounded calls (b ∷ payload) t h

proceed-state :
    (o : Outcome) (u : Tracks) (rest : Tracks × Outcome)
    → IsBounded u
    → IsBounded rest.0
    → IsBounded (proceed o u rest).0
proceed-state pushed u rest h k = k
proceed-state failed u rest h k = h
proceed-state panicked u rest h k = h

media_pump-state :
    (media : List (Calls × Media)) (t : Tracks) → IsBounded t → IsBounded (media_pump media t).0
unfolding media_pump
media_pump-state [] t h = h
media_pump-state ((calls, m) ∷ media) t h =
    let p = push_media calls m t in
    let k = push_media-IsBounded calls m t h in
    proceed-state p.1 p.0 (media_pump media p.0) k (media_pump-state media p.0 k)

-- Whatever comes to the pump and whichever calls fail, no audio group has more than 10 packets, and
-- the counter counts those of the open one.
pub media_pump-IsBounded :
    (media : List (Calls × Media)) → IsBounded (media_pump media new_tracks).0
media_pump-IsBounded media = media_pump-state media new_tracks (tt, tt)
