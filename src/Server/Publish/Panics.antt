-- ===== src/Server/Publish/Panics.antt =====
-- When the `expect` of server/src/moq/publish.rs on an open group can fail.
use webshooter.Base.{
  ℕ, ◌+◌, ◌≡◌, ◌≢◌, ◌⊎◌, refl, arith, true, false, ◌||◌, leb, List, [], ◌∷◌, ◌++◌, Option, none,
  some, if_intro, subst, sym, inl, inr,
}
use webshooter.Shared.Codec.{Codec}
use webshooter.Server.Publish.{
  Group, VideoFrame, Video, finished, Tracks, Calls, Outcome, pushed, failed, panicked, new_tracks,
  end_track, close_video, new_video, open_video, write_to, push_into, push_open, push_video,
  other_codec, push_audio, write_audio, is_none, audio_group_max_frames, Media, screen, unreadable,
  packet, push_media, proceed, media_pump,
}
use webshooter.Server.Publish.Groups.{end_track-video}
use webshooter.Server.Publish.Contents.{Matches, Matches-other_codec}

abbrev IsOpen : Option Group → Type 0
IsOpen none = ⊥
IsOpen (some g) = Unit {0}

-- A group of a track of this codec takes frames.
abbrev Takes : Codec → Option Video → Type 0
Takes codec none = ⊥
Takes codec (some v) = (v.codec ≡ codec) × IsOpen v.group

abbrev Good : Codec → Tracks × Outcome → Type 0
Good codec (t, pushed) = Takes codec t.video
Good codec (t, failed) = Unit {0}
Good codec (t, panicked) = ⊥

write_to-Good :
    (o : Option Group) (calls : Calls) (f : VideoFrame) (v : Video) (t : Tracks)
    → IsOpen o
    → v.codec ≡ f.codec
    → Good f.codec (write_to o calls f v t)
write_to-Good none calls f v t h e = elim h [ ]
write_to-Good (some g) calls f v t h e =
    if_intro (Good f.codec) calls.writes _ _ (λ w. (e, tt)) (λ w. tt)

push_into-Good :
    (calls : Calls) (f : VideoFrame) (v : Video) (t : Tracks)
    → (f.is_keyframe ≡ true) ⊎ IsOpen v.group
    → v.codec ≡ f.codec
    → Good f.codec (push_into calls f v t)
unfolding push_into
push_into-Good calls f v t (inl key) e =
    if_intro (Good f.codec) f.is_keyframe _ _
      (λ k.
        if_intro (Good f.codec) calls.appends _ _
          (λ a. if_intro (Good f.codec) calls.writes _ _ (λ w. (e, tt)) (λ w. tt)) (λ a. tt))
      (λ k. absurd (cc k))
push_into-Good calls f v t (inr h) e =
    if_intro (Good f.codec) f.is_keyframe _ _
      (λ k.
        if_intro (Good f.codec) calls.appends _ _
          (λ a. if_intro (Good f.codec) calls.writes _ _ (λ w. (e, tt)) (λ w. tt)) (λ a. tt))
      (λ k. write_to-Good v.group calls f v t h e)

push_open-Good :
    (o : Option Video) (calls : Calls) (f : VideoFrame) (t : Tracks)
    → (f.is_keyframe ≡ true) ⊎ Takes f.codec o
    → Matches f.codec o
    → Good f.codec (push_open o calls f t)
unfolding open_video
push_open-Good none calls f t (inl key) m =
    if_intro (Good f.codec) calls.creates _ _
      (λ c. push_into-Good calls f (new_video f.codec) (open_video f.codec t) (inl key) refl)
      (λ c. tt)
push_open-Good none calls f t (inr h) m = elim h [ ]
push_open-Good (some v) calls f t (inl key) m = push_into-Good calls f v t (inl key) m
push_open-Good (some v) calls f t (inr h) m = push_into-Good calls f v t (inr h.1) m

Takes-other_codec : (codec : Codec) (o : Option Video) → Takes codec o → other_codec codec o ≡ false
Takes-other_codec codec none h = elim h [ ]
Takes-other_codec codec (some v) h = ground (arith, h)

push_video-Good :
    (calls : Calls) (f : VideoFrame) (t : Tracks)
    → (f.is_keyframe ≡ true) ⊎ Takes f.codec t.video
    → Good f.codec (push_video calls f t)
unfolding push_video close_video
push_video-Good calls f t (inl key) =
    if_intro (λ u. Good f.codec (push_open u.video calls f u)) (other_codec f.codec t.video) _ _
      (λ e.
        let u = end_track t.video t in
        push_open-Good u.video calls f u (inl key)
          (subst (λ o. Matches f.codec o) (sym (end_track-video t.video t refl)) (tt {0})))
      (λ e. push_open-Good t.video calls f t (inl key) (Matches-other_codec f.codec t.video e))
push_video-Good calls f t (inr h) =
    if_intro (λ u. Good f.codec (push_open u.video calls f u)) (other_codec f.codec t.video) _ _
      (λ e. absurd (cc (e, Takes-other_codec f.codec t.video h)))
      (λ e. push_open-Good t.video calls f t (inr h) (Matches-other_codec f.codec t.video e))

-- The first frame that can be read is a keyframe, and so is each whose codec is not that of the
-- last one that could be read.
abbrev pub Keyed : Option Codec → List (Calls × Media) → Type 0
Keyed last [] = Unit {0}
Keyed last ((calls, screen f) ∷ media) =
    ((f.is_keyframe ≡ true) ⊎ (last ≡ some f.codec)) × Keyed (some f.codec) media
Keyed last ((calls, unreadable) ∷ media) = Keyed last media
Keyed last ((calls, packet payload) ∷ media) = Keyed last media

abbrev Ready : Option Codec → Tracks → Type 0
Ready none t = Unit {0}
Ready (some codec) t = Takes codec t.video

abbrev Step : Option Codec → Tracks × Outcome → Type 0
Step last (t, pushed) = Ready last t
Step last (t, failed) = Unit {0}
Step last (t, panicked) = ⊥

Takes-Ready :
    (last : Option Codec) (f : VideoFrame) (t : Tracks)
    → Ready last t
    → (f.is_keyframe ≡ true) ⊎ (last ≡ some f.codec)
    → (f.is_keyframe ≡ true) ⊎ Takes f.codec t.video
Takes-Ready last f t r (inl key) = inl key
Takes-Ready last f t r (inr e) = inr (subst (λ o. Ready o t) e r)

Step-Ready :
    (last : Option Codec) (t u : Tracks) → u.video ≡ t.video → Ready last t → Step last (u, pushed)
Step-Ready none t u e r = tt
Step-Ready (some codec) t u e r = subst (λ o. Takes codec o) (sym e) r

write_audio-Step :
    (last : Option Codec) (o : Option Group) (calls : Calls) (payload : List ℕ) (t : Tracks)
    → is_none o ≡ false
    → Ready last t
    → Step last (write_audio o calls payload t)
write_audio-Step last none calls payload t e r = absurd (cc e)
write_audio-Step last (some g) calls payload t e r =
    if_intro (Step last) calls.writes _ _
      (λ w.
        Step-Ready last t
          (record t { audio_group = some (g ++ payload ∷ []); audio_frames = t.audio_frames + 1 })
          refl r)
      (λ w. tt)

push_audio-Step :
    (last : Option Codec) (calls : Calls) (payload : List ℕ) (t : Tracks)
    → Ready last t
    → Step last (push_audio calls payload t)
unfolding push_audio
push_audio-Step last calls payload t r =
    if_intro (Step last) (is_none t.audio_group || leb audio_group_max_frames t.audio_frames) _ _
      (λ e.
        if_intro (Step last) calls.appends _ _
          (λ a.
            let u = record t {
              audio = finished t.audio_group t.audio;
              audio_group = some [];
              audio_frames = 0;
            } in
            write_audio-Step last (some []) calls payload u refl (Step-Ready last t u refl r))
          (λ a. tt))
      (λ e. write_audio-Step last t.audio_group calls payload t (ground (arith, e)) r)

proceed-not_panicked :
    (last : Option Codec) (p rest : Tracks × Outcome)
    → Step last p
    → (Ready last p.0 → rest.1 ≢ panicked)
    → (proceed p.1 p.0 rest).1 ≢ panicked
proceed-not_panicked last (t, pushed) rest h k = k h
proceed-not_panicked last (t, failed) rest h k = cc
proceed-not_panicked last (t, panicked) rest h k = elim h [ ]

media_pump-Ready :
    (last : Option Codec) (media : List (Calls × Media)) (t : Tracks)
    → Keyed last media
    → Ready last t
    → (media_pump media t).1 ≢ panicked
unfolding media_pump push_media
media_pump-Ready last [] t k r = cc
media_pump-Ready last ((calls, screen f) ∷ media) t k r =
    let p = push_video calls f t in
    proceed-not_panicked (some f.codec) p (media_pump media p.0)
      (push_video-Good calls f t (Takes-Ready last f t r k.0))
      (λ r'. media_pump-Ready (some f.codec) media p.0 k.1 r')
media_pump-Ready last ((calls, unreadable) ∷ media) t k r = media_pump-Ready last media t k r
media_pump-Ready last ((calls, packet []) ∷ media) t k r = media_pump-Ready last media t k r
media_pump-Ready last ((calls, packet (b ∷ payload)) ∷ media) t k r =
    let p = push_audio calls (b ∷ payload) t in
    proceed-not_panicked last p (media_pump media p.0)
      (push_audio-Step last calls (b ∷ payload) t r) (λ r'. media_pump-Ready last media p.0 k r')

-- Where the first frame that can be read, and each one after a change of codec, is a keyframe, the
-- pump does not panic, whichever calls of moq_net fail.
pub media_pump-not_panicked :
    (media : List (Calls × Media)) → Keyed none media → (media_pump media new_tracks).1 ≢ panicked
media_pump-not_panicked media k = media_pump-Ready none media new_tracks k tt
