-- ===== src/Tests/Media.antt =====
-- The published tracks and the page's streams at concrete inputs: server/src/moq/publish.rs,
-- webui/wasm/src/moq.rs.
use webshooter.Base.{
  arith, ℕ, ◌≡◌, ◌≢◌, ◌++◌, refl, true, false, List, [], ◌∷◌, inl, inr, ◌*◌, ◌/◌, length,
}
use webshooter.Shared.Codec.{av1, h264, to_byte}
use webshooter.Shared.WakeQueue.{poll_pop, push, close}
use webshooter.Server.Publish.{
  VideoFrame, Calls, panicked, new_tracks, Media, screen, unreadable, packet, media_pump,
  drop_tracks, close_video, open_video, push_into,
}
use webshooter.Server.Publish.Groups.{Groups, Decodable, media_pump-Decodable}
use webshooter.Server.Publish.Contents.{shown, readable, shown-media_pump}
use webshooter.Server.Publish.Panics.{media_pump-not_panicked}
use webshooter.Webui.Opus.{
  opus_samples_per_frame, opus_samples_per_frame-duration, opus_packet_samples,
  opus_identification_header, duration,
}
use webshooter.Webui.Moq.Recv
use webshooter.Webui.Moq.Recv.{chunk, with_initial_chunk}
use webshooter.Webui.Moq.Recv.Delivery
use webshooter.Webui.Moq.Recv.Delivery.{held, all_delivered, all_arriving, delivered-held}
use webshooter.Webui.Moq.Control.{
  AppSide, Event, next_control, poll_next, after, IsOver, poll_next_end, datagram, closed, poll,
  close_both,
}

abbrev all_well : Calls
all_well = record { creates = true; appends = true; writes = true }

abbrev key : VideoFrame
key = record { payload = 7 ∷ 8 ∷ []; codec = h264; is_keyframe = true }

abbrev delta : VideoFrame
delta = record { payload = 9 ∷ []; codec = h264; is_keyframe = false }

abbrev other_key : VideoFrame
other_key = record { payload = 5 ∷ []; codec = av1; is_keyframe = true }

abbrev media : List (Calls × Media)
media =
    (all_well, screen key)
    ∷ (all_well, packet (1 ∷ 2 ∷ []))
    ∷ (all_well, screen delta)
    ∷ (all_well, unreadable)
    ∷ (all_well, screen other_key)
    ∷ []

media_pump-Decodable_example :
    Groups Decodable (media_pump media new_tracks).0
    × Groups Decodable (drop_tracks (media_pump media new_tracks).0)
media_pump-Decodable_example = media_pump-Decodable media

shown-media_pump_example : shown (media_pump media new_tracks).0 ≡ readable media
unfolding media_pump close_video open_video push_into to_byte
shown-media_pump_example = shown-media_pump media refl

media_pump-not_panicked_example : (media_pump media new_tracks).1 ≢ panicked
media_pump-not_panicked_example =
    media_pump-not_panicked media (inl refl, (inr refl, (inl refl, tt)))

-- A first keyframe that cannot be read, and the frame behind it.
unreadable_key :
    (media_pump ((all_well, unreadable) ∷ (all_well, screen delta) ∷ []) new_tracks).1 ≡ panicked
unfolding media_pump open_video push_into
unreadable_key = refl

abbrev polls : List (ℕ × Recv.Promise)
polls = (2, Recv.waiting) ∷ (2, Recv.waiting) ∷ (4, chunk (4 ∷ 5 ∷ 6 ∷ [])) ∷ (1, Recv.ended) ∷ []

delivered-held_example :
    all_delivered polls (with_initial_chunk (1 ∷ 2 ∷ 3 ∷ []))
      ++ held (Delivery.run polls (with_initial_chunk (1 ∷ 2 ∷ 3 ∷ [])))
    ≡ (1 ∷ 2 ∷ 3 ∷ []) ++ all_arriving polls (with_initial_chunk (1 ∷ 2 ∷ 3 ∷ []))
delivered-held_example = delivered-held (1 ∷ 2 ∷ 3 ∷ []) polls

abbrev nothing_yet : AppSide
nothing_yet = record {
  datagrams = record { items = []; wakers = []; closed = false };
  unistreams = record { items = []; wakers = []; closed = false };
}

abbrev last_message : List Event
last_message = poll 1 ∷ datagram (3 ∷ []) ∷ closed ∷ poll 1 ∷ []

poll_next_end_example :
    IsOver (poll_next 1 (after last_message (next_control nothing_yet))).0.side.datagrams
    × IsOver (poll_next 1 (after last_message (next_control nothing_yet))).0.side.unistreams
unfolding poll_next after close_both poll_pop push close
poll_next_end_example = poll_next_end nothing_yet last_message 1 refl

-- A stereo packet of 20 ms in the full band.
opus_samples_per_frame-duration_example :
    opus_samples_per_frame 0xfc 48000 ≡ 48000 * duration (0xfc / 8) / 100000
opus_samples_per_frame-duration_example =
    opus_samples_per_frame-duration 0xfc 48000 (omega arith) (omega arith)

two_frames : opus_packet_samples (0xfd ∷ 0 ∷ []) 48000 ≡ 1920
unfolding opus_packet_samples
two_frames = refl

header_of_stereo : length (opus_identification_header 2 48000) ≡ 23
unfolding opus_identification_header
header_of_stereo = refl
