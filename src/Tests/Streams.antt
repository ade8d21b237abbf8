-- ===== src/Tests/Streams.antt =====
-- Streams, names, logs and the configuration at concrete inputs: server/src/moq/transport.rs, mod.rs,
-- wt.rs, main.rs, config.rs, pipewire/video.rs and webui/wasm/src/log.rs.
use webshooter.Base.{
  length, ℕ, zero, suc, ◌≡◌, ◌≢◌, ◌≤◌, refl, sym, arith, Bool, true, false, ◌&&◌, ◌||◌, List, [],
  ◌∷◌, Option, none, some, codes, take, drop, take-append-drop, length-take, leb, inl, inr,
}
use webshooter.Base.Int.{pos}
use webshooter.Base.Text.{Text, as_bytes}
use webshooter.Base.Result.{Result, ok, err}
use webshooter.Shared.Mux.{is_moq_byte}
use webshooter.Shared.ClientDatagram.{ClientDatagram, mouse_move}
use webshooter.Shared.ClientDatagram.Encode.{to_bytes}
use webshooter.Shared.ClientDatagram.Decode.{from_bytes}
use webshooter.Shared.ClientDatagram.Decode.RoundTrip
use webshooter.Server.Transport.Recv.{
  QuicStream, ReadError, Outcome, got, Reads, WtRecvStream, new, with_first, classify, read_to_end,
  poll_closed, closed_by,
}
use webshooter.Server.Transport.Whole.{unread, ending, read_to_end-whole}
use webshooter.Server.Transport.Pump.{PumpArm, accepted, datagram, accept_failed, new_queues, pump}
use webshooter.Server.Transport.Pump.Routes.{Routed, pump-routes}
use webshooter.Server.Transport.Pump.Control.{control_stream}
use webshooter.Tests.Wire.{whole_floats}
use webshooter.Server.Names.{
  session_name, name_for, is_primary_of, sanitise_name, session_name_apart,
}
use webshooter.Server.Registry.{lowest_free_id}
use webshooter.Server.Registry.Sessions.{Registry, new_registry, next_client_id, lowest_client_id}
use webshooter.Server.Picking.{near, best_stream_index}
use webshooter.Server.Picking.Best.{IsChosen, best_stream_index_best}
use webshooter.Server.Bitrate.Govern.{
  PathStats, new_report, report_link, govern_bitrate, still, still-recovers, bitrate_ceiling_kbps,
}
use webshooter.Server.ClientLogs.{truncate, fitting, client_logs}
use webshooter.Server.ClientLogs.Batches.{batch_accepted}
use webshooter.Server.ClientLogs.Truncate.{truncate-fitting}
use webshooter.Webui.Log.{LogEvent, logs, flushes, posted, log_run, no_logs, held, logged}
use webshooter.Webui.Log.Order.{held-logged}
use webshooter.Server.Config.{
  Entry, discover_config, parse_config, no_extension, FailsAll, parse_config_fails,
}
use webshooter.Server.Config.Discover.{Within, discover_config-same}

-- A stream of which all bytes have come.
abbrev arrived_read : ℕ → List ℕ → List ℕ × Outcome
arrived_read room s = (drop room s, got (take room s))

abbrev no_fate : List ℕ → Option ReadError
no_fate s = none

abbrev no_waits : List ℕ → ℕ
no_waits s = 0

arrived-Reads :
    (room : ℕ) (s : List ℕ)
    → 1 ≤ room
    → Reads (λ b. b) no_fate no_waits room s (arrived_read room s)
arrived-Reads zero s h = absurd (omega arith)
arrived-Reads (suc n) [] h = (refl, refl)
arrived-Reads (suc n) (b ∷ s) h =
    (sym (take-append-drop (suc n) (b ∷ s)), refl, omega arith, omega (arith, length-take n s))

abbrev arrived : QuicStream
arrived = record {
  Stream = List ℕ;
  read = arrived_read;
  bytes = λ b. b;
  fate = no_fate;
  waits = no_waits;
  describe = λ e. [];
  reads = arrived-Reads;
}

read_to_end-whole_example :
    read_to_end arrived 9 (with_first arrived (2 ∷ 3 ∷ []) 1) []
    ≡ some (ending none (unread arrived (with_first arrived (2 ∷ 3 ∷ []) 1)))
read_to_end-whole_example =
    read_to_end-whole arrived (with_first arrived (2 ∷ 3 ∷ []) 1) 9 (omega arith)

abbrev lines : List (LogEvent (ℕ × List ℕ))
lines = logs (1, b'a' ∷ []) ∷ logs (2, b'b' ∷ []) ∷ flushes ∷ posted false ∷ flushes ∷ []

batch_accepted_example :
    ((client_logs (log_run lines no_logs).batch).dropped ≡ 0)
    × (length (client_logs (log_run lines no_logs).batch).lines
        ≡ length (log_run lines no_logs).batch)
batch_accepted_example = batch_accepted lines

-- A poll that asks whether an open stream is closed takes its next byte and throws it away.
byte_dropped : poll_closed arrived (new arrived (1 ∷ 2 ∷ [])) ≡ (new arrived (2 ∷ []), false)
unfolding poll_closed closed_by
byte_dropped = refl

abbrev pump_arms : List (PumpArm (WtRecvStream arrived))
pump_arms =
    accepted (some (ok (1, with_first arrived [] 1)))
    ∷ accepted none
    ∷ datagram (200 ∷ [])
    ∷ datagram []
    ∷ accept_failed
    ∷ []

pump-routes_example : Routed pump_arms new_queues (pump pump_arms new_queues)
pump-routes_example = pump-routes pump_arms

abbrev plain : ℕ → Bool
plain c = (leb b'a' c && leb c b'z') || (leb b'A' c && leb c b'Z')

abbrev busy : Registry
busy = record new_registry { sessions = 1 ∷ [] }

session_name_apart_example :
    session_name plain (λ a. a) new_registry new_registry (codes "ann")
    ≢ session_name plain (λ a. a) busy busy (codes "bob")
unfolding next_client_id lowest_free_id
session_name_apart_example =
    session_name_apart plain (λ a. a) new_registry new_registry busy busy (codes "ann")
      (codes "bob") refl (omega arith) (omega arith) (omega arith) refl refl

abbrev second_only : Registry
second_only = record new_registry { sessions = 2 ∷ [] }

-- Session 1 goes, with its cleanup, while session 2 waits for the configuration: it takes itself to
-- be primary, and the next session of the user, which gets the id 1, has its name.
named_alike :
    session_name plain (λ a. a) busy new_registry (codes "ann")
    ≡ session_name plain (λ a. a) second_only second_only (codes "ann")
unfolding session_name name_for is_primary_of sanitise_name next_client_id lowest_client_id
    lowest_free_id
named_alike = refl

best_stream_index_best_example :
    (c : ℕ × _) × IsChosen (1080, 2255) ((pos 1920, pos 1080) ∷ (pos 720, pos 1503) ∷ []) 1 c
unfolding best_stream_index near
best_stream_index_best_example =
    best_stream_index_best (1080, 2255) ((pos 1920, pos 1080) ∷ (pos 720, pos 1503) ∷ []) 1 refl

abbrev path : PathStats
path = record { lost_packets = 7; black_holes_detected = 0; congestion_events = 1 }

still-recovers_example :
    (govern_bitrate
      (still 2 path (report_link path new_report).last)
      (record { current = 1000; settings = [] })).current
    ≡ bitrate_ceiling_kbps
still-recovers_example =
    still-recovers 2 path new_report (record { current = 1000; settings = [] }) (omega arith)
      (omega arith) (omega arith) (omega arith)

truncate-fitting_example :
    truncate (as_bytes (0xe9 ∷ 0xe9 ∷ [])) 3 ≡ as_bytes (fitting 3 (0xe9 ∷ 0xe9 ∷ []))
truncate-fitting_example = truncate-fitting (0xe9 ∷ 0xe9 ∷ []) 3 (omega arith)

abbrev log_events : List (LogEvent ℕ)
log_events = logs 1 ∷ logs 2 ∷ flushes ∷ logs 3 ∷ posted false ∷ flushes ∷ posted true ∷ []

held-logged_example : held (log_run log_events no_logs) ≡ logged log_events
unfolding log_run
held-logged_example = held-logged log_events refl

abbrev local : Entry
local = record { name = codes "config.local.json"; is_file = true }

abbrev own : Entry
own = record { name = codes "config.own.toml"; is_file = true }

abbrev swapped : Within (own ∷ local ∷ []) (local ∷ own ∷ [])
swapped e (inl same) = inr (inl same)
swapped e (inr (inl same)) = inl same
swapped e (inr (inr none_left)) = absurd none_left

abbrev swapped_back : Within (local ∷ own ∷ []) (own ∷ local ∷ [])
swapped_back e (inl same) = inr (inl same)
swapped_back e (inr (inl same)) = inl same
swapped_back e (inr (inr none_left)) = absurd none_left

discover_config-same_example :
    discover_config (own ∷ local ∷ []) ≡ discover_config (local ∷ own ∷ [])
discover_config-same_example =
    discover_config-same (own ∷ local ∷ []) (local ∷ own ∷ []) swapped swapped_back

abbrev refuse : Text → Result ℕ ℕ
refuse contents = err 0

parse_config_fails_example : FailsAll refuse refuse refuse (codes "x")
unfolding parse_config
parse_config_fails_example =
    parse_config_fails refuse refuse refuse (codes "config") (codes "x") no_extension refl

abbrev a_move : ClientDatagram
a_move = mouse_move (pos 5) (pos 0)

control_stream_example :
    (byte : ℕ) × (r : WtRecvStream arrived) × (classify arrived 9 (to_bytes whole_floats a_move)
      ≡ some (ok (byte, r)))
    × (is_moq_byte byte ≡ false)
    × (read_to_end arrived 9 r [] ≡ some (ok (to_bytes whole_floats a_move)))
    × (from_bytes whole_floats (to_bytes whole_floats a_move)
        ≡ ok (RoundTrip.received whole_floats a_move))
unfolding to_bytes
control_stream_example =
    control_stream arrived whole_floats a_move (to_bytes whole_floats a_move) 9 (omega arith) refl
      refl (omega arith)
