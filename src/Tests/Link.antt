-- ===== src/Tests/Link.antt =====
-- The limits on input at the receive pump, and the ids of sessions: server/src/wt.rs, ipc.rs.
use webshooter.Base.{ℕ, ◌≡◌, ◌<◌, refl, arith, true, false, List, [], ◌∷◌, map}
use webshooter.Shared.ClientDatagram.{display_parameters, mouse_button, is_input_datagram}
use webshooter.Server.Flood.{new_guard, Pump}
use webshooter.Server.Flood.Rate.{all_allowed, at_server, all_allowed-send_times}
use webshooter.Server.Registry.{lowest_free_id}
use webshooter.Webui.Throttle
use webshooter.Webui.Throttle.{Event, input}
use webshooter.Webui.Throttle.Spacing.{send_times}

abbrev clicks : List Event
clicks = input 5000 5000 1 (mouse_button 0 true) ∷ input 9000 9000 2 (mouse_button 0 false) ∷ []

all_allowed-send_times_example :
    all_allowed (map (at_server 7) (send_times clicks Throttle.new)) (new_guard 7) ≡ true
all_allowed-send_times_example = all_allowed-send_times clicks 7

abbrev two_refusals : List ℕ
two_refusals = 10 ∷ 20 ∷ []

-- A pump whose guard has nothing left.
abbrev exhausted : Pump
exhausted = record {
  flood = record { tokens = 0; last_refill = 0 };
  kick = record { refusals = 998; window_start = 0 };
}

not_input : is_input_datagram (display_parameters 0 1280 720) ≡ false
unfolding is_input_datagram
not_input = refl

abbrev in_use : List ℕ
in_use = 3 ∷ 1 ∷ 2 ∷ 7 ∷ []

below_free : 2 < lowest_free_id in_use
unfolding lowest_free_id
below_free = omega arith
