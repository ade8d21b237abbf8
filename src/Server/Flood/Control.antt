-- ===== src/Server/Flood/Control.antt =====
-- What the receive pump of server/src/wt.rs does with messages that are not input.
use webshooter.Base.{ℕ, ◌≡◌, refl, Bool, false, List, [], ◌∷◌, some}
use mathlib.Core.Option
use webshooter.Shared.ClientDatagram.{ClientDatagram, IsValid, is_input_byte, is_input_datagram}
use webshooter.Shared.ClientDatagram.Axis.{Floats}
use webshooter.Shared.ClientDatagram.Encode.{to_bytes}
use webshooter.Shared.ClientDatagram.Decode.RoundTrip.{received, from_bytes-to_bytes}
use webshooter.Shared.Mux.{first_byte, is_input_byte-to_bytes}
use webshooter.Server.Flood.{Pump, on_datagram, forwarded, starts_input}

starts_input-first_byte :
    (bytes : List ℕ) (b : Bool)
    → Option.map is_input_byte (first_byte bytes) ≡ some b
    → starts_input bytes ≡ b
starts_input-first_byte [] b h = cc
starts_input-first_byte (byte ∷ rest) b h = cc

-- A valid message that is not input is forwarded whatever the state of the guard is, and leaves that
-- state as it is: a flood of input costs a client none of its control messages.
pub control_forwarded :
    (fl : Floats) (now later : ℕ) (m : ClientDatagram) (p : Pump)
    → IsValid m
    → is_input_datagram m ≡ false
    → on_datagram fl now later (to_bytes fl m) p ≡ (p, forwarded (received fl m))
unfolding on_datagram
control_forwarded fl now later m p valid control =
    rw
      (
        starts_input-first_byte (to_bytes fl m) (is_input_datagram m) (is_input_byte-to_bytes fl m),
        control,
        from_bytes-to_bytes fl m valid,
      )
      refl
