-- ===== src/Shared/Mux.antt =====
-- shared/src/mux.rs: which protocol owns a message, by its first byte.
use webshooter.Base.{ℕ, ◌≡◌, Bool, true, false, List, [], ◌∷◌, Option, none, some, arith, ltb}
use webshooter.Base.Result.{err}
use webshooter.Shared.Error.{invalid_discriminant}
use webshooter.Shared.ServerDatagram
use webshooter.Shared.ServerDatagram.Variants
use webshooter.Shared.ServerDatagram.{ServerDatagram}
use webshooter.Shared.ClientDatagram
use webshooter.Shared.ClientDatagram.{ClientDatagram, is_input_byte, is_input_datagram}
use mathlib.Core.Option
use webshooter.Shared.ClientDatagram.Axis.{Floats}

unfoldable pub is_moq_byte : ℕ → Bool
is_moq_byte byte = ltb byte Variants.moq_boundary

-- The first byte of a message, which routes it.
abbrev pub first_byte : List ℕ → Option ℕ
first_byte [] = none
first_byte (b ∷ rest) = some b

-- Both parsers refuse every message that the router gives to MoQ, as an unknown discriminant.
pub moq_refused :
    (fl : Floats) (byte : ℕ) (rest : List ℕ)
    → is_moq_byte byte ≡ true
    → (ServerDatagram.from_bytes (byte ∷ rest) ≡ err (invalid_discriminant byte))
      × (ClientDatagram.Decode.from_bytes fl (byte ∷ rest) ≡ err (invalid_discriminant byte))
unfolding is_moq_byte ServerDatagram.from_bytes ClientDatagram.Decode.from_bytes
moq_refused fl byte rest h = ground arith

-- Every message of the client has a first byte, which the router does not give to MoQ.
pub client_not_moq :
    (fl : Floats) (m : ClientDatagram)
    → Option.map is_moq_byte (first_byte (ClientDatagram.Encode.to_bytes fl m)) ≡ some false
unfolding is_moq_byte ClientDatagram.Encode.to_bytes
client_not_moq fl m = ground arith

-- So has every message of the server that has bytes.
pub server_not_moq :
    (m : ServerDatagram) (bytes : List ℕ)
    → ServerDatagram.to_bytes m ≡ some bytes
    → Option.map is_moq_byte (first_byte bytes) ≡ some false
unfolding is_moq_byte ServerDatagram.to_bytes
server_not_moq m bytes h = ground arith

-- The receive pump's check of the first byte agrees with the message's own kind.
pub is_input_byte-to_bytes :
    (fl : Floats) (m : ClientDatagram)
    → Option.map is_input_byte (first_byte (ClientDatagram.Encode.to_bytes fl m))
      ≡ some (is_input_datagram m)
unfolding is_input_byte is_input_datagram ClientDatagram.Encode.to_bytes
is_input_byte-to_bytes fl m = ground arith
