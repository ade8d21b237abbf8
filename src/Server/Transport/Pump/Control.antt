-- ===== src/Server/Transport/Pump/Control.antt =====
-- A message of the client as a stream, from the pump of server/src/moq/mod.rs to the parser.
use webshooter.Base.{
  ℕ, ◌+◌, ◌≤◌, ◌<◌, ◌≡◌, sym, ap, ◌∙◌, arith, false, [], ◌++◌, none, some, length,
}
use mathlib.Core.Option
use webshooter.Base.Result.{ok}
use webshooter.Shared.Mux.{is_moq_byte, first_byte, client_not_moq}
use webshooter.Shared.ClientDatagram.{ClientDatagram, IsValid}
use webshooter.Shared.ClientDatagram.Axis.{Floats}
use webshooter.Shared.ClientDatagram.Encode.{to_bytes}
use webshooter.Shared.ClientDatagram.Decode.{from_bytes}
use webshooter.Shared.ClientDatagram.Decode.RoundTrip.{from_bytes-to_bytes, received}
use webshooter.Server.Transport.Recv.{QuicStream, WtRecvStream, classify, read_to_end}
use webshooter.Server.Transport.Whole.{
  unread, owed, work, classify-whole, read_to_end-whole, ending,
}

module _ (q : QuicStream) (fl : Floats) where
  open q use {Stream, bytes, fate}

  to_bytes-some : (m : ClientDatagram) → 1 ≤ length (to_bytes fl m)
  unfolding to_bytes
  to_bytes-some m = ground arith

  not_moq :
      (m : ClientDatagram) (byte : ℕ)
      → some byte ≡ first_byte (to_bytes fl m)
      → is_moq_byte byte ≡ false
  not_moq m byte h = cc (ap (Option.map is_moq_byte) h ∙ client_not_moq fl m)

  -- A stream that brings the bytes of a valid message of the client and ends: polled often enough,
  -- it is named by a byte that is not MoQ's, and what is read from it to its end parses as that
  -- message, with the axes of a gamepad's motion rounded to the units of the wire.
  pub control_stream :
      (m : ClientDatagram) (s : Stream) (fuel : ℕ)
      → IsValid m
      → bytes s ≡ to_bytes fl m
      → fate s ≡ none
      → work q s + 1 < fuel
      → (byte : ℕ) × (r : WtRecvStream q) × (classify q fuel s ≡ some (ok (byte, r)))
        × (is_moq_byte byte ≡ false)
        × (read_to_end q fuel r [] ≡ some (ok (to_bytes fl m)))
        × (from_bytes fl (to_bytes fl m) ≡ ok (received fl m))
  control_stream m s fuel valid h ends small =
      let n = classify-whole q fuel s (rw h (to_bytes-some m)) (omega arith) in
      let whole = n.3 ∙ h in
      (
        n.0,
        n.1,
        n.2,
        not_moq m n.0 (ap first_byte (ap (λ p. owed p ++ bytes n.1.inner) (sym n.6) ∙ whole)),
        read_to_end-whole q n.1 fuel (omega (arith, n.5))
            ∙ ap (λ f. some (ending f (unread q n.1))) (n.4 ∙ ends)
            ∙ ap (λ l. some (ok l)) whole,
        from_bytes-to_bytes fl m valid,
      )
