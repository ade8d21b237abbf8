-- ===== src/Server/Transport/Pump.antt =====
-- `pump` of server/src/moq/mod.rs: the routing of a connection's streams and datagrams, by their first
-- byte, to the queues of MoQ and of the session itself.
pub mod Routes
pub mod Control
use webshooter.Base.{
  ℕ, ◌+◌, ◌≤◌, ◌<◌, ◌≡◌, refl, sym, ap, ◌∙◌, arith, Bool, true, false, not, List, [], ◌∷◌, ◌++◌,
  Option, none, some, if◌then◌else◌, length, append-nil, append_assoc,
}
use mathlib.Core.Option
use webshooter.Base.Result.{Result, ok, err}
use webshooter.Shared.Mux.{is_moq_byte, first_byte, client_not_moq}
use webshooter.Shared.WakeQueue.{Inner, new, push, close}
use webshooter.Shared.ClientDatagram.{ClientDatagram, IsValid}
use webshooter.Shared.ClientDatagram.Axis.{Floats}
use webshooter.Shared.ClientDatagram.Encode.{to_bytes}
use webshooter.Shared.ClientDatagram.Decode.{from_bytes}
use webshooter.Shared.ClientDatagram.Decode.RoundTrip.{from_bytes-to_bytes, received}
use webshooter.Server.Transport.{Error}
use webshooter.Server.Transport.Recv.{QuicStream, WtRecvStream, classify, read_to_end}
use webshooter.Server.Transport.Whole.{
  unread, owed, work, classify-whole, read_to_end-whole, ending,
}

-- The `Inbox` of MoQ and the `AppSide` of the session.
pub record Queues (Recv : Type 0) : Type 0 where
  pub moq_unistreams : Inner Recv
  pub moq_datagrams : Inner (List ℕ)
  pub app_unistreams : Inner Recv
  pub app_datagrams : Inner (List ℕ)

abbrev pub new_queues : {Recv : Type 0} → Queues Recv
new_queues = record {
  moq_unistreams = new;
  moq_datagrams = new;
  app_unistreams = new;
  app_datagrams = new;
}

-- What the connection brings. A stream comes with what `classify` makes of it, or `none` where the
-- time for its first byte ran out.
pub data PumpArm (Recv : Type 0) : Type 0 where
  accepted : Option (Result Error (ℕ × Recv)) → PumpArm Recv
  accept_failed : PumpArm Recv
  datagram : List ℕ → PumpArm Recv
  receive_failed : PumpArm Recv

abbrev pub starts_moq : List ℕ → Bool
starts_moq [] = false
starts_moq (byte ∷ payload) = is_moq_byte byte

abbrev pub is_same : Bool → Bool → Bool
is_same true b = b
is_same false b = not b

abbrev pub if_same : {A : Type 0} → Bool → Bool → A → List A
if_same moq mine x = if is_same moq mine then x ∷ [] else []

module _ {Recv : Type 0} where
  unfoldable pub route_stream : ℕ → Recv → Queues Recv → Queues Recv
  route_stream byte r qs =
      if is_moq_byte byte
      then record qs { moq_unistreams = (push r qs.moq_unistreams).0 }
      else record qs { app_unistreams = (push r qs.app_unistreams).0 }

  -- An empty datagram goes to the parser, which rejects it.
  unfoldable pub route_datagram : List ℕ → Queues Recv → Queues Recv
  route_datagram payload qs =
      if starts_moq payload
      then record qs { moq_datagrams = (push payload qs.moq_datagrams).0 }
      else record qs { app_datagrams = (push payload qs.app_datagrams).0 }

  unfoldable pub close_all : Queues Recv → Queues Recv
  close_all qs = record {
    moq_unistreams = (close qs.moq_unistreams).0;
    moq_datagrams = (close qs.moq_datagrams).0;
    app_unistreams = (close qs.app_unistreams).0;
    app_datagrams = (close qs.app_datagrams).0;
  }

  -- The loop, over all that the connection brings.
  unfoldable pub pump : List (PumpArm Recv) → Queues Recv → Queues Recv
  unfolding route_stream route_datagram close_all
  pump [] qs = qs
  pump (accepted (some (ok (byte, r))) ∷ arms) qs = pump arms (route_stream byte r qs)
  pump (accepted (some (err e)) ∷ arms) qs = pump arms qs
  pump (accepted none ∷ arms) qs = pump arms qs
  pump (accept_failed ∷ arms) qs = close_all qs
  pump (datagram payload ∷ arms) qs = pump arms (route_datagram payload qs)
  pump (receive_failed ∷ arms) qs = close_all qs

  -- The streams and the datagrams of one side that come before the connection fails.
  abbrev pub streams_for : Bool → List (PumpArm Recv) → List Recv
  streams_for moq [] = []
  streams_for moq (accepted (some (ok (byte, r))) ∷ arms) =
      (if is_same moq (is_moq_byte byte) then r ∷ [] else []) ++ streams_for moq arms
  streams_for moq (accept_failed ∷ arms) = []
  streams_for moq (receive_failed ∷ arms) = []
  streams_for moq (_ ∷ arms) = streams_for moq arms

  abbrev pub datagrams_for : Bool → List (PumpArm Recv) → List (List ℕ)
  datagrams_for moq [] = []
  datagrams_for moq (datagram payload ∷ arms) =
      (if is_same moq (starts_moq payload) then payload ∷ [] else []) ++ datagrams_for moq arms
  datagrams_for moq (accept_failed ∷ arms) = []
  datagrams_for moq (receive_failed ∷ arms) = []
  datagrams_for moq (_ ∷ arms) = datagrams_for moq arms

  abbrev pub fails : List (PumpArm Recv) → Bool
  fails [] = false
  fails (accept_failed ∷ arms) = true
  fails (receive_failed ∷ arms) = true
  fails (_ ∷ arms) = fails arms
