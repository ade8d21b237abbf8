-- ===== src/Server/Transport/Slots.antt =====
-- `Slots` and `WtSession` of server/src/moq/transport.rs: the operations of a session's connection that
-- are in flight. Operations are numbered in the order in which they are started; what the
-- connection gives when one is polled is an argument.
use webshooter.Base.{
  ℕ, suc, ◌≡◌, refl, ap, Bool, true, false, ◌||◌, List, [], ◌∷◌, ◌++◌, Option, none, some,
}
use webshooter.Base.Text.{Text}
use webshooter.Base.Result.{Result, ok, err}
use webshooter.Base.{codes}
use webshooter.Shared.WakeQueue.{Poll, pending, ready}
use webshooter.Server.Transport.{
  Error, closed, stream, datagram, h3_code, h3_datagram_error, h3_stream_creation_error,
}

-- A future in a slot, by the number of its operation.
abbrev pub Slot : Type 0
Slot = Option ℕ

abbrev pub is_some : Slot → Bool
is_some none = false
is_some (some op) = true

pub record Slots : Type 0 where
  pub accept_uni : Slot
  pub accept_bi : Slot
  pub open_uni : Slot
  pub open_bi : Slot
  pub closed : Slot

abbrev pub no_slots : Slots
no_slots = record {
  accept_uni = none;
  accept_bi = none;
  open_uni = none;
  open_bi = none;
  closed = none;
}

unfoldable pub busy : Slots → Bool
busy s = is_some s.accept_uni || is_some s.accept_bi || is_some s.open_uni || is_some s.open_bi

-- `poll_slot`: the slot is emptied by a poll that is ready; an empty slot is `Pending`. The
-- result names its operation.
module _ {T : Type 0} where
  unfoldable pub poll_slot : Slot → Poll T → Slot × Poll (ℕ × T)
  poll_slot none polled = (none, pending)
  poll_slot (some op) pending = (some op, pending)
  poll_slot (some op) (ready result) = (none, ready (op, result))

-- The start of an operation where none is in flight, and the number of the next one.
unfoldable pub start : Slot → ℕ → Slot × ℕ
start none next = (some next, suc next)
start (some op) next = (some op, next)

-- How an open fails: before the stream is reserved, or in its handshake.
pub data OpenError : Type 0 where
  reserving : Text → OpenError
  handshake : Text → OpenError

unfoldable pub open_error : OpenError → Error
open_error (reserving reason) = closed reason
open_error (handshake reason) = stream h3_stream_creation_error reason

-- One kind of operation, which is what `poll_accept_bi`, `poll_open_uni`, `poll_open_bi` and
-- `poll_closed` do with their slot.
module _ {T : Type 0} where
  unfoldable pub poll_operation : Slot → ℕ → Poll T → (Slot × ℕ) × Poll (ℕ × T)
  unfolding poll_slot start
  poll_operation slot next polled =
      let started = start slot next in let r = poll_slot started.0 polled in ((r.0, started.1), r.1)

  -- The results that a run of polls hands out.
  abbrev pub handed : Poll (ℕ × T) → List (ℕ × T)
  handed pending = []
  handed (ready r) = r ∷ []

  abbrev pub results : List (Poll T) → Slot → ℕ → List (ℕ × T)
  results [] slot next = []
  results (polled ∷ polls) slot next =
      let r = poll_operation slot next polled in handed r.1 ++ results polls r.0.0 r.0.1

  -- What the operations give, one after another.
  abbrev pub given : List (Poll T) → ℕ → List (ℕ × T)
  given [] op = []
  given (pending ∷ polls) op = given polls op
  given (ready result ∷ polls) op = (op, result) ∷ given polls (suc op)

-- `poll_accept_uni` and `poll_recv_datagram`: what the mux pump has queued.
unfoldable pub popped : {T : Type 0} → Poll (Option T) → Poll (Result Error T)
popped pending = pending
popped (ready (some item)) = ready (ok item)
popped (ready none) = ready (err (closed (codes "mux pump stopped")))

-- What the connection says of a datagram that is to be sent.
pub data Sending : Type 0 where
  sent : Sending
  too_large : Sending
  unsupported_by_peer : Text → Sending
  not_connected : Text → Sending

unfoldable pub poll_send_datagram : Sending → Result Error (Unit {0})
poll_send_datagram sent = ok tt
poll_send_datagram too_large = ok tt
poll_send_datagram (unsupported_by_peer reason) = err (datagram h3_datagram_error reason)
poll_send_datagram (not_connected reason) = err (closed reason)

-- `poll_write` of a send stream: what quinn says of it.
pub data Writing : Type 0 where
  written : ℕ → Writing
  stopped : ℕ → Writing
  closed_stream : Writing
  other : Text → Writing

unfoldable pub poll_write : Poll Writing → Poll (Result Error ℕ)
poll_write pending = pending
poll_write (ready (written n)) = ready (ok n)
poll_write (ready (stopped code)) =
    ready (err (stream (h3_code code) (codes "peer stopped the stream")))
poll_write (ready closed_stream) = ready (err (closed (codes "write to a closed stream")))
poll_write (ready (other reason)) = ready (err (closed reason))

module _ {T : Type 0} where
  handed_all :
      (polls : List (Poll T)) (op : ℕ)
      → (results polls (some op) (suc op) ≡ given polls op)
        × (results polls none op ≡ given polls op)
  unfolding poll_operation
  handed_all [] op = (refl, refl)
  handed_all (pending ∷ polls) op = ((handed_all polls op).0, (handed_all polls op).0)
  handed_all (ready result ∷ polls) op =
      let rest = ap (λ l. (op, result) ∷ l) (handed_all polls (suc op)).1 in (rest, rest)

  -- Whatever the polls give, a fresh handle hands out the result of each operation once, in the
  -- order in which the operations were started, and starts none while another is in flight.
  pub results-given : (polls : List (Poll T)) (op : ℕ) → results polls none op ≡ given polls op
  results-given polls op = (handed_all polls op).1
