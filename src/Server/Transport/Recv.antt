-- ===== src/Server/Transport/Recv.antt =====
-- `WtRecvStream` of server/src/moq/transport.rs, and `classify` of server/src/moq/mod.rs. The stream of
-- the quinn library below it is the parameter `QuicStream`.
use webshooter.Base.{
  ℕ, zero, suc, ◌*◌, ◌≤◌, ◌<◌, ◌≡◌, Bool, true, false, List, [], ◌∷◌, ◌++◌, Option, none, some,
  ◌==◌, if◌then◌else◌, length, codes,
}
use webshooter.Base.Text.{Text}
use webshooter.Base.Result.{Result, ok, err}
use webshooter.Server.Transport.{Error, closed, stream, h3_code, h3_message_error}

pub data ReadError : Type 0 where
  reset : ℕ → ReadError
  closed_stream : ReadError
  lost : Text → ReadError

-- What quinn's `poll_read` gives; no bytes into a destination with room are the end of the stream.
pub data Outcome : Type 0 where
  pending : Outcome
  got : List ℕ → Outcome
  failed : ReadError → Outcome

-- A stream of quinn: `bytes` are those that are still to be read, `fate` is how it ends after
-- them, and `waits` bounds how often a read finds nothing yet. A read with room brings the next
-- bytes in order, at most as many as there is room for, or the end once there are none left.
module _ {S : Type 0} (bytes : S → List ℕ) (fate : S → Option ReadError) (waits : S → ℕ) where
  abbrev pub Reads : ℕ → S → S × Outcome → Type 0
  Reads room s (s', pending) = (bytes s' ≡ bytes s) × (fate s' ≡ fate s) × (waits s' < waits s)
  Reads room s (s', got []) = (bytes s ≡ []) × (fate s ≡ none)
  Reads room s (s', got (b ∷ bs)) =
      (bytes s ≡ (b ∷ bs) ++ bytes s')
      × (fate s' ≡ fate s)
      × (waits s' ≤ waits s)
      × (length (b ∷ bs) ≤ room)
  Reads room s (s', failed e) = (bytes s ≡ []) × (fate s ≡ some e)

pub record QuicStream : Type 1 where
  pub Stream : Type 0
  pub read : ℕ → Stream → Stream × Outcome
  pub bytes : Stream → List ℕ
  pub fate : Stream → Option ReadError
  pub waits : Stream → ℕ
  pub describe : ReadError → Text
  pub reads : (room : ℕ) (s : Stream) → 1 ≤ room → Reads bytes fate waits room s (read room s)

-- The `Poll<Result<Option<usize>, Error>>` of `poll_read`, with the bytes that it wrote.
pub data PollRead : Type 0 where
  waiting : PollRead
  end : PollRead
  bytes_read : List ℕ → PollRead
  broken : Error → PollRead

abbrev pub chunk_size : ℕ
chunk_size = 8 * 1024

unfoldable pub read_error : ReadError → Error
read_error (reset code) = stream (h3_code code) (codes "peer reset the stream")
read_error closed_stream = closed (codes "read from a closed stream")
read_error (lost reason) = stream h3_message_error reason

unfoldable pub outcome : Outcome → PollRead
unfolding read_error
outcome pending = waiting
outcome (got []) = end
outcome (got (b ∷ bs)) = bytes_read (b ∷ bs)
outcome (failed e) = broken (read_error e)

module _ (q : QuicStream) where
  open q use {Stream, read, describe}

  pub record WtRecvStream : Type 0 where
    pub inner : Stream
    pub peeked : Option ℕ

  abbrev pub new : Stream → WtRecvStream
  new inner = record { inner = inner; peeked = none }

  abbrev pub with_first : Stream → ℕ → WtRecvStream
  with_first inner first = record { inner = inner; peeked = some first }

  -- A byte that is owed waits for a destination with room.
  unfoldable pub read_peeked : Option ℕ → ℕ → WtRecvStream → WtRecvStream × PollRead
  unfolding outcome
  read_peeked (some byte) room r =
      if room == 0 then (r, bytes_read []) else (record r { peeked = none }, bytes_read (byte ∷ []))
  read_peeked none room r = let s = read room r.inner in (record r { inner = s.0 }, outcome s.1)

  unfoldable pub poll_read : ℕ → WtRecvStream → WtRecvStream × PollRead
  unfolding read_peeked
  poll_read room r = read_peeked r.peeked room r

  -- One turn of the loop of `read_to_end`; `Pending` is polled again later, with `out` kept.
  unfoldable pub after_read :
      PollRead → List ℕ → (List ℕ → Option (Result Error (List ℕ))) → Option (Result Error (List ℕ))
  after_read waiting out rest = rest out
  after_read end out rest = some (ok out)
  after_read (bytes_read []) out rest = some (ok out)
  after_read (bytes_read (b ∷ bs)) out rest = rest (out ++ b ∷ bs)
  after_read (broken e) out rest = some (err e)

  -- Fuel counts the calls of `poll_read`.
  unfoldable pub read_to_end : ℕ → WtRecvStream → List ℕ → Option (Result Error (List ℕ))
  unfolding after_read poll_read
  read_to_end zero r out = none
  read_to_end (suc fuel) r out =
      let s = poll_read chunk_size r in after_read s.1 out (read_to_end fuel s.0)

  -- `poll_closed`: a read of one byte, which is thrown away; whether the stream is closed.
  unfoldable pub closed_by : Outcome → Bool
  closed_by pending = false
  closed_by (got []) = true
  closed_by (got (b ∷ bs)) = false
  closed_by (failed e) = true

  unfoldable pub poll_closed : WtRecvStream → WtRecvStream × Bool
  unfolding closed_by
  poll_closed r = let s = read 1 r.inner in (record r { inner = s.0 }, closed_by s.1)

  unfoldable pub classified :
      Stream
      → Outcome
      → Option (Result Error (ℕ × WtRecvStream))
      → Option (Result Error (ℕ × WtRecvStream))
  classified s pending rest = rest
  classified s (got []) rest = some (err (closed (codes "stream ended before its type byte")))
  classified s (got (byte ∷ more)) rest = some (ok (byte, with_first s byte))
  classified s (failed e) rest = some (err (stream h3_message_error (describe e)))

  -- Fuel counts the polls.
  unfoldable pub classify : ℕ → Stream → Option (Result Error (ℕ × WtRecvStream))
  unfolding classified
  classify zero s = none
  classify (suc fuel) s = let r = read 1 s in classified r.0 r.1 (classify fuel r.0)
