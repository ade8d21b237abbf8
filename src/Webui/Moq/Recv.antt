-- ===== src/Webui/Moq/Recv.antt =====
-- `MoQRecv` of webui/wasm/src/moq.rs: a stream's chunks, handed out in pieces.
pub mod Delivery
use webshooter.Base.{
  ℕ, subst, ◌+◌, ◌-◌, ◌≡◌, ◌<◌, ◌⊎◌, inl, inr, refl, sym, ap, ◌∙◌, arith, Bool, true, false, List,
  [], ◌∷◌, ◌++◌, Option, none, some, ◌==◌, if◌then◌else◌, if_intro, length, take, drop,
  take-append-drop, length-drop, drop_all, drop-drop, append_assoc, append-nil, min,
}

-- `burst` is the last chunk and `burst_head` how much of it has been handed out.
pub record MoQRecv : Type 0 where
  pub in_flight : Bool
  pub burst : List ℕ
  pub burst_head : ℕ
  pub done : Bool

abbrev pub with_initial_chunk : List ℕ → MoQRecv
with_initial_chunk initial = record {
  in_flight = false;
  burst = initial;
  burst_head = 0;
  done = false;
}

-- The bytes that are copied into a buffer of `space` bytes, if any are left.
unfoldable pub drain_burst : ℕ → MoQRecv → MoQRecv × Option (List ℕ)
drain_burst space s =
    let avail = length s.burst - s.burst_head in
    let n = min avail space in
    let piece = take n (drop s.burst_head s.burst) in
    if avail == 0
    then (s, none)
    else if s.burst_head + n == length s.burst
    then (record s { burst = []; burst_head = 0 }, some piece)
    else (record s { burst_head = s.burst_head + n }, some piece)

-- What the promise of a read gives: it waits, fails, ends the stream, comes without a value, or
-- brings a chunk.
pub data Promise : Type 0 where
  waiting : Promise
  rejected : Promise
  ended : Promise
  valueless : Promise
  chunk : List ℕ → Promise

pub data ReadResult : Type 0 where
  pending : ReadResult
  error : ReadResult
  end_of_stream : ReadResult
  bytes : List ℕ → ReadResult

abbrev pub after_chunk : MoQRecv × Option (List ℕ) → MoQRecv × ReadResult
after_chunk (s, none) = (s, bytes [])
after_chunk (s, some piece) = (s, bytes piece)

abbrev pub poll_promise : ℕ → Promise → MoQRecv → MoQRecv × ReadResult
poll_promise space waiting s = (record s { in_flight = true }, pending)
poll_promise space rejected s = (record s { in_flight = false }, error)
poll_promise space ended s = (record s { in_flight = false; done = true }, end_of_stream)
poll_promise space valueless s = (record s { in_flight = false }, error)
poll_promise space (chunk c) s =
    after_chunk
      (drain_burst space (record s { in_flight = false; burst = s.burst ++ c; burst_head = 0 }))

abbrev pub poll_drained : ℕ → Promise → MoQRecv × Option (List ℕ) → MoQRecv × ReadResult
poll_drained space promise (s, some piece) = (s, bytes piece)
poll_drained space promise (s, none) =
    if s.done then (s, end_of_stream) else poll_promise space promise s

unfoldable pub poll_read : ℕ → Promise → MoQRecv → MoQRecv × ReadResult
unfolding drain_burst
poll_read space promise s = poll_drained space promise (drain_burst space s)
