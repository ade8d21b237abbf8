-- ===== src/Webui/Moq/Send.antt =====
-- `MoQSend` of webui/wasm/src/moq.rs: one write of the browser at a time.
use webshooter.Base.{
  ℕ, zero, suc, ◌≡◌, ◌≢◌, refl, sym, ap, ◌∙◌, arith, Bool, true, false, List, [], ◌∷◌, ◌++◌, ◌==◌,
  if◌then◌else◌, length, append_assoc, append-nil,
}

-- `written` are the chunks that were given to the writer, the oldest first.
pub record MoQSend : Type 0 where
  pub in_flight_write : Bool
  pub finished : Bool
  pub closing : Bool
  pub written : List (List ℕ)

abbrev pub over : MoQSend
over = record { in_flight_write = false; finished = false; closing = false; written = [] }

-- What the promise of a write, or of a close, gives when it is polled.
pub data Promise : Type 0 where
  waiting : Promise
  resolved : Promise
  rejected : Promise

pub data WriteResult : Type 0 where
  pending : WriteResult
  accepted : ℕ → WriteResult
  refused : WriteResult
  error : WriteResult

abbrev poll_flight : List ℕ → Promise → MoQSend → MoQSend × WriteResult
poll_flight buf waiting s = (s, pending)
poll_flight buf resolved s = (record s { in_flight_write = false }, accepted (length buf))
poll_flight buf rejected s = (record s { in_flight_write = false }, error)

unfoldable pub poll_write : List ℕ → Promise → MoQSend → MoQSend × WriteResult
poll_write buf promise s =
    if s.finished
    then (s, refused)
    else if s.in_flight_write
    then poll_flight buf promise s
    else if length buf == 0
    then (s, accepted 0)
    else poll_flight buf promise
        (record s { in_flight_write = true; written = s.written ++ buf ∷ [] })

unfoldable pub finish : MoQSend → MoQSend
finish s = if s.finished then s else record s { finished = true; closing = true }

pub data CloseResult : Type 0 where
  pending : CloseResult
  closed : CloseResult
  error : CloseResult

abbrev close_result : Promise → CloseResult
close_result waiting = CloseResult.pending
close_result resolved = closed
close_result rejected = CloseResult.error

unfoldable pub poll_closed : Promise → MoQSend → CloseResult
poll_closed promise s = if s.closing then close_result promise else CloseResult.pending

-- A caller that polls with one buffer until it is accepted: `waits` polls find the promise waiting.
pub write : ℕ → List ℕ → MoQSend → MoQSend × WriteResult
write zero buf s = poll_write buf resolved s
write (suc waits) buf s = write waits buf (poll_write buf waiting s).0

pub write_all : List (ℕ × List ℕ) → MoQSend → MoQSend
write_all [] s = s
write_all ((waits, buf) ∷ bufs) s = write_all bufs (write waits buf s).0

-- Ready for the next write of an open stream.
abbrev IsIdle : MoQSend → Type 0
IsIdle s = (s.in_flight_write ≡ false) × (s.finished ≡ false)

write_flight :
    (waits : ℕ) (buf : List ℕ) (s : MoQSend)
    → s.in_flight_write ≡ true
    → s.finished ≡ false
    → ((write waits buf s).1 ≡ accepted (length buf))
      × ((write waits buf s).0.written ≡ s.written)
      × IsIdle (write waits buf s).0
unfolding write poll_write
write_flight zero buf s h e = ground (arith, h, e)
write_flight (suc waits) buf s h e = ground (arith, h, e, write_flight waits buf s)

write-written :
    (waits : ℕ) (b : ℕ) (buf : List ℕ) (s : MoQSend)
    → IsIdle s
    → ((write waits (b ∷ buf) s).1 ≡ accepted (length (b ∷ buf)))
      × ((write waits (b ∷ buf) s).0.written ≡ s.written ++ (b ∷ buf) ∷ [])
      × IsIdle (write waits (b ∷ buf) s).0
unfolding write poll_write
write-written zero b buf s h = ground (arith, h)
write-written (suc waits) b buf s h = ground (
  arith,
  h,
  write_flight waits (b ∷ buf)
      (record s { in_flight_write = true; written = s.written ++ (b ∷ buf) ∷ [] }),
)

abbrev pub buffers : List (ℕ × List ℕ) → List (List ℕ)
buffers [] = []
buffers ((waits, buf) ∷ bufs) = buf ∷ buffers bufs

abbrev pub NonEmpty : List (ℕ × List ℕ) → Type 0
NonEmpty [] = Unit {0}
NonEmpty ((waits, buf) ∷ bufs) = (buf ≢ []) × NonEmpty bufs

write_all-IsIdle :
    (bufs : List (ℕ × List ℕ)) (s : MoQSend)
    → NonEmpty bufs
    → IsIdle s
    → ((write_all bufs s).written ≡ s.written ++ buffers bufs) × IsIdle (write_all bufs s)
unfolding write_all
write_all-IsIdle [] s n h = (sym (append-nil s.written), h)
write_all-IsIdle ((waits, []) ∷ bufs) s n h = absurd (n.0 refl)
write_all-IsIdle ((waits, b ∷ buf) ∷ bufs) s n h =
    let one = write-written waits b buf s h in
    let rest = write_all-IsIdle bufs (write waits (b ∷ buf) s).0 n.1 one.2 in
    (
      rest.0
          ∙ (ap (λ l. l ++ buffers bufs) one.1
              ∙ append_assoc s.written ((b ∷ buf) ∷ []) (buffers bufs)),
      rest.1,
    )

-- A caller that polls with each of its buffers, none of them empty, until it is accepted hands the
-- browser exactly these buffers, once each and in order, however long each write takes; after the
-- finish of the stream a further write is refused and changes nothing.
pub written-write_all :
    (bufs : List (ℕ × List ℕ)) (late : List ℕ) (promise : Promise)
    → NonEmpty bufs
    → ((write_all bufs over).written ≡ buffers bufs)
      × (poll_write late promise (finish (write_all bufs over))
          ≡ (finish (write_all bufs over), refused))
unfolding poll_write finish
written-write_all bufs late promise n =
    let all = write_all-IsIdle bufs over n (refl, refl) in
    let open_still : (write_all bufs over).finished ≡ false = all.1.1 in
    (all.0, ground (arith, open_still))
