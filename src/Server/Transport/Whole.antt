-- ===== src/Server/Transport/Whole.antt =====
-- What the readers of server/src/moq/transport.rs and server/src/moq/mod.rs make of a whole stream.
use webshooter.Base.{
  ℕ, zero, suc, ◌+◌, ◌≤◌, ◌<◌, ◌≡◌, refl, sym, ap, ◌∙◌, arith, List, [], ◌∷◌, ◌++◌, Option, none,
  some, length, length-append, append_assoc, append-nil,
}
use webshooter.Base.Result.{Result, ok, err}
use webshooter.Server.Transport.{Error}
use webshooter.Server.Transport.Recv.{
  QuicStream, ReadError, Outcome, pending, got, failed, Reads, outcome, read_error, WtRecvStream,
  new, with_first, read_peeked, poll_read, after_read, read_to_end, chunk_size, classified,
  classify,
}

abbrev pub owed : Option ℕ → List ℕ
owed none = []
owed (some byte) = byte ∷ []

-- The result of a stream that brings these bytes and ends so.
abbrev pub ending : Option ReadError → List ℕ → Result Error (List ℕ)
ending none bytes = ok bytes
ending (some e) bytes = err (read_error e)

module _ (q : QuicStream) where
  open q use {Stream, read, bytes, fate, waits, reads}

  abbrev pub unread : WtRecvStream q → List ℕ
  unread r = owed r.peeked ++ bytes r.inner

  -- What a read leaves to do: to wait, to read or to see the end.
  abbrev pub work : Stream → ℕ
  work s = waits s + length (bytes s)

  abbrev Whole : ℕ → Type 0
  Whole fuel =
      (s : Stream) (out : List ℕ)
      → work s < fuel
      → read_to_end q fuel (new q s) out ≡ some (ending (fate s) (out ++ bytes s))

  go_on :
      (fuel : ℕ) (s : Stream) (out : List ℕ) (r : Stream × Outcome)
      → Reads bytes fate waits chunk_size s r
      → work s < suc fuel
      → Whole fuel
      → after_read q (outcome r.1) out (read_to_end q fuel (new q r.0))
        ≡ some (ending (fate s) (out ++ bytes s))
  unfolding after_read outcome
  go_on fuel s out (s', pending) h small ih =
      ih s' out (ground (arith, h.0, ap (length {A = ℕ}) h.0))
      ∙ ap (λ e. some e)
          (ap (λ f. ending f (out ++ bytes s')) h.1 ∙ ap (λ b. ending (fate s) (out ++ b)) h.0)
  go_on fuel s out (s', got []) h small ih =
      rw (h.0, h.1) (ap (λ l. some (ok l)) (sym (append-nil out)))
  go_on fuel s out (s', got (b ∷ bs)) h small ih =
      ih s' (out ++ b ∷ bs) (ground (arith, ap (length {A = ℕ}) h.0, length-append bs (bytes s')))
      ∙ ap (λ e. some e)
          (ap (λ f. ending f ((out ++ b ∷ bs) ++ bytes s')) h.1
            ∙ ap (ending (fate s))
                (append_assoc out (b ∷ bs) (bytes s') ∙ ap (λ l. out ++ l) (sym h.0)))
  go_on fuel s out (s', failed e) h small ih = rw h.1 refl

  read_to_end-new : (fuel : ℕ) → Whole fuel
  unfolding read_to_end poll_read read_peeked
  read_to_end-new zero s out small = absurd (omega arith)
  read_to_end-new (suc fuel) s out small =
      go_on fuel s out (read chunk_size s) (reads chunk_size s (omega arith)) small
        (read_to_end-new fuel)

  -- With fuel for every byte and every wait, a stream is read to its end, also one whose first byte
  -- was read before: the result is all its bytes, that byte first, or the error that it ends with.
  pub read_to_end-whole :
      (r : WtRecvStream q) (fuel : ℕ)
      → work r.inner + 1 < fuel
      → read_to_end q fuel r [] ≡ some (ending (fate r.inner) (unread r))
  unfolding read_to_end poll_read read_peeked after_read
  read_to_end-whole r fuel small = by_peeked fuel r.peeked refl small
    where
      by_peeked :
          (n : ℕ) (p : Option ℕ)
          → r.peeked ≡ p
          → work r.inner + 1 < n
          → read_to_end q n (record { inner = r.inner; peeked = p }) []
            ≡ some (ending (fate r.inner) (owed p ++ bytes r.inner))
      by_peeked n none e h = read_to_end-new n r.inner [] (omega arith)
      by_peeked zero (some byte) e h = absurd (omega arith)
      by_peeked (suc n) (some byte) e h = read_to_end-new n r.inner (byte ∷ []) (omega arith)

  abbrev pub Named : Stream → Option (Result Error (ℕ × WtRecvStream q)) → Type 0
  Named s o =
      (b : ℕ) × (r : WtRecvStream q) × (o ≡ some (ok (b, r)))
      × (unread r ≡ bytes s)
      × (fate r.inner ≡ fate s)
      × (work r.inner ≤ work s)
      × (r.peeked ≡ some b)

  Named-after :
      (fuel : ℕ) (s : Stream) (r : Stream × Outcome)
      → Reads bytes fate waits 1 s r
      → 1 ≤ length (bytes s)
      → waits s < suc fuel
      → ((u : Stream) → 1 ≤ length (bytes u) → waits u < fuel → Named u (classify q fuel u))
      → Named s (classified q r.0 r.1 (classify q fuel r.0))
  unfolding classified
  Named-after fuel s (s', pending) h some_byte small ih =
      let more : 1 ≤ length (bytes s') = rw h.0 some_byte in
      let n = ih s' more (omega arith) in
      (n.0, n.1, n.2, n.3 ∙ h.0, n.4 ∙ h.1, omega (arith, ap (length {A = ℕ}) h.0, n.5, h.2), n.6)
  Named-after fuel s (s', got []) h some_byte small ih =
      absurd (omega (arith, ap (length {A = ℕ}) h.0))
  Named-after fuel s (s', got (b ∷ [])) h some_byte small ih =
      (b, with_first q s' b, refl, sym h.0, h.1, omega (arith, ap (length {A = ℕ}) h.0, h.2), refl)
  Named-after fuel s (s', got (b ∷ c ∷ bs)) h some_byte small ih = absurd (omega (arith, h.3))
  Named-after fuel s (s', failed e) h some_byte small ih =
      absurd (omega (arith, ap (length {A = ℕ}) h.0))

  -- Polled often enough, `classify` names a stream that has a byte by its first one, and hands the
  -- stream on with all its bytes still to be read.
  pub classify-whole :
      (fuel : ℕ) (s : Stream) → 1 ≤ length (bytes s) → waits s < fuel → Named s (classify q fuel s)
  unfolding classify
  classify-whole zero s some_byte small = absurd (omega arith)
  classify-whole (suc fuel) s some_byte small =
      Named-after fuel s (read 1 s) (reads 1 s (omega arith)) some_byte small (classify-whole fuel)
