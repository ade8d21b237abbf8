-- ===== src/Webui/Moq/Recv/Delivery.antt =====
-- Every byte of a stream reaches the reader of `MoQRecv` of webui/wasm/src/moq.rs.
use webshooter.Base.{
  ℕ, subst, ◌+◌, ◌-◌, ◌≡◌, ◌<◌, ◌⊎◌, inl, inr, refl, sym, ap, ◌∙◌, arith, Bool, true, false, List,
  [], ◌∷◌, ◌++◌, Option, none, some, ◌==◌, if◌then◌else◌, if_intro, length, take, drop,
  take-append-drop, length-drop, drop_all, drop-drop, append_assoc, append-nil, min,
}
use webshooter.Webui.Moq.Recv.{
  MoQRecv, with_initial_chunk, drain_burst, Promise, waiting, rejected, ended, valueless, chunk,
  ReadResult, pending, error, end_of_stream, bytes, after_chunk, poll_promise, poll_drained,
  poll_read,
}

-- The bytes that are held back for later reads.
abbrev pub held : MoQRecv → List ℕ
held s = drop s.burst_head s.burst

abbrev delivered : ReadResult → List ℕ
delivered pending = []
delivered error = []
delivered end_of_stream = []
delivered (bytes piece) = piece

abbrev chunk_in : Promise → List ℕ
chunk_in waiting = []
chunk_in rejected = []
chunk_in ended = []
chunk_in valueless = []
chunk_in (chunk c) = c

-- The chunk that a poll takes from the browser: none while bytes are held back or at the end.
abbrev arriving : Promise → MoQRecv → List ℕ
arriving promise s =
    if length s.burst - s.burst_head == 0 then (if s.done then [] else chunk_in promise) else []

-- A burst that is handed out is cleared at once.
abbrev pub IsSound : MoQRecv → Type 0
IsSound s = (s.burst_head < length s.burst) ⊎ ((s.burst ≡ []) × (s.burst_head ≡ 0))

-- The polls of a reader, each with the space of its buffer and what the promise gives.
pub all_delivered : List (ℕ × Promise) → MoQRecv → List ℕ
all_delivered [] s = []
all_delivered ((space, promise) ∷ polls) s =
    delivered (poll_read space promise s).1 ++ all_delivered polls (poll_read space promise s).0

pub all_arriving : List (ℕ × Promise) → MoQRecv → List ℕ
all_arriving [] s = []
all_arriving ((space, promise) ∷ polls) s =
    arriving promise s ++ all_arriving polls (poll_read space promise s).0

pub run : List (ℕ × Promise) → MoQRecv → MoQRecv
run [] s = s
run ((space, promise) ∷ polls) s = run polls (poll_read space promise s).0

abbrev Drained : MoQRecv → MoQRecv × Option (List ℕ) → Type 0
Drained s (t, none) = (t ≡ s) × (s.burst ≡ []) × (s.burst_head ≡ 0)
Drained s (t, some piece) = (piece ++ held t ≡ held s) × IsSound t × (s.burst_head < length s.burst)

empty_burst :
    (s : MoQRecv)
    → IsSound s
    → (length s.burst - s.burst_head == 0) ≡ true
    → (s.burst ≡ []) × (s.burst_head ≡ 0)
empty_burst s (inl lt) e = absurd (ground (arith, e))
empty_burst s (inr h) e = h

whole :
    (s : MoQRecv) (n : ℕ)
    → (s.burst_head + n == length s.burst) ≡ true
    → s.burst_head + n ≡ length s.burst
whole s n e = ground (arith, e)

drain_burst-Drained : (space : ℕ) (s : MoQRecv) → IsSound s → Drained s (drain_burst space s)
unfolding drain_burst
drain_burst-Drained space s h =
    let avail = length s.burst - s.burst_head in
    let n = min avail space in
    let rest = drop s.burst_head s.burst in
    if_intro (Drained s) (avail == 0) _ _
      (λ e. let empty = empty_burst s h e in (refl, empty.0, empty.1))
      (λ e.
        if_intro (Drained s) (s.burst_head + n == length s.burst) _ _
          (λ f. (
            append-nil (take n rest)
                ∙ (sym (append-nil (take n rest))
                    ∙ (ap (λ l. take n rest ++ l)
                          (sym (
                            drop_all n rest
                              (omega (arith, length-drop s.burst_head s.burst, whole s n f))))
                        ∙ take-append-drop n rest)),
            inr (refl, refl),
            ground (arith, e),
          ))
          (λ f. (
            ap (λ l. take n rest ++ l) (sym (drop-drop s.burst_head n s.burst))
                ∙ take-append-drop n rest,
            inl (ground (arith, e, f)),
            ground (arith, e),
          )))

abbrev Reads : Promise → MoQRecv → MoQRecv × ReadResult → Type 0
Reads promise s p = (delivered p.1 ++ held p.0 ≡ held s ++ arriving promise s) × IsSound p.0

after_chunk-Reads :
    (c : List ℕ) (s : MoQRecv) (p : MoQRecv × Option (List ℕ))
    → held s ≡ c
    → Drained s p
    → (delivered (after_chunk p).1 ++ held (after_chunk p).0 ≡ c) × IsSound (after_chunk p).0
after_chunk-Reads c s (t, none) e d = (ap held d.0 ∙ e, subst IsSound (sym d.0) (inr (d.1, d.2)))
after_chunk-Reads c s (t, some piece) e d = (d.0 ∙ e, d.1)

arriving_held :
    (promise : Promise) (s : MoQRecv) → s.burst_head < length s.burst → arriving promise s ≡ []
arriving_held promise s h = ground (arith, h)

-- What the promise brings once nothing is held back.
arriving_empty :
    (promise : Promise) (s : MoQRecv) (b : Bool)
    → s.burst ≡ []
    → s.done ≡ b
    → arriving promise s ≡ (if b then [] else chunk_in promise)
arriving_empty promise s true h e = ground (arith, h, e)
arriving_empty promise s false h e =
    let none_left : length s.burst ≡ 0 = ap (λ l. length l) h in ground (arith, none_left, e)

held_empty : (s : MoQRecv) → s.burst ≡ [] → s.burst_head ≡ 0 → held s ≡ []
held_empty s h k = ap (λ n. drop n s.burst) k ∙ h

fresh-IsSound : (c : List ℕ) (s : MoQRecv) → IsSound (record s { burst = c; burst_head = 0 })
fresh-IsSound [] s = inr (refl, refl)
fresh-IsSound (b ∷ c) s = inl (omega arith)

poll_promise-Reads :
    (space : ℕ) (promise : Promise) (s : MoQRecv)
    → s.burst ≡ []
    → s.burst_head ≡ 0
    → (delivered (poll_promise space promise s).1 ++ held (poll_promise space promise s).0
        ≡ chunk_in promise)
      × IsSound (poll_promise space promise s).0
poll_promise-Reads space waiting s h k = (held_empty s h k, inr (h, k))
poll_promise-Reads space rejected s h k = (held_empty s h k, inr (h, k))
poll_promise-Reads space ended s h k = (held_empty s h k, inr (h, k))
poll_promise-Reads space valueless s h k = (held_empty s h k, inr (h, k))
poll_promise-Reads space (chunk c) s h k =
    let t = record s { in_flight = false; burst = s.burst ++ c; burst_head = 0 } in
    after_chunk-Reads c t (drain_burst space t) (ap (λ l. l ++ c) h)
      (drain_burst-Drained space t (fresh-IsSound (s.burst ++ c) (record s { in_flight = false })))

poll_drained-Reads :
    (space : ℕ) (promise : Promise) (s : MoQRecv) (p : MoQRecv × Option (List ℕ))
    → Drained s p
    → Reads promise s (poll_drained space promise p)
poll_drained-Reads space promise s (t, some piece) d = (
  d.0 ∙ (sym (append-nil (held s)) ∙ ap (λ l. held s ++ l) (sym (arriving_held promise s d.2))),
  d.1,
)
poll_drained-Reads space promise s (t, none) d =
    subst (λ u. Reads promise s (poll_drained space promise (u, none))) (sym d.0)
      (if_intro (Reads promise s) s.done _ _
        (λ e. (
          sym (append-nil (held s))
              ∙ ap (λ l. held s ++ l) (sym (arriving_empty promise s true d.1 e)),
          inr (d.1, d.2),
        ))
        (λ e.
          let next = poll_promise-Reads space promise s d.1 d.2 in
          (
            next.0
                ∙ (sym (arriving_empty promise s false d.1 e)
                    ∙ ap (λ l. l ++ arriving promise s) (sym (held_empty s d.1 d.2))),
            next.1,
          )))

poll_read-Reads :
    (space : ℕ) (promise : Promise) (s : MoQRecv)
    → IsSound s
    → Reads promise s (poll_read space promise s)
unfolding poll_read
poll_read-Reads space promise s h =
    poll_drained-Reads space promise s (drain_burst space s) (drain_burst-Drained space s h)

run-held :
    (polls : List (ℕ × Promise)) (s : MoQRecv)
    → IsSound s
    → all_delivered polls s ++ held (run polls s) ≡ held s ++ all_arriving polls s
unfolding all_delivered all_arriving run
run-held [] s h = sym (append-nil (held s))
run-held ((space, promise) ∷ polls) s h =
    let p = poll_read space promise s in
    let one = poll_read-Reads space promise s h in
    append_assoc (delivered p.1) (all_delivered polls p.0) (held (run polls p.0))
    ∙ (ap (λ l. delivered p.1 ++ l) (run-held polls p.0 one.1)
        ∙ (sym (append_assoc (delivered p.1) (held p.0) (all_arriving polls p.0))
            ∙ (ap (λ l. l ++ all_arriving polls p.0) one.0
                ∙ append_assoc (held s) (arriving promise s) (all_arriving polls p.0))))

-- Whatever space the reader gives and whatever the promises bring: the bytes that it was given,
-- followed by those that are held back, are the first chunk of the stream and the chunks that came
-- after it, in order.
pub delivered-held :
    (initial : List ℕ) (polls : List (ℕ × Promise))
    → all_delivered polls (with_initial_chunk initial)
        ++ held (run polls (with_initial_chunk initial))
      ≡ initial ++ all_arriving polls (with_initial_chunk initial)
delivered-held initial polls =
    run-held polls (with_initial_chunk initial) (fresh-IsSound initial (with_initial_chunk initial))
