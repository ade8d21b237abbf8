-- ===== src/Webui/Resize/Flight.antt =====
-- What `ResizeDebounce` of webui/wasm/src/video.rs sends over a session.
use webshooter.Base.{
  ◌≡◌, ◌⊎◌, inl, inr, refl, ◌∙◌, arith, Bool, true, false, List, [], ◌∷◌, ◌++◌, Option, some,
}
use webshooter.Webui.Resize.{
  Size, ResizeEffect, send, ResizeDebounce, is_size, observe, begin_send, flush, completed,
}

-- The page, its settle timer and its streams: a stream that completes gives back the size that its
-- send named, which the shell keeps until then.
pub data ResizeEvent : Type 0 where
  observes : Size → ResizeEvent
  settles : ResizeEvent
  completes : Bool → ResizeEvent

-- The streams that are open, each by the size to restore if it fails.
abbrev pub Streams : Type 0
Streams = List (Option Size)

abbrev pub opens : ResizeEffect → Streams
opens (send size restore) = restore ∷ []
opens effect = []

abbrev completes_one : Bool → ResizeDebounce → Streams → ResizeDebounce × Streams
completes_one ok r [] = (r, [])
completes_one ok r (restore ∷ streams) =
    let c = completed restore ok r in (c.0, streams ++ opens c.1)

abbrev pub advance : ResizeEvent → ResizeDebounce × Streams → ResizeDebounce × Streams
advance (observes size) s = ((observe size s.0).0, s.1 ++ opens (observe size s.0).1)
advance settles s = ((flush s.0).0, s.1 ++ opens (flush s.0).1)
advance (completes ok) s = completes_one ok s.0 s.1

abbrev pub session : List ResizeEvent → ResizeDebounce × Streams → ResizeDebounce × Streams
session [] s = s
session (e ∷ es) s = session es (advance e s)

-- The flag says whether a stream is open, and there is never a second one.
abbrev pub OneStream : ResizeDebounce × Streams → Type 0
OneStream s =
    (s.0.in_flight ≡ false) × (s.1 ≡ [])
    ⊎ (restore : Option Size) × (s.0.in_flight ≡ true) × (s.1 ≡ restore ∷ [])

observe-quiet :
    (size : Size) (r : ResizeDebounce)
    → ((observe size r).0.in_flight ≡ r.in_flight) × (opens (observe size r).1 ≡ [])
unfolding observe
observe-quiet size r = ground arith

flush-idle : (r : ResizeDebounce) → r.in_flight ≡ false → OneStream ((flush r).0, opens (flush r).1)
unfolding flush begin_send
flush-idle r h = ground (arith, h)

flush-busy :
    (r : ResizeDebounce)
    → r.in_flight ≡ true
    → ((flush r).0.in_flight ≡ true) × (opens (flush r).1 ≡ [])
unfolding flush begin_send
flush-busy r h = ground (arith, h)

completed-OneStream :
    (restore : Option Size) (ok : Bool) (r : ResizeDebounce)
    → OneStream ((completed restore ok r).0, opens (completed restore ok r).1)
unfolding completed begin_send
completed-OneStream restore ok r = ground arith

advance-OneStream :
    (e : ResizeEvent) (s : ResizeDebounce × Streams) → OneStream s → OneStream (advance e s)
advance-OneStream (observes size) s (inl (f, w)) =
    let q = observe-quiet size s.0 in inl (q.0 ∙ f, rw (w, q.1) refl)
advance-OneStream (observes size) s (inr (o, f, w)) =
    let q = observe-quiet size s.0 in inr (o, q.0 ∙ f, rw (w, q.1) refl)
advance-OneStream settles s (inl (f, w)) = rw w (flush-idle s.0 f)
advance-OneStream settles s (inr (o, f, w)) =
    let q = flush-busy s.0 f in inr (o, q.0, rw (w, q.1) refl)
advance-OneStream (completes ok) s (inl (f, w)) = rw w (inl (f, refl))
advance-OneStream (completes ok) s (inr (o, f, w)) = rw w (completed-OneStream o ok s.0)

-- Whatever the page observes and however its streams end, at most one stream is open at a time,
-- exactly while the debouncer says so.
pub session-OneStream :
    (es : List ResizeEvent) (s : ResizeDebounce × Streams) → OneStream s → OneStream (session es s)
session-OneStream [] s h = h
session-OneStream (e ∷ es) s h = session-OneStream es (advance e s) (advance-OneStream e s h)

abbrev pub observe_all : List Size → ResizeDebounce → ResizeDebounce
observe_all [] r = r
observe_all (size ∷ sizes) r = observe_all sizes (observe size r).0

is_size_iff : (o : Option Size) (size : Size) → is_size o size ≡ true → o ≡ some size
is_size_iff o size h = ground arith

in_flight-observe : (size : Size) (r : ResizeDebounce) → (observe size r).0.in_flight ≡ r.in_flight
unfolding observe
in_flight-observe size r = ground arith

flush-observe :
    (size : Size) (r : ResizeDebounce)
    → r.in_flight ≡ false
    → (flush (observe size r).0).0.sent ≡ some size
unfolding observe flush begin_send
flush-observe size r h = ground (arith, h, is_size_iff r.pending size, is_size_iff r.sent size)

-- However many sizes a burst has, and whatever was pending before, when the timer expires with no
-- stream open, the last size of the burst is the size that was sent last.
pub flush-burst :
    (sizes : List Size) (size : Size) (r : ResizeDebounce)
    → r.in_flight ≡ false
    → (flush (observe_all (sizes ++ size ∷ []) r)).0.sent ≡ some size
flush-burst [] size r h = flush-observe size r h
flush-burst (s ∷ sizes) size r h =
    flush-burst sizes size (observe s r).0 (in_flight-observe s r ∙ h)
