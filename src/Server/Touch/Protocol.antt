-- ===== src/Server/Touch/Protocol.antt =====
-- What `TouchState` sends, against the rules of the device that receives it.
use webshooter.Base.{
  ℕ, ◌≡◌, refl, ap, ◌∙◌, arith, false, List, [], ◌∷◌, ◌++◌, map, Option, none, some, if◌then◌else◌,
  Bool-cases, inl, inr,
}
use webshooter.Server.Touch.{
  EisTouchEvent, down, motion, up, TouchState, holds, without, handle_touch, handle_release,
  release_all,
}

-- The messages of a client that reach the touch state.
pub data TouchInput : Type 0 where
  touches : ℕ → ℕ → ℕ → TouchInput
  releases : ℕ → TouchInput

abbrev pub emitted : Option EisTouchEvent → List EisTouchEvent
emitted none = []
emitted (some e) = e ∷ []

abbrev pub handle : TouchInput → TouchState → TouchState × List EisTouchEvent
handle (touches i x y) s = handle_touch i x y s
handle (releases i) s = ((handle_release i s).0, emitted (handle_release i s).1)

abbrev pub feed : List TouchInput → TouchState → TouchState × List EisTouchEvent
feed [] s = (s, [])
feed (m ∷ ms) s = let r = feed ms (handle m s).0 in (r.0, (handle m s).1 ++ r.1)

-- The receiver: a slot goes down only if it is up, and moves or goes up only if it is down. A
-- breach of these rules is `none`.
abbrev pub receive_one : EisTouchEvent → TouchState → Option TouchState
receive_one (down x y i) s = if holds i s then none else some (i ∷ s)
receive_one (motion x y i) s = if holds i s then some s else none
receive_one (up i) s = if holds i s then some (without i s) else none

abbrev pub receive_next : EisTouchEvent → Option TouchState → Option TouchState
receive_next e none = none
receive_next e (some s) = receive_one e s

abbrev pub receive : List EisTouchEvent → Option TouchState → Option TouchState
receive [] o = o
receive (e ∷ es) o = receive es (receive_next e o)

pub receive-append :
    (a b : List EisTouchEvent) (o : Option TouchState)
    → receive (a ++ b) o ≡ receive b (receive a o)
receive-append [] b o = refl
receive-append (e ∷ a) b o = receive-append a b (receive_next e o)

pub receive-handle :
    (m : TouchInput) (s : TouchState) → receive (handle m s).1 (some s) ≡ some (handle m s).0
unfolding handle_touch handle_release
receive-handle (touches i x y) s = elim (Bool-cases (holds i s)) [
  | inl e ↦ rw (e, e)
  | inr e ↦ rw (e, e)
]
receive-handle (releases i) s = elim (Bool-cases (holds i s)) [ inl e ↦ rw (e, e) | inr e ↦ rw e ]

receive-feed :
    (ms : List TouchInput) (s : TouchState) → receive (feed ms s).1 (some s) ≡ some (feed ms s).0
receive-feed [] s = refl
receive-feed (m ∷ ms) s =
    receive-append (handle m s).1 (feed ms (handle m s).0).1 (some s)
    ∙ ap (receive (feed ms (handle m s).0).1) (receive-handle m s)
    ∙ receive-feed ms (handle m s).0

-- Each slot stands in the state once.
abbrev pub NoDup : TouchState → Type 0
NoDup [] = Unit {0}
NoDup (i ∷ s) = (holds i s ≡ false) × NoDup s

holds-without : (i j : ℕ) (s : TouchState) → holds i s ≡ false → holds i (without j s) ≡ false
unfolding without
holds-without i j [] h = refl
holds-without i j (k ∷ s) h = ground (arith, holds-without i j s)

without-NoDup : (j : ℕ) (s : TouchState) → NoDup s → NoDup (without j s)
unfolding without
without-NoDup j [] h = tt
without-NoDup j (k ∷ s) h = ground (arith, without-NoDup j s, holds-without k j s)

pub handle-NoDup : (m : TouchInput) (s : TouchState) → NoDup s → NoDup (handle m s).0
unfolding handle_touch handle_release
handle-NoDup (touches i x y) s h = ground arith
handle-NoDup (releases i) s h = ground (arith, without-NoDup i s h)

feed-NoDup : (ms : List TouchInput) (s : TouchState) → NoDup s → NoDup (feed ms s).0
feed-NoDup [] s h = h
feed-NoDup (m ∷ ms) s h = feed-NoDup ms (handle m s).0 (handle-NoDup m s h)

without-absent : (i : ℕ) (s : TouchState) → holds i s ≡ false → without i s ≡ s
unfolding without
without-absent i [] h = refl
without-absent i (k ∷ s) h = ground (arith, without-absent i s)

lift_head : (i : ℕ) (s : TouchState) → holds i s ≡ false → receive_one (up i) (i ∷ s) ≡ some s
unfolding without
lift_head i s h = ground (arith, without-absent i s)

pub receive-ups : (s : TouchState) → NoDup s → receive (map (λ i. up i) s) (some s) ≡ some []
receive-ups [] h = refl
receive-ups (i ∷ s) h = ap (receive (map (λ i. up i) s)) (lift_head i s h.0) ∙ receive-ups s h.1

-- Whatever a client sends, in whatever order, the receiver takes every event of the session: no
-- slot is pressed twice, and none moves or is lifted that is not down. When the session ends,
-- `release_all` lifts exactly the slots that are down, and none stays down.
pub session_events :
    (ms : List TouchInput)
    → (receive (feed ms []).1 (some []) ≡ some (feed ms []).0)
      × (receive ((feed ms []).1 ++ (release_all (feed ms []).0).1) (some []) ≡ some [])
unfolding release_all
session_events ms =
    let ups : List EisTouchEvent = map (λ i. up i) (feed ms []).0 in
    (
      receive-feed ms [],
      receive-append (feed ms []).1 ups (some [])
          ∙ ap (receive ups) (receive-feed ms [])
          ∙ receive-ups (feed ms []).0 (feed-NoDup ms [] tt),
    )
