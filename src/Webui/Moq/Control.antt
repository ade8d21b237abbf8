-- ===== src/Webui/Moq/Control.antt =====
-- `AppSide` of webui/wasm/src/moq.rs: the server's control messages from two queues.
use webshooter.Base.{
  ℕ, ◌≡◌, refl, Bool, true, false, ◌&&◌, List, [], ◌∷◌, ◌++◌, Option, none, some, if◌then◌else◌,
  if_intro,
}
use webshooter.Shared.WakeQueue.{Poll, pending, ready, Inner, push, close, poll_pop, pop_from}

abbrev pub Queue : Type 0
Queue = Inner (List ℕ)

pub record AppSide : Type 0 where
  pub datagrams : Queue
  pub unistreams : Queue

-- `AppSide::close`, with the wakers that it wakes.
unfoldable pub close_both : AppSide → AppSide × List ℕ
close_both a = (
  record { datagrams = (close a.datagrams).0; unistreams = (close a.unistreams).0 },
  (close a.datagrams).1 ++ (close a.unistreams).1,
)

-- One call of `next_control`: which queue is done is kept between its polls.
pub record Call : Type 0 where
  pub side : AppSide
  pub datagrams_done : Bool
  pub unistreams_done : Bool

abbrev pub next_control : AppSide → Call
next_control a = record { side = a; datagrams_done = false; unistreams_done = false }

abbrev pub finish : Call → Call × Poll (Option (List ℕ))
finish c = if c.datagrams_done && c.unistreams_done then (c, ready none) else (c, pending)

abbrev pub poll_unistreams :
    Bool → Queue × Poll (Option (List ℕ)) → Call → Call × Poll (Option (List ℕ))
poll_unistreams true p c = finish c
poll_unistreams false (q, ready (some m)) c =
    (record c { side = record (c.side) { unistreams = q } }, ready (some m))
poll_unistreams false (q, ready none) c =
    finish (record c { side = record (c.side) { unistreams = q }; unistreams_done = true })
poll_unistreams false (q, pending) c =
    finish (record c { side = record (c.side) { unistreams = q } })

abbrev pub on_unistreams : ℕ → Call → Call × Poll (Option (List ℕ))
on_unistreams waker c = poll_unistreams c.unistreams_done (poll_pop waker c.side.unistreams) c

abbrev pub poll_datagrams :
    ℕ → Bool → Queue × Poll (Option (List ℕ)) → Call → Call × Poll (Option (List ℕ))
poll_datagrams waker true p c = on_unistreams waker c
poll_datagrams waker false (q, ready (some m)) c =
    (record c { side = record (c.side) { datagrams = q } }, ready (some m))
poll_datagrams waker false (q, ready none) c =
    on_unistreams waker
      (record c { side = record (c.side) { datagrams = q }; datagrams_done = true })
poll_datagrams waker false (q, pending) c =
    on_unistreams waker (record c { side = record (c.side) { datagrams = q } })

unfoldable pub poll_next : ℕ → Call → Call × Poll (Option (List ℕ))
poll_next waker c = poll_datagrams waker c.datagrams_done (poll_pop waker c.side.datagrams) c

-- Closed and drained: nothing more comes out of the queue.
abbrev pub IsOver : Queue → Type 0
IsOver q = (q.items ≡ []) × (q.closed ≡ true)

abbrev Flagged : Bool → Queue → Type 0
Flagged true q = IsOver q
Flagged false q = Unit {0}

abbrev pub IsSound : Call → Type 0
IsSound c = Flagged c.datagrams_done c.side.datagrams × Flagged c.unistreams_done c.side.unistreams

-- The result `none` is right only where both queues are over.
abbrev Right : Call × Poll (Option (List ℕ)) → Type 0
Right (c, pending) = IsSound c
Right (c, ready (some m)) = IsSound c
Right (c, ready none) = IsSound c × IsOver c.side.datagrams × IsOver c.side.unistreams

flag_over : (b : Bool) (q : Queue) → Flagged b q → b ≡ true → IsOver q
flag_over true q h e = h
flag_over false q h e = cc e

both_true : (a b : Bool) → (a && b) ≡ true → (a ≡ true) × (b ≡ true)
both_true true true h = (refl, refl)
both_true true false h = cc
both_true false b h = cc

finish-Right : (c : Call) → IsSound c → Right (finish c)
finish-Right c h =
    if_intro Right (c.datagrams_done && c.unistreams_done) _ _
      (λ e.
        let flags = both_true c.datagrams_done c.unistreams_done e in
        (
          h,
          flag_over c.datagrams_done c.side.datagrams h.0 flags.0,
          flag_over c.unistreams_done c.side.unistreams h.1 flags.1,
        ))
      (λ e. h)

abbrev Popped : Queue × Poll (Option (List ℕ)) → Type 0
Popped (q, pending) = Unit {0}
Popped (q, ready (some m)) = Unit {0}
Popped (q, ready none) = IsOver q

pop_from-Popped :
    (items : List (List ℕ)) (waker : ℕ) (q : Queue)
    → q.items ≡ items
    → Popped (pop_from items waker q)
unfolding pop_from
pop_from-Popped [] waker q e = if_intro Popped q.closed _ _ (λ c. (e, c)) (λ c. tt)
pop_from-Popped (m ∷ items) waker q e = tt

poll_pop-Popped : (waker : ℕ) (q : Queue) → Popped (poll_pop waker q)
unfolding poll_pop
poll_pop-Popped waker q = pop_from-Popped q.items waker q refl

flag_open : (b : Bool) (q : Queue) → b ≡ false → Flagged b q
flag_open true q e = cc e
flag_open false q e = tt

poll_unistreams-Right :
    (d : Bool) (p : Queue × Poll (Option (List ℕ))) (c : Call)
    → c.unistreams_done ≡ d
    → Popped p
    → IsSound c
    → Right (poll_unistreams d p c)
poll_unistreams-Right true p c e o h = finish-Right c h
poll_unistreams-Right false (q, ready (some m)) c e o h = (h.0, flag_open c.unistreams_done q e)
poll_unistreams-Right false (q, ready none) c e o h =
    finish-Right (record c { side = record (c.side) { unistreams = q }; unistreams_done = true })
      (h.0, o)
poll_unistreams-Right false (q, pending) c e o h =
    finish-Right (record c { side = record (c.side) { unistreams = q } })
      (h.0, flag_open c.unistreams_done q e)

on_unistreams-Right : (waker : ℕ) (c : Call) → IsSound c → Right (on_unistreams waker c)
on_unistreams-Right waker c h =
    poll_unistreams-Right c.unistreams_done (poll_pop waker c.side.unistreams) c refl
      (poll_pop-Popped waker c.side.unistreams) h

poll_datagrams-Right :
    (waker : ℕ) (d : Bool) (p : Queue × Poll (Option (List ℕ))) (c : Call)
    → c.datagrams_done ≡ d
    → Popped p
    → IsSound c
    → Right (poll_datagrams waker d p c)
poll_datagrams-Right waker true p c e o h = on_unistreams-Right waker c h
poll_datagrams-Right waker false (q, ready (some m)) c e o h = (flag_open c.datagrams_done q e, h.1)
poll_datagrams-Right waker false (q, ready none) c e o h =
    on_unistreams-Right waker
      (record c { side = record (c.side) { datagrams = q }; datagrams_done = true }) (o, h.1)
poll_datagrams-Right waker false (q, pending) c e o h =
    on_unistreams-Right waker (record c { side = record (c.side) { datagrams = q } })
      (flag_open c.datagrams_done q e, h.1)

poll_next-Right : (waker : ℕ) (c : Call) → IsSound c → Right (poll_next waker c)
unfolding poll_next
poll_next-Right waker c h =
    poll_datagrams-Right waker c.datagrams_done (poll_pop waker c.side.datagrams) c refl
      (poll_pop-Popped waker c.side.datagrams) h

-- What happens between two polls of the call: the pumps push and close.
pub data Event : Type 0 where
  datagram : List ℕ → Event
  unistream : List ℕ → Event
  closed : Event
  poll : ℕ → Event

abbrev pub on_side : (AppSide → AppSide) → Call → Call
on_side f c = record c { side = f c.side }

unfoldable pub step : Event → Call → Call
step (datagram m) c = on_side (λ a. record a { datagrams = (push m a.datagrams).0 }) c
step (unistream m) c = on_side (λ a. record a { unistreams = (push m a.unistreams).0 }) c
step closed c = on_side (λ a. (close_both a).0) c
step (poll waker) c = (poll_next waker c).0

unfoldable pub after : List Event → Call → Call
unfolding step
after [] c = c
after (e ∷ events) c = after events (step e c)

Flagged-push : (b : Bool) (m : List ℕ) (q : Queue) → Flagged b q → Flagged b (push m q).0
unfolding push
Flagged-push true m q h =
    if_intro (λ (p : Queue × List ℕ). IsOver p.0) q.closed _ _ (λ c. h) (λ c. absurd (cc (h.1, c)))
Flagged-push false m q h = tt

Flagged-close : (b : Bool) (q : Queue) → Flagged b q → Flagged b (close q).0
unfolding close
Flagged-close true q h = (h.0, refl)
Flagged-close false q h = tt

Right-IsSound : (p : Call × Poll (Option (List ℕ))) → Right p → IsSound p.0
Right-IsSound (c, pending) h = h
Right-IsSound (c, ready (some m)) h = h
Right-IsSound (c, ready none) h = h.0

step-IsSound : (e : Event) (c : Call) → IsSound c → IsSound (step e c)
unfolding step close_both
step-IsSound (datagram m) c h = (Flagged-push c.datagrams_done m c.side.datagrams h.0, h.1)
step-IsSound (unistream m) c h = (h.0, Flagged-push c.unistreams_done m c.side.unistreams h.1)
step-IsSound closed c h = (
  Flagged-close c.datagrams_done c.side.datagrams h.0,
  Flagged-close c.unistreams_done c.side.unistreams h.1,
)
step-IsSound (poll waker) c h = Right-IsSound (poll_next waker c) (poll_next-Right waker c h)

after-IsSound : (events : List Event) (c : Call) → IsSound c → IsSound (after events c)
unfolding after
after-IsSound [] c h = h
after-IsSound (e ∷ events) c h = after-IsSound events (step e c) (step-IsSound e c h)

over :
    (p : Call × Poll (Option (List ℕ)))
    → Right p
    → p.1 ≡ ready none
    → IsOver p.0.side.datagrams × IsOver p.0.side.unistreams
over (c, pending) h e = cc e
over (c, ready (some m)) h e = cc e
over (c, ready none) h e = (h.1, h.2)

-- Whatever the pumps do between the polls of a call of `next_control`: it reports the end of the
-- session only when both queues are closed and nothing is left in either.
pub poll_next_end :
    (a : AppSide) (events : List Event) (waker : ℕ)
    → (poll_next waker (after events (next_control a))).1 ≡ ready none
    → IsOver (poll_next waker (after events (next_control a))).0.side.datagrams
      × IsOver (poll_next waker (after events (next_control a))).0.side.unistreams
poll_next_end a events waker h =
    let c = after events (next_control a) in
    over (poll_next waker c)
      (poll_next-Right waker c (after-IsSound events (next_control a) (tt, tt))) h
