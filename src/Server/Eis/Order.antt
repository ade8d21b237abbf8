-- ===== src/Server/Eis/Order.antt =====
-- The order in which the EIS thread of server/src/pipewire/eis.rs hands on the events of each kind.
use webshooter.Base.{
  ℕ, zero, suc, ◌≡◌, refl, sym, ap, ◌∙◌, Bool, true, false, List, [], ◌∷◌, ◌++◌, Option, none, some,
  if◌then◌else◌, append_assoc, append-nil, if_intro,
}
use webshooter.Base.Int.{ℤ}
use webshooter.Server.Touch.{EisTouchEvent}
use webshooter.Server.Touch.Protocol.{emitted}
use webshooter.Server.Keyboard.{EisKeyboardEvent}
use webshooter.Server.Eis.Task.{EisInputEvent, touch, keyboard, pointer, button, scroll}
use webshooter.Server.Eis.Frame.{
  Space, Frame, no_events, Sorted, sort_event, sort_batch, fill, EisEvent, EisArm, cancelled, event,
  liveness, reads, hung_up, read_last, arrives, Thread, new_thread, on_event, wait_for_resume,
  sent_frame, read_batch, eis_running, eis_waiting, eis_turn, eis_main, paused, to_device,
  add_touch, max_input_batch,
}

abbrev pub flat {ℓ κ} : {A : Type ℓ} {B : Type κ} → (A → List B) → List A → List B
flat f [] = []
flat f (x ∷ xs) = f x ++ flat f xs

flat-append {ℓ κ} :
    {A : Type ℓ} {B : Type κ} (f : A → List B) (xs ys : List A)
    → flat f (xs ++ ys) ≡ flat f xs ++ flat f ys
flat-append f [] ys = refl
flat-append f (x ∷ xs) ys =
    ap (λ l. f x ++ l) (flat-append f xs ys) ∙ sym (append_assoc (f x) (flat f xs) (flat f ys))

-- The events that reach the channel before the thread ends.
abbrev pub arriving : Bool → EisArm → List EisInputEvent
arriving true arm = []
arriving false (arrives e) = e ∷ []
arriving false _ = []

abbrev pub arrivals : Space → List EisArm → Thread → List EisInputEvent
arrivals s [] t = []
arrivals s (arm ∷ arms) t = arriving t.ended arm ++ arrivals s arms (eis_turn s arm t)

fill-append : (n : ℕ) (queue : List EisInputEvent) → (fill n queue).0 ++ (fill n queue).1 ≡ queue
unfolding fill
fill-append zero queue = refl
fill-append (suc n) [] = refl
fill-append (suc n) (e ∷ queue) = ap (λ l. e ∷ l) (fill-append n queue)

-- One kind: what a frame holds of it, and what an event is of it.
module _ {X : Type 0} (s : Space) (part : Frame → List X) (kind : EisInputEvent → List X)
    (empty : part no_events ≡ [])
    (sorts : (e : EisInputEvent) (r : Sorted)
      → part (sort_event s e r).0 ≡ part r.0 ++ kind e) where
  sort_batch-part :
      (es : List EisInputEvent) (r : Sorted) → part (sort_batch s es r).0 ≡ part r.0 ++ flat kind es
  unfolding sort_batch
  sort_batch-part [] r = sym (append-nil (part r.0))
  sort_batch-part (e ∷ es) r =
      sort_batch-part es (sort_event s e r)
      ∙ ap (λ l. l ++ flat kind es) (sorts e r)
      ∙ append_assoc (part r.0) (kind e) (flat kind es)

  abbrev content : Thread → List X
  content t = flat part t.frames ++ flat kind t.queue

  sent_frame-content :
      (batch left : List EisInputEvent) (t : Thread)
      → content (sent_frame s (batch, left) t) ≡ flat part t.frames ++ flat kind (batch ++ left)
  unfolding sent_frame
  sent_frame-content batch left t =
      let f = (sort_batch s batch (no_events, t.counts)).0 in
      let one : part f ≡ flat kind batch =
        sort_batch-part batch (no_events, t.counts) ∙ ap (λ l. l ++ flat kind batch) empty in
      simp (flat-append, append_assoc, append-nil, one)

  read_batch-content :
      (queue : List EisInputEvent) (t : Thread)
      → t.queue ≡ queue
      → content (read_batch s queue t) ≡ content t
  unfolding read_batch
  read_batch-content [] t h = refl
  read_batch-content (e ∷ queue) t h =
      sent_frame-content (fill max_input_batch (e ∷ queue)).0 (fill max_input_batch (e ∷ queue)).1 t
      ∙ ap (λ l. flat part t.frames ++ flat kind l)
          (fill-append max_input_batch (e ∷ queue) ∙ sym h)

  read_last-content :
      (queue : List EisInputEvent) (t : Thread)
      → t.queue ≡ queue
      → content (read_last s queue t) ≡ content t
  unfolding read_last
  read_last-content [] t h = refl
  read_last-content (e ∷ queue) t h = read_batch-content (e ∷ queue) t h

  on_event-content : (e : EisEvent) (t : Thread) → content (on_event e t) ≡ content t
  unfolding on_event
  on_event-content paused t = refl
  on_event-content _ t = refl

  wait_for_resume-content : (e : EisEvent) (t : Thread) → content (wait_for_resume e t) ≡ content t
  unfolding wait_for_resume
  wait_for_resume-content paused t = refl
  wait_for_resume-content _ t = refl

  arrives-content :
      (e : EisInputEvent) (t : Thread)
      → content (record t { queue = t.queue ++ e ∷ [] }) ≡ content t ++ kind e
  arrives-content e t = simp (flat-append, append_assoc, append-nil)

  running-content :
      (arm : EisArm) (t : Thread)
      → content (eis_running s arm t) ≡ content t ++ flat kind (arriving false arm)
  unfolding eis_running
  running-content cancelled t = sym (append-nil (content t))
  running-content (event e) t = on_event-content e t ∙ sym (append-nil (content t))
  running-content liveness t = sym (append-nil (content t))
  running-content reads t = read_batch-content t.queue t refl ∙ sym (append-nil (content t))
  running-content hung_up t = read_last-content t.queue t refl ∙ sym (append-nil (content t))
  running-content (arrives e) t =
      arrives-content e t ∙ ap (λ l. content t ++ l) (sym (append-nil (kind e)))

  waiting-content :
      (arm : EisArm) (t : Thread)
      → content (eis_waiting s arm t) ≡ content t ++ flat kind (arriving false arm)
  unfolding eis_waiting
  waiting-content cancelled t = sym (append-nil (content t))
  waiting-content (event e) t = wait_for_resume-content e t ∙ sym (append-nil (content t))
  waiting-content liveness t = sym (append-nil (content t))
  waiting-content reads t = sym (append-nil (content t))
  waiting-content hung_up t = sym (append-nil (content t))
  waiting-content (arrives e) t =
      arrives-content e t ∙ ap (λ l. content t ++ l) (sym (append-nil (kind e)))

  act-content :
      (ended : Bool) (arm : EisArm) (t : Thread)
      → content
          (if ended then t else if t.waiting then eis_waiting s arm t else eis_running s arm t)
        ≡ content t ++ flat kind (arriving ended arm)
  act-content true arm t = sym (append-nil (content t))
  act-content false arm t =
      if_intro (λ (u : Thread). content u ≡ content t ++ flat kind (arriving false arm)) t.waiting
        (eis_waiting s arm t) (eis_running s arm t) (λ _. waiting-content arm t)
        (λ _. running-content arm t)

  turn-content :
      (arm : EisArm) (t : Thread)
      → content (eis_turn s arm t) ≡ content t ++ flat kind (arriving t.ended arm)
  unfolding eis_turn
  turn-content arm t = act-content t.ended arm t

  pub eis_main-content :
      (arms : List EisArm) (t : Thread)
      → content (eis_main s arms t) ≡ content t ++ flat kind (arrivals s arms t)
  unfolding eis_main
  eis_main-content [] t = sym (append-nil (content t))
  eis_main-content (arm ∷ arms) t =
      eis_main-content arms (eis_turn s arm t)
      ∙ ap (λ l. l ++ flat kind (arrivals s arms (eis_turn s arm t))) (turn-content arm t)
      ∙ append_assoc (content t) (flat kind (arriving t.ended arm))
          (flat kind (arrivals s arms (eis_turn s arm t)))
      ∙ ap (λ l. content t ++ l)
          (sym (flat-append kind (arriving t.ended arm) (arrivals s arms (eis_turn s arm t))))

-- The kinds: what an event is of each, and that sorting adds exactly that.
abbrev pub touches_of : Space → EisInputEvent → List EisTouchEvent
touches_of s (touch e) = emitted (to_device s e)
touches_of s _ = []

abbrev pub keys_of : EisInputEvent → List EisKeyboardEvent
keys_of (keyboard e) = e ∷ []
keys_of _ = []

abbrev pub pointers_of : EisInputEvent → List (ℤ × ℤ)
pointers_of (pointer dx dy) = (dx, dy) ∷ []
pointers_of _ = []

abbrev pub buttons_of : EisInputEvent → List (ℕ × Bool)
buttons_of (button b pressed) = (b, pressed) ∷ []
buttons_of _ = []

abbrev pub scrolls_of : EisInputEvent → List (ℤ × ℤ)
scrolls_of (scroll dx dy) = (dx, dy) ∷ []
scrolls_of _ = []

add_touch-parts :
    (o : Option EisTouchEvent) (r : Sorted)
    → ((add_touch o r).0.touches ≡ r.0.touches ++ emitted o)
      × ((add_touch o r).0.keys ≡ r.0.keys)
      × ((add_touch o r).0.pointers ≡ r.0.pointers)
      × ((add_touch o r).0.buttons ≡ r.0.buttons)
      × ((add_touch o r).0.scrolls ≡ r.0.scrolls)
unfolding add_touch
add_touch-parts none (f, c) = (sym (append-nil f.touches), refl, refl, refl, refl)
add_touch-parts (some e) (f, c) = (refl, refl, refl, refl, refl)

sorts_touches :
    (s : Space) (e : EisInputEvent) (r : Sorted)
    → (sort_event s e r).0.touches ≡ r.0.touches ++ touches_of s e
unfolding sort_event
sorts_touches s (touch e) r = (add_touch-parts (to_device s e) r).0
sorts_touches s (keyboard e) (f, c) = sym (append-nil f.touches)
sorts_touches s (pointer dx dy) (f, c) = sym (append-nil f.touches)
sorts_touches s (button b pressed) (f, c) = sym (append-nil f.touches)
sorts_touches s (scroll dx dy) (f, c) = sym (append-nil f.touches)

sorts_keys :
    (s : Space) (e : EisInputEvent) (r : Sorted) → (sort_event s e r).0.keys ≡ r.0.keys ++ keys_of e
unfolding sort_event
sorts_keys s (touch e) r = (add_touch-parts (to_device s e) r).1 ∙ sym (append-nil r.0.keys)
sorts_keys s (keyboard e) (f, c) = refl
sorts_keys s (pointer dx dy) (f, c) = sym (append-nil f.keys)
sorts_keys s (button b pressed) (f, c) = sym (append-nil f.keys)
sorts_keys s (scroll dx dy) (f, c) = sym (append-nil f.keys)

sorts_pointers :
    (s : Space) (e : EisInputEvent) (r : Sorted)
    → (sort_event s e r).0.pointers ≡ r.0.pointers ++ pointers_of e
unfolding sort_event
sorts_pointers s (touch e) r = (add_touch-parts (to_device s e) r).2 ∙ sym (append-nil r.0.pointers)
sorts_pointers s (keyboard e) (f, c) = sym (append-nil f.pointers)
sorts_pointers s (pointer dx dy) (f, c) = refl
sorts_pointers s (button b pressed) (f, c) = sym (append-nil f.pointers)
sorts_pointers s (scroll dx dy) (f, c) = sym (append-nil f.pointers)

sorts_buttons :
    (s : Space) (e : EisInputEvent) (r : Sorted)
    → (sort_event s e r).0.buttons ≡ r.0.buttons ++ buttons_of e
unfolding sort_event
sorts_buttons s (touch e) r = (add_touch-parts (to_device s e) r).3 ∙ sym (append-nil r.0.buttons)
sorts_buttons s (keyboard e) (f, c) = sym (append-nil f.buttons)
sorts_buttons s (pointer dx dy) (f, c) = sym (append-nil f.buttons)
sorts_buttons s (button b pressed) (f, c) = refl
sorts_buttons s (scroll dx dy) (f, c) = sym (append-nil f.buttons)

sorts_scrolls :
    (s : Space) (e : EisInputEvent) (r : Sorted)
    → (sort_event s e r).0.scrolls ≡ r.0.scrolls ++ scrolls_of e
unfolding sort_event
sorts_scrolls s (touch e) r = (add_touch-parts (to_device s e) r).4 ∙ sym (append-nil r.0.scrolls)
sorts_scrolls s (keyboard e) (f, c) = sym (append-nil f.scrolls)
sorts_scrolls s (pointer dx dy) (f, c) = sym (append-nil f.scrolls)
sorts_scrolls s (button b pressed) (f, c) = sym (append-nil f.scrolls)
sorts_scrolls s (scroll dx dy) (f, c) = refl

-- Whatever arms the thread takes: of each kind, the frames that it has sent, followed by what waits
-- in the channel, carry the events that arrived before the thread ended, each once and in order;
-- only a touch is mapped to the device, or left out where its slot is out of the session's range.
pub frames-arrivals :
    (s : Space) (arms : List EisArm)
    → let t = eis_main s arms new_thread in
      let all = arrivals s arms new_thread in
      (flat (λ f. f.touches) t.frames ++ flat (touches_of s) t.queue ≡ flat (touches_of s) all)
      × (flat (λ f. f.keys) t.frames ++ flat keys_of t.queue ≡ flat keys_of all)
      × (flat (λ f. f.pointers) t.frames ++ flat pointers_of t.queue ≡ flat pointers_of all)
      × (flat (λ f. f.buttons) t.frames ++ flat buttons_of t.queue ≡ flat buttons_of all)
      × (flat (λ f. f.scrolls) t.frames ++ flat scrolls_of t.queue ≡ flat scrolls_of all)
frames-arrivals s arms = (
  eis_main-content s (λ f. f.touches) (touches_of s) refl (sorts_touches s) arms new_thread,
  eis_main-content s (λ f. f.keys) keys_of refl (sorts_keys s) arms new_thread,
  eis_main-content s (λ f. f.pointers) pointers_of refl (sorts_pointers s) arms new_thread,
  eis_main-content s (λ f. f.buttons) buttons_of refl (sorts_buttons s) arms new_thread,
  eis_main-content s (λ f. f.scrolls) scrolls_of refl (sorts_scrolls s) arms new_thread,
)
