-- ===== src/Server/Eis/Device.antt =====
-- The touches of a session from the bus to the compositor: the input task and the EIS thread of
-- server/src/pipewire/eis.rs together.
use webshooter.Base.{
  ℕ, ◌+◌, ◌%◌, ◌^◌, ◌≡◌, ◌<◌, ◌≤◌, refl, sym, ap, ◌∙◌, arith, Bool, List, [], ◌∷◌, ◌++◌, Option,
  none, some, ltb, if◌then◌else◌, All, append-nil,
}
use webshooter.Server.Touch.{
  EisTouchEvent, down, motion, up, TouchState, holds, without, slots_per_session, shift_slots,
  map_touch_event, offset_touch_event,
}
use webshooter.Server.Touch.Protocol.{emitted, receive, receive_one, receive-append}
use webshooter.Server.Eis.Task.{
  EisInputEvent, touch, keyboard, pointer, button, scroll, Arm, Turn, input_task, new_task,
}
use webshooter.Server.Eis.Touches.{touch_events, HasRoom, input_task-touches}
use webshooter.Server.Eis.Frame.{Space, EisArm, new_thread, to_device, eis_main}
use webshooter.Server.Eis.Order.{flat, arrivals, touches_of, frames-arrivals}

-- The slots of the compositor for the fingers of a session; it has none for a slot out of range.
abbrev pub slots_of : ℕ → TouchState → TouchState
slots_of base [] = []
slots_of base (i ∷ s) =
    if ltb i slots_per_session then ((base + i) % 2 ^ 32) ∷ slots_of base s else slots_of base s

holds-slots_of :
    (base i : ℕ) (s : TouchState)
    → i < 64
    → holds ((base + i) % 2 ^ 32) (slots_of base s) ≡ holds i s
holds-slots_of base i [] h = refl
holds-slots_of base i (j ∷ s) h = ground (arith, holds-slots_of base i s)

without-slots_of :
    (base i : ℕ) (s : TouchState)
    → i < 64
    → without ((base + i) % 2 ^ 32) (slots_of base s) ≡ slots_of base (without i s)
unfolding without
without-slots_of base i [] h = refl
without-slots_of base i (j ∷ s) h = ground (arith, without-slots_of base i s)

slots_of-without :
    (base i : ℕ) (s : TouchState) → 64 ≤ i → slots_of base (without i s) ≡ slots_of base s
unfolding without
slots_of-without base i [] h = refl
slots_of-without base i (j ∷ s) h = ground (arith, slots_of-without base i s)

receive-device_one :
    (p : Space) (e : EisTouchEvent) (s s' : TouchState)
    → receive_one e s ≡ some s'
    → receive (emitted (to_device p e)) (some (slots_of p.base s)) ≡ some (slots_of p.base s')
unfolding to_device map_touch_event offset_touch_event shift_slots
receive-device_one p (down x y i) s s' h = ground (arith, holds-slots_of p.base i s)
receive-device_one p (motion x y i) s s' h = ground (arith, holds-slots_of p.base i s)
receive-device_one p (up i) s s' h =
    ground
      (arith, holds-slots_of p.base i s, without-slots_of p.base i s, slots_of-without p.base i s)

receive-none : (es : List EisTouchEvent) → receive es none ≡ none
receive-none [] = refl
receive-none (e ∷ es) = receive-none es

receive-device :
    (p : Space) (es : List EisTouchEvent) (s s' : TouchState)
    → receive es (some s) ≡ some s'
    → receive (flat (λ e. emitted (to_device p e)) es) (some (slots_of p.base s))
      ≡ some (slots_of p.base s')
receive-device p [] s s' h = cc
receive-device p (e ∷ es) s s' h = step (λ u. receive-device p es u s') (receive_one e s) refl h
  where
    step :
        ((u : TouchState)
          → receive es (some u) ≡ some s'
          → receive (flat (λ e. emitted (to_device p e)) es) (some (slots_of p.base u))
            ≡ some (slots_of p.base s'))
        → (o : Option TouchState) → receive_one e s ≡ o
        → receive es o ≡ some s'
        → receive
            (emitted (to_device p e) ++ flat (λ e. emitted (to_device p e)) es)
            (some (slots_of p.base s))
          ≡ some (slots_of p.base s')
    step ih none one rest = cc (receive-none es)
    step ih (some u) one rest =
        receive-append (emitted (to_device p e)) (flat (λ e. emitted (to_device p e)) es)
          (some (slots_of p.base s))
        ∙ ap (receive (flat (λ e. emitted (to_device p e)) es)) (receive-device_one p e s u one)
        ∙ ih u rest

touches-flat :
    (p : Space) (es : List EisInputEvent)
    → flat (touches_of p) es ≡ flat (λ e. emitted (to_device p e)) (touch_events es)
touches-flat p [] = refl
touches-flat p (touch e ∷ es) = ap (λ l. emitted (to_device p e) ++ l) (touches-flat p es)
touches-flat p (keyboard e ∷ es) = touches-flat p es
touches-flat p (pointer dx dy ∷ es) = touches-flat p es
touches-flat p (button b pressed ∷ es) = touches-flat p es
touches-flat p (scroll dx dy ∷ es) = touches-flat p es

-- Where every event of the input task reaches the EIS thread and the thread has read them all,
-- `try_send` finds room and no gamepad panics: the compositor takes every touch event of the
-- frames, in order, and has down exactly the session's own slots of the fingers that the input
-- task has down.
pub session_touches :
    (creates : ℕ → Bool) (arms : List Arm) (r : Turn) (p : Space) (eis_arms : List EisArm)
    → All HasRoom arms
    → input_task creates arms new_task ≡ some r
    → arrivals p eis_arms new_thread ≡ r.sent
    → (eis_main p eis_arms new_thread).queue ≡ []
    → receive (flat (λ f. f.touches) (eis_main p eis_arms new_thread).frames) (some [])
      ≡ some (slots_of p.base r.task.devices.touches)
session_touches creates arms r p eis_arms room run arrived read =
    ap (λ l. receive l (some [])) same
    ∙ receive-device p (touch_events r.sent) [] r.task.devices.touches
        (input_task-touches creates arms r room run)
  where
    same :
        flat (λ f. f.touches) (eis_main p eis_arms new_thread).frames
        ≡ flat (λ e. emitted (to_device p e)) (touch_events r.sent)
    same =
        sym (append-nil (flat (λ f. f.touches) (eis_main p eis_arms new_thread).frames))
        ∙ ap
            (λ l.
              flat (λ f. f.touches) (eis_main p eis_arms new_thread).frames
              ++ flat (touches_of p) l)
            (sym read)
        ∙ (frames-arrivals p eis_arms).0
        ∙ ap (flat (touches_of p)) arrived
        ∙ touches-flat p r.sent
