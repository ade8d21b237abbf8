-- ===== src/Server/Eis/Touches.antt =====
-- The fingers of a session, over the whole input task of server/src/pipewire/eis.rs: through the
-- buffer, the drain and the channel.
use webshooter.Base.{
  subst, ℕ, ◌≡◌, refl, ap, ◌∙◌, Bool, true, List, [], ◌∷◌, ◌++◌, map, Option, none, some, All,
  if_intro,
}
use webshooter.Shared.ClientDatagram.{ClientDatagram, is_input_datagram}
use webshooter.Server.Touch.{EisTouchEvent, handle_touch, handle_release, up, release_all}
use webshooter.Server.Touch.Protocol.{
  TouchInput, touches, releases, handle, receive, NoDup, receive-append, receive-handle,
  handle-NoDup, receive-ups, emitted,
}
use webshooter.Server.Keyboard.{
  EisKeyboardEvent, handle_event, release_all as release_all_modifiers,
}
use webshooter.Server.Pointer.{handle_move, update_compositor_pos, web_button_to_linux}
use webshooter.Server.Gamepad.{GamepadManager, update, remove}
use webshooter.Server.Eis.Task.{
  EisInputEvent, touch, keyboard, pointer, button, scroll, Devices, Sent, Arm, cancelled, ticked,
  received, lagged, closed, aborted, cursor, timeout_fired, Task, Turn, dispatch_input, turn,
  input_task, keep, with_pads, drained_turn, dispatch_all, new_task, touch_if,
}
use webshooter.Server.Eis.Runs.{Follows, FollowsTurn, dispatch_all-Follows, input_task-Follows}
use webshooter.Server.InputCoalesce.{Pending, push}
use webshooter.Server.InputCoalesce.Budget.{drain_budgeted}

-- The touch events on the channel.
abbrev pub touch_events : List EisInputEvent → List EisTouchEvent
touch_events [] = []
touch_events (touch e ∷ es) = e ∷ touch_events es
touch_events (keyboard e ∷ es) = touch_events es
touch_events (pointer dx dy ∷ es) = touch_events es
touch_events (button b pressed ∷ es) = touch_events es
touch_events (scroll dx dy ∷ es) = touch_events es

touch_events-append :
    (a b : List EisInputEvent) → touch_events (a ++ b) ≡ touch_events a ++ touch_events b
touch_events-append [] b = refl
touch_events-append (touch e ∷ a) b = ap (λ l. e ∷ l) (touch_events-append a b)
touch_events-append (keyboard e ∷ a) b = touch_events-append a b
touch_events-append (pointer dx dy ∷ a) b = touch_events-append a b
touch_events-append (button n pressed ∷ a) b = touch_events-append a b
touch_events-append (scroll dx dy ∷ a) b = touch_events-append a b

touch_events-touches : (es : List EisTouchEvent) → touch_events (map (λ e. touch e) es) ≡ es
touch_events-touches [] = refl
touch_events-touches (e ∷ es) = ap (λ l. e ∷ l) (touch_events-touches es)

-- The receiver of a session's touches takes the events, and then has down what the task has down.
abbrev Tracks : Devices → List EisInputEvent → Devices → Type 0
Tracks d events d' =
    NoDup d.touches
    → NoDup d'.touches × (receive (touch_events events) (some d.touches) ≡ some d'.touches)

Tracks-composes :
    (c d e : Devices) (a b : List EisInputEvent) → Tracks c a d → Tracks d b e → Tracks c (a ++ b) e
Tracks-composes c d e a b h k n =
    let first = h n in
    let next = k first.0 in
    (
      next.0,
      ap (λ l. receive l (some c.touches)) (touch_events-append a b)
          ∙ receive-append (touch_events a) (touch_events b) (some c.touches)
          ∙ ap (receive (touch_events b)) first.1
          ∙ next.1,
    )

-- A step that leaves the fingers alone.
unmoved :
    (d d' : Devices) (events : List EisInputEvent)
    → d'.touches ≡ d.touches
    → touch_events events ≡ []
    → Tracks d events d'
unmoved d d' events same none_sent n = (rw same n, rw (none_sent, same) refl)

touched :
    (m : TouchInput) (d d' : Devices) (events : List EisInputEvent)
    → d'.touches ≡ (handle m d.touches).0
    → touch_events events ≡ (handle m d.touches).1
    → Tracks d events d'
touched m d d' events state sent n =
    (rw state (handle-NoDup m d.touches n), rw (sent, state) (receive-handle m d.touches))

with_pads-Tracks :
    (pads : Option GamepadManager) (d : Devices) → Follows Tracks d (with_pads pads d)
unfolding with_pads
with_pads-Tracks none d = tt
with_pads-Tracks (some pads) d = unmoved d (record d { pads = pads }) [] refl refl

touch_events-keys : (es : List EisKeyboardEvent) → touch_events (map (λ e. keyboard e) es) ≡ []
touch_events-keys [] = refl
touch_events-keys (e ∷ es) = touch_events-keys es

touch_events-touch_if : (o : Option EisTouchEvent) → touch_events (touch_if o) ≡ emitted o
touch_events-touch_if none = refl
touch_events-touch_if (some e) = refl

dispatch-Tracks :
    (creates : ℕ → Bool) (msg : ClientDatagram) (d : Devices)
    → Follows Tracks d (dispatch_input creates msg d)
unfolding dispatch_input
dispatch-Tracks creates (ClientDatagram.touchscreen i x y) d =
    touched (touches i x y) d (record d { touches = (handle_touch i x y d.touches).0 })
      (map (λ e. touch e) (handle_touch i x y d.touches).1) refl
      (touch_events-touches (handle_touch i x y d.touches).1)
dispatch-Tracks creates (ClientDatagram.touchscreen_release i) d =
    touched (releases i) d (record d { touches = (handle_release i d.touches).0 })
      (touch_if (handle_release i d.touches).1) refl
      (touch_events-touch_if (handle_release i d.touches).1)
dispatch-Tracks creates (ClientDatagram.keyboard code mods) d =
    let r = handle_event code mods d.keys in
    unmoved d (record d { keys = r.0 }) (map (λ e. keyboard e) r.1) refl (touch_events-keys r.1)
dispatch-Tracks creates (ClientDatagram.mouse_move dx dy) d =
    let r = handle_move dx dy d.mouse in
    unmoved d (record d { mouse = r.0 }) (pointer r.1.0 r.1.1 ∷ []) refl refl
dispatch-Tracks creates (ClientDatagram.gamepad s) d = with_pads-Tracks (update creates s d.pads) d
dispatch-Tracks creates (ClientDatagram.gamepad_disconnect id) d =
    unmoved d (record d { pads = remove id d.pads }) [] refl refl
dispatch-Tracks creates (ClientDatagram.mouse_button b pressed) d =
    unmoved d d (button (web_button_to_linux b) pressed ∷ []) refl refl
dispatch-Tracks creates (ClientDatagram.scroll dx dy) d = unmoved d d (scroll dx dy ∷ []) refl refl
dispatch-Tracks creates _ d = unmoved d d [] refl refl

-- Every `try_send` of a cancellation finds room.
abbrev pub HasRoom : Arm → Type 0
HasRoom (cancelled room) = (e : EisTouchEvent) → room e ≡ true
HasRoom _ = Unit {0}

keep-all :
    (room : EisTouchEvent → Bool) (es : List EisTouchEvent)
    → ((e : EisTouchEvent) → room e ≡ true)
    → touch_events (keep room es) ≡ es
keep-all room [] h = refl
keep-all room (e ∷ es) h = rw (h e) (ap (λ l. e ∷ l) (keep-all room es h))

drained-Tracks :
    (left : Pending) (d : Devices) (o : Option Sent)
    → Follows Tracks d o
    → FollowsTurn Tracks d (drained_turn left o)
unfolding drained_turn
drained-Tracks left d none h = tt
drained-Tracks left d (some (d', events)) h = h

stays : (d : Devices) → Tracks d [] d
stays d = unmoved d d [] refl refl

turn-Tracks :
    (creates : ℕ → Bool) (arm : Arm) (t : Task)
    → HasRoom arm
    → FollowsTurn Tracks t.devices (turn creates arm t)
unfolding turn release_all
turn-Tracks creates (cancelled room) t h = λ n. (
  tt,
  ap (λ l. receive l (some t.devices.touches)) (keep-all room (map (λ i. up i) t.devices.touches) h)
      ∙ receive-ups t.devices.touches n,
)
turn-Tracks creates (ticked now budget) t h =
    let d = drain_budgeted now budget t.coalesce in
    drained-Tracks d.1 t.devices (dispatch_all creates d.2 t.devices) (
      dispatch_all-Follows Tracks Tracks-composes creates stays (dispatch-Tracks creates) d.2
        t.devices)
turn-Tracks creates (received msg) t h =
    if_intro (λ (u : Task). Tracks t.devices [] u.devices) (is_input_datagram msg)
      (record t { coalesce = push msg t.coalesce }) t (λ _. stays t.devices) (λ _. stays t.devices)
turn-Tracks creates lagged t h = stays t.devices
turn-Tracks creates closed t h = stays t.devices
turn-Tracks creates aborted t h = stays t.devices
turn-Tracks creates (cursor none) t h = stays t.devices
turn-Tracks creates (cursor (some (x, y))) t h =
    unmoved t.devices (record t.devices { mouse = (update_compositor_pos x y t.devices.mouse).0 })
      [] refl refl
turn-Tracks creates timeout_fired t h =
    let r = release_all_modifiers t.devices.keys in
    unmoved t.devices (record t.devices { keys = r.0 }) (map (λ e. keyboard e) r.1) refl
      (touch_events-keys r.1)

-- Whatever arms the loop takes, where `try_send` finds room and no gamepad panics: the receiver
-- takes every touch event that was sent, in order, and has down exactly the fingers that the task
-- has down.
pub input_task-touches :
    (creates : ℕ → Bool) (arms : List Arm) (r : Turn)
    → All HasRoom arms
    → input_task creates arms new_task ≡ some r
    → receive (touch_events r.sent) (some []) ≡ some r.task.devices.touches
input_task-touches creates arms r room run =
    (subst (FollowsTurn Tracks new_task.devices) run
      (input_task-Follows Tracks Tracks-composes creates HasRoom stays (turn-Tracks creates) arms
        new_task room)
      tt).1

-- The arm does not end the loop without a release.
abbrev pub IsOpen : Arm → Type 0
IsOpen closed = ⊥
IsOpen aborted = ⊥
IsOpen _ = Unit {0}

abbrev EndsLifted : Option Turn → Type 0
EndsLifted none = Unit {0}
EndsLifted (some r) = r.ended ≡ true → r.task.devices.touches ≡ []
