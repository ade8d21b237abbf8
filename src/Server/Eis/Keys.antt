-- ===== src/Server/Eis/Keys.antt =====
-- The modifier keys of a session, over the whole input task of server/src/pipewire/eis.rs.
use webshooter.Base.{
  ℕ, ◌≡◌, refl, sym, ap, ◌∙◌, subst, Bool, false, List, [], ◌∷◌, ◌++◌, map, Option, none, some, All,
  if_intro,
}
use mathlib.Core.Path.{fun_ext}
use webshooter.Shared.ClientDatagram.{ClientDatagram, is_input_datagram}
use webshooter.Server.Touch.{
  EisTouchEvent, handle_touch, handle_release, release_all as release_all_touches,
}
use webshooter.Server.Keyboard.{
  EisKeyboardEvent, no_flags, handle_event, release_all as release_all_modifiers,
}
use webshooter.Server.Keyboard.Modifiers.{key_after, after, Shows, sync-Shows}
use webshooter.Server.Keyboard.Taps.{handle_event-Shows, key_after-append}
use webshooter.Server.Pointer.{handle_move, update_compositor_pos, web_button_to_linux}
use webshooter.Server.Gamepad.{GamepadManager, update, remove}
use webshooter.Server.Eis.Task.{
  EisInputEvent, touch, keyboard, pointer, button, scroll, Devices, Sent, Arm, cancelled, ticked,
  received, lagged, closed, aborted, cursor, timeout_fired, Task, Turn, dispatch_input, turn,
  input_task, keep, with_pads, drained_turn, dispatch_all, new_task, touch_if,
}
use webshooter.Server.Eis.Runs.{Follows, FollowsTurn, dispatch_all-Follows, input_task-Follows}
use webshooter.Server.InputCoalesce.{Pending, push}
use webshooter.Server.InputCoalesce.Budget.{drain_budgeted}

-- The key events on the channel.
abbrev pub key_events : List EisInputEvent → List EisKeyboardEvent
key_events [] = []
key_events (touch e ∷ es) = key_events es
key_events (keyboard e ∷ es) = e ∷ key_events es
key_events (pointer dx dy ∷ es) = key_events es
key_events (button b pressed ∷ es) = key_events es
key_events (scroll dx dy ∷ es) = key_events es

key_events-append : (a b : List EisInputEvent) → key_events (a ++ b) ≡ key_events a ++ key_events b
key_events-append [] b = refl
key_events-append (touch e ∷ a) b = key_events-append a b
key_events-append (keyboard e ∷ a) b = ap (λ l. e ∷ l) (key_events-append a b)
key_events-append (pointer dx dy ∷ a) b = key_events-append a b
key_events-append (button n pressed ∷ a) b = key_events-append a b
key_events-append (scroll dx dy ∷ a) b = key_events-append a b

key_events-keys : (es : List EisKeyboardEvent) → key_events (map (λ e. keyboard e) es) ≡ es
key_events-keys [] = refl
key_events-keys (e ∷ es) = ap (λ l. e ∷ l) (key_events-keys es)

key_events-touches : (es : List EisTouchEvent) → key_events (map (λ e. touch e) es) ≡ []
key_events-touches [] = refl
key_events-touches (e ∷ es) = key_events-touches es

key_events-touch_if : (o : Option EisTouchEvent) → key_events (touch_if o) ≡ []
key_events-touch_if none = refl
key_events-touch_if (some e) = refl

key_events-keep :
    (room : EisTouchEvent → Bool) (es : List EisTouchEvent) → key_events (keep room es) ≡ []
key_events-keep room [] = refl
key_events-keep room (e ∷ es) =
    if_intro (λ (l : List EisInputEvent). key_events l ≡ []) (room e) (touch e ∷ keep room es)
      (keep room es) (λ _. key_events-keep room es) (λ _. key_events-keep room es)

-- A compositor that holds the modifier keys of the task holds them again after the events.
abbrev Keeps : Devices → List EisInputEvent → Devices → Type 0
Keeps d events d' =
    (held : ℕ → Bool) → Shows d.keys held → Shows d'.keys (after held (key_events events))

Keeps-composes :
    (c d e : Devices) (a b : List EisInputEvent) → Keeps c a d → Keeps d b e → Keeps c (a ++ b) e
Keeps-composes c d e a b h k held shown =
    subst (Shows e.keys) (sym (fun_ext (λ n. after-append n)))
      (k (after held (key_events a)) (h held shown))
  where
    after-append :
        (n : ℕ)
        → after held (key_events (a ++ b)) n ≡ after (after held (key_events a)) (key_events b) n
    after-append n =
        ap (key_after n (held n)) (key_events-append a b)
        ∙ key_after-append n (held n) (key_events a) (key_events b)

unheld :
    (d d' : Devices) (events : List EisInputEvent)
    → d'.keys ≡ d.keys
    → key_events events ≡ []
    → Keeps d events d'
unheld d d' events same none_sent held shown = rw (same, none_sent) shown

stays : (d : Devices) → Keeps d [] d
stays d held shown = shown

with_pads-Keeps : (pads : Option GamepadManager) (d : Devices) → Follows Keeps d (with_pads pads d)
unfolding with_pads
with_pads-Keeps none d = tt
with_pads-Keeps (some pads) d = unheld d (record d { pads = pads }) [] refl refl

dispatch-Keeps :
    (creates : ℕ → Bool) (msg : ClientDatagram) (d : Devices)
    → Follows Keeps d (dispatch_input creates msg d)
unfolding dispatch_input
dispatch-Keeps creates (ClientDatagram.touchscreen i x y) d =
    let r = handle_touch i x y d.touches in
    unheld d (record d { touches = r.0 }) (map (λ e. touch e) r.1) refl (key_events-touches r.1)
dispatch-Keeps creates (ClientDatagram.touchscreen_release i) d =
    let r = handle_release i d.touches in
    unheld d (record d { touches = r.0 }) (touch_if r.1) refl (key_events-touch_if r.1)
dispatch-Keeps creates (ClientDatagram.keyboard code mods) d = λ held shown.
    rw
      (
        key_events-keys (handle_event code mods d.keys).1,
        (handle_event-Shows code mods d.keys held shown).1,
      )
      (handle_event-Shows code mods d.keys held shown).0
dispatch-Keeps creates (ClientDatagram.mouse_move dx dy) d =
    let r = handle_move dx dy d.mouse in
    unheld d (record d { mouse = r.0 }) (pointer r.1.0 r.1.1 ∷ []) refl refl
dispatch-Keeps creates (ClientDatagram.gamepad s) d = with_pads-Keeps (update creates s d.pads) d
dispatch-Keeps creates (ClientDatagram.gamepad_disconnect id) d =
    unheld d (record d { pads = remove id d.pads }) [] refl refl
dispatch-Keeps creates (ClientDatagram.mouse_button b pressed) d =
    unheld d d (button (web_button_to_linux b) pressed ∷ []) refl refl
dispatch-Keeps creates (ClientDatagram.scroll dx dy) d = unheld d d (scroll dx dy ∷ []) refl refl
dispatch-Keeps creates _ d = stays d

drained-Keeps :
    (left : Pending) (d : Devices) (o : Option Sent)
    → Follows Keeps d o
    → FollowsTurn Keeps d (drained_turn left o)
unfolding drained_turn
drained-Keeps left d none h = tt
drained-Keeps left d (some (d', events)) h = h

turn-Keeps :
    (creates : ℕ → Bool) (arm : Arm) (t : Task)
    → Unit {0}
    → FollowsTurn Keeps t.devices (turn creates arm t)
unfolding turn
turn-Keeps creates (cancelled room) t h =
    let r = release_all_touches t.devices.touches in
    unheld t.devices (record t.devices { touches = r.0 }) (keep room r.1) refl
      (key_events-keep room r.1)
turn-Keeps creates (ticked now budget) t h =
    let d = drain_budgeted now budget t.coalesce in
    drained-Keeps d.1 t.devices (dispatch_all creates d.2 t.devices) (
      dispatch_all-Follows Keeps Keeps-composes creates stays (dispatch-Keeps creates) d.2
        t.devices)
turn-Keeps creates (received msg) t h =
    if_intro (λ (u : Task). Keeps t.devices [] u.devices) (is_input_datagram msg)
      (record t { coalesce = push msg t.coalesce }) t (λ _. stays t.devices) (λ _. stays t.devices)
turn-Keeps creates lagged t h = stays t.devices
turn-Keeps creates closed t h = stays t.devices
turn-Keeps creates aborted t h = stays t.devices
turn-Keeps creates (cursor none) t h = stays t.devices
turn-Keeps creates (cursor (some (x, y))) t h =
    unheld t.devices (record t.devices { mouse = (update_compositor_pos x y t.devices.mouse).0 }) []
      refl refl
turn-Keeps creates timeout_fired t h = λ held shown.
    rw (key_events-keys (release_all_modifiers t.devices.keys).1)
      (sync-Shows no_flags t.devices.keys held shown).1

all_fit : (arms : List Arm) → All (λ _. Unit {0}) arms
all_fit [] = tt
all_fit (arm ∷ arms) = (tt, all_fit arms)

-- Whatever arms the loop takes, where no gamepad panics: a compositor that holds no modifier key at
-- first holds, after all the key events that were sent, exactly those that the task takes to be
-- held.
pub input_task-keys :
    (creates : ℕ → Bool) (arms : List Arm) (r : Turn)
    → input_task creates arms new_task ≡ some r
    → Shows r.task.devices.keys (after (λ _. false) (key_events r.sent))
input_task-keys creates arms r run =
    subst (FollowsTurn Keeps new_task.devices) run
      (input_task-Follows Keeps Keeps-composes creates (λ _. Unit {0}) stays (turn-Keeps creates)
        arms new_task (all_fit arms))
      (λ _. false) (record { ctrl = refl; shift = refl; alt = refl; meta = refl })
