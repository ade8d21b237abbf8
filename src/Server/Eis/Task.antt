-- ===== src/Server/Eis/Task.antt =====
-- `dispatch_input` and `input_task` of server/src/pipewire/eis.rs.
use webshooter.Base.{
  ℕ, Bool, true, false, ◌||◌, List, [], ◌∷◌, ◌++◌, map, Option, none, some, if◌then◌else◌,
}
use webshooter.Base.Int.{ℤ}
use webshooter.Shared.ClientDatagram.{ClientDatagram, is_input_datagram}
use webshooter.Server.Touch.{
  EisTouchEvent, TouchState, handle_touch, handle_release, release_all as release_all_touches,
}
use webshooter.Server.Keyboard.{
  Flags, no_flags, EisKeyboardEvent, handle_event, release_all as release_all_modifiers,
}
use webshooter.Server.Pointer.{
  MouseState, new_mouse, handle_move, update_compositor_pos, web_button_to_linux,
}
use webshooter.Server.Gamepad.{GamepadManager, update, remove}
use webshooter.Server.InputCoalesce.{Pending, push}
use webshooter.Server.InputCoalesce.Budget.{Budget, drain_budgeted}

pub data EisInputEvent : Type 0 where
  touch : EisTouchEvent → EisInputEvent
  keyboard : EisKeyboardEvent → EisInputEvent
  pointer : ℤ → ℤ → EisInputEvent
  button : ℕ → Bool → EisInputEvent
  scroll : ℤ → ℤ → EisInputEvent

-- The state that spans datagrams.
pub record Devices : Type 0 where
  pub touches : TouchState
  pub keys : Flags
  pub mouse : MouseState
  pub pads : GamepadManager

abbrev pub new_devices : Devices
new_devices = record { touches = []; keys = no_flags; mouse = new_mouse; pads = [] }

-- The new state with the events that are sent, in order. A `send` waits for room in the channel.
abbrev pub Sent : Type 0
Sent = Devices × List EisInputEvent

abbrev pub touch_if : Option EisTouchEvent → List EisInputEvent
touch_if none = []
touch_if (some e) = touch e ∷ []

unfoldable pub with_pads : Option GamepadManager → Devices → Option Sent
with_pads none d = none
with_pads (some pads) d = some (record d { pads = pads }, [])

-- `none` is a panic where a virtual gamepad cannot be created.
unfoldable pub dispatch_input : (ℕ → Bool) → ClientDatagram → Devices → Option Sent
unfolding with_pads
dispatch_input creates (ClientDatagram.touchscreen index x y) d =
    let r = handle_touch index x y d.touches in
    some (record d { touches = r.0 }, map (λ e. touch e) r.1)
dispatch_input creates (ClientDatagram.touchscreen_release index) d =
    let r = handle_release index d.touches in some (record d { touches = r.0 }, touch_if r.1)
dispatch_input creates (ClientDatagram.keyboard keycode modifiers) d =
    let r = handle_event keycode modifiers d.keys in
    some (record d { keys = r.0 }, map (λ e. keyboard e) r.1)
dispatch_input creates (ClientDatagram.mouse_move dx dy) d =
    let r = handle_move dx dy d.mouse in some (record d { mouse = r.0 }, pointer r.1.0 r.1.1 ∷ [])
dispatch_input creates (ClientDatagram.mouse_button b pressed) d =
    some (d, button (web_button_to_linux b) pressed ∷ [])
dispatch_input creates (ClientDatagram.scroll dx dy) d = some (d, scroll dx dy ∷ [])
dispatch_input creates (ClientDatagram.gamepad s) d = with_pads (update creates s d.pads) d
dispatch_input creates (ClientDatagram.gamepad_disconnect id) d =
    some (record d { pads = remove id d.pads }, [])
dispatch_input creates _ d = some (d, [])

abbrev pub then_sent : List EisInputEvent → Option Sent → Option Sent
then_sent before none = none
then_sent before (some (d, events)) = some (d, before ++ events)

-- The rest of a loop behind a step that sent something.
abbrev pub and_then : Option Sent → (Devices → Option Sent) → Option Sent
and_then none rest = none
and_then (some (d, events)) rest = then_sent events (rest d)

-- The loop over the datagrams of one drain.
unfoldable pub dispatch_all : (ℕ → Bool) → List ClientDatagram → Devices → Option Sent
dispatch_all creates [] d = some (d, [])
dispatch_all creates (msg ∷ msgs) d =
    and_then (dispatch_input creates msg d) (dispatch_all creates msgs)

-- The arms of the `select!`. A cancellation says for which events `try_send` finds room; a tick
-- has the time and the budget as it finds it; the cursor's channel gives `none` once it is closed.
-- `aborted` is the abort of `EisTasks::stop`, where it finds the task between two turns.
pub data Arm : Type 0 where
  cancelled : (EisTouchEvent → Bool) → Arm
  ticked : ℕ → Budget → Arm
  received : ClientDatagram → Arm
  lagged : Arm
  closed : Arm
  aborted : Arm
  cursor : Option (ℤ × ℤ) → Arm
  timeout_fired : Arm

pub record Task : Type 0 where
  pub coalesce : Pending
  pub devices : Devices

abbrev pub new_task : Task
new_task = record { coalesce = []; devices = new_devices }

-- One turn of the loop: the new state, the events, whether the page is told to release the mouse,
-- and whether the loop ends.
pub record Turn : Type 0 where
  pub task : Task
  pub sent : List EisInputEvent
  pub release_mouse : Bool
  pub ended : Bool

abbrev pub quiet : Task → Turn
quiet t = record { task = t; sent = []; release_mouse = false; ended = false }

abbrev pub keep : (EisTouchEvent → Bool) → List EisTouchEvent → List EisInputEvent
keep room [] = []
keep room (e ∷ es) = if room e then touch e ∷ keep room es else keep room es

unfoldable pub drained_turn : Pending → Option Sent → Option Turn
drained_turn left none = none
drained_turn left (some (d, events)) = some (record {
  task = record { coalesce = left; devices = d };
  sent = events;
  release_mouse = false;
  ended = false;
})

unfoldable pub turn : (ℕ → Bool) → Arm → Task → Option Turn
unfolding drained_turn
turn creates (cancelled room) t =
    let r = release_all_touches t.devices.touches in
    some (record {
      task = record t { devices = record t.devices { touches = r.0 } };
      sent = keep room r.1;
      release_mouse = false;
      ended = true;
    })
turn creates (ticked now budget) t =
    let d = drain_budgeted now budget t.coalesce in
    drained_turn d.1 (dispatch_all creates d.2 t.devices)
turn creates (received msg) t =
    some (quiet (if is_input_datagram msg then record t { coalesce = push msg t.coalesce } else t))
turn creates lagged t = some (quiet t)
turn creates closed t = some (record (quiet t) { ended = true })
turn creates aborted t = some (record (quiet t) { ended = true })
turn creates (cursor none) t = some (quiet t)
turn creates (cursor (some (x, y))) t =
    let r = update_compositor_pos x y t.devices.mouse in
    some (record (quiet (record t { devices = record t.devices { mouse = r.0 } })) {
      release_mouse = r.1;
    })
turn creates timeout_fired t =
    let r = release_all_modifiers t.devices.keys in
    some (record (quiet (record t { devices = record t.devices { keys = r.0 } })) {
      sent = map (λ e. keyboard e) r.1;
    })

abbrev pub before_turn : Turn → Option Turn → Option Turn
before_turn first none = none
before_turn first (some rest) = some (record rest {
  sent = first.sent ++ rest.sent;
  release_mouse = first.release_mouse || rest.release_mouse;
})

abbrev pub go_on : Bool → Turn → (Task → Option Turn) → Option Turn
go_on true r rest = some r
go_on false r rest = before_turn r (rest r.task)

abbrev pub next_turn : Option Turn → (Task → Option Turn) → Option Turn
next_turn none rest = none
next_turn (some r) rest = go_on r.ended r rest

-- The loop, as one turn: all its events, and whether it has ended by itself.
unfoldable pub input_task : (ℕ → Bool) → List Arm → Task → Option Turn
input_task creates [] t = some (quiet t)
input_task creates (arm ∷ arms) t = next_turn (turn creates arm t) (input_task creates arms)
