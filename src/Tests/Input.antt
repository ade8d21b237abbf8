-- ===== src/Tests/Input.antt =====
-- A session's input at concrete inputs: server/src/pipewire/eis.rs, gamepad.rs, video.rs, bitrate.rs.
use webshooter.Base.{
  ℕ, ◌^◌, ◌≡◌, refl, Bool, true, false, List, [], ◌∷◌, ◌++◌, Option, none, some, codes,
}
use webshooter.Base.Int.{pos}
use webshooter.Shared.ClientDatagram.{touchscreen, keyboard, Modifiers, is_input_datagram}
use webshooter.Server.InputCoalesce.{push}
use webshooter.Server.InputCoalesce.Budget.{full_at, drain_budgeted}
use webshooter.Server.Touch.Protocol.{receive}
use webshooter.Server.Keyboard.Modifiers.{Shows, after}
use webshooter.Server.Eis.Task.{
  Arm, cancelled, ticked, received, closed, aborted, Turn, quiet, new_task, turn, input_task,
  dispatch_all, dispatch_input, touch, keyboard as key_event,
}
use webshooter.Server.Eis.Touches.{touch_events}
use webshooter.Server.Eis.Keys.{key_events, input_task-keys}
use webshooter.Server.Eis.Frame.{
  Space, EisArm, space_of, new_thread, eis_main, arrives, reads, event, paused, removed, resumed,
}
use webshooter.Server.Touch.{down, motion, up, handle_touch, release_all}
use webshooter.Server.Keyboard.{press_key}
use webshooter.Server.Eis.Order.{
  flat, arrivals, touches_of, keys_of, pointers_of, buttons_of, scrolls_of, frames-arrivals,
}
use webshooter.Server.Eis.Device.{slots_of, session_touches}

abbrev can_create : ℕ → Bool
can_create id = true

-- A finger goes down, moves and is still down when the session is cancelled.
abbrev finger_arms : List Arm
finger_arms =
    received (touchscreen 1 10 20)
    ∷ ticked 0 (full_at 0)
    ∷ received (touchscreen 1 12 20)
    ∷ ticked (10 ^ 9) (full_at 0)
    ∷ cancelled (λ e. true)
    ∷ []

abbrev or_quiet : Option Turn → Turn
or_quiet none = quiet new_task
or_quiet (some r) = r

abbrev run_of : List Arm → Turn
run_of arms = or_quiet (input_task can_create arms new_task)

-- A shortcut: Ctrl is down for the key and released by the timeout.
abbrev ctrl : Modifiers
ctrl = record { shift = false; ctrl = true; alt = false; meta = false }

abbrev shortcut : List Arm
shortcut = received (keyboard (codes "KeyC") ctrl) ∷ ticked 0 (full_at 0) ∷ []

input_task-keys_example :
    Shows
      (run_of shortcut).task.devices.keys
      (after (λ k. false) (key_events (run_of shortcut).sent))
unfolding input_task turn drain_budgeted dispatch_all dispatch_input is_input_datagram push
input_task-keys_example = input_task-keys can_create shortcut (run_of shortcut) refl

-- A bus that is closed with a finger down: nothing lifts it.
finger_stays :
    touch_events (run_of (received (touchscreen 1 10 20) ∷ ticked 0 (full_at 0) ∷ closed ∷ [])).sent
    ≡ down 10 20 1 ∷ []
unfolding input_task turn drain_budgeted dispatch_all dispatch_input is_input_datagram push
    handle_touch
finger_stays = refl

-- A task that is aborted before it takes its cancellation lifts nothing either, and neither does one
-- whose channel is full.
abort_stays :
    touch_events
      (run_of (
        received (touchscreen 1 10 20)
        ∷ ticked 0 (full_at 0)
        ∷ aborted
        ∷ cancelled (λ e. true)
        ∷ [])).sent
    ≡ down 10 20 1 ∷ []
unfolding input_task turn drain_budgeted dispatch_all dispatch_input is_input_datagram push
    handle_touch
abort_stays = refl

full_stays :
    touch_events
      (run_of
        (received (touchscreen 1 10 20) ∷ ticked 0 (full_at 0) ∷ cancelled (λ e. false) ∷ [])).sent
    ≡ down 10 20 1 ∷ []
unfolding input_task turn drain_budgeted dispatch_all dispatch_input is_input_datagram push
    handle_touch release_all
full_stays = refl

abbrev plain_space : Space
plain_space = space_of 2 [] (1080, 720) (pos 0, pos 0)

abbrev eis_arms : List EisArm
eis_arms =
    arrives (touch (down 10 20 1))
    ∷ arrives (key_event (press_key 30))
    ∷ reads
    ∷ arrives (touch (motion 12 20 1))
    ∷ arrives (touch (up 1))
    ∷ reads
    ∷ []

frames-arrivals_example :
    let t = eis_main plain_space eis_arms new_thread in
    let all = arrivals plain_space eis_arms new_thread in
    (flat (λ f. f.touches) t.frames ++ flat (touches_of plain_space) t.queue
      ≡ flat (touches_of plain_space) all)
    × (flat (λ f. f.keys) t.frames ++ flat keys_of t.queue ≡ flat keys_of all)
    × (flat (λ f. f.pointers) t.frames ++ flat pointers_of t.queue ≡ flat pointers_of all)
    × (flat (λ f. f.buttons) t.frames ++ flat buttons_of t.queue ≡ flat buttons_of all)
    × (flat (λ f. f.scrolls) t.frames ++ flat scrolls_of t.queue ≡ flat scrolls_of all)
frames-arrivals_example = frames-arrivals plain_space eis_arms

-- The finger of above on its way through the thread of the second session.
abbrev finger_eis : List EisArm
finger_eis =
    arrives (touch (down 10 20 1))
    ∷ reads
    ∷ arrives (touch (motion 12 20 1))
    ∷ arrives (touch (up 1))
    ∷ reads
    ∷ []

session_touches_example :
    receive (flat (λ f. f.touches) (eis_main plain_space finger_eis new_thread).frames) (some [])
    ≡ some (slots_of plain_space.base (run_of finger_arms).task.devices.touches)
unfolding input_task turn drain_budgeted dispatch_all dispatch_input is_input_datagram push
    handle_touch release_all eis_main
session_touches_example =
    session_touches can_create finger_arms (run_of finger_arms) plain_space finger_eis
      (tt, (tt, (tt, (tt, (λ e. refl, tt))))) refl refl refl

-- A device that is removed while the thread waits for one to resume: no new pipeline is asked for.
removed_unseen :
    (eis_main plain_space (event paused ∷ event removed ∷ event resumed ∷ []) new_thread).restart
    ≡ false
unfolding eis_main
removed_unseen = refl
