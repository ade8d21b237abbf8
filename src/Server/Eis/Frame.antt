-- ===== src/Server/Eis/Frame.antt =====
-- The loop of `eis_main` in server/src/pipewire/eis.rs: the EIS thread, which hands the events of the
-- channel to the compositor, a frame at a time. Its connection to the compositor is the events
-- that it brings, and the `send_` functions are the lists that they are given.
use webshooter.Base.{
  ℕ, zero, suc, ◌+◌, Bool, true, false, List, [], ◌∷◌, ◌++◌, Option, none, some, if◌then◌else◌,
}
use webshooter.Base.Int.{ℤ}
use webshooter.Server.Touch.{
  EisTouchEvent, down, motion, up, CoordMap, new_map, InputRegion, input_space, map_touch_event,
  offset_touch_event, shift_slots, slot_base,
}
use webshooter.Server.Keyboard.{EisKeyboardEvent}
use webshooter.Server.Eis.Task.{EisInputEvent, touch, keyboard, pointer, button, scroll}

abbrev pub max_input_batch : ℕ
max_input_batch = 64

-- Where the touches of a session go.
pub record Space : Type 0 where
  pub base : ℕ
  pub coord_map : CoordMap
  pub stream_pos : ℤ × ℤ

-- Without a region of its own, a session's coordinates are sent unscaled.
map_to : Option InputRegion → ℕ × ℕ → CoordMap
map_to none frame = new_map frame frame
map_to (some region) frame = new_map frame (region.w, region.h)

unfoldable pub space_of : ℕ → List InputRegion → ℕ × ℕ → ℤ × ℤ → Space
unfolding map_to
space_of client_id regions frame stream_pos = record {
  base = slot_base client_id;
  coord_map = map_to (input_space regions frame stream_pos) frame;
  stream_pos = stream_pos;
}

unfoldable pub to_device : Space → EisTouchEvent → Option EisTouchEvent
to_device s e = shift_slots (offset_touch_event (map_touch_event e s.coord_map) s.stream_pos) s.base

unfoldable pub touch_point : EisTouchEvent → Option (ℕ × ℕ)
touch_point (down x y index) = some (x, y)
touch_point (motion x y index) = some (x, y)
touch_point (up index) = none

-- The events of one frame by their kinds, in the order in which the kinds are sent.
pub record Frame : Type 0 where
  pub touches : List EisTouchEvent
  pub keys : List EisKeyboardEvent
  pub pointers : List (ℤ × ℤ)
  pub buttons : List (ℕ × Bool)
  pub scrolls : List (ℤ × ℤ)

abbrev pub no_events : Frame
no_events = record { touches = []; keys = []; pointers = []; buttons = []; scrolls = [] }

-- What the thread counts for its log.
pub record Counts : Type 0 where
  pub touches_seen : ℕ
  pub window_events : ℕ
  pub last_touch : Option (ℕ × ℕ)

abbrev pub no_counts : Counts
no_counts = record { touches_seen = 0; window_events = 0; last_touch = none }

abbrev pub Sorted : Type 0
Sorted = Frame × Counts

unfoldable pub add_touch : Option EisTouchEvent → Sorted → Sorted
unfolding touch_point
add_touch none (f, c) = (f, c)
add_touch (some e) (f, c) = (
  record f { touches = f.touches ++ e ∷ [] },
  record c { touches_seen = c.touches_seen + 1; last_touch = touch_point e },
)

abbrev counted : Counts → Counts
counted c = record c { window_events = c.window_events + 1 }

unfoldable pub sort_event : Space → EisInputEvent → Sorted → Sorted
unfolding add_touch to_device
sort_event s (touch e) r = add_touch (to_device s e) r
sort_event s (keyboard e) (f, c) = (record f { keys = f.keys ++ e ∷ [] }, counted c)
sort_event s (pointer dx dy) (f, c) =
    (record f { pointers = f.pointers ++ (dx, dy) ∷ [] }, counted c)
sort_event s (button b pressed) (f, c) =
    (record f { buttons = f.buttons ++ (b, pressed) ∷ [] }, counted c)
sort_event s (scroll dx dy) (f, c) = (record f { scrolls = f.scrolls ++ (dx, dy) ∷ [] }, counted c)

unfoldable pub sort_batch : Space → List EisInputEvent → Sorted → Sorted
unfolding sort_event
sort_batch s [] r = r
sort_batch s (e ∷ es) r = sort_batch s es (sort_event s e r)

-- The loop of `try_recv`: the batch, and what stays in the channel.
unfoldable pub fill : ℕ → List EisInputEvent → List EisInputEvent × List EisInputEvent
fill zero queue = ([], queue)
fill (suc room) [] = ([], [])
fill (suc room) (e ∷ queue) = let r = fill room queue in (e ∷ r.0, r.1)

-- The events of the connection; `failed` and `finished` are an error and the end of the stream.
pub data EisEvent : Type 0 where
  paused : EisEvent
  resumed : EisEvent
  disconnected : EisEvent
  removed : EisEvent
  other : EisEvent
  failed : EisEvent
  finished : EisEvent

-- The arms of the loop, and what the input task puts into the channel meanwhile; `hung_up` is a read
-- of the channel after the input task has ended.
pub data EisArm : Type 0 where
  cancelled : EisArm
  event : EisEvent → EisArm
  liveness : EisArm
  reads : EisArm
  hung_up : EisArm
  arrives : EisInputEvent → EisArm

-- `waiting` is the time inside `wait_for_resume`, `restart` the request for a new pipeline.
pub record Thread : Type 0 where
  pub queue : List EisInputEvent
  pub counts : Counts
  pub frames : List Frame
  pub waiting : Bool
  pub restart : Bool
  pub ended : Bool

abbrev pub new_thread : Thread
new_thread = record {
  queue = [];
  counts = no_counts;
  frames = [];
  waiting = false;
  restart = false;
  ended = false;
}

unfoldable pub on_event : EisEvent → Thread → Thread
on_event paused t = record t { waiting = true }
on_event disconnected t = record t { ended = true }
on_event removed t = record t { restart = true; ended = true }
on_event failed t = record t { ended = true }
on_event finished t = record t { ended = true }
on_event resumed t = t
on_event other t = t

unfoldable pub wait_for_resume : EisEvent → Thread → Thread
wait_for_resume resumed t = record t { waiting = false }
wait_for_resume disconnected t = record t { waiting = false }
wait_for_resume failed t = record t { waiting = false }
wait_for_resume finished t = record t { waiting = false }
wait_for_resume paused t = t
wait_for_resume removed t = t
wait_for_resume other t = t

unfoldable pub sent_frame : Space → List EisInputEvent × List EisInputEvent → Thread → Thread
unfolding sort_batch
sent_frame s (batch, left) t =
    let r = sort_batch s batch (no_events, t.counts) in
    record t { queue = left; counts = r.1; frames = t.frames ++ r.0 ∷ [] }

unfoldable pub read_batch : Space → List EisInputEvent → Thread → Thread
unfolding sent_frame fill
read_batch s [] t = t
read_batch s (e ∷ queue) t = sent_frame s (fill max_input_batch (e ∷ queue)) t

-- What is left in the channel is read before its end.
unfoldable pub read_last : Space → List EisInputEvent → Thread → Thread
unfolding read_batch
read_last s [] t = record t { ended = true }
read_last s (e ∷ queue) t = read_batch s (e ∷ queue) t

-- While the thread waits, only a cancellation and the connection are polled.
unfoldable pub eis_running : Space → EisArm → Thread → Thread
unfolding on_event read_batch read_last
eis_running s cancelled t = record t { ended = true }
eis_running s (event e) t = on_event e t
eis_running s liveness t = record t { counts = record t.counts { window_events = 0 } }
eis_running s reads t = read_batch s t.queue t
eis_running s hung_up t = read_last s t.queue t
eis_running s (arrives e) t = record t { queue = t.queue ++ e ∷ [] }

unfoldable pub eis_waiting : Space → EisArm → Thread → Thread
unfolding wait_for_resume
eis_waiting s cancelled t = record t { ended = true }
eis_waiting s (event e) t = wait_for_resume e t
eis_waiting s liveness t = t
eis_waiting s reads t = t
eis_waiting s hung_up t = t
eis_waiting s (arrives e) t = record t { queue = t.queue ++ e ∷ [] }

unfoldable pub eis_turn : Space → EisArm → Thread → Thread
unfolding eis_running eis_waiting
eis_turn s arm t =
    if t.ended then t else if t.waiting then eis_waiting s arm t else eis_running s arm t

unfoldable pub eis_main : Space → List EisArm → Thread → Thread
unfolding eis_turn
eis_main s [] t = t
eis_main s (arm ∷ arms) t = eis_main s arms (eis_turn s arm t)
