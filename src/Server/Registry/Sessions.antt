-- ===== src/Server/Registry/Sessions.antt =====
-- The registry of connected clients in server/src/ipc.rs, with the cancellation of a session's own
-- token in server/src/wt.rs. An `Arc<Session>` is a number, its identity; `id_of` gives the immutable
-- id of the session behind it. Each operation runs as a whole. The set of entries is a list, in the
-- order of the iteration.
pub mod Invariant
pub mod Reach
use webshooter.Base.{
  ℕ, zero, suc, ◌+◌, ◌-◌, ◌%◌, ◌^◌, Bool, true, false, List, [], ◌∷◌, ◌++◌, map, Option, none, some,
  ◌==◌, ltb, leb, if◌then◌else◌, length,
}
use webshooter.Base.Text.{Text}
use webshooter.Shared.ServerDatagram.{ServerDatagram}
use webshooter.Server.Registry.{contains, lowest_free_id}

-- The task handles of a session.
pub record Slots : Type 0 where
  pub transport : Option ℕ
  pub video : Option ℕ
  pub audio : Option ℕ
  pub audio_sink : Option ℕ

-- `cleaning` are the sessions whose cleanup still holds its reservation. What is handed to the
-- tasks, the connections and the control channels is recorded, the newest at the end.
pub record Registry : Type 0 where
  pub sessions : List ℕ
  pub cancelled : List ℕ
  pub slots : ℕ → Slots
  pub revision : ℕ
  pub tearing_down : ℕ
  pub cleaning : List ℕ
  pub aborted : List ℕ
  pub closed : List ℕ
  pub control : List (ℕ × ServerDatagram)

abbrev pub empty_slots : Slots
empty_slots = record { transport = none; video = none; audio = none; audio_sink = none }

abbrev pub new_registry : Registry
new_registry = record {
  sessions = [];
  cancelled = [];
  slots = λ a. empty_slots;
  revision = 0;
  tearing_down = 0;
  cleaning = [];
  aborted = [];
  closed = [];
  control = [];
}

abbrev pub set_slots : ℕ → Slots → Registry → Registry
set_slots arc s w = record w { slots = λ a. if a == arc then s else w.slots a }

abbrev pub is_cancelled : ℕ → Registry → Bool
is_cancelled arc w = contains arc w.cancelled

abbrev pub abort : ℕ → Registry → Registry
abort handle w = record w { aborted = w.aborted ++ handle ∷ [] }

-- A handle for a slot: `none` where the slot is taken and the code panics.
abbrev pub occupy : Option ℕ → Registry → Option Registry
occupy none w = some w
occupy (some handle) w = none

unfoldable pub set_transport : ℕ → ℕ → Registry → Option Registry
set_transport arc handle w =
    if is_cancelled arc w
    then some (abort handle w)
    else occupy (w.slots arc).transport
        (set_slots arc (record (w.slots arc) { transport = some handle }) w)

unfoldable pub set_video : ℕ → ℕ → Registry → Option Registry
set_video arc handle w =
    if is_cancelled arc w
    then some (abort handle w)
    else occupy (w.slots arc).video (set_slots arc (record (w.slots arc) { video = some handle }) w)

unfoldable pub set_audio : ℕ → ℕ → Registry → Option Registry
set_audio arc handle w =
    if is_cancelled arc w
    then some (abort handle w)
    else occupy (w.slots arc).audio (set_slots arc (record (w.slots arc) { audio = some handle }) w)

-- `try_send` on the session's control channel.
unfoldable pub send : ServerDatagram → ℕ → Registry → Registry
send msg arc w =
    if is_cancelled arc w then w else record w { control = w.control ++ (arc, msg) ∷ [] }

abbrev pub abort_taken : Option ℕ → Registry → Registry
abort_taken none w = w
abort_taken (some handle) w = abort handle w

-- The handles of video and audio and the sink go to the cleanup task, which waits for them.
abbrev pub stopped : ℕ → Registry → Registry
stopped arc w = set_slots arc empty_slots (record w {
  cancelled = arc ∷ w.cancelled;
  closed = w.closed ++ arc ∷ [];
  cleaning = arc ∷ w.cleaning;
})

unfoldable pub stop : ℕ → Registry → Registry
stop arc w = abort_taken (w.slots arc).transport (stopped arc w)

-- `run_session` cancels the token of its own session before it removes it.
unfoldable pub cancel_token : ℕ → Registry → Registry
cancel_token arc w = record w { cancelled = arc ∷ w.cancelled }

-- The first entry equal to the one that is given.
abbrev pub erase : (ℕ → Bool) → List ℕ → List ℕ
erase p [] = []
erase p (a ∷ r) = if p a then r else a ∷ erase p r

-- `PendingCleanup::drop`, where the cleanup of a session ends.
unfoldable pub drop_cleanup : ℕ → Registry → Registry
drop_cleanup arc w =
    if contains arc w.cleaning
    then record w {
      cleaning = erase (λ a. a == arc) w.cleaning;
      tearing_down = (w.tearing_down + 2 ^ 64 - 1) % 2 ^ 64;
    }
    else w

abbrev pub bump : Registry → Registry
bump w = record w { revision = (w.revision + 1) % 2 ^ 64 }

abbrev pub least : List ℕ → Option ℕ
least [] = none
least (i ∷ ids) = elim (least ids) [ none ↦ some i | some j ↦ if leb i j then some i else some j ]

abbrev pub tearing_or_none : ℕ → Option ℕ → Option ℕ
tearing_or_none tearing (some id) = some id
tearing_or_none tearing none = if tearing == 0 then none else some 0

unfoldable pub send_all : ServerDatagram → List ℕ → Registry → Registry
send_all msg [] w = w
send_all msg (a ∷ sessions) w = send_all msg sessions (send msg a w)

unfoldable pub send_client_control : ServerDatagram → Registry → Registry
unfolding send_all
send_client_control msg w = send_all msg w.sessions w

abbrev pub with_session : (ℕ → Registry) → Option ℕ → Registry → Registry
with_session f none w = w
with_session f (some arc) w = f arc

module _ (id_of : ℕ → ℕ) where
  abbrev pub ids : Registry → List ℕ
  ids w = map id_of w.sessions

  -- `none` where the id is in use and the code panics.
  unfoldable pub register_session : ℕ → Registry → Option Registry
  register_session arc w =
      if is_cancelled arc w
      then some w
      else if contains (id_of arc) (ids w)
      then none
      else some (bump (record w { sessions = arc ∷ w.sessions }))

  -- The entry that is found by identity goes by its id, under the lock.
  abbrev pub unregistered : ℕ → Registry → Registry
  unregistered arc w = bump (record w {
    sessions = erase (λ a. id_of a == id_of arc) w.sessions;
    tearing_down = (w.tearing_down + 1) % 2 ^ 64;
  })

  abbrev pub removed : ℕ → Registry → Registry
  removed arc w = stopped arc (unregistered arc w)

  unfoldable pub remove_session : ℕ → Registry → Registry
  unfolding stop
  remove_session arc w = if contains arc w.sessions then stop arc (unregistered arc w) else w

  unfoldable pub next_client_id : Registry → ℕ
  next_client_id w = lowest_free_id (ids w)

  unfoldable pub lowest_client_id : Registry → Option ℕ
  lowest_client_id w = tearing_or_none w.tearing_down (least (ids w))

  unfoldable pub list_clients : (ℕ → Text) → Registry → List (ℕ × Text)
  list_clients name_of w = map (λ a. (id_of a, name_of a)) w.sessions

  abbrev with_id : ℕ → List ℕ → Option ℕ
  with_id id [] = none
  with_id id (a ∷ r) = if id_of a == id then some a else with_id id r

  unfoldable pub get_session : ℕ → Registry → Option ℕ
  get_session id w = with_id id w.sessions

  unfoldable pub send_client_control_to : ℕ → ServerDatagram → Registry → Registry
  unfolding get_session send
  send_client_control_to id msg w = with_session (λ arc. send msg arc w) (get_session id w) w

  unfoldable pub disconnect_client : ℕ → Registry → Registry
  unfolding get_session remove_session
  disconnect_client id w = with_session (λ arc. remove_session arc w) (get_session id w) w

  remove_all : List ℕ → Registry → Registry
  unfolding remove_session
  remove_all [] w = w
  remove_all (a ∷ sessions) w = remove_all sessions (remove_session a w)

  -- The wait of at most five seconds for the cleanup tasks is the runtime's.
  unfoldable pub shutdown_sessions : Registry → Registry
  unfolding remove_all
  shutdown_sessions w = remove_all w.sessions w
