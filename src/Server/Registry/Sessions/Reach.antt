-- ===== src/Server/Registry/Sessions/Reach.antt =====
-- Runs of the registry of server/src/ipc.rs, and what its operations mean to the clients.
use webshooter.Base.{
  ℕ, ◌≡◌, refl, subst, sym, ap, ◌∙◌, arith, true, false, not, ◌&&◌, List, [], ◌∷◌, ◌++◌, map,
  Option, none, some, ◌==◌, All, Bool-cases, inl, inr, append_assoc, append-nil, reverse,
}
use mathlib.Core.List.{reverse_aux-eq}
use webshooter.Shared.ServerDatagram.{ServerDatagram}
use webshooter.Server.Registry.{contains, lowest_free_id-free}
use webshooter.Server.Registry.Sessions.{
  Registry, new_registry, bump, abort_taken, is_cancelled, erase, ids, set_transport, set_video,
  set_audio, send, cancel_token, drop_cleanup, register_session, remove_session, get_session,
  disconnect_client, send_client_control_to, send_client_control, send_all, remove_all,
  shutdown_sessions, next_client_id, removed,
}
use webshooter.Server.Registry.Sessions.Invariant.{
  IsSound, Kept, members-erase, cancel_token-IsSound, new_registry-IsSound, set_transport-Kept,
  set_video-Kept, set_audio-Kept, register_session-Kept, drop_cleanup-IsSound,
  remove_session-IsSound, disconnect_client-IsSound, send_client_control_to-IsSound,
  send_client_control-IsSound, shutdown_sessions-IsSound,
}

-- What the tasks of the server do to the registry, one call at a time.
pub data Event : Type 0 where
  register : ℕ → Event
  remove : ℕ → Event
  disconnect : ℕ → Event
  shutdown : Event
  transport_task : ℕ → ℕ → Event
  video_task : ℕ → ℕ → Event
  audio_task : ℕ → ℕ → Event
  cancels : ℕ → Event
  cleaned : ℕ → Event
  control : ServerDatagram → Event
  control_to : ℕ → ServerDatagram → Event

module _ (id_of : ℕ → ℕ) where
  unfoldable pub step : Event → Registry → Option Registry
  step (register a) w = register_session id_of a w
  step (remove a) w = some (remove_session id_of a w)
  step (disconnect id) w = some (disconnect_client id_of id w)
  step shutdown w = some (shutdown_sessions id_of w)
  step (transport_task a h) w = set_transport a h w
  step (video_task a h) w = set_video a h w
  step (audio_task a h) w = set_audio a h w
  step (cancels a) w = some (cancel_token a w)
  step (cleaned a) w = some (drop_cleanup a w)
  step (control msg) w = some (send_client_control msg w)
  step (control_to id msg) w = some (send_client_control_to id_of id msg w)

  -- `none` after a panic.
  abbrev pub then_run : (Registry → Option Registry) → Option Registry → Option Registry
  then_run rest none = none
  then_run rest (some w) = rest w

  unfoldable pub run : List Event → Registry → Option Registry
  unfolding step
  run [] w = some w
  run (e ∷ events) w = then_run (λ w'. run events w') (step e w)

  step-Kept : (e : Event) (w : Registry) → IsSound id_of w → Kept id_of (step e w)
  unfolding step
  step-Kept (register a) w v = register_session-Kept id_of a w v
  step-Kept (remove a) w v = remove_session-IsSound id_of a w v
  step-Kept (disconnect id) w v = disconnect_client-IsSound id_of id w v
  step-Kept shutdown w v = shutdown_sessions-IsSound id_of w v
  step-Kept (transport_task a h) w v = set_transport-Kept id_of a h w v
  step-Kept (video_task a h) w v = set_video-Kept id_of a h w v
  step-Kept (audio_task a h) w v = set_audio-Kept id_of a h w v
  step-Kept (cancels a) w v = cancel_token-IsSound id_of a w v
  step-Kept (cleaned a) w v = drop_cleanup-IsSound id_of a w v
  step-Kept (control msg) w v = send_client_control-IsSound id_of msg w v
  step-Kept (control_to id msg) w v = send_client_control_to-IsSound id_of id msg w v

  then_run-Kept :
      (rest : Registry → Option Registry) (o : Option Registry)
      → Kept id_of o
      → ((w : Registry) → IsSound id_of w → Kept id_of (rest w))
      → Kept id_of (then_run rest o)
  then_run-Kept rest none k h = tt
  then_run-Kept rest (some w) k h = h w k

  run-Kept : (events : List Event) (w : Registry) → IsSound id_of w → Kept id_of (run events w)
  unfolding run
  run-Kept [] w v = v
  run-Kept (e ∷ events) w v =
      then_run-Kept (λ w'. run events w') (step e w) (step-Kept e w v)
        (λ w' v'. run-Kept events w' v')

  -- Whatever the tasks of the server do, as long as nothing has panicked: no two sessions of the
  -- registry have one id; a session that was stopped, whose connection the registry has closed, is
  -- not in it, is cancelled and holds no task; and the counter is the number of cleanups that are
  -- under way, modulo 2^64.
  pub registry-IsSound :
      (events : List Event) {w : Registry} → run events new_registry ≡ some w → IsSound id_of w
  registry-IsSound events {w} h =
      subst (λ o. Kept id_of o) h (run-Kept events new_registry (new_registry-IsSound id_of))

  -- A new session with the id that the allocation gives is registered, without a panic.
  pub register_session-next_client_id :
      (arc : ℕ) (w : Registry)
      → is_cancelled arc w ≡ false
      → id_of arc ≡ next_client_id id_of w
      → (w' : Registry) × (register_session id_of arc w ≡ some w')
        × (w'.sessions ≡ arc ∷ w.sessions)
        × (get_session id_of (id_of arc) w' ≡ some arc)
  unfolding register_session next_client_id get_session
  register_session-next_client_id arc w e h =
      let free = lowest_free_id-free (ids id_of w) in
      (
        bump (record w { sessions = arc ∷ w.sessions }),
        ground (arith, e, h, free.0),
        refl,
        ground arith,
      )

  sessions-abort_taken : (o : Option ℕ) (w : Registry) → (abort_taken o w).sessions ≡ w.sessions
  sessions-abort_taken none w = refl
  sessions-abort_taken (some h) w = refl

  cancelled-abort_taken : (o : Option ℕ) (w : Registry) → (abort_taken o w).cancelled ≡ w.cancelled
  cancelled-abort_taken none w = refl
  cancelled-abort_taken (some h) w = refl

  -- A removal takes the session itself out of the registry, whatever else has or had its id, and
  -- no other session.
  pub contains-remove_session :
      (arc b : ℕ) (w : Registry)
      → IsSound id_of w
      → contains b (remove_session id_of arc w).sessions ≡ (contains b w.sessions && not (b == arc))
  unfolding remove_session
  contains-remove_session arc b w v = elim (Bool-cases (contains arc w.sessions)) [
    | inl e ↦
        rw (e, sessions-abort_taken (w.slots arc).transport (removed id_of arc w))
          (members-erase id_of arc b w.sessions v.unique e)
    | inr e ↦ rw e (ground (arith, e))
  ]

  send_live :
      (msg : ServerDatagram) (a : ℕ) (w : Registry)
      → contains a w.cancelled ≡ false
      → send msg a w ≡ record w { control = w.control ++ (a, msg) ∷ [] }
  unfolding send
  send_live msg a w h = rw h refl

  control-send_all :
      (msg : ServerDatagram) (r : List ℕ) (w : Registry)
      → All (λ a. contains a w.cancelled ≡ false) r
      → (send_all msg r w).control ≡ w.control ++ map (λ a. (a, msg)) r
  unfolding send_all
  control-send_all msg [] w h = sym (append-nil w.control)
  control-send_all msg (a ∷ r) w h =
      ap (λ w'. (send_all msg r w').control) (send_live msg a w h.0)
      ∙ (control-send_all msg r (record w { control = w.control ++ (a, msg) ∷ [] }) h.1
          ∙ append_assoc w.control ((a, msg) ∷ []) (map (λ b. (b, msg)) r))

  -- Where none of the registered sessions is cancelled, a control message for all goes once to each.
  pub control-send_client_control :
      (msg : ServerDatagram) (w : Registry)
      → All (λ a. contains a w.cancelled ≡ false) w.sessions
      → (send_client_control msg w).control ≡ w.control ++ map (λ a. (a, msg)) w.sessions
  unfolding send_client_control
  control-send_client_control msg w live = control-send_all msg w.sessions w live

  remove_first :
      (a : ℕ) (r : List ℕ) (w : Registry)
      → w.sessions ≡ a ∷ r
      → ((remove_session id_of a w).sessions ≡ r)
        × ((remove_session id_of a w).cancelled ≡ a ∷ w.cancelled)
  unfolding remove_session
  remove_first a r w h =
      let there : contains a w.sessions ≡ true = ground (arith, h) in
      let left : erase (λ b. id_of b == id_of a) w.sessions ≡ r = ground (arith, h) in
      rw there (
        sessions-abort_taken (w.slots a).transport (removed id_of a w) ∙ left,
        cancelled-abort_taken (w.slots a).transport (removed id_of a w),
      )

  remove_all-sessions :
      (r : List ℕ) (w : Registry)
      → w.sessions ≡ r
      → ((remove_all id_of r w).sessions ≡ [])
        × ((remove_all id_of r w).cancelled ≡ reverse r ++ w.cancelled)
  unfolding remove_all
  remove_all-sessions [] w h = (h, refl)
  remove_all-sessions (a ∷ r) w h =
      let one = remove_first a r w h in
      let rest = remove_all-sessions r (remove_session id_of a w) one.0 in
      (
        rest.0,
        rest.1
            ∙ (ap (λ c. reverse r ++ c) one.1
                ∙ (sym (append_assoc (reverse r) (a ∷ []) w.cancelled)
                    ∙ ap (λ l. l ++ w.cancelled) (sym (reverse_aux-eq r (a ∷ []))))),
      )

  -- The shutdown empties the registry and cancels every session in it, in order.
  pub shutdown_sessions_all :
      (w : Registry)
      → ((shutdown_sessions id_of w).sessions ≡ [])
        × ((shutdown_sessions id_of w).cancelled ≡ reverse w.sessions ++ w.cancelled)
  unfolding shutdown_sessions
  shutdown_sessions_all w = remove_all-sessions w.sessions w refl
