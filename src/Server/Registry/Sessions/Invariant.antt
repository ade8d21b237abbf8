-- ===== src/Server/Registry/Sessions/Invariant.antt =====
-- What holds of the registry of server/src/ipc.rs after every operation.
use webshooter.Base.{
  ℕ, ◌+◌, ◌%◌, ◌^◌, ◌≡◌, ◌⊎◌, refl, arith, true, false, List, [], ◌∷◌, map, Option, none, some,
  ◌==◌, if◌then◌else◌, length, ==_refl, Bool-cases, inl, inr, All, All-append, not, ◌&&◌, ap,
  ==_iff,
}
use webshooter.Shared.ServerDatagram.{ServerDatagram}
use webshooter.Server.Registry.{contains}
use webshooter.Server.Registry.Sessions.{
  Slots, Registry, empty_slots, set_slots, cancel_token, abort, abort_taken, occupy, removed,
  new_registry, is_cancelled, erase, ids, set_transport, set_video, set_audio, send, drop_cleanup,
  register_session, remove_session, get_session, disconnect_client, with_session,
  send_client_control_to, send_client_control, send_all, remove_all, shutdown_sessions,
}

abbrev pub Distinct : List ℕ → Type 0
Distinct [] = Unit {0}
Distinct (i ∷ r) = (contains i r ≡ false) × Distinct r

-- Neither a transport nor a media task is held.
abbrev pub IsIdle : Slots → Type 0
IsIdle s = (s.transport ≡ none) × (s.video ≡ none) × (s.audio ≡ none)

-- A session is known by its identity, so that equal identities have equal ids.
module _ (id_of : ℕ → ℕ) where
  pub record IsSound (w : Registry) : Type 0 where
    pub unique : Distinct (map id_of w.sessions)
    pub gone : All (λ a. contains a w.sessions ≡ false) w.closed
    pub cancelled : All (λ a. contains a w.cancelled ≡ true) w.closed
    pub idle : All (λ a. IsIdle (w.slots a)) w.closed
    pub counted : w.tearing_down ≡ length w.cleaning % 2 ^ 64

  pub new_registry-IsSound : IsSound new_registry
  new_registry-IsSound = record {
    unique = tt;
    gone = tt;
    cancelled = tt;
    idle = tt;
    counted = refl;
  }

  IsIdle-set_slots :
      (arc : ℕ) (s : Slots) (slots : ℕ → Slots) (xs : List ℕ)
      → (contains arc xs ≡ false) ⊎ IsIdle s
      → All (λ a. IsIdle (slots a)) xs
      → All (λ a. IsIdle (if a == arc then s else slots a)) xs
  IsIdle-set_slots arc s slots [] e h = tt
  IsIdle-set_slots arc s slots (a ∷ xs) e h = ground (arith, h, e, IsIdle-set_slots arc s slots xs)

  pub contains-ids :
      (arc : ℕ) (r : List ℕ) → contains (id_of arc) (map id_of r) ≡ false → contains arc r ≡ false
  contains-ids arc [] h = refl
  contains-ids arc (a ∷ r) h = ground (arith, h, contains-ids arc r)

  still_gone :
      (arc : ℕ) (c r : List ℕ)
      → contains arc r ≡ false
      → All (λ a. contains a c ≡ false) r
      → All (λ a. contains a (arc ∷ c) ≡ false) r
  still_gone arc c [] e h = tt
  still_gone arc c (a ∷ r) e h = ground (arith, h, e, still_gone arc c r)

  still_cancelled :
      (arc : ℕ) (c r : List ℕ)
      → All (λ a. contains a c ≡ true) r
      → All (λ a. contains a (arc ∷ c) ≡ true) r
  still_cancelled arc c [] h = tt
  still_cancelled arc c (a ∷ r) h = ground (arith, h, still_cancelled arc c r)

  -- A session whose token is not cancelled has not been stopped.
  not_closed :
      (arc : ℕ) (c r : List ℕ)
      → contains arc c ≡ false
      → All (λ a. contains a c ≡ true) r
      → contains arc r ≡ false
  not_closed arc c [] e h = refl
  not_closed arc c (a ∷ r) e h = elim (Bool-cases (a == arc)) [
    | inl same ↦ absurd (cc (h.0, e, ap (λ b. contains b c) ((==_iff a arc).0 same)))
    | inr other ↦ ground (arith, other, not_closed arc c r e h.1)
  ]

  contains-erase :
      (i j : ℕ) (r : List ℕ)
      → contains j (map id_of r) ≡ false
      → contains j (map id_of (erase (λ a. id_of a == i) r)) ≡ false
  contains-erase i j [] h = refl
  contains-erase i j (a ∷ r) h = ground (arith, h, contains-erase i j r)

  unique-erase :
      (i : ℕ) (r : List ℕ)
      → Distinct (map id_of r)
      → Distinct (map id_of (erase (λ a. id_of a == i) r))
  unique-erase i [] h = tt
  unique-erase i (a ∷ r) h = ground (arith, h, contains-erase i (id_of a) r, unique-erase i r)

  pub members-erase :
      (arc b : ℕ) (r : List ℕ)
      → Distinct (map id_of r)
      → contains arc r ≡ true
      → contains b (erase (λ a. id_of a == id_of arc) r) ≡ (contains b r && not (b == arc))
  members-erase arc b [] u h = cc
  members-erase arc b (a ∷ r) u h = ground (arith, u, h, contains-ids arc r, members-erase arc b r)

  gone-erase :
      (arc : ℕ) (r xs : List ℕ)
      → Distinct (map id_of r)
      → contains arc r ≡ true
      → All (λ a. contains a r ≡ false) xs
      → All (λ a. contains a (erase (λ a. id_of a == id_of arc) r) ≡ false) xs
  gone-erase arc r [] u e h = tt
  gone-erase arc r (a ∷ xs) u e h =
      (rw (members-erase arc a r u e, h.0) refl, gone-erase arc r xs u e h.1)

  length-erase :
      (arc : ℕ) (xs : List ℕ)
      → contains arc xs ≡ true
      → length xs ≡ length (erase (λ a. a == arc) xs) + 1
  length-erase arc [] h = cc
  length-erase arc (a ∷ xs) h = ground (arith, h, length-erase arc xs)

  set_slots-IsSound :
      (arc : ℕ) (s : Slots) (w : Registry)
      → is_cancelled arc w ≡ false
      → IsSound w
      → IsSound (set_slots arc s w)
  set_slots-IsSound arc s w e v = record {
    unique = v.unique;
    gone = v.gone;
    cancelled = v.cancelled;
    idle =
        IsIdle-set_slots arc s w.slots w.closed
          (inl (not_closed arc w.cancelled w.closed e v.cancelled)) v.idle;
    counted = v.counted;
  }

  abort-IsSound : (handle : ℕ) (w : Registry) → IsSound w → IsSound (abort handle w)
  abort-IsSound handle w v = record {
    unique = v.unique;
    gone = v.gone;
    cancelled = v.cancelled;
    idle = v.idle;
    counted = v.counted;
  }

  -- Nothing is left to hold after a panic.
  abbrev pub Kept : Option Registry → Type 0
  Kept none = Unit {0}
  Kept (some w) = IsSound w

  -- A setter of a handle: it aborts after the cancellation, and panics at a slot that is taken.
  set-Kept :
      (arc handle : ℕ) (slot : Option ℕ) (s : Slots) (w : Registry)
      → IsSound w
      → Kept (if is_cancelled arc w then some (abort handle w) else occupy slot (set_slots arc s w))
  set-Kept arc handle none s w v = elim (Bool-cases (is_cancelled arc w)) [
    | inl e ↦ rw e (abort-IsSound handle w v)
    | inr e ↦ rw e (set_slots-IsSound arc s w e v)
  ]
  set-Kept arc handle (some t) s w v = elim (Bool-cases (is_cancelled arc w)) [
    | inl e ↦ rw e (abort-IsSound handle w v)
    | inr e ↦ rw e tt
  ]

  pub set_transport-Kept :
      (arc handle : ℕ) (w : Registry) → IsSound w → Kept (set_transport arc handle w)
  unfolding set_transport
  set_transport-Kept arc handle w v =
      set-Kept arc handle (w.slots arc).transport (record (w.slots arc) { transport = some handle })
        w v

  pub set_video-Kept : (arc handle : ℕ) (w : Registry) → IsSound w → Kept (set_video arc handle w)
  unfolding set_video
  set_video-Kept arc handle w v =
      set-Kept arc handle (w.slots arc).video (record (w.slots arc) { video = some handle }) w v

  pub set_audio-Kept : (arc handle : ℕ) (w : Registry) → IsSound w → Kept (set_audio arc handle w)
  unfolding set_audio
  set_audio-Kept arc handle w v =
      set-Kept arc handle (w.slots arc).audio (record (w.slots arc) { audio = some handle }) w v

  pub register_session-Kept :
      (arc : ℕ) (w : Registry) → IsSound w → Kept (register_session id_of arc w)
  unfolding register_session
  register_session-Kept arc w v = elim (Bool-cases (is_cancelled arc w)) [
    | inl e ↦ rw e v
    | inr e ↦ elim (Bool-cases (contains (id_of arc) (ids id_of w))) [
      | inl taken ↦ rw (e, taken) tt
      | inr free ↦
          rw (e, free)
            (record {
              unique = (free, v.unique);
              gone =
                  still_gone arc w.sessions w.closed
                    (not_closed arc w.cancelled w.closed e v.cancelled) v.gone;
              cancelled = v.cancelled;
              idle = v.idle;
              counted = v.counted;
            })
    ]
  ]

  pub send-IsSound :
      (msg : ServerDatagram) (arc : ℕ) (w : Registry) → IsSound w → IsSound (send msg arc w)
  unfolding send
  send-IsSound msg arc w v = elim (Bool-cases (is_cancelled arc w)) [
    | inl e ↦ rw e v
    | inr e ↦ rw e (record {
      unique = v.unique;
      gone = v.gone;
      cancelled = v.cancelled;
      idle = v.idle;
      counted = v.counted;
    })
  ]

  pub drop_cleanup-IsSound : (arc : ℕ) (w : Registry) → IsSound w → IsSound (drop_cleanup arc w)
  unfolding drop_cleanup
  drop_cleanup-IsSound arc w v = elim (Bool-cases (contains arc w.cleaning)) [
    | inl e ↦ rw e (record {
      unique = v.unique;
      gone = v.gone;
      cancelled = v.cancelled;
      idle = v.idle;
      counted = omega (arith, v.counted, length-erase arc w.cleaning e);
    })
    | inr e ↦ rw e v
  ]

  removed-IsSound :
      (arc : ℕ) (w : Registry)
      → contains arc w.sessions ≡ true
      → IsSound w
      → IsSound (removed id_of arc w)
  removed-IsSound arc w e v = record {
    unique = unique-erase (id_of arc) w.sessions v.unique;
    gone =
        All-append (λ a. contains a left ≡ false) w.closed (arc ∷ [])
          (gone-erase arc w.sessions w.closed v.unique e v.gone)
          (rw (members-erase arc arc w.sessions v.unique e, e, ==_refl arc) refl, tt);
    cancelled =
        All-append (λ a. contains a (arc ∷ w.cancelled) ≡ true) w.closed (arc ∷ [])
          (still_cancelled arc w.cancelled w.closed v.cancelled) (ground arith, tt);
    idle =
        All-append (λ a. IsIdle (if a == arc then empty_slots else w.slots a)) w.closed (arc ∷ [])
          (IsIdle-set_slots arc empty_slots w.slots w.closed (inr (refl, refl, refl)) v.idle)
          (rw (==_refl arc) (refl, refl, refl), tt);
    counted = omega (arith, v.counted);
  }
    where
      left : List ℕ
      left = erase (λ a. id_of a == id_of arc) w.sessions

  pub cancel_token-IsSound : (arc : ℕ) (w : Registry) → IsSound w → IsSound (cancel_token arc w)
  unfolding cancel_token
  cancel_token-IsSound arc w v = record {
    unique = v.unique;
    gone = v.gone;
    cancelled = still_cancelled arc w.cancelled w.closed v.cancelled;
    idle = v.idle;
    counted = v.counted;
  }

  abort_taken-IsSound : (o : Option ℕ) (w : Registry) → IsSound w → IsSound (abort_taken o w)
  abort_taken-IsSound none w v = v
  abort_taken-IsSound (some h) w v = abort-IsSound h w v

  pub remove_session-IsSound :
      (arc : ℕ) (w : Registry) → IsSound w → IsSound (remove_session id_of arc w)
  unfolding remove_session
  remove_session-IsSound arc w v = elim (Bool-cases (contains arc w.sessions)) [
    | inl e ↦ rw e (
        abort_taken-IsSound (w.slots arc).transport (removed id_of arc w)
          (removed-IsSound arc w e v))
    | inr e ↦ rw e v
  ]

  with_session-IsSound :
      (f : ℕ → Registry) (o : Option ℕ) (w : Registry)
      → IsSound w
      → ((a : ℕ) → IsSound (f a))
      → IsSound (with_session f o w)
  with_session-IsSound f none w v h = v
  with_session-IsSound f (some a) w v h = h a

  pub disconnect_client-IsSound :
      (id : ℕ) (w : Registry) → IsSound w → IsSound (disconnect_client id_of id w)
  unfolding disconnect_client
  disconnect_client-IsSound id w v =
      with_session-IsSound (λ arc. remove_session id_of arc w) (get_session id_of id w) w v
        (λ arc. remove_session-IsSound arc w v)

  pub send_client_control_to-IsSound :
      (id : ℕ) (msg : ServerDatagram) (w : Registry)
      → IsSound w
      → IsSound (send_client_control_to id_of id msg w)
  unfolding send_client_control_to
  send_client_control_to-IsSound id msg w v =
      with_session-IsSound (λ arc. send msg arc w) (get_session id_of id w) w v
        (λ arc. send-IsSound msg arc w v)

  send_all-IsSound :
      (msg : ServerDatagram) (r : List ℕ) (w : Registry) → IsSound w → IsSound (send_all msg r w)
  unfolding send_all
  send_all-IsSound msg [] w v = v
  send_all-IsSound msg (a ∷ r) w v = send_all-IsSound msg r (send msg a w) (send-IsSound msg a w v)

  pub send_client_control-IsSound :
      (msg : ServerDatagram) (w : Registry) → IsSound w → IsSound (send_client_control msg w)
  unfolding send_client_control
  send_client_control-IsSound msg w v = send_all-IsSound msg w.sessions w v

  remove_all-IsSound : (r : List ℕ) (w : Registry) → IsSound w → IsSound (remove_all id_of r w)
  unfolding remove_all
  remove_all-IsSound [] w v = v
  remove_all-IsSound (a ∷ r) w v =
      remove_all-IsSound r (remove_session id_of a w) (remove_session-IsSound a w v)

  pub shutdown_sessions-IsSound : (w : Registry) → IsSound w → IsSound (shutdown_sessions id_of w)
  unfolding shutdown_sessions
  shutdown_sessions-IsSound w v = remove_all-IsSound w.sessions w v
