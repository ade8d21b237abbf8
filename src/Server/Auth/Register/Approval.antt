-- ===== src/Server/Auth/Register/Approval.antt =====
-- Whom `register` of server/src/auth.rs lets in.
use webshooter.Base.{
  ℕ, zero, suc, ◌+◌, ◌<◌, ◌≡◌, ◌⊎◌, refl, arith, Bool, true, false, List, [], ◌∷◌, Option, none,
  some, if◌then◌else◌, Bool-cases, Option-cases, inl, inr,
}
use webshooter.Base.Text.{Text, text_eq_iff}
use webshooter.Base.Result.{Result, ok, err}
use webshooter.Base.Dict.{get, insert}
use webshooter.Server.Ipc.{
  IpcMessage, authorise, exit, deauthorise, release_mouse, fullscreen_toggle,
}
use webshooter.Server.Auth.Sessions.{
  WebshooterError, invalid_login, challenged, approved, Sessions, User, is_user,
  verify_challenge_and_issue_cookie,
}
use webshooter.Server.Auth.Verify.{Signs, verify_challenge-ok}
use webshooter.Server.Auth.Register.{
  get_challenged_sessions, reply, is_accept, find_at, Round, broken, received, Waited, authorised,
  timed_out, failed, refused, login_error, wait_for_operator, register_inner, finish,
  when_authorised,
}

-- The place of a session in the menu.
abbrev pub at_index : ℕ → List Text → Option Text
at_index n [] = none
at_index zero (s ∷ sessions) = some s
at_index (suc n) (s ∷ sessions) = at_index n sessions

-- A message that a registration of the id takes for its approval while these sessions are
-- challenged: by the number that the id has in the menu, or without a number while a single session
-- is challenged, whichever that is.
pub data Approves (id : Text) (sessions : List Text) : IpcMessage → Type 0 where
  only : (s : Text) → sessions ≡ s ∷ [] → Approves id sessions (authorise none)
  numbered : (n : ℕ) → at_index n sessions ≡ some id → Approves id sessions (authorise (some n))

find_at-past :
    (m index : ℕ) (id : Text) (sessions : List Text)
    → m < index
    → find_at m id index sessions ≡ none
find_at-past m index id [] h = refl
find_at-past m index id (x ∷ sessions) h = ground (arith, h, find_at-past m (index + 1) id sessions)

find_at-at_index :
    (n m index : ℕ) (id s : Text) (sessions : List Text)
    → n + index ≡ m
    → find_at m id index sessions ≡ some s
    → at_index n sessions ≡ some id
find_at-at_index n m index id s [] e h = cc
find_at-at_index zero m index id s (x ∷ sessions) e h =
    ground (arith, e, h, text_eq_iff id x, find_at-past m (index + 1) id sessions)
find_at-at_index (suc n) m index id s (x ∷ sessions) e h =
    ground (arith, e, h, find_at-at_index n m (index + 1) id s sessions)

reply-Approves :
    (id : Text) (message : IpcMessage) (sessions : List Text)
    → is_accept (reply id message sessions) ≡ true
    → Approves id sessions message
unfolding reply
reply-Approves id (authorise none) [] h = cc
reply-Approves id (authorise none) (s ∷ []) h = only s refl
reply-Approves id (authorise none) (s ∷ t ∷ sessions) h = cc
reply-Approves id (authorise (some n)) sessions h = elim (Option-cases (find_at n id 0 sessions)) [
  | inl e ↦ absurd (cc (rw e at h))
  | inr (s, e) ↦ numbered n (find_at-at_index n n 0 id s sessions (omega arith) e)
]
reply-Approves id exit sessions h = cc
reply-Approves id (deauthorise i) sessions h = cc
reply-Approves id release_mouse sessions h = cc
reply-Approves id (fullscreen_toggle i) sessions h = cc

-- Some round before the end of the wait brings such a message, and its answer is delivered.
abbrev pub Approved : Text → List Round → Type 0
Approved id [] = ⊥
Approved id (broken ∷ rounds) = ⊥
Approved id (received message sessions answered ∷ rounds) =
    ((answered ≡ true) × Approves id (get_challenged_sessions sessions) message)
    ⊎ Approved id rounds

wait-Approved :
    (id : Text) (rounds : List Round)
    → wait_for_operator id rounds ≡ authorised
    → Approved id rounds
unfolding wait_for_operator
wait-Approved id [] h = cc
wait-Approved id (broken ∷ rounds) h = cc
wait-Approved id (received message sessions true ∷ rounds) h =
    elim (Bool-cases (is_accept (reply id message (get_challenged_sessions sessions)))) [
      | inl e ↦ inl (refl, reply-Approves id message (get_challenged_sessions sessions) e)
      | inr e ↦ inr (wait-Approved id rounds (rw e at h))
    ]
wait-Approved id (received message sessions false ∷ rounds) h = cc

-- The branch of a registration that answers with a cookie.
branch-ok :
    (u : Bool) (w : Waited) (o : Result WebshooterError (Sessions × Text)) (saved : Bool)
    (users : List User) (user : User) (write : Sessions) (k : Text)
    → (if u
        then refused (login_error invalid_login) write
        else when_authorised w (finish saved users user o write) write).result
      ≡ ok k
    → (u ≡ false) × (w ≡ authorised) × (saved ≡ true) × (p : Sessions × Text) × (o ≡ ok p)
branch-ok true w o saved users user write k h = cc
branch-ok false timed_out o saved users user write k h = cc
branch-ok false failed o saved users user write k h = cc
branch-ok false authorised (err e) saved users user write k h = cc
branch-ok false authorised (ok (s, c)) false users user write k h = cc
branch-ok false authorised (ok (s, c)) true users user write k h = (refl, refl, refl, (s, c), refl)

module _ {Key Signature : Type 0} (from_public_key_der : Text → Option Key)
    (from_slice : Text → Option Signature) (verify : Key → Text → Signature → Bool) where
  -- A registration that answers with a cookie is one of an id that was no user and whose key signed
  -- the challenge of its session; before the timeout the operator authorised the id by its number,
  -- or authorised without a number while a single session, not necessarily that of the id, was
  -- challenged; it stores the new user with the others of its copy of the configuration, and
  -- approves the session.
  pub register_inner-ok :
      (users : List User) (id signature name : Text) (rounds : List Round) (cookie : Text) (now : ℕ)
      (saved : Bool) (read write : Sessions) (k : Text)
      → (register_inner from_public_key_der from_slice verify users id signature name rounds cookie
          now saved read write).result
        ≡ ok k
      → (is_user id users ≡ false)
        × Approved id rounds
        × (c : Text) × (get id read ≡ some (challenged c))
        × Signs from_public_key_der from_slice verify id signature c
        × ((register_inner from_public_key_der from_slice verify users id signature name rounds
              cookie now saved read write).stored
            ≡ some (record { verification_key = id; display_name = name } ∷ users))
        × ((register_inner from_public_key_der from_slice verify users id signature name rounds
              cookie now saved read write).sessions
            ≡ insert id (approved cookie now) write)
  unfolding register_inner
  register_inner-ok users id signature name rounds cookie now saved read write k h =
      let user : User = record { verification_key = id; display_name = name } in
      let checked =
        verify_challenge_and_issue_cookie from_public_key_der from_slice verify id id signature
          cookie now read write in
      let (new, waited, stored, (s, l), verified) =
        branch-ok (is_user id users) (wait_for_operator id rounds) checked saved users user write k
          h in
      let (c, challenge, signs, wrote) =
        verify_challenge-ok from_public_key_der from_slice verify id signature cookie now read write
          s l verified in
      (
        new,
        wait-Approved id rounds waited,
        c,
        challenge,
        signs,
        rw (new, waited, verified, stored) refl,
        rw (new, waited, verified, stored) wrote,
      )
