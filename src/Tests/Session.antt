-- ===== src/Tests/Session.antt =====
-- Logins, the registry of sessions and the commands at concrete inputs: server/src/auth.rs, ipc.rs,
-- session_lock.rs.
use webshooter.Base.{
  ℕ, ◌≡◌, ◌≤◌, ◌+◌, ◌&&◌, refl, arith, Bool, true, false, List, [], ◌∷◌, ◌++◌, Option, none, some,
  max, codes, In, leb, if◌then◌else◌,
}
use webshooter.Base.Text.{Text, text_eq}
use webshooter.Base.Dict.{get, insert}
use webshooter.Server.Lock.{parse_locked_hint, locked, can_approve}
use webshooter.Server.Ipc.{parse_args, authorise}
use webshooter.Server.Ipc.Number.{decimal}
use webshooter.Server.Ipc.Words.{parse_args-words}
use webshooter.Server.Auth.{RateLimits, check_rate_limit}
use webshooter.Server.Auth.Rate.{let_through, let_through_bound, room}
use webshooter.Server.Auth.Sessions.{
  challenged, approved, Sessions, User, signed, is_user, get_challenge, login_inner,
  verify_challenge_and_issue_cookie, check_signature, authenticated, find_token,
}
use webshooter.Server.Auth.Verify.{Signs}
use webshooter.Server.Auth.Login.{Request, challenge, login, after, Earned, approved-Earned}
use webshooter.Server.Auth.Cookie.{Grants, authenticated_sound}
use webshooter.Server.Auth.Register.{
  Round, received, Registration, register_inner, wait_for_operator, reply, get_challenged_sessions,
}
use webshooter.Server.Auth.Register.Approval.{Approved, register_inner-ok}
use webshooter.Server.Auth.Onetime.{Event, issue, use_token}
use webshooter.Server.Registry.Sessions.{
  cancel_token, Registry, new_registry, register_session, remove_session, set_transport,
  drop_cleanup,
}
use webshooter.Server.Registry.Sessions.Invariant.{IsSound}
use webshooter.Server.Registry.Sessions.Reach
use webshooter.Server.Registry.Sessions.Reach.{
  register, remove, cancels, transport_task, cleaned, run, registry-IsSound,
  register_session-next_client_id,
}

abbrev lower : Text → Text
lower [] = []
lower (c ∷ s) = (if leb b'A' c && leb c b'Z' then c + 32 else c) ∷ lower s

parse_args-words_example :
    parse_args lower (codes "Authorise" ∷ codes "42" ∷ []) ≡ some (authorise (some 42))
unfolding decimal
parse_args-words_example =
    parse_args-words lower (authorise (some 42)) (codes "Authorise" ∷ codes "42" ∷ []) (omega arith)
      refl

abbrev no_limits : RateLimits
no_limits ip = none

abbrev attempts : List (ℕ × ℕ)
attempts = (0, 1) ∷ (2, 3) ∷ (4, 5) ∷ (6, 7) ∷ []

let_through_bound_example : let_through 1 2 attempts no_limits ≤ max 1 2 + room 2 (no_limits 1)
let_through_bound_example =
    let_through_bound 1 2 0 9 attempts no_limits (omega arith) (omega arith) (omega arith)

-- A scheme in which a key signs a challenge by writing it behind itself.
abbrev codes_bob : Text
codes_bob = codes "bob"

abbrev parse : Text → Option Text
parse t = some t

abbrev verify : Text → Text → Text → Bool
verify key c signature = text_eq signature (key ++ c)

abbrev id : Text
id = codes "ann"

abbrev bytes : Text
bytes = codes "xyz"

abbrev cookie : Text
cookie = codes "k1"

abbrev users : List User
users = record { verification_key = id; display_name = codes "Ann" } ∷ []

abbrev requests : List Request
requests = login (signed id (id ++ bytes)) cookie 100 ∷ challenge id bytes ∷ []

approved-Earned_example : Earned parse parse verify users id cookie requests
unfolding after login_inner verify_challenge_and_issue_cookie check_signature get_challenge get
    insert text_eq
approved-Earned_example = approved-Earned parse parse verify users requests id cookie 100 refl

abbrev sessions : Sessions
sessions = (id, approved cookie 100) ∷ (codes "bob", challenged bytes) ∷ []

abbrev ann : User
ann = record { verification_key = id; display_name = codes "Ann" }

authenticated_sound_example :
    (token : Text) × (find_token (codes "token=k1" ∷ []) ≡ some token)
    × Grants (λ t. t) 200 sessions token ann.verification_key
    × In ann users
unfolding authenticated get insert text_eq
authenticated_sound_example =
    authenticated_sound (λ t. t) users 200 sessions (codes "token=k1" ∷ []) ann refl

abbrev waiting : Sessions
waiting = (id, challenged bytes) ∷ []

abbrev rounds : List Round
rounds = received (authorise (some 0)) waiting true ∷ []

abbrev registration : Registration
registration =
    register_inner parse parse verify [] id (id ++ bytes) (codes "Ann") rounds cookie 100 true
      waiting waiting

register_inner-ok_example :
    (is_user id [] ≡ false)
    × Approved id rounds
    × (c : Text) × (get id waiting ≡ some (challenged c))
    × Signs parse parse verify id (id ++ bytes) c
    × (registration.stored ≡ some (ann ∷ []))
    × (registration.sessions ≡ insert id (approved cookie 100) waiting)
unfolding register_inner wait_for_operator reply get_challenged_sessions
    verify_challenge_and_issue_cookie check_signature get insert text_eq
register_inner-ok_example =
    register_inner-ok parse parse verify [] id (id ++ bytes) (codes "Ann") rounds cookie 100 true
      waiting waiting cookie refl

abbrev token_events : List Event
token_events = issue bytes id ∷ use_token bytes ∷ use_token bytes ∷ []

abbrev id_of : ℕ → ℕ
id_of a = a

abbrev events : List Reach.Event
events = transport_task 1 9 ∷ register 1 ∷ register 2 ∷ cancels 1 ∷ remove 1 ∷ cleaned 1 ∷ []

abbrev reached : Option Registry → Registry
reached none = new_registry
reached (some w) = w

registry-IsSound_example : IsSound id_of (reached (run id_of events new_registry))
unfolding run register_session set_transport cancel_token remove_session drop_cleanup
registry-IsSound_example = registry-IsSound id_of events refl

-- Attempts that run at the same time are all checked before the first failure is recorded.
checked_together : (check_rate_limit 1 1 5 (check_rate_limit 1 1 4 no_limits).0).1 ≡ true
unfolding check_rate_limit
checked_together = refl

-- Whoever asks for a challenge for an id ends the approved session of that id.
logged_out : get id (get_challenge id codes_bob sessions) ≡ some (challenged codes_bob)
unfolding get_challenge get insert text_eq
logged_out = refl

-- The operator means the session that is challenged, and the registration of another id takes it
-- for its own.
approved_other :
    wait_for_operator id (received (authorise none) ((codes_bob, challenged bytes) ∷ []) true ∷ [])
    ≡ webshooter.Server.Auth.Register.authorised
unfolding wait_for_operator reply get_challenged_sessions
approved_other = refl

-- Two registrations that wait at the same time start from the same users: the one that ends last
-- stores its own user without the other.
registration_lost :
    (registration.stored ≡ some (ann ∷ []))
    × ((register_inner parse parse verify [] codes_bob
          (codes_bob ++ bytes)
          (codes "Bob")
          (received (authorise none) ((codes_bob, challenged bytes) ∷ []) true ∷ [])
          cookie
          101
          true
          ((codes_bob, challenged bytes) ∷ [])
          []).stored
        ≡ some (record { verification_key = codes_bob; display_name = codes "Bob" } ∷ []))
unfolding register_inner wait_for_operator reply get_challenged_sessions
    verify_challenge_and_issue_cookie check_signature get insert text_eq
registration_lost = (refl, refl)

-- The token is not found behind another cookie of the header.
token_behind : find_token (codes "theme=dark; token=k1" ∷ []) ≡ none
unfolding find_token text_eq
token_behind = refl

-- The output of a locked session, with a line before the one that counts.
locked_output : parse_locked_hint (codes "Id=3" ∷ codes " LockedHint = yes " ∷ []) ≡ locked
unfolding parse_locked_hint
locked_output = refl

-- A failed query says nothing, and does not stop a capture.
no_output : can_approve (parse_locked_hint []) ≡ true
unfolding parse_locked_hint can_approve
no_output = refl
