-- ===== src/Server/Auth/Sessions.antt =====
-- The login sessions of server/src/auth.rs: challenges, cookies and the check of a request. Keys,
-- signatures and cookies are bytes; random bytes and the clock's readings are arguments, and so
-- are the functions of the ecdsa and p384 crates and the base64 text.
use webshooter.Base.{
  ℕ, ◌-◌, ◌*◌, ◌^◌, Bool, List, [], ◌∷◌, Option, none, some, ltb, if◌then◌else◌, codes, any,
}
use webshooter.Base.Text.{Text, text_eq, split_once}
use webshooter.Base.Result.{Result, ok, err, ◌>>=◌}
use webshooter.Base.Dict.{get, insert}

-- The errors of server/src/error.rs, and their status codes.
pub data WebshooterError : Type 0 where
  not_challenged : WebshooterError
  invalid_login : WebshooterError
  challenge_failed : WebshooterError
  not_authorized : WebshooterError
  no_associated_user : WebshooterError
  invalid_config_path : Text → WebshooterError
  invalid_config : Text → Text → WebshooterError
  ipc_not_available : WebshooterError
  cancelled : WebshooterError
  no_authentication : WebshooterError

pub status : WebshooterError → ℕ
status not_challenged = 403
status invalid_login = 400
status challenge_failed = 403
status not_authorized = 403
status no_authentication = 401
status no_associated_user = 500
status (invalid_config_path path) = 500
status (invalid_config path error) = 500
status ipc_not_available = 500
status cancelled = 500

abbrev pub cookie_ttl : ℕ
cookie_ttl = 24 * 3600 * 10 ^ 9

pub data Session : Type 0 where
  challenged : Text → Session
  approved : Text → ℕ → Session

-- `AUTH_SESSIONS`, by the bytes of a `UserId`.
abbrev pub Sessions : Type 0
Sessions = List (Text × Session)

pub record User : Type 0 where
  pub verification_key : Text
  pub display_name : Text

-- The header `id`, where it is readable text, with the decoder of base64.
unfoldable pub identity : (Text → Option Text) → Option Text → Result WebshooterError Text
identity decode none = err no_authentication
identity decode (some header) = elim (decode header) [
  | none ↦ err no_authentication
  | some id ↦ ok id
]

abbrev pub is_user : Text → List User → Bool
is_user id users = any (λ u. text_eq id u.verification_key) users

unfoldable pub check_identity : Text → List User → Result WebshooterError (Unit {0})
check_identity id users = if is_user id users then ok tt else err not_authorized

unfoldable pub get_challenge : Text → Text → Sessions → Sessions
get_challenge id challenge sessions = insert id (challenged challenge) sessions

abbrev pub challenge_in : Option Session → Result WebshooterError Text
challenge_in (some (challenged challenge)) = ok challenge
challenge_in (some (approved cookie created_at)) = err not_challenged
challenge_in none = err not_challenged

abbrev pub approve : Text → Text → ℕ → Sessions → Result WebshooterError (Sessions × Text)
approve id cookie now write = ok (insert id (approved cookie now) write, cookie)

pub data LoginParams : Type 0 where
  id_only : Text → LoginParams
  signed : Text → Text → LoginParams

module _ {Key Signature : Type 0} (from_public_key_der : Text → Option Key)
    (from_slice : Text → Option Signature) (verify : Key → Text → Signature → Bool) where
  abbrev pub check_parts : Option Key → Option Signature → Text → Result WebshooterError (Unit {0})
  check_parts none signature challenge = err invalid_login
  check_parts (some key) none challenge = err invalid_login
  check_parts (some key) (some s) challenge =
      if verify key challenge s then ok tt else err challenge_failed

  unfoldable pub check_signature : Text → Text → Text → Result WebshooterError (Unit {0})
  check_signature public_key signature challenge =
      check_parts (from_public_key_der public_key) (from_slice signature) challenge

  -- The lock is let go between the reading of the challenge, in `read`, and the writing of the
  -- approved session, into `write`.
  unfoldable pub verify_challenge_and_issue_cookie :
      Text → Text → Text → Text → ℕ → Sessions → Sessions → Result WebshooterError (Sessions × Text)
  verify_challenge_and_issue_cookie id public_key signature cookie now read write = do
    challenge ← challenge_in (get id read)
    _ ← check_signature public_key signature challenge
    approve id cookie now write

  unfoldable pub login_inner :
      List User
      → LoginParams
      → Text
      → ℕ
      → Sessions
      → Sessions
      → Result WebshooterError (Sessions × Text)
  login_inner users (id_only id) cookie now read write = err invalid_login
  login_inner users (signed id signature) cookie now read write =
      if is_user id users
      then verify_challenge_and_issue_cookie id id signature cookie now read write
      else err not_authorized

abbrev keyed_token : Option (Text × Text) → Option Text
keyed_token none = none
keyed_token (some (k, v)) = if text_eq k (codes "token") then some v else none

-- The values of the headers `Cookie` that are readable text.
unfoldable pub find_token : List Text → Option Text
unfolding split_once
find_token [] = none
find_token (header ∷ headers) = elim (keyed_token (split_once header)) [
  | none ↦ find_token headers
  | some v ↦ some v
]

-- The approved sessions that are young enough, by the text of their cookies.
abbrev pub add_current :
    (Text → Text) → ℕ → Text → Session → List (Text × Text) → List (Text × Text)
add_current to_string now id (challenged challenge) current = current
add_current to_string now id (approved cookie created_at) current =
    if ltb cookie_ttl (now - created_at) then current else insert (to_string cookie) id current

unfoldable pub current_sessions :
    (Text → Text) → ℕ → Sessions → List (Text × Text) → List (Text × Text)
current_sessions to_string now [] current = current
current_sessions to_string now ((id, session) ∷ sessions) current =
    current_sessions to_string now sessions (add_current to_string now id session current)

abbrev pub find_user : Text → List User → Option User
find_user id [] = none
find_user id (u ∷ users) = if text_eq id u.verification_key then some u else find_user id users

abbrev pub or_error : {A : Type 0} → WebshooterError → Option A → Result WebshooterError A
or_error e none = err e
or_error e (some a) = ok a

-- `Authenticated::from_request`
unfoldable pub authenticated :
    (Text → Text) → List User → ℕ → Sessions → List Text → Result WebshooterError User
unfolding find_token current_sessions
authenticated to_string users now sessions headers = do
  token ← or_error no_authentication (find_token headers)
  id ← or_error not_authorized (get token (current_sessions to_string now sessions []))
  or_error no_associated_user (find_user id users)
