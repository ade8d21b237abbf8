-- ===== src/Server/Auth/Register.antt =====
-- Registration in server/src/auth.rs: the wait for the operator's answer over IPC.
pub mod Approval
use webshooter.Base.{
  ℕ, zero, suc, ◌+◌, ◌-◌, Bool, true, false, not, ◌&&◌, List, [], ◌∷◌, ◌++◌, Option, none, some,
  ◌==◌, leb, if◌then◌else◌, codes, length, take, drop, reverse,
}
use webshooter.Base.Text.{Text, text_eq}
use webshooter.Base.Result.{Result, ok, err, ◌>>=◌}
use webshooter.Server.Ipc.{
  IpcMessage, authorise, exit, deauthorise, release_mouse, fullscreen_toggle,
}
use webshooter.Server.Auth.Sessions.{
  WebshooterError, invalid_login, Session, challenged, approved, Sessions, User, is_user,
  verify_challenge_and_issue_cookie,
}

unfoldable pub get_challenged_sessions : Sessions → List Text
get_challenged_sessions [] = []
get_challenged_sessions ((id, challenged c) ∷ sessions) = id ∷ get_challenged_sessions sessions
get_challenged_sessions ((id, approved cookie at) ∷ sessions) = get_challenged_sessions sessions

abbrev trim_start : Text → Text
trim_start [] = []
trim_start (c ∷ s) = elim (c == b'=') [ true ↦ trim_start s | false ↦ c ∷ s ]

-- The text that stands for an id, with the encoder of base64.
unfoldable pub format_id : (Text → Text) → Text → Text
format_id encode id =
    let part = if leb 32 (length id) then take 8 (drop 24 id) else id in
    reverse (trim_start (reverse (trim_start (encode part))))

abbrev menu_lines : (Text → Text) → (ℕ → Text) → ℕ → List Text → Text
menu_lines encode decimal n [] = []
menu_lines encode decimal n (id ∷ sessions) =
    codes "\n"
    ++ (decimal n
        ++ (codes ": " ++ (format_id encode id ++ menu_lines encode decimal (n + 1) sessions)))

-- The lines are joined by line feeds.
unfoldable pub session_menu : (Text → Text) → (ℕ → Text) → List Text → Text
unfolding format_id
session_menu encode decimal sessions =
    codes "Please select a session:" ++ menu_lines encode decimal 0 sessions

-- What the loop does with a message.
pub data Reply : Type 0 where
  accept : Text → Reply
  menu : List Text → Reply
  forward : Reply
  invalid : Reply

-- `find` over the numbered sessions.
abbrev find_at : ℕ → Text → ℕ → List Text → Option Text
find_at n id index [] = none
find_at n id index (s ∷ sessions) =
    if index == n && text_eq id s then some s else find_at n id (index + 1) sessions

abbrev pub reply_found : Option Text → Reply
reply_found none = forward
reply_found (some session) = accept session

unfoldable pub reply : Text → IpcMessage → List Text → Reply
reply id (authorise none) [] = menu []
reply id (authorise none) (s ∷ []) = accept id
reply id (authorise none) (s ∷ t ∷ sessions) = menu (s ∷ t ∷ sessions)
reply id (authorise (some n)) sessions = reply_found (find_at n id 0 sessions)
reply id exit sessions = invalid
reply id (deauthorise i) sessions = invalid
reply id release_mouse sessions = invalid
reply id (fullscreen_toggle i) sessions = invalid

-- One round of the loop: a failed receive, or a message with the sessions that are challenged then,
-- and whether its answer, or the sending back, succeeds.
pub data Round : Type 0 where
  broken : Round
  received : IpcMessage → Sessions → Bool → Round

pub data Waited : Type 0 where
  authorised : Waited
  timed_out : Waited
  failed : Waited

abbrev pub is_accept : Reply → Bool
is_accept (accept s) = true
is_accept (menu sessions) = false
is_accept forward = false
is_accept invalid = false

-- The rounds up to the timeout.
unfoldable pub wait_for_operator : Text → List Round → Waited
wait_for_operator id [] = timed_out
wait_for_operator id (broken ∷ rounds) = failed
wait_for_operator id (received message sessions answered ∷ rounds) =
    let rest = wait_for_operator id rounds in
    if not answered
    then failed
    else if is_accept (reply id message (get_challenged_sessions sessions))
    then authorised
    else rest

-- The error of `register_inner`: one of the login, or that of the wait or of writing the
-- configuration, by status code.
pub data RegisterError : Type 0 where
  login_error : WebshooterError → RegisterError
  status_code : ℕ → RegisterError

-- What a registration leaves: the users of the configuration, if it stored one, the sessions, and
-- the cookie or the error.
pub record Registration : Type 0 where
  pub stored : Option (List User)
  pub sessions : Sessions
  pub result : Result RegisterError Text

abbrev pub refused : RegisterError → Sessions → Registration
refused e write = record { stored = none; sessions = write; result = err e }

abbrev pub finish :
    Bool → List User → User → Result WebshooterError (Sessions × Text) → Sessions → Registration
finish saved users user (err e) write = refused (login_error e) write
finish true users user (ok (sessions, cookie)) write = record {
  stored = some (user ∷ users);
  sessions = sessions;
  result = ok cookie;
}
finish false users user (ok (sessions, cookie)) write = refused (status_code 500) sessions

abbrev pub when_authorised : Waited → Registration → Sessions → Registration
when_authorised authorised next write = next
when_authorised timed_out next write = refused (status_code 403) write
when_authorised failed next write = refused (status_code 500) write

module _ {Key Signature : Type 0} (from_public_key_der : Text → Option Key)
    (from_slice : Text → Option Signature) (verify : Key → Text → Signature → Bool) where
  -- `users` is the copy of the configuration that is taken before the wait; the user is added to
  -- that copy, which is then stored. `saved` says whether it could be written.
  unfoldable pub register_inner :
      List User
      → Text
      → Text
      → Text
      → List Round
      → Text
      → ℕ
      → Bool
      → Sessions
      → Sessions
      → Registration
  register_inner users id signature display_name rounds cookie now saved read write =
      if is_user id users
      then refused (login_error invalid_login) write
      else when_authorised (wait_for_operator id rounds)
          (finish saved users (record { verification_key = id; display_name = display_name })
            (verify_challenge_and_issue_cookie from_public_key_der from_slice verify id id signature
              cookie now read write)
            write)
          write
