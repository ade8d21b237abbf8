-- ===== src/Server/Ipc.antt =====
-- `IPCMessage::parse_args` of server/src/ipc.rs: the commands that a running server takes.
pub mod Number
pub mod Words
use webshooter.Base.{
  ℕ, ◌+◌, ◌*◌, ◌-◌, ◌^◌, Bool, true, false, ◌&&◌, List, [], ◌∷◌, map, Option, none, some, ◌==◌, ltb,
  leb, if◌then◌else◌, codes,
}
use webshooter.Base.Text.{Text, text_eq}

pub data IpcMessage : Type 0 where
  exit : IpcMessage
  authorise : Option ℕ → IpcMessage
  deauthorise : Option ℕ → IpcMessage
  release_mouse : IpcMessage
  fullscreen_toggle : Option ℕ → IpcMessage

abbrev is_digit : ℕ → Bool
is_digit c = leb b'0' c && leb c b'9'

-- The digits after `value`, with the checks of `from_str` for a 64-bit `usize`.
pub parse_digits : ℕ → Text → Option ℕ
parse_digits value [] = some value
parse_digits value (c ∷ rest) =
    let next = value * 10 + (c - b'0') in
    let later = parse_digits next rest in if is_digit c && ltb next (2 ^ 64) then later else none

abbrev some_digits : Text → Option ℕ
some_digits [] = none
some_digits (c ∷ rest) = parse_digits 0 (c ∷ rest)

-- `str::parse::<usize>`: one plus sign may stand before the digits.
unfoldable pub parse_usize : Text → Option ℕ
unfolding parse_digits
parse_usize [] = none
parse_usize (c ∷ rest) = if c == b'+' then some_digits rest else parse_digits 0 (c ∷ rest)

unfoldable pub canonical : Text → Text
unfolding text_eq
canonical cmd =
    if text_eq cmd (codes "toggle_fullscreen")
    then codes "fullscreen"
    else if text_eq cmd (codes "fullscreen_toggle")
    then codes "fullscreen"
    else if text_eq cmd (codes "mouse_release")
    then codes "release_mouse"
    else cmd

unfoldable pub parse_word : Text → Option IpcMessage
unfolding text_eq
parse_word cmd =
    if text_eq cmd (codes "exit")
    then some exit
    else if text_eq cmd (codes "authorise")
    then some (authorise none)
    else if text_eq cmd (codes "deauthorise")
    then some (deauthorise none)
    else if text_eq cmd (codes "release_mouse")
    then some release_mouse
    else if text_eq cmd (codes "fullscreen")
    then some (fullscreen_toggle none)
    else none

abbrev with_index : (Option ℕ → IpcMessage) → Option ℕ → Option IpcMessage
with_index message none = none
with_index message (some n) = some (message (some n))

unfoldable pub parse_two : Text → Text → Option IpcMessage
unfolding text_eq parse_usize
parse_two cmd n =
    if text_eq cmd (codes "authorise")
    then with_index (λ i. authorise i) (parse_usize n)
    else if text_eq cmd (codes "deauthorise")
    then with_index (λ i. deauthorise i) (parse_usize n)
    else if text_eq cmd (codes "fullscreen")
    then with_index (λ i. fullscreen_toggle i) (parse_usize n)
    else none

abbrev normalised : List Text → List Text
normalised [] = []
normalised (cmd ∷ args) = canonical cmd ∷ args

abbrev dispatch : List Text → Option IpcMessage
dispatch (cmd ∷ []) = parse_word cmd
dispatch (cmd ∷ n ∷ []) = parse_two cmd n
dispatch args = none

-- The error is always the same, the text of `usage`, so that it is `none` here. `to_lowercase` is
-- the standard library's, over the tables of Unicode.
unfoldable pub parse_args : (Text → Text) → List Text → Option IpcMessage
unfolding canonical parse_word parse_two
parse_args to_lowercase args = dispatch (normalised (map to_lowercase args))
