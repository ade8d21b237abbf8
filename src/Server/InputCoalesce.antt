-- ===== src/Server/InputCoalesce.antt =====
-- server/src/pipewire/input_coalesce.rs: the buffer of one session's input, an `IndexMap` in the
-- order of insertion, and the budget that all sessions drain under.
pub mod Budget
pub mod Lookup
pub mod Sound
pub mod Fingers
pub mod Drain
use webshooter.Base.{
  ℕ, suc, Bool, true, false, List, [], ◌∷◌, ◌++◌, map, Option, none, some, ◌==◌, if◌then◌else◌,
  length, take, drop, min,
}
use webshooter.Base.Int.{saturating_add_16, saturating_add_32}
use webshooter.Shared.ClientDatagram.{ClientDatagram}
use webshooter.Server.Keyboard.Keys.{js_keycode_to_eis_key}

-- A modifier or an unmapped code is the key 0.
pub data InputKey : Type 0 where
  mouse_move : InputKey
  scroll : InputKey
  mouse_button : ℕ → InputKey
  keyboard : ℕ → InputKey
  touchscreen : ℕ → InputKey
  touchscreen_release : ℕ → InputKey
  gamepad : ℕ → InputKey
  gamepad_disconnect : ℕ → InputKey

abbrev pub same_key : InputKey → InputKey → Bool
same_key mouse_move mouse_move = true
same_key scroll scroll = true
same_key (mouse_button a) (mouse_button b) = a == b
same_key (keyboard a) (keyboard b) = a == b
same_key (touchscreen a) (touchscreen b) = a == b
same_key (touchscreen_release a) (touchscreen_release b) = a == b
same_key (gamepad a) (gamepad b) = a == b
same_key (gamepad_disconnect a) (gamepad_disconnect b) = a == b
same_key _ _ = false

abbrev key_or_0 : Option ℕ → ℕ
key_or_0 none = 0
key_or_0 (some key) = key

-- `InputKey::of`
unfoldable pub key_of : ClientDatagram → Option InputKey
key_of (ClientDatagram.mouse_move dx dy) = some mouse_move
key_of (ClientDatagram.scroll dx dy) = some scroll
key_of (ClientDatagram.mouse_button button pressed) = some (mouse_button button)
key_of (ClientDatagram.keyboard keycode modifiers) =
    some (keyboard (key_or_0 (js_keycode_to_eis_key keycode)))
key_of (ClientDatagram.touchscreen index x y) = some (touchscreen index)
key_of (ClientDatagram.touchscreen_release index) = some (touchscreen_release index)
key_of (ClientDatagram.gamepad s) = some (gamepad s.id)
key_of (ClientDatagram.gamepad_disconnect id) = some (gamepad_disconnect id)
key_of _ = none

unfoldable pub terminates : InputKey → Option InputKey
terminates (touchscreen_release index) = some (touchscreen index)
terminates (gamepad_disconnect id) = some (gamepad id)
terminates _ = none

abbrev pub Pending : Type 0
Pending = List (InputKey × ClientDatagram)

unfoldable pub merge : ClientDatagram → ClientDatagram → ClientDatagram
merge (ClientDatagram.mouse_move dx dy) (ClientDatagram.mouse_move nx ny) =
    ClientDatagram.mouse_move (saturating_add_16 dx nx) (saturating_add_16 dy ny)
merge (ClientDatagram.scroll dx dy) (ClientDatagram.scroll nx ny) =
    ClientDatagram.scroll (saturating_add_32 dx nx) (saturating_add_32 dy ny)
merge pending incoming = incoming

-- `IndexMap::shift_remove`, `get_mut` with the write of `merge`, and `contains`.
unfoldable pub shift_remove : InputKey → Pending → Pending
shift_remove key [] = []
shift_remove key ((k, m) ∷ p) =
    let rest = shift_remove key p in if same_key k key then p else (k, m) ∷ rest

unfoldable pub lookup : InputKey → Pending → Option ClientDatagram
lookup key [] = none
lookup key ((k, m) ∷ p) = let rest = lookup key p in if same_key k key then some m else rest

unfoldable pub update : InputKey → ClientDatagram → Pending → Pending
unfolding merge
update key msg [] = []
update key msg ((k, m) ∷ p) =
    let rest = update key msg p in if same_key k key then (k, merge m msg) ∷ p else (k, m) ∷ rest

abbrev pub remove_ended : Option InputKey → Pending → Pending
remove_ended none p = p
remove_ended (some ended) p = shift_remove ended p

abbrev pub fold_in : Option ClientDatagram → InputKey → ClientDatagram → Pending → Pending
fold_in none key msg p = p ++ (key, msg) ∷ []
fold_in (some existing) key msg p = update key msg p

abbrev pub push_keyed : Option InputKey → ClientDatagram → Pending → Pending
push_keyed none msg p = p
push_keyed (some key) msg p =
    let kept = remove_ended (terminates key) p in fold_in (lookup key kept) key msg kept

unfoldable pub push : ClientDatagram → Pending → Pending
unfolding key_of terminates shift_remove lookup update
push msg p = push_keyed (key_of msg) msg p

abbrev pub values : Pending → List ClientDatagram
values [] = []
values ((k, m) ∷ p) = m ∷ values p

-- The entries that stay, and the datagrams that are drained.
unfoldable pub drain_front : ℕ → Pending → Pending × List ClientDatagram
drain_front limit p = let end = min limit (length p) in (drop end p, values (take end p))
