-- ===== src/Server/Keyboard.antt =====
-- server/src/pipewire/eis_keyboard.rs: key codes, modifiers and keyboard events.
pub mod Codes
pub mod Keys
pub mod Modifiers
pub mod Taps
use webshooter.Base.{
  ℕ, Bool, true, false, not, ◌&&◌, List, [], ◌∷◌, ◌++◌, map, reverse, Option, none, some,
  if◌then◌else◌,
}
use webshooter.Base.Text.{Text}
use webshooter.Shared.ClientDatagram
use Keys.{js_keycode_to_eis_key, is_modifier_code}
use Codes.{key_leftctrl, key_leftshift, key_leftalt, key_leftmeta}

abbrev pub Flags : Type 0
Flags = ClientDatagram.Modifiers

pub record EisKeyboardEvent : Type 0 where
  pub key : ℕ
  pub press : Bool

abbrev key_if : Bool → ℕ → List ℕ
key_if held key = if held then key ∷ [] else []

pub modifier_keycodes : Flags → List ℕ
modifier_keycodes m =
    key_if m.ctrl key_leftctrl
    ++ (key_if m.shift key_leftshift ++ (key_if m.alt key_leftalt ++ key_if m.meta key_leftmeta))

abbrev pub no_flags : Flags
no_flags = record { shift = false; ctrl = false; alt = false; meta = false }

-- `a & !b` on the flags.
abbrev pub minus : Flags → Flags → Flags
minus a b = record {
  shift = a.shift && not b.shift;
  ctrl = a.ctrl && not b.ctrl;
  alt = a.alt && not b.alt;
  meta = a.meta && not b.meta;
}

abbrev pub release_key : ℕ → EisKeyboardEvent
release_key k = record { key = k; press = false }

abbrev pub press_key : ℕ → EisKeyboardEvent
press_key k = record { key = k; press = true }

-- `ModifierState` is the flags that are held.
unfoldable pub sync : Flags → Flags → Flags × List EisKeyboardEvent
unfolding modifier_keycodes
sync new_mods current = (
  new_mods,
  map release_key (reverse (modifier_keycodes (minus current new_mods)))
      ++ map press_key (modifier_keycodes (minus new_mods current)),
)

unfoldable pub release_all : Flags → Flags × List EisKeyboardEvent
unfolding modifier_keycodes
release_all current = (no_flags, map release_key (reverse (modifier_keycodes current)))

-- The events of the key itself.
key_events : Bool → Option ℕ → List EisKeyboardEvent
key_events true key = []
key_events false none = []
key_events false (some key) = press_key key ∷ release_key key ∷ []

-- `KeyboardState::handle_event` on the modifier state; the timeout is the runtime's.
unfoldable pub handle_event : Text → Flags → Flags → Flags × List EisKeyboardEvent
unfolding sync key_events
handle_event keycode modifiers current =
    let r = sync modifiers current in
    (r.0, r.1 ++ key_events (is_modifier_code keycode) (js_keycode_to_eis_key keycode))
