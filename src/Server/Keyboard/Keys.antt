-- ===== src/Server/Keyboard/Keys.antt =====
-- The table of server/src/pipewire/eis_keyboard.rs from the browser's codes to Linux key codes.
pub mod Plain
use webshooter.Base.{
  ℕ, Bool, true, false, ◌&&◌, List, [], ◌∷◌, Option, none, some, ◌==◌, if◌then◌else◌, codes,
}
use webshooter.Base.Text.{Text, text_eq}
use Prim.Native.String.{String}
use webshooter.Server.Keyboard.Codes.{
  key_a, key_b, key_c, key_d, key_e, key_f, key_g, key_h, key_i, key_j, key_k, key_l, key_m, key_n,
  key_o, key_p, key_q, key_r, key_s, key_t, key_u, key_v, key_w, key_x, key_y, key_z, key_0, key_1,
  key_2, key_3, key_4, key_5, key_6, key_7, key_8, key_9, key_enter, key_esc, key_backspace,
  key_tab, key_space, key_delete, key_insert, key_home, key_end, key_pageup, key_pagedown, key_left,
  key_up, key_right, key_down, key_f1, key_f2, key_f3, key_f4, key_f5, key_f6, key_f7, key_f8,
  key_f9, key_f10, key_f11, key_f12, key_semicolon, key_equal, key_comma, key_minus, key_dot,
  key_slash, key_grave, key_leftbrace, key_backslash, key_backslash2, key_apostrophe, key_capslock,
  key_numlock, key_scrolllock, key_sysrq, key_pause, key_kp0, key_kp1, key_kp2, key_kp3, key_kp4,
  key_kp5, key_kp6, key_kp7, key_kp8, key_kp9, key_kpplus, key_kpminus, key_kpslash, key_kpasterisk,
  key_kpenter, key_kpdot,
}

-- The arms of the match, in order.
abbrev pub key_table : List (String × ℕ)
key_table =
    ("KeyA", key_a)
    ∷ ("KeyB", key_b)
    ∷ ("KeyC", key_c)
    ∷ ("KeyD", key_d)
    ∷ ("KeyE", key_e)
    ∷ ("KeyF", key_f)
    ∷ ("KeyG", key_g)
    ∷ ("KeyH", key_h)
    ∷ ("KeyI", key_i)
    ∷ ("KeyJ", key_j)
    ∷ ("KeyK", key_k)
    ∷ ("KeyL", key_l)
    ∷ ("KeyM", key_m)
    ∷ ("KeyN", key_n)
    ∷ ("KeyO", key_o)
    ∷ ("KeyP", key_p)
    ∷ ("KeyQ", key_q)
    ∷ ("KeyR", key_r)
    ∷ ("KeyS", key_s)
    ∷ ("KeyT", key_t)
    ∷ ("KeyU", key_u)
    ∷ ("KeyV", key_v)
    ∷ ("KeyW", key_w)
    ∷ ("KeyX", key_x)
    ∷ ("KeyY", key_y)
    ∷ ("KeyZ", key_z)
    ∷ ("Digit0", key_0)
    ∷ ("Digit1", key_1)
    ∷ ("Digit2", key_2)
    ∷ ("Digit3", key_3)
    ∷ ("Digit4", key_4)
    ∷ ("Digit5", key_5)
    ∷ ("Digit6", key_6)
    ∷ ("Digit7", key_7)
    ∷ ("Digit8", key_8)
    ∷ ("Digit9", key_9)
    ∷ ("Enter", key_enter)
    ∷ ("Escape", key_esc)
    ∷ ("Backspace", key_backspace)
    ∷ ("Tab", key_tab)
    ∷ ("Space", key_space)
    ∷ ("Delete", key_delete)
    ∷ ("Insert", key_insert)
    ∷ ("Home", key_home)
    ∷ ("End", key_end)
    ∷ ("PageUp", key_pageup)
    ∷ ("PageDown", key_pagedown)
    ∷ ("ArrowLeft", key_left)
    ∷ ("ArrowUp", key_up)
    ∷ ("ArrowRight", key_right)
    ∷ ("ArrowDown", key_down)
    ∷ ("F1", key_f1)
    ∷ ("F2", key_f2)
    ∷ ("F3", key_f3)
    ∷ ("F4", key_f4)
    ∷ ("F5", key_f5)
    ∷ ("F6", key_f6)
    ∷ ("F7", key_f7)
    ∷ ("F8", key_f8)
    ∷ ("F9", key_f9)
    ∷ ("F10", key_f10)
    ∷ ("F11", key_f11)
    ∷ ("F12", key_f12)
    ∷ ("Semicolon", key_semicolon)
    ∷ ("Equal", key_equal)
    ∷ ("Comma", key_comma)
    ∷ ("Minus", key_minus)
    ∷ ("Period", key_dot)
    ∷ ("Slash", key_slash)
    ∷ ("Backquote", key_grave)
    ∷ ("BracketLeft", key_leftbrace)
    ∷ ("Backslash", key_backslash)
    ∷ ("BracketRight", key_backslash2)
    ∷ ("Quote", key_apostrophe)
    ∷ ("CapsLock", key_capslock)
    ∷ ("NumLock", key_numlock)
    ∷ ("ScrollLock", key_scrolllock)
    ∷ ("PrintScreen", key_sysrq)
    ∷ ("Pause", key_pause)
    ∷ ("Numpad0", key_kp0)
    ∷ ("Numpad1", key_kp1)
    ∷ ("Numpad2", key_kp2)
    ∷ ("Numpad3", key_kp3)
    ∷ ("Numpad4", key_kp4)
    ∷ ("Numpad5", key_kp5)
    ∷ ("Numpad6", key_kp6)
    ∷ ("Numpad7", key_kp7)
    ∷ ("Numpad8", key_kp8)
    ∷ ("Numpad9", key_kp9)
    ∷ ("NumpadAdd", key_kpplus)
    ∷ ("NumpadSubtract", key_kpminus)
    ∷ ("NumpadDivide", key_kpslash)
    ∷ ("NumpadMultiply", key_kpasterisk)
    ∷ ("NumpadEnter", key_kpenter)
    ∷ ("NumpadDecimal", key_kpdot)
    ∷ []

lookup_text : Text → List (String × ℕ) → Option ℕ
unfolding text_eq
lookup_text code [] = none
lookup_text code ((literal, key) ∷ rest) =
    let later = lookup_text code rest in if text_eq code (codes literal) then some key else later

unfoldable pub js_keycode_to_eis_key : Text → Option ℕ
unfolding lookup_text
js_keycode_to_eis_key code = lookup_text code key_table

abbrev pub modifier_codes : List String
modifier_codes =
    "ShiftLeft" ∷ "ShiftRight" ∷ "ControlLeft" ∷ "ControlRight" ∷ "AltLeft" ∷ "AltRight"
    ∷ "MetaLeft" ∷ "MetaRight" ∷ []

is_one_of : Text → List String → Bool
unfolding text_eq
is_one_of code [] = false
is_one_of code (literal ∷ rest) = if text_eq code (codes literal) then true else is_one_of code rest

unfoldable pub is_modifier_code : Text → Bool
unfolding is_one_of
is_modifier_code code = is_one_of code modifier_codes
