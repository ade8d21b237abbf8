-- ===== src/Server/Keyboard/Taps.antt =====
-- A key event as a whole: `handle_event` of server/src/pipewire/eis_keyboard.rs.
use webshooter.Base.{
  ℕ, ◌≡◌, refl, ◌∙◌, arith, Bool, true, false, List, [], ◌∷◌, ◌++◌, ◌==◌, if◌then◌else◌, Bool-cases,
  Option-cases, inl, inr,
}
use webshooter.Base.Text.{Text}
use webshooter.Server.Keyboard.{
  Flags, EisKeyboardEvent, sync, handle_event, key_events, press_key, release_key,
}
use webshooter.Server.Keyboard.Codes.{key_leftctrl, key_leftshift, key_leftalt, key_leftmeta}
use webshooter.Server.Keyboard.Keys.{js_keycode_to_eis_key, is_modifier_code}
use webshooter.Server.Keyboard.Keys.Plain.{is_modifier_key, plain_key}
use webshooter.Server.Keyboard.Modifiers.{key_after, after, Shows, sync-Shows}

pub key_after-append :
    (k : ℕ) (held : Bool) (a b : List EisKeyboardEvent)
    → key_after k held (a ++ b) ≡ key_after k (key_after k held a) b
key_after-append k held [] b = refl
key_after-append k held (e ∷ a) b = key_after-append k (if e.key == k then e.press else held) a b

key_events-plain :
    (code : Text) (k : ℕ) (held : Bool)
    → is_modifier_key k ≡ true
    → key_after k held (key_events (is_modifier_code code) (js_keycode_to_eis_key code)) ≡ held
unfolding key_events
key_events-plain code k held m = elim (Bool-cases (is_modifier_code code)) [
  | inl e ↦ rw e refl
  | inr n ↦ elim (Option-cases (js_keycode_to_eis_key code)) [
    | inl e ↦ rw (n, e) refl
    | inr (key, e) ↦ rw (n, e) (other_key key (plain_key code key n e))
  ]
]
  where
    other_key :
        (key : ℕ)
        → is_modifier_key key ≡ false
        → key_after k held (press_key key ∷ release_key key ∷ []) ≡ held
    other_key key p = ground (arith, m, p)

after-handle_event :
    (code : Text) (modifiers current : Flags) (held : ℕ → Bool) (k : ℕ)
    → is_modifier_key k ≡ true
    → after held (handle_event code modifiers current).1 k ≡ after held (sync modifiers current).1 k
unfolding handle_event
after-handle_event code modifiers current held k m =
    key_after-append k (held k) (sync modifiers current).1
      (key_events (is_modifier_code code) (js_keycode_to_eis_key code))
    ∙ key_events-plain code k (key_after k (held k) (sync modifiers current).1) m

-- Where the compositor holds the modifier keys of the tracked flags, a key event of any code leaves
-- it holding exactly the modifier keys that the event reports: neither a modifier's own code nor
-- any other code of the table presses or lifts one of them besides.
pub handle_event-Shows :
    (code : Text) (modifiers current : Flags) (held : ℕ → Bool)
    → Shows current held
    → Shows modifiers (after held (handle_event code modifiers current).1)
      × ((handle_event code modifiers current).0 ≡ modifiers)
unfolding handle_event sync
handle_event-Shows code modifiers current held h =
    let s = (sync-Shows modifiers current held h).0 in
    let same = after-handle_event code modifiers current held in
    (
      record {
        ctrl = same key_leftctrl refl ∙ s.ctrl;
        shift = same key_leftshift refl ∙ s.shift;
        alt = same key_leftalt refl ∙ s.alt;
        meta = same key_leftmeta refl ∙ s.meta;
      },
      refl,
    )
