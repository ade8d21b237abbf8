-- ===== src/Server/Gamepad.antt =====
-- server/src/pipewire/gamepad.rs: the virtual gamepads of a session, with
-- `gamepad_client_buttons_to_inputtino` of shared/src/client_datagram.rs. A `Joypad` of the
-- inputtino library is the list of the calls that were made to it.
use webshooter.Base.{
  arith, ◌≡◌, ◌∙◌, ap, refl, Bool-cases, ==_iff, sym, subst, inl, inr, ℕ, ◌/◌, ◌%◌, ◌^◌, Bool, List,
  [], ◌∷◌, ◌++◌, Option, none, some, ◌==◌, if◌then◌else◌,
}
use webshooter.Base.Int.{ℤ}
use webshooter.Shared.ClientDatagram.{GamepadMotion, Snapshot}
use webshooter.Shared.ClientDatagram.Axis.{F32}
use mathlib.Core.Option
use Prim.Native.Nat.{bit_or}

-- `mask & (1 << bit) != 0`
abbrev pub is_set : ℕ → ℕ → Bool
is_set mask bit = mask / 2 ^ bit % 2 == 1

-- The client's bits, and what each sets in the mask of inputtino.
abbrev pub button_values : List (ℕ × ℕ)
button_values =
    (0, 0x1000)
    ∷ (1, 0x2000)
    ∷ (2, 0x4000)
    ∷ (3, 0x8000)
    ∷ (4, 0x0100)
    ∷ (5, 0x0200)
    ∷ (8, 0x0020)
    ∷ (9, 0x0010)
    ∷ (10, 0x0040)
    ∷ (11, 0x0080)
    ∷ (12, 0x0001)
    ∷ (13, 0x0002)
    ∷ (14, 0x0004)
    ∷ (15, 0x0008)
    ∷ (16, 0x0400)
    ∷ (17, 0x100000)
    ∷ (18, 0x200000)
    ∷ []

pub set_all : ℕ → List (ℕ × ℕ) → ℕ → ℕ
set_all mask [] out = out
set_all mask ((bit, val) ∷ rest) out =
    set_all mask rest (if is_set mask bit then bit_or out val else out)

unfoldable pub gamepad_client_buttons_to_inputtino : ℕ → ℕ
unfolding set_all
gamepad_client_buttons_to_inputtino mask = set_all mask button_values 0

pub data JoypadCall : Type 0 where
  set_pressed : ℕ → JoypadCall
  set_left_stick : ℤ → ℤ → JoypadCall
  set_right_stick : ℤ → ℤ → JoypadCall
  set_triggers : ℤ → ℤ → JoypadCall
  set_acceleration : F32 → F32 → F32 → JoypadCall
  set_gyroscope : F32 → F32 → F32 → JoypadCall

abbrev pub Joypad : Type 0
Joypad = List JoypadCall

-- `GamepadManager`: the devices by their ids.
abbrev pub GamepadManager : Type 0
GamepadManager = List (ℕ × Joypad)

unfoldable pub get_pad : ℕ → GamepadManager → Option Joypad
get_pad id [] = none
get_pad id ((i, pad) ∷ pads) = if i == id then some pad else get_pad id pads

-- Calls on the device of an id, which the manager holds.
unfoldable pub call_pad : ℕ → List JoypadCall → GamepadManager → GamepadManager
call_pad id calls [] = []
call_pad id calls ((i, pad) ∷ pads) =
    if i == id then (i, pad ++ calls) ∷ pads else (i, pad) ∷ call_pad id calls pads

abbrev pub motion_calls : Option GamepadMotion → List JoypadCall
motion_calls none = []
motion_calls (some m) =
    set_acceleration m.accel_x m.accel_y m.accel_z ∷ set_gyroscope m.gyro_x m.gyro_y m.gyro_z ∷ []

-- What a snapshot sets.
abbrev pub snapshot_calls : Snapshot → List JoypadCall
snapshot_calls s =
    set_pressed (gamepad_client_buttons_to_inputtino s.buttons)
    ∷ set_left_stick s.lx s.ly
    ∷ set_right_stick s.rx s.ry
    ∷ set_triggers s.lt s.rt
    ∷ motion_calls s.motion

-- `update`: the device is created on first use, where `creates` says that it can be; `none` is the
-- panic of the `expect` in `create`.
update_held : Option Joypad → (ℕ → Bool) → Snapshot → GamepadManager → Option GamepadManager
update_held (some pad) creates s pads = some (call_pad s.id (snapshot_calls s) pads)
update_held none creates s pads =
    if creates s.id then some (call_pad s.id (snapshot_calls s) ((s.id, []) ∷ pads)) else none

unfoldable pub update : (ℕ → Bool) → Snapshot → GamepadManager → Option GamepadManager
unfolding update_held
update creates s pads = update_held (get_pad s.id pads) creates s pads

unfoldable pub remove : ℕ → GamepadManager → GamepadManager
remove id [] = []
remove id ((i, pad) ∷ pads) = if i == id then remove id pads else (i, pad) ∷ remove id pads

get_pad-call_pad :
    (id j : ℕ) (calls : List JoypadCall) (pads : GamepadManager)
    → get_pad j (call_pad id calls pads)
      ≡ (if id == j then Option.map (λ pad. pad ++ calls) (get_pad j pads) else get_pad j pads)
unfolding get_pad call_pad
get_pad-call_pad id j calls [] = ground arith
get_pad-call_pad id j calls ((i, pad) ∷ pads) = ground (arith, get_pad-call_pad id j calls pads)

abbrev or_new : Option Joypad → Joypad
or_new none = []
or_new (some pad) = pad

abbrev get_pad_or : GamepadManager → ℕ → Option GamepadManager → Option Joypad
get_pad_or pads j none = get_pad j pads
get_pad_or pads j (some after) = get_pad j after

abbrev called : ℕ → ℕ → List JoypadCall → GamepadManager → Option Joypad
called id j calls pads = if id == j then some (or_new (get_pad j pads) ++ calls) else get_pad j pads

held_called :
    (id j : ℕ) (calls : List JoypadCall) (pads : GamepadManager) (pad : Joypad)
    → get_pad id pads ≡ some pad
    → get_pad j (call_pad id calls pads) ≡ called id j calls pads
held_called id j calls pads pad held =
    get_pad-call_pad id j calls pads ∙ (elim (Bool-cases (id == j)) [
      | inl e ↦ rw (e, subst (λ n. get_pad n pads ≡ some pad) ((==_iff id j).0 e) held) refl
      | inr e ↦ rw e refl
    ])

new_called :
    (id j : ℕ) (calls : List JoypadCall) (pads : GamepadManager)
    → get_pad id pads ≡ none
    → get_pad j (call_pad id calls ((id, []) ∷ pads)) ≡ called id j calls pads
unfolding get_pad
new_called id j calls pads held =
    get_pad-call_pad id j calls ((id, []) ∷ pads) ∙ (elim (Bool-cases (id == j)) [
      | inl e ↦ rw (e, subst (λ n. get_pad n pads ≡ none) ((==_iff id j).0 e) held) refl
      | inr e ↦ rw e refl
    ])

update_held-called :
    (o : Option Joypad) (creates : ℕ → Bool) (s : Snapshot) (pads after : GamepadManager) (j : ℕ)
    → get_pad s.id pads ≡ o
    → update_held o creates s pads ≡ some after
    → get_pad j after ≡ called s.id j (snapshot_calls s) pads
unfolding update_held
update_held-called (some pad) creates s pads after j held k =
    sym (ap (get_pad_or pads j) k) ∙ held_called s.id j (snapshot_calls s) pads pad held
update_held-called none creates s pads after j held k = elim (Bool-cases (creates s.id)) [
  | inl e ↦
      sym (
        ap (get_pad_or pads j) (
          sym (
            ap
              (λ b. if b then some (call_pad s.id (snapshot_calls s) ((s.id, []) ∷ pads)) else none)
              e)
          ∙ k))
      ∙ new_called s.id j (snapshot_calls s) pads held
  | inr e ↦ cc (
    ap (λ b. if b then some (call_pad s.id (snapshot_calls s) ((s.id, []) ∷ pads)) else none) e,
    k,
  )
]

-- A snapshot goes to the device of its id, behind the calls that were made to it before, or to a
-- new one where the id has none; every other device is left as it is.
pub get_pad-update :
    (creates : ℕ → Bool) (s : Snapshot) (pads after : GamepadManager) (j : ℕ)
    → update creates s pads ≡ some after
    → get_pad j after
      ≡ (if s.id == j then some (or_new (get_pad j pads) ++ snapshot_calls s) else get_pad j pads)
unfolding update
get_pad-update creates s pads after j h =
    update_held-called (get_pad s.id pads) creates s pads after j refl h

-- A disconnect removes the device of its id, and no other.
pub get_pad-remove :
    (id j : ℕ) (pads : GamepadManager)
    → get_pad j (remove id pads) ≡ (if id == j then none else get_pad j pads)
unfolding get_pad remove
get_pad-remove id j [] = ground arith
get_pad-remove id j ((i, pad) ∷ pads) = ground (arith, get_pad-remove id j pads)
