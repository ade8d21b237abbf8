-- ===== src/Server/Keyboard/Modifiers.antt =====
-- The modifier keys that the compositor sees as held.
use webshooter.Base.{ℕ, ◌≡◌, arith, Bool, List, [], ◌∷◌, ◌==◌, if◌then◌else◌}
use webshooter.Server.Keyboard.{Flags, EisKeyboardEvent, sync, release_all, modifier_keycodes}
use webshooter.Server.Keyboard.Codes.{key_leftctrl, key_leftshift, key_leftalt, key_leftmeta}

-- The compositor: whether a key is down after an event, and after a run of events.
abbrev pub key_after : ℕ → Bool → List EisKeyboardEvent → Bool
key_after k held [] = held
key_after k held (e ∷ es) = key_after k (if e.key == k then e.press else held) es

-- The compositor holds exactly the modifier keys of these flags.
pub record Shows (m : Flags) (held : ℕ → Bool) : Type 0 where
  pub ctrl : held key_leftctrl ≡ m.ctrl
  pub shift : held key_leftshift ≡ m.shift
  pub alt : held key_leftalt ≡ m.alt
  pub meta : held key_leftmeta ≡ m.meta

abbrev pub after : (ℕ → Bool) → List EisKeyboardEvent → ℕ → Bool
after held es k = key_after k (held k) es

-- Where the compositor holds the keys of the tracked flags, the events of `sync` make it hold
-- exactly the keys of the new flags, and those of `release_all` make it hold none.
pub sync-Shows :
    (new_mods current : Flags) (held : ℕ → Bool)
    → Shows current held
    → Shows (sync new_mods current).0 (after held (sync new_mods current).1)
      × Shows (release_all current).0 (after held (release_all current).1)
unfolding sync release_all modifier_keycodes
sync-Shows new_mods current held h = (
  record {
    ctrl = ground (arith, h.ctrl);
    shift = ground (arith, h.shift);
    alt = ground (arith, h.alt);
    meta = ground (arith, h.meta);
  },
  record {
    ctrl = ground (arith, h.ctrl);
    shift = ground (arith, h.shift);
    alt = ground (arith, h.alt);
    meta = ground (arith, h.meta);
  },
)
