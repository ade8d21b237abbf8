-- ===== src/Server/Lock.antt =====
-- server/src/session_lock.rs: what logind says about the lock of the session, and the wait for it.
use webshooter.Base.{
  ℕ, ◌≡◌, ◌≢◌, ◌⊎◌, refl, arith, Bool, true, false, ◌&&◌, ◌||◌, List, [], ◌∷◌, ◌++◌, reverse,
  Option, none, some, ◌==◌, leb, if◌then◌else◌, codes, All, ap, ◌∙◌,
}
use webshooter.Base.Text.{Text, text_eq, split_once}

pub data LockState : Type 0 where
  unlocked : LockState
  locked : LockState
  unknown : LockState

unfoldable pub can_approve : LockState → Bool
can_approve unlocked = true
can_approve locked = false
can_approve unknown = true

-- `char::is_whitespace`
abbrev is_whitespace : ℕ → Bool
is_whitespace c =
    (leb 9 c && leb c 13)
    || (c == 0x20)
    || (c == 0x85)
    || (c == 0xa0)
    || (c == 0x1680)
    || (leb 0x2000 c && leb c 0x200a)
    || (c == 0x2028)
    || (c == 0x2029)
    || (c == 0x202f)
    || (c == 0x205f)
    || (c == 0x3000)

trim_start : Text → Text
trim_start [] = []
trim_start (c ∷ s) = elim (is_whitespace c) [ true ↦ trim_start s | false ↦ c ∷ s ]

unfoldable pub trim : Text → Text
unfolding trim_start
trim s = reverse (trim_start (reverse (trim_start s)))

unfoldable pub hint : Text → LockState
unfolding text_eq
hint value =
    if text_eq value (codes "yes") || text_eq value (codes "true")
    then locked
    else if text_eq value (codes "no") || text_eq value (codes "false")
    then unlocked
    else if text_eq value (codes "na") || text_eq value (codes "n/a")
    then unlocked
    else unknown

-- What a line says: nothing unless its key is `LockedHint`.
abbrev pub keyed_hint : Option (Text × Text) → Option LockState
keyed_hint none = none
keyed_hint (some (key, value)) =
    if text_eq (trim key) (codes "LockedHint") then some (hint (trim value)) else none

abbrev pub or_else : Option LockState → LockState → LockState
or_else none later = later
or_else (some state) later = state

-- Over `output.lines()`.
unfoldable pub parse_locked_hint : List Text → LockState
unfolding hint trim split_once text_eq
parse_locked_hint [] = unknown
parse_locked_hint (line ∷ lines) = or_else (keyed_hint (split_once line)) (parse_locked_hint lines)

-- One round of the wait: what is read, and whether the cancellation comes before the next reading.
-- The wait is over when the rounds are.
unfoldable pub wait_until_unlocked : List (LockState × Bool) → Option LockState
unfolding can_approve
wait_until_unlocked [] = none
wait_until_unlocked ((state, cancelled) ∷ rounds) =
    let rest = wait_until_unlocked rounds in
    if can_approve state then some state else if cancelled then some locked else rest

-- The session counts as locked exactly where a line with the key `LockedHint` says so and no line
-- before it has that key.
abbrev pub SaysLocked : List Text → Type 0
SaysLocked lines =
    (before : List Text) × (line : Text) × (after : List Text) × (lines ≡ before ++ line ∷ after)
    × All (λ l. keyed_hint (split_once l) ≡ none) before
    × (keyed_hint (split_once line) ≡ some locked)

hint_found :
    (state : LockState) (later : LockState)
    → or_else (some state) later ≡ locked
    → some state ≡ some locked
hint_found state later h = ap (λ s. some s) h

-- Where the output of logind is read as a locked session, its first line with the key `LockedHint`
-- says so: every other output lets a capture go on.
pub parse_locked_hint-SaysLocked :
    (lines : List Text) → parse_locked_hint lines ≡ locked → SaysLocked lines
unfolding parse_locked_hint
parse_locked_hint-SaysLocked [] h = cc
parse_locked_hint-SaysLocked (line ∷ lines) h =
    go (keyed_hint (split_once line)) refl h (λ k. parse_locked_hint-SaysLocked lines k)
  where
    go :
        (o : Option LockState)
        → keyed_hint (split_once line) ≡ o
        → or_else o (parse_locked_hint lines) ≡ locked
        → (parse_locked_hint lines ≡ locked → SaysLocked lines)
        → SaysLocked (line ∷ lines)
    go none e k next =
        let (before, found, after, split, others, says) = next k in
        (line ∷ before, found, after, ap (λ l. line ∷ l) split, (e, others), says)
    go (some state) e k next =
        ([], line, lines, refl, tt, e ∙ hint_found state (parse_locked_hint lines) k)

-- A wait with a reading that can approve, or with a cancellation, in one of its rounds ends, and it
-- ends with a state that can approve or with a cancellation.
pub wait_ends :
    (state : LockState) (cancelled : Bool) (rounds later : List (LockState × Bool))
    → (can_approve state ≡ true) ⊎ (cancelled ≡ true)
    → wait_until_unlocked (rounds ++ (state, cancelled) ∷ later) ≢ none
unfolding wait_until_unlocked
wait_ends state cancelled [] later h = ground (arith, h)
wait_ends state cancelled ((s, c) ∷ rounds) later h =
    ground (arith, wait_ends state cancelled rounds later h)
