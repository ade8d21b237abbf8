-- ===== src/Server/InputCoalesce/Sound.antt =====
-- Every operation of the buffer of server/src/pipewire/input_coalesce.rs keeps it sound.
use webshooter.Base.{
  ◌≡◌, refl, sym, ap, ◌∙◌, arith, Bool, false, [], ◌∷◌, ◌++◌, Option, none, some, if◌then◌else◌,
  Bool-cases, inl, inr, subst,
}
use webshooter.Shared.ClientDatagram.{ClientDatagram}
use webshooter.Server.InputCoalesce.{
  InputKey, same_key, key_of, terminates, Pending, merge, shift_remove, lookup, update,
  remove_ended, fold_in, push_keyed, push,
}
use webshooter.Server.InputCoalesce.Lookup.{
  Distinct, same_key_iff, same_key_refl, lookup-shift_remove-other, lookup-shift_remove-same,
  lookup-append, lookup-update, lookup-shift_remove-none, lookup-update-none,
}

-- Each key stands once, and is the key of its datagram.
abbrev pub Keyed : Pending → Type 0
Keyed [] = Unit {0}
Keyed ((k, m) ∷ p) = (key_of m ≡ some k) × Keyed p

pub record IsSound (p : Pending) : Type 0 where
  pub distinct : Distinct p
  pub keyed : Keyed p

Distinct-shift_remove : (k : InputKey) (p : Pending) → Distinct p → Distinct (shift_remove k p)
unfolding shift_remove
Distinct-shift_remove k [] d = d
Distinct-shift_remove k ((j, m) ∷ p) d = elim (Bool-cases (same_key j k)) [
  | inl e ↦ rw e d.1
  | inr e ↦ rw e (lookup-shift_remove-none j k p d.0, Distinct-shift_remove k p d.1)
]

Distinct-append :
    (k : InputKey) (m : ClientDatagram) (p : Pending)
    → lookup k p ≡ none
    → Distinct p
    → Distinct (p ++ (k, m) ∷ [])
unfolding lookup
Distinct-append k m [] h d = (refl, tt)
Distinct-append k m ((j, n) ∷ p) h d = (
  ground (arith, h, d.0, same_key_iff k j, same_key_refl k, lookup-append j k m p),
  Distinct-append k m p (ground (arith, h)) d.1,
)

Distinct-update :
    (k : InputKey) (msg : ClientDatagram) (p : Pending) → Distinct p → Distinct (update k msg p)
unfolding update
Distinct-update k msg [] d = d
Distinct-update k msg ((j, n) ∷ p) d = elim (Bool-cases (same_key j k)) [
  | inl e ↦ rw e d
  | inr e ↦ rw e (lookup-update-none j k msg p d.0, Distinct-update k msg p d.1)
]

key_of-merge :
    (k : InputKey) (m msg : ClientDatagram)
    → key_of m ≡ some k
    → key_of msg ≡ some k
    → key_of (merge m msg) ≡ some k
unfolding key_of merge
key_of-merge k m msg h e = ground (arith, h, e)

Keyed-shift_remove : (k : InputKey) (p : Pending) → Keyed p → Keyed (shift_remove k p)
unfolding shift_remove
Keyed-shift_remove k [] d = d
Keyed-shift_remove k ((j, m) ∷ p) d = elim (Bool-cases (same_key j k)) [
  | inl e ↦ rw e d.1
  | inr e ↦ rw e (d.0, Keyed-shift_remove k p d.1)
]

Keyed-append :
    (k : InputKey) (m : ClientDatagram) (p : Pending)
    → key_of m ≡ some k
    → Keyed p
    → Keyed (p ++ (k, m) ∷ [])
Keyed-append k m [] e d = (e, tt)
Keyed-append k m ((j, n) ∷ p) e d = (d.0, Keyed-append k m p e d.1)

Keyed-update :
    (k : InputKey) (msg : ClientDatagram) (p : Pending)
    → key_of msg ≡ some k
    → Keyed p
    → Keyed (update k msg p)
unfolding update
Keyed-update k msg [] e d = d
Keyed-update k msg ((j, n) ∷ p) e d = elim (Bool-cases (same_key j k)) [
  | inl s ↦ rw s (key_of-merge j n msg d.0 (e ∙ ap some (sym (same_key_iff j k s))), d.1)
  | inr s ↦ rw s (d.0, Keyed-update k msg p e d.1)
]

fold_in-IsSound :
    (old : Option ClientDatagram) (k : InputKey) (msg : ClientDatagram) (p : Pending)
    → key_of msg ≡ some k
    → lookup k p ≡ old
    → IsSound p
    → IsSound (fold_in old k msg p)
fold_in-IsSound none k msg p e l h = record {
  distinct = Distinct-append k msg p l h.distinct;
  keyed = Keyed-append k msg p e h.keyed;
}
fold_in-IsSound (some old) k msg p e l h = record {
  distinct = Distinct-update k msg p h.distinct;
  keyed = Keyed-update k msg p e h.keyed;
}

remove_ended-IsSound :
    (ended : Option InputKey) (p : Pending) → IsSound p → IsSound (remove_ended ended p)
remove_ended-IsSound none p h = h
remove_ended-IsSound (some k) p h = record {
  distinct = Distinct-shift_remove k p h.distinct;
  keyed = Keyed-shift_remove k p h.keyed;
}

push_keyed-IsSound :
    (key : Option InputKey) (msg : ClientDatagram) (p : Pending)
    → key_of msg ≡ key
    → IsSound p
    → IsSound (push_keyed key msg p)
push_keyed-IsSound none msg p e h = h
push_keyed-IsSound (some k) msg p e h =
    let kept = remove_ended (terminates k) p in
    fold_in-IsSound (lookup k kept) k msg kept e refl (remove_ended-IsSound (terminates k) p h)

-- After any datagram, each key of the buffer stands once, and with a datagram that has this key.
pub push-IsSound : (msg : ClientDatagram) (p : Pending) → IsSound p → IsSound (push msg p)
unfolding push
push-IsSound msg p h = push_keyed-IsSound (key_of msg) msg p refl h

-- What a key holds after a push, by what it and the key of the pushed datagram held.
abbrev pub merged : Option ClientDatagram → ClientDatagram → ClientDatagram
merged none msg = msg
merged (some old) msg = merge old msg

abbrev pub is_ended : Option InputKey → InputKey → Bool
is_ended none key = false
is_ended (some ended) key = same_key ended key

abbrev pub lookup_after :
    Option InputKey → ClientDatagram → InputKey → Pending → Option ClientDatagram
lookup_after none msg key p = lookup key p
lookup_after (some k) msg key p =
    if same_key k key
    then some (merged (lookup k p) msg)
    else if is_ended (terminates k) key
    then none
    else lookup key p

pub lookup-remove_ended :
    (ended : Option InputKey) (key : InputKey) (p : Pending)
    → Distinct p
    → lookup key (remove_ended ended p) ≡ (if is_ended ended key then none else lookup key p)
lookup-remove_ended none key p d = refl
lookup-remove_ended (some k) key p d = elim (Bool-cases (same_key k key)) [
  | inl e ↦ rw e (
      subst (λ j. lookup key (shift_remove j p) ≡ none) (sym (same_key_iff k key e))
        (lookup-shift_remove-same key p d))
  | inr e ↦ rw e (lookup-shift_remove-other key k p e)
]

terminates-other : (k : InputKey) → is_ended (terminates k) k ≡ false
unfolding terminates
terminates-other k = ground arith

lookup-fold_in :
    (old : Option ClientDatagram) (key k : InputKey) (msg : ClientDatagram) (p : Pending)
    → lookup k p ≡ old
    → lookup key (fold_in old k msg p)
      ≡ (if same_key k key then some (merged old msg) else lookup key p)
lookup-fold_in none key k msg p e = lookup-append key k msg p e
lookup-fold_in (some old) key k msg p e = lookup-update key k msg p old e

lookup-remove_own :
    (k : InputKey) (p : Pending)
    → Distinct p
    → lookup k (remove_ended (terminates k) p) ≡ lookup k p
lookup-remove_own k p d =
    ground (arith, lookup-remove_ended (terminates k) k p d, terminates-other k)

lookup-push_keyed :
    (key : Option InputKey) (msg : ClientDatagram) (j : InputKey) (p : Pending)
    → Distinct p
    → lookup j (push_keyed key msg p) ≡ lookup_after key msg j p
lookup-push_keyed none msg j p d = refl
lookup-push_keyed (some k) msg j p d =
    rw
      (
        lookup-fold_in (lookup k (remove_ended (terminates k) p)) j k msg
            (remove_ended (terminates k) p) refl,
        lookup-remove_own k p d,
        lookup-remove_ended (terminates k) j p d,
      )
      refl

-- A push gives its own key the merge with what the key held, or the new datagram; it empties the
-- key that a release or a disconnect ends; and every other key holds what it held.
pub lookup-push :
    (msg : ClientDatagram) (key : InputKey) (p : Pending)
    → IsSound p
    → lookup key (push msg p) ≡ lookup_after (key_of msg) msg key p
unfolding push
lookup-push msg key p h = lookup-push_keyed (key_of msg) msg key p h.distinct
