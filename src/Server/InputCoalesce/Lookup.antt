-- ===== src/Server/InputCoalesce/Lookup.antt =====
-- What the buffer of server/src/pipewire/input_coalesce.rs holds under each key.
use webshooter.Base.{
  ◌≡◌, refl, arith, true, false, [], ◌∷◌, ◌++◌, none, some, if◌then◌else◌, Bool-cases, inl, inr,
  subst,
}
use webshooter.Shared.ClientDatagram.{ClientDatagram}
use webshooter.Server.InputCoalesce.{
  InputKey, same_key, Pending, merge, shift_remove, lookup, update,
}

-- Each key stands once.
abbrev pub Distinct : Pending → Type 0
Distinct [] = Unit {0}
Distinct ((k, m) ∷ p) = (lookup k p ≡ none) × Distinct p

pub same_key_iff : (a b : InputKey) → same_key a b ≡ true → a ≡ b
same_key_iff a b h = ground arith

pub same_key_refl : (a : InputKey) → same_key a a ≡ true
same_key_refl a = ground arith

pub lookup-shift_remove-other :
    (key k : InputKey) (p : Pending)
    → same_key k key ≡ false
    → lookup key (shift_remove k p) ≡ lookup key p
unfolding lookup shift_remove
lookup-shift_remove-other key k [] ne = refl
lookup-shift_remove-other key k ((j, m) ∷ p) ne =
    ground (arith, lookup-shift_remove-other key k p ne, ne, same_key_iff j k, same_key_iff j key)

pub lookup-shift_remove-same :
    (key : InputKey) (p : Pending) → Distinct p → lookup key (shift_remove key p) ≡ none
unfolding lookup shift_remove
lookup-shift_remove-same key [] d = refl
lookup-shift_remove-same key ((j, m) ∷ p) d = elim (Bool-cases (same_key j key)) [
  | inl e ↦ rw e (subst (λ k. lookup k p ≡ none) (same_key_iff j key e) d.0)
  | inr e ↦ rw (e, e) (lookup-shift_remove-same key p d.1)
]

pub lookup-append :
    (key k : InputKey) (m : ClientDatagram) (p : Pending)
    → lookup k p ≡ none
    → lookup key (p ++ (k, m) ∷ []) ≡ (if same_key k key then some m else lookup key p)
unfolding lookup
lookup-append key k m [] h = refl
lookup-append key k m ((j, n) ∷ p) h =
    ground
      (arith, h, same_key_iff k key, same_key_iff j key, same_key_refl key, lookup-append key k m p)

pub lookup-update :
    (key k : InputKey) (msg : ClientDatagram) (p : Pending) (old : ClientDatagram)
    → lookup k p ≡ some old
    → lookup key (update k msg p) ≡ (if same_key k key then some (merge old msg) else lookup key p)
unfolding lookup update
lookup-update key k msg [] old h = ground (arith, h)
lookup-update key k msg ((j, n) ∷ p) old h = ground (
  arith,
  h,
  same_key_iff j k,
  same_key_iff j key,
  same_key_iff k key,
  same_key_refl k,
  same_key_refl key,
  lookup-update key k msg p old,
)

pub lookup-shift_remove-none :
    (key k : InputKey) (p : Pending) → lookup key p ≡ none → lookup key (shift_remove k p) ≡ none
unfolding lookup shift_remove
lookup-shift_remove-none key k [] h = refl
lookup-shift_remove-none key k ((j, m) ∷ p) h = ground (arith, h, lookup-shift_remove-none key k p)

pub lookup-update-none :
    (key k : InputKey) (msg : ClientDatagram) (p : Pending)
    → lookup key p ≡ none
    → lookup key (update k msg p) ≡ none
unfolding lookup update
lookup-update-none key k msg [] h = refl
lookup-update-none key k msg ((j, m) ∷ p) h = ground (arith, h, lookup-update-none key k msg p)
