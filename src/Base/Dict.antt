-- ===== src/Base/Dict.antt =====
-- A `HashMap` whose keys are texts or bytes, as an association list in the order of the iteration.
use webshooter.Base.Tests.{if◌then◌else◌}
use webshooter.Base.Text.{Text, text_eq, text_eq_iff}
use mathlib.Core.Path.{◌≡◌, refl}
use mathlib.Core.Option.{Option, none, some}
use mathlib.Core.List.{List, [], ◌∷◌}
use native.Mathlib.Omega.{arith}

module _ {ℓ} {V : Type ℓ} where
  unfoldable pub get : Text → List (Text × V) → Option V
  get key [] = none
  get key ((name, value) ∷ entries) = if text_eq name key then some value else get key entries

  unfoldable pub remove : Text → List (Text × V) → List (Text × V)
  remove key [] = []
  remove key ((name, value) ∷ entries) =
      if text_eq name key then remove key entries else (name, value) ∷ remove key entries

  -- `HashMap::insert`: the new value takes the place of the old one.
  unfoldable pub insert : Text → V → List (Text × V) → List (Text × V)
  insert key new [] = (key, new) ∷ []
  insert key new ((name, value) ∷ entries) =
      if text_eq name key then (key, new) ∷ entries else (name, value) ∷ insert key new entries

  pub get-insert :
      (key wanted : Text) (new : V) (entries : List (Text × V))
      → get wanted (insert key new entries)
        ≡ (if text_eq key wanted then some new else get wanted entries)
  unfolding get insert
  get-insert key wanted new [] = refl
  get-insert key wanted new ((name, value) ∷ entries) = ground (
    arith,
    get-insert key wanted new entries,
    text_eq_iff name wanted,
    text_eq_iff name key,
    text_eq_iff key wanted,
  )

  pub get-remove :
      (key wanted : Text) (entries : List (Text × V))
      → get wanted (remove key entries) ≡ (if text_eq key wanted then none else get wanted entries)
  unfolding get remove
  get-remove key wanted [] = ground arith
  get-remove key wanted ((name, value) ∷ entries) = ground (
    arith,
    get-remove key wanted entries,
    text_eq_iff name wanted,
    text_eq_iff name key,
    text_eq_iff key wanted,
  )
