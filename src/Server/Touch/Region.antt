-- ===== src/Server/Touch/Region.antt =====
-- The region that `input_space` picks.
use webshooter.Base.{
  ℕ, ◌≡◌, refl, sym, arith, Bool, true, List, [], ◌∷◌, none, some, if◌then◌else◌, Bool-cases, inl,
  inr, ◌⊎◌, subst,
}
use webshooter.Base.Int.{ℤ}
use webshooter.Server.Touch.{
  InputRegion, is_same_shape, is_here, select, only, if_shape, by_position, input_space,
}

-- `r` is one of the regions.
abbrev pub IsIn : InputRegion → List InputRegion → Type 0
IsIn r [] = ⊥
IsIn r (s ∷ rs) = (r ≡ s) ⊎ IsIn r rs

select_sound :
    (p : InputRegion → Bool) (rs : List InputRegion) (r : InputRegion)
    → IsIn r (select p rs)
    → IsIn r rs × (p r ≡ true)
unfolding select
select_sound p [] r h = elim h [ ]
select_sound p (s ∷ rs) r h = elim (Bool-cases (p s)) [
  | inl e ↦
      let split : (r ≡ s) ⊎ IsIn r (select p rs) = rw e at h in
      elim split [
        | inl q ↦ (inl q, rw q e)
        | inr q ↦ let k = select_sound p rs r q in (inr k.0, k.1)
      ]
  | inr e ↦ let k = select_sound p rs r (rw e at h) in (inr k.0, k.1)
]

only-IsIn : (rs : List InputRegion) (r : InputRegion) → only rs ≡ some r → IsIn r rs
unfolding only
only-IsIn [] r h = cc
only-IsIn (s ∷ []) r h = inl (cc)
only-IsIn (s ∷ t ∷ rs) r h = cc

if_shape_sound :
    (frame : ℕ × ℕ) (s r : InputRegion)
    → if_shape frame s ≡ some r
    → (s ≡ r) × (is_same_shape frame s ≡ true)
unfolding if_shape
if_shape_sound frame s r h = ground arith

by_position_sound :
    (here many : List InputRegion) (frame : ℕ × ℕ) (r : InputRegion)
    → ((s : InputRegion) → IsIn s here → IsIn s many)
    → by_position here many frame ≡ some r
    → IsIn r many × (is_same_shape frame r ≡ true)
unfolding by_position
by_position_sound (s ∷ []) many frame r sub h =
    let k = if_shape_sound frame s r h in
    (
      subst (λ t. IsIn t many) k.0 (sub s (inl refl)),
      subst (λ t. is_same_shape frame t ≡ true) k.0 k.1,
    )
by_position_sound _ many frame r sub h = select_sound (is_same_shape frame) many r (only-IsIn _ r h)

-- The region that is picked is one of the device's own, and it has the shape of the frames.
pub input_space_sound :
    (regions : List InputRegion) (frame : ℕ × ℕ) (stream_pos : ℤ × ℤ) (r : InputRegion)
    → input_space regions frame stream_pos ≡ some r
    → IsIn r regions × (is_same_shape frame r ≡ true)
unfolding input_space
input_space_sound [] frame stream_pos r h = cc
input_space_sound (s ∷ []) frame stream_pos r h =
    let k = if_shape_sound frame s r h in
    (inl (sym k.0), subst (λ t. is_same_shape frame t ≡ true) k.0 k.1)
input_space_sound (s ∷ t ∷ rs) frame stream_pos r h =
    by_position_sound (select (is_here stream_pos) (s ∷ t ∷ rs)) (s ∷ t ∷ rs) frame r
      (λ u m. (select_sound (is_here stream_pos) (s ∷ t ∷ rs) u m).0) h

-- Where exactly one of several regions is at the stream's position, that region is picked if it
-- has the shape of the frames, and none is picked otherwise, whatever the other regions are.
pub input_space_at_position :
    (s t : InputRegion) (rs : List InputRegion) (frame : ℕ × ℕ) (stream_pos : ℤ × ℤ)
    (r : InputRegion)
    → select (is_here stream_pos) (s ∷ t ∷ rs) ≡ r ∷ []
    → input_space (s ∷ t ∷ rs) frame stream_pos ≡ (if is_same_shape frame r then some r else none)
unfolding input_space by_position if_shape
input_space_at_position s t rs frame stream_pos r e = rw e
