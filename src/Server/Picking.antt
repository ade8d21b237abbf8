-- ===== src/Server/Picking.antt =====
-- server/src/pipewire/video.rs: the choice among the streams that the portal offers. The relative
-- difference of two ratios is a fraction here, |w * rh - h * rw| / (h * rw), and fractions are compared
-- with the divisions multiplied out.
pub mod Best
use webshooter.Base.{
  ℕ, zero, suc, ◌+◌, ◌-◌, ◌*◌, ◌≡◌, ◌≤◌, ◌<◌, ◌⊎◌, inl, inr, refl, arith, Bool, true, false, ◌&&◌,
  List, [], ◌∷◌, Option, none, some, ltb, leb, if◌then◌else◌, In, All, if_intro,
}
use mathlib.Core.Option
use native.Mathlib.Nat.{mul-le-mul_right, le_of_mul-le-mul_right}
use webshooter.Base.Int.{ℤ, pos, negsuc, pos_part, ◌==ℤ◌}

-- The sizes on offer are pairs of `i32`.
abbrev pub Offer : Type 0
Offer = ℤ × ℤ

abbrev pub same_size : ℕ × ℕ → Offer → Bool
same_size requested offer = offer.0 ==ℤ pos requested.0 && offer.1 ==ℤ pos requested.1

abbrev pub enumerate : ℕ → List Offer → List (ℕ × Offer)
enumerate i [] = []
enumerate i (offer ∷ rest) = (i, offer) ∷ enumerate (i + 1) rest

abbrev pub select : {A : Type 0} → (A → Bool) → List A → List A
select p [] = []
select p (a ∷ l) = if p a then a ∷ select p l else select p l

abbrev pub head : {A : Type 0} → List A → Option A
head [] = none
head (a ∷ l) = some a

abbrev gap : ℕ → ℕ → ℕ
gap a b = a - b + (b - a)

abbrev is_positive : ℤ → Bool
is_positive (pos n) = ltb 0 n
is_positive (negsuc n) = false

-- The numerator and the denominator of the relative difference.
abbrev pub over : ℕ × ℕ → Offer → ℕ
over requested offer = gap (pos_part offer.0 * requested.1) (pos_part offer.1 * requested.0)

abbrev pub under : ℕ × ℕ → Offer → ℕ
under requested offer = pos_part offer.1 * requested.0

-- A size that can be compared, and differs by 2 per cent at most. A request with an empty side is
-- near nothing: its ratio is 0, infinite or not a number. The fractions are exact: where a shape is
-- off by 2 per cent to the last digits of an `f64`, the rounding there may decide otherwise.
unfoldable pub near : ℕ × ℕ → Offer → Bool
near requested offer =
    is_positive offer.0
    && is_positive offer.1
    && ltb 0 requested.0
    && ltb 0 requested.1
    && leb (50 * over requested offer) (under requested offer)

abbrev pub closer : ℕ × ℕ → Offer → Offer → Bool
closer requested a b =
    ltb (over requested a * under requested b) (over requested b * under requested a)

-- `min_by`: the first of the closest ones.
unfoldable pub least : ℕ × ℕ → ℕ × Offer → List (ℕ × Offer) → ℕ × Offer
least requested best [] = best
least requested best (c ∷ rest) =
    least requested (if closer requested c.1 best.1 then c else best) rest

unfoldable pub min_by : ℕ × ℕ → List (ℕ × Offer) → Option (ℕ × Offer)
unfolding least
min_by requested [] = none
min_by requested (c ∷ rest) = some (least requested c rest)

-- The exact match, if there is one, or else the closest.
unfoldable pub exact_or : Option (ℕ × Offer) → Option (ℕ × Offer) → Option ℕ
exact_or (some c) closest = some c.0
exact_or none closest = Option.map (λ c. c.0) closest

unfoldable pub best_stream_index : ℕ × ℕ → List Offer → Option ℕ
unfolding min_by exact_or
best_stream_index requested offered =
    let all = enumerate 0 offered in
    exact_or (head (select (λ c. same_size requested c.1) all))
      (min_by requested (select (λ c. near requested c.1) all))
