-- ===== src/Shared/ClientDatagram/Coalesce/Motion.antt =====
-- Pointer motion under `coalesce_input` of shared/src/client_datagram.rs.
use webshooter.Base.{
  ◌≡◌, refl, sym, ap, ◌∙◌, true, List, [], ◌∷◌, ◌++◌, reverse, append-nil, Bool-cases, inl, inr,
}
use mathlib.Core.Path.{ap₂}
use webshooter.Base.Int.{
  ℤ, pos, ◌+ℤ◌, +ℤ_comm, +ℤ_assoc, zero-+ℤ, +ℤ-zero, IsI16, saturating_add_16,
  saturating_add_16-eq-+ℤ,
}
use webshooter.Shared.ClientDatagram.{ClientDatagram, touchscreen, gamepad, mouse_move, scroll}
use webshooter.Shared.ClientDatagram.Coalesce.{
  Queue, has_move, add_move, has_scroll, add_scroll, has_touch, set_touch, ends_in_gamepad,
  replace_newest, coalesce_input,
}
use webshooter.Shared.ClientDatagram.Coalesce.Views.{
  views, views-push_back, views-add_scroll, views-set_touch, views-replace_newest,
  views-reverse_write,
}

-- The moves of a queue, and the way that they make together.
abbrev pub move_of : ClientDatagram → List (ℤ × ℤ)
move_of (mouse_move dx dy) = (dx, dy) ∷ []
move_of m = []

abbrev pub moves : Queue → List (ℤ × ℤ)
moves = views move_of

abbrev pub total : List (ℤ × ℤ) → ℤ × ℤ
total [] = (pos 0, pos 0)
total ((dx, dy) ∷ l) = (dx +ℤ (total l).0, dy +ℤ (total l).1)

-- The pending move, if there is one, and the new one have a sum that an `i16` can hold.
abbrev Fits : ℤ → ℤ → List (ℤ × ℤ) → Type 0
Fits dx dy [] = Unit {0}
Fits dx dy ((px, py) ∷ l) = IsI16 (px +ℤ dx) × IsI16 (py +ℤ dy)

abbrev pub NoSaturation : Queue → ClientDatagram → Type 0
NoSaturation q (mouse_move dx dy) = Fits dx dy (moves q)
NoSaturation q m = Unit {0}

abbrev pub add_pair : ℤ × ℤ → ℤ × ℤ → ℤ × ℤ
add_pair a b = (a.0 +ℤ b.0, a.1 +ℤ b.1)

reverse-move_of : (m : ClientDatagram) → reverse (move_of m) ≡ move_of m
reverse-move_of (mouse_move dx dy) = refl
reverse-move_of m = refl

total-append : (a b : List (ℤ × ℤ)) → total (a ++ b) ≡ add_pair (total a) (total b)
total-append [] b = ap₂ (λ x y. (x, y)) (sym (zero-+ℤ _)) (sym (zero-+ℤ _))
total-append ((dx, dy) ∷ a) b =
    cc (total-append a b, +ℤ_assoc dx (total a).0 (total b).0, +ℤ_assoc dy (total a).1 (total b).1)

-- The sum of the pending move and the new one, in front of the other moves.
sum_in_front : (p d t : ℤ) → IsI16 (p +ℤ d) → saturating_add_16 p d +ℤ t ≡ p +ℤ t +ℤ d
sum_in_front p d t h =
    cc (saturating_add_16-eq-+ℤ p d h, +ℤ_assoc p d t, +ℤ_comm d t, +ℤ_assoc p t d)

total-add_move :
    (dx dy : ℤ) (q : Queue)
    → has_move q ≡ true
    → Fits dx dy (moves q)
    → total (moves (add_move dx dy q)) ≡ add_pair (total (moves q)) (dx, dy)
unfolding has_move add_move
total-add_move dx dy [] e h = cc
total-add_move dx dy (mouse_move px py ∷ q) e h =
    ap₂ (λ x y. (x, y)) (sum_in_front px dx _ h.0) (sum_in_front py dy _ h.1)
total-add_move dx dy (m ∷ q) e h = total-add_move dx dy q e h

total-same :
    (p q : Queue) → moves p ≡ moves q → total (moves p) ≡ add_pair (total (moves q)) (total [])
total-same p q e = ap total (e ∙ sym (append-nil (moves q))) ∙ total-append (moves q) []

-- As long as no sum leaves the range of an `i16`, the pending moves always add up to all the
-- motion that was folded in: none is lost and none is counted twice.
pub total-coalesce_input :
    (q : Queue) (m : ClientDatagram)
    → NoSaturation q m
    → total (moves (coalesce_input q m)) ≡ add_pair (total (moves q)) (total (move_of m))
unfolding coalesce_input
total-coalesce_input q (mouse_move dx dy) h = elim (Bool-cases (has_move q)) [
  | inl e ↦ rw (e, +ℤ-zero dx, +ℤ-zero dy) (total-add_move dx dy q e h)
  | inr e ↦ rw (e, views-push_back move_of q (mouse_move dx dy)) (total-append _ _)
]
total-coalesce_input q (scroll dx dy) h = elim (Bool-cases (has_scroll q)) [
  | inl e ↦
      rw e (total-same (add_scroll dx dy q) q (views-add_scroll move_of (λ a b c d. refl) dx dy q))
  | inr e ↦ rw (e, views-push_back move_of q (scroll dx dy)) (total-append _ _)
]
total-coalesce_input q (touchscreen i x y) h = elim (Bool-cases (has_touch i (reverse q))) [
  | inl e ↦ rw e (
      total-same (reverse (set_touch i x y (reverse q))) q (
        views-reverse_write move_of reverse-move_of q (set_touch i x y (reverse q))
          (views-set_touch move_of i (λ a b c d. refl) x y (reverse q))))
  | inr e ↦ rw (e, views-push_back move_of q (touchscreen i x y)) (total-append _ _)
]
total-coalesce_input q (gamepad s) h = elim (Bool-cases (ends_in_gamepad s.id (reverse q))) [
  | inl e ↦ rw e (
      total-same (reverse (replace_newest (gamepad s) (reverse q))) q (
        views-reverse_write move_of reverse-move_of q (replace_newest (gamepad s) (reverse q))
          (views-replace_newest move_of (λ a b. refl) s (reverse q) e)))
  | inr e ↦ rw (e, views-push_back move_of q (gamepad s)) (total-append _ _)
]
total-coalesce_input q m h = rw (views-push_back move_of q m) (total-append _ _)
