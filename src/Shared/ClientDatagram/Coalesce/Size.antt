-- ===== src/Shared/ClientDatagram/Coalesce/Size.antt =====
-- The number of entries under `coalesce_input` of shared/src/client_datagram.rs.
use webshooter.Base.{
  ℕ, suc, ◌≡◌, ◌≤◌, refl, ap, ◌∙◌, arith, [], ◌∷◌, reverse, Bool-cases, inl, inr, length,
  length-append,
}
use mathlib.Core.List.{reverse-cons}
use webshooter.Base.Int.{ℤ}
use webshooter.Shared.ClientDatagram.{ClientDatagram, touchscreen, gamepad, mouse_move, scroll}
use webshooter.Shared.ClientDatagram.Coalesce.{
  coalesce_input, Queue, has_move, add_move, has_scroll, add_scroll, has_touch, set_touch,
  ends_in_gamepad, replace_newest, push_back,
}

length-add_move : (dx dy : ℤ) (q : Queue) → length (add_move dx dy q) ≡ length q
unfolding add_move
length-add_move dx dy [] = refl
length-add_move dx dy (mouse_move px py ∷ q) = refl
length-add_move dx dy (m ∷ q) = ap suc (length-add_move dx dy q)

length-add_scroll : (dx dy : ℤ) (q : Queue) → length (add_scroll dx dy q) ≡ length q
unfolding add_scroll
length-add_scroll dx dy [] = refl
length-add_scroll dx dy (scroll px py ∷ q) = refl
length-add_scroll dx dy (m ∷ q) = ap suc (length-add_scroll dx dy q)

length-set_touch : (i x y : ℕ) (q : Queue) → length (set_touch i x y q) ≡ length q
unfolding set_touch
length-set_touch i x y [] = refl
length-set_touch i x y (touchscreen j a b ∷ q) = ground (arith, length-set_touch i x y q)
length-set_touch i x y (m ∷ q) = ap suc (length-set_touch i x y q)

length-replace_newest : (m : ClientDatagram) (q : Queue) → length (replace_newest m q) ≡ length q
unfolding replace_newest
length-replace_newest m [] = refl
length-replace_newest m (p ∷ q) = refl

length-push_back : (q : Queue) (m : ClientDatagram) → length (push_back q m) ≡ suc (length q)
length-push_back q m = omega (arith, length-append q (m ∷ []))

length-reverse : (q : Queue) → length (reverse q) ≡ length q
length-reverse [] = refl
length-reverse (m ∷ q) =
    ap length (reverse-cons m q) ∙ length-push_back (reverse q) m ∙ ap suc (length-reverse q)

length-rewrite : (q r : Queue) → length r ≡ length (reverse q) → length (reverse r) ≤ suc (length q)
length-rewrite q r e = omega (arith, e, length-reverse q, length-reverse r)

-- Folding a message in adds at most one entry.
pub length-coalesce_input :
    (q : Queue) (m : ClientDatagram) → length (coalesce_input q m) ≤ suc (length q)
unfolding coalesce_input
length-coalesce_input q (mouse_move dx dy) = elim (Bool-cases (has_move q)) [
  | inl e ↦ rw e (omega (arith, length-add_move dx dy q))
  | inr e ↦ rw e (omega (arith, length-push_back q (mouse_move dx dy)))
]
length-coalesce_input q (scroll dx dy) = elim (Bool-cases (has_scroll q)) [
  | inl e ↦ rw e (omega (arith, length-add_scroll dx dy q))
  | inr e ↦ rw e (omega (arith, length-push_back q (scroll dx dy)))
]
length-coalesce_input q (touchscreen i x y) = elim (Bool-cases (has_touch i (reverse q))) [
  | inl e ↦
      rw e (length-rewrite q (set_touch i x y (reverse q)) (length-set_touch i x y (reverse q)))
  | inr e ↦ rw e (omega (arith, length-push_back q (touchscreen i x y)))
]
length-coalesce_input q (gamepad s) = elim (Bool-cases (ends_in_gamepad s.id (reverse q))) [
  | inl e ↦ rw e (
      length-rewrite q (replace_newest (gamepad s) (reverse q))
        (length-replace_newest (gamepad s) (reverse q)))
  | inr e ↦ rw e (omega (arith, length-push_back q (gamepad s)))
]
length-coalesce_input q m = omega (arith, length-push_back q m)
