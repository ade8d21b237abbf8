-- ===== src/Shared/ClientDatagram/Coalesce/Order.antt =====
-- What `coalesce_input` of shared/src/client_datagram.rs never merges.
use webshooter.Base.{
  ◌≡◌, refl, sym, ◌∙◌, List, [], ◌∷◌, ◌++◌, reverse, append-nil, Bool-cases, inl, inr,
}
use webshooter.Shared.ClientDatagram.{ClientDatagram, touchscreen, gamepad, mouse_move, scroll}
use webshooter.Shared.ClientDatagram.Coalesce.{
  Queue, has_move, has_scroll, has_touch, set_touch, ends_in_gamepad, replace_newest,
  coalesce_input,
}
use webshooter.Shared.ClientDatagram.Coalesce.Views.{
  views, views-push_back, views-add_move, views-add_scroll, views-set_touch, views-replace_newest,
  views-reverse_write,
}

-- Everything but moves, scrolls, touch positions and gamepad snapshots.
abbrev pub kept_one : ClientDatagram → List ClientDatagram
kept_one (touchscreen i x y) = []
kept_one (gamepad s) = []
kept_one (mouse_move dx dy) = []
kept_one (scroll dx dy) = []
kept_one m = m ∷ []

abbrev pub kept : Queue → List ClientDatagram
kept = views kept_one

reverse-kept_one : (m : ClientDatagram) → reverse (kept_one m) ≡ kept_one m
reverse-kept_one (gamepad s) = refl
reverse-kept_one m = refl

-- Keys, buttons, releases, disconnects and control messages are never merged, dropped or
-- reordered: a message of these kinds goes behind all that are pending, and any other message
-- leaves them as they are.
pub kept-coalesce_input :
    (q : Queue) (m : ClientDatagram) → kept (coalesce_input q m) ≡ kept q ++ kept_one m
unfolding coalesce_input
kept-coalesce_input q (mouse_move dx dy) = elim (Bool-cases (has_move q)) [
  | inl e ↦ rw e (views-add_move kept_one (λ a b c d. refl) dx dy q ∙ sym (append-nil (kept q)))
  | inr e ↦ rw e (views-push_back kept_one q (mouse_move dx dy))
]
kept-coalesce_input q (scroll dx dy) = elim (Bool-cases (has_scroll q)) [
  | inl e ↦ rw e (views-add_scroll kept_one (λ a b c d. refl) dx dy q ∙ sym (append-nil (kept q)))
  | inr e ↦ rw e (views-push_back kept_one q (scroll dx dy))
]
kept-coalesce_input q (touchscreen i x y) = elim (Bool-cases (has_touch i (reverse q))) [
  | inl e ↦ rw e (
      views-reverse_write kept_one reverse-kept_one q (set_touch i x y (reverse q))
        (views-set_touch kept_one i (λ a b c d. refl) x y (reverse q))
      ∙ sym (append-nil (kept q)))
  | inr e ↦ rw e (views-push_back kept_one q (touchscreen i x y))
]
kept-coalesce_input q (gamepad s) = elim (Bool-cases (ends_in_gamepad s.id (reverse q))) [
  | inl e ↦ rw e (
      views-reverse_write kept_one reverse-kept_one q (replace_newest (gamepad s) (reverse q))
        (views-replace_newest kept_one (λ a b. refl) s (reverse q) e)
      ∙ sym (append-nil (kept q)))
  | inr e ↦ rw e (views-push_back kept_one q (gamepad s))
]
kept-coalesce_input q m = views-push_back kept_one q m
