-- ===== src/Shared/ClientDatagram/Coalesce/Views.antt =====
-- Views of a queue that are read off entry by entry, and what the writes of `coalesce_input` in
-- shared/src/client_datagram.rs do to them.
use webshooter.Base.{
  ℕ, ◌≡◌, refl, sym, ap, ◌∙◌, true, subst, ==_iff, List, [], ◌∷◌, ◌++◌, reverse, append-nil,
  append_assoc, ◌==◌, Bool-cases, inl, inr,
}
use webshooter.Base.Int.{ℤ}
use mathlib.Core.List.{reverse-append, reverse-cons, reverse-reverse}
use webshooter.Shared.ClientDatagram.{
  ClientDatagram, Snapshot, touchscreen, gamepad, mouse_move, scroll,
}
use webshooter.Shared.ClientDatagram.Coalesce.{
  Queue, add_move, add_scroll, set_touch, ends_in_gamepad, replace_newest, push_back,
}

module _ {ℓ} {B : Type ℓ} (v : ClientDatagram → List B) where
  abbrev pub views : Queue → List B
  views [] = []
  views (m ∷ q) = v m ++ views q

  pub views-append : (p q : Queue) → views (p ++ q) ≡ views p ++ views q
  views-append [] q = refl
  views-append (m ∷ p) q =
      ap (λ l. v m ++ l) (views-append p q) ∙ sym (append_assoc (v m) (views p) (views q))

  pub views-push_back : (q : Queue) (m : ClientDatagram) → views (push_back q m) ≡ views q ++ v m
  views-push_back q m = views-append q (m ∷ []) ∙ ap (λ l. views q ++ l) (append-nil (v m))

  pub views-add_move :
      ((a b c d : ℤ) → v (mouse_move a b) ≡ v (mouse_move c d))
      → (dx dy : ℤ) (q : Queue) → views (add_move dx dy q) ≡ views q
  unfolding add_move
  views-add_move h dx dy [] = refl
  views-add_move h dx dy (mouse_move px py ∷ q) = ap (λ l. l ++ views q) (h _ _ _ _)
  views-add_move h dx dy (m ∷ q) = ap (λ l. v m ++ l) (views-add_move h dx dy q)

  pub views-add_scroll :
      ((a b c d : ℤ) → v (scroll a b) ≡ v (scroll c d))
      → (dx dy : ℤ) (q : Queue) → views (add_scroll dx dy q) ≡ views q
  unfolding add_scroll
  views-add_scroll h dx dy [] = refl
  views-add_scroll h dx dy (scroll px py ∷ q) = ap (λ l. l ++ views q) (h _ _ _ _)
  views-add_scroll h dx dy (m ∷ q) = ap (λ l. v m ++ l) (views-add_scroll h dx dy q)

  pub views-set_touch :
      (index : ℕ)
      → ((a b c d : ℕ) → v (touchscreen index a b) ≡ v (touchscreen index c d))
      → (x y : ℕ) (r : Queue) → views (set_touch index x y r) ≡ views r
  unfolding set_touch
  views-set_touch index h x y [] = refl
  views-set_touch index h x y (touchscreen i px py ∷ r) = elim (Bool-cases (i == index)) [
    | inl e ↦ rw e (
        ap (λ l. l ++ views r)
          (subst (λ k. v (touchscreen k x y) ≡ v (touchscreen k px py)) (sym ((==_iff i index).0 e))
            (h x y px py)))
    | inr e ↦ rw e (ap (λ l. v (touchscreen i px py) ++ l) (views-set_touch index h x y r))
  ]
  views-set_touch index h x y (m ∷ r) = ap (λ l. v m ++ l) (views-set_touch index h x y r)

  pub views-replace_newest :
      ((s t : Snapshot) → v (gamepad s) ≡ v (gamepad t))
      → (s : Snapshot) (r : Queue) → ends_in_gamepad s.id r ≡ true
      → views (replace_newest (gamepad s) r) ≡ views r
  unfolding ends_in_gamepad replace_newest
  views-replace_newest h s [] e = refl
  views-replace_newest h s (gamepad p ∷ r) e = ap (λ l. l ++ views r) (h s p)
  views-replace_newest h s (m ∷ r) e = cc

  -- A view with at most one entry for a message goes backwards with the queue.
  pub views-reverse :
      ((m : ClientDatagram) → reverse (v m) ≡ v m)
      → (q : Queue) → views (reverse q) ≡ reverse (views q)
  views-reverse h [] = refl
  views-reverse h (m ∷ q) =
      ap views (reverse-cons m q)
      ∙ views-push_back (reverse q) m
      ∙ ap (λ l. l ++ v m) (views-reverse h q)
      ∙ ap (λ l. reverse (views q) ++ l) (sym (h m))
      ∙ sym (reverse-append (v m) (views q))

  -- A write to the queue read backwards, where it does not change the view.
  pub views-reverse_write :
      ((m : ClientDatagram) → reverse (v m) ≡ v m)
      → (q r : Queue) → views r ≡ views (reverse q)
      → views (reverse r) ≡ views q
  views-reverse_write h q r e =
      views-reverse h r ∙ ap reverse (e ∙ views-reverse h q) ∙ reverse-reverse (views q)
