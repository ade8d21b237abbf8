-- ===== src/Shared/ClientDatagram/Coalesce/Touch.antt =====
-- The pending positions and lifts of one touch slot under `coalesce_input` of
-- shared/src/client_datagram.rs.
use webshooter.Base.{
  ℕ, ◌≡◌, refl, sym, ap, ◌∙◌, arith, true, false, List, [], ◌∷◌, ◌++◌, reverse, ◌==◌, ==_iff,
  ==_refl, Bool-cases, inl, inr, if◌then◌else◌, subst,
}
use mathlib.Core.List.{reverse-append, reverse-reverse}
use webshooter.Shared.ClientDatagram.{
  ClientDatagram, touchscreen, touchscreen_release, gamepad, mouse_move, scroll,
}
use webshooter.Shared.ClientDatagram.Coalesce.{
  Queue, has_move, add_move, has_scroll, add_scroll, has_touch, set_touch, ends_in_gamepad,
  replace_newest, push_back, coalesce_input,
}
use webshooter.Shared.ClientDatagram.Coalesce.Views.{
  views, views-add_move, views-add_scroll, views-set_touch, views-replace_newest, views-reverse,
}

-- What a queue says of one slot.
pub data SlotEvent : Type 0 where
  at : ℕ → ℕ → SlotEvent
  lifted : SlotEvent

abbrev pub slot_event : ℕ → ClientDatagram → List SlotEvent
slot_event i (touchscreen j x y) = if j == i then at x y ∷ [] else []
slot_event i (touchscreen_release j) = if j == i then lifted ∷ [] else []
slot_event i m = []

-- The events of slot `i`, newest first.
abbrev pub track : ℕ → Queue → List SlotEvent
track i q = views (slot_event i) (reverse q)

-- The rule for one slot alone: a position takes the place of a position that is the newest event,
-- and anything else becomes the newest event.
abbrev pub record_event : SlotEvent → List SlotEvent → List SlotEvent
record_event (at x y) (at x' y' ∷ t) = at x y ∷ t
record_event e t = e ∷ t

abbrev pub advance : List SlotEvent → List SlotEvent → List SlotEvent
advance [] t = t
advance (e ∷ es) t = record_event e t

reverse-slot_event : (i : ℕ) (m : ClientDatagram) → reverse (slot_event i m) ≡ slot_event i m
reverse-slot_event i (touchscreen j x y) = ground arith
reverse-slot_event i (touchscreen_release j) = ground arith
reverse-slot_event i m = refl

track-push_back :
    (i : ℕ) (q : Queue) (m : ClientDatagram) → track i (push_back q m) ≡ slot_event i m ++ track i q
track-push_back i q m = ap (views (slot_event i)) (reverse-append q (m ∷ []))

track-same_view :
    (i : ℕ) (p q : Queue) → views (slot_event i) p ≡ views (slot_event i) q → track i p ≡ track i q
track-same_view i p q e =
    views-reverse (slot_event i) (reverse-slot_event i) p
    ∙ ap reverse e
    ∙ sym (views-reverse (slot_event i) (reverse-slot_event i) q)

set_touch-track :
    (i x y : ℕ) (r : Queue)
    → has_touch i r ≡ true
    → views (slot_event i) (set_touch i x y r) ≡ record_event (at x y) (views (slot_event i) r)
unfolding has_touch set_touch
set_touch-track i x y [] e = cc
set_touch-track i x y (touchscreen j a b ∷ r) e = ground (arith, set_touch-track i x y r)
set_touch-track i x y (touchscreen_release j ∷ r) e = ground (arith, set_touch-track i x y r)
set_touch-track i x y (m ∷ r) e = set_touch-track i x y r e

no_touch-track :
    (i x y : ℕ) (r : Queue)
    → has_touch i r ≡ false
    → record_event (at x y) (views (slot_event i) r) ≡ at x y ∷ views (slot_event i) r
unfolding has_touch
no_touch-track i x y [] e = refl
no_touch-track i x y (touchscreen j a b ∷ r) e = ground (arith, no_touch-track i x y r)
no_touch-track i x y (touchscreen_release j ∷ r) e = ground (arith, no_touch-track i x y r)
no_touch-track i x y (m ∷ r) e = no_touch-track i x y r e

own_touch-track :
    (i x y : ℕ) (q : Queue)
    → track i (coalesce_input q (touchscreen i x y)) ≡ record_event (at x y) (track i q)
unfolding coalesce_input
own_touch-track i x y q = elim (Bool-cases (has_touch i (reverse q))) [
  | inl e ↦
      rw (e, reverse-reverse (set_touch i x y (reverse q))) (set_touch-track i x y (reverse q) e)
  | inr e ↦
      rw (e, track-push_back i q (touchscreen i x y))
        (ground (arith, no_touch-track i x y (reverse q)))
]

other_touch-track :
    (i j x y : ℕ) (q : Queue)
    → (j == i) ≡ false
    → track i (coalesce_input q (touchscreen j x y)) ≡ track i q
unfolding coalesce_input
other_touch-track i j x y q ne = elim (Bool-cases (has_touch j (reverse q))) [
  | inl e ↦
      rw (e, reverse-reverse (set_touch j x y (reverse q)))
        (views-set_touch (slot_event i) j (λ a b c d. ground arith) x y (reverse q))
  | inr e ↦ rw (e, track-push_back i q (touchscreen j x y)) (ground arith)
]

touch-track :
    (i j x y : ℕ) (q : Queue)
    → track i (coalesce_input q (touchscreen j x y))
      ≡ advance (slot_event i (touchscreen j x y)) (track i q)
touch-track i j x y q = elim (Bool-cases (j == i)) [
  | inl e ↦
      subst
        (λ k.
          track i (coalesce_input q (touchscreen k x y))
          ≡ advance (slot_event i (touchscreen k x y)) (track i q))
        (sym ((==_iff j i).0 e)) (own_touch-track i x y q ∙ rw (==_refl i))
  | inr e ↦ rw e (other_touch-track i j x y q e)
]

-- For every slot, folding a message in does to the slot's pending events what the rule for one
-- slot says: a new position replaces the newest pending one, unless a lift came after it, and
-- other messages and other slots leave the slot's events alone.
pub track-coalesce_input :
    (i : ℕ) (q : Queue) (m : ClientDatagram)
    → track i (coalesce_input q m) ≡ advance (slot_event i m) (track i q)
unfolding coalesce_input
track-coalesce_input i q (mouse_move dx dy) = elim (Bool-cases (has_move q)) [
  | inl e ↦ rw e (
      track-same_view i (add_move dx dy q) q
        (views-add_move (slot_event i) (λ a b c d. refl) dx dy q))
  | inr e ↦ rw e (track-push_back i q (mouse_move dx dy))
]
track-coalesce_input i q (scroll dx dy) = elim (Bool-cases (has_scroll q)) [
  | inl e ↦ rw e (
      track-same_view i (add_scroll dx dy q) q
        (views-add_scroll (slot_event i) (λ a b c d. refl) dx dy q))
  | inr e ↦ rw e (track-push_back i q (scroll dx dy))
]
track-coalesce_input i q (touchscreen j x y) = touch-track i j x y q
track-coalesce_input i q (gamepad s) = elim (Bool-cases (ends_in_gamepad s.id (reverse q))) [
  | inl e ↦
      rw (e, reverse-reverse (replace_newest (gamepad s) (reverse q)))
        (views-replace_newest (slot_event i) (λ a b. refl) s (reverse q) e)
  | inr e ↦ rw e (track-push_back i q (gamepad s))
]
track-coalesce_input i q (touchscreen_release j) =
    track-push_back i q (touchscreen_release j) ∙ ground arith
track-coalesce_input i q m = track-push_back i q m
