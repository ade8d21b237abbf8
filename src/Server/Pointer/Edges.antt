-- ===== src/Server/Pointer/Edges.antt =====
-- When the pointer is taken to be blocked at an edge, and which buttons meet.
use webshooter.Base.{ℕ, ◌≤◌, ◌<◌, ◌≡◌, ◌⊎◌, ◌↔◌, refl, arith, true, false, some}
use webshooter.Base.Int.{ℤ, ==ℤ_iff}
use webshooter.Server.Pointer.{
  MouseState, handle_move, update_compositor_pos, unsigned_abs, web_button_to_linux,
}

-- After a motion, the next cursor report is an edge exactly if the cursor has stayed where it was
-- along the motion's larger axis; the report after that, with no motion between, never is.
pub edge_after_move :
    (dx dy px py x y x' y' : ℤ) (s : MouseState)
    → s.last_pos ≡ some (px, py)
    → let moved = (handle_move dx dy s).0 in
      let first = update_compositor_pos x y moved in
      ((first.1 ≡ true) ↔ (
        ((unsigned_abs dy ≤ unsigned_abs dx) × (x ≡ px))
        ⊎ ((unsigned_abs dx < unsigned_abs dy) × (y ≡ py))))
      × ((update_compositor_pos x' y' first.0).1 ≡ false)
unfolding handle_move update_compositor_pos
edge_after_move dx dy px py x y x' y' s h = (ground (arith, ==ℤ_iff x px, ==ℤ_iff y py), refl)

-- Distinct web buttons below 16 are distinct Linux buttons.
pub web_button_injective :
    (a b : ℕ) → a < 16 → b < 16 → web_button_to_linux a ≡ web_button_to_linux b → a ≡ b
unfolding web_button_to_linux
web_button_injective a b ha hb h = ground arith
