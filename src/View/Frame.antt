-- ===== src/View/Frame.antt =====
-- What the methods of cardboard/View.cpp leave alone.
use cardboard.Base.{ℕ, ◌≡◌, refl, Bool, arith, Option, none, some, ◌⊎◌, Bool-cases, inl, inr}
use cardboard.Base.Int.{ℤ}
use cardboard.View.{
  Scene, can_resize, try_resize, resize, set_activated, close_popups, change_output,
}

pub geometry-resize :
    (v w : ℕ) (a b : ℤ) (s : Scene) → ((resize v a b s).view w).geometry ≡ (s.view w).geometry
unfolding resize
geometry-resize v w a b s = ground arith

-- A resize with the assertion fails, or the size is set and the rest of the view stays.
pub try_resize_cases :
    (v : ℕ) (a b : ℤ) (s : Scene)
    → (try_resize v a b s ≡ none)
      ⊎ (t : Scene) × (try_resize v a b s ≡ some t)
        × ((u : ℕ)
            → ((t.view u).workspace_id ≡ (s.view u).workspace_id)
              × ((t.view u).expansion_state ≡ (s.view u).expansion_state))
unfolding try_resize resize
try_resize_cases v a b s = elim (Bool-cases (can_resize (s.view v) (s.view v).shell)) [
  | inl e ↦ inr (resize v a b s, rw e refl, λ u. (ground arith, ground arith))
  | inr e ↦ inl (rw e refl)
]

pub set_activated_view : (v : ℕ) (b : Bool) (s : Scene) → (set_activated v b s).view ≡ s.view
unfolding set_activated
set_activated_view v b s = ground arith

pub close_popups_view : (v : ℕ) (s : Scene) → (close_popups v s).view ≡ s.view
unfolding close_popups
close_popups_view v s = ground arith

pub change_output_view :
    (v : ℕ) (old new : Option ℕ) (s : Scene) → (change_output v old new s).view ≡ s.view
unfolding change_output
change_output_view v old new s = ground arith
