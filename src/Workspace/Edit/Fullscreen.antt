-- ===== src/Workspace/Edit/Fullscreen.antt =====
-- `set_fullscreen_view` of cardboard/Workspace.cpp, with `View::save_state`.
use cardboard.Base.{ℕ, ◌≡◌, ◌⊎◌, ◌∙◌, ap, refl, false, inl, inr, none, some, arith}
use cardboard.View.{Box, Scene, modify, recovering, save_state, set_fullscreen, move}
use cardboard.View.Frame.{try_resize_cases}
use cardboard.Workspace.{Workspace, Env}
use cardboard.Workspace.Edit.{set_fullscreen_view, leave_fullscreen, restore_to}

restore_to_cases :
    (v : ℕ) (saved : Box) (s : Scene)
    → (restore_to v (some saved) s ≡ none)
      ⊎ (t : Scene) × (restore_to v (some saved) s ≡ some t)
        × ((t.view v).expansion_state ≡ recovering)
unfolding move set_fullscreen
restore_to_cases v saved s = elim (try_resize_cases v saved.width saved.height moved) [
  | inl r ↦ inl (rw (restore_to, r) refl)
  | inr (t, r, same) ↦ inr (
    modify v (λ w. record w { saved_state = none }) t,
    rw (restore_to, r) refl,
    ground (arith, same v),
  )
]
  where
    moved : Scene
    moved =
        move v saved.x saved.y
          (modify v (λ w. record w { expansion_state = recovering }) (set_fullscreen v false s))

-- Making the view fullscreen that is the workspace's fullscreen view already, with a saved state,
-- fails the assertion of save_state, or, for an Xwayland view that is not mapped, that of
-- XwaylandView::resize before it.
pub set_fullscreen_view_twice :
    (env : Env) (v : ℕ) (saved : Box) (ws : Workspace) (s : Scene)
    → ws.fullscreen_view ≡ some v
    → (s.view v).saved_state ≡ some saved
    → set_fullscreen_view env (some v) ws s ≡ none
unfolding set_fullscreen_view leave_fullscreen save_state
set_fullscreen_view_twice env v saved ws s f e = elim (restore_to_cases v saved s) [
  | inl r ↦ ground (arith, left ∙ r)
  | inr (t, r, still) ↦ ground (arith, left ∙ r, still)
]
  where
    left : leave_fullscreen ws.fullscreen_view s ≡ restore_to v (some saved) s
    left = ap (λ o. leave_fullscreen o s) f ∙ ap (λ b. restore_to v b s) e
