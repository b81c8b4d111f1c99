-- ===== src/ViewOperations/Fullscreen.antt =====
-- A fullscreen view that moves to another workspace (`change_view_workspace` of
-- cardboard/ViewOperations.cpp and `set_fullscreen_view` of Workspace.cpp) leaves the views on their
-- workspaces.
use cardboard.Base.{
  ℕ, ◌≡◌, refl, ap, ◌∙◌, true, false, Option, none, some, arith, get_elem?, Bool-cases, inl, inr,
  subst,
}
use cardboard.View.{Scene, Box, move, modify, recovering, set_fullscreen}
use cardboard.View.Frame.{try_resize_cases}
use cardboard.Workspace.{Workspace, Env}
use cardboard.Workspace.Arrange.{arrange_workspace}
use cardboard.Workspace.Edit.{
  set_fullscreen_view, leave_fullscreen, restore_to, finish_fullscreen, enter_fullscreen,
}
use cardboard.Workspace.Life.{SameViews, expands-same}
use cardboard.Seat.{Server, and_then, store_workspace}
use cardboard.Seat.Keeps.{Holds, Holds-if}
use cardboard.ViewOperations.{
  on_workspace, bring_fullscreen, is_fullscreen, clear_fullscreen, is_some, with_fullscreen,
}
use cardboard.ViewOperations.Places.{SamePlaces, SamePlaces-refl, store-SamePlaces}
use cardboard.ViewOperations.Frame.{SameIds, arranges-ids}

abbrev IdsOf : Scene → Option Scene → Type 0
IdsOf s none = Unit {0}
IdsOf s (some t) = SameIds s t

restores-ids : (v : ℕ) (b : Box) (s : Scene) → IdsOf s (restore_to v (some b) s)
unfolding move set_fullscreen
restores-ids v b s = elim (try_resize_cases v b.width b.height moved) [
  | inl e ↦ rw (IdsOf, e) tt
  | inr (t, e, same) ↦ rw (IdsOf, e) (λ u. ground (arith, same u))
]
  where
    moved : Scene
    moved =
        move v b.x b.y
          (modify v (λ w. record w { expansion_state = recovering }) (set_fullscreen v false s))

leaves-ids : (f : Option ℕ) (s : Scene) → IdsOf s (leave_fullscreen f s)
unfolding leave_fullscreen
leaves-ids none s = λ u. refl
leaves-ids (some v) s = restored (s.view v).saved_state
  where
    restored : (b : Option Box) → IdsOf s (restore_to v b s)
    restored none = tt
    restored (some b) = restores-ids v b s

finishes-ids :
    (env : Env) (ws : Workspace) (s s' : Scene) (r : Workspace × Scene)
    → SameIds s s'
    → finish_fullscreen env none ws (enter_fullscreen none s') ≡ some r
    → SameIds s r.1
unfolding enter_fullscreen
finishes-ids env ws s s' r h e u =
    let ws' = record ws { fullscreen_view = none } in
    let same : r.1 ≡ arrange_workspace env ws' true s' = ground (arith, e) in
    ap (λ (t : Scene). (t.view u).workspace_id) same ∙ arranges-ids env ws' true s' u ∙ h u

expands-ids :
    (env : Env) (ws : Workspace) (s : Scene) (r : Workspace × Scene)
    → set_fullscreen_view env none ws s ≡ some r
    → SameIds s r.1
unfolding set_fullscreen_view
expands-ids env ws s r =
    left (leave_fullscreen ws.fullscreen_view s) (leaves-ids ws.fullscreen_view s)
  where
    left :
        (o : Option Scene)
        → IdsOf s o
        → elim o [
          | none ↦ none
          | some s' ↦ finish_fullscreen env none ws (enter_fullscreen none s')
        ]
          ≡ some r
        → SameIds s r.1
    left none h e = absurd (ground (arith, e))
    left (some s') h e = finishes-ids env ws s s' r h e

expands-index :
    (env : Env) (v : Option ℕ) (ws : Workspace) (s : Scene) (r : Workspace × Scene)
    → set_fullscreen_view env v ws s ≡ some r
    → r.0.index ≡ ws.index
unfolding set_fullscreen_view
expands-index env v ws s r e = ground arith

-- The views and the index of a workspace, and the workspaces that the views know, are as they were.
abbrev pub IsSame : Workspace → Scene → Workspace × Scene → Type 0
IsSame ws s r = SameViews ws r.0 × (r.0.index ≡ ws.index) × SameIds s r.1

-- The fullscreen view that the target workspace had goes back to its place.
clears-IsSame :
    (env : Env) (ws : Workspace) (s : Scene) (r : Workspace × Scene)
    → clear_fullscreen env ws s ≡ some r
    → IsSame ws s r
clears-IsSame env ws s r e = elim (Bool-cases (is_some ws.fullscreen_view)) [
  | inl there ↦
      let e' : set_fullscreen_view env none ws s ≡ some r = ground (arith, e) in
      (expands-same env none ws s r e', expands-index env none ws s r e', expands-ids env ws s r e')
  | inr gone ↦
      let e' : (ws, s) ≡ r = ground (arith, e) in
      subst (λ r. IsSame ws s r) e' ((refl, refl), refl, λ u. refl)
]

-- A fullscreen view becomes the fullscreen view of a workspace, whose views stay.
brings-IsSame :
    (env : Env) (v : ℕ) (ws : Workspace) (s : Scene) (r : Workspace × Scene)
    → with_fullscreen env v ws s ≡ some r
    → IsSame ws s r
brings-IsSame env v ws s r = cleared (clear_fullscreen env ws s) refl
  where
    cleared :
        (o : Option (Workspace × Scene))
        → clear_fullscreen env ws s ≡ o
        → and_then o (λ (ws', s').
          let ws'' = record ws' { fullscreen_view = some v } in
          some (ws'', arrange_workspace env ws'' true s'))
          ≡ some r
        → IsSame ws s r
    cleared none c e = absurd (ground (arith, e))
    cleared (some (ws', s')) c e =
        let (views, index, ids) = clears-IsSame env ws s (ws', s') c in
        let ws'' = record ws' { fullscreen_view = some v } in
        let e' : (ws'', arrange_workspace env ws'' true s') ≡ r = ground (arith, e) in
        subst (λ r. IsSame ws s r) e' (views, index, λ u. arranges-ids env ws'' true s' u ∙ ids u)

pub on_workspace-SamePlaces :
    (f : Workspace → Scene → Option (Workspace × Scene)) (i : ℕ) (w : Server)
    → ((ws : Workspace) (r : Workspace × Scene) → f ws w.scene ≡ some r → IsSame ws w.scene r)
    → Holds (SamePlaces w) (on_workspace i f w)
on_workspace-SamePlaces f i w k = there (get_elem? w.workspaces i) refl
  where
    done :
        (ws : Workspace)
        → get_elem? w.workspaces i ≡ some ws
        → (o : Option (Workspace × Scene)) → f ws w.scene ≡ o
        → Holds (SamePlaces w) (and_then o (λ r. some (store_workspace i w r)))
    done ws at none e = tt
    done ws at (some r) e =
        let (views, index, ids) = k ws r e in
        store-SamePlaces w w i ws r at views index ids (SamePlaces-refl w)

    there :
        (o : Option Workspace)
        → get_elem? w.workspaces i ≡ o
        → Holds
            (SamePlaces w)
            (and_then o (λ ws. and_then (f ws w.scene) (λ r. some (store_workspace i w r))))
    there none at = tt
    there (some ws) at = done ws at (f ws w.scene) refl

pub bring_fullscreen-SamePlaces :
    (env : Env) (v j : ℕ) (w : Server) → Holds (SamePlaces w) (bring_fullscreen env v j w)
unfolding bring_fullscreen
bring_fullscreen-SamePlaces env v j w =
    Holds-if (SamePlaces w) (is_fullscreen (w.scene.view v).expansion_state) _ (some w)
      (on_workspace-SamePlaces (with_fullscreen env v) j w
        (λ ws r e. brings-IsSame env v ws w.scene r e))
      (SamePlaces-refl w)
