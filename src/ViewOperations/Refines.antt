-- ===== src/ViewOperations/Refines.antt =====
-- Mapping, unmapping and moving views between workspaces (cardboard/SurfaceManager.cpp and
-- ViewOperations.cpp), against the abstract state that gives each view its workspace.
use cardboard.Base.{
  ℕ, ◌≡◌, ◌≢◌, refl, ap, sym, ◌∙◌, Bool, true, false, Option, none, some, ◌==◌, arith,
  if◌then◌else◌, get_elem?, set_cases, inl, inr,
}
use cardboard.Base.Count.{count, count-without}
use cardboard.Base.Int.{pos}
use cardboard.Base.Store.{update}
use cardboard.View.{View, Scene, set_activated, change_output}
use cardboard.View.Frame.{change_output_view, set_activated_view}
use cardboard.Workspace.{Workspace, Env}
use cardboard.Workspace.Arrange.Frame.{arrange_workspace-Keeps}
use cardboard.Workspace.Edit.{add_view, remove_view, attach_view, detach_view, place_view}
use cardboard.Workspace.Edit.Columns.{count-place_view}
use cardboard.Workspace.Edit.Laws.{remove_view-views, add_view-IsWellFormed}
use cardboard.Workspace.Edit.Output.{views_of}
use cardboard.Workspace.Edit.WellFormed.{IsWellFormed}
use cardboard.Seat.{Server, store_workspace}
use cardboard.ViewOperations.Places.{Owner, owned, Implements}

-- What an operation on the workspace at a position does to the abstract state.
store-Implements :
    (owner owner' : Owner) (w : Server) (i : ℕ) (ws : Workspace) (r : Workspace × Scene)
    → Implements owner w
    → get_elem? w.workspaces i ≡ some ws
    → r.0.index ≡ ws.index
    → IsWellFormed r.0
    → ((v : ℕ) → count v (views_of r.0) ≡ owned (owner' v) i)
    → ((v j : ℕ) → j ≢ i → owned (owner' v) j ≡ owned (owner v) j)
    → ((v j : ℕ) → owner' v ≡ some j → (r.1.view v).workspace_id ≡ pos j)
    → Implements owner' (store_workspace i w r)
store-Implements owner owner' w i ws r h there index formed held others known = record {
  indexed = λ j ws' e. elim (set_cases w.workspaces i j ws r.0 ws' there e) [
    | inl (same, new) ↦ rw (same, new) (index ∙ h.indexed i ws there)
    | inr (other, e') ↦ h.indexed j ws' e'
  ];
  formed = λ j ws' e. elim (set_cases w.workspaces i j ws r.0 ws' there e) [
    | inl (same, new) ↦ rw new formed
    | inr (other, e') ↦ h.formed j ws' e'
  ];
  held = λ j ws' e v. elim (set_cases w.workspaces i j ws r.0 ws' there e) [
    | inl (same, new) ↦ rw (same, new) (held v)
    | inr (other, e') ↦ h.held j ws' e' v ∙ sym (others v j other)
  ];
  known = known;
}

remove-ids :
    (env : Env) (v u : ℕ) (ws : Workspace) (s : Scene)
    → ((remove_view env v false ws s).1.view u).workspace_id ≡ (s.view u).workspace_id
unfolding remove_view detach_view
remove-ids env v u ws s =
    ((arrange_workspace-Keeps env _ true _).same u).workspace_id
    ∙ ap (λ (view : ℕ → View). (view u).workspace_id)
        (change_output_view v ws.output none (set_activated v false s)
          ∙ set_activated_view v false s)

attach-ids :
    (v u : ℕ) (ws : Workspace) (s : Scene)
    → ((attach_view v ws s).view u).workspace_id
      ≡ (if u == v then pos ws.index else (s.view u).workspace_id)
unfolding attach_view change_output set_activated
attach-ids v u ws s = ground arith

add-ids :
    (env : Env) (v u : ℕ) (next_to : Option ℕ) (floating : Bool) (ws : Workspace) (s : Scene)
    → ((add_view env v next_to floating false ws s).1.view u).workspace_id
      ≡ (if u == v then pos ws.index else (s.view u).workspace_id)
unfolding add_view
add-ids env v u next_to floating ws s =
    ((arrange_workspace-Keeps env _ true _).same u).workspace_id ∙ attach-ids v u ws s

pub remove-Implements :
    (env : Env) (owner : Owner) (w : Server) (v i : ℕ) (ws : Workspace)
    → Implements owner w
    → owner v ≡ some i
    → get_elem? w.workspaces i ≡ some ws
    → Implements (update owner v none) (store_workspace i w (remove_view env v false ws w.scene))
unfolding remove_view
remove-Implements env owner w v i ws h owns there =
    let (views, formed) = remove_view-views env v false ws w.scene (h.formed i ws there) in
    store-Implements owner (update owner v none) w i ws (remove_view env v false ws w.scene) h there
      refl formed
      (λ u.
        ap (count u) views ∙ count-without u v (views_of ws) ∙ ground (arith, h.held i ws there u))
      (λ u j other. ground (arith, owns))
      (λ u j e. remove-ids env v u ws w.scene ∙ h.known u j (ground (arith, e)))

place_view-index :
    (v : ℕ) (next_to : Option ℕ) (floating : Bool) (ws : Workspace)
    → (place_view v next_to floating ws).index ≡ ws.index
unfolding place_view
place_view-index v next_to floating ws = ground arith

pub add-Implements :
    (env : Env) (owner : Owner) (w : Server) (v i : ℕ) (next_to : Option ℕ) (floating : Bool)
    (ws : Workspace)
    → Implements owner w
    → owner v ≡ none
    → get_elem? w.workspaces i ≡ some ws
    → Implements
        (update owner v (some i))
        (store_workspace i w (add_view env v next_to floating false ws w.scene))
unfolding add_view
add-Implements env owner w v i next_to floating ws h free there =
    let alone : count v (views_of ws) ≡ 0 = h.held i ws there v ∙ ap (λ o. owned o i) free in
    store-Implements owner (update owner v (some i)) w i ws
      (add_view env v next_to floating false ws w.scene) h there
      (place_view-index v next_to floating ws)
      (add_view-IsWellFormed env v next_to floating false ws w.scene alone (h.formed i ws there))
      (λ u. count-place_view u v next_to floating ws ∙ ground (arith, h.held i ws there u, free))
      (λ u j other. ground (arith, free))
      (λ u j e.
        add-ids env v u next_to floating ws w.scene
        ∙ ground (arith, e, h.known u j, h.indexed i ws there))

pub Implements-ext :
    (owner owner' : Owner) (w : Server)
    → ((v : ℕ) → owner' v ≡ owner v)
    → Implements owner w
    → Implements owner' w
Implements-ext owner owner' w e h = record {
  indexed = h.indexed;
  formed = h.formed;
  held = λ i ws there v. h.held i ws there v ∙ ap (λ o. owned o i) (sym (e v));
  known = λ v i o. h.known v i (sym (e v) ∙ o);
}
