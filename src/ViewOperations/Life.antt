-- ===== src/ViewOperations/Life.antt =====
-- Views through any sequence of mapping, unmapping, changes of workspace and of focus
-- (cardboard/SurfaceManager.cpp, ViewOperations.cpp and Seat.cpp).
use cardboard.Base.{ℕ, ◌≡◌, refl, Bool, true, Option, none, some, [], arith, get_elem?}
use cardboard.Base.Store.{update}
use cardboard.Workspace.{Workspace, Env}
use cardboard.Workspace.Edit.WellFormed.{IsWellFormed}
use cardboard.Seat.{Server, Outside, focus_view}
use cardboard.Seat.Views.{map_view, unmap_view, get_focused_workspace}
use cardboard.Cursor.{Pointing, Layers}
use cardboard.ViewOperations.{change_view_workspace}
use cardboard.ViewOperations.Places.{Owner, Implements, owners-Implements, SameOwners}
use cardboard.ViewOperations.Simulates.{
  of_Holds, focus-Implements, change-Implements, map-Implements, unmap-Implements,
}

-- One operation that succeeds, with what it is to do to the abstract state: a view comes to a
-- workspace, leaves it, or changes it, and the focus moves no view. `others` is a
-- rearrangement of the views within their workspaces that keeps these well-formed.
pub data Step (env : Env) (out : Outside) (owner : Owner) (w : Server)
    : Owner → Server → Type 0 where
  maps :
      (v i : ℕ) (ws : Workspace) {w' : Server}
      → owner v ≡ none
      → get_focused_workspace out w ≡ i
      → get_elem? w.workspaces i ≡ some ws
      → map_view env out v w ≡ some w'
      → Step env out owner w (update owner v (some i)) w'
  unmaps :
      (v i : ℕ) {w' : Server}
      → owner v ≡ some i
      → (w.scene.view v).mapped ≡ true
      → unmap_view env out v w ≡ some w'
      → Step env out owner w (update owner v none) w'
  changes :
      (p : Pointing) (layers : Layers) (v i j : ℕ) {w' : Server}
      → owner v ≡ some i
      → change_view_workspace env out p layers v j w ≡ some w'
      → Step env out owner w (update owner v (some j)) w'
  focuses :
      (v : Option ℕ) (condense : Bool) {w' : Server}
      → focus_view env out v condense w ≡ some w'
      → Step env out owner w owner w'
  others : {w' : Server} → SameOwners w w' → Step env out owner w owner w'

pub data Reach (env : Env) (out : Outside) : Owner → Server → Type 0 where
  started :
      {w : Server}
      → ((i : ℕ) (ws : Workspace)
          → get_elem? w.workspaces i ≡ some ws
          → (ws.index ≡ i) × (ws.columns ≡ []) × (ws.floating_views ≡ []))
      → Reach env out (λ v. none) w
  next :
      {owner owner' : Owner} {w w' : Server}
      → Reach env out owner w
      → Step env out owner w owner' w'
      → Reach env out owner' w'

Step-Implements :
    {env : Env} {out : Outside} {owner owner' : Owner} {w w' : Server}
    → Step env out owner w owner' w'
    → Implements owner w
    → Implements owner' w'
Step-Implements {env} {out} {owner} {w = w} (maps v i ws {w'} free at there e) h =
    of_Holds _ _ w' e (map-Implements env out owner v i ws w h free at there)
Step-Implements {env} {out} {owner} {w = w} (unmaps v i {w'} owns mapped e) h =
    of_Holds _ _ w' e (unmap-Implements env out owner v i w h owns mapped)
Step-Implements {env} {out} {owner} {w = w} (changes p layers v i j {w'} owns e) h =
    of_Holds _ _ w' e (change-Implements env out p layers owner v i j w h owns)
Step-Implements {env} {out} {owner} {w = w} (focuses v condense {w'} e) h =
    of_Holds _ _ w' e (focus-Implements env out owner v condense w h)
Step-Implements {env} {out} {owner} {w = w} (others {w'} same) h =
    owners-Implements owner w w' same h

empty-IsWellFormed : (ws : Workspace) → ws.columns ≡ [] → ws.floating_views ≡ [] → IsWellFormed ws
empty-IsWellFormed ws c f = record { tidy = rw c tt; distinct = λ v. rw (c, f) (omega arith) }

started-Implements :
    (w : Server)
    → ((i : ℕ) (ws : Workspace)
        → get_elem? w.workspaces i ≡ some ws
        → (ws.index ≡ i) × (ws.columns ≡ []) × (ws.floating_views ≡ []))
    → Implements (λ v. none) w
started-Implements w h = record {
  indexed = λ i ws e. (h i ws e).0;
  formed = λ i ws e. empty-IsWellFormed ws ((h i ws e).1) ((h i ws e).2);
  held = λ i ws e v. rw ((h i ws e).1, (h i ws e).2) refl;
  known = λ v i e. absurd (ground (arith, e));
}

-- From workspaces without views, through any sequence of mapping and unmapping views, moving them
-- to other workspaces and changing the focus, with other changes between them that keep what each
-- view has as its workspace, the indices of the workspaces, how often each view is in each of them,
-- and that they are well-formed: the workspaces implement the map that gives each view its
-- workspace. Each workspace is well-formed and has exactly the views that are on it, once, and each
-- of these knows its workspace.
pub Reach-Implements :
    (env : Env) (out : Outside) {owner : Owner} {w : Server}
    → Reach env out owner w
    → Implements owner w
Reach-Implements env out (started {w} h) = started-Implements w h
Reach-Implements env out (next r step) = Step-Implements step (Reach-Implements env out r)
