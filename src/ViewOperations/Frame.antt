-- ===== src/ViewOperations/Frame.antt =====
-- What leaves the views on their workspaces: the focus (cardboard/Seat.cpp), the cursor (Cursor.cpp)
-- of `change_view_workspace` before the transfer (ViewOperations.cpp).
use cardboard.Base.{
  ℕ, ◌≡◌, refl, ap, ◌∙◌, Bool, true, false, Option, none, some, arith, if◌then◌else◌, get_elem?,
  length, ◌==◌, not, ◌&&◌,
}
use cardboard.View.{View, Scene, Box, move, is_mapped_and_normal}
use cardboard.Workspace.{Workspace, Env, find_column}
use cardboard.Workspace.Arrange.{arrange_workspace}
use cardboard.Workspace.Arrange.Frame.{arrange_workspace-Keeps}
use cardboard.Workspace.Fit.{fit_view_on_screen, fit_on}
use cardboard.Workspace.Life.{fits-same}
use cardboard.Seat.{
  Server, Outside, and_then, store_workspace, index_of, get_view_workspace, fit_on_screen,
}
use cardboard.Seat.Released.{workspace_at-get_elem?}
use cardboard.Seat.Keeps.{Holds, IsKept}
use cardboard.Cursor.{Pointing, Layers, Found, cursor_rebase, rebase_on, get_surface_under_cursor}
use cardboard.ViewOperations.{fit_floating, displaced, area_of, is_fullscreen}
use cardboard.ViewOperations.Places.{SamePlaces, SamePlaces-refl, store-SamePlaces}

-- Each view knows the same workspace in both scenes.
abbrev pub SameIds : Scene → Scene → Type 0
SameIds s t = (u : ℕ) → (t.view u).workspace_id ≡ (s.view u).workspace_id

SameIds-if :
    (s : Scene) (b : Bool) (x y : Workspace × Scene)
    → SameIds s x.1
    → SameIds s y.1
    → SameIds s (if b then x else y).1
SameIds-if s true x y h k = h
SameIds-if s false x y h k = k

pub arranges-ids :
    (env : Env) (ws : Workspace) (animate : Bool) (s : Scene)
    → SameIds s (arrange_workspace env ws animate s)
arranges-ids env ws animate s u = ((arrange_workspace-Keeps env ws animate s).same u).workspace_id

fits-ids :
    (env : Env) (v : ℕ) (condense : Bool) (ws : Workspace) (s : Scene)
    → SameIds s (fit_view_on_screen env v condense ws s).1
unfolding fit_view_on_screen
fits-ids env v condense ws s =
    SameIds-if s (not (is_mapped_and_normal (s.view v))) (ws, s)
      (if i == length ws.columns then (ws, s) else fit_on env v condense i ws.output ws s)
      (λ u. refl)
      (SameIds-if s (i == length ws.columns) (ws, s) (fit_on env v condense i ws.output ws s)
        (λ u. refl) (shown ws.output))
  where
    i : ℕ
    i = find_column (some v) ws.columns

    shown : (o : Option ℕ) → SameIds s (fit_on env v condense i o ws s).1
    shown none = λ u. refl
    shown (some o) = arranges-ids env _ true s

fits-index :
    (env : Env) (v : ℕ) (condense : Bool) (ws : Workspace) (s : Scene)
    → (fit_view_on_screen env v condense ws s).0.index ≡ ws.index
unfolding fit_view_on_screen
fits-index env v condense ws s = ground arith

pub get_view_workspace_at :
    (w : Server) (v : ℕ) (ws : Workspace)
    → get_view_workspace w v ≡ some ws
    → get_elem? w.workspaces (index_of (w.scene.view v).workspace_id) ≡ some ws
get_view_workspace_at w v ws e =
    workspace_at-get_elem? (w.scene.view v).workspace_id w.workspaces ws e

module _ (env : Env) (w0 : Server) where
  pub SamePlaces-IsKept : IsKept env (SamePlaces w0)
  unfolding fit_on_screen
  SamePlaces-IsKept = record {
    scenes = λ w s e h. record {
      ids = λ v. ap (λ (view : ℕ → View). (view v).workspace_id) e ∙ h.ids v;
      kept = h.kept;
    };
    seats = λ w seat e h. record { ids = h.ids; kept = h.kept };
    pushes = λ v w h. record { ids = h.ids; kept = h.kept };
    orders = λ w vs h. record { ids = h.ids; kept = h.kept };
    fits = λ v condense w h. fitted v condense w h (get_view_workspace w v) refl;
  }
    where
      fitted :
          (v : ℕ) (condense : Bool) (w : Server)
          → SamePlaces w0 w
          → (o : Option Workspace) → get_view_workspace w v ≡ o
          → Holds (SamePlaces w0) (
              and_then o (λ ws. some (
                store_workspace
                  (index_of (w.scene.view v).workspace_id)
                  w
                  (fit_view_on_screen env v condense ws w.scene))))
      fitted v condense w h none e = tt
      fitted v condense w h (some ws) e =
          store-SamePlaces w0 w (index_of (w.scene.view v).workspace_id) ws
            (fit_view_on_screen env v condense ws w.scene) (get_view_workspace_at w v ws e)
            (fits-same env v condense ws w.scene) (fits-index env v condense ws w.scene)
            (fits-ids env v condense ws w.scene) h

pub cursor_rebase-SamePlaces :
    (p : Pointing) (out : Outside) (layers : Layers) (w : Server)
    → SamePlaces w (cursor_rebase p out layers w)
unfolding cursor_rebase
cursor_rebase-SamePlaces p out layers w = rebased (get_surface_under_cursor p layers w)
  where
    rebased : (f : Option Found) → SamePlaces w (rebase_on p out f w)
    rebased none = record { ids = λ v. refl; kept = (SamePlaces-refl w).kept }
    rebased (some f) = record { ids = λ v. refl; kept = (SamePlaces-refl w).kept }

scene-SamePlaces :
    (w : Server) (s : Scene) → SameIds w.scene s → SamePlaces w (record w { scene = s })
scene-SamePlaces w s ids = record { ids = ids; kept = (SamePlaces-refl w).kept }

displaced-ids : (env : Env) (a : Option Box) (v : ℕ) (s : Scene) → SameIds s (displaced env a v s)
unfolding move
displaced-ids env none v s u = refl
displaced-ids env (some area) v s u = ground arith

pub fit_floating-SamePlaces :
    (env : Env) (v : ℕ) (floating : Bool) (new : Workspace) (w : Server)
    → SamePlaces w (fit_floating env v floating new w)
unfolding fit_floating
fit_floating-SamePlaces env v floating new w =
    moved (floating && not (is_fullscreen (w.scene.view v).expansion_state))
  where
    moved :
        (b : Bool)
        → SamePlaces w
            (if b then record w { scene = displaced env (area_of env new.output) v w.scene } else w)
    moved false = SamePlaces-refl w
    moved true = scene-SamePlaces w _ (displaced-ids env (area_of env new.output) v w.scene)
