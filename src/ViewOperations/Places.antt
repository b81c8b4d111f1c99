-- ===== src/ViewOperations/Places.antt =====
-- Which workspace each view is on, through the operations of cardboard/Seat.cpp, SurfaceManager.cpp
-- and ViewOperations.cpp.
use cardboard.Base.{
  ℕ, ◌≡◌, refl, ap, ◌∙◌, Option, some, if◌then◌else◌, get_elem?, set_cases, inl, inr, ◌++◌,
}
use cardboard.Base.Count.{count}
use cardboard.Base.Int.{pos}
use cardboard.View.{Scene, same_ref}
use cardboard.Workspace.{Workspace}
use cardboard.Workspace.Edit.Output.{views_of, column_views}
use cardboard.Workspace.Edit.WellFormed.{IsWellFormed}
use cardboard.Workspace.Life.{SameViews, same-IsWellFormed}
use cardboard.Seat.{Server, store_workspace}

-- The abstract state: the workspace of each view, if it has one.
abbrev pub Owner : Type 0
Owner = ℕ → Option ℕ

abbrev pub owned : Option ℕ → ℕ → ℕ
owned o i = if same_ref o (some i) then 1 else 0

-- The server implements the abstract state: the workspaces stand at their indices and are
-- well-formed, each has exactly the views that it owns, once, and those know their workspace.
pub record Implements (owner : Owner) (w : Server) : Type 0 where
  pub indexed : (i : ℕ) (ws : Workspace) → get_elem? w.workspaces i ≡ some ws → ws.index ≡ i
  pub formed : (i : ℕ) (ws : Workspace) → get_elem? w.workspaces i ≡ some ws → IsWellFormed ws
  pub held :
      (i : ℕ) (ws : Workspace)
      → get_elem? w.workspaces i ≡ some ws
      → (v : ℕ) → count v (views_of ws) ≡ owned (owner v) i
  pub known : (v i : ℕ) → owner v ≡ some i → (w.scene.view v).workspace_id ≡ pos i

-- A server whose workspaces have the same views and indices, and whose views know the same
-- workspaces.
pub record SamePlaces (w w' : Server) : Type 0 where
  pub ids : (v : ℕ) → (w'.scene.view v).workspace_id ≡ (w.scene.view v).workspace_id
  pub kept :
      (i : ℕ) (ws' : Workspace)
      → get_elem? w'.workspaces i ≡ some ws'
      → (ws : Workspace) × (get_elem? w.workspaces i ≡ some ws)
        × SameViews ws ws'
        × (ws'.index ≡ ws.index)

pub views-same : (ws ws' : Workspace) → SameViews ws ws' → views_of ws' ≡ views_of ws
views-same ws ws' (c, f) =
    ap (λ cs. column_views cs ++ ws'.floating_views) c ∙ ap (λ fs. column_views ws.columns ++ fs) f

pub SameViews-trans : (a b c : Workspace) → SameViews a b → SameViews b c → SameViews a c
SameViews-trans a b c (p, q) (p', q') = (p' ∙ p, q' ∙ q)

pub Implements-same :
    (owner : Owner) (w w' : Server) → SamePlaces w w' → Implements owner w → Implements owner w'
Implements-same owner w w' same h = record {
  indexed =
      λ i ws' e. let (ws, there, views, index) = same.kept i ws' e in index ∙ h.indexed i ws there;
  formed = λ i ws' e.
      let (ws, there, views, index) = same.kept i ws' e in
      same-IsWellFormed views (h.formed i ws there);
  held = λ i ws' e v.
      let (ws, there, views, index) = same.kept i ws' e in
      ap (count v) (views-same ws ws' views) ∙ h.held i ws there v;
  known = λ v i e. same.ids v ∙ h.known v i e;
}

-- A server whose workspaces have the same indices and the same views, each as often, in whatever
-- order and places, and stay well-formed, and whose views know the same workspaces.
pub record SameOwners (w w' : Server) : Type 0 where
  pub ids : (v : ℕ) → (w'.scene.view v).workspace_id ≡ (w.scene.view v).workspace_id
  pub kept :
      (i : ℕ) (ws' : Workspace)
      → get_elem? w'.workspaces i ≡ some ws'
      → (ws : Workspace) × (get_elem? w.workspaces i ≡ some ws)
        × (ws'.index ≡ ws.index)
        × (IsWellFormed ws → IsWellFormed ws')
        × ((v : ℕ) → count v (views_of ws') ≡ count v (views_of ws))

pub owners-Implements :
    (owner : Owner) (w w' : Server) → SameOwners w w' → Implements owner w → Implements owner w'
owners-Implements owner w w' same h = record {
  indexed = λ i ws' e.
      let (ws, there, index, forms, counts) = same.kept i ws' e in index ∙ h.indexed i ws there;
  formed = λ i ws' e.
      let (ws, there, index, forms, counts) = same.kept i ws' e in forms (h.formed i ws there);
  held = λ i ws' e v.
      let (ws, there, index, forms, counts) = same.kept i ws' e in counts v ∙ h.held i ws there v;
  known = λ v i e. same.ids v ∙ h.known v i e;
}

pub SamePlaces-refl : (w : Server) → SamePlaces w w
SamePlaces-refl w = record { ids = λ v. refl; kept = λ i ws e. (ws, e, (refl, refl), refl) }

-- One workspace with the same views, and a scene with the same workspaces, stored back.
pub store-SamePlaces :
    (w0 w : Server) (i : ℕ) (ws : Workspace) (r : Workspace × Scene)
    → get_elem? w.workspaces i ≡ some ws
    → SameViews ws r.0
    → r.0.index ≡ ws.index
    → ((v : ℕ) → (r.1.view v).workspace_id ≡ (w.scene.view v).workspace_id)
    → SamePlaces w0 w
    → SamePlaces w0 (store_workspace i w r)
store-SamePlaces w0 w i ws r there views index ids h = record {
  ids = λ v. ids v ∙ h.ids v;
  kept = λ j ws' e. elim (set_cases w.workspaces i j ws r.0 ws' there e) [
    | inl (same, new) ↦
        let (old, at, same_views, same_index) = h.kept i ws there in
        rw (same, new) ((old, at, SameViews-trans old ws r.0 same_views views, index ∙ same_index))
    | inr (other, e') ↦ h.kept j ws' e'
  ];
}
