-- ===== src/Workspace/Edit/Laws.antt =====
-- `add_view` and `remove_view` of cardboard/Workspace.cpp, as the workspace sees them.
use cardboard.Base.{ℕ, ◌≡◌, Bool, true, false, Option, some, List, [], ◌∷◌, ◌++◌, any, subst, sym}
use cardboard.Base.Count.{count, without}
use cardboard.View.{Scene}
use cardboard.Workspace.{Column, Workspace, Env, holds}
use cardboard.Workspace.Edit.{
  new_column, fresh_address, add_view, remove_view, detach_workspace, insert_column,
}
use cardboard.Workspace.Edit.Columns.{
  IsElsewhere, insert_column_next, insert_column_last, views_of-displace_view,
}
use cardboard.Workspace.Edit.Output.{views_of}
use cardboard.Workspace.Edit.WellFormed.{
  IsWellFormed, place_view-IsWellFormed, displace_view-IsWellFormed,
}

-- A tiled view added next to a view of the first column that holds that one gets a column of its
-- own directly to the right of it; the other columns stay.
pub add_view_next :
    (env : Env) (v n : ℕ) (transferring : Bool) (ws : Workspace) (s : Scene) (before : List Column)
    (c : Column) (after : List Column)
    → ws.columns ≡ before ++ c ∷ after
    → any (holds n) before ≡ false
    → holds n c ≡ true
    → (add_view env v (some n) false transferring ws s).0.columns
      ≡ before ++ c ∷ new_column v (fresh_address ws.columns) ∷ after
unfolding add_view
add_view_next env v n transferring ws s before c after split alone hit =
    subst
      (λ cs. insert_column v (some n) cs ≡ before ++ c ∷ new_column v (fresh_address cs) ∷ after)
      (sym split) (insert_column_next v n before c after alone hit)

-- A tiled view that is added next to no view, or to one that is in none of the columns, gets the
-- last column.
pub add_view_last :
    (env : Env) (v : ℕ) (next_to : Option ℕ) (transferring : Bool) (ws : Workspace) (s : Scene)
    → IsElsewhere next_to ws.columns
    → (add_view env v next_to false transferring ws s).0.columns
      ≡ ws.columns ++ new_column v (fresh_address ws.columns) ∷ []
unfolding add_view
add_view_last env v next_to transferring ws s h = insert_column_last v next_to ws.columns h

-- remove_view on a well-formed workspace gives the views without the removed one, in their order,
-- and a well-formed workspace, so with no empty column.
pub remove_view-views :
    (env : Env) (v : ℕ) (transferring : Bool) (ws : Workspace) (s : Scene)
    → IsWellFormed ws
    → (views_of (remove_view env v transferring ws s).0 ≡ without v (views_of ws))
      × IsWellFormed (remove_view env v transferring ws s).0
unfolding remove_view
remove_view-views env v true ws s h =
    (views_of-displace_view v ws (h.distinct v), displace_view-IsWellFormed v ws h)
remove_view-views env v false ws s h =
    let ws' = detach_workspace v ws in
    let h' : IsWellFormed ws' = record { tidy = h.tidy; distinct = h.distinct } in
    (views_of-displace_view v ws' (h.distinct v), displace_view-IsWellFormed v ws' h')

pub add_view-IsWellFormed :
    (env : Env) (v : ℕ) (next_to : Option ℕ) (floating transferring : Bool) (ws : Workspace)
    (s : Scene)
    → count v (views_of ws) ≡ 0
    → IsWellFormed ws
    → IsWellFormed (add_view env v next_to floating transferring ws s).0
unfolding add_view
add_view-IsWellFormed env v next_to floating transferring ws s new h =
    place_view-IsWellFormed v next_to floating ws new h
