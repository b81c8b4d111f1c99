-- ===== src/Workspace/Life.antt =====
-- A workspace through any sequence of the operations of cardboard/Workspace.cpp, from its creation
-- by `OutputManager::create_workspace` (cardboard/OutputManager.cpp).
use cardboard.Base.{
  ℕ, ◌≡◌, refl, sym, ap, ◌∙◌, Bool, false, Option, none, some, [], arith, any, Bool-cases, inl, inr,
}
use cardboard.Base.Int.{pos}
use cardboard.Base.Count.{count}
use cardboard.View.{Scene}
use cardboard.Workspace.{Column, Workspace, Env}
use cardboard.Workspace.Arrange.{arrange_workspace}
use cardboard.Workspace.Edit.{
  displace_view, add_view, remove_view, insert_into_column, pop_from_column, set_fullscreen_view,
}
use cardboard.Workspace.Edit.Laws.{add_view-IsWellFormed, remove_view-views}
use cardboard.Workspace.Edit.Moves.{
  inserted, insert_into_column-inserted, inserted-IsWellFormed, pop_from_column-IsWellFormed,
  workspace_of,
}
use cardboard.Workspace.Edit.Output.{views_of, activate, deactivate}
use cardboard.Workspace.Edit.WellFormed.{has_address, IsWellFormed}
use cardboard.Workspace.Fit.{fit_view_on_screen}

-- The workspace that `create_workspace` appends: no view, no output, no scroll.
abbrev pub create_workspace : ℕ → Workspace
create_workspace index = record {
  columns = [];
  floating_views = [];
  output = none;
  fullscreen_view = none;
  index = index;
  scroll_x = pos 0;
  suspend_animations = false;
}

-- One operation. Views are added where they are not, and inserted into a column where they are;
-- `clients` is any change of the windows between two operations.
pub data Step (env : Env) (ws : Workspace) (s : Scene) : Workspace × Scene → Type 0 where
  adds :
      (v : ℕ) (next_to : Option ℕ) (floating transferring : Bool)
      → count v (views_of ws) ≡ 0
      → Step env ws s (add_view env v next_to floating transferring ws s)
  removes : (v : ℕ) (transferring : Bool) → Step env ws s (remove_view env v transferring ws s)
  inserts :
      (v : ℕ) (c : Column) {r : Workspace × Scene}
      → count v (views_of ws) ≡ 1
      → insert_into_column env v c ws s ≡ some r
      → Step env ws s r
  pops : (c : Column) → Step env ws s (pop_from_column env c ws s)
  expands :
      (v : Option ℕ) {r : Workspace × Scene}
      → set_fullscreen_view env v ws s ≡ some r
      → Step env ws s r
  arranges : (animate : Bool) → Step env ws s (ws, arrange_workspace env ws animate s)
  fits : (v : ℕ) (condense : Bool) → Step env ws s (fit_view_on_screen env v condense ws s)
  activates : (o : ℕ) → Step env ws s (activate o ws s)
  deactivates : Step env ws s (deactivate ws s)
  clients : (t : Scene) → Step env ws s (ws, t)

pub data Reach (env : Env) : Workspace × Scene → Type 0 where
  created : (index : ℕ) (s : Scene) → Reach env (create_workspace index, s)
  next : {p r : Workspace × Scene} → Reach env p → Step env p.0 p.1 r → Reach env r

inserts-IsWellFormed :
    (env : Env) (ws : Workspace) (s : Scene) (v : ℕ) (c : Column) (r : Workspace × Scene)
    → count v (views_of ws) ≡ 1
    → insert_into_column env v c ws s ≡ some r
    → IsWellFormed ws
    → IsWellFormed r.0
inserts-IsWellFormed env ws s v c r once e h =
    let made = sym (ap workspace_of e) ∙ insert_into_column-inserted env v c ws s in
    elim (Bool-cases (any (has_address c.address) (displace_view v ws).columns)) [
      | inl there ↦
          let same : r.0 ≡ inserted v c.address ws = ground (arith, made) in
          rw same ((inserted-IsWellFormed v c.address ws there once h).0)
      | inr gone ↦ absurd (ground (arith, made))
    ]

-- The columns and the floating views are as they were.
abbrev pub SameViews : Workspace → Workspace → Type 0
SameViews ws ws' = (ws'.columns ≡ ws.columns) × (ws'.floating_views ≡ ws.floating_views)

pub same-IsWellFormed : {ws ws' : Workspace} → SameViews ws ws' → IsWellFormed ws → IsWellFormed ws'
same-IsWellFormed e h = record {
  tidy = rw (e.0) h.tidy;
  distinct = λ v. rw (e.0, e.1) (h.distinct v);
}

pub expands-same :
    (env : Env) (v : Option ℕ) (ws : Workspace) (s : Scene) (r : Workspace × Scene)
    → set_fullscreen_view env v ws s ≡ some r
    → SameViews ws r.0
unfolding set_fullscreen_view
expands-same env v ws s r e = ground arith

pub fits-same :
    (env : Env) (v : ℕ) (condense : Bool) (ws : Workspace) (s : Scene)
    → SameViews ws (fit_view_on_screen env v condense ws s).0
unfolding fit_view_on_screen
fits-same env v condense ws s = ground arith

activates-same : (o : ℕ) (ws : Workspace) (s : Scene) → SameViews ws (activate o ws s).0
unfolding activate
activates-same o ws s = (refl, refl)

deactivates-same : (ws : Workspace) (s : Scene) → SameViews ws (deactivate ws s).0
unfolding deactivate
deactivates-same ws s = ground arith

pub Step-IsWellFormed :
    {env : Env} {ws : Workspace} {s : Scene} {r : Workspace × Scene}
    → Step env ws s r
    → IsWellFormed ws
    → IsWellFormed r.0
Step-IsWellFormed {env} {ws} {s} (adds v next_to floating transferring new) h =
    add_view-IsWellFormed env v next_to floating transferring ws s new h
Step-IsWellFormed {env} {ws} {s} (removes v transferring) h =
    (remove_view-views env v transferring ws s h).1
Step-IsWellFormed {env} {ws} {s} (inserts v c {r} once e) h =
    inserts-IsWellFormed env ws s v c r once e h
Step-IsWellFormed {env} {ws} {s} (pops c) h = pop_from_column-IsWellFormed env c ws s h
Step-IsWellFormed {env} {ws} {s} (expands v {r} e) h =
    same-IsWellFormed (expands-same env v ws s r e) h
Step-IsWellFormed (arranges animate) h = h
Step-IsWellFormed {env} {ws} {s} (fits v condense) h =
    same-IsWellFormed (fits-same env v condense ws s) h
Step-IsWellFormed {env} {ws} {s} (activates o) h = same-IsWellFormed (activates-same o ws s) h
Step-IsWellFormed {env} {ws} {s} deactivates h = same-IsWellFormed (deactivates-same ws s) h
Step-IsWellFormed (clients t) h = h

-- After any sequence of add_view, remove_view, insert_into_column, pop_from_column,
-- set_fullscreen_view, arrange_workspace, fit_view_on_screen, activate, deactivate and changes of
-- the scene by clients, from a new workspace, with views added where they are not and inserted
-- where they are: no view is twice in the workspace, no column is empty, each tile points to its
-- column, and no two columns share an address.
pub Reach-IsWellFormed : {env : Env} {p : Workspace × Scene} → Reach env p → IsWellFormed p.0
Reach-IsWellFormed (created index s) = record { tidy = tt; distinct = λ v. omega arith }
Reach-IsWellFormed (next r st) = Step-IsWellFormed st (Reach-IsWellFormed r)
