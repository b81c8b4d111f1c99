-- ===== src/Workspace/Edit/Output.antt =====
-- `Workspace::activate` and `deactivate` of cardboard/Workspace.cpp.
use cardboard.Base.{ℕ, Option, none, some, List, [], ◌∷◌, ◌++◌, map}
use cardboard.View.{Scene, change_output}
use cardboard.Workspace.{Tile, Column, Workspace}

abbrev pub tile_views : List Tile → List ℕ
tile_views ts = map (λ (t : Tile). t.view) ts

-- The views of the columns, from left to right and from top to bottom.
abbrev pub column_views : List Column → List ℕ
column_views [] = []
column_views (c ∷ cs) = tile_views c.tiles ++ column_views cs

abbrev pub views_of : Workspace → List ℕ
views_of ws = column_views ws.columns ++ ws.floating_views

-- One loop: the views change from one output to another.
unfoldable pub move_views : Option ℕ → Option ℕ → List ℕ → Scene → Scene
move_views old new [] s = s
move_views old new (v ∷ vs) s = move_views old new vs (change_output v old new s)

-- `Workspace::activate`
unfoldable pub activate : ℕ → Workspace → Scene → Workspace × Scene
unfolding move_views
activate o ws s = (
  record ws { output = some o },
  move_views ws.output (some o) ws.floating_views
      (move_views ws.output (some o) (column_views ws.columns) s),
)

abbrev deactivate_from : Option ℕ → Workspace → Scene → Workspace × Scene
deactivate_from none ws s = (ws, s)
deactivate_from (some o) ws s = (
  record ws { output = none },
  move_views (some o) none ws.floating_views (move_views (some o) none (column_views ws.columns) s),
)

-- `Workspace::deactivate`
unfoldable pub deactivate : Workspace → Scene → Workspace × Scene
unfolding move_views
deactivate ws s = deactivate_from ws.output ws s
