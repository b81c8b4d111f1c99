-- ===== src/Workspace/Arrange/Frame.antt =====
-- What `arrange_workspace` (cardboard/Workspace.cpp) leaves alone.
use cardboard.Base.{ℕ, ap, not, ◌&&◌, Bool, ◌≡◌, Option, none, some, List, [], ◌∷◌, arith}
use cardboard.Base.Int.{ℤ, pos}
use cardboard.View.{View, Box, Scene, resize, move, enqueue_task}
use cardboard.Workspace.{Tile, Column, Workspace, Env}
use cardboard.Workspace.Arrange.{
  Placing, Slot, place_tile, place_tiles, arrange_column, arrange_columns, arrange_fullscreen,
  next_width, arrange_on, arrange_workspace,
}

-- The fields of a view that the layout reads and never writes.
pub record SameWindow (v w : View) : Type 0 where
  pub shell : w.shell ≡ v.shell
  pub geometry : w.geometry ≡ v.geometry
  pub mapped : w.mapped ≡ v.mapped
  pub expansion_state : w.expansion_state ≡ v.expansion_state
  pub saved_state : w.saved_state ≡ v.saved_state
  pub workspace_id : w.workspace_id ≡ v.workspace_id

pub record Keeps (s t : Scene) : Type 0 where
  pub same : (v : ℕ) → SameWindow (s.view v) (t.view v)

pub Keeps-refl : (s : Scene) → Keeps s s
Keeps-refl s = record { same = λ v. ground arith }

pub Keeps-trans : {s t u : Scene} → Keeps s t → Keeps t u → Keeps s u
Keeps-trans h k = record { same = λ v. ground (arith, h.same v, k.same v) }

pub place_tile-Keeps :
    (env : Env) (slot : Slot) (t : Tile) (p : Placing)
    → Keeps p.scene (place_tile env slot t p).scene
unfolding place_tile resize enqueue_task
place_tile-Keeps env slot t p = record { same = λ v. ground arith }

pub place_tiles-Keeps :
    (env : Env) (slot : Slot) (ts : List Tile) (p : Placing)
    → Keeps p.scene (place_tiles env slot ts p).scene
unfolding place_tiles
place_tiles-Keeps env slot [] p = Keeps-refl p.scene
place_tiles-Keeps env slot (t ∷ ts) p =
    Keeps-trans (place_tile-Keeps env slot t p)
      (place_tiles-Keeps env slot ts (place_tile env slot t p))

pub arrange_column-Keeps :
    (env : Env) (scroll_x : ℤ) (o : ℕ) (animated : Bool) (acc : ℤ) (c : Column) (s : Scene)
    → Keeps s (arrange_column env scroll_x o animated acc c s).scene
unfolding arrange_column
arrange_column-Keeps env scroll_x o animated acc c s = place_tiles-Keeps env _ _ _

pub arrange_columns-Keeps :
    (env : Env) (scroll_x : ℤ) (o : ℕ) (animated : Bool) (acc : ℤ) (cs : List Column) (s : Scene)
    → Keeps s (arrange_columns env scroll_x o animated acc cs s)
unfolding arrange_columns
arrange_columns-Keeps env scroll_x o animated acc [] s = Keeps-refl s
arrange_columns-Keeps env scroll_x o animated acc (c ∷ cs) s =
    Keeps-trans (arrange_column-Keeps env scroll_x o animated acc c s) (
      arrange_columns-Keeps env scroll_x o animated
        (next_width env acc (arrange_column env scroll_x o animated acc c s)) cs
        (arrange_column env scroll_x o animated acc c s).scene)

pub arrange_fullscreen-Keeps :
    (b : Box) (f : Option ℕ) (s : Scene) → Keeps s (arrange_fullscreen b f s)
unfolding arrange_fullscreen move resize
arrange_fullscreen-Keeps b none s = Keeps-refl s
arrange_fullscreen-Keeps b (some v) s = record { same = λ w. ground arith }

-- Laying out a workspace changes no window's geometry, map state, expansion state, saved state or
-- workspace: it only sets positions and targets, and asks the clients for sizes.
pub arrange_workspace-Keeps :
    (env : Env) (ws : Workspace) (animate : Bool) (s : Scene)
    → Keeps s (arrange_workspace env ws animate s)
unfolding arrange_workspace
arrange_workspace-Keeps env ws animate s = on ws.output
  where
    on : (o : Option ℕ) → Keeps s (arrange_on env ws animate o s)
    on none = Keeps-refl s
    on (some o) =
        Keeps-trans (arrange_fullscreen-Keeps (env.output_box o) ws.fullscreen_view s)
          (arrange_columns-Keeps env ws.scroll_x o _ _ ws.columns _)

-- The layout of a workspace that an output shows, by its parts.
pub arrange_workspace_shown :
    (env : Env) (ws : Workspace) (animate : Bool) (s : Scene) (o : ℕ)
    → ws.output ≡ some o
    → arrange_workspace env ws animate s
      ≡ arrange_columns env ws.scroll_x o
          (animate && not ws.suspend_animations)
          (pos 0)
          ws.columns
          (arrange_fullscreen (env.output_box o) ws.fullscreen_view s)
unfolding arrange_workspace
arrange_workspace_shown env ws animate s o shown = ap (λ x. arrange_on env ws animate x s) shown

pub arrange_workspace_hidden :
    (env : Env) (ws : Workspace) (animate : Bool) (s : Scene)
    → ws.output ≡ none
    → arrange_workspace env ws animate s ≡ s
unfolding arrange_workspace
arrange_workspace_hidden env ws animate s hidden = ap (λ x. arrange_on env ws animate x s) hidden
