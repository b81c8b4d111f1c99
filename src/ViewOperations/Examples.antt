-- ===== src/ViewOperations/Examples.antt =====
-- A view that is mapped on one workspace and moved to another.
use cardboard.Base.{ℕ, ◌≡◌, refl, none, some, [], ◌∷◌, zero, suc, arith, get_elem?}
use cardboard.Base.Store.{update}
use cardboard.View.{set_activated, change_output, close_popups, resize, enqueue_task}
use cardboard.Workspace.{Workspace, mapped_and_normal_tiles}
use cardboard.Workspace.Arrange.{
  arrange_workspace, arrange_columns, arrange_column, place_tiles, arrange_fullscreen, place_tile,
}
use cardboard.Workspace.Fit.{fit_view_on_screen}
use cardboard.Workspace.Edit.{add_view, remove_view}
use cardboard.Workspace.Life.{create_workspace}
use cardboard.Seat.{
  Server, focus_view, focus_view_only, give_focus, move_view_to_front, fit_on_screen,
  deactivate_previous,
}
use cardboard.Seat.Examples.{screen, wlroots, server, after}
use cardboard.Seat.Views.{map_view, get_focused_workspace}
use cardboard.Cursor.{cursor_rebase}
use cardboard.Cursor.Examples.{hovering, panels}
use cardboard.ViewOperations.{change_view_workspace, transfer, bring_fullscreen, fit_floating}
use cardboard.ViewOperations.Places.{Implements}
use cardboard.ViewOperations.Life.{started, next, maps, changes, Reach-Implements}

-- Two workspaces without views, the first of them on an output.
abbrev pub empty_server : Server
empty_server = record (server []) {
  workspaces = record (create_workspace 0) { output = some 0 } ∷ create_workspace 1 ∷ [];
}

abbrev pub mapped_server : Server
mapped_server = after (map_view screen wlroots 7 empty_server)

pub empty_workspaces :
    (i : ℕ) (ws : Workspace)
    → get_elem? empty_server.workspaces i ≡ some ws
    → (ws.index ≡ i) × (ws.columns ≡ []) × (ws.floating_views ≡ [])
empty_workspaces zero ws e = ground (arith, e)
empty_workspaces (suc zero) ws e = ground (arith, e)
empty_workspaces (suc (suc i)) ws e = ground (arith, e)

Reach-Implements_example :
    Implements
      (update (update (λ v. none) 7 (some 0)) 7 (some 1))
      (after (change_view_workspace screen wlroots hovering panels 7 1 mapped_server))
unfolding map_view get_focused_workspace focus_view focus_view_only give_focus move_view_to_front
    fit_on_screen deactivate_previous add_view remove_view arrange_workspace change_output
    set_activated close_popups change_view_workspace transfer bring_fullscreen fit_floating
    cursor_rebase arrange_columns arrange_column place_tiles mapped_and_normal_tiles
    arrange_fullscreen place_tile resize enqueue_task fit_view_on_screen
Reach-Implements_example =
    Reach-Implements screen wlroots {owner = update (update (λ v. none) 7 (some 0)) 7 (some 1)} (
      next {owner = update (λ v. none) 7 (some 0)} {w = mapped_server}
        (next {owner = λ v. none} {w = empty_server} (started empty_workspaces) (
          maps 7 0 (record (create_workspace 0) { output = some 0 }) {w' = mapped_server} refl refl
            refl refl))
        (changes hovering panels 7 0 1
          {w' = after (change_view_workspace screen wlroots hovering panels 7 1 mapped_server)} refl
          refl))
