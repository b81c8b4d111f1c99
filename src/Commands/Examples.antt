-- ===== src/Commands/Examples.antt =====
-- Commands on small servers.
use cardboard.Base.{ℕ, ◌≡◌, refl, Option, none, some, [], ◌∷◌, arith}
use cardboard.Base.Int.{pos, negsuc}
use cardboard.Base.Text.{Text, codes}
use cardboard.Base.Count.{count}
use cardboard.Base.Store.{update}
use cardboard.Protocol
use cardboard.Cutter.{find_mod_key, parse_arguments, call_parser, parse_bind, bind_loop}
use cardboard.Cutter.Examples.{ascii}
use cardboard.Workspace.Edit.{new_column}
use cardboard.Workspace.Edit.WellFormed.{IsWellFormed}
use cardboard.Workspace.Edit.Output.{column_views}
use cardboard.Seat.Examples.{screen, wlroots, desk, server}
use cardboard.Cursor.Examples.{hovering, panels}
use cardboard.Motion.Examples.{whole}
use cardboard.Commands.{Command, Compositor, World}
use cardboard.Commands.Columns.{moved_columns}
use cardboard.Commands.Columns.Moved.{count-moved_columns}
use cardboard.Commands.Dispatch.{dispatch_command}
use cardboard.Commands.Dispatch.Total.{dispatch_command-parse_arguments}
use cardboard.Commands.Windows.{toggled}
use cardboard.Commands.Windows.Floating.{IsToggled, toggled-IsToggled}
use cardboard.View.{Scene, set_activated, change_output, close_popups, resize, enqueue_task}
use cardboard.Workspace.{Workspace, mapped_and_normal_tiles}
use cardboard.Workspace.Arrange.{
  arrange_workspace, arrange_columns, arrange_column, place_tiles, arrange_fullscreen, place_tile,
}
use cardboard.Workspace.Fit.{fit_view_on_screen}
use cardboard.Workspace.Edit.{add_view, remove_view}
use cardboard.Workspace.Life.{create_workspace}
use cardboard.Seat.{
  focus_view, focus_view_only, give_focus, move_view_to_front, fit_on_screen, deactivate_previous,
}
use cardboard.Seat.Views.{map_view, get_focused_workspace}
use cardboard.Cursor.{cursor_rebase, get_surface_under_cursor}
use cardboard.ViewOperations.{change_view_workspace, transfer, bring_fullscreen, fit_floating}
use cardboard.ViewOperations.Places.{Implements}
use cardboard.ViewOperations.Life.{started, next, maps, Reach-Implements}
use cardboard.ViewOperations.Examples.{empty_server, mapped_server, empty_workspaces}
use cardboard.Commands.{Outcome, server_of, run_workspace_move}
use cardboard.Commands.Places.{run_workspace_move-Leaves}

abbrev keysym_of : Text → Option ℕ
keysym_of [] = none
keysym_of (b ∷ t) = some b

-- cutter bind super+q quit
dispatch_command-parse_arguments_example :
    (c : Command) × (dispatch_command keysym_of
        (Protocol.bind (codes "super" ∷ []) (codes "q") Protocol.close)
      ≡ some c)
unfolding find_mod_key parse_arguments call_parser parse_bind bind_loop
dispatch_command-parse_arguments_example =
    dispatch_command-parse_arguments keysym_of ascii
      (codes "bind" ∷ codes "super+Q" ∷ codes "close" ∷ [])
      (Protocol.bind (codes "super" ∷ []) (codes "q") Protocol.close) refl

-- The second view goes to the first column.
count-moved_columns_example :
    count 8
      (column_views (moved_columns 8 (negsuc 0) (pos 0) 1 (new_column 7 0 ∷ new_column 8 1 ∷ [])))
    ≡ 1
unfolding moved_columns
count-moved_columns_example =
    count-moved_columns 8 8 (negsuc 0) (pos 0) 1 (new_column 7 0 ∷ new_column 8 1 ∷ [])

desk-IsWellFormed : IsWellFormed desk
desk-IsWellFormed = record {
  tidy = ((λ e. cc), (refl, tt), refl, ((λ e. cc), (refl, tt), refl, tt));
  distinct = λ v. ground arith;
}

toggled-IsToggled_example :
    (r : Workspace × Scene) × (toggled screen 7 (7 ∷ 8 ∷ []) desk (server []).scene ≡ some r)
    × IsToggled 7 desk r.0
toggled-IsToggled_example =
    toggled-IsToggled screen 7 (7 ∷ 8 ∷ []) desk (server []).scene desk-IsWellFormed refl refl refl

abbrev world : World
world = record {
  env = screen;
  out = wlroots;
  pointing = record hovering { output_at_cursor = none };
  warped = λ x y. hovering;
  layers = panels;
  doubles = whole;
  to_string = λ n. [];
}

-- One view on the first of two workspaces.
abbrev one_view : Compositor
one_view = record {
  grabbing = record { server = mapped_server; grab_state = none; rebased = 0 };
  config = record { mouse_mods = 64; gap = pos 10; focus_color = (0, 0, 0, 0) };
  keybindings = λ mask. [];
  requests = [];
}

one_view-Implements : Implements (update (λ v. none) 7 (some 0)) mapped_server
unfolding map_view get_focused_workspace focus_view focus_view_only give_focus move_view_to_front
    fit_on_screen deactivate_previous add_view remove_view arrange_workspace change_output
    set_activated close_popups change_view_workspace transfer bring_fullscreen fit_floating
    cursor_rebase arrange_columns arrange_column place_tiles mapped_and_normal_tiles
    arrange_fullscreen place_tile resize enqueue_task fit_view_on_screen
one_view-Implements = Reach-Implements screen wlroots {owner = update (λ v. none) 7 (some 0)} (
    next {owner = λ v. none} {w = empty_server} (started empty_workspaces) (
      maps 7 0 (record (create_workspace 0) { output = some 0 }) {w' = mapped_server} refl refl refl
        refl))

abbrev result : Outcome → Compositor
result none = one_view
result (some (c, message)) = c

run_workspace_move-Leaves_example :
    Implements
      (update (update (λ v. none) 7 (some 0)) 7 (some 1))
      (server_of (result (run_workspace_move world (pos 1) one_view)))
unfolding map_view get_focused_workspace focus_view focus_view_only give_focus move_view_to_front
    fit_on_screen deactivate_previous add_view remove_view arrange_workspace change_output
    set_activated close_popups change_view_workspace transfer bring_fullscreen fit_floating
    cursor_rebase arrange_columns arrange_column place_tiles mapped_and_normal_tiles
    arrange_fullscreen place_tile resize enqueue_task fit_view_on_screen run_workspace_move
    get_surface_under_cursor
run_workspace_move-Leaves_example =
    run_workspace_move-Leaves world (pos 1) one_view (update (λ v. none) 7 (some 0)) 7 0
      one_view-Implements refl refl
