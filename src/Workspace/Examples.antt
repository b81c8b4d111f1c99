-- ===== src/Workspace/Examples.antt =====
-- A workspace of three columns on an output of 1000 by 600, and the theorems about workspaces there.
use cardboard.Base.{
  ℕ, ◌≡◌, refl, ◌*◌, ◌+◌, true, false, none, some, [], ◌∷◌, arith, ◌==◌, if◌then◌else◌, any,
}
use cardboard.Base.Int.{pos, ◌+ℤ◌, ◌-ℤ◌, ◌≤ℤ◌, max_ℤ}
use cardboard.View.{View, Scene, xdg, xwayland, normal, fullscreen}
use cardboard.Workspace.{
  Tile, Column, Workspace, FloatOps, Env, one_float, mapped_and_normal_tiles, get_view_wx,
}
use cardboard.Workspace.Tiles.{mapped_and_normal_tiles-keep_if}
use cardboard.Workspace.Arrange.{arrange_workspace}
use cardboard.Workspace.Arrange.Frame.{Keeps, arrange_workspace-Keeps}
use cardboard.Workspace.Arrange.Position.{IsPlaced, arrange_workspace-IsPlaced, row_width}
use cardboard.Workspace.Arrange.Safe.{failures, failures-arrange_workspace}
use cardboard.Workspace.Arrange.Stacked.{IsStacked, stack_end, share, arrange_workspace-IsStacked}
use cardboard.Workspace.Edit.{
  add_view, remove_view, insert_into_column, pop_from_column, set_fullscreen_view, new_column,
  displace_view,
}
use cardboard.Workspace.Edit.Fullscreen.{set_fullscreen_view_twice}
use cardboard.Workspace.Edit.Laws.{add_view_next, remove_view-views}
use cardboard.Workspace.Edit.Moves.{inserted, insert_into_column-inserted, workspace_of}
use cardboard.Workspace.Edit.Output.{views_of}
use cardboard.Workspace.Edit.RoundTrip.{remove_view-add_view}
use cardboard.Workspace.Edit.WellFormed.{IsWellFormed}
use cardboard.Workspace.Fit.{fit_view_on_screen}
use cardboard.Workspace.Fit.Visible.{fit_view_on_screen-visible}
use cardboard.Workspace.Fit.Wx.{get_view_wx-row_width, get_view_wx_unmapped_column}
use cardboard.Workspace.Life.{adds, pops, created, next, create_workspace, Reach-IsWellFormed}

abbrev integers : FloatOps
integers = record {
  add = λ a b. a + b;
  mul = λ a b. a * b;
  div = λ a b. a;
  of_size_t = λ n. n;
  to_int = pos;
}

abbrev screen : Env
screen = record {
  gap = pos 10;
  output_box = λ o. record { x = pos 0; y = pos 0; width = pos 1000; height = pos 600 };
  usable_area = λ o. record { x = pos 0; y = pos 20; width = pos 1000; height = pos 580 };
  float = integers;
  now = 0;
}

-- A window of width 300; those from the fourth on are not mapped, and the sixth is fullscreen.
abbrev window : ℕ → View
window v = record {
  shell = xdg;
  is_toplevel = true;
  geometry = record { x = pos 2; y = pos 2; width = pos 300; height = pos 400 };
  saved_state =
      if v == 6
      then some (record { x = pos 1; y = pos 1; width = pos 300; height = pos 400 })
      else none;
  expansion_state = if v == 6 then fullscreen else normal;
  previous_size = (pos 0, pos 0);
  workspace_id = pos 0;
  x = pos 5;
  y = pos 5;
  target_x = if v == 3 then pos 618 else pos 5;
  target_y = pos 5;
  target_width = pos 300;
  target_height = pos 400;
  mapped = if v == 4 then false else true;
  new_view = false;
}

abbrev scene : Scene
scene = record { view = window; tasks = []; log = [] }

abbrev tile : ℕ → ℕ → Tile
tile v a = record { view = v; column = a; vertical_scale = one_float }

abbrev left : Column
left = record { address = 0; tiles = tile 1 0 ∷ [] }

abbrev middle : Column
middle = record { address = 1; tiles = tile 2 1 ∷ tile 4 1 ∷ [] }

abbrev right : Column
right = record { address = 2; tiles = tile 3 2 ∷ [] }

abbrev hidden : Column
hidden = record { address = 3; tiles = tile 4 3 ∷ [] }

abbrev desk : Workspace
desk = record (create_workspace 0) {
  columns = left ∷ middle ∷ right ∷ [];
  floating_views = 5 ∷ [];
  output = some 0;
}

abbrev covered : Workspace
covered = record (create_workspace 0) { columns = []; output = some 0; fullscreen_view = some 6 }

abbrev uneven : Workspace
uneven = record (create_workspace 0) { columns = hidden ∷ right ∷ []; output = some 0 }

desk-IsWellFormed : IsWellFormed desk
desk-IsWellFormed = record {
  tidy = (
    (λ e. cc),
    (refl, tt),
    refl,
    ((λ e. cc), (refl, (refl, tt)), refl, ((λ e. cc), (refl, tt), refl, tt)),
  );
  distinct = λ v. ground arith;
}

mapped_and_normal_tiles-keep_if_example :
    mapped_and_normal_tiles window middle.tiles ≡ tile 2 1 ∷ []
mapped_and_normal_tiles-keep_if_example = mapped_and_normal_tiles-keep_if window middle.tiles

arrange_workspace-Keeps_example : Keeps scene (arrange_workspace screen desk true scene)
arrange_workspace-Keeps_example = arrange_workspace-Keeps screen desk true scene

arrange_workspace-IsPlaced_example :
    IsPlaced
      (pos 0 +ℤ row_width (pos 10) window (pos 0) (left ∷ middle ∷ []))
      (pos 0)
      false
      ((arrange_workspace screen desk false scene).view 3)
arrange_workspace-IsPlaced_example =
    arrange_workspace-IsPlaced screen desk false scene 0 3 (left ∷ middle ∷ []) right [] refl refl
      refl refl refl

-- All windows are of Xwayland; the fourth is in a column and is not mapped.
abbrev xwayland_scene : Scene
xwayland_scene = record scene { view = λ v. record (window v) { shell = xwayland } }

failures-arrange_workspace_example :
    failures (arrange_workspace screen desk true xwayland_scene).log ≡ 0
failures-arrange_workspace_example = failures-arrange_workspace screen desk true xwayland_scene tt

abbrev tall : Column
tall = record { address = 1; tiles = tile 2 1 ∷ tile 4 1 ∷ tile 7 1 ∷ [] }

abbrev tall_desk : Workspace
tall_desk = record desk { columns = left ∷ tall ∷ right ∷ [] }

arrange_workspace-IsStacked_example :
    IsStacked
      (stack_end screen 540 (0 + one_float + one_float) (pos 30) (tile 2 1 ∷ []))
      (share screen 540 (0 + one_float + one_float) (tile 7 1))
      ((arrange_workspace screen tall_desk true scene).view 7)
unfolding ◌+ℤ◌
arrange_workspace-IsStacked_example =
    arrange_workspace-IsStacked screen tall_desk true scene 0 580 10 (left ∷ []) tall (right ∷ [])
      (tile 2 1 ∷ []) (tile 7 1) [] refl refl refl refl refl refl refl refl (omega arith)
      (omega arith) (omega arith)

get_view_wx-row_width_example :
    get_view_wx screen desk scene 3 ≡ row_width (pos 10) window (pos 0) (left ∷ middle ∷ [])
unfolding max_ℤ
get_view_wx-row_width_example =
    get_view_wx-row_width screen desk scene 3 (left ∷ middle ∷ []) right [] refl refl refl refl
      (((λ e. cc), refl), (((λ e. cc), refl), tt))

get_view_wx_unmapped_column_example :
    (get_view_wx screen uneven scene 3 ≡ pos 0)
    × IsPlaced (pos 0 +ℤ pos 10) (pos 0) true ((arrange_workspace screen uneven true scene).view 3)
get_view_wx_unmapped_column_example =
    get_view_wx_unmapped_column screen uneven true scene 0 3 hidden right [] refl refl refl refl
      refl refl refl

fit_view_on_screen-visible_example :
    let w = (fit_view_on_screen screen 3 true desk scene).1.view 3 in
    (pos 0 ≤ℤ w.target_x +ℤ w.geometry.x)
    × (w.target_x +ℤ w.geometry.x +ℤ w.geometry.width ≤ℤ pos 0 +ℤ pos 1000)
unfolding max_ℤ ◌+ℤ◌ ◌-ℤ◌
fit_view_on_screen-visible_example =
    fit_view_on_screen-visible screen 3 true desk scene 0 (left ∷ middle ∷ []) right [] refl refl
      refl refl refl refl (((λ e. cc), refl), (((λ e. cc), refl), tt)) refl (omega arith)
      (omega arith) (omega arith) refl

add_view_next_example :
    (add_view screen 7 (some 1) false false desk scene).0.columns
    ≡ left ∷ new_column 7 3 ∷ middle ∷ right ∷ []
add_view_next_example =
    add_view_next screen 7 1 false desk scene [] left (middle ∷ right ∷ []) refl refl refl

remove_view-views_example :
    (views_of (remove_view screen 1 false desk scene).0 ≡ 2 ∷ 4 ∷ 3 ∷ 5 ∷ [])
    × IsWellFormed (remove_view screen 1 false desk scene).0
remove_view-views_example = remove_view-views screen 1 false desk scene desk-IsWellFormed

remove_view-add_view_example :
    (remove_view screen 7 true (add_view screen 7 (some 1) false true desk scene).0 scene).0 ≡ desk
remove_view-add_view_example = remove_view-add_view screen 7 (some 1) false desk scene scene refl

insert_into_column-inserted_example : workspace_of (insert_into_column screen 2 left desk scene) ≡ (
    if any (λ (c : Column). c.address == 0) (displace_view 2 desk).columns
    then some (inserted 2 0 desk)
    else none)
insert_into_column-inserted_example = insert_into_column-inserted screen 2 left desk scene

set_fullscreen_view_twice_example : set_fullscreen_view screen (some 6) covered scene ≡ none
set_fullscreen_view_twice_example =
    set_fullscreen_view_twice screen 6
      (record { x = pos 1; y = pos 1; width = pos 300; height = pos 400 }) covered scene refl refl

abbrev one_view : Workspace × Scene
one_view = add_view screen 1 none false false (create_workspace 0) scene

Reach-IsWellFormed_example : IsWellFormed (pop_from_column screen left one_view.0 one_view.1).0
Reach-IsWellFormed_example =
    Reach-IsWellFormed {env = screen} {p = pop_from_column screen left one_view.0 one_view.1}
      (next {p = one_view} (next (created 0 scene) (adds 1 none false false refl)) (pops left))
