-- ===== src/Workspace/Arrange.antt =====
-- `Workspace::arrange_workspace` of cardboard/Workspace.cpp.
--
-- The loops test `should_skip` on tiles that `mapped_and_normal_tiles()` has already filtered, with
-- no change of a view's state in between, so the test never passes: every column is laid out, and
-- one with no mapped and normal tile takes up a gap.
pub mod Frame
pub mod Position
pub mod Stacked
pub mod Safe
use cardboard.Base.{
  ℕ, ◌+◌, ◌-◌, ◌*◌, ◌%◌, ◌^◌, Bool, not, ◌&&◌, Option, none, some, List, [], ◌∷◌, if◌then◌else◌,
  length,
}
use cardboard.Base.Int.{ℤ, pos, pos_part, neg_part, ◌+ℤ◌, ◌-ℤ◌, max_ℤ}
use cardboard.View.{
  Box, View, Scene, no_callback, modify, warp_to_target, resize, move, enqueue_task,
}
use cardboard.Workspace.{Tile, Column, Workspace, Env, mapped_and_normal_tiles}

-- An `int` converted to `size_t`, which wraps.
abbrev pub to_size_t : ℤ → ℕ
to_size_t a = (pos_part a + (2 ^ 64 - neg_part a % 2 ^ 64)) % 2 ^ 64

-- `usable_area.height - (column.tiles.size() + 1) * gap`: the size makes it unsigned arithmetic.
unfoldable pub available_height : ℤ → ℕ → ℤ → ℕ
available_height height tiles gap =
    (to_size_t height + (2 ^ 64 - ((tiles + 1) * to_size_t gap) % 2 ^ 64)) % 2 ^ 64

unfoldable pub tile_height : Env → ℤ → ℕ → ℕ → ℕ → ℤ
unfolding available_height
tile_height env usable_height tiles vertical_scale scale_sum = env.float.to_int (
    env.float.mul (env.float.of_size_t (available_height usable_height tiles env.gap))
      (env.float.div vertical_scale scale_sum))

-- The sum of the weights, from `0.0f`.
unfoldable pub scale_sum_from : Env → ℕ → List Tile → ℕ
scale_sum_from env acc [] = acc
scale_sum_from env acc (t ∷ ts) = scale_sum_from env (env.float.add acc t.vertical_scale) ts

-- The variables of the loop over a column's tiles.
pub record Placing : Type 0 where
  pub scene : Scene
  pub current_y : ℤ
  pub max_width : ℤ

-- What the loop over a column's tiles reads.
pub record Slot : Type 0 where
  pub output : ℕ
  pub animated : Bool
  pub acc_width : ℤ
  pub scroll_x : ℤ
  pub size : ℕ
  pub scale_sum : ℕ

abbrev pub target_of : Env → Slot → ℤ → View → View
target_of env slot current_y w = record w {
  target_x = (env.output_box slot.output).x +ℤ slot.acc_width -ℤ w.geometry.x -ℤ slot.scroll_x;
  target_y = current_y -ℤ w.geometry.y;
}

-- The view goes to its target by an animation, or at once.
unfoldable pub go_to_target : Env → Bool → ℕ → Scene → Scene
go_to_target env animated v s =
    if animated
    then enqueue_task env.now v (s.view v).target_x (s.view v).target_y no_callback s
    else modify v warp_to_target s

unfoldable pub place_tile : Env → Slot → Tile → Placing → Placing
unfolding go_to_target
place_tile env slot tile p =
    let v = tile.view in
    let w = p.scene.view v in
    let height =
      tile_height env (env.usable_area slot.output).height slot.size tile.vertical_scale
        slot.scale_sum in
    let placed =
      go_to_target env slot.animated v (modify v (target_of env slot p.current_y) p.scene) in
    record {
      scene = resize v w.geometry.width height placed;
      current_y = p.current_y +ℤ (height +ℤ env.gap);
      max_width = max_ℤ p.max_width w.geometry.width;
    }

unfoldable pub place_tiles : Env → Slot → List Tile → Placing → Placing
place_tiles env slot [] p = p
place_tiles env slot (t ∷ ts) p = place_tiles env slot ts (place_tile env slot t p)

-- One round of the loop over the columns: the scene, and the width that the column takes up.
unfoldable pub arrange_column : Env → ℤ → ℕ → Bool → ℤ → Column → Scene → Placing
arrange_column env scroll_x o animated acc_width c s =
    let tiles = mapped_and_normal_tiles s.view c.tiles in
    let slot : Slot = record {
      output = o;
      animated = animated;
      acc_width = acc_width;
      scroll_x = scroll_x;
      size = length c.tiles;
      scale_sum = scale_sum_from env 0 tiles;
    } in
    place_tiles env slot tiles (record {
      scene = s;
      current_y = (env.output_box o).y +ℤ (env.usable_area o).y +ℤ env.gap;
      max_width = pos 0;
    })

-- `acc_width += max_width + gap`
abbrev pub next_width : Env → ℤ → Placing → ℤ
next_width env acc_width p = acc_width +ℤ (p.max_width +ℤ env.gap)

unfoldable pub arrange_columns : Env → ℤ → ℕ → Bool → ℤ → List Column → Scene → Scene
arrange_columns env scroll_x o animated acc_width [] s = s
arrange_columns env scroll_x o animated acc_width (c ∷ cs) s =
    let p = arrange_column env scroll_x o animated acc_width c s in
    arrange_columns env scroll_x o animated (next_width env acc_width p) cs p.scene

-- The fullscreen view, if any, covers the output.
unfoldable pub arrange_fullscreen : Box → Option ℕ → Scene → Scene
arrange_fullscreen output_box none s = s
arrange_fullscreen output_box (some v) s =
    resize v output_box.width output_box.height
      (move v (output_box.x -ℤ (s.view v).geometry.x) (output_box.y -ℤ (s.view v).geometry.y) s)

abbrev arrange_on : Env → Workspace → Bool → Option ℕ → Scene → Scene
arrange_on env ws animate none s = s
arrange_on env ws animate (some o) s =
    arrange_columns env ws.scroll_x o (animate && not ws.suspend_animations) (pos 0) ws.columns
      (arrange_fullscreen (env.output_box o) ws.fullscreen_view s)

unfoldable pub arrange_workspace : Env → Workspace → Bool → Scene → Scene
arrange_workspace env ws animate s = arrange_on env ws animate ws.output s
