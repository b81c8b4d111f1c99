-- ===== src/Workspace/Arrange/Stacked.antt =====
-- How `arrange_workspace` (cardboard/Workspace.cpp) stacks the tiles of a column.
use cardboard.Base.{
  ℕ, ◌+◌, ◌-◌, ◌*◌, ◌^◌, ◌<◌, ◌%◌, Bool, true, false, not, ◌&&◌, ◌≡◌, refl, ◌∙◌, ap, subst, some,
  List, [], ◌∷◌, ◌++◌, arith, any, ◌==◌, length, ltb, if◌then◌else◌,
}
use cardboard.Base.Int.{ℤ, pos, ◌+ℤ◌, ◌-ℤ◌}
use cardboard.View.{View, Scene, is_mapped_and_normal, resize, enqueue_task}
use cardboard.Workspace.{Tile, Column, Workspace, Env, holds}
use cardboard.Workspace.Tiles.{mapped_and_normal_tiles-keep_if}
use cardboard.Workspace.Arrange.{
  Placing, Slot, place_tile, place_tiles, arrange_column, arrange_columns, next_width,
  arrange_fullscreen, arrange_workspace, to_size_t, available_height, tile_height, scale_sum_from,
}
use cardboard.Workspace.Arrange.Frame.{
  place_tile-Keeps, arrange_column-Keeps, arrange_fullscreen-Keeps, arrange_workspace_shown,
}
use cardboard.Workspace.Arrange.Position.{
  on_screen, keep_if-Keeps, view-place_tiles_ne, view-arrange_columns_ne,
}

-- What the tiles of a column share of a usable height, less a gap above and below each; where the
-- gaps do not fit, the unsigned difference.
abbrev pub shared_height : ℕ → ℕ → ℕ → ℕ
shared_height height tiles gap =
    let gaps = (tiles + 1) * gap in
    if ltb height gaps then 2 ^ 64 + height - gaps else height - gaps

to_size_t_small : (n : ℕ) → n < 2 ^ 64 → to_size_t (pos n) ≡ n
to_size_t_small n h = omega arith

difference_mod :
    (h m : ℕ)
    → h < 2 ^ 31
    → m < 2 ^ 64
    → (h + (2 ^ 64 - m % 2 ^ 64)) % 2 ^ 64 ≡ (if ltb h m then 2 ^ 64 + h - m else h - m)
difference_mod h m small fits = ground arith

available_height-shared :
    (height tiles gap : ℕ)
    → height < 2 ^ 31
    → gap < 2 ^ 31
    → (tiles + 1) * gap < 2 ^ 64
    → available_height (pos height) tiles (pos gap) ≡ shared_height height tiles gap
unfolding available_height
available_height-shared height tiles gap h g total =
    rw (to_size_t_small height (omega arith), to_size_t_small gap (omega arith))
      (difference_mod height ((tiles + 1) * gap) h total)

-- The height of a tile, from what its column shares.
abbrev pub share : Env → ℕ → ℕ → Tile → ℤ
share env shared sum t =
    env.float.to_int
      (env.float.mul (env.float.of_size_t shared) (env.float.div t.vertical_scale sum))

-- Where a stack of tiles ends, each followed by a gap.
abbrev pub stack_end : Env → ℕ → ℕ → ℤ → List Tile → ℤ
stack_end env shared sum y [] = y
stack_end env shared sum y (t ∷ ts) =
    stack_end env shared sum (y +ℤ (share env shared sum t +ℤ env.gap)) ts

-- The geometry of the view begins at `y`, and its client is to have the height, and its own width.
pub record IsStacked (y height : ℤ) (w : View) : Type 0 where
  pub target : w.target_y ≡ y -ℤ w.geometry.y
  pub as_high : w.target_height ≡ height
  pub as_wide : w.target_width ≡ w.geometry.width

module _ (env : Env) (slot : Slot) where
  abbrev pub shared : ℕ
  shared = available_height (env.usable_area slot.output).height slot.size env.gap

  place_tile-IsStacked :
      (t : Tile) (p : Placing)
      → is_mapped_and_normal (p.scene.view t.view) ≡ true
      → IsStacked p.current_y
          (share env shared slot.scale_sum t)
          ((place_tile env slot t p).scene.view t.view)
  unfolding place_tile resize enqueue_task tile_height
  place_tile-IsStacked t p on = ground (arith, on)

  current_y-place_tile :
      (t : Tile) (p : Placing)
      → (place_tile env slot t p).current_y
        ≡ p.current_y +ℤ (share env shared slot.scale_sum t +ℤ env.gap)
  unfolding place_tile tile_height
  current_y-place_tile t p = refl

  place_tiles-IsStacked :
      (above : List Tile) (t : Tile) (below : List Tile) (p : Placing)
      → is_mapped_and_normal (p.scene.view t.view) ≡ true
      → any (λ (u : Tile). u.view == t.view) below ≡ false
      → IsStacked
          (stack_end env shared slot.scale_sum p.current_y above)
          (share env shared slot.scale_sum t)
          ((place_tiles env slot (above ++ t ∷ below) p).scene.view t.view)
  unfolding place_tiles
  place_tiles-IsStacked [] t below p on alone =
      rw (view-place_tiles_ne env slot below (place_tile env slot t p) t.view alone)
        (place_tile-IsStacked t p on)
  place_tiles-IsStacked (u ∷ above) t below p on alone = rw (← current_y-place_tile u p) (
      place_tiles-IsStacked above t below (place_tile env slot u p)
        (ground (arith, (place_tile-Keeps env slot u p).same t.view)) alone)

-- The tile of a column of `size` tiles, of which `tiles` are mapped and normal, `above` above it, once the column has been laid out.
abbrev InColumn : Env → ℕ → ℕ → List Tile → List Tile → Tile → View → Type 0
InColumn env o size tiles above t w =
    let amount = available_height (env.usable_area o).height size env.gap in
    let sum = scale_sum_from env 0 tiles in
    IsStacked
      (stack_end env amount sum ((env.output_box o).y +ℤ (env.usable_area o).y +ℤ env.gap) above)
      (share env amount sum t) w

module _ (env : Env) (scroll_x : ℤ) (o : ℕ) (animated : Bool) (t : Tile) where
  arrange_column-IsStacked :
      (acc : ℤ) (c : Column) (s : Scene) (above below : List Tile)
      → on_screen s.view c ≡ above ++ t ∷ below
      → is_mapped_and_normal (s.view t.view) ≡ true
      → any (λ (u : Tile). u.view == t.view) below ≡ false
      → InColumn env o
          (length c.tiles)
          (on_screen s.view c)
          above
          t
          ((arrange_column env scroll_x o animated acc c s).scene.view t.view)
  unfolding arrange_column
  arrange_column-IsStacked acc c s above below split on alone =
      rw (mapped_and_normal_tiles-keep_if s.view c.tiles, split)
        (place_tiles-IsStacked env _ above t below _ on alone)

  arrange_columns-IsStacked :
      (acc : ℤ) (before : List Column) (c : Column) (after : List Column) (s : Scene)
      (above below : List Tile)
      → on_screen s.view c ≡ above ++ t ∷ below
      → is_mapped_and_normal (s.view t.view) ≡ true
      → any (λ (u : Tile). u.view == t.view) below ≡ false
      → any (holds t.view) after ≡ false
      → InColumn env o
          (length c.tiles)
          (on_screen s.view c)
          above
          t
          ((arrange_columns env scroll_x o animated acc (before ++ c ∷ after) s).view t.view)
  unfolding arrange_columns
  arrange_columns-IsStacked acc [] c after s above below split on alone last =
      rw
        (view-arrange_columns_ne env scroll_x o animated t.view
          (next_width env acc (arrange_column env scroll_x o animated acc c s)) after
          (arrange_column env scroll_x o animated acc c s).scene last)
        (arrange_column-IsStacked acc c s above below split on alone)
  arrange_columns-IsStacked acc (b ∷ before) c after s above below split on alone last =
      let p = arrange_column env scroll_x o animated acc b s in
      let k = arrange_column-Keeps env scroll_x o animated acc b s in
      let same = keep_if-Keeps k c.tiles in
      subst
        (λ ts. InColumn env o (length c.tiles) ts above t (
          (arrange_columns env scroll_x o animated (next_width env acc p) (before ++ c ∷ after)
              p.scene).view
            t.view))
        same
        (arrange_columns-IsStacked (next_width env acc p) before c after p.scene above below
          (same ∙ split) (ground (arith, k.same t.view, on)) alone last)

-- In a workspace shown on output `o`, a mapped and normal view whose tile stands in column `c`
-- between the mapped and normal tiles `above` and `below` it, and that is neither in these nor in a
-- later column: its geometry is to begin below the top gap, the heights of the tiles above and a gap
-- for each, and its client is to have the share of its weight in the height of the column, and the
-- width that it has. The column shares the usable height less a gap for each of its tiles, those
-- not mapped and normal too, and one more; where these gaps are more than the height, 2^64 more than
-- the negative difference. The usable height and the gap are from 0 to below 2^31, and the gaps in
-- total below 2^64.
pub arrange_workspace-IsStacked :
    (env : Env) (ws : Workspace) (animate : Bool) (s : Scene) (o height gap : ℕ)
    (before : List Column) (c : Column) (after : List Column) (above : List Tile) (t : Tile)
    (below : List Tile)
    → ws.output ≡ some o
    → ws.columns ≡ before ++ c ∷ after
    → on_screen s.view c ≡ above ++ t ∷ below
    → is_mapped_and_normal (s.view t.view) ≡ true
    → any (λ (u : Tile). u.view == t.view) below ≡ false
    → any (holds t.view) after ≡ false
    → (env.usable_area o).height ≡ pos height
    → env.gap ≡ pos gap
    → height < 2 ^ 31
    → gap < 2 ^ 31
    → (length c.tiles + 1) * gap < 2 ^ 64
    → IsStacked
        (stack_end env
          (shared_height height (length c.tiles) gap)
          (scale_sum_from env 0 (on_screen s.view c))
          ((env.output_box o).y +ℤ (env.usable_area o).y +ℤ env.gap)
          above)
        (share env
          (shared_height height (length c.tiles) gap)
          (scale_sum_from env 0 (on_screen s.view c))
          t)
        ((arrange_workspace env ws animate s).view t.view)
arrange_workspace-IsStacked env ws animate s o height gap before c after above t below shown columns
      split on alone last usable gaps h g total =
    let s0 = arrange_fullscreen (env.output_box o) ws.fullscreen_view s in
    let k = arrange_fullscreen-Keeps (env.output_box o) ws.fullscreen_view s in
    let same = keep_if-Keeps k c.tiles in
    let animated = animate && not ws.suspend_animations in
    let amount =
      ap (λ (u : ℤ). available_height u (length c.tiles) env.gap) usable
      ∙ ap (available_height (pos height) (length c.tiles)) gaps
      ∙ available_height-shared height (length c.tiles) gap h g total in
    rw (arrange_workspace_shown env ws animate s o shown, columns, ← amount, ← same)
      (arrange_columns-IsStacked env ws.scroll_x o animated t (pos 0) before c after s0 above below
        (same ∙ split) (ground (arith, k.same t.view, on)) alone last)
