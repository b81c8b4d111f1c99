-- ===== src/Workspace/Fit/Visible.antt =====
-- That `fit_view_on_screen` (cardboard/Workspace.cpp) brings a view on the screen.
use cardboard.Base.{
  ℕ, ◌≡◌, refl, ap, ◌∙◌, some, List, [], ◌∷◌, ◌++◌, ◌==◌, length, length-append, find_position, any,
  Bool, true, false, arith,
}
use cardboard.Base.Int.{ℤ, pos, ◌+ℤ◌, ◌-ℤ◌, ◌≤ℤ◌, half_ℤ, int_laws}
use cardboard.View.{Box, View, Scene, is_mapped_and_normal}
use cardboard.Workspace.{Column, Workspace, Env, holds, find_column}
use cardboard.Workspace.Arrange.Frame.{arrange_workspace-Keeps}
use cardboard.Workspace.Arrange.Position.{row_width, arrange_workspace-IsPlaced}
use cardboard.Workspace.Edit.Columns.{find_position-append}
use cardboard.Workspace.Fit.{Fitting, fit_scroll, fitting, fit_on, fit_view_on_screen}
use cardboard.Workspace.Fit.Wx.{AreUniform, get_view_wx-row_width}

half_bounds : (g : ℤ) → pos 0 ≤ℤ g → (pos 0 ≤ℤ half_ℤ g) × (half_ℤ g +ℤ half_ℤ g ≤ℤ g)
unfolding half_ℤ ◌+ℤ◌
half_bounds g h = ground arith

fit_scroll_bounds :
    (f : Fitting) (condense : Bool) (scroll_x : ℤ)
    → f.output_x ≡ pos 0
    → pos 0 ≤ℤ f.usable_x
    → pos 0 ≤ℤ f.gap
    → f.width +ℤ f.gap ≤ℤ f.usable_width
    → f.vx ≡ f.wx -ℤ scroll_x
    → (f.is_first ≡ true → f.wx ≡ pos 0)
    → let left = f.wx -ℤ fit_scroll f condense scroll_x in
      (pos 0 ≤ℤ left) × (left +ℤ f.width ≤ℤ f.usable_x +ℤ f.usable_width)
unfolding fit_scroll
fit_scroll_bounds f condense scroll_x origin area gap room sync first =
    grind (int_laws, half_bounds f.gap gap)

fit_view_on_screen_found :
    (env : Env) (v : ℕ) (condense : Bool) (ws : Workspace) (s : Scene) (o : ℕ)
    (before : List Column) (c : Column) (after : List Column)
    → ws.output ≡ some o
    → ws.columns ≡ before ++ c ∷ after
    → is_mapped_and_normal (s.view v) ≡ true
    → holds v c ≡ true
    → any (holds v) before ≡ false
    → fit_view_on_screen env v condense ws s ≡ fit_on env v condense (length before) (some o) ws s
unfolding fit_view_on_screen
fit_view_on_screen_found env v condense ws s o before c after shown split on hit alone =
    let at : find_column (some v) ws.columns ≡ length before =
      ap (find_position (holds v)) split ∙ find_position-append v before c after alone hit in
    let here : (length before == length ws.columns) ≡ false =
      ground (arith, ap (length {0}) split, length-append before (c ∷ after)) in
    rw (at, fit_view_on_screen)
      (rw on (rw here (ap (λ x. fit_on env v condense (length before) x ws s) shown)))

row_width_first :
    (gap : ℤ) (view : ℕ → View) (before : List Column)
    → (length before == 0) ≡ true
    → row_width gap view (pos 0) before ≡ pos 0
row_width_first gap view [] e = refl
row_width_first gap view (c ∷ cs) e = absurd (ground arith)

sync_of :
    (gx scroll : ℤ) {target row wx : ℤ}
    → target ≡ row -ℤ gx -ℤ scroll
    → wx ≡ row
    → target +ℤ gx ≡ wx -ℤ scroll
sync_of gx scroll e w = rw (e, w) (omega int_laws)

visible_of :
    (scroll right : ℤ) {target output_x row gx width wx gx' width' : ℤ}
    → target ≡ output_x +ℤ row -ℤ gx' -ℤ scroll
    → gx' ≡ gx
    → width' ≡ width
    → output_x ≡ pos 0
    → wx ≡ row
    → (pos 0 ≤ℤ wx -ℤ scroll) × (wx -ℤ scroll +ℤ width ≤ℤ right)
    → (pos 0 ≤ℤ target +ℤ gx') × (target +ℤ gx' +ℤ width' ≤ℤ right)
visible_of scroll right target gx width origin wx bounds = grind int_laws

-- On an output at the left end of the layout, whose usable area starts at 0 or further right and
-- has room for the view and a gap, a laid-out view that `get_view_wx` finds in its place is wholly
-- on the screen once `fit_view_on_screen` has scrolled to it: its target lies between the left
-- edge of the output and the right edge of the usable area, condensing or not.
pub fit_view_on_screen-visible :
    (env : Env) (v : ℕ) (condense : Bool) (ws : Workspace) (s : Scene) (o : ℕ)
    (before : List Column) (c : Column) (after : List Column)
    → ws.output ≡ some o
    → ws.columns ≡ before ++ c ∷ after
    → is_mapped_and_normal (s.view v) ≡ true
    → holds v c ≡ true
    → any (holds v) before ≡ false
    → any (holds v) after ≡ false
    → AreUniform s.view before
    → (env.output_box o).x ≡ pos 0
    → pos 0 ≤ℤ (env.usable_area o).x
    → pos 0 ≤ℤ env.gap
    → (s.view v).geometry.width +ℤ env.gap ≤ℤ (env.usable_area o).width
    → (s.view v).target_x
      ≡ row_width env.gap s.view (pos 0) before -ℤ (s.view v).geometry.x -ℤ ws.scroll_x
    → let w = (fit_view_on_screen env v condense ws s).1.view v in
      let left = w.target_x +ℤ w.geometry.x in
      let area = env.usable_area o in
      (pos 0 ≤ℤ left) × (left +ℤ w.geometry.width ≤ℤ area.x +ℤ area.width)
fit_view_on_screen-visible env v condense ws s o before c after shown split on hit alone last
      uniform origin area gap room sync =
    let f = fitting env ws s v o (length before) in
    let wx = get_view_wx-row_width env ws s v before c after split on hit alone uniform in
    let ws' : Workspace = record ws { scroll_x = fit_scroll f condense ws.scroll_x } in
    let placed =
      arrange_workspace-IsPlaced env ws' true s o v before c after shown split on hit last in
    let kept = (arrange_workspace-Keeps env ws' true s).same v in
    let bounds =
      fit_scroll_bounds f condense ws.scroll_x origin area gap room
        (sync_of (s.view v).geometry.x ws.scroll_x sync wx)
        (λ e. wx ∙ row_width_first env.gap s.view before e) in
    rw (fit_view_on_screen_found env v condense ws s o before c after shown split on hit alone) (
      visible_of (fit_scroll f condense ws.scroll_x)
        ((env.usable_area o).x +ℤ (env.usable_area o).width) placed.target
        (ap (λ (b : Box). b.x) kept.geometry) (ap (λ (b : Box). b.width) kept.geometry) origin wx
        bounds)
