-- ===== src/Workspace/Fit.antt =====
-- `Workspace::fit_view_on_screen` of cardboard/Workspace.cpp.
pub mod Wx
pub mod Visible
use cardboard.Base.{
  ℕ, suc, ◌==◌, Bool, true, false, not, ◌&&◌, ◌||◌, Option, none, some, if◌then◌else◌, length,
}
use cardboard.Base.Int.{ℤ, pos, ◌+ℤ◌, ◌-ℤ◌, ltb_ℤ, leb_ℤ, half_ℤ}
use cardboard.View.{Box, View, Scene, is_mapped_and_normal}
use cardboard.Workspace.{Workspace, Env, find_column, get_view_wx}
use cardboard.Workspace.Arrange.{arrange_workspace}

-- What the choice of the new scroll reads: whether the view's column is the first or the last, the
-- output's place, its usable area, the gap, and the view.
pub record Fitting : Type 0 where
  pub is_first : Bool
  pub is_last : Bool
  pub output_x : ℤ
  pub usable_x : ℤ
  pub usable_width : ℤ
  pub gap : ℤ
  pub wx : ℤ
  pub vx : ℤ
  pub width : ℤ

-- `vx < 0 || vx + width > usable_area.x + usable_area.width`
abbrev pub overflows : Fitting → Bool
overflows f = ltb_ℤ f.vx (pos 0) || ltb_ℤ (f.usable_x +ℤ f.usable_width) (f.vx +ℤ f.width)

-- The scroll that aligns the view with the left edge, and with the right edge.
abbrev pub align_left : Fitting → ℤ
align_left f = f.wx -ℤ f.usable_x -ℤ half_ℤ f.gap

abbrev pub align_right : Fitting → ℤ
align_right f = f.wx +ℤ f.width -ℤ (f.usable_x +ℤ f.usable_width) +ℤ half_ℤ f.gap

unfoldable pub fit_scroll : Fitting → Bool → ℤ → ℤ
fit_scroll f condense scroll_x =
    if condense && f.is_first
    then pos 0 -ℤ f.usable_x -ℤ half_ℤ f.gap
    else if condense && f.is_last
    then align_right f
    else if overflows f && ltb_ℤ f.vx (f.output_x +ℤ f.usable_x)
    then align_left f
    else if overflows f && leb_ℤ (f.output_x +ℤ f.usable_x +ℤ f.usable_width) (f.vx +ℤ f.width)
    then align_right f
    else scroll_x

abbrev pub fitting : Env → Workspace → Scene → ℕ → ℕ → ℕ → Fitting
fitting env ws s v o i = record {
  is_first = i == 0;
  is_last = suc i == length ws.columns;
  output_x = (env.output_box o).x;
  usable_x = (env.usable_area o).x;
  usable_width = (env.usable_area o).width;
  gap = env.gap;
  wx = get_view_wx env ws s v;
  vx = (s.view v).target_x +ℤ (s.view v).geometry.x;
  width = (s.view v).geometry.width;
}

abbrev pub fit_on : Env → ℕ → Bool → ℕ → Option ℕ → Workspace → Scene → Workspace × Scene
fit_on env v condense i none ws s = (ws, s)
fit_on env v condense i (some o) ws s =
    let ws' = record ws { scroll_x = fit_scroll (fitting env ws s v o i) condense ws.scroll_x } in
    (ws', arrange_workspace env ws' true s)

-- `Workspace::fit_view_on_screen`
unfoldable pub fit_view_on_screen : Env → ℕ → Bool → Workspace → Scene → Workspace × Scene
unfolding fit_scroll
fit_view_on_screen env v condense ws s =
    let i = find_column (some v) ws.columns in
    if not (is_mapped_and_normal (s.view v))
    then (ws, s)
    else if i == length ws.columns
    then (ws, s)
    else fit_on env v condense i ws.output ws s
