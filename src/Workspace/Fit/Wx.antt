-- ===== src/Workspace/Fit/Wx.antt =====
-- `get_view_wx` (cardboard/Workspace.cpp) against the layout of `arrange_workspace`.
use cardboard.Base.{
  ℕ, not, ◌&&◌, some, ◌≡◌, ◌≢◌, refl, ap, subst, ◌∙◌, Bool, true, false, List, [], ◌∷◌, ◌++◌, arith,
  any,
}
use cardboard.Base.Int.{ℤ, pos, ◌+ℤ◌, int_laws}
use cardboard.View.{View, Scene, is_mapped_and_normal}
use cardboard.Workspace.{
  Tile, Column, Workspace, Env, holds, last_width, advance_wx, wx_from, get_view_wx,
}
use cardboard.Workspace.Tiles.{mapped_and_normal_tiles-keep_if}
use cardboard.Workspace.Arrange.{arrange_workspace}
use cardboard.Workspace.Arrange.Position.{
  IsPlaced, widest, arrange_workspace-IsPlaced, on_screen, column_width, row_width,
  any-keep_if-false, any-keep_if-true,
}

-- The column has a mapped and normal view, and the last such view is as wide as the widest.
abbrev pub IsUniform : (ℕ → View) → Column → Type 0
IsUniform view c =
    (on_screen view c ≢ []) × (last_width view (on_screen view c) (pos 0) ≡ column_width view c)

abbrev pub AreUniform : (ℕ → View) → List Column → Type 0
AreUniform view [] = Unit {0}
AreUniform view (c ∷ cs) = IsUniform view c × AreUniform view cs

advance_wx_uniform :
    (gap : ℤ) (view : ℕ → View) (ts : List Tile) (acc : ℤ)
    → ts ≢ []
    → advance_wx gap view ts acc ≡ acc +ℤ (last_width view ts (pos 0) +ℤ gap)
advance_wx_uniform gap view [] acc h = absurd (h refl)
advance_wx_uniform gap view (t ∷ ts) acc h = refl

pub wx_from_hit :
    (gap : ℤ) (view : ℕ → View) (v : ℕ) (c : Column) (cs : List Column) (acc : ℤ)
    → is_mapped_and_normal (view v) ≡ true
    → holds v c ≡ true
    → wx_from gap view v (c ∷ cs) acc ≡ acc
unfolding wx_from
wx_from_hit gap view v c cs acc on hit =
    rw (mapped_and_normal_tiles-keep_if view c.tiles, any-keep_if-true view v c.tiles on hit)

pub wx_from_miss :
    (gap : ℤ) (view : ℕ → View) (v : ℕ) (c : Column) (cs : List Column) (acc : ℤ)
    → holds v c ≡ false
    → wx_from gap view v (c ∷ cs) acc
      ≡ wx_from gap view v cs (advance_wx gap view (on_screen view c) acc)
unfolding wx_from
wx_from_miss gap view v c cs acc miss =
    rw (mapped_and_normal_tiles-keep_if view c.tiles, any-keep_if-false view v c.tiles miss)

wx_from-row_width :
    (gap : ℤ) (view : ℕ → View) (v : ℕ) (before : List Column) (c : Column) (after : List Column)
    (acc : ℤ)
    → is_mapped_and_normal (view v) ≡ true
    → holds v c ≡ true
    → any (holds v) before ≡ false
    → AreUniform view before
    → wx_from gap view v (before ++ c ∷ after) acc ≡ row_width gap view acc before
wx_from-row_width gap view v [] c after acc on hit alone u =
    wx_from_hit gap view v c after acc on hit
wx_from-row_width gap view v (b ∷ before) c after acc on hit alone u =
    wx_from_miss gap view v b (before ++ c ∷ after) acc (ground arith)
    ∙ ap (wx_from gap view v (before ++ c ∷ after)) (
        advance_wx_uniform gap view (on_screen view b) acc u.0.0
        ∙ ap (λ w. acc +ℤ (w +ℤ gap)) u.0.1)
    ∙ wx_from-row_width gap view v before c after (acc +ℤ (column_width view b +ℤ gap)) on hit
        (ground arith) u.1

-- Where each column to the left of the view has a mapped and normal view and its last one is as
-- wide as its widest, `get_view_wx` is where `arrange_workspace` puts the view's column.
pub get_view_wx-row_width :
    (env : Env) (ws : Workspace) (s : Scene) (v : ℕ) (before : List Column) (c : Column)
    (after : List Column)
    → ws.columns ≡ before ++ c ∷ after
    → is_mapped_and_normal (s.view v) ≡ true
    → holds v c ≡ true
    → any (holds v) before ≡ false
    → AreUniform s.view before
    → get_view_wx env ws s v ≡ row_width env.gap s.view (pos 0) before
unfolding get_view_wx
get_view_wx-row_width env ws s v before c after split on hit alone u =
    ap (λ cs. wx_from env.gap s.view v cs (pos 0)) split
    ∙ wx_from-row_width env.gap s.view v before c after (pos 0) on hit alone u

-- A column with no mapped and normal view takes up a gap in the layout, and `get_view_wx` does not
-- count it. So for a view of the second column, behind such a first one, the two differ by the gap:
-- `get_view_wx` gives 0, and on an output `arrange_workspace` puts the column at `gap`.
pub get_view_wx_unmapped_column :
    (env : Env) (ws : Workspace) (animate : Bool) (s : Scene) (o v : ℕ) (b c : Column)
    (after : List Column)
    → ws.output ≡ some o
    → ws.columns ≡ b ∷ c ∷ after
    → on_screen s.view b ≡ []
    → holds v b ≡ false
    → is_mapped_and_normal (s.view v) ≡ true
    → holds v c ≡ true
    → any (holds v) after ≡ false
    → (get_view_wx env ws s v ≡ pos 0)
      × IsPlaced
          ((env.output_box o).x +ℤ env.gap)
          ws.scroll_x
          (animate && not ws.suspend_animations)
          ((arrange_workspace env ws animate s).view v)
unfolding get_view_wx
get_view_wx_unmapped_column env ws animate s o v b c after shown split off miss on hit alone =
    let width : row_width env.gap s.view (pos 0) (b ∷ []) ≡ env.gap =
      ap (λ ts. pos 0 +ℤ (widest s.view (pos 0) ts +ℤ env.gap)) off ∙ omega int_laws in
    (
      ap (λ cs. wx_from env.gap s.view v cs (pos 0)) split
          ∙ wx_from_miss env.gap s.view v b (c ∷ after) (pos 0) miss
          ∙ ap (λ ts. wx_from env.gap s.view v (c ∷ after) (advance_wx env.gap s.view ts (pos 0)))
              off
          ∙ wx_from_hit env.gap s.view v c after (pos 0) on hit,
      subst
          (λ w.
            IsPlaced ((env.output_box o).x +ℤ w) ws.scroll_x (animate && not ws.suspend_animations)
              ((arrange_workspace env ws animate s).view v))
          width
          (arrange_workspace-IsPlaced env ws animate s o v (b ∷ []) c after shown split on hit
            alone),
    )
