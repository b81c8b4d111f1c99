-- ===== src/Workspace/Arrange/Safe.antt =====
-- The assertion of `XwaylandView::resize` in `arrange_workspace` (cardboard/Workspace.cpp).
use cardboard.Base.{
  ℕ, ◌+◌, ◌≡◌, refl, ◌∙◌, Bool, true, not, ◌&&◌, Option, none, some, List, [], ◌∷◌, arith, keep_if,
  Bool-cases, inl, inr,
}
use cardboard.Base.Int.{ℤ, pos}
use cardboard.View.{
  View, Box, Scene, Effect, assertion_failed, can_resize, is_mapped_and_normal, resize, move,
  enqueue_task,
}
use cardboard.Workspace.{Tile, Column, Workspace, Env, is_on_screen}
use cardboard.Workspace.Tiles.{mapped_and_normal_tiles-keep_if}
use cardboard.Workspace.Arrange.{
  Placing, Slot, place_tile, place_tiles, arrange_column, arrange_columns, next_width,
  arrange_fullscreen, arrange_on, arrange_workspace,
}
use cardboard.Workspace.Arrange.Frame.{Keeps, place_tile-Keeps}

abbrev is_failure : Effect → ℕ
is_failure (assertion_failed v) = 1
is_failure e = 0

-- How many assertions have failed.
abbrev pub failures : List Effect → ℕ
failures [] = 0
failures (e ∷ log) = is_failure e + failures log

abbrev AllOnScreen : (ℕ → View) → List Tile → Type 0
AllOnScreen view [] = Unit {0}
AllOnScreen view (t ∷ ts) = (is_mapped_and_normal (view t.view) ≡ true) × AllOnScreen view ts

AllOnScreen-keep_if :
    (view : ℕ → View) (ts : List Tile) → AllOnScreen view (keep_if (is_on_screen view) ts)
AllOnScreen-keep_if view [] = tt
AllOnScreen-keep_if view (t ∷ ts) = elim (Bool-cases (is_on_screen view t)) [
  | inl e ↦ rw e (e, AllOnScreen-keep_if view ts)
  | inr e ↦ rw e (AllOnScreen-keep_if view ts)
]

AllOnScreen-Keeps :
    {s t : Scene} → Keeps s t → (ts : List Tile) → AllOnScreen s.view ts → AllOnScreen t.view ts
AllOnScreen-Keeps k [] h = tt
AllOnScreen-Keeps k (t ∷ ts) (on, h) = (ground (arith, k.same t.view, on), AllOnScreen-Keeps k ts h)

failures-place_tile :
    (env : Env) (slot : Slot) (t : Tile) (p : Placing)
    → is_mapped_and_normal (p.scene.view t.view) ≡ true
    → failures (place_tile env slot t p).scene.log ≡ failures p.scene.log
unfolding place_tile resize enqueue_task
failures-place_tile env slot t p on = ground (arith, on)

failures-place_tiles :
    (env : Env) (slot : Slot) (ts : List Tile) (p : Placing)
    → AllOnScreen p.scene.view ts
    → failures (place_tiles env slot ts p).scene.log ≡ failures p.scene.log
unfolding place_tiles
failures-place_tiles env slot [] p h = refl
failures-place_tiles env slot (t ∷ ts) p (on, h) =
    failures-place_tiles env slot ts (place_tile env slot t p)
      (AllOnScreen-Keeps (place_tile-Keeps env slot t p) ts h)
    ∙ failures-place_tile env slot t p on

failures-arrange_column :
    (env : Env) (scroll_x : ℤ) (o : ℕ) (animated : Bool) (acc : ℤ) (c : Column) (s : Scene)
    → failures (arrange_column env scroll_x o animated acc c s).scene.log ≡ failures s.log
unfolding arrange_column
failures-arrange_column env scroll_x o animated acc c s =
    rw (mapped_and_normal_tiles-keep_if s.view c.tiles)
      (failures-place_tiles env _ _ _ (AllOnScreen-keep_if s.view c.tiles))

failures-arrange_columns :
    (env : Env) (scroll_x : ℤ) (o : ℕ) (animated : Bool) (acc : ℤ) (cs : List Column) (s : Scene)
    → failures (arrange_columns env scroll_x o animated acc cs s).log ≡ failures s.log
unfolding arrange_columns
failures-arrange_columns env scroll_x o animated acc [] s = refl
failures-arrange_columns env scroll_x o animated acc (c ∷ cs) s =
    failures-arrange_columns env scroll_x o animated
      (next_width env acc (arrange_column env scroll_x o animated acc c s)) cs
      (arrange_column env scroll_x o animated acc c s).scene
    ∙ failures-arrange_column env scroll_x o animated acc c s

-- The fullscreen view, if there is one, is an XDG view or mapped.
abbrev pub FullscreenCanResize : (ℕ → View) → Option ℕ → Type 0
FullscreenCanResize view none = Unit {0}
FullscreenCanResize view (some v) = can_resize (view v) (view v).shell ≡ true

failures-arrange_fullscreen :
    (b : Box) (f : Option ℕ) (s : Scene)
    → FullscreenCanResize s.view f
    → failures (arrange_fullscreen b f s).log ≡ failures s.log
unfolding arrange_fullscreen move resize
failures-arrange_fullscreen b none s h = refl
failures-arrange_fullscreen b (some v) s h = ground (arith, h)

-- Laying out a workspace whose fullscreen view, if there is one, is an XDG view or mapped fails no
-- assertion, whatever the other views are: no tile that is not mapped is resized.
pub failures-arrange_workspace :
    (env : Env) (ws : Workspace) (animate : Bool) (s : Scene)
    → FullscreenCanResize s.view ws.fullscreen_view
    → failures (arrange_workspace env ws animate s).log ≡ failures s.log
unfolding arrange_workspace
failures-arrange_workspace env ws animate s h = on ws.output
  where
    on : (o : Option ℕ) → failures (arrange_on env ws animate o s).log ≡ failures s.log
    on none = refl
    on (some o) =
        failures-arrange_columns env ws.scroll_x o (animate && not ws.suspend_animations) (pos 0)
          ws.columns (arrange_fullscreen (env.output_box o) ws.fullscreen_view s)
        ∙ failures-arrange_fullscreen (env.output_box o) ws.fullscreen_view s h
