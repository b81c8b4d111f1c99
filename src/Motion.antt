-- ===== src/Motion.antt =====
-- What a motion of the pointer does: `process_cursor_motion` of cardboard/Seat.cpp with the two
-- grabs that it serves, and `cursor_warp` of Cursor.cpp.
--
-- A `double` is its bit pattern, and `Doubles` has the processor's operations. The cursor itself is
-- wlroots': where it is, and what is there, is given as a `Pointing`.
pub mod Switch
pub mod Timer
pub mod Swipe
pub mod Turn
pub mod Examples
use cardboard.Base.{
  ℕ, ◌/◌, ◌%◌, ◌==◌, Bool, true, false, Option, none, some, List, [], ◌∷◌, if◌then◌else◌, get_elem?,
}
use cardboard.Base.Int.{ℤ}
use cardboard.View.{Box}
use cardboard.Workspace.{Tile, Column, Env, find_column, mapped_and_normal_tiles}
use cardboard.Seat.{Server, Outside, and_then}
use cardboard.Seat.Grab.{Grabbing, GrabState, move, resize, workspace_scroll, workspace_switch}
use cardboard.Cursor.{Pointing, Layers, cursor_rebase}
use cardboard.ViewOperations.{reconfigure_view_position, reconfigure_view_size}

-- The operations on `double` that the grabs use: `greater a b` is `a > b`, and `to_int` the
-- conversion of an argument.
pub record Doubles : Type 0 where
  pub plus : ℕ → ℕ → ℕ
  pub minus : ℕ → ℕ → ℕ
  pub greater : ℕ → ℕ → Bool
  pub of_int : ℤ → ℕ
  pub to_int : ℕ → ℤ

-- The bit pattern of 1.0.
abbrev one_double : ℕ
one_double = 0x3ff0000000000000

-- A bit of `wlr_edges`: 1 is the top, 2 the bottom, 4 the left and 8 the right.
abbrev pub has_edge : ℕ → ℕ → Bool
has_edge edge edges = (edges / edge) % 2 == 1

module _ (env : Env) (out : Outside) (p : Pointing) (layers : Layers) (d : Doubles) where
  abbrev with_server : Grabbing → Server → Grabbing
  with_server g w = record g { server = w }

  -- `Seat::process_cursor_move`
  unfoldable pub process_cursor_move : (view lx ly : ℕ) (view_x view_y : ℤ) → Server → Option Server
  process_cursor_move v lx ly view_x view_y w =
      let dx = d.minus p.lx lx in
      let dy = d.minus p.ly ly in
      reconfigure_view_position env out p layers v (d.to_int (d.plus (d.of_int view_x) dx))
        (d.to_int (d.plus (d.of_int view_y) dy)) false w

  -- One axis of the new geometry: the position and the size, from the edge that is held.
  abbrev pub resize_axis : Bool → Bool → ℕ → ℤ → ℕ → ℕ → ℕ × ℕ
  resize_axis low high delta start position size =
      if low
      then if d.greater (d.minus size delta) one_double
        then (d.plus (d.of_int start) delta, d.minus size delta)
        else (position, size)
      else if high
      then (position, d.plus size delta)
      else (position, size)

  abbrev resize_each : ℤ → List Tile → Server → Option Server
  resize_each width [] w = some w
  resize_each width (t ∷ ts) w =
      and_then (reconfigure_view_size env t.view width (w.scene.view t.view).geometry.height w)
        (resize_each width ts)

  abbrev resize_found : ℕ → ℤ → ℤ → Option Column → Server → Option Server
  resize_found v width height none w = reconfigure_view_size env v width height w
  resize_found v width height (some c) w =
      resize_each width (mapped_and_normal_tiles w.scene.view c.tiles) w

  -- `Seat::process_cursor_resize`
  unfoldable pub process_cursor_resize :
      (view lx ly : ℕ) (geometry : Box) (edges workspace : ℕ) (view_x view_y : ℤ)
      → Server
      → Option Server
  process_cursor_resize v lx ly geometry edges i view_x view_y w =
      let (y, height) =
        resize_axis (has_edge 1 edges) (has_edge 2 edges) (d.minus p.ly ly) view_y
          (d.of_int (w.scene.view v).y) (d.of_int geometry.height) in
      let (x, width) =
        resize_axis (has_edge 4 edges) (has_edge 8 edges) (d.minus p.lx lx) view_x
          (d.of_int (w.scene.view v).x) (d.of_int geometry.width) in
      and_then (reconfigure_view_position env out p layers v (d.to_int x) (d.to_int y) true w)
        (λ w'. and_then (get_elem? w'.workspaces i) (λ ws.
          resize_found v (d.to_int width) (d.to_int height)
            (get_elem? ws.columns (find_column (some v) ws.columns)) w'))

  abbrev pub motion_of : Option GrabState → Server → Option Server
  motion_of none w = some (cursor_rebase p out layers w)
  motion_of (some (move v lx ly view_x view_y)) w = process_cursor_move v lx ly view_x view_y w
  motion_of (some (resize v lx ly geometry edges i scroll_x view_x view_y old)) w =
      process_cursor_resize v lx ly geometry edges i view_x view_y w
  motion_of (some (workspace_scroll i dominant speed delta scroll_x ready stop)) w = some w
  motion_of (some (workspace_switch i direction)) w = some w

  -- `Seat::process_cursor_motion`, and the same after `cursor_warp` to where the cursor is.
  unfoldable pub process_cursor_motion : Grabbing → Option Grabbing
  process_cursor_motion g = and_then (motion_of g.grab_state g.server) (λ w. some (with_server g w))
