-- ===== src/Motion/Swipe.antt =====
-- Swipes on the touchpad while they last and when they end: `update_swipe` and `process_swipe_end`
-- of cardboard/Seat.cpp, with `Workspace::find_dominant_view`.
use cardboard.Base.{
  ℕ, ◌+◌, ◌*◌, ◌==◌, Bool, true, false, not, ◌&&◌, Option, none, some, List, [], ◌∷◌, if◌then◌else◌,
  any, get_elem?,
}
use cardboard.Base.Int.{ℤ, pos_part, neg_part, sub_ℕ, ◌+ℤ◌}
use cardboard.View.{Box, View, Scene, set_activated, same_ref}
use cardboard.Workspace.{Tile, Column, Workspace, Env, mapped_and_normal_tiles}
use cardboard.Seat.{Outside, and_then, get_focused_view, focus_view}
use cardboard.Seat.Grab.{
  Grabbing, GrabState, move, resize, workspace_scroll, workspace_switch, end_touchpad_swipe,
  with_scene,
}
use cardboard.Seat.Views.{find_focus}
use cardboard.Cursor.{Pointing, Layers}
use cardboard.ViewOperations.{scroll_to, get_output_real_usable_area}
use cardboard.Motion.{Doubles}

-- `wlr_box_intersection`, and more operations on `double`: the quotient of two `int`, whether a
-- difference is more than 0.01, whether a value is zero, or below 1 but for its sign.
pub record Measures : Type 0 where
  pub intersection : Box → Box → Option Box
  pub quotient : ℤ → ℤ → ℕ
  pub exceeds : ℕ → ℕ → Bool
  pub times : ℕ → ℕ → ℕ
  pub is_zero : ℕ → Bool
  pub is_small : ℕ → Bool

-- The product of two `int`.
abbrev times_ℤ : ℤ → ℤ → ℤ
times_ℤ a b =
    sub_ℕ (pos_part a * pos_part b + neg_part a * neg_part b)
      (pos_part a * neg_part b + neg_part a * pos_part b)

-- The column with the largest visibility so far, that visibility, and that of the column that has
-- the focus.
pub record Search : Type 0 where
  pub most_visible : Option Column
  pub maximum_visibility : ℕ
  pub focused_view_visibility : ℕ

abbrev first_view : List Tile → Option ℕ
first_view [] = none
first_view (t ∷ ts) = some t.view

abbrev holds_focused : Option ℕ → List Tile → Bool
holds_focused focused ts = any (λ (t : Tile). same_ref (some t.view) focused) ts

abbrev or_focused : Option ℕ → Option ℕ → Option ℕ
or_focused none focused = focused
or_focused (some v) focused = some v

module _ (d : Doubles) (m : Measures) where
  -- The part of the column that is on the screen, as the code takes it.
  abbrev pub view_box : Box → View → Box
  view_box area w = record {
    x = w.x +ℤ w.geometry.x;
    y = area.x +ℤ w.geometry.y;
    width = w.geometry.width;
    height = area.height;
  }

  abbrev pub weigh : Option ℕ → Column → List Tile → Box → Option Box → Search → Search
  weigh focused c ts box none found = found
  weigh focused c ts box (some part) found =
      let visibility = m.quotient (times_ℤ part.width part.height) (times_ℤ box.width box.height) in
      let more = d.greater visibility found.maximum_visibility in
      record {
        most_visible = if more then some c else found.most_visible;
        maximum_visibility = if more then visibility else found.maximum_visibility;
        focused_view_visibility =
            if holds_focused focused ts then visibility else found.focused_view_visibility;
      }

  abbrev weigh_first : (ℕ → View) → Box → Option ℕ → Column → List Tile → Option ℕ → Search → Search
  weigh_first view area focused c ts none found = found
  weigh_first view area focused c ts (some v) found =
      let box = view_box area (view v) in weigh focused c ts box (m.intersection area box) found

  -- The loop over the columns.
  unfoldable pub weigh_columns : (ℕ → View) → Box → Option ℕ → List Column → Search → Search
  weigh_columns view area focused [] found = found
  weigh_columns view area focused (c ∷ cs) found =
      let ts = mapped_and_normal_tiles view c.tiles in
      weigh_columns view area focused cs (weigh_first view area focused c ts (first_view ts) found)

  -- The view of a column that had the focus last; `none` where no column is visible.
  abbrev last_in : (ℕ → View) → List ℕ → Option ℕ → Option Column → Option (Option ℕ)
  last_in view stack focused none = none
  last_in view stack focused (some c) =
      let ts = mapped_and_normal_tiles view c.tiles in
      some (or_focused (find_focus (λ u. any (λ (t : Tile). t.view == u) ts) stack) focused)

  abbrev has_focus : Option ℕ → Bool
  has_focus none = false
  has_focus (some v) = true

  abbrev pub dominant_of : (ℕ → View) → List ℕ → Option ℕ → Search → Option (Option ℕ)
  dominant_of view stack focused found =
      if has_focus focused && not (m.exceeds found.maximum_visibility found.focused_view_visibility)
      then some focused
      else last_in view stack focused found.most_visible

  abbrev dominant_on :
      Env → List ℕ → Option ℕ → Workspace → (ℕ → View) → Option ℕ → Option (Option ℕ)
  dominant_on env stack focused ws view none = some none
  dominant_on env stack focused ws view (some o) = dominant_of view stack focused (
      weigh_columns view (get_output_real_usable_area env o) focused ws.columns
        (record { most_visible = none; maximum_visibility = 0; focused_view_visibility = 0 }))

  -- `Workspace::find_dominant_view`. The outer `none` is the null pointer dereferenced where no
  -- column is visible.
  unfoldable pub find_dominant_view :
      Env → List ℕ → Option ℕ → Workspace → (ℕ → View) → Option (Option ℕ)
  unfolding weigh_columns
  find_dominant_view env stack focused ws view = dominant_on env stack focused ws view ws.output

-- The bit pattern of `WORKSPACE_SCROLL_FRICTION`, which is 0.9.
abbrev friction : ℕ
friction = 0x3feccccccccccccd

abbrev activate_if : Option ℕ → Bool → Scene → Scene
activate_if none b s = s
activate_if (some v) b s = set_activated v b s

-- The view that is dominant takes the activation from the focused one.
abbrev activate_dominant : Option ℕ → Option ℕ → Scene → Scene
activate_dominant none focused s = s
activate_dominant (some v) focused s = set_activated v true (activate_if focused false s)

module _ (env : Env) (out : Outside) (warped : ℤ → ℤ → Pointing) (layers : Layers) (d : Doubles)
    (m : Measures) where
  abbrev stop_if : Bool → Option ℕ → Grabbing → Option Grabbing
  stop_if false dominant g = some g
  stop_if true dominant g =
      and_then (focus_view env out dominant false g.server)
        (λ w. some (end_touchpad_swipe (record g { server = w })))

  -- One update of a scroll: the new speed, what is left of the delta, and the new position.
  abbrev pub scroll_on :
      (i : ℕ) (dominant : Option ℕ) (speed delta scroll_x : ℕ) (stop : Bool)
      → Grabbing
      → Option Grabbing
  scroll_on i dominant speed delta scroll_x stop g =
      let x = d.minus scroll_x speed in
      and_then (scroll_to env i (d.to_int x) false g.server) (λ w.
        and_then (get_elem? w.workspaces i) (λ ws.
          let focused = get_focused_view w.seat in
          and_then (find_dominant_view d m env w.seat.focus_stack focused ws w.scene.view) (λ found.
            let dominant' = or_focused found dominant in
            let slower = m.times speed friction in
            let g' = with_scene (activate_dominant dominant' focused w.scene) (record g {
              server = w;
              grab_state = some (workspace_scroll i dominant' slower delta x true stop);
            }) in
            stop_if (stop && m.is_small slower) dominant' g')))

  abbrev update_scroll : Option GrabState → Grabbing → Option Grabbing
  update_scroll none g = some g
  update_scroll (some (move v lx ly view_x view_y)) g = some g
  update_scroll (some (resize v lx ly geometry edges i scroll_x view_x view_y old)) g = some g
  update_scroll (some (workspace_switch i direction)) g = some g
  update_scroll (some (workspace_scroll i dominant speed delta scroll_x ready stop)) g =
      if not ready
      then some g
      else if m.is_zero delta
      then scroll_on i dominant speed delta scroll_x stop g
      else scroll_on i dominant delta 0 scroll_x stop g

  -- `Seat::update_swipe`
  unfoldable pub update_swipe : Grabbing → Option Grabbing
  update_swipe g = update_scroll g.grab_state g
