-- ===== src/Layers.antt =====
-- The layer surfaces of an output: how `arrange_layers` of cardboard/Layers.cpp places them, what
-- it leaves for the views, and which of them gets the keyboard.
--
-- A `LayerSurface*` is an address into the store `Panels.surface`, and the lists of
-- `surface_manager.layers` hold addresses. What wlroots is told is a `Told`.
pub mod Arrange
pub mod Yields
pub mod Usable
pub mod Handlers
pub mod Filed
pub mod Keeps
pub mod Life
mod Examples
use cardboard.Base.{
  ℕ, ◌/◌, ◌%◌, ◌==◌, Bool, true, false, ◌&&◌, Option, List, [], ◌∷◌, ◌++◌, if◌then◌else◌,
}
use cardboard.Base.Int.{ℤ, pos, ◌+ℤ◌, ◌-ℤ◌, ltb_ℤ, eqb_ℤ, half_ℤ}
use cardboard.Base.Store.{update}
use cardboard.Protocol.Header.{of_word}
use cardboard.View.{Box}
use cardboard.Workspace.{Env}
use cardboard.Seat.{Server}
use cardboard.Cursor.{Layers}

-- `enum zwlr_layer_shell_v1_layer`
pub data Level : Type 0 where
  background bottom top overlay : Level

-- `struct wlr_layer_surface_v1_state`; a bit of `anchor` is an edge: 1 is the top, 2 the bottom,
-- 4 the left and 8 the right.
pub record LayerState : Type 0 where
  pub anchor : ℕ
  pub exclusive_zone : ℤ
  pub margin_top : ℤ
  pub margin_right : ℤ
  pub margin_bottom : ℤ
  pub margin_left : ℤ
  pub desired_width : ℕ
  pub desired_height : ℕ
  pub keyboard_interactive : Bool
  pub level : Level

-- `LayerSurface`, with what wlroots keeps of it.
pub record LayerSurface : Type 0 where
  pub geometry : Box
  pub layer : Level
  pub output : Option ℕ
  pub current : LayerState
  pub client_pending : LayerState
  pub mapped : Bool

pub data Told : Type 0 where
  closed : ℕ → Told
  configured : ℕ → ℤ → ℤ → Told

pub record Panels : Type 0 where
  pub layers : Layers
  pub surface : ℕ → LayerSurface
  pub told : List Told

-- The panels, what is known of the outputs, and the server.
pub record Shell : Type 0 where
  pub panels : Panels
  pub env : Env
  pub server : Server

abbrev pub modify_layer : ℕ → (LayerSurface → LayerSurface) → Panels → Panels
modify_layer l f p = record p { surface = update p.surface l (f (p.surface l)) }

abbrev pub tell : Told → Panels → Panels
tell t p = record p { told = p.told ++ t ∷ [] }

abbrev pub holds_edge : ℕ → LayerState → Bool
holds_edge edge state = (state.anchor / edge) % 2 == 1

abbrev pub anchored_top : LayerState → Bool
anchored_top = holds_edge 1

abbrev pub anchored_bottom : LayerState → Bool
anchored_bottom = holds_edge 2

abbrev pub anchored_left : LayerState → Bool
anchored_left = holds_edge 4

abbrev pub anchored_right : LayerState → Bool
anchored_right = holds_edge 8

-- One edge of `apply_exclusive_zone`: the position and the size, where the surface holds all three
-- edges.
unfoldable pub reserve : Bool → Bool → ℤ → ℤ × ℤ → ℤ × ℤ
reserve anchored moves amount (start, size) =
    if anchored && ltb_ℤ (pos 0) amount
    then (if moves then start +ℤ amount else start, size -ℤ amount)
    else (start, size)

-- What is reserved at the top and at the bottom, and at the left and at the right.
abbrev pub reserve_vertical : LayerState → ℤ × ℤ → ℤ × ℤ
reserve_vertical state axis =
    let wide = anchored_left state && anchored_right state in
    reserve (wide && anchored_bottom state) false (state.exclusive_zone +ℤ state.margin_bottom)
      (reserve (wide && anchored_top state) true (state.exclusive_zone +ℤ state.margin_top) axis)

abbrev pub reserve_horizontal : LayerState → ℤ × ℤ → ℤ × ℤ
reserve_horizontal state axis =
    let high = anchored_top state && anchored_bottom state in
    reserve (anchored_right state && high) false (state.exclusive_zone +ℤ state.margin_right)
      (reserve (anchored_left state && high) true (state.exclusive_zone +ℤ state.margin_left) axis)

abbrev box_of : ℤ × ℤ → ℤ × ℤ → Box
box_of (x, width) (y, height) = record { x = x; y = y; width = width; height = height }

unfoldable pub apply_exclusive_zone : LayerState → Box → Box
apply_exclusive_zone state area =
    if ltb_ℤ (pos 0) state.exclusive_zone
    then box_of (reserve_horizontal state (area.x, area.width))
        (reserve_vertical state (area.y, area.height))
    else area

-- One axis of the box of a surface, by whether it holds the near and the far edge, within bounds
-- that begin at `start` and have the size `extent`.
unfoldable pub place_axis : Bool → Bool → ℤ → ℤ → ℤ → ℤ × ℤ
place_axis near far start extent size =
    if (if near then true else far) && eqb_ℤ size (pos 0)
    then (start, extent)
    else if near
    then (start, size)
    else if far
    then (start +ℤ (extent -ℤ size), size)
    else (start +ℤ (half_ℤ extent -ℤ half_ℤ size), size)

-- The axis with its margins.
unfoldable pub add_margins : Bool → Bool → ℤ → ℤ → ℤ × ℤ → ℤ × ℤ
add_margins near far near_margin far_margin (start, size) =
    if near && far
    then (start +ℤ near_margin, size -ℤ (near_margin +ℤ far_margin))
    else if near
    then (start +ℤ near_margin, size)
    else if far
    then (start -ℤ far_margin, size)
    else (start, size)

abbrev pub box_in : LayerState → Box → Box
box_in state bounds =
    let left = anchored_left state in
    let right = anchored_right state in
    let above = anchored_top state in
    let below = anchored_bottom state in
    box_of
      (add_margins left right state.margin_left state.margin_right
        (place_axis left right bounds.x bounds.width (of_word state.desired_width)))
      (add_margins above below state.margin_top state.margin_bottom
        (place_axis above below bounds.y bounds.height (of_word state.desired_height)))

abbrev pub full_area : ℤ × ℤ → Box
full_area (width, height) = record { x = pos 0; y = pos 0; width = width; height = height }
