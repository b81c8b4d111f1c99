-- ===== src/Workspace.antt =====
-- A workspace: cardboard/Workspace.h, and of Workspace.cpp the queries that change nothing.
--
-- A position in a list stands for a `std::list` iterator, and the length of the list for `end()`.
-- A column has the address of its list node, since `Tile::column` and `Column&` point to it.
-- A `float` is its bit pattern, and the processor's operations on it are given by `FloatOps`.
pub mod Tiles
pub mod Arrange
pub mod Edit
pub mod Fit
pub mod Life
mod Examples
use cardboard.Base.{
  ℕ, zero, suc, ◌+◌, ◌==◌, Bool, true, false, not, Option, none, some, List, [], ◌∷◌, if◌then◌else◌,
  length, find_position, any, ltb,
}
use cardboard.Base.Int.{ℤ, pos, ◌+ℤ◌}
use cardboard.View.{Box, View, Scene, is_mapped_and_normal}

pub record Tile : Type 0 where
  pub view : ℕ
  pub column : ℕ
  pub vertical_scale : ℕ

pub record Column : Type 0 where
  pub address : ℕ
  pub tiles : List Tile

pub record Workspace : Type 0 where
  pub columns : List Column
  pub floating_views : List ℕ
  pub output : Option ℕ
  pub fullscreen_view : Option ℕ
  pub index : ℕ
  pub scroll_x : ℤ
  pub suspend_animations : Bool

-- Arithmetic on bit patterns of `float`, a conversion from `size_t` and one to `int`.
pub record FloatOps : Type 0 where
  pub add : ℕ → ℕ → ℕ
  pub mul : ℕ → ℕ → ℕ
  pub div : ℕ → ℕ → ℕ
  pub of_size_t : ℕ → ℕ
  pub to_int : ℕ → ℤ

-- What the operations read and do not write: `server->config.gap`, the box that the output layout
-- gives each output, the usable area of each output, the processor's floats, and the clock.
pub record Env : Type 0 where
  pub gap : ℤ
  pub output_box : ℕ → Box
  pub usable_area : ℕ → Box
  pub float : FloatOps
  pub now : ℕ

-- `1.0f`, the default of `Tile::vertical_scale`.
abbrev pub one_float : ℕ
one_float = 0x3f800000

abbrev pub holds : ℕ → Column → Bool
holds v c = any (λ (t : Tile). t.view == v) c.tiles

-- `Workspace::find_column`; a null view is in no column.
abbrev pub find_column : Option ℕ → List Column → ℕ
find_column none columns = length columns
find_column (some v) columns = find_position (holds v) columns

-- `Workspace::find_floating`
abbrev pub find_floating : Option ℕ → List ℕ → ℕ
find_floating none floating = length floating
find_floating (some v) floating = find_position (λ w. w == v) floating

-- `Workspace::is_view_floating`
abbrev pub is_view_floating : ℕ → Workspace → Bool
is_view_floating v ws = any (λ w. w == v) ws.floating_views

abbrev pub is_on_screen : (ℕ → View) → Tile → Bool
is_on_screen view t = is_mapped_and_normal (view t.view)

-- The loop of `IteratorWrapper::operator++`.
unfoldable pub skip : (ℕ → View) → List Tile → List Tile
skip view [] = []
skip view (t ∷ ts) = if is_on_screen view t then t ∷ ts else skip view ts

-- `MappedAndNormal::begin`. On a column with no tile its `front()` is undefined; such a column
-- gives nothing here, and the operations never leave one.
unfoldable pub begin : (ℕ → View) → List Tile → List Tile
unfolding skip
begin view [] = []
begin view (t ∷ ts) = if is_on_screen view t then t ∷ ts else skip view ts

-- A range `for` over the iterator: the rounds are bounded by the number of tiles.
unfoldable pub visit : ℕ → (ℕ → View) → List Tile → List Tile
unfolding skip
visit zero view ts = []
visit (suc f) view [] = []
visit (suc f) view (t ∷ ts) = t ∷ visit f view (skip view ts)

-- `Column::mapped_and_normal_tiles`, as the tiles that a loop over it visits.
unfoldable pub mapped_and_normal_tiles : (ℕ → View) → List Tile → List Tile
unfolding begin visit
mapped_and_normal_tiles view ts = visit (length ts) view (begin view ts)

abbrev pub last_width : (ℕ → View) → List Tile → ℤ → ℤ
last_width view [] w = w
last_width view (t ∷ ts) w = last_width view ts (view t.view).geometry.width

abbrev pub advance_wx : ℤ → (ℕ → View) → List Tile → ℤ → ℤ
advance_wx gap view [] acc = acc
advance_wx gap view (t ∷ ts) acc = acc +ℤ (last_width view (t ∷ ts) (pos 0) +ℤ gap)

-- The loop of `Workspace::get_view_wx`.
unfoldable pub wx_from : ℤ → (ℕ → View) → ℕ → List Column → ℤ → ℤ
unfolding mapped_and_normal_tiles
wx_from gap view v [] acc = acc
wx_from gap view v (c ∷ cs) acc =
    let tiles = mapped_and_normal_tiles view c.tiles in
    let rest = wx_from gap view v cs (advance_wx gap view tiles acc) in
    if any (λ (t : Tile). t.view == v) tiles then acc else rest

unfoldable pub get_view_wx : Env → Workspace → Scene → ℕ → ℤ
unfolding wx_from
get_view_wx env ws s v = wx_from env.gap s.view v ws.columns (pos 0)
