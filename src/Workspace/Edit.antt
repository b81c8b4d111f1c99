-- ===== src/Workspace/Edit.antt =====
-- The operations of cardboard/Workspace.cpp that change a workspace: views come and go, move
-- between columns, become fullscreen, and the workspace gets or loses its output.
--
-- An operation takes the workspace and the scene and returns both; `none` where the C++ would
-- follow a reference to a column that it has destroyed, or where an assertion fails.
pub mod Columns
pub mod Fullscreen
pub mod Laws
pub mod Moves
pub mod RoundTrip
pub mod WellFormed
pub mod Output
use cardboard.Base.{
  ℕ, zero, suc, ◌+◌, ◌==◌, Bool, true, false, not, ◌&&◌, Option, none, some, List, [], ◌∷◌, ◌++◌,
  if◌then◌else◌, length, get_elem?, set, insert_at, erase_at, keep_if, last?, first?, find_position,
  any, ltb,
}
use cardboard.Base.Int.{ℤ, pos, max_ℤ}
use cardboard.View.{
  Box, View, Scene, same_ref, modify, set_activated, change_output, try_resize, move, save_state,
  set_fullscreen, recovering, fullscreen,
}
use cardboard.Workspace.{
  Tile, Column, Workspace, Env, one_float, find_column, find_floating, mapped_and_normal_tiles,
}
use cardboard.Workspace.Arrange.{arrange_workspace}

-- The address of a list node that `emplace` allocates: one that no column of the list has.
abbrev pub fresh_address : List Column → ℕ
fresh_address [] = 0
fresh_address (c ∷ cs) = let n = fresh_address cs in if ltb c.address n then n else suc c.address

abbrev pub new_tile : ℕ → ℕ → Tile
new_tile v address = record { view = v; column = address; vertical_scale = one_float }

abbrev pub new_column : ℕ → ℕ → Column
new_column v address = record { address = address; tiles = new_tile v address ∷ [] }

-- `it == end() ? it : ++it`
abbrev pub after_position : ℕ → ℕ → ℕ
after_position size i = if i == size then i else suc i

-- A new column to the right of the one that holds `next_to`, or at the end.
unfoldable pub insert_column : ℕ → Option ℕ → List Column → List Column
insert_column v next_to columns =
    insert_at columns (after_position (length columns) (find_column next_to columns))
      (new_column v (fresh_address columns))

unfoldable pub insert_floating : ℕ → Option ℕ → List ℕ → List ℕ
insert_floating v next_to floating =
    insert_at floating (after_position (length floating) (find_floating next_to floating)) v

unfoldable pub place_view : ℕ → Option ℕ → Bool → Workspace → Workspace
unfolding insert_column insert_floating
place_view v next_to floating ws =
    if floating
    then record ws { floating_views = insert_floating v next_to ws.floating_views }
    else record ws { columns = insert_column v next_to ws.columns }

abbrev activate_on : ℕ → Option ℕ → Scene → Scene
activate_on v none s = s
activate_on v (some o) s = set_activated v true s

-- What `add_view` does to a view that is not only toggling between floating and tiled.
unfoldable pub attach_view : ℕ → Workspace → Scene → Scene
attach_view v ws s =
    change_output v none ws.output
      (activate_on v ws.output (modify v (λ w. record w { workspace_id = pos ws.index }) s))

-- `Workspace::add_view`
unfoldable pub add_view : Env → ℕ → Option ℕ → Bool → Bool → Workspace → Scene → Workspace × Scene
unfolding place_view attach_view
add_view env v next_to floating transferring ws s =
    let ws' = place_view v next_to floating ws in
    (ws', arrange_workspace env ws' true (if transferring then s else attach_view v ws s))

abbrev pub without_tile : ℕ → Column → Column
without_tile v c = record c { tiles = keep_if (λ (t : Tile). not (t.view == v)) c.tiles }

-- The column at position `i` loses the view's tiles, and goes if it has no other.
abbrev pub shrink_at : ℕ → ℕ → List Column → Option Column → List Column
shrink_at v i columns none = columns
shrink_at v i columns (some c) = elim (without_tile v c).tiles [
  | [] ↦ erase_at columns i
  | t ∷ ts ↦ set columns i (without_tile v c)
]

unfoldable pub remove_from_columns : ℕ → List Column → List Column
remove_from_columns v columns =
    let i = find_column (some v) columns in shrink_at v i columns (get_elem? columns i)

unfoldable pub displace_view : ℕ → Workspace → Workspace
unfolding remove_from_columns
displace_view v ws = record ws {
  columns = remove_from_columns v ws.columns;
  floating_views = keep_if (λ w. not (w == v)) ws.floating_views;
}

-- What `remove_view` does to a view that is not only toggling between floating and tiled.
abbrev pub detach_workspace : ℕ → Workspace → Workspace
detach_workspace v ws = record ws {
  fullscreen_view = if same_ref ws.fullscreen_view (some v) then none else ws.fullscreen_view;
}

unfoldable pub detach_view : ℕ → Workspace → Scene → Scene
detach_view v ws s = change_output v ws.output none (set_activated v false s)

-- `Workspace::remove_view`
unfoldable pub remove_view : Env → ℕ → Bool → Workspace → Scene → Workspace × Scene
unfolding displace_view detach_view
remove_view env v transferring ws s =
    let ws' = displace_view v (if transferring then ws else detach_workspace v ws) in
    (ws', arrange_workspace env ws' true (if transferring then s else detach_view v ws s))

-- The widest mapped and normal view of a column.
abbrev pub max_width_of : (ℕ → View) → ℤ → List Tile → ℤ
max_width_of view acc [] = acc
max_width_of view acc (t ∷ ts) = max_width_of view (max_ℤ acc (view t.view).geometry.width) ts

abbrev with_tile : ℕ → Column → Column
with_tile v c = record c { tiles = c.tiles ++ new_tile v c.address ∷ [] }

abbrev pub push_at : ℕ → ℕ → List Column → Option Column → Option (List Column)
push_at v i columns none = none
push_at v i columns (some c) = some (set columns i (with_tile v c))

-- `column.tiles.push_back`, through a reference to the column.
unfoldable pub push_tile : ℕ → ℕ → List Column → Option (List Column)
push_tile v address columns =
    let i = find_position (λ (c : Column). c.address == address) columns in
    push_at v i columns (get_elem? columns i)

abbrev finish_insert :
    Env → ℕ → ℤ → Workspace → Scene → Option (List Column) → Option (Workspace × Scene)
finish_insert env v width ws s none = none
finish_insert env v width ws s (some columns) =
    let ws' = record ws { columns = columns } in
    some (
      ws',
      arrange_workspace env ws' true
          (modify v (λ w. record w { geometry = record (w.geometry) { width = width } }) s),
    )

-- `Workspace::insert_into_column`
unfoldable pub insert_into_column :
    Env → ℕ → Column → Workspace → Scene → Option (Workspace × Scene)
unfolding push_tile
insert_into_column env v column ws s =
    let width = max_width_of s.view (pos 0) (mapped_and_normal_tiles s.view column.tiles) in
    let (ws', s') = remove_view env v true ws s in
    finish_insert env v width ws' s' (push_tile v column.address ws'.columns)

abbrev pop_between : Env → Option Tile → Option Tile → Workspace → Scene → Workspace × Scene
pop_between env none front ws s = (ws, s)
pop_between env (some back) none ws s = (ws, s)
pop_between env (some back) (some front) ws s =
    let (ws1, s1) = remove_view env back.view true ws s in
    let (ws2, s2) = add_view env back.view (some front.view) false true ws1 s1 in
    (ws2, arrange_workspace env ws2 true s2)

-- `Workspace::pop_from_column`
unfoldable pub pop_from_column : Env → Column → Workspace → Scene → Workspace × Scene
pop_from_column env column ws s =
    if ltb (length column.tiles) 2
    then (ws, s)
    else pop_between env (last? column.tiles) (first? column.tiles) ws s

abbrev pub restore_to : ℕ → Option Box → Scene → Option Scene
restore_to v none s = none
restore_to v (some saved) s =
    let moved =
      move v saved.x saved.y
        (modify v (λ w. record w { expansion_state = recovering }) (set_fullscreen v false s)) in
    elim (try_resize v saved.width saved.height moved) [
      | none ↦ none
      | some resized ↦ some (modify v (λ w. record w { saved_state = none }) resized)
    ]

-- The view that was fullscreen goes back to its saved state.
unfoldable pub leave_fullscreen : Option ℕ → Scene → Option Scene
leave_fullscreen none s = some s
leave_fullscreen (some v) s = restore_to v (s.view v).saved_state s

abbrev expand : ℕ → Scene → Scene
expand v s = set_fullscreen v true (modify v (λ w. record w { expansion_state = fullscreen }) s)

abbrev saved_box : View → Box
saved_box w = record { x = w.x; y = w.y; width = w.geometry.width; height = w.geometry.height }

unfoldable pub enter_fullscreen : Option ℕ → Scene → Option Scene
enter_fullscreen none s = some s
enter_fullscreen (some v) s = elim (save_state v (saved_box (s.view v)) s) [
  | none ↦ none
  | some s' ↦ some (expand v s')
]

abbrev pub finish_fullscreen :
    Env → Option ℕ → Workspace → Option Scene → Option (Workspace × Scene)
finish_fullscreen env v ws none = none
finish_fullscreen env v ws (some s) =
    let ws' = record ws { fullscreen_view = v } in some (ws', arrange_workspace env ws' true s)

-- `Workspace::set_fullscreen_view`
unfoldable pub set_fullscreen_view : Env → Option ℕ → Workspace → Scene → Option (Workspace × Scene)
unfolding leave_fullscreen enter_fullscreen
set_fullscreen_view env v ws s = elim (leave_fullscreen ws.fullscreen_view s) [
  | none ↦ none
  | some s' ↦ finish_fullscreen env v ws (enter_fullscreen v s')
]
