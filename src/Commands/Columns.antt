-- ===== src/Commands/Columns.antt =====
-- The commands on columns: `move`, `insert_into_column` and `pop_from_column` of cardboard/commands/commands.h.
pub mod Moved
use cardboard.Base.{
  ℕ, zero, suc, ◌+◌, ◌-◌, ◌%◌, ◌==◌, Bool, true, false, not, Option, none, some, List, [], ◌∷◌,
  if◌then◌else◌, get_elem?, length, set, find_position, ltb,
}
use cardboard.Base.Int.{ℤ, pos, negsuc, ◌+ℤ◌, eqb_ℤ}
use cardboard.Base.Text.{codes}
use cardboard.View.{Scene, is_normal}
use cardboard.Workspace.{Tile, Column, Workspace, Env, find_column}
use cardboard.Workspace.Arrange.{arrange_workspace}
use cardboard.Workspace.Edit
use cardboard.Workspace.Fit.{fit_view_on_screen}
use cardboard.Seat.{and_then, get_focused_view}
use cardboard.ViewOperations.{reconfigure_view_position}
use cardboard.Commands.{
  Compositor, World, Outcome, server_of, env_of, answer, silently, views_workspace, store_view,
  store_if, first_on_screen,
}

abbrev pub no_view_to_move : Compositor → Outcome
no_view_to_move c = answer (codes "No view to move in current workspace") c

abbrev pub nothing_to_do : Compositor → Outcome
nothing_to_do c = answer (codes "Nothing to do") c

abbrev pub swap_found {ℓ} : {A : Type ℓ} → ℕ → ℕ → List A → Option A → Option A → List A
swap_found i j xs none b = xs
swap_found i j xs (some a) none = xs
swap_found i j xs (some a) (some b) = set (set xs i b) j a

-- `std::swap` of two elements.
abbrev pub swap_elements {ℓ} : {A : Type ℓ} → ℕ → ℕ → List A → List A
swap_elements i j xs = swap_found i j xs (get_elem? xs i) (get_elem? xs j)

abbrev pub swap_tiles : ℕ → ℕ → List Column → Option Column → Option Column → List Column
swap_tiles i j cs none b = cs
swap_tiles i j cs (some a) none = cs
swap_tiles i j cs (some a) (some b) =
    set (set cs i (record a { tiles = b.tiles })) j (record b { tiles = a.tiles })

-- `std::swap` of two columns: the list nodes stay where they are and exchange their tiles, which
-- point to the nodes that they were in.
unfoldable pub swap_columns : ℕ → ℕ → List Column → List Column
swap_columns i j cs = swap_tiles i j cs (get_elem? cs i) (get_elem? cs j)

-- The column to exchange with, where there is one on that side.
abbrev pub other_column : ℤ → ℕ → ℕ → Option ℕ
other_column (pos zero) i size = none
other_column (pos (suc n)) i size = if suc i == size then none else some (suc i)
other_column (negsuc n) zero size = none
other_column (negsuc n) (suc i) size = some i

-- The index of the other tile: up for a positive `dy` and down for a negative one, around the end.
abbrev pub other_tile : ℤ → ℕ → ℕ → ℕ
other_tile (pos zero) i size = i
other_tile (pos (suc n)) i size = (i + size - 1) % size
other_tile (negsuc n) i size = (i + 1 + size) % size

abbrev is_zero : ℤ → Bool
is_zero dy = eqb_ℤ dy (pos 0)

unfoldable pub move_tile : ℕ → ℤ → List Tile → List Tile
move_tile v dy ts =
    let i = find_position (λ (t : Tile). t.view == v) ts in
    if is_zero dy
    then ts
    else if ltb 1 (length ts)
    then swap_elements i (other_tile dy i (length ts)) ts
    else ts

abbrev pub move_tile_at : ℕ → ℤ → ℕ → List Column → Option Column → List Column
move_tile_at v dy i cs none = cs
move_tile_at v dy i cs (some c) = set cs i (record c { tiles = move_tile v dy c.tiles })

-- Where the view's column goes.
abbrev pub target_column : ℤ → ℕ → ℕ → ℕ
target_column dx i size = elim (other_column dx i size) [ none ↦ i | some j ↦ j ]

abbrev pub moved_aside : ℤ → ℕ → List Column → List Column
moved_aside dx i cs = elim (other_column dx i (length cs)) [
  | none ↦ cs
  | some j ↦ swap_columns j i cs
]

-- The columns after `commands::move` of a view in the column at position `i`.
unfoldable pub moved_columns : ℕ → ℤ → ℤ → ℕ → List Column → List Column
moved_columns v dx dy i cs =
    let cs' = moved_aside dx i cs in
    let k = target_column dx i (length cs) in move_tile_at v dy k cs' (get_elem? cs' k)

abbrev pub front_view : Option Column → Option ℕ
front_view none = none
front_view (some c) = elim c.tiles [ [] ↦ none | t ∷ ts ↦ some t.view ]

module _ (world : World) where
  abbrev pub arrange_moved : ℕ → Workspace → Scene → Option ℕ → Env → Option (Workspace × Scene)
  arrange_moved v ws s none env = none
  arrange_moved v ws s (some u) env =
      some (fit_view_on_screen env u false ws (arrange_workspace env ws true s))

  abbrev pub move_tiled : ℕ → ℤ → ℤ → ℕ → Workspace → Compositor → Outcome
  move_tiled v dx dy i ws c =
      let ws' = record ws { columns = moved_columns v dx dy i ws.columns } in
      let k = target_column dx i (length ws.columns) in
      store_if v c (
        arrange_moved v ws' (server_of c).scene (front_view (get_elem? ws'.columns k))
          (env_of world c))

  abbrev pub move_floating : ℕ → ℤ → ℤ → Compositor → Outcome
  move_floating v dx dy c =
      let view = (server_of c).scene.view v in
      silently c (
        reconfigure_view_position (env_of world c) world.out world.pointing world.layers v
          (view.x +ℤ dx) (view.y +ℤ dy) true (server_of c))

  abbrev move_on : ℕ → ℤ → ℤ → Workspace → Compositor → Outcome
  move_on v dx dy ws c =
      let i = find_column (some v) ws.columns in
      if i == length ws.columns then move_floating v dx dy c else move_tiled v dx dy i ws c

  abbrev move_of : Option ℕ → ℤ → ℤ → Compositor → Outcome
  move_of none dx dy c = answer [] c
  move_of (some v) dx dy c = and_then (views_workspace c v) (λ ws. move_on v dx dy ws c)

  -- `commands::move`
  unfoldable pub run_move : ℤ → ℤ → Compositor → Outcome
  run_move dx dy c = move_of (get_focused_view (server_of c).seat) dx dy c

  abbrev insert_next : ℕ → Column → Workspace → Option ℕ → Compositor → Outcome
  insert_next v column ws none c = nothing_to_do c
  insert_next v column ws (some u) c =
      store_if v c (Edit.insert_into_column (env_of world c) u column ws (server_of c).scene)

  abbrev insert_from : ℕ → Workspace → Option Column → Option Column → Compositor → Outcome
  insert_from v ws none next c = none
  insert_from v ws (some column) none c = nothing_to_do c
  insert_from v ws (some column) (some next) c =
      insert_next v column ws (first_on_screen (server_of c).scene.view next.tiles) c

  abbrev insert_of : Option ℕ → Compositor → Outcome
  insert_of none c = no_view_to_move c
  insert_of (some v) c = and_then (views_workspace c v) (λ ws.
      let i = find_column (some v) ws.columns in
      insert_from v ws (get_elem? ws.columns i) (get_elem? ws.columns (suc i)) c)

  -- `commands::insert_into_column`; `none` for a floating view, which has no column to dereference.
  unfoldable pub run_insert_into_column : Compositor → Outcome
  run_insert_into_column c = insert_of (get_focused_view (server_of c).seat) c

  abbrev pop_from : ℕ → Workspace → Option Column → Compositor → Outcome
  pop_from v ws none c = answer (codes "View is floating") c
  pop_from v ws (some column) c =
      let (ws', s) = Edit.pop_from_column (env_of world c) column ws (server_of c).scene in
      answer [] (store_view v c (fit_view_on_screen (env_of world c) v false ws' s))

  abbrev pop_of : Option ℕ → Compositor → Outcome
  pop_of none c = no_view_to_move c
  pop_of (some v) c =
      if is_normal ((server_of c).scene.view v).expansion_state
      then and_then (views_workspace c v)
          (λ ws. pop_from v ws (get_elem? ws.columns (find_column (some v) ws.columns)) c)
      else answer (codes "View must not be fullscreened") c

  -- `commands::pop_from_column`
  unfoldable pub run_pop_from_column : Compositor → Outcome
  run_pop_from_column c = pop_of (get_focused_view (server_of c).seat) c
