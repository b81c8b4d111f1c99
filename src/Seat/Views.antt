-- ===== src/Seat/Views.antt =====
-- The operations that hide, map and unmap views and that choose the next focus: cardboard/Seat.cpp
-- and SurfaceManager.cpp.
use cardboard.Base.{
  ℕ, ◌==◌, Bool, true, false, not, Option, none, some, List, if◌then◌else◌, get_elem?, keep_if, any,
  find_position,
}
use cardboard.View.{same_ref, modify, cancel_tasks}
use cardboard.Workspace.{Tile, Column, Workspace, Env, mapped_and_normal_tiles}
use cardboard.Workspace.Edit.{add_view, remove_view}
use cardboard.Seat.{
  Server, Outside, and_then, with_seat, get_focused_view, get_view_workspace, index_of,
  store_workspace, focus_view, focus_layer,
}

-- `Seat::remove_from_focus_stack`
unfoldable pub remove_from_focus_stack : ℕ → Server → Server
remove_from_focus_stack v w =
    with_seat (λ seat. record seat { focus_stack = keep_if (λ u. not (u == v)) seat.focus_stack }) w

-- The first of the focus stack that passes, or `end()`.
abbrev pub find_focus : (ℕ → Bool) → List ℕ → Option ℕ
find_focus p stack = get_elem? stack (find_position p stack)

module _ (out : Outside) where
  abbrev holds_cursor : Option ℕ → Bool
  holds_cursor none = false
  holds_cursor (some o) = out.output_under_cursor o

  -- `Seat::get_focused_workspace`: its position.
  unfoldable pub get_focused_workspace : Server → ℕ
  get_focused_workspace w = find_position (λ (ws : Workspace). holds_cursor ws.output) w.workspaces

module _ (env : Env) (out : Outside) where
  abbrev pub focus_found : Option ℕ → Bool → Server → Option Server
  focus_found none condense w = some w
  focus_found (some u) condense w = focus_view env out (some u) condense w

  -- `Seat::hide_view`
  unfoldable pub hide_view : ℕ → Server → Option Server
  hide_view v w =
      if same_ref (get_focused_view w.seat) (some v)
      then focus_found
          (find_focus (λ u. if u == v then false else (w.scene.view u).mapped) w.seat.focus_stack)
          true w
      else some w

  -- `Seat::focus_column`
  unfoldable pub focus_column : Column → Server → Option Server
  focus_column c w =
      let tiles = mapped_and_normal_tiles w.scene.view c.tiles in
      focus_found (find_focus (λ u. any (λ (t : Tile). t.view == u) tiles) w.seat.focus_stack) false
        w

  abbrev pub add_to : ℕ → Option ℕ → ℕ → Option Workspace → Server → Server
  add_to v next_to i none w = w
  add_to v next_to i (some ws) w =
      store_workspace i w (add_view env v next_to false false ws w.scene)

  abbrev pub set_mapped : ℕ → Bool → Server → Server
  set_mapped v b w = record w { scene = modify v (λ u. record u { mapped = b }) w.scene }

  -- `SurfaceManager::map_view`
  unfoldable pub map_view : ℕ → Server → Option Server
  map_view v w =
      let w' = set_mapped v true w in
      let i = get_focused_workspace out w' in
      focus_view env out (some v) false
        (add_to v (get_focused_view w'.seat) i (get_elem? w'.workspaces i) w')

  -- The view leaves its workspace.
  abbrev pub take_out : ℕ → Server → Option Server
  take_out v w = and_then (get_view_workspace w v) (λ ws. some (
      store_workspace (index_of (w.scene.view v).workspace_id) w
        (remove_view env v false ws w.scene)))

  -- `SurfaceManager::unmap_view`
  unfoldable pub unmap_view : ℕ → Server → Option Server
  unmap_view v w =
      and_then (if (w.scene.view v).mapped then take_out v (set_mapped v false w) else some w)
        (λ w'. and_then (hide_view v w') (λ w''. some (remove_from_focus_stack v w'')))

  abbrev pub differs : Option ℕ → ℕ → Bool
  differs none client = false
  differs (some c) client = not (c == client)

  abbrev client_of_layer : Option ℕ → Option ℕ
  client_of_layer none = none
  client_of_layer (some l) = some (out.layer_client l)

  abbrev client_of_view : Option ℕ → Option ℕ
  client_of_view none = none
  client_of_view (some v) = some (out.client_of (out.get_surface v))

  abbrev pub drop_layer : ℕ → Server → Option Server
  drop_layer client w =
      if differs (client_of_layer w.seat.focused_layer) client
      then focus_layer env out none w
      else some w

  abbrev pub drop_view : ℕ → Server → Option Server
  drop_view client w =
      if differs (client_of_view (get_focused_view w.seat)) client
      then focus_view env out none false w
      else some w

  abbrev pub drop_pointer : ℕ → Server → Server
  drop_pointer client w =
      if differs w.seat.pointer_client client
      then with_seat
          (λ seat. record seat { pointer_client = out.pointer_clear_focus seat.pointer_client }) w
      else w

  -- `Seat::set_exclusive_client`, without the call that arranges the layers of the output.
  unfoldable pub set_exclusive_client : Option ℕ → Server → Option Server
  set_exclusive_client none w = some (with_seat (λ seat. record seat { exclusive_client = none }) w)
  set_exclusive_client (some client) w = and_then (drop_layer client w) (λ w'.
      and_then (drop_view client w') (λ w''. some (
        with_seat (λ seat. record seat { exclusive_client = some client })
          (drop_pointer client w''))))

-- `SurfaceManager::remove_view`
unfoldable pub remove_surface : ℕ → Server → Server
remove_surface v w = record w {
  scene = cancel_tasks v w.scene;
  views = keep_if (λ u. not (u == v)) w.views;
}
