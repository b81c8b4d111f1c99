-- ===== src/Seat/Grab.antt =====
-- The grabs of the seat: `Seat::GrabState` and the functions of cardboard/Seat.cpp that begin and
-- end one.
--
-- A `double` is its bit pattern, and `Pointer` has the processor's operations.
use cardboard.Base.{
  ℕ, suc, ◌==◌, Bool, true, false, Option, none, some, List, [], ◌∷◌, if◌then◌else◌, get_elem?, set,
  ltb,
}
use cardboard.Base.Int.{ℤ}
use cardboard.View.{Box, View, Scene, same_ref, cancel_tasks}
use cardboard.Workspace.{Tile, Column, Workspace, is_view_floating}
use cardboard.Seat.Views.{get_focused_workspace}
use cardboard.Seat.{Server, Outside, get_focused_view, workspace_at, index_of}

-- `GrabState`, with a workspace by its position.
pub data GrabState : Type 0 where
  move : (view lx ly : ℕ) (view_x view_y : ℤ) → GrabState
  resize :
      (view lx ly : ℕ) (geometry : Box) (resize_edges workspace : ℕ) (scroll_x view_x view_y : ℤ)
      (old_suspend_animations : Bool)
      → GrabState
  workspace_scroll :
      (workspace : ℕ) (dominant_view : Option ℕ) (speed delta_since_update scroll_x : ℕ)
      (ready wants_to_stop : Bool)
      → GrabState
  workspace_switch : (workspace direction : ℕ) → GrabState

-- The server with the grab of its seat, and how often the cursor has been rebased.
pub record Grabbing : Type 0 where
  pub server : Server
  pub grab_state : Option GrabState
  pub rebased : ℕ

-- The position of the cursor, the surface that the pointer is on, and the operations on `double`.
pub record Pointer : Type 0 where
  pub x : ℕ
  pub y : ℕ
  pub focused_surface : Option ℕ
  pub double_of_int : ℤ → ℕ
  pub add : ℕ → ℕ → ℕ
  pub mul : ℕ → ℕ → ℕ

abbrev cancel_tiles : List Tile → Scene → Scene
cancel_tiles [] s = s
cancel_tiles (t ∷ ts) s = cancel_tiles ts (cancel_tasks t.view s)

-- The loop over the tiles of a workspace that cancels their animations.
unfoldable pub cancel_columns : List Column → Scene → Scene
cancel_columns [] s = s
cancel_columns (c ∷ cs) s = cancel_columns cs (cancel_tiles c.tiles s)

abbrev pub with_scene : Scene → Grabbing → Grabbing
with_scene s g = record g { server = record g.server { scene = s } }

abbrev pub suspend : ℕ → Bool → Workspace → Grabbing → Grabbing
suspend i b ws g = record g {
  server = record g.server {
    workspaces = set g.server.workspaces i (record ws { suspend_animations = b });
  };
}

-- The animations of a tiled view's workspace are cancelled, those of a floating one's are not.
abbrev pub settle : ℕ → Workspace → Scene → Scene
settle v ws s = if is_view_floating v ws then s else cancel_columns ws.columns s

abbrev view_of : Grabbing → ℕ → View
view_of g v = g.server.scene.view v

abbrev pub workspace_index : Grabbing → ℕ → ℕ
workspace_index g v = index_of (view_of g v).workspace_id

abbrev pub is_free : Option GrabState → Bool
is_free none = true
is_free (some grab) = false

module _ (out : Outside) (pointer : Pointer) where
  abbrev move_grab : ℕ → View → GrabState
  move_grab v w = move v pointer.x pointer.y w.x w.y

  abbrev move_in : ℕ → Grabbing → Option Workspace → Option Grabbing
  move_in v g none = none
  move_in v g (some ws) =
      let s = settle v ws g.server.scene in
      some (record (with_scene s g) { grab_state = some (move_grab v (s.view v)) })

  -- `Seat::begin_move`; `none` where the assertion fails or the view has no workspace.
  unfoldable pub begin_move : ℕ → Grabbing → Option Grabbing
  begin_move v g =
      if is_free g.grab_state
      then if same_ref (some (out.get_surface v)) pointer.focused_surface
        then move_in v g (workspace_at (view_of g v).workspace_id g.server.workspaces)
        else some g
      else none

  abbrev resize_grab : ℕ → ℕ → ℕ → Workspace → View → GrabState
  resize_grab v edges i ws w =
      resize v pointer.x pointer.y w.geometry edges i ws.scroll_x w.x w.y ws.suspend_animations

  abbrev pub resizing : ℕ → ℕ → Grabbing → Workspace → Grabbing
  resizing v edges g ws =
      let s = settle v ws g.server.scene in
      let i = workspace_index g v in
      suspend i true ws
        (record (with_scene s g) { grab_state = some (resize_grab v edges i ws (s.view v)) })

  abbrev pub resize_in : ℕ → ℕ → Grabbing → Option Workspace → Option Grabbing
  resize_in v edges g none = none
  resize_in v edges g (some ws) = some (resizing v edges g ws)

  -- `Seat::begin_resize`
  unfoldable pub begin_resize : ℕ → ℕ → Grabbing → Option Grabbing
  begin_resize v edges g =
      if is_free g.grab_state
      then if same_ref (some (out.get_surface v)) pointer.focused_surface
        then resize_in v edges g (workspace_at (view_of g v).workspace_id g.server.workspaces)
        else some g
      else none

abbrev resume : ℕ → Bool → Option Workspace → Grabbing → Grabbing
resume i b none g = g
resume i b (some ws) g = suspend i b ws g

abbrev restore : GrabState → Grabbing → Grabbing
restore (move v lx ly view_x view_y) g = g
restore (resize v lx ly geometry edges i scroll_x view_x view_y old) g =
    resume i old (get_elem? g.server.workspaces i) g
restore (workspace_scroll i dominant speed delta scroll_x ready stop) g = g
restore (workspace_switch i direction) g = g

abbrev release : Option GrabState → Grabbing → Grabbing
release none g = g
release (some grab) g =
    let g' = restore grab g in record g' { grab_state = none; rebased = suc g'.rebased }

-- `Seat::end_interactive`
unfoldable pub end_interactive : Grabbing → Grabbing
end_interactive g = release g.grab_state g

abbrev is_scroll : Option GrabState → Bool
is_scroll none = false
is_scroll (some (move v lx ly view_x view_y)) = false
is_scroll (some (resize v lx ly geometry edges i scroll_x view_x view_y old)) = false
is_scroll (some (workspace_scroll i dominant speed delta scroll_x ready stop)) = true
is_scroll (some (workspace_switch i direction)) = false

-- `Seat::end_touchpad_swipe`
unfoldable pub end_touchpad_swipe : Grabbing → Grabbing
end_touchpad_swipe g = if is_scroll g.grab_state then end_interactive g else g

-- `Seat::begin_workspace_scroll`
unfoldable pub begin_workspace_scroll : Pointer → ℕ → Workspace → Grabbing → Grabbing
begin_workspace_scroll pointer i ws g =
    let g' = end_interactive g in
    record g' {
      grab_state = some (
          workspace_scroll i (get_focused_view g'.server.seat) 0 0
            (pointer.double_of_int ws.scroll_x) false false);
    }

-- `Seat::is_grabbing`
unfoldable pub is_grabbing : Option GrabState → ℕ → Bool
is_grabbing none u = false
is_grabbing (some (move v lx ly view_x view_y)) u = v == u
is_grabbing (some (resize v lx ly geometry edges i scroll_x view_x view_y old)) u = v == u
is_grabbing (some (workspace_scroll i dominant speed delta scroll_x ready stop)) u = false
is_grabbing (some (workspace_switch i direction)) u = false

abbrev begin_swipe : Pointer → ℕ → ℕ → Option Workspace → Grabbing → Grabbing
begin_swipe pointer fingers i none g = g
begin_swipe pointer fingers i (some ws) g =
    if fingers == 3
    then begin_workspace_scroll pointer i ws g
    else if fingers == 4
    then record g { grab_state = some (workspace_switch i 0) }
    else g

-- `Seat::process_swipe_begin`
unfoldable pub process_swipe_begin : Outside → Pointer → ℕ → Grabbing → Grabbing
process_swipe_begin out pointer fingers g =
    let g' = end_touchpad_swipe g in
    let i = get_focused_workspace out g'.server in
    begin_swipe pointer fingers i (get_elem? g'.server.workspaces i) g'

-- The bit pattern of `WORKSPACE_SCROLL_SENSITIVITY`, which is 2.0.
abbrev sensitivity : ℕ
sensitivity = 0x4000000000000000

abbrev update_grab : Pointer → ℕ → ℕ → ℕ → Option GrabState → Grabbing → Option Grabbing
update_grab pointer fingers dx dy none g = some g
update_grab pointer fingers dx dy (some (move v lx ly view_x view_y)) g = some g
update_grab pointer fingers dx dy
      (some (resize v lx ly geometry edges i scroll_x view_x view_y old)) g =
    some g
update_grab pointer fingers dx dy (some (workspace_switch i direction)) g =
    if ltb fingers 4
    then none
    else some (record g { grab_state = some (workspace_switch i (pointer.add direction dy)) })
update_grab pointer fingers dx dy
      (some (workspace_scroll i dominant speed delta scroll_x ready stop)) g =
    if ltb fingers 3
    then some (end_touchpad_swipe g)
    else some (record g {
      grab_state = some (
          workspace_scroll i dominant speed (pointer.add delta (pointer.mul dx sensitivity))
            scroll_x true stop);
    })

-- `Seat::process_swipe_update`; `none` where it writes to the grab that it has just destroyed.
unfoldable pub process_swipe_update : Pointer → ℕ → ℕ → ℕ → Grabbing → Option Grabbing
process_swipe_update pointer fingers dx dy g = update_grab pointer fingers dx dy g.grab_state g
