-- ===== src/Seat.antt =====
-- The keyboard focus: the focus operations of cardboard/Seat.h and Seat.cpp, and the operations of
-- SurfaceManager.cpp that map and unmap views.
--
-- `Outside` holds what the operations ask of wlroots and of the surfaces. `none` is an assertion
-- that fails, a workspace index out of range, or a view that the surface manager does not have.
pub mod Views
pub mod Grab
pub mod Released
pub mod Keeps
pub mod Stack
pub mod Life
pub mod Focused
pub mod Examples
use cardboard.Base.{
  ℕ, zero, ◌==◌, Bool, true, false, not, ◌&&◌, Option, none, some, List, [], ◌∷◌, if◌then◌else◌,
  length, get_elem?, set, erase_at, find_position, keep_if, any, first?, map, ltb,
}
use cardboard.Base.Int.{ℤ, pos, negsuc}
use cardboard.View.{View, Scene, same_ref, modify, set_activated, close_popups}
use cardboard.Workspace.{Tile, Column, Workspace, Env, mapped_and_normal_tiles}
use cardboard.Workspace.Edit.{add_view, remove_view}
use cardboard.Workspace.Fit.{fit_view_on_screen}

-- `Seat`, with the focus that `wlr_seat` keeps for the keyboard (a surface) and the pointer (a
-- client).
pub record Seat : Type 0 where
  pub focus_stack : List ℕ
  pub focused_layer : Option ℕ
  pub exclusive_client : Option ℕ
  pub focused_surface : Option ℕ
  pub pointer_client : Option ℕ

-- `Server`: its seat, `output_manager->workspaces`, `surface_manager.views`, and the windows.
pub record Server : Type 0 where
  pub seat : Seat
  pub workspaces : List Workspace
  pub views : List ℕ
  pub scene : Scene

-- The surface of a view and of a layer, the client of a surface and of a layer, whether a view is
-- transient for another, whether a layer is mapped and at `TOP` or above, whether the cursor is on
-- an output, and what the three calls of `wlr_seat` do to its focus.
pub record Outside : Type 0 where
  pub get_surface : ℕ → ℕ
  pub layer_surface : ℕ → ℕ
  pub client_of : ℕ → ℕ
  pub layer_client : ℕ → ℕ
  pub is_transient_for : ℕ → ℕ → Bool
  pub layer_mapped : ℕ → Bool
  pub layer_on_top : ℕ → Bool
  pub output_under_cursor : ℕ → Bool
  pub notify_enter : ℕ → Option ℕ → Option ℕ
  pub clear_focus : Option ℕ → Option ℕ
  pub pointer_clear_focus : Option ℕ → Option ℕ

abbrev pub and_then : {A B : Type 0} → Option A → (A → Option B) → Option B
and_then none f = none
and_then (some a) f = f a

abbrev pub with_seat : (Seat → Seat) → Server → Server
with_seat f w = record w { seat = f w.seat }

abbrev first_if : Option ℕ → List ℕ → Option ℕ
first_if none stack = none
first_if (some surface) stack = first? stack

-- `Seat::get_focused_view`
abbrev pub get_focused_view : Seat → Option ℕ
get_focused_view seat = first_if seat.focused_surface seat.focus_stack

-- `OutputManager::get_view_workspace`
abbrev pub workspace_at : ℤ → List Workspace → Option Workspace
workspace_at (pos i) workspaces = get_elem? workspaces i
workspace_at (negsuc i) workspaces = none

abbrev pub get_view_workspace : Server → ℕ → Option Workspace
get_view_workspace w v = workspace_at (w.scene.view v).workspace_id w.workspaces

abbrev pub index_of : ℤ → ℕ
index_of (pos i) = i
index_of (negsuc i) = 0

-- The server after an operation on the workspace of a view.
abbrev pub store_workspace : ℕ → Server → Workspace × Scene → Server
store_workspace i w (ws, s) = record w { workspaces = set w.workspaces i ws; scene = s }

abbrev pub allows : Option ℕ → ℕ → Bool
allows none client = true
allows (some e) client = e == client

-- `std::list::splice` of the element to the front, where it is there.
abbrev pub splice_front : ℕ → List ℕ → List ℕ
splice_front v stack = v ∷ erase_at stack (find_position (λ u. u == v) stack)

abbrev has : ℕ → List ℕ → Bool
has v stack = any (λ u. u == v) stack

-- The front of the focus stack.
abbrev pub push_focus : ℕ → List ℕ → List ℕ
push_focus v stack = if has v stack then splice_front v stack else v ∷ stack

-- `SurfaceManager::move_view_to_front`; without the view, `end()` is spliced.
unfoldable pub move_view_to_front : ℕ → Server → Option Server
move_view_to_front v w =
    if has v w.views then some (record w { views = splice_front v w.views }) else none

-- The label `fit_on_screen` of `Seat::focus_view`.
unfoldable pub fit_on_screen : Env → ℕ → Bool → Server → Option Server
fit_on_screen env v condense w = and_then (get_view_workspace w v) (λ ws. some (
    store_workspace (index_of (w.scene.view v).workspace_id) w
      (fit_view_on_screen env v condense ws w.scene)))

module _ (out : Outside) where
  -- `Seat::is_input_allowed`
  abbrev pub is_input_allowed : Seat → ℕ → Bool
  is_input_allowed seat surface = allows seat.exclusive_client (out.client_of surface)

  -- `Seat::keyboard_notify_enter`
  abbrev pub keyboard_notify_enter : ℕ → Seat → Seat
  keyboard_notify_enter surface seat = record seat {
    focused_surface = out.notify_enter surface seat.focused_surface;
  }

  abbrev hides : ℕ → Option ℕ → Bool
  hides v none = false
  hides v (some f) = if f == v then false else not (out.is_transient_for v f)

  -- Whether a fullscreen view hides the view.
  abbrev pub hidden_by_fullscreen : ℕ → Workspace → Bool
  hidden_by_fullscreen v ws = hides v ws.fullscreen_view

  unfoldable pub deactivate_previous : Option ℕ → Server → Server
  deactivate_previous none w = w
  deactivate_previous (some p) w =
      with_seat (λ seat. record seat { focused_surface = out.clear_focus seat.focused_surface })
        (record w { scene = set_activated p false (close_popups p w.scene) })

  -- `Seat::focus_layer` with a layer.
  unfoldable pub enter_layer : ℕ → Server → Option Server
  enter_layer layer w =
      if same_ref w.seat.focused_layer (some layer)
      then some w
      else if out.layer_mapped layer
      then some (
          with_seat
            (λ seat. record (keyboard_notify_enter (out.layer_surface layer) seat) {
              focused_layer = if out.layer_on_top layer then some layer else seat.focused_layer;
            })
            w)
      else none

module _ (env : Env) (out : Outside) where
  -- The block of `Seat::focus_view` that gives the focus, and the label behind it.
  unfoldable pub give_focus : ℕ → Bool → Server → Option Server
  give_focus v condense w =
      if is_input_allowed out w.seat (out.get_surface v)
      then and_then
          (move_view_to_front v
            (with_seat (λ seat. record seat { focus_stack = push_focus v seat.focus_stack }) w))
          (λ w'. fit_on_screen env v condense (
            with_seat (keyboard_notify_enter out (out.get_surface v))
              (record w' { scene = set_activated v true w'.scene })))
      else some w

  -- `Seat::focus_view` while no layer has the focus.
  unfoldable pub focus_view_only : Option ℕ → Bool → Server → Option Server
  focus_view_only none condense w = some (deactivate_previous out (get_focused_view w.seat) w)
  focus_view_only (some v) condense w =
      let prev = get_focused_view w.seat in
      if same_ref prev (some v)
      then fit_on_screen env v condense w
      else and_then (get_view_workspace w v) (λ ws.
        if hidden_by_fullscreen out v ws
        then some w
        else give_focus v condense (deactivate_previous out prev w))

  abbrev pub focus_again : Option ℕ → Server → Option Server
  focus_again none w = some w
  focus_again (some f) w =
      and_then (focus_view_only none false w) (λ w'. focus_view_only (some f) false w')

  -- `Seat::focus_layer` with null, while a layer has the focus.
  unfoldable pub leave_layer : Server → Option Server
  leave_layer w =
      let w' = with_seat (λ seat. record seat { focused_layer = none }) w in
      focus_again (get_focused_view w'.seat) w'

  abbrev pub leave_focused : Option ℕ → Server → Option Server
  leave_focused none w = some w
  leave_focused (some layer) w = leave_layer w

  -- `Seat::focus_layer`
  unfoldable pub focus_layer : Option ℕ → Server → Option Server
  focus_layer none w = leave_focused w.seat.focused_layer w
  focus_layer (some layer) w = enter_layer out layer w

  abbrev pub focus_under : Option ℕ → Option ℕ → Bool → Server → Option Server
  focus_under none v condense w = focus_view_only v condense w
  focus_under (some layer) v condense w =
      and_then (leave_layer w)
        (λ w'. and_then (focus_view_only v condense w') (λ w''. enter_layer out layer w''))

  -- `Seat::focus_view`. Under a layer it calls itself once, when the layer has left the focus.
  unfoldable pub focus_view : Option ℕ → Bool → Server → Option Server
  focus_view v condense w = focus_under w.seat.focused_layer v condense w
