-- ===== src/Cursor.antt =====
-- What is under the cursor, and the focus of the pointer: `SurfaceManager::get_surface_under_cursor`
-- of cardboard/SurfaceManager.cpp, the `get_surface_under_coords` of XDGView.cpp, Xwayland.cpp and
-- Layers.cpp, and `cursor_rebase` of Cursor.cpp.
--
-- A `double` is its bit pattern. The image of the cursor, which wlroots draws, is left out.
pub mod Inhibit
pub mod Examples
use cardboard.Base.{
  ℕ, Bool, not, ◌||◌, Option, none, some, List, [], ◌∷◌, if◌then◌else◌, get_elem?, find_position,
}
use cardboard.Base.Int.{ℤ}
use cardboard.View.{Box, Scene, same_ref}
use cardboard.Workspace.{Tile, Column, Workspace}
use cardboard.Seat.{Server, Outside, with_seat, is_input_allowed}

-- `surface_manager.layers`, from the bottom up, and `xwayland_or_surfaces`.
pub record Layers : Type 0 where
  pub background : List ℕ
  pub bottom : List ℕ
  pub top : List ℕ
  pub overlay : List ℕ
  pub xwayland_or_surfaces : List ℕ

-- The position of the cursor; the output that the output layout has there, or at a point; what a
-- layer surface and an override-redirect surface are; the searches of wlroots for a surface at a
-- point of a view, a layer or such a surface; `double` less `int`; and what
-- `wlr_seat_pointer_notify_enter` does to the pointer's focus.
pub record Pointing : Type 0 where
  pub lx : ℕ
  pub ly : ℕ
  pub output_at_cursor : Option ℕ
  pub output_at : ℤ → ℤ → Option ℕ
  pub layer_mapped : ℕ → Bool
  pub layer_output : ℕ → Option ℕ
  pub layer_geometry : ℕ → Box
  pub or_mapped : ℕ → Bool
  pub or_position : ℕ → ℤ × ℤ
  pub or_has_surface : ℕ → Bool
  pub view_surface_at : ℕ → ℕ → ℕ → Option ℕ
  pub layer_surface_at : ℕ → ℕ → ℕ → Option ℕ
  pub or_surface_at : ℕ → ℕ → ℕ → Option ℕ
  pub minus : ℕ → ℤ → ℕ
  pub pointer_enter : ℕ → Option ℕ → Option ℕ

-- The view that `get_surface_under_cursor` returns, if any, and the surface that it writes.
pub record Found : Type 0 where
  pub view : Option ℕ
  pub surface : ℕ

abbrev found : Option ℕ → Option ℕ → Option Found
found v none = none
found v (some surface) = some (record { view = v; surface = surface })

abbrev pub or_else {ℓ} : {A : Type ℓ} → Option A → Option A → Option A
or_else none b = b
or_else (some a) b = some a

-- A loop that returns from the first element that gives something.
abbrev pub scan {ℓ κ} : {A : Type ℓ} {B : Type κ} → (A → Option B) → List A → Option B
scan f [] = none
scan f (x ∷ xs) = or_else (f x) (scan f xs)

module _ (p : Pointing) where
  -- `XDGView::get_surface_under_coords` and `XwaylandView::get_surface_under_coords`
  abbrev pub view_under_coords : Scene → ℕ → Option ℕ
  view_under_coords s v =
      p.view_surface_at v (p.minus p.lx (s.view v).x) (p.minus p.ly (s.view v).y)

  -- `LayerSurface::get_surface_under_coords`
  abbrev pub layer_under_coords : ℕ → Option ℕ
  layer_under_coords l =
      p.layer_surface_at l (p.minus p.lx (p.layer_geometry l).x)
        (p.minus p.ly (p.layer_geometry l).y)

  -- `XwaylandORSurface::get_surface_under_coords`
  abbrev pub or_under_coords : ℕ → Option ℕ
  or_under_coords x =
      if p.or_has_surface x
      then p.or_surface_at x (p.minus p.lx (p.or_position x).0) (p.minus p.ly (p.or_position x).1)
      else none

  -- The bodies of the loops over the layers above the views, the override-redirect surfaces, the
  -- views and the layers below them.
  abbrev pub layer_hit : ℕ → ℕ → Option Found
  layer_hit output l =
      if not (p.layer_mapped l) || not (same_ref (p.layer_output l) (some output))
      then none
      else found none (layer_under_coords l)

  abbrev pub or_hit : ℕ → Option Found
  or_hit x = if p.or_mapped x then found none (or_under_coords x) else none

  abbrev pub view_hit : Scene → ℕ → Option Found
  view_hit s v = if (s.view v).mapped then found (some v) (view_under_coords s v) else none

  abbrev pub below_hit : ℕ → Option Found
  below_hit l = if p.layer_mapped l then found none (layer_under_coords l) else none

  abbrev pub fullscreen_hit : Scene → Option ℕ → Option Found
  fullscreen_hit s none = none
  fullscreen_hit s (some v) = found (some v) (view_under_coords s v)

  abbrev pub unless_fullscreen : Option ℕ → Option Found → Option Found
  unless_fullscreen none f = f
  unless_fullscreen (some v) f = none

  -- The search on a workspace that an output shows.
  unfoldable pub search : Layers → Scene → ℕ → Workspace → Option Found
  search layers s output ws = or_else (scan (layer_hit output) layers.overlay) (
      or_else (unless_fullscreen ws.fullscreen_view (scan (layer_hit output) layers.top)) (
        or_else (scan or_hit layers.xwayland_or_surfaces) (
          or_else (fullscreen_hit s ws.fullscreen_view) (
            or_else (scan (view_hit s) ws.floating_views) (
              or_else
                (scan (λ (c : Column). scan (λ (t : Tile). view_hit s t.view) c.tiles) ws.columns)
                (or_else (scan below_hit layers.bottom) (scan below_hit layers.background)))))))

  abbrev search_shown : Layers → Scene → Option Workspace → Option ℕ → Option Found
  search_shown layers s none output = none
  search_shown layers s (some ws) none = none
  search_shown layers s (some ws) (some output) = search layers s output ws

  -- The workspace whose output is the one under the cursor.
  abbrev pub workspace_under_cursor : List Workspace → Option Workspace
  workspace_under_cursor workspaces =
      get_elem? workspaces
        (find_position (λ (ws : Workspace). same_ref ws.output p.output_at_cursor) workspaces)

  -- `SurfaceManager::get_surface_under_cursor`
  unfoldable pub get_surface_under_cursor : Layers → Server → Option Found
  get_surface_under_cursor layers w =
      search_shown layers w.scene (workspace_under_cursor w.workspaces) p.output_at_cursor

  abbrev pub rebase_on : Outside → Option Found → Server → Server
  rebase_on out none w =
      with_seat
        (λ seat. record seat { pointer_client = out.pointer_clear_focus seat.pointer_client }) w
  rebase_on out (some f) w =
      with_seat
        (λ seat. record seat {
          pointer_client =
              if is_input_allowed out seat f.surface
              then p.pointer_enter f.surface seat.pointer_client
              else out.pointer_clear_focus seat.pointer_client;
        })
        w

  -- `cursor_rebase`, as far as it changes the focus of the pointer.
  unfoldable pub cursor_rebase : Outside → Layers → Server → Server
  cursor_rebase out layers w = rebase_on out (get_surface_under_cursor layers w) w
