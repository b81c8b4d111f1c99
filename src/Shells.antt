-- ===== src/Shells.antt =====
-- What the clients' windows do: the handlers of cardboard/XDGView.cpp and Xwayland.cpp.
--
-- What a surface says of itself is given with the event. Listeners, popups and the surfaces of
-- Xwayland that are override-redirect are left out.
use cardboard.Base.{ℕ, Bool, true, false, ◌&&◌, Option, none, some, if◌then◌else◌}
use cardboard.Base.Int.{ℤ, pos, eqb_ℤ, ltb_ℤ}
use cardboard.View.{
  Box, View, Scene, modify, emit, damage_outputs, xwayland_configure, recover, resize,
}
use cardboard.Workspace.{Env}
use cardboard.Workspace.Arrange.{arrange_workspace}
use cardboard.Workspace.Edit.{set_fullscreen_view}
use cardboard.Seat.{Server, Outside, and_then, index_of}
use cardboard.Seat.Grab.{Grabbing, is_grabbing, end_interactive}
use cardboard.Seat.Views.{map_view, unmap_view, remove_surface}
use cardboard.ViewOperations.{on_workspace}

abbrev with_view_scene : (Scene → Scene) → Server → Server
with_view_scene f w = record w { scene = f w.scene }

abbrev workspace_position : ℕ → Server → ℕ
workspace_position v w = index_of (w.scene.view v).workspace_id

abbrev pub equal_boxes : Box → Box → Bool
equal_boxes a b = eqb_ℤ a.x b.x && eqb_ℤ a.y b.y && eqb_ℤ a.width b.width && eqb_ℤ a.height b.height

-- The geometry of a surface, or the size of its buffer where it sets none.
abbrev pub geometry_or : Box → ℤ × ℤ → Box
geometry_or geometry (width, height) =
    if eqb_ℤ geometry.width (pos 0) && eqb_ℤ geometry.height (pos 0)
    then record geometry { width = width; height = height }
    else geometry

abbrev pub first_mapped : Box → View → View
first_mapped box v =
    if v.new_view
    then record v { geometry = box; previous_size = (box.width, box.height); new_view = false }
    else record v { geometry = box }

-- `XDGView::surface_destroy_handler`
unfoldable pub surface_destroy_handler : ℕ → Grabbing → Grabbing
surface_destroy_handler v g =
    let g' = if is_grabbing g.grab_state v then end_interactive g else g in
    record g' { server = remove_surface v g'.server }

module _ (env : Env) (out : Outside) where
  -- `XDGView::surface_map_handler`, with the geometry and the size of the surface.
  unfoldable pub surface_map_handler : Box → ℤ × ℤ → ℕ → Server → Option Server
  surface_map_handler geometry current v w =
      map_view env out v
        (with_view_scene (modify v (first_mapped (geometry_or geometry current))) w)

  -- `XDGView::surface_unmap_handler`
  unfoldable pub surface_unmap_handler : ℕ → Server → Option Server
  surface_unmap_handler v w = unmap_view env out v w

  abbrev arrange_recovered : ℕ → Server → Option Server
  arrange_recovered v w =
      on_workspace (workspace_position v w) (λ ws s. some (ws, arrange_workspace env ws true s))
        (with_view_scene (recover v) w)

  abbrev damaged : Server → Option Server
  damaged w = some (with_view_scene (emit damage_outputs) w)

  -- `XDGView::surface_commit_handler`, with the new geometry.
  unfoldable pub surface_commit_handler : Box → ℕ → Server → Option Server
  surface_commit_handler new_geo v w =
      if equal_boxes new_geo (w.scene.view v).geometry
      then damaged w
      else and_then
          (arrange_recovered v
            (with_view_scene (modify v (λ x. record x { geometry = new_geo })) w))
          damaged

  -- `toplevel_request_fullscreen_handler` of an XDG view, and `surface_request_fullscreen_handler`
  -- of an Xwayland view.
  unfoldable pub request_fullscreen_handler : Bool → ℕ → Server → Option Server
  request_fullscreen_handler set v w =
      on_workspace (workspace_position v w)
        (λ ws s. set_fullscreen_view env (if set then some v else none) ws s) w

  -- `XwaylandView::surface_map_handler` of a view that is not override-redirect.
  unfoldable pub xwayland_map_handler : ℤ × ℤ → ℕ → Server → Option Server
  xwayland_map_handler (width, height) v w = map_view env out v (
      with_view_scene
        (modify v (λ x. record x {
          geometry = record { x = pos 0; y = pos 0; width = width; height = height };
        }))
        w)

  -- `XwaylandView::surface_request_configure_handler`, with the mapped state and the box asked for.
  unfoldable pub request_configure_handler : Bool → Box → ℕ → Server → Server
  request_configure_handler mapped ev v w =
      if mapped
      then with_view_scene
          (λ s. resize v ev.width ev.height (
            modify v
              (λ x. record x {
                geometry = record (x.geometry) { width = ev.width; height = ev.height };
              })
              s))
          w
      else with_view_scene (emit (xwayland_configure v ev.x ev.y ev.width ev.height)) w

  -- The position and the size that a surface of Xwayland has.
  abbrev pub placed_at : Box → View → View
  placed_at box v = record v {
    x = box.x;
    y = box.y;
    geometry = record (v.geometry) { width = box.width; height = box.height };
  }

  abbrev stands_at : Box → View → Bool
  stands_at box v =
      eqb_ℤ box.x v.x
      && eqb_ℤ box.y v.y
      && eqb_ℤ box.width v.geometry.width
      && eqb_ℤ box.height v.geometry.height

  -- `XwaylandView::surface_commit_handler`, with the box that the surface has.
  unfoldable pub xwayland_commit_handler : Box → ℕ → Server → Option Server
  xwayland_commit_handler box v w =
      if ltb_ℤ (w.scene.view v).workspace_id (pos 0)
      then some w
      else if stands_at box (w.scene.view v)
      then damaged w
      else and_then (arrange_recovered v (with_view_scene (modify v (placed_at box)) w)) damaged
