-- ===== src/Layers/Handlers.antt =====
-- The events of a layer surface: the handlers of cardboard/Layers.cpp, `create_layer`, and
-- `Server::new_layer_surface_handler` of Server.cpp. Popups are left to wlroots.
use cardboard.Base.{
  ℕ, ◌==◌, Bool, false, ◌&&◌, Option, none, some, List, [], ◌∷◌, ◌++◌, if◌then◌else◌, any,
  get_elem?,
}
use cardboard.Base.Int.{ℤ}
use cardboard.Base.Count.{without}
use cardboard.View.{same_ref, emit, damage_outputs}
use cardboard.Workspace.{Workspace}
use cardboard.Seat.{Outside, and_then}
use cardboard.Seat.Views.{get_focused_workspace}
use cardboard.Cursor.{Layers, Pointing, cursor_rebase}
use cardboard.Layers.{
  Level, background, bottom, top, overlay, Panels, Shell, closed, modify_layer, tell,
}
use cardboard.Layers.Arrange.{arrange_layers, focus_shell, seen}

-- `layers[level]`
abbrev pub layer_of : Level → Layers → List ℕ
layer_of background layers = layers.background
layer_of bottom layers = layers.bottom
layer_of top layers = layers.top
layer_of overlay layers = layers.overlay

abbrev pub with_layer : Level → List ℕ → Layers → Layers
with_layer background ls layers = record layers { background = ls }
with_layer bottom ls layers = record layers { bottom = ls }
with_layer top ls layers = record layers { top = ls }
with_layer overlay ls layers = record layers { overlay = ls }

abbrev pub level_index : Level → ℕ
level_index background = 0
level_index bottom = 1
level_index top = 2
level_index overlay = 3

abbrev pub same_level : Level → Level → Bool
same_level a b = level_index a == level_index b

abbrev pub push_back : Level → ℕ → Layers → Layers
push_back level l layers = with_layer level (layer_of level layers ++ l ∷ []) layers

abbrev pub remove_from : Level → ℕ → Layers → Layers
remove_from level l layers = with_layer level (without l (layer_of level layers)) layers

-- A new surface at the end of the list of the level that its client asks for, in the state that the
-- client asks for.
unfoldable pub register_layer : ℕ → Panels → Panels
register_layer l p =
    let level = (p.surface l).client_pending.level in
    modify_layer l (λ surface. record surface { layer = level; current = surface.client_pending })
      (record p { layers = push_back level l p.layers })

-- Where the surface is found in the list of its old level, `splice` is called with the position and
-- the element the other way round: it is to move the end of the new list, which is undefined.
unfoldable pub change_level : ℕ → Panels → Option Panels
change_level l p =
    let old = (p.surface l).layer in
    let new = (p.surface l).current.level in
    if same_level old new
    then some p
    else if any (λ k. k == l) (layer_of old p.layers)
    then none
    else some (modify_layer l (λ surface. record surface { layer = new }) p)

unfoldable pub forget_layer : ℕ → Panels → Panels
forget_layer l p = record p { layers = remove_from (p.surface l).layer l p.layers }

-- The last mapped surface of a client in a list.
abbrev pub last_mapped : (ℕ → Bool) → List ℕ → Option ℕ → Option ℕ
last_mapped takes [] candidate = candidate
last_mapped takes (l ∷ ls) candidate = last_mapped takes ls (if takes l then some l else candidate)

abbrev pub else_search : Option ℕ → Option ℕ → Option ℕ
else_search none next = next
else_search (some l) next = some l

-- The search over the lists, from the background up.
unfoldable pub layer_to_focus : (ℕ → Bool) → Layers → Option ℕ
layer_to_focus takes layers = else_search (last_mapped takes layers.background none) (
    else_search (last_mapped takes layers.bottom none)
      (else_search (last_mapped takes layers.top none) (last_mapped takes layers.overlay none)))

-- Without its output the surface is closed.
unfoldable pub forget_output : ℕ → Panels → Panels
forget_output l p = tell (closed l) (modify_layer l (λ surface. record surface { output = none }) p)

abbrev pub set_dirty : Shell → Shell
set_dirty sh = record sh {
  server = record (sh.server) { scene = emit damage_outputs sh.server.scene };
}

abbrev output_of : ℕ → Panels → Option ℕ
output_of l p = (p.surface l).output

abbrev pub with_panels : Panels → Shell → Shell
with_panels p sh = record sh { panels = p }

abbrev workspace_output : Option Workspace → Option ℕ
workspace_output none = none
workspace_output (some ws) = ws.output

abbrev first_output : List ℕ → Option ℕ
first_output [] = none
first_output (o ∷ os) = some o

module _ (out : Outside) (resolution : ℕ → ℤ × ℤ) where
  abbrev pub arrange_if : Option ℕ → Shell → Option Shell
  arrange_if none sh = some sh
  arrange_if (some o) sh = arrange_layers out (resolution o) o sh

  abbrev pub arrange_required : Option ℕ → Shell → Option Shell
  arrange_required none sh = none
  arrange_required (some o) sh = arrange_layers out (resolution o) o sh

  -- `create_layer`. `current` is the old state again in the end.
  unfoldable pub create_layer : ℕ → Shell → Option Shell
  create_layer l sh =
      let old_state = (sh.panels.surface l).current in
      and_then
        (arrange_required (output_of l sh.panels) (with_panels (register_layer l sh.panels) sh))
        (λ sh'. some (
          with_panels
            (modify_layer l (λ surface. record surface { current = old_state }) sh'.panels) sh'))

  -- `LayerSurface::commit_handler`
  unfoldable pub commit_handler : ℕ → Shell → Option Shell
  commit_handler l sh =
      and_then (arrange_if (output_of l sh.panels) sh)
        (λ sh'. and_then (change_level l sh'.panels) (λ p. some (set_dirty (with_panels p sh'))))

  -- `LayerSurface::destroy_handler`
  unfoldable pub destroy_handler : ℕ → Shell → Option Shell
  destroy_handler l sh =
      arrange_if (output_of l sh.panels) (with_panels (forget_layer l sh.panels) sh)

  -- `LayerSurface::map_handler`
  unfoldable pub map_handler : Pointing → ℕ → Shell → Shell
  map_handler p l sh = record sh {
    server = cursor_rebase p (seen sh.panels out) sh.panels.layers sh.server;
  }

  -- `LayerSurface::unmap_handler`
  unfoldable pub unmap_handler : ℕ → Shell → Option Shell
  unmap_handler l sh =
      if same_ref sh.server.seat.focused_layer (some l) then focus_shell out none sh else some sh

  abbrev pub focus_candidate : Option ℕ → Shell → Option Shell
  focus_candidate none sh = some sh
  focus_candidate (some l) sh = focus_shell out (some l) sh

  -- The keyboard goes to another layer of the exclusive client.
  abbrev pub refocus : ℕ → Shell → Option Shell
  refocus l sh =
      let client = out.layer_client l in
      if same_ref (some client) sh.server.seat.exclusive_client
      then focus_candidate
          (layer_to_focus (λ k. out.layer_client k == client && (sh.panels.surface k).mapped)
            sh.panels.layers)
          sh
      else some sh

  -- `LayerSurface::output_destroy_handler`
  unfoldable pub output_destroy_handler : ℕ → Shell → Option Shell
  output_destroy_handler l sh =
      and_then
        (refocus l (
          with_panels (modify_layer l (λ surface. record surface { mapped = false }) sh.panels) sh))
        (λ sh'. some (with_panels (forget_output l sh'.panels) sh'))

  abbrev assign_output : Option ℕ → ℕ → Shell → Option Shell
  assign_output none l sh = some (with_panels (tell (closed l) sh.panels) sh)
  assign_output (some o) l sh =
      create_layer l
        (with_panels (modify_layer l (λ surface. record surface { output = some o }) sh.panels) sh)

  -- `Server::new_layer_surface_handler`, with the output that the client asks for and the list of
  -- the outputs.
  unfoldable pub new_layer_surface_handler : Option ℕ → List ℕ → ℕ → Shell → Option Shell
  unfolding create_layer
  new_layer_surface_handler asked outputs l sh =
      assign_output
        (else_search asked (
          else_search
            (workspace_output
              (get_elem? sh.server.workspaces (get_focused_workspace out sh.server)))
            (first_output outputs)))
        l sh
