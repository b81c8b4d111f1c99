-- ===== src/Layers/Arrange.antt =====
-- How `arrange_layers` of cardboard/Layers.cpp places the layer surfaces of an output, what it leaves
-- for the views, and which of them gets the keyboard.
use cardboard.Base.{
  ℕ, Bool, true, false, not, ◌&&◌, Option, none, some, List, [], ◌∷◌, if◌then◌else◌, find_position,
}
use cardboard.Base.Int.{ℤ, pos, negsuc, ltb_ℤ, eqb_ℤ}
use cardboard.Base.Store.{update}
use cardboard.View.{Box, Scene, same_ref}
use cardboard.Workspace.{Workspace, Env}
use cardboard.Workspace.Arrange.{arrange_workspace}
use cardboard.Workspace.Fit.{fit_view_on_screen}
use cardboard.Seat.{Outside, and_then, get_focused_view, focus_layer}
use cardboard.Cursor.{Layers}
use cardboard.ViewOperations.{on_workspace}
use cardboard.Layers.{
  Level, background, bottom, top, overlay, LayerSurface, closed, configured, Panels, Shell,
  modify_layer, tell, apply_exclusive_zone, box_in, full_area,
}

-- One surface gets its place in the usable area, or on the whole output, and takes what it
-- reserves from the usable area. It is closed where it has no room.
abbrev pub arrange_surface : ℤ × ℤ → ℕ → Box × Panels → Box × Panels
arrange_surface size l (area, p) =
    let state = (p.surface l).current in
    let bounds = if eqb_ℤ state.exclusive_zone (negsuc 0) then full_area size else area in
    let box = box_in state bounds in
    if (if ltb_ℤ box.width (pos 0) then true else ltb_ℤ box.height (pos 0))
    then (area, tell (closed l) p)
    else (
      apply_exclusive_zone state area,
      tell (configured l box.width box.height)
          (modify_layer l (λ surface. record surface { geometry = box }) p),
    )

abbrev pub same_bool : Bool → Bool → Bool
same_bool a b = if a then b else not b

abbrev pub arrange_surface_if : ℤ × ℤ → ℕ → Bool → ℕ → Box × Panels → Box × Panels
arrange_surface_if size o exclusive l (area, p) =
    let surface = p.surface l in
    if same_ref surface.output (some o)
      && same_bool exclusive (ltb_ℤ (pos 0) surface.current.exclusive_zone)
    then arrange_surface size l (area, p)
    else (area, p)

unfoldable pub arrange_layer : ℤ × ℤ → ℕ → Bool → List ℕ → Box × Panels → Box × Panels
arrange_layer size o exclusive [] r = r
arrange_layer size o exclusive (l ∷ ls) r =
    arrange_layer size o exclusive ls (arrange_surface_if size o exclusive l r)

-- The four calls, from top to bottom.
abbrev pub arrange_each : ℤ × ℤ → ℕ → Bool → Layers → Box × Panels → Box × Panels
arrange_each size o exclusive layers r = arrange_layer size o exclusive layers.background (
    arrange_layer size o exclusive layers.bottom
      (arrange_layer size o exclusive layers.top (arrange_layer size o exclusive layers.overlay r)))

abbrev pub same_box : Box → Box → Bool
same_box a b = eqb_ℤ a.x b.x && eqb_ℤ a.y b.y && eqb_ℤ a.width b.width && eqb_ℤ a.height b.height

abbrev fit_focused : Env → Option ℕ → Workspace → Scene → Workspace × Scene
fit_focused env none ws s = (ws, arrange_workspace env ws true s)
fit_focused env (some v) ws s =
    if eqb_ℤ (s.view v).workspace_id (pos ws.index)
    then fit_view_on_screen env v false ws s
    else (ws, arrange_workspace env ws true s)

-- The workspace of the output is laid out in a new usable area.
abbrev pub lay_out : ℕ → Shell → Option Shell
lay_out o sh =
    let i = find_position (λ (ws : Workspace). same_ref ws.output (some o)) sh.server.workspaces in
    and_then
      (on_workspace i (λ ws s. some (fit_focused sh.env (get_focused_view sh.server.seat) ws s))
        sh.server)
      (λ w. some (record sh { server = w }))

abbrev pub change_area : ℕ → Box → Shell → Option Shell
change_area o area sh =
    if same_box area (sh.env.usable_area o)
    then some sh
    else lay_out o
        (record sh { env = record (sh.env) { usable_area = update sh.env.usable_area o area } })

-- The first surface that takes the keyboard.
abbrev pub first_interactive : ℕ → (ℕ → LayerSurface) → List ℕ → Option ℕ
first_interactive o surface [] = none
first_interactive o surface (l ∷ ls) =
    if (surface l).current.keyboard_interactive
      && same_ref (surface l).output (some o)
      && (surface l).mapped
    then some l
    else first_interactive o surface ls

abbrev pub topmost : ℕ → Panels → Option ℕ
topmost o p = elim (first_interactive o p.surface p.layers.overlay) [
  | none ↦ first_interactive o p.surface p.layers.top
  | some l ↦ some l
]

abbrev is_above : Level → Bool
is_above background = false
is_above bottom = false
is_above top = true
is_above overlay = true

-- What the seat sees of the layers.
abbrev pub seen : Panels → Outside → Outside
seen p out = record out {
  layer_mapped = λ l. (p.surface l).mapped;
  layer_on_top = λ l. is_above (p.surface l).current.level;
}

module _ (out : Outside) where
  abbrev pub focus_shell : Option ℕ → Shell → Option Shell
  focus_shell layer sh =
      and_then (focus_layer sh.env (seen sh.panels out) layer sh.server)
        (λ w. some (record sh { server = w }))

  abbrev pub drop_focus : Option ℕ → Shell → Option Shell
  drop_focus none sh = some sh
  drop_focus (some l) sh =
      if (sh.panels.surface l).current.keyboard_interactive then some sh else focus_shell none sh

  abbrev pub focus_topmost : Option ℕ → Shell → Option Shell
  focus_topmost none sh = drop_focus sh.server.seat.focused_layer sh
  focus_topmost (some l) sh = focus_shell (some l) sh

  -- What follows the change of the usable area: the surfaces that reserve nothing, and the focus.
  abbrev pub arrange_rest : ℤ × ℤ → ℕ → Box × Panels → Shell → Option Shell
  arrange_rest size o r sh =
      let p = (arrange_each size o false r.1.layers r).1 in
      focus_topmost (topmost o p) (record sh { panels = p })

  -- `arrange_layers`, with the effective resolution of the output.
  unfoldable pub arrange_layers : ℤ × ℤ → ℕ → Shell → Option Shell
  unfolding arrange_layer
  arrange_layers size o sh =
      let r = arrange_each size o true sh.panels.layers (full_area size, sh.panels) in
      and_then (change_area o r.0 (record sh { panels = r.1 })) (arrange_rest size o r)
