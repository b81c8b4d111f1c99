-- ===== src/ViewOperations.antt =====
-- The operations on a view that look after its workspace: cardboard/ViewOperations.cpp.
--
-- `none` is a workspace index out of range, `end()` dereferenced, or an assertion that fails.
pub mod Places
pub mod Refines
pub mod Frame
pub mod Fullscreen
pub mod Simulates
pub mod Life
pub mod Examples
use cardboard.Base.{
  ℕ, ◌==◌, Bool, true, false, not, ◌&&◌, ◌||◌, Option, none, some, List, [], ◌∷◌, if◌then◌else◌,
  length, get_elem?, set, find_position,
}
use cardboard.Base.Int.{ℤ, pos, ◌+ℤ◌, ◌-ℤ◌, half_ℤ, ltb_ℤ, leb_ℤ, eqb_ℤ}
use cardboard.View.{
  Box, View, Scene, ExpansionState, normal, recovering, fullscreen, same_ref, move, resize,
  try_resize,
}
use cardboard.Workspace.{
  Tile, Column, Workspace, Env, find_column, is_view_floating, mapped_and_normal_tiles,
}
use cardboard.Workspace.Arrange.{arrange_workspace}
use cardboard.Workspace.Edit.{add_view, remove_view, set_fullscreen_view}
use cardboard.Seat.{
  Server, Outside, and_then, get_view_workspace, index_of, store_workspace, focus_view,
}
use cardboard.Seat.Views.{find_focus}
use cardboard.Cursor.{Pointing, Layers, cursor_rebase}

-- `OutputManager::get_output_real_usable_area`
abbrev pub get_output_real_usable_area : Env → ℕ → Box
get_output_real_usable_area env o =
    let area = env.usable_area o in
    record area { x = area.x +ℤ (env.output_box o).x; y = area.y +ℤ (env.output_box o).y }

-- An operation on the workspace at a position.
abbrev pub on_workspace :
    ℕ → (Workspace → Scene → Option (Workspace × Scene)) → Server → Option Server
on_workspace i f w =
    and_then (get_elem? w.workspaces i)
      (λ ws. and_then (f ws w.scene) (λ r. some (store_workspace i w r)))

abbrev pub is_fullscreen : ExpansionState → Bool
is_fullscreen normal = false
is_fullscreen recovering = false
is_fullscreen fullscreen = true

abbrev pub is_some : Option ℕ → Bool
is_some none = false
is_some (some a) = true

abbrev scrolled : ℤ → Workspace → Workspace
scrolled x ws = record ws { scroll_x = x }

module _ (env : Env) where
  -- `scroll_workspace` to an absolute value, and by a difference.
  unfoldable pub scroll_to : ℕ → ℤ → Bool → Server → Option Server
  scroll_to i x animate w =
      on_workspace i (λ ws s. some (scrolled x ws, arrange_workspace env (scrolled x ws) animate s))
        w

  unfoldable pub scroll_by : ℕ → ℤ → Bool → Server → Option Server
  scroll_by i dx animate w =
      on_workspace i
        (λ ws s. some (
          scrolled (ws.scroll_x +ℤ dx) ws,
          arrange_workspace env (scrolled (ws.scroll_x +ℤ dx) ws) animate s,
        ))
        w

  abbrev pub resize_tiles : ℤ → ℤ → List Tile → Scene → Scene
  resize_tiles width height [] s = s
  resize_tiles width height (t ∷ ts) s = resize_tiles width height ts (resize t.view width height s)

  abbrev resize_in_column : ℕ → ℤ → ℤ → Option Column → Scene → Option Scene
  resize_in_column v width height none s = try_resize v width height s
  resize_in_column v width height (some c) s =
      some
        (resize_tiles width (s.view v).geometry.height (mapped_and_normal_tiles s.view c.tiles) s)

  -- `reconfigure_view_size`
  unfoldable pub reconfigure_view_size : ℕ → ℤ → ℤ → Server → Option Server
  reconfigure_view_size v width height w = and_then (get_view_workspace w v) (λ ws.
      and_then
        (resize_in_column v width height (get_elem? ws.columns (find_column (some v) ws.columns))
          w.scene)
        (λ s. some (record w { scene = s })))

  abbrev pub displaced : Option Box → ℕ → Scene → Scene
  displaced none v s = s
  displaced (some area) v s =
      if ltb_ℤ (s.view v).x area.x
        || leb_ℤ (area.x +ℤ area.width) (s.view v).x
        || ltb_ℤ (s.view v).y area.y
        || leb_ℤ (area.y +ℤ area.height) (s.view v).y
      then move v (area.x +ℤ half_ℤ area.width) (area.y +ℤ half_ℤ area.height) s
      else s

  abbrev pub area_of : Option ℕ → Option Box
  area_of none = none
  area_of (some o) = some (get_output_real_usable_area env o)

  -- A floating view that is not on the usable area of its new output goes to the middle of it.
  unfoldable pub fit_floating : ℕ → Bool → Workspace → Server → Server
  fit_floating v floating new w =
      if floating && not (is_fullscreen (w.scene.view v).expansion_state)
      then record w { scene = displaced (area_of new.output) v w.scene }
      else w

  abbrev pub clear_fullscreen : Workspace → Scene → Option (Workspace × Scene)
  clear_fullscreen ws s =
      if is_some ws.fullscreen_view then set_fullscreen_view env none ws s else some (ws, s)

  abbrev pub with_fullscreen : ℕ → Workspace → Scene → Option (Workspace × Scene)
  with_fullscreen v ws s = and_then (clear_fullscreen ws s) (λ (ws', s').
      let ws'' = record ws' { fullscreen_view = some v } in
      some (ws'', arrange_workspace env ws'' true s'))

  -- A fullscreen view becomes the fullscreen view of the workspace at the position.
  unfoldable pub bring_fullscreen : ℕ → ℕ → Server → Option Server
  bring_fullscreen v j w =
      if is_fullscreen (w.scene.view v).expansion_state
      then on_workspace j (with_fullscreen v) w
      else some w

  -- The view leaves the workspace at one position and joins the one at the other.
  unfoldable pub transfer : ℕ → Bool → ℕ → ℕ → Server → Option Server
  transfer v floating i j w =
      and_then (on_workspace i (λ ws s. some (remove_view env v false ws s)) w)
        (on_workspace j (λ ws s. some (add_view env v none floating false ws s)))

module _ (env : Env) (out : Outside) (p : Pointing) (layers : Layers) where
  -- The view of a workspace that had the focus last.
  abbrev pub last_focused : (ℕ → Bool) → ℕ → Server → Option ℕ
  last_focused allowed i w =
      find_focus (λ u. if allowed u then eqb_ℤ (w.scene.view u).workspace_id (pos i) else false)
        w.seat.focus_stack

  abbrev pub change_between : ℕ → ℕ → ℕ → Workspace → Workspace → Server → Option Server
  change_between v i j ws new w =
      let floating = is_view_floating v ws in
      and_then (bring_fullscreen env v j w) (λ w1.
        and_then (transfer env v floating i j (fit_floating env v floating new w1)) (λ w2.
          and_then (focus_view env out (last_focused (λ u. not (u == v)) ws.index w2) false w2)
            (λ w3. some (cursor_rebase p out layers w3))))

  -- `change_view_workspace`, to the workspace at a position.
  unfoldable pub change_view_workspace : ℕ → ℕ → Server → Option Server
  change_view_workspace v j w = and_then (get_view_workspace w v) (λ ws.
      and_then (get_elem? w.workspaces j) (λ new.
        if index_of (w.scene.view v).workspace_id == j
        then some w
        else change_between v (index_of (w.scene.view v).workspace_id) j ws new w))

  abbrev follow_output : ℕ → Option ℕ → Workspace → Server → Option Server
  follow_output v none ws w = some w
  follow_output v (some o) ws w =
      if same_ref ws.output (some o)
      then some w
      else change_view_workspace v
          (find_position (λ (u : Workspace). same_ref u.output (some o)) w.workspaces) w

  -- `update_view_workspace`
  unfoldable pub update_view_workspace : ℕ → Server → Option Server
  update_view_workspace v w = and_then (get_view_workspace w v) (λ ws.
      if is_view_floating v ws
      then follow_output v (p.output_at (w.scene.view v).x (w.scene.view v).y) ws w
      else some w)

  -- `reconfigure_view_position`
  unfoldable pub reconfigure_view_position : ℕ → ℤ → ℤ → Bool → Server → Option Server
  reconfigure_view_position v x y animate w = and_then (get_view_workspace w v) (λ ws.
      if find_column (some v) ws.columns == length ws.columns
      then update_view_workspace v (record w { scene = move v x y w.scene })
      else scroll_by env (index_of (w.scene.view v).workspace_id) ((w.scene.view v).x -ℤ x) animate
          w)
