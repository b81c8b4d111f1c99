-- ===== src/Commands/Windows.antt =====
-- The commands on one window: `toggle_floating` and `cycle_width` of cardboard/commands/commands.h,
-- with `View::cycle_width` of cardboard/View.cpp.
pub mod Floating
use cardboard.Base.{
  ℕ, ◌==◌, Bool, true, false, not, Option, none, some, List, [], ◌∷◌, if◌then◌else◌, last?,
}
use cardboard.Base.Int.{ℤ, pos, eqb_ℤ}
use cardboard.View.{Box, View, Scene, modify, try_resize, same_ref}
use cardboard.Workspace.{Column, Workspace, Env, is_view_floating}
use cardboard.Workspace.Edit.{add_view, remove_view}
use cardboard.Workspace.Fit.{fit_view_on_screen}
use cardboard.Seat.{and_then, get_focused_view}
use cardboard.Commands.{
  Compositor, World, Outcome, server_of, env_of, answer, views_workspace, store_if,
}

abbrev swap_saved : ℕ → Option Box → Scene → Option Scene
swap_saved v none s = none
swap_saved v (some saved) s = some (
    modify v
      (λ w. record w {
        saved_state = some (record saved { width = w.previous_size.0; height = w.previous_size.1 });
        previous_size = (saved.width, saved.height);
      })
      s)

abbrev pub remember_size : ℕ → Scene → Scene
remember_size v s =
    modify v (λ w. record w { previous_size = (w.geometry.width, w.geometry.height) }) s

-- The size that the view had when it was last floating or tiled comes back.
unfoldable pub restore_size : ℕ → Workspace → Scene → Option Scene
restore_size v ws s =
    if same_ref ws.fullscreen_view (some v)
    then swap_saved v (s.view v).saved_state s
    else try_resize v (s.view v).previous_size.0 (s.view v).previous_size.1 (remember_size v s)

abbrev last_tile : Option Column → Option ℕ
last_tile none = none
last_tile (some c) = elim (last? c.tiles) [ none ↦ none | some t ↦ some t.view ]

-- `ws.columns.empty() ? nullptr : ws.columns.back().tiles.back().view`
abbrev pub last_view : List Column → Option ℕ
last_view cs = last_tile (last? cs)

-- The view leaves its place for the other kind of place.
unfoldable pub replace_view : Env → ℕ → Bool → Workspace → Scene → Workspace × Scene
replace_view env v floating ws s =
    let (ws', s') = remove_view env v true ws s in
    add_view env v (last_view ws'.columns) (not floating) true ws' s'

-- The next view of the focus stack on the workspace of `v`.
abbrev pub previous_on : ℕ → (ℕ → View) → List ℕ → Option ℕ
previous_on v view [] = none
previous_on v view (u ∷ stack) =
    if u == v
    then previous_on v view stack
    else if eqb_ℤ (view u).workspace_id (view v).workspace_id
    then some u
    else previous_on v view stack

abbrev pub fit_if : Env → Option ℕ → Workspace × Scene → Workspace × Scene
fit_if env none r = r
fit_if env (some u) r = fit_view_on_screen env u true r.0 r.1

-- A view that floats now leaves no hole: the one that had the focus before is scrolled to.
abbrev pub show_after : Env → ℕ → Bool → List ℕ → Workspace × Scene → Workspace × Scene
show_after env v true stack r = fit_view_on_screen env v false r.0 r.1
show_after env v false stack r = fit_if env (previous_on v r.1.view stack) r

unfoldable pub toggled : Env → ℕ → List ℕ → Workspace → Scene → Option (Workspace × Scene)
toggled env v stack ws s =
    let floating = is_view_floating v ws in
    and_then (restore_size v ws s)
      (λ s'. some (show_after env v floating stack (replace_view env v floating ws s')))

-- The operations on `double` of `View::cycle_width`: the ratio of two lengths, `a <= b`, whether two
-- differ by less than 0.01, and `static_cast<int>(width * ratio)`.
pub record Ratios : Type 0 where
  pub ratio_of : ℤ → ℤ → ℕ
  pub at_most : ℕ → ℕ → Bool
  pub close : ℕ → ℕ → Bool
  pub scale : ℤ → ℕ → ℤ

-- The bit patterns of 1 - 1 / phi, 0.5 and 1 / phi.
abbrev pub ratios : List ℕ
ratios = 0x3fd8722191a02d62 ∷ 0x3fe0000000000000 ∷ 0x3fe3c6ef372fe94f ∷ []

-- The loop over the ratios that are at most the current one: those that are left.
abbrev pub larger : Ratios → ℕ → List ℕ → List ℕ
larger q current [] = []
larger q current (r ∷ rs) = if q.at_most r current then larger q current rs else r ∷ rs

-- The ratio after the one at hand, if that is close; with none left the array is read behind its
-- end.
abbrev pub next_ratio : Ratios → ℕ → List ℕ → Option ℕ
next_ratio q current [] = none
next_ratio q current (r ∷ []) = some (if q.close current r then 0x3fd8722191a02d62 else r)
next_ratio q current (r ∷ s ∷ rs) = some (if q.close current r then s else r)

-- `View::cycle_width`
unfoldable pub view_cycle_width : Ratios → ℕ → ℤ → Scene → Option Scene
view_cycle_width q v screen_width s =
    let current = q.ratio_of (s.view v).geometry.width screen_width in
    if eqb_ℤ screen_width (pos 0)
    then some s
    else and_then (next_ratio q current (larger q current ratios))
        (λ r. try_resize v (q.scale screen_width r) (s.view v).geometry.height s)

abbrev take_target : ℕ → Scene → Scene
take_target v s =
    modify v
      (λ w. record w {
        geometry = record (w.geometry) { width = w.target_width; height = w.target_height };
      })
      s

abbrev pub widened : Env → Ratios → ℕ → Option ℕ → Workspace → Scene → Option (Workspace × Scene)
widened env q v none ws s = some (ws, s)
widened env q v (some o) ws s =
    and_then (view_cycle_width q v (env.output_box o).width s)
      (λ s'. some (fit_view_on_screen env v true ws (take_target v s')))

module _ (world : World) where
  abbrev toggle_of : Option ℕ → Compositor → Outcome
  toggle_of none c = answer [] c
  toggle_of (some v) c = and_then (views_workspace c v) (λ ws.
      store_if v c
        (toggled (env_of world c) v (server_of c).seat.focus_stack ws (server_of c).scene))

  -- `commands::toggle_floating`
  unfoldable pub run_toggle_floating : Compositor → Outcome
  run_toggle_floating c = toggle_of (get_focused_view (server_of c).seat) c

  abbrev cycle_of : Ratios → Option ℕ → Compositor → Outcome
  cycle_of q none c = answer [] c
  cycle_of q (some v) c =
      and_then (views_workspace c v)
        (λ ws. store_if v c (widened (env_of world c) q v ws.output ws (server_of c).scene))

  -- `commands::cycle_width`
  unfoldable pub run_cycle_width : Ratios → Compositor → Outcome
  run_cycle_width q c = cycle_of q (get_focused_view (server_of c).seat) c
