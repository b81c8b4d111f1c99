-- ===== src/Motion/Switch.antt =====
-- Another workspace comes to the output under the cursor: `Seat::focus` for a workspace, of
-- cardboard/Seat.cpp, with the views that slide in and out.
--
-- `warped x y` is what is under the cursor once it has been warped there.
use cardboard.Base.{
  ℕ, ◌==◌, Bool, true, false, Option, none, some, List, [], ◌∷◌, ◌++◌, if◌then◌else◌, get_elem?,
  ltb,
}
use cardboard.Base.Int.{ℤ, pos, ◌+ℤ◌, ◌-ℤ◌, half_ℤ, eqb_ℤ}
use cardboard.View.{
  Scene, Callback, no_callback, focus_arrived, deactivate_previous, move, modify, enqueue_task,
}
use cardboard.Workspace.{Tile, Column, Workspace, Env, mapped_and_normal_tiles}
use cardboard.Workspace.Arrange.{arrange_workspace}
use cardboard.Workspace.Edit.Output.{activate, deactivate}
use cardboard.Seat.{Server, Outside, and_then, store_workspace, focus_view}
use cardboard.Seat.Grab.{Grabbing}
use cardboard.Seat.Views.{get_focused_workspace, find_focus}
use cardboard.Cursor.{Pointing, Layers, cursor_rebase}
use cardboard.Motion.{Doubles, process_cursor_motion}

-- `AnimationTask`
pub record AnimationTask : Type 0 where
  pub view : ℕ
  pub target_x : ℤ
  pub target_y : ℤ
  pub callback : Callback

-- A move from where the view is to `offset` above it.
abbrev pub rise : ℤ → ℕ → Scene → AnimationTask
rise offset v s = record {
  view = v;
  target_x = (s.view v).x;
  target_y = (s.view v).y -ℤ offset;
  callback = no_callback;
}

abbrev pub tile_tasks : ℤ → List Tile → Scene → List AnimationTask
tile_tasks offset [] s = []
tile_tasks offset (t ∷ ts) s = rise offset t.view s ∷ tile_tasks offset ts s

abbrev pub column_tasks : ℤ → List Column → Scene → List AnimationTask
column_tasks offset [] s = []
column_tasks offset (c ∷ cs) s =
    tile_tasks offset (mapped_and_normal_tiles s.view c.tiles) s ++ column_tasks offset cs s

abbrev pub floating_tasks : ℤ → List ℕ → Scene → List AnimationTask
floating_tasks offset [] s = []
floating_tasks offset (v ∷ vs) s = rise offset v s ∷ floating_tasks offset vs s

-- The views of the new workspace start below or above the output. The tasks are read behind this
-- loop, and not in it, as no view is twice in the two workspaces.
abbrev pub lower_tiles : ℤ → List Tile → Scene → Scene
lower_tiles offset [] s = s
lower_tiles offset (t ∷ ts) s =
    lower_tiles offset ts (move t.view (s.view t.view).x ((s.view t.view).y +ℤ offset) s)

abbrev pub lower_columns : ℤ → List Column → Scene → Scene
lower_columns offset [] s = s
lower_columns offset (c ∷ cs) s =
    lower_columns offset cs (lower_tiles offset (mapped_and_normal_tiles s.view c.tiles) s)

-- The floating views of the previous workspace are moved too, without telling them.
abbrev pub lower_floating : ℤ → List ℕ → Scene → Scene
lower_floating offset [] s = s
lower_floating offset (v ∷ vs) s =
    lower_floating offset vs (modify v (λ w. record w { y = w.y +ℤ offset }) s)

-- `animation_tasks.back().animation_finished_callback = callback`, and the loop that enqueues them.
abbrev pub enqueue_all : ℕ → Callback → List AnimationTask → Scene → Scene
enqueue_all now last [] s = s
enqueue_all now last (t ∷ []) s = enqueue_task now t.view t.target_x t.target_y last s
enqueue_all now last (t ∷ u ∷ ts) s =
    enqueue_all now last (u ∷ ts) (enqueue_task now t.view t.target_x t.target_y t.callback s)

abbrev pub is_nonempty : List AnimationTask → Bool
is_nonempty [] = false
is_nonempty (t ∷ ts) = true

module _ (env : Env) (out : Outside) (warped : ℤ → ℤ → Pointing) (layers : Layers)
    (d : Doubles) where
  -- The view of the workspace that had the focus last.
  abbrev last_focused_on : ℕ → Server → Option ℕ
  last_focused_on index w =
      find_focus (λ u. eqb_ℤ (w.scene.view u).workspace_id (pos index)) w.seat.focus_stack

  -- The end of `Seat::focus`, and its first callback: the cursor goes to the middle of the output
  -- and the workspace gets the focus.
  unfoldable pub arrive : (output index : ℕ) → Grabbing → Option Grabbing
  arrive o index g =
      let area = env.usable_area o in
      let box = env.output_box o in
      let p =
        warped (box.x +ℤ area.x +ℤ half_ℤ area.width) (box.y +ℤ area.y +ℤ half_ℤ area.height) in
      and_then (process_cursor_motion env out p layers d g) (λ g1.
        and_then (focus_view env out (last_focused_on index g1.server) false g1.server)
          (λ w. some (record g1 { server = cursor_rebase p out layers w })))

  abbrev pub height_offset : ℕ → Workspace → Workspace → ℤ
  height_offset o previous ws =
      if ltb previous.index ws.index
      then (env.usable_area o).height
      else pos 0 -ℤ (env.usable_area o).height

  -- The new workspace is laid out, and its views are put where they slide in from.
  abbrev pub slide_in : ℕ → ℤ → Workspace → Workspace → Scene → Scene
  slide_in o offset previous ws s =
      lower_floating offset previous.floating_views
        (lower_columns offset ws.columns (arrange_workspace env ws false s))

  abbrev incoming : ℤ → Workspace → Workspace → Scene → List AnimationTask
  incoming offset previous ws s =
      column_tasks offset ws.columns s ++ floating_tasks offset previous.floating_views s

  abbrev outgoing : ℤ → Workspace → Scene → List AnimationTask
  outgoing offset previous s =
      column_tasks offset previous.columns s ++ floating_tasks offset previous.floating_views s

  -- The previous workspace slides out, and leaves its output at the end, or at once if it has no
  -- views to slide.
  abbrev pub slide_out : ℕ → Workspace → List AnimationTask → Server → Server
  slide_out k previous [] w = store_workspace k w (deactivate previous w.scene)
  slide_out k previous (t ∷ ts) w = record w {
    scene = enqueue_all env.now (deactivate_previous previous.index) (t ∷ ts) w.scene;
  }

  -- The new workspace, at position `i`, takes the output `o` of the one at position `k`.
  unfoldable pub slide : (o i k : ℕ) → Workspace → Workspace → Server → Server
  slide o i k previous ws w =
      let offset = height_offset o previous ws in
      let (ws1, s1) = activate o ws w.scene in
      let s2 = slide_in o offset previous ws1 s1 in
      let s3 =
        enqueue_all env.now (focus_arrived o ws.index) (incoming offset previous ws1 s2) s2 in
      slide_out k previous (outgoing offset previous s3) (store_workspace i w (ws1, s3))

  -- Whether anything slides in, and the focus waits for it.
  abbrev pub waits : (o : ℕ) → Workspace → Workspace → Server → Bool
  waits o previous ws w =
      let offset = height_offset o previous ws in
      let (ws1, s1) = activate o ws w.scene in
      is_nonempty (incoming offset previous ws1 (slide_in o offset previous ws1 s1))

  abbrev take_output : ℕ → ℕ → Workspace → Workspace → Option ℕ → Grabbing → Option Grabbing
  take_output i k previous ws none g = none
  take_output i k previous ws (some o) g =
      let g' = record g { server = slide o i k previous ws g.server } in
      if waits o previous ws g.server then some g' else arrive o ws.index g'

  abbrev focus_on : ℕ → ℕ → Workspace → Option ℕ → Grabbing → Option Grabbing
  focus_on i k ws (some o) g = arrive o ws.index g
  focus_on i k ws none g =
      and_then (get_elem? g.server.workspaces k)
        (λ previous. take_output i k previous ws previous.output g)

  -- `Seat::focus`, for the workspace at a position. `none` where no workspace is under the cursor.
  unfoldable pub focus : ℕ → Grabbing → Option Grabbing
  focus i g =
      let k = get_focused_workspace out g.server in
      if i == k
      then some g
      else and_then (get_elem? g.server.workspaces i) (λ ws. focus_on i k ws ws.output g)
