-- ===== src/Seat/Released.antt =====
-- A grab that ends gives back what it took (cardboard/Seat.cpp).
use cardboard.Base.{
  get_elem?-set_self, set-set, set, ap, sym, subst, ◌∙◌, ℕ, ◌==◌, ◌≡◌, refl, true, ◌&&◌, ◌⊎◌, none,
  some, List, arith, get_elem?,
}
use cardboard.Base.Int.{ℤ, pos, negsuc}
use cardboard.View.{same_ref}
use cardboard.Workspace.{Workspace}
use cardboard.Seat.{Outside, workspace_at, index_of}
use cardboard.Seat.Grab.{
  Grabbing, Pointer, begin_move, begin_resize, end_interactive, is_grabbing, resizing,
  workspace_index,
}

pub workspace_at-get_elem? :
    (z : ℤ) (xs : List Workspace) (ws : Workspace)
    → workspace_at z xs ≡ some ws
    → get_elem? xs (index_of z) ≡ some ws
workspace_at-get_elem? (pos i) xs ws h = h
workspace_at-get_elem? (negsuc i) xs ws h = ground arith

restored :
    (out : Outside) (pointer : Pointer) (v edges : ℕ) (g : Grabbing) (ws : Workspace)
    → workspace_at (g.server.scene.view v).workspace_id g.server.workspaces ≡ some ws
    → (end_interactive (resizing out pointer v edges g ws)).server.workspaces ≡ g.server.workspaces
unfolding end_interactive
restored out pointer v edges g ws there =
    let found =
      workspace_at-get_elem? (g.server.scene.view v).workspace_id g.server.workspaces ws there in
    let paused = record ws { suspend_animations = true } in
    rw (get_elem?-set_self g.server.workspaces (workspace_index g v) ws paused found)
      (set-set g.server.workspaces (workspace_index g v) ws paused found)

begun :
    (out : Outside) (pointer : Pointer) (v edges : ℕ) (g g1 : Grabbing) (ws : Workspace)
    → same_ref (some (out.get_surface v)) pointer.focused_surface ≡ true
    → workspace_at (g.server.scene.view v).workspace_id g.server.workspaces ≡ some ws
    → begin_resize out pointer v edges g ≡ some g1
    → resizing out pointer v edges g ws ≡ g1
unfolding begin_resize
begun out pointer v edges g g1 ws hit there e = ground (arith, hit, there, e)

-- After begin_resize on the surface of a view that has a workspace, and any changes to the server
-- that keep the grab and the place of the workspace, ending the grab sets that workspace's
-- suspension of animations to what it was before the grab, changes nothing else of the workspaces
-- and nothing of the scene, and leaves no grab. Right after begin_resize it gives back the
-- workspaces as they were before.
pub end_interactive-begin_resize :
    (out : Outside) (pointer : Pointer) (v edges : ℕ) (g g1 g2 : Grabbing) (ws ws2 : Workspace)
    → same_ref (some (out.get_surface v)) pointer.focused_surface ≡ true
    → workspace_at (g.server.scene.view v).workspace_id g.server.workspaces ≡ some ws
    → begin_resize out pointer v edges g ≡ some g1
    → g2.grab_state ≡ g1.grab_state
    → get_elem? g2.server.workspaces (workspace_index g v) ≡ some ws2
    → ((end_interactive g2).server.workspaces
        ≡ set g2.server.workspaces
            (workspace_index g v)
            (record ws2 { suspend_animations = ws.suspend_animations }))
      × ((end_interactive g2).server.scene ≡ g2.server.scene)
      × ((end_interactive g2).grab_state ≡ none)
      × ((end_interactive g1).server.workspaces ≡ g.server.workspaces)
unfolding end_interactive
end_interactive-begin_resize out pointer v edges g g1 g2 ws ws2 hit there e keeps at =
    let start = begun out pointer v edges g g1 ws hit there e in
    let grab = keeps ∙ ap (λ (x : Grabbing). x.grab_state) (sym start) in
    (
      rw (grab, at) refl,
      rw (grab, at) refl,
      rw grab refl,
      subst (λ (x : Grabbing). (end_interactive x).server.workspaces ≡ g.server.workspaces) start
          (restored out pointer v edges g ws there),
    )

-- A view is grabbed after begin_move or begin_resize, where they do not fail, exactly if it is the
-- view and the pointer is on its surface.
pub is_grabbing-begin :
    (out : Outside) (pointer : Pointer) (v edges u : ℕ) (g g' : Grabbing)
    → (begin_move out pointer v g ≡ some g') ⊎ (begin_resize out pointer v edges g ≡ some g')
    → is_grabbing g'.grab_state u
      ≡ (same_ref (some (out.get_surface v)) pointer.focused_surface && v == u)
unfolding begin_resize begin_move is_grabbing
is_grabbing-begin out pointer v edges u g g' e = ground arith
